-- ===== src/Topics/Laws.antt =====
-- How the topic client counts its streams, and where a subscription resumes.
use client_sdk_go.Base.{
  ℕ, zero, suc, succ_ℤ, pred_ℤ-succ_ℤ, ◌≡◌, refl, ap, subst, ◌∙◌, ◌⊎◌, inl, inr, List, [], ◌∷◌,
  ◌++◌, replicate, arith,
}
use client_sdk_go.Text.{GoString}
use client_sdk_go.Errors.{GoError, Result, ok, err, panic}
use client_sdk_go.Errors.Convert.{FromError}
use client_sdk_go.Topics.{
  XSubscriptionRequest, PubSubClient, Opened, get_next_stream_topic_manager, topic_subscribe,
}
use client_sdk_go.Topics.Subscription.{
  TopicSubscription, Progress, returned, faults, resume_request, attempt_reconnect,
}

replicate_middle {ℓ} :
    {A : Type ℓ} (n : ℕ) (a : A) (xs : List A)
    → replicate n a ++ (a ∷ xs) ≡ replicate (suc n) a ++ xs
replicate_middle zero a xs = refl
replicate_middle (suc n) a xs = ap (λ ys. a ∷ ys) (replicate_middle n a xs)

pub returned-injective : {A : Type 0} (a b : A) → returned a ≡ returned b → a ≡ b
returned-injective a b h = cc

module _ (from_error : FromError) (runtime_version : GoString) where
  module _ (req : XSubscriptionRequest) (o : Opened) (c : PubSubClient) where
    abbrev subscribed : Result ℕ × PubSubClient
    subscribed = topic_subscribe from_error runtime_version req o c

    -- A stream that is opened is counted, and its request was sent.
    pub topic_subscribe-opened :
        (i : ℕ)
        → subscribed.0 ≡ ok i
        → (subscribed.1.num_grpc_streams ≡ succ_ℤ c.num_grpc_streams)
          × (subscribed.1.requests ≡ req ∷ c.requests)
    unfolding topic_subscribe get_next_stream_topic_manager
    topic_subscribe-opened i h = ground arith

    -- A subscription that fails leaves the count as it was.
    pub topic_subscribe-failed :
        (e : GoError)
        → subscribed.0 ≡ err e
        → (subscribed.1.num_grpc_streams ≡ c.num_grpc_streams)
          × ((subscribed.1.requests ≡ c.requests) ⊎ (subscribed.1.requests ≡ req ∷ c.requests))
    unfolding topic_subscribe get_next_stream_topic_manager
    topic_subscribe-failed e h = ground (arith, pred_ℤ-succ_ℤ c.num_grpc_streams)

  -- A reconnection that ends has opened one stream; of the requests that it sent, at least one, each
  -- resumes at the position of the subscription.
  pub record IsReconnected (s : TopicSubscription) (c c' : PubSubClient) : Type 0 where
    pub counted : c'.num_grpc_streams ≡ succ_ℤ c.num_grpc_streams
    pub sent : ℕ
    pub resumed : c'.requests ≡ replicate (suc sent) (resume_request s) ++ c.requests

  after_success :
      (s : TopicSubscription) (o : Opened) (c : PubSubClient) (i : ℕ)
      → (subscribed (resume_request s) o c).0 ≡ ok i
      → IsReconnected s c (subscribed (resume_request s) o c).1
  after_success s o c i e =
      let (n, q) = topic_subscribe-opened (resume_request s) o c i e in
      record { counted = n; sent = 0; resumed = q }

  after_failure :
      (s : TopicSubscription) (o : Opened) (c c' : PubSubClient) (x : GoError)
      → (subscribed (resume_request s) o c).0 ≡ err x
      → IsReconnected s (subscribed (resume_request s) o c).1 c'
      → IsReconnected s c c'
  after_failure s o c c' x e t =
      let (n, q) = topic_subscribe-failed (resume_request s) o c x e in
      elim q [
        | inl unsent ↦ record {
          counted = t.counted ∙ ap succ_ℤ n;
          sent = t.sent;
          resumed = rw unsent at t.resumed;
        }
        | inr again ↦ record {
          counted = t.counted ∙ ap succ_ℤ n;
          sent = suc t.sent;
          resumed =
              t.resumed
              ∙ (ap (λ x. replicate (suc t.sent) (resume_request s) ++ x) again
                  ∙ replicate_middle (suc t.sent) (resume_request s) c.requests);
        }
      ]

  reconnect_step :
      (s : TopicSubscription) (o : Opened) (os : List Opened) (c c' : PubSubClient)
      (result : Result ℕ)
      → (subscribed (resume_request s) o c).0 ≡ result
      → elim result as (λ _. Progress PubSubClient) [
        | ok i ↦ returned (subscribed (resume_request s) o c).1
        | err e ↦
            attempt_reconnect from_error runtime_version s os (subscribed (resume_request s) o c).1
        | panic p ↦ faults p
      ]
        ≡ returned c'
      → ((c₁ : PubSubClient)
          → attempt_reconnect from_error runtime_version s os c₁ ≡ returned c'
          → IsReconnected s c₁ c')
      → IsReconnected s c c'
  reconnect_step s o os c c' (ok i) e h ih =
      subst (IsReconnected s c) (returned-injective _ _ h) (after_success s o c i e)
  reconnect_step s o os c c' (err x) e h ih = after_failure s o c c' x e (ih _ h)
  reconnect_step s o os c c' (panic p) e h ih = cc

  -- However often an attempt fails, a reconnection that ends has opened one stream, and asked only for
  -- the messages after the last item that the subscription has seen.
  pub attempt_reconnect-IsReconnected :
      (s : TopicSubscription) (os : List Opened) (c c' : PubSubClient)
      → attempt_reconnect from_error runtime_version s os c ≡ returned c'
      → IsReconnected s c c'
  unfolding attempt_reconnect
  attempt_reconnect-IsReconnected s [] c c' h = cc
  attempt_reconnect-IsReconnected s (o ∷ os) c c' h =
      reconnect_step s o os c c' (subscribed (resume_request s) o c).0 refl h
        (λ c₁ k. attempt_reconnect-IsReconnected s os c₁ c' k)
