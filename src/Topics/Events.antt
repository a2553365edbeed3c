-- ===== src/Topics/Events.antt =====
-- What a call of Event does to the count of streams and to the position of the subscription.
use client_sdk_go.Base.{
  ℕ, suc, ℤ, pred_ℤ, succ_ℤ-pred_ℤ, ◌≡◌, refl, ap, subst, ◌∙◌, List, [], ◌∷◌, ◌++◌, replicate,
}
use client_sdk_go.Text.{GoString}
use client_sdk_go.Errors.{Result, ok, err, panic}
use client_sdk_go.Errors.Convert.{FromError}
use client_sdk_go.Topics.{PubSubClient, Opened, drop_stream}
use client_sdk_go.Topics.Subscription.{
  TopicValue, TopicSubscription, TopicEvent, topic_item, Input, done, receive, failed_done,
  disconnected, item_message, nil_item_value, unset_kind, kind, discontinuity_message,
  heartbeat_message, unrecognized, Progress, returned, waits, faults, resume_request, seen_item,
  attempt_reconnect, Returned, event,
}
use client_sdk_go.Topics.Laws.{attempt_reconnect-IsReconnected, returned-injective}

-- The count after a call of Event: one less if it fails, and otherwise as before. A call that returns did not
-- panic.
abbrev pub Counts : Result TopicEvent → ℤ → ℤ → Type 0
Counts (ok e) before after = after ≡ before
Counts (err e) before after = after ≡ pred_ℤ before
Counts (panic p) before after = ⊥

-- An item that is returned is the position of the subscription.
abbrev pub Positions : Result TopicEvent → TopicSubscription → Type 0
Positions (ok (topic_item v publisher n page)) s =
    (s.last_known_sequence_number ≡ n) × (s.last_known_sequence_page ≡ page)
Positions _ s = Unit

module _ (from_error : FromError) (runtime_version : GoString) where
  pub record IsReturned (s : TopicSubscription) (c : PubSubClient)
      (r : Returned from_error runtime_version) : Type 0 where
    pub counts : Counts r.outcome c.num_grpc_streams r.client.num_grpc_streams
    pub positions : Positions r.outcome r.subscription
    pub same_cache : r.subscription.cache_name ≡ s.cache_name
    pub same_topic : r.subscription.topic_name ≡ s.topic_name

  after_reconnect :
      (s : TopicSubscription) (c c' : PubSubClient) (r : Returned from_error runtime_version)
      → c'.num_grpc_streams ≡ c.num_grpc_streams
      → IsReturned s c' r
      → IsReturned s c r
  after_reconnect s c c' r e t = record {
    counts = subst (λ n. Counts r.outcome n r.client.num_grpc_streams) e t.counts;
    positions = t.positions;
    same_cache = t.same_cache;
    same_topic = t.same_topic;
  }

  -- A subscription of the same names, at another position.
  unseen :
      (s' s : TopicSubscription) (c : PubSubClient) (r : Returned from_error runtime_version)
      → s'.cache_name ≡ s.cache_name
      → s'.topic_name ≡ s.topic_name
      → IsReturned s' c r
      → IsReturned s c r
  unseen s' s c r p q t = record {
    counts = t.counts;
    positions = t.positions;
    same_cache = t.same_cache ∙ p;
    same_topic = t.same_topic ∙ q;
  }

  reconnect_then :
      (s : TopicSubscription) (os : List Opened) (rest : List Input) (c : PubSubClient)
      (r : Returned from_error runtime_version) (progress : Progress PubSubClient)
      → attempt_reconnect from_error runtime_version s os (drop_stream c) ≡ progress
      → elim progress as (λ _. Progress (Returned from_error runtime_version)) [
        | returned c' ↦ event from_error runtime_version s rest c'
        | waits c' ↦ waits c'
        | faults p ↦ faults p
      ]
        ≡ returned r
      → ((c' : PubSubClient)
          → event from_error runtime_version s rest c' ≡ returned r
          → IsReturned s c' r)
      → IsReturned s c r
  reconnect_then s os rest c r (returned c') e h ih =
      let t =
        attempt_reconnect-IsReconnected from_error runtime_version s os (drop_stream c) c' e in
      after_reconnect s c c' r (t.counted ∙ succ_ℤ-pred_ℤ c.num_grpc_streams) (ih c' h)
  reconnect_then s os rest c r (waits c') e h ih = cc
  reconnect_then s os rest c r (faults p) e h ih = cc

  -- A call of Event that returns an error lowers the count of open streams by one; one that returns
  -- an event leaves it as it was, however often the stream was lost and opened again meanwhile. An
  -- item that it returns is the new position; the names of the cache and the topic stay.
  pub event-IsReturned :
      (s : TopicSubscription) (inputs : List Input) (c : PubSubClient)
      (r : Returned from_error runtime_version)
      → event from_error runtime_version s inputs c ≡ returned r
      → IsReturned s c r
  unfolding event seen_item
  event-IsReturned s [] c r h = cc
  event-IsReturned s (done e ∷ rest) c r h =
      subst (IsReturned s c) (returned-injective _ _ h)
        (record { counts = refl; positions = tt; same_cache = refl; same_topic = refl })
  event-IsReturned s (failed_done e ∷ rest) c r h =
      subst (IsReturned s c) (returned-injective _ _ h)
        (record { counts = refl; positions = tt; same_cache = refl; same_topic = refl })
  event-IsReturned s (disconnected os ∷ rest) c r h =
      reconnect_then s os rest c r
        (attempt_reconnect from_error runtime_version s os (drop_stream c)) refl h
        (λ c' k. event-IsReturned s rest c' r k)
  event-IsReturned s (receive (discontinuity_message last new page) ∷ rest) c r h =
      subst (IsReturned s c) (returned-injective _ _ h)
        (record { counts = refl; positions = tt; same_cache = refl; same_topic = refl })
  event-IsReturned s (receive (item_message n page publisher (kind value)) ∷ rest) c r h =
      subst (IsReturned s c) (returned-injective _ _ h)
        (record { counts = refl; positions = (refl, refl); same_cache = refl; same_topic = refl })
  event-IsReturned s (receive (item_message n page publisher nil_item_value) ∷ rest) c r h = cc
  event-IsReturned s (receive (item_message n page publisher unset_kind) ∷ rest) c r h =
      unseen (seen_item n page s) s c r refl refl (event-IsReturned (seen_item n page s) rest c r h)
  event-IsReturned s (receive heartbeat_message ∷ rest) c r h =
      subst (IsReturned s c) (returned-injective _ _ h)
        (record { counts = refl; positions = tt; same_cache = refl; same_topic = refl })
  event-IsReturned s (receive unrecognized ∷ rest) c r h = event-IsReturned s rest c r h

  -- After Event has returned an item, each request that a reconnection with a stream at its end sends names the
  -- cache, the topic, the item's sequence number and its page.
  pub event_resumes :
      (s : TopicSubscription) (inputs : List Input) (c : PubSubClient)
      (r : Returned from_error runtime_version) (value : TopicValue) (publisher : GoString)
      (n page : ℕ) (os : List Opened) (c₁ c₂ : PubSubClient)
      → event from_error runtime_version s inputs c ≡ returned r
      → r.outcome ≡ ok (topic_item value publisher n page)
      → attempt_reconnect from_error runtime_version r.subscription os c₁ ≡ returned c₂
      → (k : ℕ) × (c₂.requests
          ≡ replicate (suc k) (record {
            cache_name = s.cache_name;
            topic = s.topic_name;
            resume_at_topic_sequence_number = n;
            sequence_page = page;
          })
            ++ c₁.requests)
  unfolding resume_request
  event_resumes s inputs c r value publisher n page os c₁ c₂ h item h' =
      let t = event-IsReturned s inputs c r h in
      let u =
        attempt_reconnect-IsReconnected from_error runtime_version r.subscription os c₁ c₂ h' in
      let at : Positions (ok (topic_item value publisher n page)) r.subscription =
        rw item at t.positions in
      let same : resume_request r.subscription ≡ record {
        cache_name = s.cache_name;
        topic = s.topic_name;
        resume_at_topic_sequence_number = n;
        sequence_page = page;
      } =
        λ i. record {
          cache_name = t.same_cache i;
          topic = t.same_topic i;
          resume_at_topic_sequence_number = at.0 i;
          sequence_page = at.1 i;
        } in
      (u.sent, u.resumed ∙ ap (λ q. replicate (suc u.sent) q ++ c₁.requests) same)
