-- ===== src/Topics/Client/Leak.antt =====
-- The streams that Subscribe leaves counted, and those that Event counts off again.
use client_sdk_go.Base.{
  ℤ, negsuc, sub_ℕ, sym, ℕ, zero, suc, ◌+◌, pos, succ_ℤ, pred_ℤ, ◌≡◌, refl, ◌∙◌, false, ap, List,
  [], ◌∷◌, arith,
}
use client_sdk_go.Text.{GoString}
use client_sdk_go.Errors.{GoError, ok, err, ◌>>=◌}
use client_sdk_go.Errors.Convert.{FromError, convert_svc_err}
use client_sdk_go.Topics.{XSubscriptionRequest, PubSubClient, topic_subscribe, drop_stream}
use client_sdk_go.Topics.Subscription.{
  TopicSubscription, Input, done, Progress, returned, waits, faults, event,
}
use client_sdk_go.Topics.Client.{Attempt, first_failure, is_resource_exhausted, subscribe_loop}
use client_sdk_go.Topics.Laws.{topic_subscribe-opened}

-- A context that stays done for `k` rounds.
unfoldable pub stays_done : ℕ → GoError → List Input
stays_done zero e = []
stays_done (suc k) e = done e ∷ stays_done k e

-- A number less another.
abbrev pub lowered : ℤ → ℕ → ℤ
lowered (pos m) k = sub_ℕ m k
lowered (negsuc m) k = negsuc (m + k)

lowered-zero : (a : ℤ) → lowered a 0 ≡ a
lowered-zero (pos m) = ground arith
lowered-zero (negsuc m) = ap negsuc (omega arith)

lowered-pred_ℤ : (a : ℤ) (k : ℕ) → lowered (pred_ℤ a) k ≡ lowered a (suc k)
unfolding pred_ℤ
lowered-pred_ℤ (pos zero) k = ground arith
lowered-pred_ℤ (pos (suc m)) k = ground arith
lowered-pred_ℤ (negsuc m) k = ap negsuc (omega arith)

module _ (from_error : FromError) (runtime_version : GoString) where
  -- A Subscribe whose stream opens, and whose first receive fails with another status than
  -- ResourceExhausted, returns the error, and leaves the stream counted as open.
  pub subscribe_loop-leaks :
      (req : XSubscriptionRequest) (a : Attempt) (rest : List Attempt) (c : PubSubClient) (i : ℕ)
      (e : GoError)
      → (topic_subscribe from_error runtime_version req a.answer c).0 ≡ ok i
      → a.first ≡ first_failure e
      → is_resource_exhausted (from_error e) ≡ false
      → (c' : PubSubClient) × (subscribe_loop from_error runtime_version req (a ∷ rest) c
          ≡ returned (convert_svc_err from_error e [] >>= err, c'))
        × (c'.num_grpc_streams ≡ succ_ℤ c.num_grpc_streams)
  unfolding subscribe_loop
  subscribe_loop-leaks req a rest c i e opens fails other = (
    (topic_subscribe from_error runtime_version req a.answer c).1,
    ground (arith, opens, fails, other),
    (topic_subscribe-opened from_error runtime_version req a.answer c i opens).0,
  )

  -- Calls of Event, one after another, as long as each returns: the client after them.
  unfoldable pub events : ℕ → TopicSubscription → List Input → PubSubClient → Progress PubSubClient
  unfolding event
  events zero s inputs c = returned c
  events (suc k) s inputs c = elim (event from_error runtime_version s inputs c) [
    | returned r ↦ events k r.subscription r.unused r.client
    | waits c' ↦ waits c'
    | faults p ↦ faults p
  ]

  -- Each call of Event on a subscription that has ended counts a stream off, whatever the count is: after `k` calls
  -- the count of the client is lower by `k`, and negative if it was below `k`.
  pub events-counted_off :
      (k : ℕ) (s : TopicSubscription) (e : GoError) (c : PubSubClient)
      → (c' : PubSubClient) × (events k s (stays_done k e) c ≡ returned c')
        × (c'.num_grpc_streams ≡ lowered c.num_grpc_streams k)
  unfolding events stays_done event
  events-counted_off zero s e c = (c, refl, sym (lowered-zero c.num_grpc_streams))
  events-counted_off (suc k) s e c =
      let (c', done_all, less) = events-counted_off k s e (drop_stream c) in
      (c', done_all, less ∙ lowered-pred_ℤ c.num_grpc_streams k)
