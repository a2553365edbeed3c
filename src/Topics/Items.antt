-- ===== src/Topics/Items.antt =====
-- What a call of Item does: the fuel that it needs, and the count of streams after it.
use client_sdk_go.Base.{
  ℕ, zero, suc, ◌<◌, ℤ, pred_ℤ, ◌≡◌, refl, ◌∙◌, some, List, [], ◌∷◌, arith, length, subst,
}
use client_sdk_go.Text.{GoString}
use client_sdk_go.Errors.{Result, ok, err, panic}
use client_sdk_go.Errors.Convert.{FromError}
use client_sdk_go.Topics.{PubSubClient, Opened, drop_stream}
use client_sdk_go.Topics.Subscription.{
  TopicSubscription, TopicValue, TopicEvent, topic_item, topic_discontinuity, topic_heartbeat,
  Input, done, receive, failed_done, disconnected, item_message, nil_item_value, unset_kind, kind,
  discontinuity_message, heartbeat_message, unrecognized, Progress, returned, waits, faults,
  seen_item, attempt_reconnect, Returned, event, ReturnedItem, item,
}
use client_sdk_go.Topics.Events.{event-IsReturned}

-- The count after a call of Item, as after a call of Event.
abbrev pub ItemCounts : Result TopicValue → ℤ → ℤ → Type 0
ItemCounts (ok v) before after = after ≡ before
ItemCounts (err e) before after = after ≡ pred_ℤ before
ItemCounts (panic p) before after = ⊥

module _ (from_error : FromError) (runtime_version : GoString) where
  -- The inputs that a call of Event leaves.
  abbrev Shorter : List Input → Progress (Returned from_error runtime_version) → Type 0
  Shorter inputs (returned r) = length r.unused < length inputs
  Shorter inputs (waits c) = Unit
  Shorter inputs (faults p) = Unit

  Shorter-more :
      (i : Input) (inputs : List Input) (p : Progress (Returned from_error runtime_version))
      → Shorter inputs p
      → Shorter (i ∷ inputs) p
  Shorter-more i inputs (returned r) h = omega (arith, h)
  Shorter-more i inputs (waits c) h = tt
  Shorter-more i inputs (faults p) h = tt

  lost-Shorter :
      (s : TopicSubscription) (os : List Opened) (rest : List Input) (p : Progress PubSubClient)
      → ((c' : PubSubClient) → Shorter rest (event from_error runtime_version s rest c'))
      → Shorter
          (disconnected os ∷ rest)
          (elim p as (λ _. Progress (Returned from_error runtime_version)) [
            | returned c' ↦ event from_error runtime_version s rest c'
            | waits c' ↦ waits c'
            | faults f ↦ faults f
          ])
  lost-Shorter s os rest (returned c') h = Shorter-more (disconnected os) rest _ (h c')
  lost-Shorter s os rest (waits c') h = tt
  lost-Shorter s os rest (faults f) h = tt

  event-Shorter :
      (s : TopicSubscription) (inputs : List Input) (c : PubSubClient)
      → Shorter inputs (event from_error runtime_version s inputs c)
  unfolding event
  event-Shorter s [] c = tt
  event-Shorter s (done x ∷ rest) c = omega arith
  event-Shorter s (failed_done x ∷ rest) c = omega arith
  event-Shorter s (disconnected os ∷ rest) c =
      lost-Shorter s os rest (attempt_reconnect from_error runtime_version s os (drop_stream c))
        (λ c'. event-Shorter s rest c')
  event-Shorter s (receive (discontinuity_message last new page) ∷ rest) c = omega arith
  event-Shorter s (receive (item_message n page publisher (kind value)) ∷ rest) c = omega arith
  event-Shorter s (receive (item_message n page publisher nil_item_value) ∷ rest) c = tt
  event-Shorter s (receive (item_message n page publisher unset_kind) ∷ rest) c =
      Shorter-more (receive (item_message n page publisher unset_kind)) rest _
        (event-Shorter (seen_item n page s) rest c)
  event-Shorter s (receive heartbeat_message ∷ rest) c = omega arith
  event-Shorter s (receive unrecognized ∷ rest) c =
      Shorter-more (receive unrecognized) rest _ (event-Shorter s rest c)

  -- Where a call of Item stands.
  pub record IsReturnedItem (s : TopicSubscription) (c : PubSubClient)
      (r : ReturnedItem from_error runtime_version) : Type 0 where
    pub item_counts : ItemCounts r.value c.num_grpc_streams r.client_after.num_grpc_streams
    pub cache_kept : r.after.cache_name ≡ s.cache_name
    pub topic_kept : r.after.topic_name ≡ s.topic_name

  abbrev pub Stands :
      TopicSubscription → PubSubClient → Progress (ReturnedItem from_error runtime_version) → Type 0
  Stands s c (returned r) = IsReturnedItem s c r
  Stands s c (waits c') = Unit
  Stands s c (faults p) = Unit

  Finishes : ℕ → TopicSubscription → List Input → PubSubClient → Type 0
  Finishes fuel s inputs c =
      (p : Progress (ReturnedItem from_error runtime_version)) × (item from_error runtime_version
          fuel s inputs c
        ≡ some p)
      × Stands s c p

  Stands-after :
      (s s' : TopicSubscription) (c c' : PubSubClient)
      (p : Progress (ReturnedItem from_error runtime_version))
      → c'.num_grpc_streams ≡ c.num_grpc_streams
      → s'.cache_name ≡ s.cache_name
      → s'.topic_name ≡ s.topic_name
      → Stands s' c' p
      → Stands s c p
  Stands-after s s' c c' (returned r) n q t h = record {
    item_counts = subst (λ k. ItemCounts r.value k r.client_after.num_grpc_streams) n h.item_counts;
    cache_kept = h.cache_kept ∙ q;
    topic_kept = h.topic_kept ∙ t;
  }
  Stands-after s s' c c' (waits x) n q t h = tt
  Stands-after s s' c c' (faults x) n q t h = tt

  item_again :
      (fuel : ℕ) (s : TopicSubscription) (inputs : List Input) (c : PubSubClient)
      (r : Returned from_error runtime_version) (e : TopicEvent)
      → event from_error runtime_version s inputs c ≡ returned r
      → r.outcome ≡ ok e
      → item from_error runtime_version (suc fuel) s inputs c
        ≡ item from_error runtime_version fuel r.subscription r.unused r.client
      → Finishes fuel r.subscription r.unused r.client
      → Finishes (suc fuel) s inputs c
  unfolding Finishes
  item_again fuel s inputs c r e h o k (p, q, t) =
      let x = event-IsReturned from_error runtime_version s inputs c r h in
      let n : r.client.num_grpc_streams ≡ c.num_grpc_streams = rw o at x.counts in
      (p, k ∙ q, Stands-after s r.subscription c r.client p n x.same_cache x.same_topic t)

  stops :
      (fuel : ℕ) (s : TopicSubscription) (inputs : List Input) (c : PubSubClient)
      (r : Returned from_error runtime_version) (v : Result TopicValue)
      → event from_error runtime_version s inputs c ≡ returned r
      → item from_error runtime_version (suc fuel) s inputs c
        ≡ some (
            returned (record {
              value = v;
              after = r.subscription;
              client_after = r.client;
              left = r.unused;
            }))
      → ItemCounts v c.num_grpc_streams r.client.num_grpc_streams
      → Finishes (suc fuel) s inputs c
  unfolding Finishes
  stops fuel s inputs c r v h k n =
      let x = event-IsReturned from_error runtime_version s inputs c r h in
      (_, k, record { item_counts = n; cache_kept = x.same_cache; topic_kept = x.same_topic })

  by_outcome :
      (fuel : ℕ) (s : TopicSubscription) (inputs : List Input) (c : PubSubClient)
      (r : Returned from_error runtime_version) (o : Result TopicEvent)
      → event from_error runtime_version s inputs c ≡ returned r
      → r.outcome ≡ o
      → Finishes fuel r.subscription r.unused r.client
      → Finishes (suc fuel) s inputs c
  unfolding item
  by_outcome fuel s inputs c r (ok (topic_item v publisher n page)) h o t =
      let x = (event-IsReturned from_error runtime_version s inputs c r h).counts in
      stops fuel s inputs c r (ok v) h (ground (arith, h, o)) (rw o at x)
  by_outcome fuel s inputs c r (ok (topic_discontinuity last new page)) h o t =
      item_again fuel s inputs c r _ h o (ground (arith, h, o)) t
  by_outcome fuel s inputs c r (ok topic_heartbeat) h o t =
      item_again fuel s inputs c r _ h o (ground (arith, h, o)) t
  by_outcome fuel s inputs c r (err e) h o t =
      let x = (event-IsReturned from_error runtime_version s inputs c r h).counts in
      stops fuel s inputs c r (err e) h (ground (arith, h, o)) (rw o at x)
  by_outcome fuel s inputs c r (panic p) h o t =
      let x = (event-IsReturned from_error runtime_version s inputs c r h).counts in
      absurd (rw o at x)

  by_progress :
      (fuel : ℕ) (s : TopicSubscription) (inputs : List Input) (c : PubSubClient)
      (p : Progress (Returned from_error runtime_version))
      → event from_error runtime_version s inputs c ≡ p
      → Shorter inputs p
      → length inputs < suc fuel
      → ((s' : TopicSubscription) (rest : List Input) (c' : PubSubClient)
          → length rest < fuel
          → Finishes fuel s' rest c')
      → Finishes (suc fuel) s inputs c
  unfolding item Finishes
  by_progress fuel s inputs c (returned r) h short enough ih =
      by_outcome fuel s inputs c r r.outcome h refl
        (ih r.subscription r.unused r.client (omega arith))
  by_progress fuel s inputs c (waits c') h short enough ih = (waits c', ground (arith, h), tt)
  by_progress fuel s inputs c (faults f) h short enough ih = (faults f, ground (arith, h), tt)

  finishes :
      (fuel : ℕ) (s : TopicSubscription) (inputs : List Input) (c : PubSubClient)
      → length inputs < fuel
      → Finishes fuel s inputs c
  finishes zero s inputs c h = absurd (omega arith)
  finishes (suc fuel) s inputs c h =
      by_progress fuel s inputs c (event from_error runtime_version s inputs c) refl
        (event-Shorter s inputs c) h (λ s' rest c' k. finishes fuel s' rest c' k)

  -- With more fuel than there are inputs, Item does not run out of it. If it returns a value, the count of
  -- streams is as it was; if it returns an error, it is lower by one; a call that returns did not panic. The names
  -- of the cache and the topic stay.
  pub item-Stands :
      (fuel : ℕ) (s : TopicSubscription) (inputs : List Input) (c : PubSubClient)
      → length inputs < fuel
      → (p : Progress (ReturnedItem from_error runtime_version)) × (item from_error runtime_version
            fuel s inputs c
          ≡ some p)
        × Stands s c p
  unfolding Finishes
  item-Stands fuel s inputs c h = finishes fuel s inputs c h
