-- ===== src/Topics/Liveness.antt =====
-- That a call of Event returns, and a reconnection ends, if the server and the contexts let them.
use client_sdk_go.Base.{
  ℕ, ◌%◌, ◌^◌, ◌+◌, pred_ℤ, pred_ℤ-succ_ℤ, ◌≡◌, refl, ap, ◌∙◌, false, none, List, [], ◌∷◌, arith,
  ◌==◌,
}
use client_sdk_go.Text.{GoString}
use client_sdk_go.Errors.{GoError, ok, err}
use client_sdk_go.Errors.Convert.{FromError, Metadata, convert_svc_err}
use client_sdk_go.Topics.{
  XSubscriptionRequest, PubSubClient, Opened, opened, refused, drop_stream,
  check_num_concurrent_streams, topic_subscribe, get_next_stream_topic_manager,
}
use client_sdk_go.Topics.Subscription.{
  TopicSubscription, Input, done, receive, failed_done, disconnected, item_message, nil_item_value,
  unset_kind, kind, discontinuity_message, heartbeat_message, unrecognized, returned,
  resume_request, seen_item, attempt_reconnect, Returned, event,
}
use client_sdk_go.Topics.Laws.{attempt_reconnect-IsReconnected}

-- There is a connection, and room for one more stream.
pub record HasRoom (c : PubSubClient) : Type 0 where
  pub connected : (c.num_stream_channels == 0) ≡ false
  pub below : check_num_concurrent_streams c ≡ none

HasRoom-same :
    (c c' : PubSubClient)
    → c'.num_stream_channels ≡ c.num_stream_channels
    → c'.num_grpc_streams ≡ c.num_grpc_streams
    → HasRoom c
    → HasRoom c'
unfolding check_num_concurrent_streams
HasRoom-same c c' p q h = record { connected = rw p h.connected; below = rw (p, q) h.below }

module _ (from_error : FromError) (runtime_version : GoString) where
  -- The server opens a stream at last, and its refusals before that are converted to errors.
  pub data Recovers : List Opened → Type 0 where
    now : (os : List Opened) → Recovers (opened ∷ os)
    later :
        (e x : GoError) (md : List Metadata) (os : List Opened)
        → convert_svc_err from_error e md ≡ ok x
        → Recovers os
        → Recovers (refused e md ∷ os)

  subscribes :
      (req : XSubscriptionRequest) (c : PubSubClient)
      → HasRoom c
      → (i : ℕ) × ((topic_subscribe from_error runtime_version req opened c).0 ≡ ok i)
        × ((topic_subscribe from_error runtime_version req opened c).1.num_stream_channels
            ≡ c.num_stream_channels)
  unfolding topic_subscribe get_next_stream_topic_manager
  subscribes req c h = (
    ((c.stream_topic_manager_count + 1) % 2 ^ 64) % c.num_stream_channels,
    ground (arith, h.connected, h.below),
    ground (arith, h.connected, h.below),
  )

  refusal :
      (req : XSubscriptionRequest) (c : PubSubClient) (e x : GoError) (md : List Metadata)
      → HasRoom c
      → convert_svc_err from_error e md ≡ ok x
      → ((topic_subscribe from_error runtime_version req (refused e md) c).0 ≡ err x)
        × ((topic_subscribe from_error runtime_version req (refused e md) c).1.num_stream_channels
            ≡ c.num_stream_channels)
        × ((topic_subscribe from_error runtime_version req (refused e md) c).1.num_grpc_streams
            ≡ c.num_grpc_streams)
  unfolding topic_subscribe get_next_stream_topic_manager
  refusal req c e x md h k =
      ground (arith, h.connected, h.below, k, pred_ℤ-succ_ℤ c.num_grpc_streams)

  -- A reconnection ends with a stream, on as many connections as before, if the client has room for it
  -- and the server recovers.
  pub attempt_reconnect-returned :
      (s : TopicSubscription) (os : List Opened) (c : PubSubClient)
      → HasRoom c
      → Recovers os
      → (c' : PubSubClient) × (attempt_reconnect from_error runtime_version s os c ≡ returned c')
        × (c'.num_stream_channels ≡ c.num_stream_channels)
  unfolding attempt_reconnect
  attempt_reconnect-returned s [] c h r = elim r [ ]
  attempt_reconnect-returned s (opened ∷ os) c h (now os1) =
      let (i, p, q) = subscribes (resume_request s) c h in
      (
        (topic_subscribe from_error runtime_version (resume_request s) opened c).1,
        ground (arith, p),
        q,
      )
  attempt_reconnect-returned s (refused e md ∷ os) c h (later e1 x md1 os1 k r) =
      let (p, q, n) = refusal (resume_request s) c e x md h k in
      let (c', returns, channels) =
        attempt_reconnect-returned s os
          (topic_subscribe from_error runtime_version (resume_request s) (refused e md) c).1
          (HasRoom-same c _ q n h) r in
      (c', ground (arith, p, returns), channels ∙ q)

  -- Sooner or later a context is done or an event comes, and before that the server recovers from
  -- each loss of the stream and sends no item without a value.
  abbrev pub Ends : List Input → Type 0
  Ends [] = ⊥
  Ends (disconnected os ∷ rest) = Recovers os × Ends rest
  Ends (receive (item_message n page publisher nil_item_value) ∷ rest) = ⊥
  Ends (receive (item_message n page publisher unset_kind) ∷ rest) = Ends rest
  Ends (receive unrecognized ∷ rest) = Ends rest
  Ends (_ ∷ rest) = Unit

  -- With the stream of the subscription counted off, the client has room for another: then a call of
  -- Event returns, if sooner or later a context is done or an event comes, and before that the server
  -- recovers from each loss of the stream and sends no item whose value is absent.
  pub event-returned :
      (s : TopicSubscription) (inputs : List Input) (c : PubSubClient)
      → HasRoom (drop_stream c)
      → Ends inputs
      → (r : Returned from_error runtime_version) × (event from_error runtime_version s inputs c
          ≡ returned r)
  unfolding event
  event-returned s [] c h e = absurd e
  event-returned s (done x ∷ rest) c h e = (_, refl)
  event-returned s (failed_done x ∷ rest) c h e = (_, refl)
  event-returned s (disconnected os ∷ rest) c h e =
      let (c', p, q) = attempt_reconnect-returned s os (drop_stream c) h e.0 in
      let t =
        attempt_reconnect-IsReconnected from_error runtime_version s os (drop_stream c) c' p in
      let n : (drop_stream c').num_grpc_streams ≡ (drop_stream c).num_grpc_streams =
        ap pred_ℤ t.counted ∙ pred_ℤ-succ_ℤ _ in
      let (r, k) =
        event-returned s rest c' (HasRoom-same (drop_stream c) (drop_stream c') q n h) e.1 in
      (r, ground (arith, p, k))
  event-returned s (receive (discontinuity_message last new page) ∷ rest) c h e = (_, refl)
  event-returned s (receive (item_message n page publisher (kind value)) ∷ rest) c h e = (_, refl)
  event-returned s (receive (item_message n page publisher nil_item_value) ∷ rest) c h e = absurd e
  event-returned s (receive (item_message n page publisher unset_kind) ∷ rest) c h e =
      event-returned (seen_item n page s) rest c h e
  event-returned s (receive heartbeat_message ∷ rest) c h e = (_, refl)
  event-returned s (receive unrecognized ∷ rest) c h e = event-returned s rest c h e
