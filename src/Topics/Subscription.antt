-- ===== src/Topics/Subscription.antt =====
-- momento/topic_subscription.go: the loop that reads a subscription and reconnects it. What happens
-- while a call of Event runs is a list of inputs, one for each round of its loop.
use client_sdk_go.Base.{suc, zero, ℕ, Option, none, some, List, [], ◌∷◌}
use client_sdk_go.Text.{GoString, Bytes}
use client_sdk_go.Errors.{GoError, Fault, nil_dereference, Result, ok, err, panic}
use client_sdk_go.Errors.Convert.{FromError}
use client_sdk_go.Topics.{XSubscriptionRequest, PubSubClient, Opened, drop_stream, topic_subscribe}

-- TopicValue.
pub data TopicValue : Type 0 where
  text : GoString → TopicValue
  binary : Bytes → TopicValue

-- The pointer to a pb.XTopicValue in an item: nil, one whose oneof is unset, or one with a value.
pub data ItemValue : Type 0 where
  nil_item_value unset_kind : ItemValue
  kind : TopicValue → ItemValue

-- The messages of a stream; `unrecognized` is any other.
pub data Message : Type 0 where
  item_message : ℕ → ℕ → GoString → ItemValue → Message
  discontinuity_message : ℕ → ℕ → ℕ → Message
  heartbeat_message : Message
  unrecognized : Message

-- TopicItem, with its value, publisher, sequence number and page; TopicDiscontinuity;
-- TopicHeartbeat.
pub data TopicEvent : Type 0 where
  topic_item : TopicValue → GoString → ℕ → ℕ → TopicEvent
  topic_discontinuity : ℕ → ℕ → ℕ → TopicEvent
  topic_heartbeat : TopicEvent

-- What one round of the loop of Event meets.
pub data Input : Type 0 where
  -- the caller's context, or that of the stream, is done before the receive: its error
  done : GoError → Input
  -- a message
  receive : Message → Input
  -- the receive fails, and a context is done: the context's error
  failed_done : GoError → Input
  -- the receive fails, no context is done, and the server answers so to the attempts to reconnect
  disconnected : List Opened → Input

pub record TopicSubscription : Type 0 where
  pub cache_name : GoString
  pub topic_name : GoString
  pub last_known_sequence_number : ℕ
  pub last_known_sequence_page : ℕ

-- What attemptReconnect asks for.
unfoldable pub resume_request : TopicSubscription → XSubscriptionRequest
resume_request s = record {
  cache_name = s.cache_name;
  topic = s.topic_name;
  resume_at_topic_sequence_number = s.last_known_sequence_number;
  sequence_page = s.last_known_sequence_page;
}

-- Where a loop stands when the inputs end: it has returned, or it waits.
pub data Progress (A : Type 0) : Type 0 where
  returned : A → Progress A
  waits : PubSubClient → Progress A
  faults : Fault → Progress A

-- The subscription after an item.
unfoldable pub seen_item : ℕ → ℕ → TopicSubscription → TopicSubscription
seen_item n page s = record s { last_known_sequence_number = n; last_known_sequence_page = page }

module _ (from_error : FromError) (runtime_version : GoString) where
  -- attemptReconnect: it tries until a stream is opened.
  unfoldable pub attempt_reconnect :
      TopicSubscription → List Opened → PubSubClient → Progress PubSubClient
  attempt_reconnect s [] c = waits c
  attempt_reconnect s (o ∷ os) c =
      let (result, c') = topic_subscribe from_error runtime_version (resume_request s) o c in
      let again = attempt_reconnect s os c' in
      elim result [ ok i ↦ returned c' | err e ↦ again | panic p ↦ faults p ]

  -- A returned call of Event: its outcome, the subscription and the client after it, and the inputs
  -- that it did not use.
  pub record Returned : Type 0 where
    pub outcome : Result TopicEvent
    pub subscription : TopicSubscription
    pub client : PubSubClient
    pub unused : List Input

  abbrev give :
      Result TopicEvent → TopicSubscription → PubSubClient → List Input → Progress Returned
  give r s c rest = returned (record { outcome = r; subscription = s; client = c; unused = rest })

  -- Event. It reads the kind of an item's value, also through a nil pointer, after it has stored the
  -- position; an item whose kind is unset falls out of the switch, and the loop goes on.
  unfoldable pub event : TopicSubscription → List Input → PubSubClient → Progress Returned
  unfolding seen_item
  event s [] c = waits c
  event s (done e ∷ rest) c = give (err e) s (drop_stream c) rest
  event s (failed_done e ∷ rest) c = give (err e) s (drop_stream c) rest
  event s (disconnected os ∷ rest) c = elim (attempt_reconnect s os (drop_stream c)) [
    | returned c' ↦ event s rest c'
    | waits c' ↦ waits c'
    | faults p ↦ faults p
  ]
  event s (receive (discontinuity_message last new page) ∷ rest) c =
      give (ok (topic_discontinuity last new page)) s c rest
  event s (receive (item_message n page publisher (kind value)) ∷ rest) c =
      give (ok (topic_item value publisher n page)) (seen_item n page s) c rest
  event s (receive (item_message n page publisher nil_item_value) ∷ rest) c = faults nil_dereference
  event s (receive (item_message n page publisher unset_kind) ∷ rest) c =
      event (seen_item n page s) rest c
  event s (receive heartbeat_message ∷ rest) c = give (ok topic_heartbeat) s c rest
  event s (receive unrecognized ∷ rest) c = event s rest c

  -- A returned call of Item.
  pub record ReturnedItem : Type 0 where
    pub value : Result TopicValue
    pub after : TopicSubscription
    pub client_after : PubSubClient
    pub left : List Input

  abbrev end_item : Result TopicValue → Returned → Option (Progress ReturnedItem)
  end_item v r = some (
      returned
        (record { value = v; after = r.subscription; client_after = r.client; left = r.unused }))

  -- Item: events up to the first item. `none` means that the fuel ran out.
  unfoldable pub item :
      ℕ → TopicSubscription → List Input → PubSubClient → Option (Progress ReturnedItem)
  unfolding event
  item zero s inputs c = none
  item (suc fuel) s inputs c = elim (event s inputs c) [
    | waits c' ↦ some (waits c')
    | faults p ↦ some (faults p)
    | returned r ↦ elim r.outcome [
      | err e ↦ end_item (err e) r
      | panic p ↦ end_item (panic p) r
      | ok e ↦ elim e [
        | topic_item v publisher n page ↦ end_item (ok v) r
        | topic_discontinuity last new page ↦ item fuel r.subscription r.unused r.client
        | topic_heartbeat ↦ item fuel r.subscription r.unused r.client
      ]
    ]
  ]
