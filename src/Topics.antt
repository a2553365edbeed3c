-- ===== src/Topics.antt =====
-- momento/pubsub_client.go: the streams of the topic client. The client counts the streams that are
-- open and refuses a subscription when the connections have no room for another. The server is a
-- parameter: what it answers to a subscription comes with each call.
pub mod Subscription
pub mod Client
pub mod Laws
pub mod Events
pub mod Liveness
pub mod Items
pub mod Bounds
pub mod Publish
use client_sdk_go.Base.{
  ℕ, ◌+◌, ◌*◌, ◌%◌, ◌^◌, ℤ, pos, lez, succ_ℤ, pred_ℤ, Bool, Option, none, some, List, [], ◌∷◌, ◌==◌,
  if◌then◌else◌,
}
use client_sdk_go.Text.{GoString}
use client_sdk_go.Errors.{
  limit_exceeded_error, fixed, GoError, nil_error, new_momento_svc_err, division_by_zero, Result,
  ok, err, panic, ◌>>=◌,
}
use client_sdk_go.Errors.Convert.{FromError, Metadata, convert_svc_err}
use client_sdk_go.Metadata.{HeadersSent, Headers, topic, create_metadata}

-- pb.XSubscriptionRequest, which has the fields of a TopicSubscribeRequest.
pub record XSubscriptionRequest : Type 0 where
  pub cache_name : GoString
  pub topic : GoString
  pub resume_at_topic_sequence_number : ℕ
  pub sequence_page : ℕ

-- The state of pubSubClient that changes, with the map of the headers, and `requests`, the
-- subscriptions that were sent to the server, the latest first.
pub record PubSubClient : Type 0 where
  pub num_stream_channels : ℕ  -- uint32
  pub num_grpc_streams : ℤ  -- int64
  pub stream_topic_manager_count : ℕ  -- uint64
  pub headers_sent : HeadersSent
  pub requests : List XSubscriptionRequest

-- client.numStreamChannels * 100, a product of uint32.
unfoldable pub max_concurrent_streams : PubSubClient → ℕ
max_concurrent_streams c = (c.num_stream_channels * 100) % 2 ^ 32

-- checkNumConcurrentStreams: the error, or nil.
unfoldable pub check_num_concurrent_streams : PubSubClient → Option GoError
unfolding max_concurrent_streams new_momento_svc_err
check_num_concurrent_streams c =
    if lez (pos (max_concurrent_streams c)) c.num_grpc_streams
    then some (
        new_momento_svc_err limit_exceeded_error
          (fixed "Already at maximum number of concurrent grpc streams") nil_error)
    else none

abbrev pub add_stream : PubSubClient → PubSubClient
add_stream c = record c { num_grpc_streams = succ_ℤ c.num_grpc_streams }

abbrev pub drop_stream : PubSubClient → PubSubClient
drop_stream c = record c { num_grpc_streams = pred_ℤ c.num_grpc_streams }

-- getNextStreamTopicManager: the index of the manager, and the client after it.
unfoldable pub get_next_stream_topic_manager : PubSubClient → Result (ℕ × PubSubClient)
get_next_stream_topic_manager c =
    let next = (c.stream_topic_manager_count + 1) % 2 ^ 64 in
    if c.num_stream_channels == 0
    then panic division_by_zero
    else ok (next % c.num_stream_channels, record c { stream_topic_manager_count = next })

-- What the server answers to a subscription: a stream, or an error with metadata.
pub data Opened : Type 0 where
  opened : Opened
  refused : GoError → List Metadata → Opened

module _ (from_error : FromError) (runtime_version : GoString) where
  -- topicSubscribe, from the call of getNextStreamTopicManager on.
  unfoldable pub open_stream :
      XSubscriptionRequest
      → Opened
      → Result (ℕ × PubSubClient)
      → PubSubClient
      → Result ℕ × PubSubClient
  open_stream req opened (ok (i, c)) c₀ = (ok i, record c { requests = req ∷ c.requests })
  open_stream req (refused e md) (ok (i, c)) c₀ = (
    convert_svc_err from_error e md >>= err,
    drop_stream (record c { requests = req ∷ c.requests }),
  )
  open_stream req o (err e) c₀ = (err e, c₀)
  open_stream req o (panic p) c₀ = (panic p, c₀)

  -- topicSubscribe: the index of the connection of the new stream. The log lines are left out.
  unfoldable pub topic_subscribe :
      XSubscriptionRequest → Opened → PubSubClient → Result ℕ × PubSubClient
  unfolding open_stream create_metadata
  topic_subscribe req o c = elim (check_num_concurrent_streams c) [
    | some e ↦ (err e, c)
    | none ↦
        let sent = (create_metadata runtime_version topic [] c.headers_sent).1 in
        let c' = add_stream (record c { headers_sent = sent }) in
        open_stream req o (get_next_stream_topic_manager c') c'
  ]
