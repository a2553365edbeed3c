-- ===== src/Topics/Client.antt =====
-- momento/topic_client.go: Subscribe. What the server does in one round of its loop is an input.
pub mod Leak
use Prim.Native.String.{String}
use client_sdk_go.Base.{
  ℕ, zero, suc, Bool, true, false, Option, none, some, List, [], ◌∷◌, ltb, length, if◌then◌else◌,
}
use client_sdk_go.Text.{GoString, trim_space}
use client_sdk_go.Errors.{
  invalid_argument_error, internal_server_error, fixed, GoError, nil_error, new_momento_svc_err,
  Fault, Result, ok, err, panic, ◌>>=◌,
}
use client_sdk_go.Errors.Convert.{Code, resource_exhausted, Status, FromError, convert_svc_err}
use client_sdk_go.Requester.{prepare_name}
use client_sdk_go.Topics.{XSubscriptionRequest, PubSubClient, Opened, topic_subscribe}
use client_sdk_go.Topics.Subscription.{
  Message, heartbeat_message, TopicSubscription, Progress, returned, waits, faults,
}

-- isCacheNameValid of cache_client.go: the error, or nil.
unfoldable pub is_cache_name_valid : GoString → Result (Unit {0})
unfolding trim_space new_momento_svc_err
is_cache_name_valid name =
    if ltb (length (trim_space name)) 1
    then err
        (new_momento_svc_err invalid_argument_error (fixed "Cache name cannot be empty") nil_error)
    else ok tt

-- The first receive on a new stream.
pub data First : Type 0 where
  first_message : Message → First
  first_failure : GoError → First

-- One round: the answer to topicSubscribe, and the first receive if a stream was opened.
pub record Attempt : Type 0 where
  pub answer : Opened
  pub first : First

unfoldable pub is_resource_exhausted : Option Status → Bool
is_resource_exhausted none = false
is_resource_exhausted (some s) = elim s.code [ resource_exhausted ↦ true | _ ↦ false ]

unfoldable pub is_heartbeat : Message → Bool
is_heartbeat heartbeat_message = true
is_heartbeat _ = false

-- The new subscription. Its position is 0, also where the request resumes at another.
unfoldable pub new_subscription : XSubscriptionRequest → TopicSubscription
new_subscription req = record {
  cache_name = req.cache_name;
  topic_name = req.topic;
  last_known_sequence_number = 0;
  last_known_sequence_page = 0;
}

module _ (from_error : FromError) (runtime_version : GoString) where
  -- The switch on the first message.
  unfoldable pub check_first : XSubscriptionRequest → Message → Result TopicSubscription
  unfolding is_heartbeat new_subscription new_momento_svc_err
  check_first req m =
      if is_heartbeat m
      then ok (new_subscription req)
      else err (
          new_momento_svc_err internal_server_error (fixed "expected a heartbeat message")
            nil_error)

  -- The loop of Subscribe, with the client after it.
  unfoldable pub subscribe_loop :
      XSubscriptionRequest
      → List Attempt
      → PubSubClient
      → Progress (Result TopicSubscription × PubSubClient)
  unfolding check_first
  subscribe_loop req [] c = waits c
  subscribe_loop req (a ∷ rest) c =
      let (result, c') = topic_subscribe from_error runtime_version req a.answer c in
      let again = subscribe_loop req rest c' in
      elim result [
        | err e ↦ returned (err e, c')
        | panic p ↦ faults p
        | ok i ↦ elim a.first [
          | first_message m ↦ returned (check_first req m, c')
          | first_failure e ↦ elim (is_resource_exhausted (from_error e)) [
            | true ↦ again
            | false ↦ returned (convert_svc_err from_error e [] >>= err, c')
          ]
        ]
      ]

  unfoldable pub checked_loop :
      Result (Unit {0})
      → Result GoString
      → XSubscriptionRequest
      → List Attempt
      → PubSubClient
      → Progress (Result TopicSubscription × PubSubClient)
  unfolding subscribe_loop
  checked_loop (ok t) (ok name) req attempts c = subscribe_loop req attempts c
  checked_loop (ok t) (err e) req attempts c = returned (err e, c)
  checked_loop (ok t) (panic p) req attempts c = faults p
  checked_loop (err e) n req attempts c = returned (err e, c)
  checked_loop (panic p) n req attempts c = faults p

  -- Subscribe.
  unfoldable pub subscribe :
      XSubscriptionRequest
      → List Attempt
      → PubSubClient
      → Progress (Result TopicSubscription × PubSubClient)
  unfolding checked_loop is_cache_name_valid
  subscribe req attempts c =
      checked_loop (is_cache_name_valid req.cache_name) (prepare_name req.topic "Topic name") req
        attempts c
