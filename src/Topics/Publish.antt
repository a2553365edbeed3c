-- ===== src/Topics/Publish.antt =====
-- Publish of momento/topic_client.go, with topicPublish and getNextUnaryTopicManager of
-- momento/pubsub_client.go.
pub mod Laws
use client_sdk_go.Base.{
  ℕ, ◌+◌, ◌%◌, ◌^◌, ◌<◌, ◌==◌, ==_iff, ◌≡◌, refl, subst, sym, ap, ◌∙◌, Bool, true, false, Option,
  none, some, List, [], ◌∷◌, if◌then◌else◌, Bool-cases, inl, inr, arith,
}
use client_sdk_go.Text.{GoString, Bytes}
use client_sdk_go.Errors.{
  invalid_argument_error, fixed, GoError, nil_error, new_momento_svc_err, convert_to_customer_error,
  division_by_zero, Result, ok, err, panic, ◌>>=◌, >>=-ok,
}
use client_sdk_go.Errors.Convert.{FromError, convert_svc_err}
use client_sdk_go.Metadata.{Headers, HeadersSent, topic, create_metadata}
use client_sdk_go.Requester.{Value, nil_value, string, bytes, prepare_name}
use client_sdk_go.Protos.{Success, success}
use client_sdk_go.DataClient.{Reply, response, failure}
use client_sdk_go.Topics.Subscription.{TopicValue, text, binary}
use client_sdk_go.Topics.Client.{is_cache_name_valid}

pub record TopicPublishRequest : Type 0 where
  pub cache_name : GoString
  pub topic_name : GoString
  pub value : Value

pub record XPublishRequest : Type 0 where
  pub cache_name : GoString
  pub topic : GoString
  pub value : TopicValue

-- The part of pubSubClient that publishing uses, with the map of the headers.
pub record Publisher : Type 0 where
  pub num_unary_channels : ℕ  -- uint32
  pub unary_topic_manager_count : ℕ  -- uint64
  pub headers_sent : HeadersSent

-- What a call did: its outcome, the connection, the headers and the message if one was sent, and the
-- client after it.
pub record Published : Type 0 where
  pub outcome : Result Success
  pub sent : Option (ℕ × Headers × XPublishRequest)
  pub after : Publisher

abbrev pub not_published : Result Success → Publisher → Published
not_published out p = record { outcome = out; sent = none; after = p }

-- getNextUnaryTopicManager: the index of the manager, and the counter after it.
unfoldable pub get_next_unary_topic_manager : Publisher → Result (ℕ × ℕ)
get_next_unary_topic_manager p =
    let next = (p.unary_topic_manager_count + 1) % 2 ^ 64 in
    if p.num_unary_channels == 0
    then panic division_by_zero
    else ok (next % p.num_unary_channels, next)

-- The switch on the type of the value.
unfoldable pub to_topic_value : Value → Result TopicValue
unfolding new_momento_svc_err
to_topic_value (string s) = ok (text s)
to_topic_value (bytes b) = ok (binary b)
to_topic_value nil_value = err (
    new_momento_svc_err invalid_argument_error
      (fixed "error encoding topic value only support []byte or string currently") nil_error)

-- The test for a nil value.
unfoldable pub check_topic_value : Value → Result (Unit {0})
unfolding new_momento_svc_err convert_to_customer_error
check_topic_value nil_value = err (
    convert_to_customer_error
      (new_momento_svc_err invalid_argument_error (fixed "value cannot be nil") nil_error))
check_topic_value v = ok tt

-- The checks of Publish.
unfoldable pub check_publish : TopicPublishRequest → Result (Unit {0})
unfolding is_cache_name_valid prepare_name check_topic_value
check_publish r = do
  valid ← is_cache_name_valid r.cache_name
  name ← prepare_name r.topic_name "Topic name"
  check_topic_value r.value

module _ (from_error : FromError) (runtime_version : GoString)
    (server : ℕ → Headers → XPublishRequest → Reply (Unit {0})) where
  unfoldable pub read_published : Reply (Unit {0}) → Result Success
  unfolding convert_svc_err
  read_published (response r) = ok success
  read_published (failure e md) = convert_svc_err from_error e md >>= λ e'. err e'

  -- topicPublish, once the connection and the value are known.
  unfoldable pub send_value :
      TopicPublishRequest → Headers → Publisher → ℕ → Result TopicValue → Published
  unfolding read_published
  send_value r headers p i (ok v) =
      let q : XPublishRequest = record {
        cache_name = r.cache_name;
        topic = r.topic_name;
        value = v;
      } in
      record {
        outcome = read_published (server i headers q);
        sent = some (i, headers, q);
        after = p;
      }
  send_value r headers p i (err e) = not_published (err e) p
  send_value r headers p i (panic f) = not_published (panic f) p

  unfoldable pub send_on : TopicPublishRequest → Headers → Publisher → Result (ℕ × ℕ) → Published
  unfolding send_value to_topic_value
  send_on r headers p (ok (i, next)) =
      send_value r headers (record p { unary_topic_manager_count = next }) i
        (to_topic_value r.value)
  send_on r headers p (err e) = not_published (err e) p
  send_on r headers p (panic f) = not_published (panic f) p

  -- topicPublish.
  unfoldable pub topic_publish : TopicPublishRequest → Publisher → Published
  unfolding send_on get_next_unary_topic_manager create_metadata
  topic_publish r p =
      let (headers, sent) = create_metadata runtime_version topic [] p.headers_sent in
      send_on r headers (record p { headers_sent = sent }) (get_next_unary_topic_manager p)

  unfoldable pub publish_checked : Result (Unit {0}) → TopicPublishRequest → Publisher → Published
  unfolding topic_publish
  publish_checked (ok u) r p = topic_publish r p
  publish_checked (err e) r p = not_published (err e) p
  publish_checked (panic f) r p = not_published (panic f) p

  -- Publish.
  unfoldable pub publish : TopicPublishRequest → Publisher → Published
  unfolding publish_checked check_publish
  publish r p = publish_checked (check_publish r) r p

-- The value that a subscriber reads from a message.
unfoldable pub of_topic_value : TopicValue → Value
of_topic_value (text s) = string s
of_topic_value (binary b) = bytes b
