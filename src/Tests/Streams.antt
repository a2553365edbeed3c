-- ===== src/Tests/Streams.antt =====
-- A subscription that loses its stream, opens it again after a refusal, and ends.
use client_sdk_go.Base.{
  ℕ, suc, some, ℤ, pos, negsuc, succ_ℤ, ◌≡◌, ◌⊎◌, refl, List, [], ◌∷◌, ◌++◌, replicate,
}
use client_sdk_go.Text.{codes}
use client_sdk_go.Errors.{
  GoError, foreign, server_unavailable_error, svc_error, received, server_unavailable_message,
  Result, ok, err, ◌>>=◌,
}
use client_sdk_go.Errors.Convert.{convert_svc_err, unavailable}
use client_sdk_go.Metadata.{init_headers_sent}
use client_sdk_go.Topics.{
  XSubscriptionRequest, PubSubClient, Opened, opened, refused, drop_stream, topic_subscribe,
}
use client_sdk_go.Topics.Subscription.{
  TopicSubscription, TopicValue, text, Input, receive, disconnected, item_message, kind, topic_item,
  returned, resume_request, Returned, event, attempt_reconnect,
}
use client_sdk_go.Base.{◌<◌, Option, arith}
use client_sdk_go.Topics.Subscription.{ReturnedItem, item, Progress}
use client_sdk_go.Topics.Bounds.{IsWithin, topic_subscribe-IsWithin}
use client_sdk_go.Topics.Liveness.{now, later, event-returned}
use client_sdk_go.Topics.Items.{Stands, item-Stands}
use client_sdk_go.Topics.Client.{Attempt, first_failure, subscribe_loop}
use client_sdk_go.Topics.Events.{IsReturned, event-IsReturned, event_resumes}
use client_sdk_go.Topics.Client.Leak.{subscribe_loop-leaks, events, stays_done, events-counted_off}
use client_sdk_go.Tests.{status_of, go_version}

abbrev one_channel : PubSubClient
one_channel = record {
  num_stream_channels = 1;
  num_grpc_streams = pos 1;
  stream_topic_manager_count = 1;
  headers_sent = init_headers_sent;
  requests = [];
}

abbrev at_three : TopicSubscription
at_three = record {
  cache_name = 99 ∷ [];
  topic_name = 116 ∷ [];
  last_known_sequence_number = 3;
  last_known_sequence_page = 1;
}

abbrev from_three : XSubscriptionRequest
from_three = record {
  cache_name = 99 ∷ [];
  topic = 116 ∷ [];
  resume_at_topic_sequence_number = 3;
  sequence_page = 1;
}

abbrev down : Opened
down = refused (foreign 1) []

abbrev subscribed : Opened → PubSubClient → Result ℕ × PubSubClient
subscribed o c = topic_subscribe status_of go_version from_three o c

abbrev unavailable_error : GoError
unavailable_error =
    svc_error server_unavailable_error (received (codes "down")) (foreign 1)
      server_unavailable_message

abbrev reconnected : PubSubClient
reconnected = (subscribed opened (subscribed down (drop_stream one_channel)).1).1

abbrev hello : TopicValue
hello = text (104 ∷ [])

abbrev lost_then_item : List Input
lost_then_item =
    disconnected (down ∷ opened ∷ []) ∷ receive (item_message 4 1 (112 ∷ []) (kind hello)) ∷ []

abbrev got_item : Returned status_of go_version
got_item = record {
  outcome = ok (topic_item hello (112 ∷ []) 4 1);
  subscription = record {
    cache_name = 99 ∷ [];
    topic_name = 116 ∷ [];
    last_known_sequence_number = 4;
    last_known_sequence_page = 1;
  };
  client = reconnected;
  unused = [];
}

event-IsReturned_example : IsReturned status_of go_version at_three one_channel got_item
unfolding event attempt_reconnect topic_subscribe client_sdk_go.Topics.check_num_concurrent_streams
    client_sdk_go.Base.lez client_sdk_go.Base.pred_ℤ
    client_sdk_go.Topics.get_next_stream_topic_manager convert_svc_err
    client_sdk_go.Errors.Convert.classify succ_ℤ resume_request
event-IsReturned_example =
    event-IsReturned status_of go_version at_three lost_then_item one_channel got_item refl

abbrev again : PubSubClient
again =
    (topic_subscribe status_of go_version (resume_request got_item.subscription) opened
      (drop_stream reconnected)).1

event_resumes_example :
    (k : ℕ) × (again.requests
      ≡ replicate (suc k) (record {
        cache_name = 99 ∷ [];
        topic = 116 ∷ [];
        resume_at_topic_sequence_number = 4;
        sequence_page = 1;
      })
        ++ (drop_stream reconnected).requests)
unfolding event attempt_reconnect topic_subscribe client_sdk_go.Topics.check_num_concurrent_streams
    client_sdk_go.Base.lez client_sdk_go.Base.pred_ℤ
    client_sdk_go.Topics.get_next_stream_topic_manager convert_svc_err
    client_sdk_go.Errors.Convert.classify succ_ℤ resume_request
event_resumes_example =
    event_resumes status_of go_version at_three lost_then_item one_channel got_item hello (112 ∷ [])
      4 1 (opened ∷ []) (drop_stream reconnected) again refl refl refl

abbrev cut_off : Attempt
cut_off = record { answer = opened; first = first_failure (foreign 1) }

subscribe_loop-leaks_example :
    (c' : PubSubClient) × (subscribe_loop status_of go_version from_three (cut_off ∷ []) one_channel
      ≡ returned (convert_svc_err status_of (foreign 1) [] >>= err, c'))
    × (c'.num_grpc_streams ≡ succ_ℤ one_channel.num_grpc_streams)
unfolding topic_subscribe client_sdk_go.Topics.check_num_concurrent_streams client_sdk_go.Base.lez
    client_sdk_go.Topics.get_next_stream_topic_manager
    client_sdk_go.Topics.Client.is_resource_exhausted
subscribe_loop-leaks_example =
    subscribe_loop-leaks status_of go_version from_three cut_off [] one_channel 0 (foreign 1) refl
      refl refl

events-counted_off_example :
    (c' : PubSubClient) × (events status_of go_version 2 at_three
        (stays_done 2 (foreign 1))
        one_channel
      ≡ returned c')
    × (c'.num_grpc_streams ≡ negsuc 0)
events-counted_off_example =
    events-counted_off status_of go_version 2 at_three (foreign 1) one_channel

event-returned_example :
    (r : Returned status_of go_version) × (event status_of go_version at_three lost_then_item
        one_channel
      ≡ returned r)
unfolding client_sdk_go.Topics.check_num_concurrent_streams client_sdk_go.Base.lez
    client_sdk_go.Base.pred_ℤ convert_svc_err client_sdk_go.Errors.Convert.classify
event-returned_example =
    event-returned status_of go_version at_three lost_then_item one_channel
      (record { connected = refl; below = refl })
      (later (foreign 1) unavailable_error [] (opened ∷ []) refl (now []), tt)

item-Stands_example :
    (p : Progress (ReturnedItem status_of go_version)) × (item status_of go_version 3 at_three
        lost_then_item one_channel
      ≡ some p)
    × Stands status_of go_version at_three one_channel p
item-Stands_example =
    item-Stands status_of go_version 3 at_three lost_then_item one_channel (omega arith)

abbrev full : PubSubClient
full = record one_channel { num_grpc_streams = pos 100 }

topic_subscribe-IsWithin_example :
    IsWithin (topic_subscribe status_of go_version from_three opened full).1
unfolding client_sdk_go.Base.lez client_sdk_go.Topics.max_concurrent_streams
topic_subscribe-IsWithin_example =
    topic_subscribe-IsWithin status_of go_version from_three opened full refl
