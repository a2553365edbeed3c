-- ===== src/Tests/Caches.antt =====
-- A client, the requests on caches, an item of a store, a publish, and the opening of a stream.
use client_sdk_go.Base.{
  ℕ, suc, ◌<◌, ℤ, pos, negsuc, ◌≡◌, refl, Option, none, some, List, [], ◌∷◌, arith,
}
use mathlib.Core.Option.{map}
use client_sdk_go.Text.{GoString, codes}
use client_sdk_go.Errors.{
  GoError, nil_error, foreign, svc_error, momento_error, wrapped, of_code, fixed, client_sdk_error,
  invalid_argument_error, invalid_argument_message, error_code, ok, err,
}
use client_sdk_go.Errors.Convert.{Code, unavailable, Status, FromError, already_exists, not_found}
use client_sdk_go.Tests.{status_of, go_version}
use client_sdk_go.Metadata.{init_headers_sent, topic, create_metadata}
use client_sdk_go.Requester.{string}
use client_sdk_go.Protos.{Success}
use client_sdk_go.DataClient.{response, Server, make_request}
use client_sdk_go.Scalar.{SetRequest, XSetRequest, set}
use client_sdk_go.Retry.{is_eligible_for_retry, fixed_count_retry_strategy, unary_retry}
use client_sdk_go.Retry.Streams.{stream_retry, without_stream, stream_retry-unary}
use client_sdk_go.CacheClient.{
  CacheClientProps, Connections, CacheClient, common_cache_client, Call, call, failed, create_cache,
  delete_cache,
}
use client_sdk_go.CacheClient.Laws.{call-connected, common_cache_client-eager, delete_cache-hides}
use client_sdk_go.Storage.{storage_string, StoragePutRequest, StorageState}
use client_sdk_go.Topics.Subscription.{text}
use client_sdk_go.Topics.Publish.{TopicPublishRequest, XPublishRequest, Publisher}
use client_sdk_go.Topics.Publish.Laws.{IsPublished, publish-IsPublished}

abbrev settings : CacheClientProps
settings = record {
  cache_name = codes "d";
  client_side_timeout = pos 5000000000;
  num_grpc_channels = 2;
  default_ttl = pos 60000000000;
  eager_connect_timeout = pos 0;
}

abbrev negative_settings : CacheClientProps
negative_settings = record settings { eager_connect_timeout = negsuc 0 }

abbrev all_up : Connections
all_up = record {
  control_client = nil_error;
  data_client = λ i. nil_error;
  connect = λ i. nil_error;
  ping_client = nil_error;
}

abbrev two_clients : CacheClient
two_clients = record {
  default_cache = codes "d";
  default_ttl = pos 60000000000;
  num_data_clients = 2;
}

abbrev unnamed : SetRequest
unnamed = record {
  cache_name = [];
  key = string (107 ∷ []);
  value = string (118 ∷ []);
  ttl = pos 5000000;
}

abbrev set_server : Server XSetRequest (Unit {0})
set_server method headers q = response tt

call-connected_example :
    (x : Call XSetRequest Success) × (call status_of go_version set_server two_clients
        (set unnamed)
        6
        init_headers_sent
      ≡ ok x)
    × (x.connection < 2)
    × (cache : GoString) × (cache ≡ codes "d")
    × (x.exchange
        ≡ make_request status_of go_version set_server
            (pos 60000000000)
            (record (set unnamed) { cache_name = cache })
            init_headers_sent)
unfolding common_cache_client set
call-connected_example =
    call-connected status_of go_version set_server settings all_up two_clients (set unnamed) 6
      init_headers_sent refl

common_cache_client-eager_example :
    (x : GoError) × (common_cache_client status_of negative_settings all_up ≡ err x)
    × (error_code x ≡ some client_sdk_error)
unfolding client_sdk_go.CacheClient.check_timeout client_sdk_go.Base.is_zero
    client_sdk_go.Base.is_negative
common_cache_client-eager_example =
    common_cache_client-eager status_of negative_settings all_up (λ c m o w. refl) refl refl refl
      refl

-- A server that has the cache.
abbrev exists_already : FromError
exists_already e = some (record { code = already_exists; message = codes "there" })

delete_cache-hides_example : not_found ≡ not_found
unfolding delete_cache client_sdk_go.Errors.Convert.classify
delete_cache-hides_example =
    delete_cache-hides status_of (λ n. failed (foreign 2) []) (codes "d") (codes "c") (foreign 2) []
      (record { code = not_found; message = codes "absent" }) refl refl refl

abbrev hello : TopicPublishRequest
hello = record { cache_name = codes "c"; topic_name = codes "t"; value = string (codes "hello") }

abbrev publisher : Publisher
publisher = record {
  num_unary_channels = 4;
  unary_topic_manager_count = 5;
  headers_sent = init_headers_sent;
}

publish-IsPublished_example :
    IsPublished hello publisher 2
      (record { cache_name = codes "c"; topic = codes "t"; value = text (codes "hello") })
unfolding client_sdk_go.Topics.Publish.publish
publish-IsPublished_example =
    publish-IsPublished status_of go_version (λ i h q. response tt) hello publisher 2
      ((create_metadata go_version topic [] init_headers_sent).0)
      (record { cache_name = codes "c"; topic = codes "t"; value = text (codes "hello") }) refl

abbrev second_time : ℕ → ℕ × GoError
second_time (suc (suc n)) = (n, nil_error)
second_time _ = (0, foreign 1)

stream_retry-unary_example :
    map without_stream (
      stream_retry
        (λ e. unavailable)
        (fixed_count_retry_strategy is_eligible_for_retry (pos 3))
        "/cache_client.pubsub.Pubsub/Subscribe"
        second_time
        5)
    ≡ unary_retry
        (λ e. unavailable)
        (fixed_count_retry_strategy is_eligible_for_retry (pos 3))
        "/cache_client.pubsub.Pubsub/Subscribe"
        (λ n. (second_time n).1)
        5
stream_retry-unary_example =
    stream_retry-unary (λ e. unavailable) (fixed_count_retry_strategy is_eligible_for_retry (pos 3))
      "/cache_client.pubsub.Pubsub/Subscribe" second_time 5

abbrev put_text : StoragePutRequest ℕ
put_text = record {
  store_name = codes "s";
  key = codes "k";
  value = storage_string (codes "hello");
}

abbrev first_state : StorageState
first_state = record { count = 6; headers_sent = init_headers_sent }
