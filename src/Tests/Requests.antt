-- ===== src/Tests/Requests.antt =====
-- The checks of a request, its message and its way to the server.
use client_sdk_go.Base.{
  ℕ, ◌≤◌, ◌<◌, ◌/◌, ◌^◌, ℤ, pos, negsuc, ◌≡◌, ◌↔◌, ◌⊎◌, ◌≢◌, refl, Bool, true, false, Option, none,
  some, List, [], ◌∷◌, ◌<ℤ◌, arith, inl, inr, here, there, is_negative,
}
use client_sdk_go.Text.{GoString, Bytes, codes}
use client_sdk_go.Errors.{
  GoError, momento_error, nil_error, wrapped, labelled, invalid_argument_error,
  invalid_argument_message, ok,
}
use client_sdk_go.Requester.{
  Value, as_bytes, nil_value, string, bytes, prepare_ttl, prepare_name, prepare_keys,
  validate_sorted_set_ranks, prepare_collection_ttl, prepare_update_ttl, of_ttl, from_cache_ttl,
}
use client_sdk_go.Requester.Laws.{HasText, IsInvalid}
use client_sdk_go.Requester.Ttl.{prepare_ttl_accepts, prepare_ttl_refuses, sub_millisecond_ttl}
use client_sdk_go.Metadata.{ClientType, cache, topic, Headers, init_headers_sent}
use client_sdk_go.Metadata.Laws.{send_all, with_agent, send_all-once}
use client_sdk_go.DataClient.{response, Server, Exchange, make_request}
use client_sdk_go.DataClient.Laws.{IsAnswered, make_request-IsAnswered}
use client_sdk_go.Protos.{Success, success}
use client_sdk_go.Scalar.{SetRequest, XSetRequest, set}
use client_sdk_go.Scalar.SetIf.{SetIfCompareRequest, XSetIfRequest, absent}
use client_sdk_go.Tests.{status_of, go_version}

abbrev set_request : SetRequest
set_request = record {
  cache_name = 99 ∷ [];
  key = string (107 ∷ []);
  value = string (118 ∷ []);
  ttl = pos 5000000;
}

abbrev blank_request : SetRequest
blank_request = record {
  cache_name = 32 ∷ [];
  key = string (107 ∷ []);
  value = string (118 ∷ []);
  ttl = pos 5000000;
}

abbrev no_key_request : SetRequest
no_key_request = record {
  cache_name = 99 ∷ [];
  key = string [];
  value = string (118 ∷ []);
  ttl = pos 5000000;
}

abbrev set_sent : XSetRequest
set_sent = record { cache_key = 107 ∷ []; cache_body = 118 ∷ []; ttl_milliseconds = 5 }

abbrev accepting : Server XSetRequest (Unit {0})
accepting method headers req = response tt

abbrev run_of : SetRequest → Exchange XSetRequest Success
run_of r = make_request status_of go_version accepting (pos 60000000000) (set r) init_headers_sent

make_request-IsAnswered_example :
    IsAnswered status_of go_version accepting
      (pos 60000000000)
      (set set_request)
      init_headers_sent
      success
unfolding make_request set prepare_ttl client_sdk_go.Requester.prepare_cache_name
    client_sdk_go.Requester.prepare_key client_sdk_go.Text.to_bytes
    client_sdk_go.Requester.prepare_value
make_request-IsAnswered_example =
    make_request-IsAnswered status_of go_version accepting (pos 60000000000) (set set_request)
      init_headers_sent success refl

no_text : ¬ HasText (32 ∷ [])
unfolding client_sdk_go.Text.is_space
no_text (here h) = ground arith
no_text (there h) = elim h [ ]

abbrev empty_key : GoError
empty_key =
    momento_error invalid_argument_error
      (wrapped invalid_argument_message (labelled "key" "cannot be empty")) nil_error

prepare_ttl_accepts_example :
    (prepare_ttl (pos 0) (pos 60000000999) ≡ ok (60000000999 / 1000000))
    × (0 < 60000000999 / 1000000)
unfolding client_sdk_go.Base.is_zero
prepare_ttl_accepts_example =
    prepare_ttl_accepts (pos 0) (pos 60000000999) 60000000999 refl (omega arith) (omega arith)

prepare_ttl_refuses_example : IsInvalid (prepare_ttl (pos 999999) (pos 60000000000))
unfolding client_sdk_go.Base.is_zero
prepare_ttl_refuses_example = prepare_ttl_refuses (pos 999999) (pos 60000000000) (omega arith)

sub_millisecond_ttl_example :
    IsInvalid (prepare_ttl (pos 5) (pos 60000000000))
    × (prepare_collection_ttl (some (record { ttl = pos 5; refresh_ttl = true })) (pos 60000000000)
        ≡ ok (0, true))
    × (prepare_update_ttl (pos 5) ≡ ok 0)
sub_millisecond_ttl_example =
    sub_millisecond_ttl 5 true (pos 60000000000) (omega arith) (omega arith)

abbrev two_keys : List Value
two_keys = string (107 ∷ []) ∷ bytes (7 ∷ 8 ∷ []) ∷ []

abbrev two_kinds : List (ClientType × Headers)
two_kinds = (cache, []) ∷ (topic, []) ∷ (cache, ("cache", 99 ∷ []) ∷ []) ∷ []

send_all-once_example :
    send_all go_version two_kinds init_headers_sent ≡ with_agent go_version [] two_kinds
send_all-once_example = send_all-once go_version two_kinds

abbrev if_request : SetIfCompareRequest
if_request = record {
  cache_name = 99 ∷ [];
  key = string (107 ∷ []);
  value = string (118 ∷ []);
  compare_to = bytes (7 ∷ []);
  ttl = pos 5000000;
}

abbrev if_sent : XSetIfRequest
if_sent = record {
  cache_key = 107 ∷ [];
  cache_body = 118 ∷ [];
  ttl_milliseconds = 5;
  condition = absent;
}
