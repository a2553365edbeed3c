-- ===== src/Scalar/SetIf.antt =====
-- The conditional sets: momento/set_if_absent.go, set_if_not_exists.go, set_if_present.go,
-- set_if_equal.go, set_if_not_equal.go, set_if_absent_or_equal.go and
-- set_if_present_and_not_equal.go. All seven call themselves "SetIfNotExists".
use client_sdk_go.Base.{ℕ, ℤ}
use client_sdk_go.Text.{GoString, Bytes}
use client_sdk_go.Errors.{Result, ok, err, ◌>>=◌}
use client_sdk_go.Requester.{
  Value, Key, prepare_key, prepare_value, prepare_equal, prepare_not_equal, prepare_ttl,
  err_unexpected_grpc_response,
}
use client_sdk_go.DataClient.{Requester}

-- The oneof condition.
pub data Condition : Type 0 where
  present absent : Condition
  equal not_equal absent_or_equal present_and_not_equal : Bytes → Condition

pub record XSetIfRequest : Type 0 where
  pub cache_key : Bytes
  pub cache_body : Bytes
  pub ttl_milliseconds : ℕ
  pub condition : Condition

-- The oneof result of XSetIfResponse.
pub data XSetIfResponse : Type 0 where
  stored not_stored unset : XSetIfResponse

-- Each request has a response type of its own, with these two cases.
pub data SetIfResponse : Type 0 where
  was_stored was_not_stored : SetIfResponse

unfoldable pub interpret_set_if : XSetIfResponse → Result SetIfResponse
interpret_set_if stored = ok was_stored
interpret_set_if not_stored = ok was_not_stored
interpret_set_if unset = err (err_unexpected_grpc_response "SetIfNotExists")

pub record SetIfRequest : Type 0 where
  pub cache_name : GoString
  pub key : Key
  pub value : Value
  pub ttl : ℤ

-- A request with a value to compare with: the field Equal or NotEqual.
pub record SetIfCompareRequest : Type 0 where
  pub cache_name : GoString
  pub key : Key
  pub value : Value
  pub compare_to : Value
  pub ttl : ℤ

unfoldable pub set_if_absent : SetIfRequest → Requester XSetIfRequest XSetIfResponse SetIfResponse
unfolding interpret_set_if
set_if_absent r = record {
  cache_name = r.cache_name;
  request_name = "SetIfNotExists";
  method = "/cache_client.Scs/SetIf";
  init_grpc_request = λ default_ttl. do
    key ← prepare_key r.key
    value ← prepare_value r.value
    ttl ← prepare_ttl r.ttl default_ttl
    ok (record { cache_key = key; cache_body = value; ttl_milliseconds = ttl; condition = absent });
  interpret_grpc_response = λ req resp. interpret_set_if resp;
}

unfoldable pub set_if_not_exists :
    SetIfRequest → Requester XSetIfRequest XSetIfResponse SetIfResponse
unfolding interpret_set_if
set_if_not_exists r = record {
  cache_name = r.cache_name;
  request_name = "SetIfNotExists";
  method = "/cache_client.Scs/SetIf";
  init_grpc_request = λ default_ttl. do
    key ← prepare_key r.key
    value ← prepare_value r.value
    ttl ← prepare_ttl r.ttl default_ttl
    ok (record { cache_key = key; cache_body = value; ttl_milliseconds = ttl; condition = absent });
  interpret_grpc_response = λ req resp. interpret_set_if resp;
}

unfoldable pub set_if_present : SetIfRequest → Requester XSetIfRequest XSetIfResponse SetIfResponse
unfolding interpret_set_if
set_if_present r = record {
  cache_name = r.cache_name;
  request_name = "SetIfNotExists";
  method = "/cache_client.Scs/SetIf";
  init_grpc_request = λ default_ttl. do
    key ← prepare_key r.key
    value ← prepare_value r.value
    ttl ← prepare_ttl r.ttl default_ttl
    ok (record {
      cache_key = key;
      cache_body = value;
      ttl_milliseconds = ttl;
      condition = present;
    });
  interpret_grpc_response = λ req resp. interpret_set_if resp;
}

unfoldable pub set_if_equal :
    SetIfCompareRequest → Requester XSetIfRequest XSetIfResponse SetIfResponse
unfolding interpret_set_if
set_if_equal r = record {
  cache_name = r.cache_name;
  request_name = "SetIfNotExists";
  method = "/cache_client.Scs/SetIf";
  init_grpc_request = λ default_ttl. do
    key ← prepare_key r.key
    value ← prepare_value r.value
    compare_to ← prepare_equal r.compare_to
    ttl ← prepare_ttl r.ttl default_ttl
    ok (record {
      cache_key = key;
      cache_body = value;
      ttl_milliseconds = ttl;
      condition = equal compare_to;
    });
  interpret_grpc_response = λ req resp. interpret_set_if resp;
}

unfoldable pub set_if_not_equal :
    SetIfCompareRequest → Requester XSetIfRequest XSetIfResponse SetIfResponse
unfolding interpret_set_if
set_if_not_equal r = record {
  cache_name = r.cache_name;
  request_name = "SetIfNotExists";
  method = "/cache_client.Scs/SetIf";
  init_grpc_request = λ default_ttl. do
    key ← prepare_key r.key
    value ← prepare_value r.value
    compare_to ← prepare_not_equal r.compare_to
    ttl ← prepare_ttl r.ttl default_ttl
    ok (record {
      cache_key = key;
      cache_body = value;
      ttl_milliseconds = ttl;
      condition = not_equal compare_to;
    });
  interpret_grpc_response = λ req resp. interpret_set_if resp;
}

unfoldable pub set_if_absent_or_equal :
    SetIfCompareRequest → Requester XSetIfRequest XSetIfResponse SetIfResponse
unfolding interpret_set_if
set_if_absent_or_equal r = record {
  cache_name = r.cache_name;
  request_name = "SetIfNotExists";
  method = "/cache_client.Scs/SetIf";
  init_grpc_request = λ default_ttl. do
    key ← prepare_key r.key
    value ← prepare_value r.value
    compare_to ← prepare_equal r.compare_to
    ttl ← prepare_ttl r.ttl default_ttl
    ok (record {
      cache_key = key;
      cache_body = value;
      ttl_milliseconds = ttl;
      condition = absent_or_equal compare_to;
    });
  interpret_grpc_response = λ req resp. interpret_set_if resp;
}

unfoldable pub set_if_present_and_not_equal :
    SetIfCompareRequest → Requester XSetIfRequest XSetIfResponse SetIfResponse
unfolding interpret_set_if
set_if_present_and_not_equal r = record {
  cache_name = r.cache_name;
  request_name = "SetIfNotExists";
  method = "/cache_client.Scs/SetIf";
  init_grpc_request = λ default_ttl. do
    key ← prepare_key r.key
    value ← prepare_value r.value
    compare_to ← prepare_not_equal r.compare_to
    ttl ← prepare_ttl r.ttl default_ttl
    ok (record {
      cache_key = key;
      cache_body = value;
      ttl_milliseconds = ttl;
      condition = present_and_not_equal compare_to;
    });
  interpret_grpc_response = λ req resp. interpret_set_if resp;
}
