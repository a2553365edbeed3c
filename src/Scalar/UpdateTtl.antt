-- ===== src/Scalar/UpdateTtl.antt =====
-- The requests on the TTL of an item: momento/update_ttl.go, increase_ttl.go and decrease_ttl.go.
use Prim.Native.String.{String}
use client_sdk_go.Base.{ℕ, ℤ}
use client_sdk_go.Text.{GoString, Bytes}
use client_sdk_go.Errors.{Result, ok, err, ◌>>=◌}
use client_sdk_go.Requester.{Key, prepare_key, prepare_update_ttl, err_unexpected_grpc_response}
use client_sdk_go.DataClient.{Requester}

-- The oneof update_ttl.
pub data TtlUpdate : Type 0 where
  overwrite_to_milliseconds : ℕ → TtlUpdate
  increase_to_milliseconds : ℕ → TtlUpdate
  decrease_to_milliseconds : ℕ → TtlUpdate

pub record XUpdateTtlRequest : Type 0 where
  pub cache_key : Bytes
  pub update_ttl : TtlUpdate

pub data XUpdateTtlResponse : Type 0 where
  ttl_set ttl_not_set ttl_missing ttl_unset : XUpdateTtlResponse

pub data TtlResponse : Type 0 where
  updated not_updated missed : TtlResponse

pub record UpdateTtlRequest : Type 0 where
  pub cache_name : GoString
  pub key : Key
  pub ttl : ℤ

unfoldable pub interpret_update_ttl : XUpdateTtlResponse → Result TtlResponse
interpret_update_ttl ttl_missing = ok missed
interpret_update_ttl ttl_set = ok updated
interpret_update_ttl _ = err (err_unexpected_grpc_response "UpdateTtl")

unfoldable pub update_ttl :
    UpdateTtlRequest → Requester XUpdateTtlRequest XUpdateTtlResponse TtlResponse
unfolding interpret_update_ttl
update_ttl r = record {
  cache_name = r.cache_name;
  request_name = "UpdateTtl";
  method = "/cache_client.Scs/UpdateTtl";
  init_grpc_request = λ default_ttl. do
    key ← prepare_key r.key
    ttl ← prepare_update_ttl r.ttl
    ok (record { cache_key = key; update_ttl = overwrite_to_milliseconds ttl });
  interpret_grpc_response = λ req resp. interpret_update_ttl resp;
}

-- The switch of IncreaseTtlRequest and of DecreaseTtlRequest.
unfoldable pub interpret_change_ttl : String → XUpdateTtlResponse → Result TtlResponse
interpret_change_ttl request_name ttl_not_set = ok not_updated
interpret_change_ttl request_name ttl_missing = ok missed
interpret_change_ttl request_name ttl_set = ok updated
interpret_change_ttl request_name ttl_unset = err (err_unexpected_grpc_response request_name)

pub record IncreaseTtlRequest : Type 0 where
  pub cache_name : GoString
  pub key : Key
  pub ttl : ℤ

unfoldable pub increase_ttl :
    IncreaseTtlRequest → Requester XUpdateTtlRequest XUpdateTtlResponse TtlResponse
unfolding interpret_change_ttl
increase_ttl r = record {
  cache_name = r.cache_name;
  request_name = "IncreaseTtl";
  method = "/cache_client.Scs/UpdateTtl";
  init_grpc_request = λ default_ttl. do
    key ← prepare_key r.key
    ttl ← prepare_update_ttl r.ttl
    ok (record { cache_key = key; update_ttl = increase_to_milliseconds ttl });
  interpret_grpc_response = λ req resp. interpret_change_ttl "IncreaseTtl" resp;
}

pub record DecreaseTtlRequest : Type 0 where
  pub cache_name : GoString
  pub key : Key
  pub ttl : ℤ

unfoldable pub decrease_ttl :
    DecreaseTtlRequest → Requester XUpdateTtlRequest XUpdateTtlResponse TtlResponse
unfolding interpret_change_ttl
decrease_ttl r = record {
  cache_name = r.cache_name;
  request_name = "DecreaseTtl";
  method = "/cache_client.Scs/UpdateTtl";
  init_grpc_request = λ default_ttl. do
    key ← prepare_key r.key
    ttl ← prepare_update_ttl r.ttl
    ok (record { cache_key = key; update_ttl = decrease_to_milliseconds ttl });
  interpret_grpc_response = λ req resp. interpret_change_ttl "DecreaseTtl" resp;
}
