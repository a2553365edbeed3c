-- ===== src/Scalar.antt =====
-- The requests on single items: momento/get.go, set.go, delete.go, increment.go, keys_exist.go,
-- item_get_ttl.go and item_get_type.go; the conditional sets are in the child SetIf, the batches in
-- Batch, the updates of a TTL in UpdateTtl. The messages are those of cacheclient.proto, with the
-- fields that the client fills or reads.
pub mod SetIf
pub mod Batch
pub mod UpdateTtl
pub mod Laws
use Prim.Native.String.{String}
use client_sdk_go.Protos.{ECacheResult, Lookup, Success, success, HitOrMiss, interpret_lookup}
use client_sdk_go.Base.{ℕ, ℤ, Bool, Option, List, if◌then◌else◌}
use client_sdk_go.Text.{GoString, Bytes}
use client_sdk_go.Errors.{Result, ok, err, ◌>>=◌}
use client_sdk_go.Requester.{
  Value, Key, Field, CollectionTtl, prepare_key, prepare_keys, prepare_field, prepare_value,
  prepare_ttl, prepare_collection_ttl, prepare_update_ttl, err_unexpected_grpc_response,
}
use client_sdk_go.DataClient.{Requester}

pub record XGetRequest : Type 0 where
  pub cache_key : Bytes

pub record XGetResponse : Type 0 where
  pub result : ECacheResult
  pub cache_body : Bytes

pub record XSetRequest : Type 0 where
  pub cache_key : Bytes
  pub cache_body : Bytes
  pub ttl_milliseconds : ℕ

pub record XDeleteRequest : Type 0 where
  pub cache_key : Bytes

pub record XIncrementRequest : Type 0 where
  pub cache_key : Bytes
  pub amount : ℤ
  pub ttl_milliseconds : ℕ

pub record XIncrementResponse : Type 0 where
  pub value : ℤ

pub record XKeysExistRequest : Type 0 where
  pub cache_keys : List Bytes

pub record XKeysExistResponse : Type 0 where
  pub exists : List Bool

pub record XItemGetTtlRequest : Type 0 where
  pub cache_key : Bytes

pub record XItemGetTypeRequest : Type 0 where
  pub cache_key : Bytes

pub record GetRequest : Type 0 where
  pub cache_name : GoString
  pub key : Key

-- The interpretation of ECacheResult in GetRequest.
unfoldable pub interpret_get : XGetResponse → Result (HitOrMiss Bytes)
interpret_get resp = elim resp.result [
  | ECacheResult.hit ↦ ok (HitOrMiss.hit resp.cache_body)
  | ECacheResult.miss ↦ ok HitOrMiss.miss
  | _ ↦ err (err_unexpected_grpc_response "Get")
]

unfoldable pub get : GetRequest → Requester XGetRequest XGetResponse (HitOrMiss Bytes)
unfolding interpret_get
get r = record {
  cache_name = r.cache_name;
  request_name = "Get";
  method = "/cache_client.Scs/Get";
  init_grpc_request = λ default_ttl. (do key ← prepare_key r.key; ok (record { cache_key = key }));
  interpret_grpc_response = λ req resp. interpret_get resp;
}

pub record SetRequest : Type 0 where
  pub cache_name : GoString
  pub key : Key
  pub value : Value
  pub ttl : ℤ

-- The message XSetResponse is not read.
unfoldable pub set : SetRequest → Requester XSetRequest (Unit {0}) Success
set r = record {
  cache_name = r.cache_name;
  request_name = "Set";
  method = "/cache_client.Scs/Set";
  init_grpc_request = λ default_ttl. do
    key ← prepare_key r.key
    value ← prepare_value r.value
    ttl ← prepare_ttl r.ttl default_ttl
    ok (record { cache_key = key; cache_body = value; ttl_milliseconds = ttl });
  interpret_grpc_response = λ req resp. ok success;
}

pub record DeleteRequest : Type 0 where
  pub cache_name : GoString
  pub key : Key

unfoldable pub delete : DeleteRequest → Requester XDeleteRequest (Unit {0}) Success
delete r = record {
  cache_name = r.cache_name;
  request_name = "Delete";
  method = "/cache_client.Scs/Delete";
  init_grpc_request = λ default_ttl. (do key ← prepare_key r.key; ok (record { cache_key = key }));
  interpret_grpc_response = λ req resp. ok success;
}

pub record IncrementRequest : Type 0 where
  pub cache_name : GoString
  pub field : Field
  pub amount : ℤ
  pub ttl : Option CollectionTtl

unfoldable pub increment : IncrementRequest → Requester XIncrementRequest XIncrementResponse ℤ
increment r = record {
  cache_name = r.cache_name;
  request_name = "Increment";
  method = "/cache_client.Scs/Increment";
  init_grpc_request = λ default_ttl. do
    field ← prepare_field r.field
    (ttl, refresh) ← prepare_collection_ttl r.ttl default_ttl
    ok (record { cache_key = field; amount = r.amount; ttl_milliseconds = ttl });
  interpret_grpc_response = λ req resp. ok resp.value;
}

pub record KeysExistRequest : Type 0 where
  pub cache_name : GoString
  pub keys : List Key

unfoldable pub keys_exist :
    KeysExistRequest → Requester XKeysExistRequest XKeysExistResponse (List Bool)
keys_exist r = record {
  cache_name = r.cache_name;
  request_name = "KeysExist";
  method = "/cache_client.Scs/KeysExist";
  init_grpc_request =
      λ default_ttl. (do keys ← prepare_keys r.keys; ok (record { cache_keys = keys }));
  interpret_grpc_response = λ req resp. ok resp.exists;
}

pub record ItemGetTtlRequest : Type 0 where
  pub cache_name : GoString
  pub key : Key

-- The answer is the remaining TTL in milliseconds. The request calls itself "ItemGetTypeTL".
unfoldable pub item_get_ttl :
    ItemGetTtlRequest → Requester XItemGetTtlRequest (Lookup ℕ) (HitOrMiss ℕ)
unfolding interpret_lookup
item_get_ttl r = record {
  cache_name = r.cache_name;
  request_name = "ItemGetTypeTL";
  method = "/cache_client.Scs/ItemGetTtl";
  init_grpc_request = λ default_ttl. (do key ← prepare_key r.key; ok (record { cache_key = key }));
  interpret_grpc_response = λ req resp. interpret_lookup "ItemGetTypeTL" resp;
}

pub record ItemGetTypeRequest : Type 0 where
  pub cache_name : GoString
  pub key : Key

-- The answer is the number of the item's type.
unfoldable pub item_get_type :
    ItemGetTypeRequest → Requester XItemGetTypeRequest (Lookup ℕ) (HitOrMiss ℕ)
unfolding interpret_lookup
item_get_type r = record {
  cache_name = r.cache_name;
  request_name = "ItemGetType";
  method = "/cache_client.Scs/ItemGetType";
  init_grpc_request = λ default_ttl. (do key ← prepare_key r.key; ok (record { cache_key = key }));
  interpret_grpc_response = λ req resp. interpret_lookup "ItemGetType" resp;
}
