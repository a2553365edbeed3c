-- ===== src/Sets.antt =====
-- The requests on sets: momento/set_add_elements.go, set_contains_elements.go, set_fetch.go,
-- set_length.go, set_pop.go and set_remove_elements.go.
pub mod Laws
use Prim.Native.String.{String}
use client_sdk_go.Base.{ℕ, ℤ, Bool, Option, none, some, List, [], ◌∷◌}
use client_sdk_go.Text.{GoString, Bytes, to_bytes}
use client_sdk_go.Errors.{Result, ok, err, panic, ◌>>=◌}
use client_sdk_go.Requester.{
  Value, CollectionTtl, prepare_name, prepare_collection_ttl, momento_values_to_primitive_byte_list,
}
use client_sdk_go.Protos.{Lookup, Success, success, HitOrMiss, interpret_lookup}
use client_sdk_go.Scalar.Batch.{all_bytes}
use client_sdk_go.DataClient.{Requester}

-- XSetFetchRequest and XSetLengthRequest have this one field.
pub record XSetFetchRequest : Type 0 where
  pub set_name : Bytes

pub record XSetUnionRequest : Type 0 where
  pub set_name : Bytes
  pub elements : List Bytes
  pub ttl_milliseconds : ℕ
  pub refresh_ttl : Bool

-- The difference is always a subtrahend with a set of elements.
pub record XSetDifferenceRequest : Type 0 where
  pub set_name : Bytes
  pub subtrahend : List Bytes

pub record XSetContainsRequest : Type 0 where
  pub set_name : Bytes
  pub elements : List Bytes

pub record XSetPopRequest : Type 0 where
  pub set_name : Bytes
  pub count : ℕ

-- A request with the name of a set: SetFetchRequest, SetLengthRequest.
pub record SetNameRequest : Type 0 where
  pub cache_name : GoString
  pub set_name : GoString

unfoldable pub set_fetch :
    SetNameRequest → Requester XSetFetchRequest (Lookup (List Bytes)) (HitOrMiss (List Bytes))
unfolding interpret_lookup
set_fetch r = record {
  cache_name = r.cache_name;
  request_name = "SetFetch";
  method = "/cache_client.Scs/SetFetch";
  init_grpc_request = λ default_ttl. do
    name ← prepare_name r.set_name "Set name"
    ok (record { set_name = to_bytes r.set_name });
  interpret_grpc_response = λ req resp. interpret_lookup "SetFetch" resp;
}

unfoldable pub set_length : SetNameRequest → Requester XSetFetchRequest (Lookup ℕ) (HitOrMiss ℕ)
unfolding interpret_lookup
set_length r = record {
  cache_name = r.cache_name;
  request_name = "SetLength";
  method = "/cache_client.Scs/SetLength";
  init_grpc_request = λ default_ttl. do
    name ← prepare_name r.set_name "Set name"
    ok (record { set_name = to_bytes r.set_name });
  interpret_grpc_response = λ req resp. interpret_lookup "SetLength" resp;
}

-- `none` is the nil slice of elements.
pub record SetAddElementsRequest : Type 0 where
  pub cache_name : GoString
  pub set_name : GoString
  pub elements : Option (List Value)
  pub ttl : Option CollectionTtl

unfoldable pub set_add_elements :
    SetAddElementsRequest → Requester XSetUnionRequest (Unit {0}) Success
set_add_elements r = record {
  cache_name = r.cache_name;
  request_name = "SetAddElements";
  method = "/cache_client.Scs/SetUnion";
  init_grpc_request = λ default_ttl. do
    name ← prepare_name r.set_name "Set name"
    (ttl, refresh) ← prepare_collection_ttl r.ttl default_ttl
    elements ← momento_values_to_primitive_byte_list r.elements
    ok (record {
      set_name = to_bytes r.set_name;
      elements = elements;
      ttl_milliseconds = ttl;
      refresh_ttl = refresh;
    });
  interpret_grpc_response = λ req resp. ok success;
}

pub record SetRemoveElementsRequest : Type 0 where
  pub cache_name : GoString
  pub set_name : GoString
  pub elements : Option (List Value)

unfoldable pub set_remove_elements :
    SetRemoveElementsRequest → Requester XSetDifferenceRequest (Unit {0}) Success
set_remove_elements r = record {
  cache_name = r.cache_name;
  request_name = "SetRemoveElements";
  method = "/cache_client.Scs/SetDifference";
  init_grpc_request = λ default_ttl. do
    name ← prepare_name r.set_name "Set name"
    elements ← momento_values_to_primitive_byte_list r.elements
    ok (record { set_name = to_bytes r.set_name; subtrahend = elements });
  interpret_grpc_response = λ req resp. ok success;
}

-- A nil slice of elements is an empty one here. The elements are not checked: a nil one panics.
pub record SetContainsElementsRequest : Type 0 where
  pub cache_name : GoString
  pub set_name : GoString
  pub elements : List Value

unfoldable pub set_contains_elements :
    SetContainsElementsRequest
    → Requester XSetContainsRequest (Lookup (List Bool)) (HitOrMiss (List Bool))
unfolding interpret_lookup all_bytes
set_contains_elements r = record {
  cache_name = r.cache_name;
  request_name = "SetContainsElements";
  method = "/cache_client.Scs/SetContains";
  init_grpc_request = λ default_ttl. do
    name ← prepare_name r.set_name "Set name"
    values ← all_bytes r.elements
    ok (record { set_name = to_bytes r.set_name; elements = values });
  interpret_grpc_response = λ req resp. interpret_lookup "SetContainsElements" resp;
}

pub record SetPopRequest : Type 0 where
  pub cache_name : GoString
  pub set_name : GoString
  pub count : Option ℕ

-- The count that is sent.
unfoldable pub pop_count : Option ℕ → ℕ
pop_count none = 1
pop_count (some n) = n

unfoldable pub set_pop :
    SetPopRequest → Requester XSetPopRequest (Lookup (List Bytes)) (HitOrMiss (List Bytes))
unfolding interpret_lookup pop_count
set_pop r = record {
  cache_name = r.cache_name;
  request_name = "SetPop";
  method = "/cache_client.Scs/SetPop";
  init_grpc_request = λ default_ttl. do
    name ← prepare_name r.set_name "Set name"
    ok (record { set_name = to_bytes r.set_name; count = pop_count r.count });
  interpret_grpc_response = λ req resp. interpret_lookup "SetPop" resp;
}
