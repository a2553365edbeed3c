-- ===== src/Lists.antt =====
-- The requests on lists: momento/list_concatenate_back.go, list_concatenate_front.go, list_fetch.go,
-- list_length.go, list_pop_back.go, list_pop_front.go, list_push_back.go, list_push_front.go and
-- list_remove_value.go.
pub mod Laws
use Prim.Native.String.{String}
use client_sdk_go.Base.{ℕ, ℤ, Bool, Option, none, some, List, [], ◌∷◌}
use client_sdk_go.Text.{GoString, Bytes, to_bytes}
use client_sdk_go.Errors.{Result, ok, err, panic, ◌>>=◌}
use client_sdk_go.Requester.{
  Value, CollectionTtl, prepare_name, prepare_value, prepare_values, prepare_collection_ttl,
}
use client_sdk_go.Protos.{Lookup, Success, success, HitOrMiss, interpret_lookup}
use client_sdk_go.DataClient.{Requester}

-- The messages for the length and the two pops have this one field.
pub record XListNameRequest : Type 0 where
  pub list_name : Bytes

-- The oneofs start_index and end_index.
pub data Start : Type 0 where
  unbounded_start : Start
  inclusive_start : ℤ → Start

pub data End : Type 0 where
  unbounded_end : End
  exclusive_end : ℤ → End

pub record XListFetchRequest : Type 0 where
  pub list_name : Bytes
  pub start_index : Start
  pub end_index : End

-- XListPushBackRequest and XListPushFrontRequest; `truncate_to_size` is the field truncate_front_to_size
-- of the first and truncate_back_to_size of the second.
pub record XListPushRequest : Type 0 where
  pub list_name : Bytes
  pub value : Bytes
  pub ttl_milliseconds : ℕ
  pub refresh_ttl : Bool
  pub truncate_to_size : ℕ

-- XListConcatenateBackRequest and XListConcatenateFrontRequest, likewise.
pub record XListConcatenateRequest : Type 0 where
  pub list_name : Bytes
  pub values : List Bytes
  pub ttl_milliseconds : ℕ
  pub refresh_ttl : Bool
  pub truncate_to_size : ℕ

pub record XListRemoveRequest : Type 0 where
  pub list_name : Bytes
  pub all_elements_with_value : Bytes

-- A request with the name of a list: ListLengthRequest, ListPopBackRequest, ListPopFrontRequest.
pub record ListNameRequest : Type 0 where
  pub cache_name : GoString
  pub list_name : GoString

unfoldable pub list_length : ListNameRequest → Requester XListNameRequest (Lookup ℕ) (HitOrMiss ℕ)
unfolding interpret_lookup
list_length r = record {
  cache_name = r.cache_name;
  request_name = "ListLength";
  method = "/cache_client.Scs/ListLength";
  init_grpc_request = λ default_ttl. do
    name ← prepare_name r.list_name "List name"
    ok (record { list_name = to_bytes r.list_name });
  interpret_grpc_response = λ req resp. interpret_lookup "ListLength" resp;
}

unfoldable pub list_pop_back :
    ListNameRequest → Requester XListNameRequest (Lookup Bytes) (HitOrMiss Bytes)
unfolding interpret_lookup
list_pop_back r = record {
  cache_name = r.cache_name;
  request_name = "ListPopBack";
  method = "/cache_client.Scs/ListPopBack";
  init_grpc_request = λ default_ttl. do
    name ← prepare_name r.list_name "List name"
    ok (record { list_name = to_bytes r.list_name });
  interpret_grpc_response = λ req resp. interpret_lookup "ListPopBack" resp;
}

unfoldable pub list_pop_front :
    ListNameRequest → Requester XListNameRequest (Lookup Bytes) (HitOrMiss Bytes)
unfolding interpret_lookup
list_pop_front r = record {
  cache_name = r.cache_name;
  request_name = "ListPopFront";
  method = "/cache_client.Scs/ListPopFront";
  init_grpc_request = λ default_ttl. do
    name ← prepare_name r.list_name "List name"
    ok (record { list_name = to_bytes r.list_name });
  interpret_grpc_response = λ req resp. interpret_lookup "ListPopFront" resp;
}

pub record ListFetchRequest : Type 0 where
  pub cache_name : GoString
  pub list_name : GoString
  pub start_index : Option ℤ
  pub end_index : Option ℤ

unfoldable pub fetch_start : Option ℤ → Start
fetch_start none = unbounded_start
fetch_start (some i) = inclusive_start i

unfoldable pub fetch_end : Option ℤ → End
fetch_end none = unbounded_end
fetch_end (some i) = exclusive_end i

unfoldable pub list_fetch :
    ListFetchRequest → Requester XListFetchRequest (Lookup (List Bytes)) (HitOrMiss (List Bytes))
unfolding interpret_lookup fetch_start fetch_end
list_fetch r = record {
  cache_name = r.cache_name;
  request_name = "ListFetch";
  method = "/cache_client.Scs/ListFetch";
  init_grpc_request = λ default_ttl. do
    name ← prepare_name r.list_name "List name"
    ok (record {
      list_name = to_bytes r.list_name;
      start_index = fetch_start r.start_index;
      end_index = fetch_end r.end_index;
    });
  interpret_grpc_response = λ req resp. interpret_lookup "ListFetch" resp;
}

-- ListPushBackRequest and ListPushFrontRequest.
pub record ListPushRequest : Type 0 where
  pub cache_name : GoString
  pub list_name : GoString
  pub value : Value
  pub truncate_to_size : ℕ
  pub ttl : Option CollectionTtl

unfoldable pub list_push_back : ListPushRequest → Requester XListPushRequest ℕ ℕ
list_push_back r = record {
  cache_name = r.cache_name;
  request_name = "ListPushBack";
  method = "/cache_client.Scs/ListPushBack";
  init_grpc_request = λ default_ttl. do
    name ← prepare_name r.list_name "List name"
    value ← prepare_value r.value
    (ttl, refresh) ← prepare_collection_ttl r.ttl default_ttl
    ok (record {
      list_name = to_bytes r.list_name;
      value = value;
      ttl_milliseconds = ttl;
      refresh_ttl = refresh;
      truncate_to_size = r.truncate_to_size;
    });
  interpret_grpc_response = λ req resp. ok resp;
}

unfoldable pub list_push_front : ListPushRequest → Requester XListPushRequest ℕ ℕ
list_push_front r = record {
  cache_name = r.cache_name;
  request_name = "ListPushFront";
  method = "/cache_client.Scs/ListPushFront";
  init_grpc_request = λ default_ttl. do
    name ← prepare_name r.list_name "List name"
    value ← prepare_value r.value
    (ttl, refresh) ← prepare_collection_ttl r.ttl default_ttl
    ok (record {
      list_name = to_bytes r.list_name;
      value = value;
      ttl_milliseconds = ttl;
      refresh_ttl = refresh;
      truncate_to_size = r.truncate_to_size;
    });
  interpret_grpc_response = λ req resp. ok resp;
}

-- ListConcatenateBackRequest and ListConcatenateFrontRequest; `none` is the nil slice of values.
pub record ListConcatenateRequest : Type 0 where
  pub cache_name : GoString
  pub list_name : GoString
  pub values : Option (List Value)
  pub truncate_to_size : ℕ
  pub ttl : Option CollectionTtl

unfoldable pub list_concatenate_back :
    ListConcatenateRequest → Requester XListConcatenateRequest ℕ ℕ
list_concatenate_back r = record {
  cache_name = r.cache_name;
  request_name = "ListConcatenateBack";
  method = "/cache_client.Scs/ListConcatenateBack";
  init_grpc_request = λ default_ttl. do
    name ← prepare_name r.list_name "List name"
    values ← prepare_values r.values
    (ttl, refresh) ← prepare_collection_ttl r.ttl default_ttl
    ok (record {
      list_name = to_bytes r.list_name;
      values = values;
      ttl_milliseconds = ttl;
      refresh_ttl = refresh;
      truncate_to_size = r.truncate_to_size;
    });
  interpret_grpc_response = λ req resp. ok resp;
}

unfoldable pub list_concatenate_front :
    ListConcatenateRequest → Requester XListConcatenateRequest ℕ ℕ
list_concatenate_front r = record {
  cache_name = r.cache_name;
  request_name = "ListConcatenateFront";
  method = "/cache_client.Scs/ListConcatenateFront";
  init_grpc_request = λ default_ttl. do
    name ← prepare_name r.list_name "List name"
    values ← prepare_values r.values
    (ttl, refresh) ← prepare_collection_ttl r.ttl default_ttl
    ok (record {
      list_name = to_bytes r.list_name;
      values = values;
      ttl_milliseconds = ttl;
      refresh_ttl = refresh;
      truncate_to_size = r.truncate_to_size;
    });
  interpret_grpc_response = λ req resp. ok resp;
}

pub record ListRemoveValueRequest : Type 0 where
  pub cache_name : GoString
  pub list_name : GoString
  pub value : Value

unfoldable pub list_remove_value :
    ListRemoveValueRequest → Requester XListRemoveRequest (Unit {0}) Success
list_remove_value r = record {
  cache_name = r.cache_name;
  request_name = "ListRemoveValue";
  method = "/cache_client.Scs/ListRemove";
  init_grpc_request = λ default_ttl. do
    name ← prepare_name r.list_name "List name"
    value ← prepare_value r.value
    ok (record { list_name = to_bytes r.list_name; all_elements_with_value = value });
  interpret_grpc_response = λ req resp. ok success;
}
