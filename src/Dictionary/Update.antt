-- ===== src/Dictionary/Update.antt =====
-- The requests that change a dictionary: momento/dictionary_increment.go, dictionary_remove_fields.go
-- and dictionary_set_fields.go.
use client_sdk_go.Base.{ℕ, ℤ, Bool, Option, List, [], ◌∷◌, is_zero, if◌then◌else◌}
use client_sdk_go.Text.{GoString, Bytes, to_bytes}
use client_sdk_go.Errors.{
  Result, ok, err, invalid_argument_error, fixed, plain, new_momento_svc_err, ◌>>=◌, ◌>>◌,
}
use client_sdk_go.Requester.{
  Value, Field, CollectionTtl, DictionaryElement, as_bytes, prepare_name, prepare_field,
  prepare_fields, prepare_collection_ttl, prepare_dictionary_elements,
}
use client_sdk_go.Protos.{Success, success}
use client_sdk_go.DataClient.{Requester}
use client_sdk_go.Dictionary.{XDictionaryFieldValuePair}

pub record XDictionarySetRequest : Type 0 where
  pub dictionary_name : Bytes
  pub items : List XDictionaryFieldValuePair
  pub ttl_milliseconds : ℕ
  pub refresh_ttl : Bool

pub record XDictionaryIncrementRequest : Type 0 where
  pub dictionary_name : Bytes
  pub field : Bytes
  pub amount : ℤ
  pub ttl_milliseconds : ℕ
  pub refresh_ttl : Bool

-- The oneof delete is always Some.
pub record XDictionaryDeleteRequest : Type 0 where
  pub dictionary_name : Bytes
  pub some_fields : List Bytes

pub record DictionaryIncrementRequest : Type 0 where
  pub cache_name : GoString
  pub dictionary_name : GoString
  pub field : Field
  pub amount : ℤ
  pub ttl : Option CollectionTtl

-- The test of the amount.
unfoldable pub check_amount : ℤ → Result (Unit {0})
unfolding new_momento_svc_err is_zero
check_amount amount =
    if is_zero amount
    then err (
        new_momento_svc_err invalid_argument_error (fixed "Amount must be given and cannot be 0")
          (plain "invalid argument"))
    else ok tt

unfoldable pub dictionary_increment :
    DictionaryIncrementRequest → Requester XDictionaryIncrementRequest ℤ ℤ
unfolding check_amount
dictionary_increment r = record {
  cache_name = r.cache_name;
  request_name = "DictionaryIncrement";
  method = "/cache_client.Scs/DictionaryIncrement";
  init_grpc_request = λ default_ttl. do
    name ← prepare_name r.dictionary_name "Dictionary name"
    field ← prepare_field r.field
    (ttl, refresh) ← prepare_collection_ttl r.ttl default_ttl
    check_amount r.amount
    ok (record {
      dictionary_name = to_bytes r.dictionary_name;
      field = field;
      amount = r.amount;
      ttl_milliseconds = ttl;
      refresh_ttl = refresh;
    });
  interpret_grpc_response = λ req resp. ok resp;
}

pub record DictionaryRemoveFieldsRequest : Type 0 where
  pub cache_name : GoString
  pub dictionary_name : GoString
  pub fields : Option (List Value)

unfoldable pub dictionary_remove_fields :
    DictionaryRemoveFieldsRequest → Requester XDictionaryDeleteRequest (Unit {0}) Success
dictionary_remove_fields r = record {
  cache_name = r.cache_name;
  request_name = "DictionaryRemoveFields";
  method = "/cache_client.Scs/DictionaryDelete";
  init_grpc_request = λ default_ttl. do
    name ← prepare_name r.dictionary_name "Dictionary name"
    fields ← prepare_fields r.fields
    ok (record { dictionary_name = to_bytes r.dictionary_name; some_fields = fields });
  interpret_grpc_response = λ req resp. ok success;
}

pub record DictionarySetFieldsRequest : Type 0 where
  pub cache_name : GoString
  pub dictionary_name : GoString
  pub elements : List DictionaryElement
  pub ttl : Option CollectionTtl

-- The loop that makes the pairs of the message.
unfoldable pub field_value_pairs : List DictionaryElement → Result (List XDictionaryFieldValuePair)
unfolding as_bytes
field_value_pairs [] = ok []
field_value_pairs (v ∷ elements) = do
  field ← as_bytes v.field
  value ← as_bytes v.value
  rest ← field_value_pairs elements
  ok (record { field = field; value = value } ∷ rest)

unfoldable pub dictionary_set_fields :
    DictionarySetFieldsRequest → Requester XDictionarySetRequest (Unit {0}) Success
unfolding field_value_pairs
dictionary_set_fields r = record {
  cache_name = r.cache_name;
  request_name = "DictionarySetFields";
  method = "/cache_client.Scs/DictionarySet";
  init_grpc_request = λ default_ttl. do
    name ← prepare_name r.dictionary_name "Dictionary name"
    elements ← prepare_dictionary_elements r.elements
    pairs ← field_value_pairs elements
    (ttl, refresh) ← prepare_collection_ttl r.ttl default_ttl
    ok (record {
      dictionary_name = to_bytes r.dictionary_name;
      items = pairs;
      ttl_milliseconds = ttl;
      refresh_ttl = refresh;
    });
  interpret_grpc_response = λ req resp. ok success;
}
