-- ===== src/Dictionary/Single.antt =====
-- DictionarySetField, DictionaryGetField and DictionaryRemoveField of momento/cache_client.go: a
-- request for one field becomes one for a list of fields, and its answer is read from that one's.
use client_sdk_go.Base.{◌≡◌, Option, none, some, List, [], ◌∷◌, arith}
use client_sdk_go.Text.{GoString, Bytes}
use client_sdk_go.Errors.{
  Result, ok, err, panic, index_out_of_range, invalid_argument_error, fixed, nil_error,
  new_momento_svc_err, convert_to_customer_error, ◌>>=◌,
}
use client_sdk_go.Requester.{
  Value, nil_value, Field, CollectionTtl, as_bytes, err_unexpected_grpc_response,
}
use client_sdk_go.Protos.{ECacheResult, found, HitOrMiss}
use client_sdk_go.Dictionary.{
  XDictionaryGetResponsePart, DictionaryGetFieldsRequest, FieldResponse, field_hit, field_miss,
  GetFieldsHit, interpret_get_fields, field_answers, field_response,
}
use client_sdk_go.Dictionary.Update.{DictionarySetFieldsRequest, DictionaryRemoveFieldsRequest}

pub record DictionarySetFieldRequest : Type 0 where
  pub cache_name : GoString
  pub dictionary_name : GoString
  pub field : Field
  pub value : Value
  pub ttl : Option CollectionTtl

-- DictionaryGetFieldRequest and DictionaryRemoveFieldRequest.
pub record DictionaryFieldRequest : Type 0 where
  pub cache_name : GoString
  pub dictionary_name : GoString
  pub field : Field

-- getCacheNameForRequest: the default cache stands for an empty name.
unfoldable pub get_cache_name_for_request : GoString → GoString → GoString
get_cache_name_for_request default_cache [] = default_cache
get_cache_name_for_request default_cache name = name

-- The test for a nil field.
unfoldable pub check_field : {A : Type 0} → Field → A → Result A
unfolding new_momento_svc_err convert_to_customer_error
check_field nil_value request = err (
    convert_to_customer_error
      (new_momento_svc_err invalid_argument_error (fixed "field cannot be nil") nil_error))
check_field field request = ok request

-- The request that DictionarySetField makes.
unfoldable pub set_field_request :
    GoString → DictionarySetFieldRequest → Result DictionarySetFieldsRequest
unfolding check_field get_cache_name_for_request
set_field_request default_cache r = check_field r.field (record {
  cache_name = get_cache_name_for_request default_cache r.cache_name;
  dictionary_name = r.dictionary_name;
  elements = record { field = r.field; value = r.value } ∷ [];
  ttl = r.ttl;
})

-- The request that DictionaryRemoveField makes.
unfoldable pub remove_field_request :
    GoString → DictionaryFieldRequest → Result DictionaryRemoveFieldsRequest
unfolding check_field get_cache_name_for_request
remove_field_request default_cache r = check_field r.field (record {
  cache_name = get_cache_name_for_request default_cache r.cache_name;
  dictionary_name = r.dictionary_name;
  fields = some (r.field ∷ []);
})

-- The request that DictionaryGetField makes.
unfoldable pub get_field_request : GoString → DictionaryFieldRequest → DictionaryGetFieldsRequest
unfolding get_cache_name_for_request
get_field_request default_cache r = record {
  cache_name = get_cache_name_for_request default_cache r.cache_name;
  dictionary_name = r.dictionary_name;
  fields = some (r.field ∷ []);
}

-- NewDictionaryGetFieldHitFromFieldsHit.
unfoldable pub from_fields_hit : List Bytes → List XDictionaryGetResponsePart → Result FieldResponse
from_fields_hit (field ∷ fields) (part ∷ parts) = ok (field_hit field part.cache_body)
from_fields_hit _ _ = panic index_out_of_range

-- The switches on the answer; a miss keeps no field.
unfoldable pub get_field_response : HitOrMiss GetFieldsHit → Result FieldResponse
unfolding from_fields_hit
get_field_response HitOrMiss.miss = ok (field_miss [])
get_field_response (HitOrMiss.hit h) = elim h.responses [
  | [] ↦ panic index_out_of_range
  | some (field_hit f b) ∷ rest ↦ from_fields_hit h.fields h.elements
  | some (field_miss f) ∷ rest ↦ ok (field_miss [])
  | none ∷ rest ↦ err (err_unexpected_grpc_response "DictionaryGetFields")
]

-- What one part says of a field.
unfoldable pub part_response : Bytes → XDictionaryGetResponsePart → Result FieldResponse
part_response b part = elim part.result [
  | ECacheResult.hit ↦ ok (field_hit b part.cache_body)
  | ECacheResult.miss ↦ ok (field_miss [])
  | _ ↦ err (err_unexpected_grpc_response "DictionaryGetFields")
]

-- If the server answers with one part, DictionaryGetField returns what this part says of the bytes of
-- the field: a hit with the body, a miss, or the error for an unexpected response. It does not panic.
pub get_field_response-part :
    (default_cache : GoString) (r : DictionaryFieldRequest) (b : Bytes)
    (part : XDictionaryGetResponsePart)
    → as_bytes r.field ≡ ok b
    → (interpret_get_fields (get_field_request default_cache r) (found (part ∷ []))
        >>= get_field_response)
      ≡ part_response b part
unfolding interpret_get_fields field_answers field_response get_field_request get_field_response
    part_response
get_field_response-part default_cache r b part h = ground arith
