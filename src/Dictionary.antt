-- ===== src/Dictionary.antt =====
-- The requests that read a dictionary: momento/dictionary_fetch.go, dictionary_get_fields.go and
-- dictionary_length.go; those that change it are in the child Update. A Go map from strings to bytes is its list of entries.
pub mod Update
pub mod Single
pub mod Laws
use Prim.Native.String.{String}
use client_sdk_go.Base.{
  ℕ, ℤ, pos, Bool, Option, none, some, List, [], ◌∷◌, same_text, is_zero, if◌then◌else◌,
}
use client_sdk_go.Text.{GoString, Bytes, to_bytes}
use client_sdk_go.Errors.{
  Result, ok, err, panic, index_out_of_range, invalid_argument_error, fixed, plain,
  new_momento_svc_err, ◌>>=◌, ◌>>◌,
}
use client_sdk_go.Requester.{
  Value, Field, CollectionTtl, DictionaryElement, as_bytes, prepare_name, prepare_field,
  prepare_fields, prepare_collection_ttl, prepare_dictionary_elements, err_unexpected_grpc_response,
}
use client_sdk_go.Protos.{
  ECacheResult, Lookup, found, missing, unset, Success, success, HitOrMiss, interpret_lookup,
}
use client_sdk_go.DataClient.{Requester}

-- XDictionaryFetchRequest and XDictionaryLengthRequest have this one field.
pub record XDictionaryFetchRequest : Type 0 where
  pub dictionary_name : Bytes

pub record XDictionaryFieldValuePair : Type 0 where
  pub field : Bytes
  pub value : Bytes

pub record XDictionaryGetRequest : Type 0 where
  pub dictionary_name : Bytes
  pub fields : List Bytes

pub record XDictionaryGetResponsePart : Type 0 where
  pub result : ECacheResult
  pub cache_body : Bytes

-- A request with the name of a dictionary: DictionaryFetchRequest, DictionaryLengthRequest.
pub record DictionaryRequest : Type 0 where
  pub cache_name : GoString
  pub dictionary_name : GoString

-- `m[k] = v` on the entries of a Go map.
unfoldable pub assign {ℓ} : {A : Type ℓ} → Bytes → A → List (Bytes × A) → List (Bytes × A)
assign k v [] = (k, v) ∷ []
assign k v ((j, w) ∷ m) = if same_text j k then (j, v) ∷ m else (j, w) ∷ assign k v m

-- The loop of interpretGrpcResponse of DictionaryFetchRequest.
unfoldable pub fetched_elements :
    List XDictionaryFieldValuePair → List (Bytes × Bytes) → List (Bytes × Bytes)
unfolding assign
fetched_elements [] m = m
fetched_elements (i ∷ items) m = fetched_elements items (assign i.field i.value m)

unfoldable pub interpret_fetch :
    Lookup (List XDictionaryFieldValuePair) → Result (HitOrMiss (List (Bytes × Bytes)))
unfolding fetched_elements
interpret_fetch (found items) = ok (HitOrMiss.hit (fetched_elements items []))
interpret_fetch missing = ok HitOrMiss.miss
interpret_fetch unset = err (err_unexpected_grpc_response "DictionaryFetch")

unfoldable pub dictionary_fetch :
    DictionaryRequest
    → Requester XDictionaryFetchRequest
        (Lookup (List XDictionaryFieldValuePair))
        (HitOrMiss (List (Bytes × Bytes)))
unfolding interpret_fetch
dictionary_fetch r = record {
  cache_name = r.cache_name;
  request_name = "DictionaryFetch";
  method = "/cache_client.Scs/DictionaryFetch";
  init_grpc_request = λ default_ttl. do
    name ← prepare_name r.dictionary_name "Dictionary name"
    ok (record { dictionary_name = to_bytes r.dictionary_name });
  interpret_grpc_response = λ req resp. interpret_fetch resp;
}

unfoldable pub dictionary_length :
    DictionaryRequest → Requester XDictionaryFetchRequest (Lookup ℕ) (HitOrMiss ℕ)
unfolding interpret_lookup
dictionary_length r = record {
  cache_name = r.cache_name;
  request_name = "DictionaryLength";
  method = "/cache_client.Scs/DictionaryLength";
  init_grpc_request = λ default_ttl. do
    name ← prepare_name r.dictionary_name "Dictionary name"
    ok (record { dictionary_name = to_bytes r.dictionary_name });
  interpret_grpc_response = λ req resp. interpret_lookup "DictionaryLength" resp;
}

-- `none` is the nil slice of fields.
pub record DictionaryGetFieldsRequest : Type 0 where
  pub cache_name : GoString
  pub dictionary_name : GoString
  pub fields : Option (List Value)

-- DictionaryGetFieldHit and DictionaryGetFieldMiss.
pub data FieldResponse : Type 0 where
  field_hit : Bytes → Bytes → FieldResponse
  field_miss : Bytes → FieldResponse

-- DictionaryGetFieldsHit. A response is nil where the result of its part is neither a hit nor a miss.
pub record GetFieldsHit : Type 0 where
  pub fields : List Bytes
  pub elements : List XDictionaryGetResponsePart
  pub responses : List (Option FieldResponse)

unfoldable pub field_response : Bytes → XDictionaryGetResponsePart → Option FieldResponse
field_response field part = elim part.result [
  | ECacheResult.hit ↦ some (field_hit field part.cache_body)
  | ECacheResult.miss ↦ some (field_miss field)
  | _ ↦ none
]

-- The loop over the parts, which takes the field of each by its index from the request.
unfoldable pub field_answers :
    List Value → List XDictionaryGetResponsePart → Result (List Bytes × List (Option FieldResponse))
unfolding field_response as_bytes
field_answers fields [] = ok ([], [])
field_answers [] (part ∷ parts) = panic index_out_of_range
field_answers (f ∷ fields) (part ∷ parts) = do
  field ← as_bytes f
  (names, responses) ← field_answers fields parts
  ok (field ∷ names, field_response field part ∷ responses)

-- The fields that the loop indexes; a nil slice has none.
abbrev pub slice {ℓ} : {A : Type ℓ} → Option (List A) → List A
slice none = []
slice (some xs) = xs

unfoldable pub interpret_get_fields :
    DictionaryGetFieldsRequest
    → Lookup (List XDictionaryGetResponsePart)
    → Result (HitOrMiss GetFieldsHit)
unfolding field_answers
interpret_get_fields r missing = ok HitOrMiss.miss
interpret_get_fields r (found parts) = do
  (names, responses) ← field_answers (slice r.fields) parts
  ok (HitOrMiss.hit (record { fields = names; elements = parts; responses = responses }))
interpret_get_fields r unset = err (err_unexpected_grpc_response "DictionaryGetFields")

unfoldable pub dictionary_get_fields :
    DictionaryGetFieldsRequest
    → Requester XDictionaryGetRequest
        (Lookup (List XDictionaryGetResponsePart))
        (HitOrMiss GetFieldsHit)
unfolding interpret_get_fields
dictionary_get_fields r = record {
  cache_name = r.cache_name;
  request_name = "DictionaryGetFields";
  method = "/cache_client.Scs/DictionaryGet";
  init_grpc_request = λ default_ttl. do
    name ← prepare_name r.dictionary_name "Dictionary name"
    fields ← prepare_fields r.fields
    ok (record { dictionary_name = to_bytes r.dictionary_name; fields = fields });
  interpret_grpc_response = λ req resp. interpret_get_fields r resp;
}
