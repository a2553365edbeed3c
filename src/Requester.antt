-- ===== src/Requester.antt =====
-- momento/requester.go: what every request checks before it is sent; momento/value.go: the values;
-- utils/collection_ttl.go: the time to live of a collection.
pub mod Laws
pub mod Ttl
use Prim.Native.String.{String}
use client_sdk_go.Base.{
  ℕ, ◌%◌, ◌^◌, ℤ, pos, negsuc, quot, to_unsigned, is_positive, is_zero, is_negative, lez, ◌==◌, ltb,
  Bool, true, false, not, ◌&&◌, Option, none, some, List, [], ◌∷◌, length, if◌then◌else◌,
}
use client_sdk_go.Text.{GoString, Bytes, to_bytes, trim_space}
use client_sdk_go.Errors.{
  ErrorCode, invalid_argument_error, internal_server_error, Message, fixed, labelled,
  unexpected_response, GoError, nil_error, new_momento_svc_err, convert_to_customer_error, Fault,
  nil_dereference, Result, ok, err, panic, ◌>>=◌, ◌>>◌,
}

-- A Value is nil or one of its two implementations. Key and Field are the same type.
pub data Value : Type 0 where
  nil_value : Value
  string : GoString → Value
  bytes : Bytes → Value

abbrev pub Key : Type 0
Key = Value

abbrev pub Field : Type 0
Field = Value

-- asBytes(); a call of it on nil panics.
unfoldable pub as_bytes : Value → Result Bytes
as_bytes nil_value = panic nil_dereference
as_bytes (string s) = ok (to_bytes s)
as_bytes (bytes b) = ok b

pub record DictionaryElement : Type 0 where
  pub field : Field
  pub value : Value

-- utils.CollectionTtl. A duration is its number of nanoseconds, an int64.
pub record CollectionTtl : Type 0 where
  pub ttl : ℤ
  pub refresh_ttl : Bool

-- FromCacheTtl.
unfoldable pub from_cache_ttl : CollectionTtl
from_cache_ttl = record { ttl = pos 0; refresh_ttl = true }

-- Of.
unfoldable pub of_ttl : ℤ → CollectionTtl
of_ttl t = record { ttl = t; refresh_ttl = false }

-- RefreshTtlIfProvided; the arguments after the first are not used.
unfoldable pub refresh_ttl_if_provided : List ℤ → CollectionTtl
refresh_ttl_if_provided (t ∷ rest) = record { ttl = t; refresh_ttl = true }
refresh_ttl_if_provided [] = record { ttl = pos 0; refresh_ttl = false }

-- WithRefreshTtlOnUpdates.
unfoldable pub with_refresh_ttl_on_updates : CollectionTtl → CollectionTtl
with_refresh_ttl_on_updates c = record { ttl = c.ttl; refresh_ttl = true }

-- WithNoRefreshTtlOnUpdates.
unfoldable pub with_no_refresh_ttl_on_updates : CollectionTtl → CollectionTtl
with_no_refresh_ttl_on_updates c = record { ttl = c.ttl; refresh_ttl = false }

-- buildError.
unfoldable pub build_error : ErrorCode → Message → GoError → GoError
unfolding new_momento_svc_err convert_to_customer_error
build_error code message original =
    convert_to_customer_error (new_momento_svc_err code message original)

abbrev pub invalid {ℓ} : {A : Type ℓ} → Message → Result A
invalid m = err (build_error invalid_argument_error m nil_error)

-- errUnexpectedGrpcResponse. The message names the request; the print of the response is left out.
unfoldable pub err_unexpected_grpc_response : String → GoError
unfolding new_momento_svc_err
err_unexpected_grpc_response request_name =
    new_momento_svc_err internal_server_error (unexpected_response request_name) nil_error

-- prepareName.
unfoldable pub prepare_name : GoString → String → Result GoString
unfolding build_error trim_space
prepare_name name label =
    if ltb (length (trim_space name)) 1
    then invalid (labelled label "cannot be empty or blank")
    else ok name

-- prepareCacheName.
unfoldable pub prepare_cache_name : GoString → Result GoString
unfolding prepare_name
prepare_cache_name name = prepare_name name "Cache name"

-- validateNotNil.
unfoldable pub validate_not_nil : Value → String → Result (Unit {0})
unfolding build_error
validate_not_nil nil_value label = invalid (labelled label "cannot be nil")
validate_not_nil _ label = ok tt

-- validateNotEmpty.
unfoldable pub validate_not_empty : Value → String → Result (Unit {0})
unfolding validate_not_nil as_bytes build_error
validate_not_empty thing label = do
  validate_not_nil thing label
  b ← as_bytes thing
  if length b == 0 then invalid (labelled label "cannot be empty") else ok tt

-- prepareKey.
unfoldable pub prepare_key : Key → Result Bytes
unfolding validate_not_empty as_bytes
prepare_key key = do validate_not_empty key "key"; as_bytes key

-- prepareKeys.
unfoldable pub prepare_keys : List Key → Result (List Bytes)
unfolding validate_not_empty as_bytes
prepare_keys [] = ok []
prepare_keys (key ∷ keys) = do
  validate_not_empty key "key"
  b ← as_bytes key
  rest ← prepare_keys keys
  ok (b ∷ rest)

-- prepareField.
unfoldable pub prepare_field : Field → Result Bytes
unfolding validate_not_empty as_bytes
prepare_field field = do validate_not_empty field "field"; as_bytes field

-- The loop of prepareFields.
unfoldable pub prepare_field_list : List Field → Result (List Bytes)
unfolding validate_not_empty as_bytes
prepare_field_list [] = ok []
prepare_field_list (field ∷ fields) = do
  validate_not_empty field "field"
  b ← as_bytes field
  rest ← prepare_field_list fields
  ok (b ∷ rest)

-- prepareFields; `none` is the nil slice.
unfoldable pub prepare_fields : Option (List Field) → Result (List Bytes)
unfolding prepare_field_list build_error
prepare_fields none = invalid (fixed "fields cannot be nil")
prepare_fields (some fields) = prepare_field_list fields

-- prepareValue, prepareNotEqual and prepareEqual.
unfoldable pub prepare_value : Value → Result Bytes
unfolding validate_not_nil as_bytes
prepare_value value = do validate_not_nil value "value"; as_bytes value

unfoldable pub prepare_not_equal : Value → Result Bytes
unfolding validate_not_nil as_bytes
prepare_not_equal value = do validate_not_nil value "notEqual"; as_bytes value

unfoldable pub prepare_equal : Value → Result Bytes
unfolding validate_not_nil as_bytes
prepare_equal value = do validate_not_nil value "equal"; as_bytes value

-- The loop of momentoValuesToPrimitiveByteList.
unfoldable pub prepare_value_list : List Value → Result (List Bytes)
unfolding validate_not_nil as_bytes
prepare_value_list [] = ok []
prepare_value_list (value ∷ values) = do
  validate_not_nil value "value"
  b ← as_bytes value
  rest ← prepare_value_list values
  ok (b ∷ rest)

-- momentoValuesToPrimitiveByteList; `none` is the nil slice. prepareValues passes its result on.
unfoldable pub momento_values_to_primitive_byte_list : Option (List Value) → Result (List Bytes)
unfolding prepare_value_list build_error
momento_values_to_primitive_byte_list none = invalid (fixed "values cannot be nil")
momento_values_to_primitive_byte_list (some values) = prepare_value_list values

unfoldable pub prepare_values : Option (List Value) → Result (List Bytes)
unfolding momento_values_to_primitive_byte_list
prepare_values values = momento_values_to_primitive_byte_list values

-- The loop of prepareDictionaryElements; the value of an element is checked before its field.
unfoldable pub validate_dictionary_elements : List DictionaryElement → Result (Unit {0})
unfolding validate_not_nil validate_not_empty
validate_dictionary_elements [] = ok tt
validate_dictionary_elements (v ∷ rest) = do
  validate_not_nil v.value "value"
  validate_not_empty v.field "element field"
  validate_dictionary_elements rest

-- prepareDictionaryElements.
unfoldable pub prepare_dictionary_elements :
    List DictionaryElement → Result (List DictionaryElement)
unfolding validate_dictionary_elements
prepare_dictionary_elements elements = do validate_dictionary_elements elements; ok elements

-- Duration.Milliseconds().
unfoldable pub milliseconds : ℤ → ℤ
unfolding quot
milliseconds d = quot d 1000000

-- uint64(d.Milliseconds()).
unfoldable pub ttl_milliseconds : ℤ → ℕ
unfolding milliseconds to_unsigned
ttl_milliseconds d = to_unsigned 64 (milliseconds d)

-- prepareCollectionTtl.
unfoldable pub prepare_collection_ttl : Option CollectionTtl → ℤ → Result (ℕ × Bool)
unfolding ttl_milliseconds build_error is_zero is_positive
prepare_collection_ttl none default_ttl = ok (ttl_milliseconds default_ttl, true)
prepare_collection_ttl (some c) default_ttl =
    if is_zero c.ttl
    then ok (ttl_milliseconds default_ttl, c.refresh_ttl)
    else if not (is_positive c.ttl)
    then invalid (fixed "ttl must be a non-zero positive value")
    else ok (ttl_milliseconds c.ttl, c.refresh_ttl)

-- prepareTtl.
unfoldable pub prepare_ttl : ℤ → ℤ → Result ℕ
unfolding ttl_milliseconds build_error is_zero is_positive
prepare_ttl requested default_ttl =
    let ttl = if is_zero requested then default_ttl else requested in
    if not (is_positive ttl)
    then invalid (fixed "ttl must be a non-zero positive value")
    else if ttl_milliseconds ttl == 0
    then invalid (fixed "ttl must greater than 0 when interpreting it as milliseconds")
    else ok (ttl_milliseconds ttl)

-- prepareUpdateTtl.
unfoldable pub prepare_update_ttl : ℤ → Result ℕ
unfolding ttl_milliseconds build_error is_positive
prepare_update_ttl ttl =
    if not (is_positive ttl)
    then invalid (fixed "updateTtl must be a non-zero positive value")
    else ok (ttl_milliseconds ttl)

-- validateSortedSetRanks. For a, b of type int32, `start >= end` is `lez end start`.
unfoldable pub validate_sorted_set_ranks : ℤ → ℤ → Result (Unit {0})
unfolding build_error is_negative lez
validate_sorted_set_ranks start end =
    if not (is_negative start) && (not (is_negative end) && lez end start)
    then invalid (fixed "start rank must be less than end rank")
    else if is_negative start && (is_negative end && lez end start)
    then invalid (fixed "negative start rank must be less than negative end rank")
    else ok tt
