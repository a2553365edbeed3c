-- ===== src/SortedSets/Elements.antt =====
-- The requests on elements of a sorted set: momento/sorted_set_get_rank.go,
-- sorted_set_increment_score.go, sorted_set_put_elements.go and sorted_set_remove_elements.go; and
-- those for one element, of momento/cache_client.go.
use client_sdk_go.Base.{ℕ, ℤ, Bool, Option, none, some, List, [], ◌∷◌, if◌then◌else◌}
use client_sdk_go.Text.{GoString, Bytes, to_bytes}
use client_sdk_go.Errors.{
  nil_error, plain, invalid_argument_error, fixed, new_momento_svc_err, convert_to_customer_error,
  Result, ok, err, ◌>>=◌, ◌>>◌,
}
use client_sdk_go.Requester.{
  Value, nil_value, CollectionTtl, as_bytes, invalid, build_error, prepare_name, prepare_value,
  prepare_values, prepare_collection_ttl, err_unexpected_grpc_response,
}
use client_sdk_go.Protos.{ECacheResult, Lookup, found, missing, unset, Success, success, HitOrMiss}
use client_sdk_go.DataClient.{Requester}
use client_sdk_go.Dictionary.Single.{get_cache_name_for_request}
use client_sdk_go.SortedSets.{SortedSetOrder, XSortedSetElement, to_enum}

pub record SortedSetGetRankRequest : Type 0 where
  pub cache_name : GoString
  pub set_name : GoString
  pub value : Value
  pub order : SortedSetOrder

pub record XSortedSetGetRankRequest : Type 0 where
  pub set_name : Bytes
  pub value : Bytes
  pub order : ℤ

pub record XRankResponsePart : Type 0 where
  pub result : ECacheResult
  pub rank : ℕ

unfoldable pub interpret_rank : Lookup XRankResponsePart → Result (HitOrMiss ℕ)
interpret_rank (found part) = elim part.result [
  | ECacheResult.hit ↦ ok (HitOrMiss.hit part.rank)
  | ECacheResult.miss ↦ ok HitOrMiss.miss
  | _ ↦ err (err_unexpected_grpc_response "Sorted set get rank")
]
interpret_rank missing = ok HitOrMiss.miss
interpret_rank unset = err (err_unexpected_grpc_response "Sorted set get rank")

unfoldable pub sorted_set_get_rank :
    SortedSetGetRankRequest
    → Requester XSortedSetGetRankRequest (Lookup XRankResponsePart) (HitOrMiss ℕ)
unfolding interpret_rank to_enum
sorted_set_get_rank r = record {
  cache_name = r.cache_name;
  request_name = "Sorted set get rank";
  method = "/cache_client.Scs/SortedSetGetRank";
  init_grpc_request = λ default_ttl. do
    name ← prepare_name r.set_name "Set name"
    value ← prepare_value r.value
    ok (record { set_name = to_bytes r.set_name; value = value; order = to_enum r.order });
  interpret_grpc_response = λ req resp. interpret_rank resp;
}

-- `none` is the nil slice.
pub record SortedSetValuesRequest : Type 0 where
  pub cache_name : GoString
  pub set_name : GoString
  pub values : Option (List Value)

-- XSortedSetGetScoreRequest, and XSortedSetRemoveRequest with some elements.
pub record XSortedSetValuesRequest : Type 0 where
  pub set_name : Bytes
  pub values : List Bytes

unfoldable pub sorted_set_remove_elements :
    SortedSetValuesRequest → Requester XSortedSetValuesRequest (Unit {0}) Success
sorted_set_remove_elements r = record {
  cache_name = r.cache_name;
  request_name = "Sorted set remove elements";
  method = "/cache_client.Scs/SortedSetRemove";
  init_grpc_request = λ default_ttl. do
    name ← prepare_name r.set_name "Set name"
    values ← prepare_values r.values
    ok (record { set_name = to_bytes r.set_name; values = values });
  interpret_grpc_response = λ req resp. ok success;
}

-- SortedSetGetScoreRequest and SortedSetRemoveElementRequest.
pub record SortedSetValueRequest : Type 0 where
  pub cache_name : GoString
  pub set_name : GoString
  pub value : Value

-- The test for a nil value of the cache client.
unfoldable pub check_value : {A : Type 0} → Value → A → Result A
unfolding new_momento_svc_err convert_to_customer_error
check_value nil_value request = err (
    convert_to_customer_error
      (new_momento_svc_err invalid_argument_error (fixed "value cannot be nil") nil_error))
check_value value request = ok request

-- The request that SortedSetRemoveElement makes.
unfoldable pub remove_element_request :
    GoString → SortedSetValueRequest → Result SortedSetValuesRequest
unfolding check_value get_cache_name_for_request
remove_element_request default_cache r = check_value r.value (record {
  cache_name = get_cache_name_for_request default_cache r.cache_name;
  set_name = r.set_name;
  values = some (r.value ∷ []);
})

pub record SortedSetElement (Score : Type 0) : Type 0 where
  pub value : Value
  pub score : Score

pub record SortedSetPutElementsRequest (Score : Type 0) : Type 0 where
  pub cache_name : GoString
  pub set_name : GoString
  pub elements : Option (List (SortedSetElement Score))
  pub ttl : Option CollectionTtl

pub record SortedSetPutElementRequest (Score : Type 0) : Type 0 where
  pub cache_name : GoString
  pub set_name : GoString
  pub value : Value
  pub score : Score
  pub ttl : Option CollectionTtl

pub record XSortedSetPutRequest (Score : Type 0) : Type 0 where
  pub set_name : Bytes
  pub elements : List (XSortedSetElement Score)
  pub ttl_milliseconds : ℕ
  pub refresh_ttl : Bool

pub record SortedSetIncrementScoreRequest (Score : Type 0) : Type 0 where
  pub cache_name : GoString
  pub set_name : GoString
  pub value : Value
  pub amount : Score
  pub ttl : Option CollectionTtl

pub record XSortedSetIncrementRequest (Score : Type 0) : Type 0 where
  pub set_name : Bytes
  pub value : Bytes
  pub amount : Score
  pub ttl_milliseconds : ℕ
  pub refresh_ttl : Bool

-- The test for a nil value of an element.
unfoldable pub element_bytes : Value → Result Bytes
unfolding as_bytes build_error
element_bytes nil_value = invalid (fixed "element value cannot be nil")
element_bytes v = as_bytes v

module _ {Score : Type 0} where
  -- The loop of convertSortedSetElementsToGrpc.
  unfoldable pub sorted_set_elements :
      List (SortedSetElement Score) → Result (List (XSortedSetElement Score))
  unfolding element_bytes
  sorted_set_elements [] = ok []
  sorted_set_elements (el ∷ els) = do
    v ← element_bytes el.value
    rest ← sorted_set_elements els
    ok (record { value = v; score = el.score } ∷ rest)

  -- convertSortedSetElementsToGrpc; `none` is the nil slice.
  unfoldable pub convert_sorted_set_elements_to_grpc :
      Option (List (SortedSetElement Score)) → Result (List (XSortedSetElement Score))
  unfolding sorted_set_elements build_error
  convert_sorted_set_elements_to_grpc none = invalid (fixed "elements cannot be nil")
  convert_sorted_set_elements_to_grpc (some els) = sorted_set_elements els

  unfoldable pub sorted_set_put_elements :
      SortedSetPutElementsRequest Score → Requester (XSortedSetPutRequest Score) (Unit {0}) Success
  unfolding convert_sorted_set_elements_to_grpc
  sorted_set_put_elements r = record {
    cache_name = r.cache_name;
    request_name = "Sorted set put elements";
    method = "/cache_client.Scs/SortedSetPut";
    init_grpc_request = λ default_ttl. do
      name ← prepare_name r.set_name "Set name"
      (ttl, refresh) ← prepare_collection_ttl r.ttl default_ttl
      elements ← convert_sorted_set_elements_to_grpc r.elements
      ok (record {
        set_name = to_bytes r.set_name;
        elements = elements;
        ttl_milliseconds = ttl;
        refresh_ttl = refresh;
      });
    interpret_grpc_response = λ req resp. ok success;
  }

  -- The request that SortedSetPutElement makes.
  unfoldable pub put_element_request :
      GoString → SortedSetPutElementRequest Score → Result (SortedSetPutElementsRequest Score)
  unfolding check_value get_cache_name_for_request
  put_element_request default_cache r = check_value r.value (record {
    cache_name = get_cache_name_for_request default_cache r.cache_name;
    set_name = r.set_name;
    elements = some (record { value = r.value; score = r.score } ∷ []);
    ttl = r.ttl;
  })

  -- The test of the amount; `is_zero_score` compares a float with 0.
  unfoldable pub check_score : (Score → Bool) → Score → Result (Unit {0})
  unfolding new_momento_svc_err
  check_score is_zero_score amount =
      if is_zero_score amount
      then err (
          new_momento_svc_err invalid_argument_error (fixed "Amount must be given and cannot be 0")
            (plain "invalid argument"))
      else ok tt

  unfoldable pub sorted_set_increment_score :
      (Score → Bool)
      → SortedSetIncrementScoreRequest Score
      → Requester (XSortedSetIncrementRequest Score) Score Score
  unfolding check_score
  sorted_set_increment_score is_zero_score r = record {
    cache_name = r.cache_name;
    request_name = "Sorted set increment score";
    method = "/cache_client.Scs/SortedSetIncrement";
    init_grpc_request = λ default_ttl. do
      name ← prepare_name r.set_name "Set name"
      (ttl, refresh) ← prepare_collection_ttl r.ttl default_ttl
      value ← prepare_value r.value
      check_score is_zero_score r.amount
      ok (record {
        set_name = to_bytes r.set_name;
        value = value;
        amount = r.amount;
        ttl_milliseconds = ttl;
        refresh_ttl = refresh;
      });
    interpret_grpc_response = λ req resp. ok resp;
  }
