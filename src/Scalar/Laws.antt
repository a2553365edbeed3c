-- ===== src/Scalar/Laws.antt =====
-- What the requests on items send: the messages of the sets, and which methods are never repeated.
use Prim.Native.String.{String}
use client_sdk_go.Base.{ℕ, suc, ◌≡◌, ◌↔◌, ℤ, refl, false, some, List, [], ◌∷◌, arith, All, All-map}
use client_sdk_go.Text.{Bytes}
use client_sdk_go.Errors.{ok}
use client_sdk_go.Requester.{
  Value, as_bytes, prepare_key, prepare_value, prepare_ttl, prepare_equal, prepare_not_equal,
}
use client_sdk_go.Requester.Laws.{IsKeyOf, prepare_key_lem}
use client_sdk_go.Errors.Convert.{Code}
use client_sdk_go.Errors.{GoError}
use client_sdk_go.Retry.Laws.{unary_retry_once}
use client_sdk_go.Retry.{
  unary_retry, fixed_count_retry_strategy, is_eligible_for_retry, lookup_bool,
  retryable_request_methods,
}
use client_sdk_go.Scalar.{SetRequest, XSetRequest, set, increment, IncrementRequest}
use client_sdk_go.Scalar.UpdateTtl.{update_ttl, UpdateTtlRequest}
use client_sdk_go.Scalar.SetIf.{
  SetIfRequest, SetIfCompareRequest, XSetIfRequest, equal, not_equal, absent_or_equal,
  present_and_not_equal, set_if_absent, set_if_not_exists, set_if_present, set_if_equal,
  set_if_not_equal, set_if_absent_or_equal, set_if_present_and_not_equal,
}

prepare_value_lem : (v : Value) (b : Bytes) → (prepare_value v ≡ ok b) ↔ (as_bytes v ≡ ok b)
unfolding prepare_value
prepare_value_lem v b = (λ h. ground arith, λ h. ground arith)

-- The message of a set carries the bytes of its key, of which there is at least one, the bytes of
-- its value and the TTL that prepareTtl gives; and it is sent whenever these exist.
pub set_message :
    (r : SetRequest) (default_ttl : ℤ) (m : XSetRequest)
    → ((set r).init_grpc_request default_ttl ≡ ok m) ↔ (
        IsKeyOf r.key m.cache_key
        × (as_bytes r.value ≡ ok m.cache_body)
        × (prepare_ttl r.ttl default_ttl ≡ ok m.ttl_milliseconds))
unfolding set
set_message r default_ttl m = (
  λ h. ground (arith, prepare_key_lem r.key m.cache_key, prepare_value_lem r.value m.cache_body),
  λ h. ground (arith, prepare_key_lem r.key m.cache_key, prepare_value_lem r.value m.cache_body),
)

-- The plain set of the key, value and TTL of a conditional set.
abbrev pub plain : SetIfCompareRequest → SetRequest
plain r = record { cache_name = r.cache_name; key = r.key; value = r.value; ttl = r.ttl }

abbrev pub extends : XSetIfRequest → XSetRequest
extends m = record {
  cache_key = m.cache_key;
  cache_body = m.cache_body;
  ttl_milliseconds = m.ttl_milliseconds;
}

-- The messages of the four conditional sets that compare are those of the plain set of the same key,
-- value and TTL, with a condition on the bytes of the value to compare with: a condition each.
pub set_if_message :
    (r : SetIfCompareRequest) (default_ttl : ℤ) (m : XSetIfRequest)
    → (b : Bytes) → (set (plain r)).init_grpc_request default_ttl ≡ ok (extends m)
    → as_bytes r.compare_to ≡ ok b
    → ((set_if_equal r).init_grpc_request default_ttl ≡ ok (record m { condition = equal b }))
      × ((set_if_not_equal r).init_grpc_request default_ttl
          ≡ ok (record m { condition = not_equal b }))
      × ((set_if_absent_or_equal r).init_grpc_request default_ttl
          ≡ ok (record m { condition = absent_or_equal b }))
      × ((set_if_present_and_not_equal r).init_grpc_request default_ttl
          ≡ ok (record m { condition = present_and_not_equal b }))
unfolding set_if_equal set_if_not_equal set_if_absent_or_equal set_if_present_and_not_equal
    prepare_equal prepare_not_equal
set_if_message r default_ttl m b h c =
    let (k, v, t) = (set_message (plain r) default_ttl (extends m)).0 h in
    let k' : prepare_key r.key ≡ ok m.cache_key = (prepare_key_lem r.key m.cache_key).1 k in
    let v' : prepare_value r.value ≡ ok m.cache_body =
      (prepare_value_lem r.value m.cache_body).1 v in
    (ground arith, ground arith, ground arith, ground arith)

-- The methods of the requests that the retry table marks as not to be repeated.
abbrev pub methods_once :
    SetIfRequest → SetIfCompareRequest → IncrementRequest → UpdateTtlRequest → List String
methods_once s c i u =
    (set_if_absent s).method
    ∷ (set_if_not_exists s).method
    ∷ (set_if_present s).method
    ∷ (set_if_equal c).method
    ∷ (set_if_not_equal c).method
    ∷ (set_if_absent_or_equal c).method
    ∷ (set_if_present_and_not_equal c).method
    ∷ (increment i).method
    ∷ (update_ttl u).method
    ∷ []

methods_once-table :
    (s : SetIfRequest) (c : SetIfCompareRequest) (i : IncrementRequest) (u : UpdateTtlRequest)
    → All (λ m. lookup_bool m retryable_request_methods ≡ false) (methods_once s c i u)
unfolding lookup_bool set_if_absent set_if_not_exists set_if_present set_if_equal set_if_not_equal
    set_if_absent_or_equal set_if_present_and_not_equal increment update_ttl
methods_once-table s c i u =
    (refl, (refl, (refl, (refl, (refl, (refl, (refl, (refl, (refl, tt)))))))))

-- Under the default eligibility the RPC of a conditional set, of an increment and of an overwritten
-- TTL is made exactly once, whatever it returns and however many retries are allowed, and what it
-- returned is returned.
pub item_calls_once :
    (s : SetIfRequest) (c : SetIfCompareRequest) (i : IncrementRequest) (u : UpdateTtlRequest)
    (status_code : GoError → Code) (max_attempts : ℤ) (invoke : ℕ → GoError) (fuel : ℕ)
    → All
        (λ m.
          unary_retry status_code
            (fixed_count_retry_strategy is_eligible_for_retry max_attempts)
            m
            invoke
            (suc fuel)
          ≡ some (record { error = invoke 1; attempts = 1; slept = [] }))
        (methods_once s c i u)
item_calls_once s c i u status_code max_attempts invoke fuel =
    All-map (λ m. lookup_bool m retryable_request_methods ≡ false) _
      (λ m h. unary_retry_once status_code max_attempts m invoke fuel h) (methods_once s c i u)
      (methods_once-table s c i u)
