-- ===== src/Retry.antt =====
-- internal/retry (retry.go, eligibility_strategy.go) and the retry interceptors of
-- internal/interceptor. The call that an interceptor repeats is a function from the number of the
-- attempt to its outcome.
pub mod Laws
pub mod Streams
use Prim.Native.String.{String}
use text.Mathlib.Text.{◌==◌ as str_eq}
use client_sdk_go.Base.{
  ℕ, zero, suc, ◌+◌, ℤ, pos, negsuc, Bool, true, false, not, Option, none, some, List, [], ◌∷◌, ltz,
  is_positive, if◌then◌else◌,
}
use client_sdk_go.Errors.{GoError, nil_error, is_nil}
use client_sdk_go.Errors.Convert.{Code, internal, unavailable}

-- retryableStatusCodes.
unfoldable pub retryable_status_code : Code → Bool
retryable_status_code internal = true
retryable_status_code unavailable = true
retryable_status_code _ = false

-- retryableRequestMethods.
abbrev pub retryable_request_methods : List (String × Bool)
retryable_request_methods =
    ("/cache_client.Scs/Get", true)
    ∷ ("/cache_client.Scs/GetBatch", true)
    ∷ ("/cache_client.Scs/Set", true)
    ∷ ("/cache_client.Scs/SetBatch", true)
    ∷ ("/cache_client.Scs/SetIf", false)
    ∷ ("/cache_client.Scs/SetIfNotExists", false)
    ∷ ("/cache_client.Scs/Delete", true)
    ∷ ("/cache_client.Scs/KeysExist", true)
    ∷ ("/cache_client.Scs/Increment", false)
    ∷ ("/cache_client.Scs/UpdateTtl", false)
    ∷ ("/cache_client.Scs/ItemGetTtl", true)
    ∷ ("/cache_client.Scs/ItemGetType", true)
    ∷ ("/cache_client.Scs/DictionaryGet", true)
    ∷ ("/cache_client.Scs/DictionaryFetch", true)
    ∷ ("/cache_client.Scs/DictionarySet", true)
    ∷ ("/cache_client.Scs/DictionaryIncrement", false)
    ∷ ("/cache_client.Scs/DictionaryDelete", true)
    ∷ ("/cache_client.Scs/DictionaryLength", true)
    ∷ ("/cache_client.Scs/SetFetch", true)
    ∷ ("/cache_client.Scs/SetSample", true)
    ∷ ("/cache_client.Scs/SetUnion", true)
    ∷ ("/cache_client.Scs/SetDifference", true)
    ∷ ("/cache_client.Scs/SetContains", true)
    ∷ ("/cache_client.Scs/SetLength", true)
    ∷ ("/cache_client.Scs/SetPop", false)
    ∷ ("/cache_client.Scs/ListPushFront", false)
    ∷ ("/cache_client.Scs/ListPushBack", false)
    ∷ ("/cache_client.Scs/ListPopFront", false)
    ∷ ("/cache_client.Scs/ListPopBack", false)
    ∷ ("/cache_client.Scs/ListRemove", true)
    ∷ ("/cache_client.Scs/ListFetch", true)
    ∷ ("/cache_client.Scs/ListLength", true)
    ∷ ("/cache_client.Scs/ListConcatenateFront", false)
    ∷ ("/cache_client.Scs/ListConcatenateBack", false)
    ∷ ("/cache_client.Scs/ListRetain", false)
    ∷ ("/cache_client.Scs/SortedSetPut", true)
    ∷ ("/cache_client.Scs/SortedSetFetch", true)
    ∷ ("/cache_client.Scs/SortedSetGetScore", true)
    ∷ ("/cache_client.Scs/SortedSetRemove", true)
    ∷ ("/cache_client.Scs/SortedSetIncrement", false)
    ∷ ("/cache_client.Scs/SortedSetGetRank", true)
    ∷ ("/cache_client.Scs/SortedSetLength", true)
    ∷ ("/cache_client.Scs/SortedSetLengthByScore", true)
    ∷ ("/cache_client.pubsub.Pubsub/Subscribe", true)
    ∷ []

-- m[k] of a map into bool: false where the key is missing.
unfoldable pub lookup_bool : String → List (String × Bool) → Bool
lookup_bool k [] = false
lookup_bool k ((j, b) ∷ rest) = if str_eq j k then b else lookup_bool k rest

pub record StrategyProps : Type 0 where
  pub grpc_status_code : Code
  pub grpc_method : String
  pub attempt_number : ℕ

-- An EligibilityStrategy is its one method.
abbrev pub EligibilityStrategy : Type 0
EligibilityStrategy = StrategyProps → Bool

-- DefaultEligibilityStrategy.IsEligibleForRetry.
unfoldable pub is_eligible_for_retry : EligibilityStrategy
unfolding retryable_status_code lookup_bool
is_eligible_for_retry props =
    if not (retryable_status_code props.grpc_status_code)
    then false
    else if not (lookup_bool props.grpc_method retryable_request_methods)
    then false
    else true

pub data Strategy : Type 0 where
  never_retry_strategy : Strategy
  fixed_count_retry_strategy : EligibilityStrategy → ℤ → Strategy

-- NewFixedCountRetryStrategy.
unfoldable pub new_fixed_count_retry_strategy : Strategy
new_fixed_count_retry_strategy = fixed_count_retry_strategy is_eligible_for_retry (pos 3)

-- WithMaxAttempts, a method of the fixed-count strategy.
unfoldable pub with_max_attempts : ℤ → Strategy → Strategy
with_max_attempts attempts (fixed_count_retry_strategy s m) = fixed_count_retry_strategy s attempts
with_max_attempts attempts never_retry_strategy = never_retry_strategy

-- WithEligibilityStrategy.
unfoldable pub with_eligibility_strategy : EligibilityStrategy → Strategy → Strategy
with_eligibility_strategy e (fixed_count_retry_strategy s m) = fixed_count_retry_strategy e m
with_eligibility_strategy e never_retry_strategy = never_retry_strategy

-- DetermineWhenToRetry: the seconds to wait, or nil. The log lines are left out.
unfoldable pub determine_when_to_retry : Strategy → StrategyProps → Option ℤ
determine_when_to_retry never_retry_strategy props = none
determine_when_to_retry (fixed_count_retry_strategy eligible max_attempts) props =
    if not (eligible props)
    then none
    else if ltz max_attempts (pos props.attempt_number)
    then none
    else some (pos 0)

-- What one call of an intercepted method did: the error returned, the attempts made, the seconds
-- slept between them.
pub record Run : Type 0 where
  pub error : GoError
  pub attempts : ℕ
  pub slept : List ℤ

abbrev pub sleep : ℤ → List ℤ → List ℤ
sleep t slept = if is_positive t then t ∷ slept else slept

-- The loop of AddUnaryRetryInterceptor. `status_code` is grpc's status.Code, `invoke n` the error
-- of attempt n. `none` means that the fuel ran out.
module _ (status_code : GoError → Code) (s : Strategy) (method : String)
    (invoke : ℕ → GoError) where
  unfoldable pub props_at : ℕ → StrategyProps
  props_at attempt = record {
    grpc_status_code = status_code (invoke attempt);
    grpc_method = method;
    attempt_number = attempt;
  }

  unfoldable pub retry_loop : ℕ → ℕ → List ℤ → Option Run
  unfolding props_at
  retry_loop zero attempt slept = none
  retry_loop (suc fuel) attempt slept = elim (is_nil (invoke attempt)) [
    | true ↦ some (record { error = nil_error; attempts = attempt; slept = slept })
    | false ↦ elim (determine_when_to_retry s (props_at attempt)) [
      | none ↦ some (record { error = invoke attempt; attempts = attempt; slept = slept })
      | some t ↦ retry_loop fuel (attempt + 1) (sleep t slept)
    ]
  ]

  -- AddUnaryRetryInterceptor: the first attempt has the number 1.
  unfoldable pub unary_retry : ℕ → Option Run
  unfolding retry_loop
  unary_retry fuel = retry_loop fuel 1 []
