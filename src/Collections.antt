-- ===== src/Collections.antt =====
-- Which requests on collections the retry table marks as not to be repeated.
use Prim.Native.String.{String}
use client_sdk_go.Base.{ℕ, suc, ◌≡◌, ℤ, refl, false, some, List, [], ◌∷◌, All, All-map}
use client_sdk_go.Errors.{GoError}
use client_sdk_go.Errors.Convert.{Code}
use client_sdk_go.Retry.{
  unary_retry, fixed_count_retry_strategy, is_eligible_for_retry, lookup_bool,
  retryable_request_methods,
}
use client_sdk_go.Retry.Laws.{unary_retry_once}
use client_sdk_go.Dictionary.Update.{DictionaryIncrementRequest, dictionary_increment}
use client_sdk_go.Sets.{SetPopRequest, set_pop}
use client_sdk_go.Lists.{
  ListNameRequest, ListPushRequest, ListConcatenateRequest, list_pop_back, list_pop_front,
  list_push_back, list_push_front, list_concatenate_back, list_concatenate_front,
}

-- The methods of the requests whose effect a repetition would change.
abbrev pub changing_methods :
    DictionaryIncrementRequest
    → SetPopRequest
    → ListNameRequest
    → ListPushRequest
    → ListConcatenateRequest
    → List String
changing_methods d s l p c =
    (dictionary_increment d).method
    ∷ (set_pop s).method
    ∷ (list_pop_back l).method
    ∷ (list_pop_front l).method
    ∷ (list_push_back p).method
    ∷ (list_push_front p).method
    ∷ (list_concatenate_back c).method
    ∷ (list_concatenate_front c).method
    ∷ []

changing_methods-table :
    (d : DictionaryIncrementRequest) (s : SetPopRequest) (l : ListNameRequest) (p : ListPushRequest)
    (c : ListConcatenateRequest)
    → All (λ m. lookup_bool m retryable_request_methods ≡ false) (changing_methods d s l p c)
unfolding lookup_bool dictionary_increment set_pop list_pop_back list_pop_front list_push_back
    list_push_front list_concatenate_back list_concatenate_front
changing_methods-table d s l p c =
    (refl, (refl, (refl, (refl, (refl, (refl, (refl, (refl, tt))))))))

-- Under the default eligibility the RPC of an increment of a dictionary's field, of a pop from a set or
-- a list, of a push and of a concatenation is made exactly once, whatever it returns and however many
-- retries are allowed, and what it returned is returned.
pub collection_calls_once :
    (d : DictionaryIncrementRequest) (s : SetPopRequest) (l : ListNameRequest) (p : ListPushRequest)
    (c : ListConcatenateRequest) (status_code : GoError → Code) (max_attempts : ℤ)
    (invoke : ℕ → GoError) (fuel : ℕ)
    → All
        (λ m.
          unary_retry status_code
            (fixed_count_retry_strategy is_eligible_for_retry max_attempts)
            m
            invoke
            (suc fuel)
          ≡ some (record { error = invoke 1; attempts = 1; slept = [] }))
        (changing_methods d s l p c)
collection_calls_once d s l p c status_code max_attempts invoke fuel =
    All-map (λ m. lookup_bool m retryable_request_methods ≡ false) _
      (λ m h. unary_retry_once status_code max_attempts m invoke fuel h)
      (changing_methods d s l p c) (changing_methods-table d s l p c)
