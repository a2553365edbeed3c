-- ===== src/Tests/Retries.antt =====
-- A call that fails twice and then succeeds, and one that keeps failing.
use client_sdk_go.Base.{ℕ, suc, pos, ◌≡◌, some, none, [], ◌∷◌, All, arith}
use client_sdk_go.Errors.{GoError, nil_error, foreign}
use client_sdk_go.Errors.Convert.{Code, unavailable}
use client_sdk_go.Requester.{string}
use client_sdk_go.Retry.{is_eligible_for_retry, fixed_count_retry_strategy, Run, unary_retry}
use client_sdk_go.Retry.Laws.{IsRun, unary_retry-IsRun}
use client_sdk_go.Scalar.{IncrementRequest}
use client_sdk_go.Scalar.UpdateTtl.{UpdateTtlRequest}
use client_sdk_go.Scalar.SetIf.{SetIfRequest, SetIfCompareRequest}
use client_sdk_go.Scalar.Laws.{methods_once, item_calls_once}

abbrev is_unavailable : GoError → Code
is_unavailable e = unavailable

abbrev third_time : ℕ → GoError
third_time (suc (suc (suc n))) = nil_error
third_time _ = foreign 0

unary_retry-IsRun_example :
    (r : Run) × (unary_retry is_unavailable
        (fixed_count_retry_strategy is_eligible_for_retry (pos 3))
        "/cache_client.Scs/Get"
        third_time
        5
      ≡ some r)
    × IsRun is_unavailable is_eligible_for_retry 3 "/cache_client.Scs/Get" third_time 1 [] r
unary_retry-IsRun_example =
    unary_retry-IsRun is_unavailable is_eligible_for_retry 3 "/cache_client.Scs/Get" third_time 5
      (omega arith)

abbrev absent_request : SetIfRequest
absent_request = record {
  cache_name = [];
  key = string (107 ∷ []);
  value = string (118 ∷ []);
  ttl = pos 1000000;
}

abbrev compare_request : SetIfCompareRequest
compare_request = record {
  cache_name = [];
  key = string (107 ∷ []);
  value = string (118 ∷ []);
  compare_to = string (119 ∷ []);
  ttl = pos 1000000;
}

abbrev increment_request : IncrementRequest
increment_request = record {
  cache_name = [];
  field = string (107 ∷ []);
  amount = pos 2;
  ttl = none;
}

abbrev update_request : UpdateTtlRequest
update_request = record { cache_name = []; key = string (107 ∷ []); ttl = pos 1000000 }

item_calls_once_example :
    All
      (λ m.
        unary_retry is_unavailable
          (fixed_count_retry_strategy is_eligible_for_retry (pos 3))
          m
          third_time
          5
        ≡ some (record { error = foreign 0; attempts = 1; slept = [] }))
      (methods_once absent_request compare_request increment_request update_request)
item_calls_once_example =
    item_calls_once absent_request compare_request increment_request update_request is_unavailable
      (pos 3) third_time 4
