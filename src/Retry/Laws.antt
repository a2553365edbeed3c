-- ===== src/Retry/Laws.antt =====
-- How often the fixed-count strategy makes the interceptor repeat a call, and with what result.
use Prim.Native.String.{String}
use client_sdk_go.Base.{
  ℕ, zero, suc, ◌+◌, ◌≤◌, ◌<◌, ℤ, pos, ◌≡◌, ◌⊎◌, inl, inr, refl, sym, true, false, some, List, [],
  arith, ◌==◌, ==_iff, ltb, ltb→lt, Bool-cases, ltz, is_positive, ◌∙◌,
}
use client_sdk_go.Errors.{GoError, nil_error, is_nil}
use client_sdk_go.Errors.Convert.{Code}
use client_sdk_go.Retry.{
  is_eligible_for_retry, lookup_bool, retryable_request_methods, retryable_status_code,
  StrategyProps, EligibilityStrategy, Strategy, fixed_count_retry_strategy, determine_when_to_retry,
  Run, props_at, retry_loop, unary_retry,
}

is_nil→eq : (e : GoError) → is_nil e ≡ true → e ≡ nil_error
unfolding is_nil
is_nil→eq e h = ground arith

module _ (status_code : GoError → Code) (eligible : EligibilityStrategy) (m : ℕ) (method : String)
    (invoke : ℕ → GoError) where
  -- The strategy with at most `m` retries.
  abbrev fixed : Strategy
  fixed = fixed_count_retry_strategy eligible (pos m)

  abbrev props : ℕ → StrategyProps
  props = props_at status_code fixed method invoke

  -- Attempt `n` failed, and the strategy asks for another.
  abbrev pub IsRetried : ℕ → Type 0
  IsRetried n = (is_nil (invoke n) ≡ false) × (eligible (props n) ≡ true) × (n ≤ m)

  -- Attempt `n` succeeded, or is not eligible for a retry, or has used up the retries.
  abbrev pub IsFinal : ℕ → Type 0
  IsFinal n = (is_nil (invoke n) ≡ true) ⊎ ((eligible (props n) ≡ false) ⊎ (m < n))

  -- A run from attempt `a` on that slept as recorded.
  pub record IsRun (a : ℕ) (slept : List ℤ) (r : Run) : Type 0 where
    pub after : a ≤ r.attempts
    pub bounded : r.attempts ≤ m + 1
    pub retried : (k : ℕ) → a ≤ k → k < r.attempts → IsRetried k
    pub final : IsFinal r.attempts
    pub outcome : r.error ≡ invoke r.attempts
    pub no_sleep : r.slept ≡ slept

  stop :
      (a : ℕ) (slept : List ℤ) (e : GoError)
      → a ≤ m + 1
      → IsFinal a
      → e ≡ invoke a
      → IsRun a slept (record { error = e; attempts = a; slept = slept })
  stop a slept e h f p = record {
    after = omega arith;
    bounded = h;
    retried = λ k lo hi. absurd (omega arith);
    final = f;
    outcome = p;
    no_sleep = refl;
  }

  first-IsRetried : (a k : ℕ) (later : a + 1 ≤ k → IsRetried k) → a ≤ k → IsRetried a → IsRetried k
  first-IsRetried a k later lo now = elim (Bool-cases (k == a)) [
    | inl same ↦ rw ((==_iff k a).0 same) now
    | inr other ↦ later (ground arith)
  ]

  retry_loop-next :
      (fuel a : ℕ) (slept : List ℤ)
      → IsRetried a
      → retry_loop status_code fixed method invoke (suc fuel) a slept
        ≡ retry_loop status_code fixed method invoke fuel (a + 1) slept
  unfolding retry_loop determine_when_to_retry ltz is_positive
  retry_loop-next fuel a slept h = ground arith

  retry_loop-IsRun :
      (fuel a : ℕ) (slept : List ℤ)
      → a ≤ m + 1
      → m + 2 ≤ a + fuel
      → (r : Run) × (retry_loop status_code fixed method invoke fuel a slept ≡ some r)
        × IsRun a slept r
  unfolding retry_loop determine_when_to_retry ltz
  retry_loop-IsRun zero a slept h f = absurd (omega arith)
  retry_loop-IsRun (suc fuel) a slept h f = elim (Bool-cases (is_nil (invoke a))) [
    | inl done ↦ (
      record { error = nil_error; attempts = a; slept = slept },
      ground arith,
      stop a slept nil_error h (inl done) (sym (is_nil→eq (invoke a) done)),
    )
    | inr failed ↦ elim (Bool-cases (eligible (props a))) [
      | inr refused ↦ (
        record { error = invoke a; attempts = a; slept = slept },
        ground arith,
        stop a slept (invoke a) h (inr (inl refused)) refl,
      )
      | inl wanted ↦ elim (Bool-cases (ltb m a)) [
        | inl over ↦ (
          record { error = invoke a; attempts = a; slept = slept },
          ground arith,
          stop a slept (invoke a) h (inr (inr (ltb→lt m a over))) refl,
        )
        | inr under ↦
            let (r, e, t) = retry_loop-IsRun fuel (a + 1) slept (ground arith) (omega arith) in
            (
              r,
              retry_loop-next fuel a slept (failed, wanted, ground arith) ∙ e,
              record {
                after = omega (arith, t.after);
                bounded = t.bounded;
                retried = λ k lo hi.
                    first-IsRetried a k (λ hk. t.retried k hk hi) lo (failed, wanted, ground arith);
                final = t.final;
                outcome = t.outcome;
                no_sleep = t.no_sleep;
              },
            )
      ]
    ]
  ]

  -- With fuel for m + 1 rounds the interceptor returns, after at most m + 1 attempts, without
  -- sleeping. Its error is that of the last attempt, every earlier attempt failed and was eligible
  -- for a retry, and the last one succeeded, or was not eligible, or had the number m + 1.
  pub unary_retry-IsRun :
      (fuel : ℕ)
      → m + 1 ≤ fuel
      → (r : Run) × (unary_retry status_code fixed method invoke fuel ≡ some r) × IsRun 1 [] r
  unfolding unary_retry
  unary_retry-IsRun fuel h = retry_loop-IsRun fuel 1 [] (omega arith) (omega arith)

not_eligible :
    (code : Code) (method : String) (n : ℕ)
    → lookup_bool method retryable_request_methods ≡ false
    → is_eligible_for_retry
        (record { grpc_status_code = code; grpc_method = method; attempt_number = n })
      ≡ false
unfolding is_eligible_for_retry
not_eligible code method n h = elim (Bool-cases (retryable_status_code code)) [
  | inl yes_code ↦ rw (yes_code, h)
  | inr no_code ↦ rw no_code
]

-- A method that the table does not mark as retryable is called exactly once, whatever the outcome,
-- the status and the limit on retries, and its outcome is returned.
pub unary_retry_once :
    (status_code : GoError → Code) (max_attempts : ℤ) (method : String) (invoke : ℕ → GoError)
    (fuel : ℕ)
    → lookup_bool method retryable_request_methods ≡ false
    → unary_retry status_code
        (fixed_count_retry_strategy is_eligible_for_retry max_attempts)
        method
        invoke
        (suc fuel)
      ≡ some (record { error = invoke 1; attempts = 1; slept = [] })
unfolding unary_retry determine_when_to_retry
unary_retry_once status_code max_attempts method invoke fuel h =
    ground (arith, not_eligible (status_code (invoke 1)) method 1 h, is_nil→eq (invoke 1))
