-- ===== src/BatchUtils/Outcome.antt =====
-- How a batch ends: every run of the pool is short, no state of it is stuck, and what the caller
-- finds in the channel of the results.
use client_sdk_go.Base.{
  ℕ, zero, suc, ◌+◌, ◌*◌, ◌≤◌, ◌<◌, ℤ, pos, negsuc, is_negative, ltz, is_zero, ◌≡◌, refl, ap, ◌⊎◌,
  inl, inr, Bool, true, false, List, [], ◌∷◌, length, replicate, length-append, length-replicate,
  All, arith, Bool-cases,
}
use client_sdk_go.Requester.{nil_value, Key}
use client_sdk_go.BatchUtils.{
  Messages, is_nil_key, max_concurrent, rounds, Pool, start, Step, send, take, leave, finish, Run,
  begin, next, IsDone,
}
use client_sdk_go.BatchUtils.Invariant.{asked, answered, Run-accounted}
use client_sdk_go.BatchUtils.Line.{Line, Run-Line}

-- What is left to do, in operations.
abbrev pub measure : (m : Messages) {Resp : Type 0} → Pool m Resp → ℕ
measure m s = 3 * length s.to_send + 2 * length s.queue + length s.busy

Step-measure :
    {m : Messages} {Resp : Type 0} {capacity result_capacity : ℕ} {s t : Pool m Resp}
    → Step m Resp capacity result_capacity s t
    → measure m t < measure m s
Step-measure {s = s} (send x rest e _ q) =
    rw q (omega (arith, ap length e, length-append s.queue (x ∷ [])))
Step-measure (take x rest others e _ _ q) = rw q (omega (arith, ap length e))
Step-measure (leave x rest others e _ _ q) = rw q (omega (arith, ap length e))
Step-measure (finish before after x answer e _ q) =
    rw q (omega (arith, ap length e, length-append before (x ∷ after), length-append before after))

Run-measure :
    {m : Messages} {Resp : Type 0} {items : List m.Message} {workers capacity k : ℕ}
    {s : Pool m Resp}
    → Run m Resp items workers capacity k s
    → k + measure m s ≤ 3 * (length items + workers)
unfolding start
Run-measure {m} {items = items} {workers} begin =
    omega (arith, length-append items (replicate workers m.stop), length-replicate workers m.stop)
Run-measure (next r step) = omega (arith, Run-measure r, Step-measure step)

-- However the goroutines are interleaved, whatever the limit of the channel and the keys are, n items and w
-- workers make at most 3 * (n + w) operations.
pub Run_bound :
    {m : Messages} {Resp : Type 0} {items : List m.Message} {workers capacity k : ℕ}
    {s : Pool m Resp}
    → Run m Resp items workers capacity k s
    → k ≤ 3 * (length items + workers)
Run_bound r = omega (arith, Run-measure r)

-- The number of workers.
abbrev pub workers_for : ℤ → ℕ → ℕ
workers_for requested items = rounds (max_concurrent requested items)

workers_for_pos :
    (requested : ℤ) (items : ℕ)
    → is_negative requested ≡ false
    → (items ≡ 0) ⊎ (0 < workers_for requested items)
unfolding rounds max_concurrent is_negative ltz is_zero
workers_for_pos (pos n) items h = ground arith
workers_for_pos (negsuc n) items h = ground arith

stop_is_nil : (m : Messages) → m.key m.stop ≡ nil_value → is_nil_key (m.key m.stop) ≡ true
unfolding is_nil_key
stop_is_nil m is_stop = ap is_nil_key is_stop

length-zero {ℓ} : {A : Type ℓ} (xs : List A) → length xs ≡ 0 → xs ≡ []
length-zero [] h = refl
length-zero (x ∷ xs) h = absurd (omega (arith, h))

module _ (m : Messages) (is_stop : m.key m.stop ≡ nil_value) {Resp : Type 0}
    {items : List m.Message} (no_nil : All (λ x. is_nil_key (m.key x) ≡ false) items)
    (requested : ℤ) (not_negative : is_negative requested ≡ false) where
  no_more :
      {s : Pool m Resp}
      → (l : Line m items (workers_for requested (length items)) s) → l.stops ≡ 0
      → l.left ≡ []
  no_more l none = elim l.none_left [
    | inl q ↦ q
    | inr q ↦ elim (workers_for_pos requested (length items) not_negative) [
      | inl empty ↦ length-zero l.left (omega (arith, l.conserved, empty))
      | inr some ↦ absurd (omega (arith, q, none, some))
    ]
  ]

  emptied :
      {s : Pool m Resp}
      → (l : Line m items (workers_for requested (length items)) s) → l.stops ≡ 0
      → length s.queue + length s.to_send ≡ 0
  emptied {s} l none = omega (
    arith,
    length-append s.queue s.to_send,
    ap length l.lined_up,
    length-append l.left (replicate l.stops m.stop),
    length-replicate l.stops m.stop,
    ap length (no_more l none),
    none,
  )

  -- When no item has a nil key and the limit is not negative, the caller that goes on to read finds
  -- one result for each item, and for every set of keys as many as there are items of it.
  pub IsDone-results :
      {capacity k : ℕ} {s : Pool m Resp} (p : Key → Bool)
      → p nil_value ≡ false
      → Run m Resp items (workers_for requested (length items)) capacity k s
      → IsDone m Resp s
      → (length s.results ≡ length items) × (answered p s.results ≡ asked m p items)
  IsDone-results {s = s} p h r d =
      let l = Run-Line m (stop_is_nil m is_stop) no_nil r in
      let none : l.stops ≡ 0 = omega (arith, l.for_each, d.no_waiting, ap length d.no_busy) in
      let empty : s.queue ≡ [] = length-zero s.queue (omega (arith, emptied l none)) in
      (
        omega (arith, l.conserved, ap length (no_more l none), ap length d.no_busy),
        omega (
          arith,
          Run-accounted m p h is_stop r,
          ap (asked m p) d.sent,
          ap (asked m p) empty,
          ap (asked m p) d.no_busy,
        ),
      )

  -- When no item has a nil key and the limit is not negative, the caller has got to the reading, or
  -- some goroutine can make an operation.
  pub Run-progress :
      {capacity k : ℕ} {s : Pool m Resp} (answer : Resp)
      → 0 < capacity
      → Run m Resp items (workers_for requested (length items)) capacity k s
      → IsDone m Resp s ⊎ ((t : Pool m Resp) × Step m Resp capacity (length items) s t)
  Run-progress {capacity} {s = s} answer room r =
      go s.busy s.waiting s.queue s.to_send refl refl refl refl
    where
      l : Line m items (workers_for requested (length items)) s
      l = Run-Line m (stop_is_nil m is_stop) no_nil r

      receive :
          (x : m.Message) (rest : List m.Message) (others : ℕ)
          → s.queue ≡ x ∷ rest
          → s.waiting ≡ suc others
          → (t : Pool m Resp) × Step m Resp capacity (length items) s t
      receive x rest others e w = elim (Bool-cases (is_nil_key (m.key x))) [
        | inl nil ↦ (_, leave x rest others e w nil refl)
        | inr proper ↦ (_, take x rest others e w proper refl)
      ]

      go :
          (b : List m.Message) (w : ℕ) (q ts : List m.Message)
          → s.busy ≡ b
          → s.waiting ≡ w
          → s.queue ≡ q
          → s.to_send ≡ ts
          → IsDone m Resp s ⊎ ((t : Pool m Resp) × Step m Resp capacity (length items) s t)
      go (x ∷ b) w q ts eb ew eq es =
          inr (_, finish [] b x answer eb (omega (arith, l.conserved, ap length eb)) refl)
      go [] (suc w) (x ∷ q) ts eb ew eq es = inr (receive x q w eq ew)
      go [] (suc w) [] (x ∷ ts) eb ew eq es =
          inr (_, send x ts es (omega (arith, ap length eq, room)) refl)
      go [] (suc w) [] [] eb ew eq es = absurd (
          omega (
            arith,
            ap length l.lined_up,
            length-append s.queue s.to_send,
            ap length eq,
            ap length es,
            length-append l.left (replicate l.stops m.stop),
            length-replicate l.stops m.stop,
            l.for_each,
            ew,
          ))
      go [] zero q ts eb ew eq es =
          let none : l.stops ≡ 0 = omega (arith, l.for_each, ew, ap length eb) in
          inl (record {
            sent = length-zero s.to_send (omega (arith, emptied l none));
            no_waiting = ew;
            no_busy = eb;
          })
