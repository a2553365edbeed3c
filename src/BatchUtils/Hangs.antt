-- ===== src/BatchUtils/Hangs.antt =====
-- When the caller of a batch waits for a result for good.
use client_sdk_go.Base.{
  ℕ, zero, suc, ◌+◌, ◌<◌, ℤ, pos, negsuc, is_negative, is_zero, ltz, ◌≡◌, ◌≢◌, refl, ap, ◌∙◌, Bool,
  true, not, List, [], ◌∷◌, length, count, count-append, Any, here, there, arith, Bool-cases, inl,
  inr, length-append,
}
use client_sdk_go.Requester.{nil_value, Key}
use client_sdk_go.BatchUtils.{
  Messages, is_nil_key, max_concurrent, rounds, Pool, start, Step, send, take, leave, finish, Run,
  begin, next,
}
use client_sdk_go.BatchUtils.Calls.{ResultOrError, Maps, no_maps, returned, blocked, collect}
use client_sdk_go.BatchUtils.Invariant.{asked, answered, Run-accounted}
use client_sdk_go.BatchUtils.Outcome.{workers_for}
use client_sdk_go.BatchUtils.Reads.{collect-short}

abbrev is_proper : Key → Bool
is_proper k = not (is_nil_key k)

count-not {ℓ} :
    {A : Type ℓ} (p : A → Bool) (xs : List A) → count p xs + count (λ x. not (p x)) xs ≡ length xs
count-not p [] = omega arith
count-not p (x ∷ xs) = elim (Bool-cases (p x)) [
  | inl same ↦ rw same (omega (arith, count-not p xs))
  | inr other ↦ rw other (omega (arith, count-not p xs))
]

fewer_proper :
    (m : Messages) (items : List m.Message)
    → Any (λ x. is_nil_key (m.key x) ≡ true) items
    → asked m is_proper items < length items
fewer_proper m [] h = elim h [ ]
fewer_proper m (x ∷ xs) (here h) = rw h (omega (arith, count-not (λ y. is_nil_key (m.key y)) xs))
fewer_proper m (x ∷ xs) (there h) = ground (arith, fewer_proper m xs h)

-- Items with a nil key are not given to the client, and no result is for one.
abbrev nil_held : (m : Messages) {Resp : Type 0} → Pool m Resp → ℕ
nil_held m s = asked m is_nil_key s.busy + answered is_nil_key s.results

Step-nil_held :
    {m : Messages} {Resp : Type 0} {capacity result_capacity : ℕ} {s t : Pool m Resp}
    → Step m Resp capacity result_capacity s t
    → nil_held m t ≡ nil_held m s
Step-nil_held (send x rest e _ q) = rw q refl
Step-nil_held (take x rest others e _ h q) = rw q (rw h (omega arith))
Step-nil_held (leave x rest others e _ h q) = rw q refl
Step-nil_held {m} {s = s} (finish before after x answer e _ q) = rw q (
    omega (
      arith,
      ap (asked m is_nil_key) e,
      count-append (λ y. is_nil_key (m.key y)) before (x ∷ after),
      count-append (λ y. is_nil_key (m.key y)) before after,
      count-append (λ r. is_nil_key (r.0)) s.results ((m.key x, answer) ∷ []),
    ))

Run-nil_held :
    {m : Messages} {Resp : Type 0} {items : List m.Message} {workers capacity k : ℕ}
    {s : Pool m Resp}
    → Run m Resp items workers capacity k s
    → nil_held m s ≡ 0
unfolding start
Run-nil_held begin = omega arith
Run-nil_held (next r step) = Step-nil_held step ∙ Run-nil_held r

-- When the key of an item is nil, a batch never returns: its caller finds fewer results than it
-- waits for, at whatever time it looks.
pub nil_key_hangs :
    (m : Messages)
    → m.key m.stop ≡ nil_value
    → {Resp : Type 0} {items : List m.Message} → Any (λ x. is_nil_key (m.key x) ≡ true) items
    → {workers capacity k : ℕ} {s : Pool m (ResultOrError Resp)} (maps : Maps Resp)
    → Run m (ResultOrError Resp) items workers capacity k s
    → collect (length items) s.results no_maps ≢ returned maps
unfolding is_nil_key
nil_key_hangs m is_stop {items = items} h {s = s} maps r =
    collect-short (length items) s.results no_maps maps (
      omega (
        arith,
        fewer_proper m items h,
        Run-accounted m is_proper refl is_stop r,
        Run-nil_held r,
        count-not (λ a. is_nil_key (a.0)) s.results,
      ))

Run-idle :
    {m : Messages} {Resp : Type 0} {items : List m.Message} {workers capacity k : ℕ}
    {s : Pool m Resp}
    → workers ≡ 0
    → Run m Resp items workers capacity k s
    → (s.waiting ≡ 0) × (s.busy ≡ []) × (s.results ≡ [])
unfolding start
Run-idle h begin = (h, refl, refl)
Run-idle h (next r (send x rest e _ q)) = let i = Run-idle h r in rw q i
Run-idle h (next r (take x rest others e w _ q)) =
    let i = Run-idle h r in absurd (omega (arith, i.0, w))
Run-idle h (next r (leave x rest others e w _ q)) =
    let i = Run-idle h r in absurd (omega (arith, i.0, w))
Run-idle h (next r (finish before after x answer e _ q)) =
    let i = Run-idle h r in
    absurd (omega (arith, ap length i.1, ap length e, length-append before (x ∷ after)))

negative_workers :
    (requested : ℤ) (items : ℕ) → is_negative requested ≡ true → workers_for requested items ≡ 0
unfolding rounds max_concurrent is_negative ltz is_zero
negative_workers (pos n) items h = absurd cc
negative_workers (negsuc n) items h = refl

blocked_at_once : {Resp : Type 0} (n : ℕ) (maps : Maps Resp) → 0 < n → collect n [] maps ≡ blocked
unfolding collect
blocked_at_once zero maps h = absurd (omega (arith, h))
blocked_at_once (suc n) maps h = refl

-- When the limit is negative and there is an item, no worker is started and a batch never returns.
pub negative_limit_hangs :
    {m : Messages} {Resp : Type 0} {items : List m.Message} (requested : ℤ)
    → is_negative requested ≡ true
    → 0 < length items
    → {capacity k : ℕ} {s : Pool m (ResultOrError Resp)}
    → Run m (ResultOrError Resp) items (workers_for requested (length items)) capacity k s
    → collect (length items) s.results no_maps ≡ blocked
negative_limit_hangs {items = items} requested h some {s = s} r =
    let i = Run-idle (negative_workers requested (length items) h) r in
    ap (λ rs. collect (length items) rs no_maps) i.2 ∙ blocked_at_once (length items) no_maps some
