-- ===== src/BatchUtils/Invariant.antt =====
-- What every state of the pool satisfies: each item is in one place until it is answered, and the
-- stops are behind the items.
use client_sdk_go.Base.{
  ℕ, ◌+◌, ◌≡◌, refl, ap, ◌∙◌, Bool, true, false, List, [], ◌∷◌, replicate, count, count-append,
  count-replicate, arith,
}
use client_sdk_go.Requester.{nil_value, Key}
use client_sdk_go.BatchUtils.{
  Messages, is_nil_key, Pool, start, Step, send, take, leave, finish, Run, begin, next,
}

-- How many items have a key that passes the test.
abbrev pub asked : (m : Messages) → (Key → Bool) → List m.Message → ℕ
asked m p = count (λ x. p (m.key x))

-- How many results do.
abbrev pub answered {ℓ} : {Resp : Type ℓ} → (Key → Bool) → List (Key × Resp) → ℕ
answered p = count (λ r. p (r.0))

-- All items that are anywhere in the pool.
abbrev pub accounted : (m : Messages) {Resp : Type 0} → (Key → Bool) → Pool m Resp → ℕ
accounted m p s = asked m p s.to_send + asked m p s.queue + asked m p s.busy + answered p s.results

is_nil_key-nil : (k : Key) → is_nil_key k ≡ true → k ≡ nil_value
unfolding is_nil_key
is_nil_key-nil nil_value h = refl
is_nil_key-nil _ h = ground arith

no_stop :
    (m : Messages) (p : Key → Bool)
    → p nil_value ≡ false
    → (x : m.Message) (rest : List m.Message) → m.key x ≡ nil_value
    → asked m p (x ∷ rest) ≡ asked m p rest
no_stop m p no_nil x rest h = rw h (rw no_nil (omega arith))

module _ (m : Messages) {Resp : Type 0} (p : Key → Bool) (no_nil : p nil_value ≡ false) where
  Step-accounted :
      {capacity result_capacity : ℕ} {s t : Pool m Resp}
      → Step m Resp capacity result_capacity s t
      → accounted m p t ≡ accounted m p s
  Step-accounted {s = s} (send x rest e _ q) =
      rw q (omega (arith, ap (asked m p) e, count-append (λ y. p (m.key y)) s.queue (x ∷ [])))
  Step-accounted (take x rest others e _ _ q) = rw q (omega (arith, ap (asked m p) e))
  Step-accounted (leave x rest others e _ h q) =
      rw q
        (omega (arith, ap (asked m p) e ∙ no_stop m p no_nil x rest (is_nil_key-nil (m.key x) h)))
  Step-accounted {s = s} (finish before after x answer e _ q) = rw q (
      omega (
        arith,
        ap (asked m p) e,
        count-append (λ y. p (m.key y)) before (x ∷ after),
        count-append (λ y. p (m.key y)) before after,
        count-append (λ r. p (r.0)) s.results ((m.key x, answer) ∷ []),
      ))

  -- An item is nowhere in the pool, or in exactly one place, at every time.
  pub Run-accounted :
      (m.key m.stop ≡ nil_value)
      → {items : List m.Message} {workers capacity k : ℕ} {s : Pool m Resp}
      → Run m Resp items workers capacity k s
      → accounted m p s ≡ asked m p items
  unfolding start
  Run-accounted stop_nil {items} {workers} begin = omega (
    arith,
    count-append (λ x. p (m.key x)) items (replicate workers m.stop),
    count-replicate (λ x. p (m.key x)) workers m.stop (ap p stop_nil ∙ no_nil),
  )
  Run-accounted stop_nil (next r step) = Step-accounted step ∙ Run-accounted stop_nil r
