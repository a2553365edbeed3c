-- ===== src/BatchUtils/Reads.antt =====
-- What the reading loop of a batch makes of the results.
use client_sdk_go.Base.{
  some_of, ℕ, zero, suc, ◌<◌, ◌≡◌, ◌≢◌, refl, ap, Bool, true, false, not, ◌||◌, none, some, List,
  [], ◌∷◌, length, All, same_text→eq, Bool-cases, Option-cases, inl, inr, arith,
}
use client_sdk_go.Errors.{unhashable_key}
use client_sdk_go.Requester.{nil_value, string, Key}
use client_sdk_go.BatchUtils.Calls.{
  ResultOrError, result, failed, is_hashable, same_key, insert, put, read_one, Maps, returned,
  panicked, collect,
}

-- Whether a map or a list of results has a key.
abbrev pub has_key {ℓ} : {A : Type ℓ} → Key → List (Key × A) → Bool
has_key k = some_of (λ r. same_key (r.0) k)

same_key-left : (i j k : Key) → same_key i j ≡ true → same_key i k ≡ same_key j k
unfolding same_key
same_key-left nil_value nil_value k h = refl
same_key-left (string s) (string t) k h = ap (λ u. same_key (string u) k) (same_text→eq s t h)
same_key-left _ _ k h = ground arith

has_key-insert :
    {Resp : Type 0} (k j : Key) (v : Resp) (m : List (Key × Resp))
    → has_key k (insert j v m) ≡ (same_key j k || has_key k m)
unfolding insert
has_key-insert k j v [] = refl
has_key-insert k j v ((i, w) ∷ m) = elim (Bool-cases (same_key i j)) [
  | inl same ↦ rw same (rw (same_key-left i j k same) (ground arith))
  | inr other ↦ rw other (rw (has_key-insert k j v m) (ground arith))
]

-- Whether the maps have a key.
abbrev pub in_maps : {Resp : Type 0} → Key → Maps Resp → Bool
in_maps k maps = has_key k maps.responses || has_key k maps.errors

-- A key that can be one of a map is put into one of the two, and another is refused.
read_one_hashable :
    {Resp : Type 0} (j : Key) (r : ResultOrError Resp) (maps : Maps Resp)
    → is_hashable j ≡ true
    → (after : Maps Resp) × (read_one j r maps ≡ some after)
      × ((k : Key) → in_maps k after ≡ (same_key j k || in_maps k maps))
unfolding read_one put
read_one_hashable j (result v) maps h = (
  record maps { responses = insert j v maps.responses },
  rw h refl,
  λ k. rw (has_key-insert k j v maps.responses) (ground arith),
)
read_one_hashable j (failed v) maps h = (
  record maps { errors = insert j v maps.errors },
  rw h refl,
  λ k. rw (has_key-insert k j v maps.errors) (ground arith),
)

read_one_slice :
    {Resp : Type 0} (j : Key) (r : ResultOrError Resp) (maps : Maps Resp)
    → is_hashable j ≡ false
    → read_one j r maps ≡ none
unfolding read_one put
read_one_slice j (result v) maps h = rw h refl
read_one_slice j (failed v) maps h = rw h refl

module _ {Resp : Type 0} where
  pub collect-returned :
      (rs : List (Key × ResultOrError Resp)) (maps : Maps Resp)
      → All (λ r. is_hashable (r.0) ≡ true) rs
      → (after : Maps Resp) × (collect (length rs) rs maps ≡ returned after)
        × ((k : Key) → in_maps k after ≡ (has_key k rs || in_maps k maps))
  unfolding collect
  collect-returned [] maps a = (maps, refl, λ k. refl)
  collect-returned ((j, r) ∷ rs) maps a =
      let (middle, e, h) = read_one_hashable j r maps a.0 in
      let (after, f, g) = collect-returned rs middle a.1 in
      (after, rw (collect, e) f, λ k. rw (g k) (rw (h k) (ground arith)))

  pub collect-panicked :
      (rs : List (Key × ResultOrError Resp)) (maps : Maps Resp)
      → some_of (λ r. not (is_hashable (r.0))) rs ≡ true
      → collect (length rs) rs maps ≡ panicked unhashable_key
  unfolding collect
  collect-panicked [] maps h = absurd cc
  collect-panicked ((j, r) ∷ rs) maps h = elim (Bool-cases (is_hashable j)) [
    | inl sound ↦
        let (middle, e, _) = read_one_hashable j r maps sound in
        rw (collect, e) (collect-panicked rs middle (ground (arith, h, sound)))
    | inr slice ↦ rw (collect, read_one_slice j r maps slice) refl
  ]

  pub collect-short :
      (n : ℕ) (rs : List (Key × ResultOrError Resp)) (maps after : Maps Resp)
      → length rs < n
      → collect n rs maps ≢ returned after
  unfolding collect
  collect-short zero rs maps after h = absurd (omega (arith, h))
  collect-short (suc n) [] maps after h = λ q. absurd cc
  collect-short (suc n) ((j, r) ∷ rs) maps after h = elim (Option-cases (read_one j r maps)) [
    | inl slice ↦ rw (collect, slice) (λ q. absurd cc)
    | inr (middle, e) ↦ rw (collect, e) (collect-short n rs middle after (omega (arith, h)))
  ]
