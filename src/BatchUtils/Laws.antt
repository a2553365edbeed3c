-- ===== src/BatchUtils/Laws.antt =====
-- What a batch returns: the runs of the pool and the reading of the results together.
use client_sdk_go.Base.{
  some_of, some_of-count, ℕ, ltb, ℤ, pos, is_negative, ◌≡◌, ◌≢◌, refl, sym, ap, ◌∙◌, Bool, true,
  false, not, ◌||◌, Option, some, List, [], ◌∷◌, length, count, All, All-map, arith, Option-cases,
  inl, inr,
}
use client_sdk_go.Text.{GoString}
use client_sdk_go.Errors.{GoError, unhashable_key, Result, ok}
use client_sdk_go.Requester.{nil_value, string, Key}
use client_sdk_go.BatchUtils.{Messages, is_nil_key, Pool, Run, IsDone}
use client_sdk_go.BatchUtils.Calls.{
  ResultOrError, BatchSetItem, is_hashable, same_key, Maps, no_maps, Reading, returned, blocked,
  panicked, collect, non_empty, batch_result, set_unless, create_error_mapping, extract_keys,
  any_exists, exists, other_response, refused, item_messages, KeysExistReply, SetIfNotExists,
  fail_all, of_batch_set, batch_set_if_not_exists, stored,
}
use client_sdk_go.BatchUtils.Outcome.{workers_for, IsDone-results}
use client_sdk_go.BatchUtils.Reads.{has_key, in_maps, collect-returned, collect-panicked}

-- Whether some item has the key.
abbrev pub asks : (m : Messages) → Key → List m.Message → Bool
asks m k = some_of (λ x. same_key (m.key x) k)

-- A key that is not nil and no slice.
unfoldable pub is_text : Key → Bool
is_text (string s) = true
is_text _ = false

All-none {ℓ} :
    {A : Type ℓ} (p : A → Bool) (xs : List A) → All (λ x. p x ≡ false) xs → count p xs ≡ 0
All-none p [] a = refl
All-none p (x ∷ xs) a = rw a.0 (omega (arith, All-none p xs a.1))

none-All {ℓ} :
    {A : Type ℓ} (p : A → Bool) (xs : List A) → count p xs ≡ 0 → All (λ x. p x ≡ false) xs
none-All p [] h = tt
none-All p (x ∷ xs) h = (ground (arith, h), none-All p xs (omega (arith, h)))

text_not_nil : (k : Key) → is_text k ≡ true → is_nil_key k ≡ false
unfolding is_text is_nil_key
text_not_nil (string s) h = refl
text_not_nil _ h = absurd cc

text_hashable : (k : Key) → is_text k ≡ true → not (is_hashable k) ≡ false
unfolding is_text is_hashable
text_hashable (string s) h = refl
text_hashable _ h = absurd cc

not-false : (b : Bool) → not b ≡ false → b ≡ true
not-false true h = refl
not-false false h = absurd cc

or_false : (b : Bool) → (b || false) ≡ b
or_false true = refl
or_false false = refl

module _ (m : Messages) (is_stop : m.key m.stop ≡ nil_value) {Resp : Type 0} where
  -- When every key is a String and the limit is not negative, a BatchGet or a BatchSet whose workers
  -- have returned returns, and a String is a key of its responses or of its errors exactly if it is the key of an item.
  pub batch_returns :
      {items : List m.Message} (requested : ℤ)
      → is_negative requested ≡ false
      → All (λ x. is_text (m.key x) ≡ true) items
      → {capacity k : ℕ} {s : Pool m (ResultOrError Resp)}
      → Run m (ResultOrError Resp) items (workers_for requested (length items)) capacity k s
      → IsDone m (ResultOrError Resp) s
      → (maps : Maps Resp) × (collect (length items) s.results no_maps ≡ returned maps)
        × ((t : GoString) → in_maps (string t) maps ≡ asks m (string t) items)
  unfolding no_maps is_hashable same_key
  batch_returns {items} requested h texts {s = s} r d =
      let no_nil = All-map _ _ (λ x. text_not_nil (m.key x)) items texts in
      let safe = IsDone-results m is_stop no_nil requested h (λ k. not (is_hashable k)) refl r d in
      let clean =
        none-All (λ a. not (is_hashable (a.0))) s.results
          (safe.1
            ∙ All-none (λ x. not (is_hashable (m.key x))) items
                (All-map _ _ (λ x. text_hashable (m.key x)) items texts)) in
      let (maps, e, keys) =
        collect-returned s.results no_maps
          (All-map _ _ (λ a. not-false (is_hashable (a.0))) s.results clean) in
      (
        maps,
        ap (λ n. collect n s.results no_maps) (sym safe.0) ∙ e,
        λ t.
            let same =
              IsDone-results m is_stop no_nil requested h (λ j. same_key j (string t)) refl r d in
            keys (string t)
            ∙ or_false (has_key (string t) s.results)
            ∙ some_of-count (λ a. same_key (a.0) (string t)) s.results
            ∙ ap (ltb 0) same.1
            ∙ sym (some_of-count (λ x. same_key (m.key x) (string t)) items),
      )

  -- When no key is nil, one is a Bytes, and the limit is not negative, a BatchGet or a BatchSet whose
  -- workers have returned panics.
  pub batch_panics :
      {items : List m.Message} (requested : ℤ)
      → is_negative requested ≡ false
      → All (λ x. is_nil_key (m.key x) ≡ false) items
      → some_of (λ x. not (is_hashable (m.key x))) items ≡ true
      → {capacity k : ℕ} {s : Pool m (ResultOrError Resp)}
      → Run m (ResultOrError Resp) items (workers_for requested (length items)) capacity k s
      → IsDone m (ResultOrError Resp) s
      → collect (length items) s.results no_maps ≡ panicked unhashable_key
  unfolding is_hashable
  batch_panics {items} requested h no_nil slice {s = s} r d =
      let all = IsDone-results m is_stop no_nil requested h (λ k. not (is_hashable k)) refl r d in
      ap (λ n. collect n s.results no_maps) (sym all.0)
      ∙ collect-panicked s.results no_maps (
          some_of-count (λ a. not (is_hashable (a.0))) s.results
          ∙ ap (ltb 0) all.1
          ∙ sym (some_of-count (λ x. not (is_hashable (m.key x))) items)
          ∙ slice)

in_maps-responses :
    {Resp : Type 0} (k : Key) (maps : Maps Resp)
    → maps.errors ≡ []
    → in_maps k maps ≡ has_key k maps.responses
in_maps-responses k maps h =
    ap (λ e. has_key k maps.responses || has_key k e) h ∙ or_false (has_key k maps.responses)

-- What it takes for BatchSetIfNotExists to say that it has stored the items.
stored_result :
    {Resp : Type 0} (responses : List (Key × Resp)) (errors : List (Key × GoError))
    (m : List (Key × Resp))
    → of_batch_set (non_empty responses, non_empty errors) ≡ ok (stored m)
    → (responses ≡ m) × (errors ≡ [])
unfolding of_batch_set non_empty
stored_result [] [] m h = absurd cc
stored_result (x ∷ xs) [] m h = (cc, refl)
stored_result [] (x ∷ xs) m h = absurd cc
stored_result (x ∷ xs) (y ∷ ys) m h = absurd cc

unless_stored :
    {Resp : Type 0} (b : Bool) (reading : Reading Resp) (m : List (Key × Resp))
    → set_unless b reading ≡ some (ok (stored m))
    → (maps : Maps Resp) × (reading ≡ returned maps) × (maps.responses ≡ m) × (maps.errors ≡ [])
unfolding set_unless batch_result
unless_stored true reading m h = absurd cc
unless_stored false (returned maps) m h =
    let (same, clean) = stored_result maps.responses maps.errors m cc in (maps, refl, same, clean)
unless_stored false blocked m h = absurd cc
unless_stored false (panicked fault) m h = absurd cc

fail_all-stored :
    {Resp : Type 0} (keys : List Key) (e : GoError) (m : List (Key × Resp))
    → fail_all keys e ≢ ok (stored m)
unfolding fail_all
fail_all-stored keys e m = elim (Option-cases (create_error_mapping keys e [])) [
  | inl slice ↦ rw (fail_all, slice) (λ q. absurd cc)
  | inr (errors, sound) ↦ rw (fail_all, sound) (λ q. absurd cc)
]

not_failed :
    {Resp : Type 0} {reading : Reading Resp} (keys : List Key) (e : GoError) (m : List (Key × Resp))
    → Path (Option (Result (SetIfNotExists Resp))) (some (fail_all keys e)) (some (ok (stored m)))
    → (maps : Maps Resp) × (reading ≡ returned maps) × (maps.responses ≡ m) × (maps.errors ≡ [])
not_failed keys e m h = absurd (fail_all-stored keys e m cc)

stored_from :
    {Resp : Type 0} (items : List BatchSetItem) (reply : KeysExistReply) (reading : Reading Resp)
    (m : List (Key × Resp))
    → batch_set_if_not_exists items reply reading ≡ some (ok (stored m))
    → (maps : Maps Resp) × (reading ≡ returned maps) × (maps.responses ≡ m) × (maps.errors ≡ [])
unfolding batch_set_if_not_exists
stored_from items (refused e) reading m h = not_failed (extract_keys items) e m h
stored_from items other_response reading m h = not_failed (extract_keys items) _ m h
stored_from items (exists bs) reading m h = unless_stored (any_exists bs) reading m h

-- When BatchSetIfNotExists, on items whose keys are Strings, says that it has stored them, once the
-- workers of its BatchSet have returned, a String has a response exactly if it is the key of an item.
pub batch_set_if_not_exists-stored :
    {Resp : Type 0} {items : List BatchSetItem} (reply : KeysExistReply) (m : List (Key × Resp))
    → All (λ x. is_text (x.key) ≡ true) items
    → {capacity k : ℕ} {s : Pool item_messages (ResultOrError Resp)}
    → Run item_messages (ResultOrError Resp) items (workers_for (pos 0) (length items)) capacity k s
    → IsDone item_messages (ResultOrError Resp) s
    → batch_set_if_not_exists items reply (collect (length items) s.results no_maps)
      ≡ some (ok (stored m))
    → (t : GoString) → has_key (string t) m ≡ asks item_messages (string t) items
unfolding is_negative
batch_set_if_not_exists-stored {items = items} reply m texts {s = s} r d h t =
    let (maps, e, keys) = batch_returns item_messages refl (pos 0) refl texts r d in
    let (maps', e', same, clean) = stored_from items reply _ m h in
    let equal : maps' ≡ maps = cc in
    ap (has_key (string t)) (sym same)
    ∙ sym (in_maps-responses (string t) maps' clean)
    ∙ ap (in_maps (string t)) equal
    ∙ keys t
