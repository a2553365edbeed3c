-- ===== src/Requester/Laws.antt =====
-- What the checks of requester.go accept, and what they return.
use Prim.Native.String.{String}
use mathlib.Core.List.{reverse, reverse-cons}
use client_sdk_go.Base.{
  ℕ, ◌<◌, ℤ, pos, negsuc, ◌≡◌, ◌≢◌, ◌↔◌, ◌⊎◌, inl, inr, refl, ap, true, false, some, List, [], ◌∷◌,
  ◌++◌, arith, length, Any, here, there, Bool-cases, is_negative, ◌<ℤ◌,
}
use client_sdk_go.Text.{GoString, Bytes, is_space, trim_left, trim_space}
use client_sdk_go.Errors.{invalid_argument_error, error_code, Result, ok, err, panic}
use client_sdk_go.Requester.{
  Value, as_bytes, prepare_name, prepare_cache_name, prepare_key, prepare_keys, validate_not_empty,
  validate_sorted_set_ranks,
}

-- A name with a code point that is no white space.
abbrev pub HasText : GoString → Type 0
HasText = Any (λ c. is_space c ≡ false)

trim_left-text : (s : GoString) → HasText s → HasText (trim_left s)
unfolding trim_left
trim_left-text [] h = elim h [ ]
trim_left-text (c ∷ s) (here h) = rw h (here h)
trim_left-text (c ∷ s) (there t) = elim (Bool-cases (is_space c)) [
  | inl space ↦ rw space (trim_left-text s t)
  | inr other ↦ rw other (there t)
]

trim_left-blank : (s : GoString) → ¬ HasText s → trim_left s ≡ []
unfolding trim_left
trim_left-blank [] h = refl
trim_left-blank (c ∷ s) h = elim (Bool-cases (is_space c)) [
  | inl space ↦ rw space (trim_left-blank s (λ t. h (there t)))
  | inr other ↦ absurd (h (here other))
]

HasText-append : (s t : GoString) → HasText t → HasText (s ++ t)
HasText-append [] t h = h
HasText-append (c ∷ s) t h = there (HasText-append s t h)

append-HasText : (s t : GoString) → HasText s → HasText (s ++ t)
append-HasText [] t h = elim h [ ]
append-HasText (c ∷ s) t (here h) = here h
append-HasText (c ∷ s) t (there h) = there (append-HasText s t h)

HasText-reverse : (s : GoString) → HasText s → HasText (reverse s)
HasText-reverse [] h = h
HasText-reverse (c ∷ s) (here h) = rw reverse-cons (HasText-append (reverse s) (c ∷ []) (here h))
HasText-reverse (c ∷ s) (there t) =
    rw reverse-cons (append-HasText (reverse s) (c ∷ []) (HasText-reverse s t))

length-HasText : (s : GoString) → HasText s → 0 < length s
length-HasText [] h = elim h [ ]
length-HasText (c ∷ s) h = omega arith

trim_space-text : (s : GoString) → HasText s → 0 < length (trim_space s)
unfolding trim_space
trim_space-text s h =
    length-HasText _ (HasText-reverse _ (trim_left-text _ (HasText-reverse _ (trim_left-text s h))))

trim_space-blank : (s : GoString) → ¬ HasText s → trim_space s ≡ []
unfolding trim_space trim_left
trim_space-blank s h = rw (trim_left-blank s h)

-- The error with which a check refuses an argument.
abbrev pub IsInvalid {ℓ} : {A : Type ℓ} → Result A → Type 0
IsInvalid (err e) = error_code e ≡ some invalid_argument_error
IsInvalid _ = ⊥

prepare_name-text :
    (name : GoString) (label : String) → HasText name → prepare_name name label ≡ ok name
unfolding prepare_name
prepare_name-text name label h = let p = trim_space-text name h in ground (arith, p)

prepare_name-blank :
    (name : GoString) (label : String) → ¬ HasText name → IsInvalid (prepare_name name label)
unfolding prepare_name error_code
prepare_name-blank name label h = rw (ap length (trim_space-blank name h)) refl

blank_after : (c : ℕ) (s : GoString) → is_space c ≡ true → ¬ HasText s → ¬ HasText (c ∷ s)
blank_after c s space blank (here h) = cc
blank_after c s space blank (there t) = blank t

accepted_or_not : (r : Result GoString) (name : GoString) → IsInvalid r → ¬ (r ≡ ok name)
accepted_or_not (ok n) name h e = absurd h
accepted_or_not (err x) name h e = cc
accepted_or_not (panic p) name h e = absurd h

HasText-dec : (s : GoString) → HasText s ⊎ ¬ HasText s
HasText-dec [] = inr (λ h. elim h [ ])
HasText-dec (c ∷ s) = elim (Bool-cases (is_space c)) [
  | inr other ↦ inl (here other)
  | inl space ↦ elim (HasText-dec s) [
    | inl text ↦ inl (there text)
    | inr blank ↦ inr (blank_after c s space blank)
  ]
]

-- A name is accepted, and passed on unchanged, exactly if it holds a code point that is no white
-- space; every other name is refused as an invalid argument.
pub prepare_name_lem :
    (name : GoString) (label : String)
    → ((prepare_name name label ≡ ok name) ↔ HasText name)
      × ((prepare_name name label ≡ ok name) ⊎ IsInvalid (prepare_name name label))
prepare_name_lem name label = elim (HasText-dec name) [
  | inl text ↦
      ((λ e. text, λ t. prepare_name-text name label t), inl (prepare_name-text name label text))
  | inr blank ↦ (
    (
      λ e. absurd (accepted_or_not _ name (prepare_name-blank name label blank) e),
      λ t. absurd (blank t),
    ),
    inr (prepare_name-blank name label blank),
  )
]

-- A value whose bytes are `b`.
abbrev pub HasBytes : Value → Bytes → Type 0
HasBytes v b = as_bytes v ≡ ok b

-- The values and the byte strings correspond, one for one and in order.
abbrev pub Corresponds : (Value → Bytes → Type 0) → List Value → List Bytes → Type 0
Corresponds R [] [] = Unit
Corresponds R [] (b ∷ bs) = ⊥
Corresponds R (v ∷ vs) [] = ⊥
Corresponds R (v ∷ vs) (b ∷ bs) = R v b × Corresponds R vs bs

-- `b` are the bytes of the key `v`, and there is at least one.
abbrev pub IsKeyOf : Value → Bytes → Type 0
IsKeyOf v b = (as_bytes v ≡ ok b) × (0 < length b)

validate_not_empty-bytes :
    (v : Value) (label : String) (b : Bytes) → IsKeyOf v b → validate_not_empty v label ≡ ok tt
unfolding validate_not_empty
validate_not_empty-bytes v label b h = ground arith

-- prepareKey accepts exactly a value with at least one byte, and returns its bytes.
pub prepare_key_lem : (v : Value) (b : Bytes) → (prepare_key v ≡ ok b) ↔ IsKeyOf v b
unfolding prepare_key
prepare_key_lem v b = (λ h. ground arith, λ h. ground arith)

prepare_keys_sound :
    (vs : List Value) (bs : List Bytes) → prepare_keys vs ≡ ok bs → Corresponds IsKeyOf vs bs
unfolding prepare_keys
prepare_keys_sound [] [] h = tt
prepare_keys_sound [] (b ∷ bs) h = cc
prepare_keys_sound (v ∷ vs) [] h = ground arith
prepare_keys_sound (v ∷ vs) (b ∷ bs) h =
    ((ground arith, ground arith), prepare_keys_sound vs bs (ground arith))

prepare_keys_complete :
    (vs : List Value) (bs : List Bytes) → Corresponds IsKeyOf vs bs → prepare_keys vs ≡ ok bs
unfolding prepare_keys
prepare_keys_complete [] [] h = refl
prepare_keys_complete [] (b ∷ bs) h = absurd h
prepare_keys_complete (v ∷ vs) [] h = absurd h
prepare_keys_complete (v ∷ vs) (b ∷ bs) h = ground (arith, prepare_keys_complete vs bs h.1)

-- prepareKeys succeeds exactly if each key has at least one byte, and returns the bytes of the
-- keys in their order.
pub prepare_keys_lem :
    (vs : List Value) (bs : List Bytes) → (prepare_keys vs ≡ ok bs) ↔ Corresponds IsKeyOf vs bs
prepare_keys_lem vs bs = (prepare_keys_sound vs bs, prepare_keys_complete vs bs)

-- The ranks of a range are accepted exactly if they have different signs, or the start lies below
-- the end. A refusal is an invalid argument.
pub validate_sorted_set_ranks_lem :
    (start end : ℤ)
    → ((validate_sorted_set_ranks start end ≡ ok tt)
        ↔ ((is_negative start ≢ is_negative end) ⊎ (start <ℤ end)))
      × ((validate_sorted_set_ranks start end ≡ ok tt)
          ⊎ IsInvalid (validate_sorted_set_ranks start end))
unfolding validate_sorted_set_ranks error_code
validate_sorted_set_ranks_lem (pos a) (pos b) =
    ((λ h. inr (ground arith), λ h. ground arith), ground arith)
validate_sorted_set_ranks_lem (pos a) (negsuc b) = ((λ h. inl (λ e. cc), λ h. refl), inl refl)
validate_sorted_set_ranks_lem (negsuc a) (pos b) = ((λ h. inl (λ e. cc), λ h. refl), inl refl)
validate_sorted_set_ranks_lem (negsuc a) (negsuc b) =
    ((λ h. inr (ground arith), λ h. ground arith), ground arith)

-- The name of a cache: accepted if it has text, refused as an invalid argument if not.
pub prepare_cache_name-cases :
    (name : GoString)
    → (HasText name × (prepare_cache_name name ≡ ok name))
      ⊎ (¬ HasText name × IsInvalid (prepare_cache_name name))
unfolding prepare_cache_name
prepare_cache_name-cases name = elim (HasText-dec name) [
  | inl text ↦ inl (text, prepare_name-text name "Cache name" text)
  | inr blank ↦ inr (blank, prepare_name-blank name "Cache name" blank)
]
