-- ===== src/Dictionary/Laws.antt =====
-- What the requests on dictionaries make of their elements and of the server's answers.
use client_sdk_go.Base.{
  ◌≡◌, ◌≢◌, refl, sym, ap, ◌∙◌, ℤ, true, false, Option, none, some, List, [], ◌∷◌, inl, inr, arith,
  length, same_text, same_text_refl, same_text→eq, Bool-cases, if◌then◌else◌,
}
use client_sdk_go.Text.{Bytes}
use client_sdk_go.Errors.{Fault, ok, panic}
use client_sdk_go.Requester.{
  Value, DictionaryElement, as_bytes, prepare_name, prepare_field_list, prepare_fields,
  prepare_collection_ttl, validate_not_empty, validate_not_nil, validate_dictionary_elements,
  prepare_dictionary_elements,
}
use client_sdk_go.Requester.Laws.{IsKeyOf}
use client_sdk_go.Protos.{found, HitOrMiss}
use client_sdk_go.Dictionary.{
  XDictionaryFieldValuePair, XDictionaryGetRequest, XDictionaryGetResponsePart,
  DictionaryGetFieldsRequest, FieldResponse, assign, fetched_elements, field_response,
  field_answers, slice, interpret_get_fields, dictionary_get_fields,
}
use client_sdk_go.Dictionary.Update.{
  XDictionarySetRequest, DictionarySetFieldsRequest, field_value_pairs, dictionary_set_fields,
}

-- `m[k]` of a Go map.
unfoldable pub look_up {ℓ} : {A : Type ℓ} → Bytes → List (Bytes × A) → Option A
look_up k [] = none
look_up k ((j, v) ∷ m) = if same_text j k then some v else look_up k m

-- The value of the last pair with the field `k`.
unfoldable pub last_value : Bytes → List XDictionaryFieldValuePair → Option Bytes → Option Bytes
last_value k [] before = before
last_value k (i ∷ items) before =
    last_value k items (if same_text i.field k then some i.value else before)

differ : (i j : Bytes) → same_text i j ≡ false → ¬ (i ≡ j)
differ i j other e =
    let r = same_text_refl j in let x : same_text j j ≡ false = rw e at other in ground arith

apart : (i j k : Bytes) → same_text i j ≡ false → same_text i k ≡ true → same_text j k ≡ false
apart i j k other here = elim (Bool-cases (same_text j k)) [
  | inr distinct ↦ distinct
  | inl equal ↦ absurd (differ i j other (same_text→eq i k here ∙ sym (same_text→eq j k equal)))
]

pub look_up-assign {ℓ} :
    {A : Type ℓ} (j : Bytes) (v : A) (k : Bytes) (m : List (Bytes × A))
    → look_up k (assign j v m) ≡ (if same_text j k then some v else look_up k m)
unfolding look_up assign
look_up-assign j v k [] = refl
look_up-assign j v k ((i, w) ∷ m) = elim (Bool-cases (same_text i j)) [
  | inl same ↦ rw same (rw (same_text→eq i j same) (ground arith))
  | inr other ↦ elim (Bool-cases (same_text i k)) [
    | inl here ↦ rw (other, here) (rw (apart i j k other here) refl)
    | inr there ↦ rw (other, there) (look_up-assign j v k m)
  ]
]

look_up-fetched_elements :
    (k : Bytes) (items : List XDictionaryFieldValuePair) (m : List (Bytes × Bytes))
    → look_up k (fetched_elements items m) ≡ last_value k items (look_up k m)
unfolding fetched_elements last_value
look_up-fetched_elements k [] m = refl
look_up-fetched_elements k (i ∷ items) m =
    look_up-fetched_elements k items (assign i.field i.value m)
    ∙ ap (last_value k items) (look_up-assign i.field i.value k m)

-- The map that a fetch returns holds, for each field, the value of the last pair that the server sent
-- for it, and nothing for a field that it did not send.
pub fetched_elements_lem :
    (k : Bytes) (items : List XDictionaryFieldValuePair)
    → look_up k (fetched_elements items []) ≡ last_value k items none
unfolding look_up
fetched_elements_lem k items = look_up-fetched_elements k items []

-- The answers, each with the field in its place.
unfoldable pub answered : List Bytes → List XDictionaryGetResponsePart → List (Option FieldResponse)
answered [] parts = []
answered (f ∷ fs) [] = []
answered (f ∷ fs) (part ∷ parts) = field_response f part ∷ answered fs parts

field_answers-aligned :
    (vs : List Value) (bs : List Bytes) (parts : List XDictionaryGetResponsePart)
    → prepare_field_list vs ≡ ok bs
    → length parts ≡ length bs
    → field_answers vs parts ≡ ok (bs, answered bs parts)
unfolding prepare_field_list field_answers answered validate_not_empty
field_answers-aligned [] [] [] h n = refl
field_answers-aligned [] [] (p ∷ parts) h n = absurd (omega arith)
field_answers-aligned [] (b ∷ bs) parts h n = cc
field_answers-aligned (v ∷ vs) [] parts h n = ground arith
field_answers-aligned (v ∷ vs) (b ∷ bs) [] h n = absurd (omega arith)
field_answers-aligned (v ∷ vs) (b ∷ bs) (p ∷ parts) h n =
    ground (arith, field_answers-aligned vs bs parts)

prepared_list :
    (fs : Option (List Value)) (bs : List Bytes)
    → prepare_fields fs ≡ ok bs
    → prepare_field_list (slice fs) ≡ ok bs
unfolding prepare_fields
prepared_list none bs h = cc
prepared_list (some fs) bs h = h

init-fields :
    (r : DictionaryGetFieldsRequest) (default_ttl : ℤ) (m : XDictionaryGetRequest)
    → (dictionary_get_fields r).init_grpc_request default_ttl ≡ ok m
    → prepare_fields r.fields ≡ ok m.fields
unfolding dictionary_get_fields
init-fields r default_ttl m h = ground arith

-- If the server answers a get of fields with one part for each field of the message, the result has
-- the fields of the message in their order, and each response is made of the field and the part in
-- one place.
pub dictionary_get_fields-found :
    (r : DictionaryGetFieldsRequest) (default_ttl : ℤ) (m : XDictionaryGetRequest)
    (parts : List XDictionaryGetResponsePart)
    → (dictionary_get_fields r).init_grpc_request default_ttl ≡ ok m
    → length parts ≡ length m.fields
    → (dictionary_get_fields r).interpret_grpc_response m (found parts)
      ≡ ok (
          HitOrMiss.hit
            (record { fields = m.fields; elements = parts; responses = answered m.fields parts }))
unfolding dictionary_get_fields interpret_get_fields
dictionary_get_fields-found r default_ttl m parts h n =
    let p = prepared_list r.fields m.fields (init-fields r default_ttl m h) in
    rw (field_answers-aligned (slice r.fields) m.fields parts p n) refl

validated-safe :
    (es : List DictionaryElement) (p : Fault) → validate_dictionary_elements es ≢ panic p
unfolding validate_dictionary_elements validate_not_nil validate_not_empty
validated-safe [] p h = cc
validated-safe (e ∷ es) p h = ground (arith, validated-safe es p)

pairs-safe :
    (es : List DictionaryElement) (p : Fault)
    → validate_dictionary_elements es ≡ ok tt
    → field_value_pairs es ≢ panic p
unfolding validate_dictionary_elements validate_not_nil validate_not_empty field_value_pairs
pairs-safe [] p v h = cc
pairs-safe (e ∷ es) p v h = ground (arith, pairs-safe es p)

-- No set of fields panics when its message is made, whatever nil values, nil fields and times to live
-- it has.
pub dictionary_set_fields-safe :
    (r : DictionarySetFieldsRequest) (default_ttl : ℤ) (p : Fault)
    → ¬ ((dictionary_set_fields r).init_grpc_request default_ttl ≡ panic p)
unfolding dictionary_set_fields prepare_dictionary_elements prepare_collection_ttl prepare_name
dictionary_set_fields-safe r default_ttl p h =
    ground (arith, validated-safe r.elements p, pairs-safe r.elements p)

-- The pairs of the message are the bytes of the fields and values of the elements, in their order, and
-- every field has a byte.
abbrev pub PairsOf : List DictionaryElement → List XDictionaryFieldValuePair → Type 0
PairsOf [] [] = Unit
PairsOf [] (q ∷ qs) = ⊥
PairsOf (e ∷ es) [] = ⊥
PairsOf (e ∷ es) (q ∷ qs) =
    IsKeyOf e.field q.field × (as_bytes e.value ≡ ok q.value) × PairsOf es qs

pairs-PairsOf :
    (es : List DictionaryElement) (qs : List XDictionaryFieldValuePair)
    → validate_dictionary_elements es ≡ ok tt
    → field_value_pairs es ≡ ok qs
    → PairsOf es qs
unfolding validate_dictionary_elements validate_not_nil validate_not_empty field_value_pairs
pairs-PairsOf [] [] v h = tt
pairs-PairsOf [] (q ∷ qs) v h = cc
pairs-PairsOf (e ∷ es) [] v h = ground arith
pairs-PairsOf (e ∷ es) (q ∷ qs) v h =
    ((ground arith, ground arith), ground arith, pairs-PairsOf es qs (ground arith) (ground arith))

-- The message of a set of fields has a pair for each element, in their order: the bytes of its field,
-- of which there is at least one, and of its value.
pub dictionary_set_fields-PairsOf :
    (r : DictionarySetFieldsRequest) (default_ttl : ℤ) (m : XDictionarySetRequest)
    → (dictionary_set_fields r).init_grpc_request default_ttl ≡ ok m
    → PairsOf r.elements m.items
unfolding dictionary_set_fields prepare_dictionary_elements prepare_collection_ttl prepare_name
dictionary_set_fields-PairsOf r default_ttl m h =
    pairs-PairsOf r.elements m.items (ground arith) (ground arith)
