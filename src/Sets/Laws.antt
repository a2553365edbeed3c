-- ===== src/Sets/Laws.antt =====
-- Which requests on sets refuse a nil element, and which panic on it.
use client_sdk_go.Base.{
  ◌≡◌, ◌≢◌, ◌↔◌, refl, ℤ, Option, none, some, List, [], ◌∷◌, arith, Any, here, there,
}
use client_sdk_go.Errors.{Fault, nil_dereference, panic}
use client_sdk_go.Requester.{
  Value, nil_value, string, bytes, as_bytes, prepare_name, prepare_value_list,
  prepare_collection_ttl, momento_values_to_primitive_byte_list, validate_not_nil,
}
use client_sdk_go.Requester.Laws.{HasText, prepare_name_lem}
use client_sdk_go.Scalar.Batch.{all_bytes}
use client_sdk_go.Sets.{
  SetAddElementsRequest, SetRemoveElementsRequest, SetContainsElementsRequest, set_add_elements,
  set_remove_elements, set_contains_elements,
}

-- An element is nil.
abbrev pub HasNil : List Value → Type 0
HasNil = Any (λ v. v ≡ nil_value)

all_bytes-panics : (vs : List Value) → HasNil vs → all_bytes vs ≡ panic nil_dereference
unfolding all_bytes as_bytes
all_bytes-panics [] h = elim h [ ]
all_bytes-panics (v ∷ vs) (here e) = ground arith
all_bytes-panics (nil_value ∷ vs) (there t) = refl
all_bytes-panics (string s ∷ vs) (there t) = rw (all_bytes-panics vs t) refl
all_bytes-panics (bytes b ∷ vs) (there t) = rw (all_bytes-panics vs t) refl

all_bytes-HasNil : (vs : List Value) (p : Fault) → all_bytes vs ≡ panic p → HasNil vs
unfolding all_bytes as_bytes
all_bytes-HasNil [] p h = cc
all_bytes-HasNil (nil_value ∷ vs) p h = here refl
all_bytes-HasNil (string s ∷ vs) p h = there (all_bytes-HasNil vs p (ground arith))
all_bytes-HasNil (bytes b ∷ vs) p h = there (all_bytes-HasNil vs p (ground arith))

list-safe : (vs : List Value) (p : Fault) → prepare_value_list vs ≢ panic p
unfolding prepare_value_list validate_not_nil
list-safe [] p h = cc
list-safe (v ∷ vs) p h = ground (arith, list-safe vs p)

byte_list-safe :
    (vs : Option (List Value)) (p : Fault) → momento_values_to_primitive_byte_list vs ≢ panic p
unfolding momento_values_to_primitive_byte_list
byte_list-safe none p h = cc
byte_list-safe (some vs) p h = list-safe vs p h

-- On a named set, a test of elements panics exactly if an element is nil.
pub set_contains_elements-panics :
    (r : SetContainsElementsRequest) (default_ttl : ℤ)
    → HasText r.set_name
    → ((set_contains_elements r).init_grpc_request default_ttl ≡ panic nil_dereference)
      ↔ HasNil r.elements
unfolding set_contains_elements
set_contains_elements-panics r default_ttl t =
    let n = (prepare_name_lem r.set_name "Set name").0.1 t in
    (
      λ h. all_bytes-HasNil r.elements nil_dereference (ground (arith, n)),
      λ h. ground (arith, n, all_bytes-panics r.elements h),
    )

-- No addition of elements and no removal panics, whatever nil elements, names and times to live it has.
pub set_elements-safe :
    (a : SetAddElementsRequest) (r : SetRemoveElementsRequest) (default_ttl : ℤ) (p : Fault)
    → ((set_add_elements a).init_grpc_request default_ttl ≢ panic p)
      × ((set_remove_elements r).init_grpc_request default_ttl ≢ panic p)
unfolding set_add_elements set_remove_elements prepare_name prepare_collection_ttl
set_elements-safe a r default_ttl p = (
  λ h. ground (arith, byte_list-safe a.elements p),
  λ h. ground (arith, byte_list-safe r.elements p),
)
