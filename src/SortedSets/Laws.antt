-- ===== src/SortedSets/Laws.antt =====
-- What a fetch by score asks for, what a put sends, and the map of the scores.
use client_sdk_go.Base.{
  ℕ, ◌^◌, ◌≤◌, ◌<◌, ltb, ℤ, pos, negsuc, to_signed, is_negative, ◌≡◌, ◌⊎◌, inl, inr, refl, subst,
  sym, ap, ◌∙◌, true, false, Option, none, some, List, [], ◌∷◌, length, same_text, if◌then◌else◌,
  Bool-cases, ltb→lt, arith,
}
use client_sdk_go.Text.{Bytes, to_bytes}
use client_sdk_go.Errors.{ok, >>=-ok}
use client_sdk_go.Requester.{
  Value, nil_value, string, bytes, as_bytes, build_error, prepare_name, prepare_collection_ttl,
}
use client_sdk_go.Dictionary.{assign}
use client_sdk_go.Dictionary.Laws.{look_up, look_up-assign}
use client_sdk_go.SortedSets.{
  by_score, XByScore, XSortedSetFetchRequest, SortedSetFetchByScoreRequest, XSortedSetElement,
  sent_count, sent_offset, to_enum, sorted_set_fetch_by_score,
}
use client_sdk_go.SortedSets.Scores.{
  ScoreResponse, score_hit, score_miss, score_invalid, scores_map,
}
use client_sdk_go.SortedSets.Elements.{
  SortedSetElement, element_bytes, sorted_set_elements, SortedSetPutElementsRequest,
  XSortedSetPutRequest, convert_sorted_set_elements_to_grpc, sorted_set_put_elements,
}

-- A count of the type uint32.
abbrev pub IsUint32 : Option ℕ → Type 0
IsUint32 none = Unit
IsUint32 (some n) = n < 2 ^ 32

-- The count that is sent: -1 for none, the count itself below 2 ^ 31, and else a negative number.
abbrev pub CountOf : Option ℕ → ℤ → Type 0
CountOf none c = c ≡ negsuc 0
CountOf (some n) c = ((n < 2 ^ 31) × (c ≡ pos n)) ⊎ ((2 ^ 31 ≤ n) × (is_negative c ≡ true))

not_below : (n : ℕ) → ltb n (2 ^ 31) ≡ false → 2 ^ 31 ≤ n
not_below n h = ground arith

below : (n : ℕ) → n < 2 ^ 31 → sent_count (some n) ≡ pos n
unfolding sent_count to_signed
below n h = ground arith

sent_count-CountOf : (c : Option ℕ) → IsUint32 c → CountOf c (sent_count c)
unfolding sent_count to_signed is_negative
sent_count-CountOf none h = refl
sent_count-CountOf (some n) h = elim (Bool-cases (ltb n (2 ^ 31))) [
  | inl small ↦ inl (ltb→lt n (2 ^ 31) small, below n (ltb→lt n (2 ^ 31) small))
  | inr large ↦ inr (not_below n large, ground arith)
]

-- The message of a fetch by score, with a count of the type uint32, has the bounds of the request; its count is -1 if none is
-- asked for, the one that is asked for if that is below 2 ^ 31, and a negative number for any other.
pub sorted_set_fetch_by_score-count :
    {Score : Type 0} (r : SortedSetFetchByScoreRequest Score) (default_ttl : ℤ)
    (q : XSortedSetFetchRequest Score)
    → IsUint32 r.count
    → (sorted_set_fetch_by_score r).init_grpc_request default_ttl ≡ ok q
    → (b : XByScore Score) × (q.range ≡ by_score b)
      × (b.min ≡ r.min_score)
      × (b.max ≡ r.max_score)
      × CountOf r.count b.count
unfolding sorted_set_fetch_by_score
sorted_set_fetch_by_score-count r default_ttl q h made =
    let (name, _, built) = >>=-ok (prepare_name r.set_name "Set name") _ q made in
    let same : q ≡ record {
      set_name = to_bytes r.set_name;
      order = to_enum r.order;
      range = by_score (record {
        min = r.min_score;
        max = r.max_score;
        offset = sent_offset r.offset;
        count = sent_count r.count;
      });
    } =
      cc in
    (_, ap (λ x. x.range) same, refl, refl, sent_count-CountOf r.count h)

-- The score of the last hit for the value `k`.
abbrev pub last_score :
    {Score : Type 0} → Bytes → List (ScoreResponse Score) → List Bytes → Option Score → Option Score
last_score k [] vs before = before
last_score k (r ∷ rs) [] before = before
last_score k (score_hit s ∷ rs) (v ∷ vs) before =
    last_score k rs vs (if same_text v k then some s else before)
last_score k (score_miss ∷ rs) (v ∷ vs) before = last_score k rs vs before
last_score k (score_invalid ∷ rs) (v ∷ vs) before = last_score k rs vs before

scores_loop :
    {Score : Type 0} (rs : List (ScoreResponse Score)) (vs : List Bytes) (m : List (Bytes × Score))
    → length rs ≤ length vs
    → (after : List (Bytes × Score)) × (scores_map rs vs m ≡ ok after)
      × ((k : Bytes) → look_up k after ≡ last_score k rs vs (look_up k m))
unfolding scores_map
scores_loop [] vs m h = (m, refl, λ k. refl)
scores_loop (r ∷ rs) [] m h = absurd (omega (arith, h))
scores_loop (score_hit s ∷ rs) (v ∷ vs) m h =
    let (after, e, f) = scores_loop rs vs (assign v s m) (omega (arith, h)) in
    (after, e, λ k. f k ∙ ap (last_score k rs vs) (look_up-assign v s k m))
scores_loop (score_miss ∷ rs) (v ∷ vs) m h = scores_loop rs vs m (omega (arith, h))
scores_loop (score_invalid ∷ rs) (v ∷ vs) m h = scores_loop rs vs m (omega (arith, h))

-- If there are no more responses than values, the map of the scores exists, and holds for each value
-- the score of the last hit for it, and nothing for a value without a hit.
pub scores_map_lem :
    {Score : Type 0} (rs : List (ScoreResponse Score)) (vs : List Bytes)
    → length rs ≤ length vs
    → (m : List (Bytes × Score)) × (scores_map rs vs [] ≡ ok m)
      × ((k : Bytes) → look_up k m ≡ last_score k rs vs none)
unfolding look_up
scores_map_lem rs vs h = scores_loop rs vs [] h

-- The elements of a put and those of its message, one by one: the bytes of a value, and its score.
abbrev pub SentAs :
    {Score : Type 0} → List (SortedSetElement Score) → List (XSortedSetElement Score) → Type 0
SentAs [] [] = Unit
SentAs (el ∷ els) (x ∷ xs) = (as_bytes el.value ≡ ok x.value) × (x.score ≡ el.score) × SentAs els xs
SentAs _ _ = ⊥

proper : (v : Value) (b : Bytes) → element_bytes v ≡ ok b → as_bytes v ≡ ok b
unfolding element_bytes as_bytes build_error
proper nil_value b h = absurd cc
proper (string s) b h = h
proper (bytes c) b h = h

sorted_set_elements-SentAs :
    {Score : Type 0} (els : List (SortedSetElement Score)) (xs : List (XSortedSetElement Score))
    → sorted_set_elements els ≡ ok xs
    → SentAs els xs
unfolding sorted_set_elements as_bytes
sorted_set_elements-SentAs [] [] h = tt
sorted_set_elements-SentAs [] (x ∷ xs) h = absurd cc
sorted_set_elements-SentAs (el ∷ els) xs h =
    let (v, e, g) = >>=-ok (element_bytes el.value) _ xs h in
    let (rest, f, built) = >>=-ok (sorted_set_elements els) _ xs g in
    let same : record { value = v; score = el.score } ∷ rest ≡ xs = cc in
    subst (SentAs (el ∷ els)) same
      (proper el.value v e, refl, sorted_set_elements-SentAs els rest f)

-- The message of a put has an element for each one of the request, in their order: the bytes of its
-- value, which is not nil, and its score.
pub sorted_set_put_elements-SentAs :
    {Score : Type 0} (r : SortedSetPutElementsRequest Score) (els : List (SortedSetElement Score))
    (default_ttl : ℤ) (q : XSortedSetPutRequest Score)
    → r.elements ≡ some els
    → (sorted_set_put_elements r).init_grpc_request default_ttl ≡ ok q
    → SentAs els q.elements
unfolding sorted_set_put_elements convert_sorted_set_elements_to_grpc
sorted_set_put_elements-SentAs r els default_ttl q given made =
    let (_, _, a) = >>=-ok (prepare_name r.set_name "Set name") _ q made in
    let (ttl, _, b) = >>=-ok (prepare_collection_ttl r.ttl default_ttl) _ q a in
    let (xs, e, c) = >>=-ok (convert_sorted_set_elements_to_grpc r.elements) _ q b in
    let same : xs ≡ q.elements = cc in
    subst (SentAs els) same
      (sorted_set_elements-SentAs els xs (ap convert_sorted_set_elements_to_grpc (sym given) ∙ e))
