-- ===== src/Scalar/Batch/Laws.antt =====
-- How the answers of a batch get are matched with its keys.
use mathlib.Core.List.{append-nil}
use client_sdk_go.Scalar.{XGetRequest}
use client_sdk_go.Base.{suc, ◌≡◌, refl, ap, ◌∙◌, sym, map, List, [], ◌∷◌, ◌++◌, arith, length}
use client_sdk_go.Text.{GoString, Bytes}
use client_sdk_go.Errors.{Result, ok, err, panic, ◌>>=◌}
use client_sdk_go.Requester.{prepare_name}
use client_sdk_go.Protos.{HitOrMiss}
use client_sdk_go.Scalar.Batch.{
  GetBatchRequest, XGetBatchRequest, all_bytes, get_requests, init_get_batch, value_map,
}

-- The hits among the answers, each with the key in its place.
unfoldable pub paired_hits : List Bytes → List (HitOrMiss Bytes) → List (Bytes × Bytes)
paired_hits [] rs = []
paired_hits (k ∷ ks) [] = []
paired_hits (k ∷ ks) (HitOrMiss.hit v ∷ rs) = (k, v) ∷ paired_hits ks rs
paired_hits (k ∷ ks) (HitOrMiss.miss ∷ rs) = paired_hits ks rs

value_map-aligned :
    (ks extra : List Bytes) (rs : List (HitOrMiss Bytes))
    → length rs ≡ length ks
    → value_map rs (ks ++ extra) ≡ ok (paired_hits ks rs)
unfolding value_map paired_hits
value_map-aligned [] extra [] h = refl
value_map-aligned [] extra (r ∷ rs) h = absurd (omega arith)
value_map-aligned (k ∷ ks) extra [] h = absurd (omega arith)
value_map-aligned (k ∷ ks) extra (HitOrMiss.hit v ∷ rs) h =
    rw (value_map-aligned ks extra rs (omega arith)) refl
value_map-aligned (k ∷ ks) extra (HitOrMiss.miss ∷ rs) h =
    value_map-aligned ks extra rs (omega arith)

abbrev initialised : GetBatchRequest → List Bytes → XGetBatchRequest × GetBatchRequest
initialised r bs = (record { items = get_requests bs }, record r { byte_keys = r.byte_keys ++ bs })

init_results :
    (r : GetBatchRequest) (rn : Result GoString) (rb : Result (List Bytes))
    (message : XGetBatchRequest) (r' : GetBatchRequest)
    → (rn >>= λ name. rb >>= λ bs. ok (initialised r bs)) ≡ ok (message, r')
    → (bs : List Bytes) × (rb ≡ ok bs)
      × (message.items ≡ get_requests bs)
      × (r'.byte_keys ≡ r.byte_keys ++ bs)
init_results r (ok n) (ok bs) message r' h = (bs, refl, ground arith, ground arith)
init_results r (ok n) (err e) message r' h = cc
init_results r (ok n) (panic p) message r' h = cc
init_results r (err e) rb message r' h = cc
init_results r (panic p) rb message r' h = cc

-- The request after initGrpcRequest has the bytes of its keys behind those that it kept.
init_get_batch-byte_keys :
    (r : GetBatchRequest) (message : XGetBatchRequest) (r' : GetBatchRequest)
    → init_get_batch r ≡ ok (message, r')
    → (bs : List Bytes) × (all_bytes r.keys ≡ ok bs)
      × (message.items ≡ get_requests bs)
      × (r'.byte_keys ≡ r.byte_keys ++ bs)
unfolding init_get_batch
init_get_batch-byte_keys r message r' h =
    init_results r (prepare_name r.cache_name "Cache name") (all_bytes r.keys) message r' h

-- The keys of the message that is sent.
abbrev pub sent_keys : List XGetRequest → List Bytes
sent_keys = map (λ q. q.cache_key)

sent_keys-get_requests : (bs : List Bytes) → sent_keys (get_requests bs) ≡ bs
unfolding get_requests
sent_keys-get_requests [] = refl
sent_keys-get_requests (b ∷ bs) = ap (λ rest. b ∷ rest) (sent_keys-get_requests bs)

length-get_requests : (bs : List Bytes) → length (get_requests bs) ≡ length bs
unfolding get_requests
length-get_requests [] = refl
length-get_requests (b ∷ bs) = ap suc (length-get_requests bs)

-- A request that is used for the first time: with one answer for each item of the message, the map
-- of values pairs each hit with the key that was sent in its place, and does not panic.
pub get_batch_pairs :
    (r : GetBatchRequest) (message : XGetBatchRequest) (r' : GetBatchRequest)
    (rs : List (HitOrMiss Bytes))
    → r.byte_keys ≡ []
    → init_get_batch r ≡ ok (message, r')
    → length rs ≡ length message.items
    → value_map rs r'.byte_keys ≡ ok (paired_hits (sent_keys message.items) rs)
get_batch_pairs r message r' rs fresh h n =
    let (bs, p, items, kept) = init_get_batch-byte_keys r message r' h in
    let all : r'.byte_keys ≡ bs ++ [] = kept ∙ (ap (λ x. x ++ bs) fresh ∙ sym (append-nil bs)) in
    rw (all, items, sent_keys-get_requests)
      (value_map-aligned bs [] rs (n ∙ (ap length items ∙ length-get_requests bs)))

-- A request that is used again after as many keys as there are answers: the map of values pairs the
-- hits with the keys of the first use, whatever keys were sent now.
pub get_batch_reused :
    (r : GetBatchRequest) (message : XGetBatchRequest) (r' : GetBatchRequest)
    (rs : List (HitOrMiss Bytes))
    → init_get_batch r ≡ ok (message, r')
    → length rs ≡ length r.byte_keys
    → value_map rs r'.byte_keys ≡ ok (paired_hits r.byte_keys rs)
get_batch_reused r message r' rs h n =
    let (bs, p, items, kept) = init_get_batch-byte_keys r message r' h in
    rw kept (value_map-aligned r.byte_keys bs rs n)
