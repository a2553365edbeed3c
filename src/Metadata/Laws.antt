-- ===== src/Metadata/Laws.antt =====
-- The agent headers go out once for each kind of client.
use client_sdk_go.Base.{
  ◌≡◌, refl, Bool, true, false, List, [], ◌∷◌, ◌++◌, arith, Bool-cases, if◌then◌else◌, inl, inr,
}
use client_sdk_go.Text.{GoString}
use client_sdk_go.Metadata.{
  ClientType, Headers, HeadersSent, init_headers_sent, same_client_type, mark_sent,
  first_time_headers, create_metadata,
}

-- The headers of a sequence of requests, each of a kind and with its own pairs.
unfoldable pub send_all : GoString → List (ClientType × Headers) → HeadersSent → List Headers
unfolding create_metadata
send_all rv [] sent = []
send_all rv ((t, pairs) ∷ rest) sent =
    let (headers, sent') = create_metadata rv t pairs sent in headers ∷ send_all rv rest sent'

-- The same, with the agent headers on exactly the first request of each kind: `seen` are the kinds
-- that came before.
unfoldable pub is_seen : ClientType → List ClientType → Bool
is_seen t [] = false
is_seen t (u ∷ seen) = if same_client_type u t then true else is_seen t seen

unfoldable pub with_agent : GoString → List ClientType → List (ClientType × Headers) → List Headers
with_agent rv seen [] = []
with_agent rv seen ((t, pairs) ∷ rest) =
    (if is_seen t seen then pairs else pairs ++ first_time_headers rv t)
    ∷ with_agent rv (t ∷ seen) rest

same_client_type_refl : (t : ClientType) → same_client_type t t ≡ true
unfolding same_client_type
same_client_type_refl t = ground arith

same_client_type-eq : (t u : ClientType) → same_client_type t u ≡ true → t ≡ u
unfolding same_client_type
same_client_type-eq t u h = ground arith

Agrees : HeadersSent → List ClientType → Type 0
Agrees sent seen = (t : ClientType) → sent t ≡ is_seen t seen

Agrees-old :
    (t : ClientType) (sent : HeadersSent) (seen : List ClientType)
    → Agrees sent seen
    → sent t ≡ true
    → Agrees sent (t ∷ seen)
unfolding Agrees is_seen
Agrees-old t sent seen h old u = elim (Bool-cases (same_client_type t u)) [
  | inl same ↦ rw same (rw (same_client_type-eq t u same) at old)
  | inr other ↦ rw other (h u)
]

Agrees-new :
    (t : ClientType) (sent : HeadersSent) (seen : List ClientType)
    → Agrees sent seen
    → Agrees (mark_sent t sent) (t ∷ seen)
unfolding Agrees is_seen mark_sent
Agrees-new t sent seen h u = rw (h u)

send_all-agrees :
    (rv : GoString) (reqs : List (ClientType × Headers)) (sent : HeadersSent)
    (seen : List ClientType)
    → Agrees sent seen
    → send_all rv reqs sent ≡ with_agent rv seen reqs
unfolding send_all with_agent create_metadata Agrees
send_all-agrees rv [] sent seen h = refl
send_all-agrees rv ((t, pairs) ∷ rest) sent seen h = elim (Bool-cases (sent t)) [
  | inl old ↦
      ground (arith, h t, send_all-agrees rv rest sent (t ∷ seen) (Agrees-old t sent seen h old))
  | inr new ↦
      ground (
        arith,
        h t,
        send_all-agrees rv rest (mark_sent t sent) (t ∷ seen) (Agrees-new t sent seen h),
      )
]

-- Over any sequence of requests, made one after another, the agent headers are appended to the
-- first request of each kind of client and to no other, behind the request's own headers.
pub send_all-once :
    (rv : GoString) (reqs : List (ClientType × Headers))
    → send_all rv reqs init_headers_sent ≡ with_agent rv [] reqs
unfolding init_headers_sent is_seen Agrees
send_all-once rv reqs = send_all-agrees rv reqs init_headers_sent [] (λ t. refl)
