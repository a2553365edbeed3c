-- ===== src/Leaderboard/Laws.antt =====
-- What the methods of a leaderboard send and return.
use client_sdk_go.Base.{
  ℕ, zero, suc, ◌+◌, Option, leb, ◌≤◌, ◌≡◌, refl, ap, true, none, some, List, [], ◌∷◌, arith,
}
use client_sdk_go.Text.{GoString}
use client_sdk_go.Errors.{Result, error_code, invalid_argument_error, err, GoError}
use client_sdk_go.Errors.Convert.{FromError}
use client_sdk_go.Metadata.{Headers, HeadersSent}
use client_sdk_go.DataClient.{response, Exchange}
use client_sdk_go.Tokens.Client.{AuthServer}
use client_sdk_go.Leaderboard.{Leaderboard}
use client_sdk_go.Leaderboard.Fetch.{
  LeaderboardElement, LeaderboardFetchByRankRequest, XGetByRankRequest, leaderboard_fetch_by_rank,
  leaderboard_fetch_grpc_element_to_model, LeaderboardOrder, XOrder,
}

pub leaderboard_fetch_grpc_element_to_model_lem :
    {Score : Type 0} (es : List (LeaderboardElement Score))
    → leaderboard_fetch_grpc_element_to_model es ≡ es
unfolding leaderboard_fetch_grpc_element_to_model
leaderboard_fetch_grpc_element_to_model_lem [] = refl
leaderboard_fetch_grpc_element_to_model_lem (e ∷ es) =
    ap (λ xs. e ∷ xs) (leaderboard_fetch_grpc_element_to_model_lem es)

-- A refused fetch by rank: its range is empty, and nothing is sent.
abbrev pub IsRefused :
    {Score : Type 0}
    → LeaderboardFetchByRankRequest
    → HeadersSent
    → Exchange XGetByRankRequest (List (LeaderboardElement Score))
    → Type 0
IsRefused r sent x =
    (r.end_rank ≤ r.start_rank)
    × (x.sent ≡ none)
    × (x.headers_sent ≡ sent)
    × (e : GoError) × (x.outcome ≡ err e)
    × (error_code e ≡ some invalid_argument_error)

-- The elements of the ranks from `start` up to `end`, which is left out, of a list in the order of ranks.
abbrev pub slice {ℓ} : {A : Type ℓ} → ℕ → ℕ → List A → List A
slice start end [] = []
slice start zero (x ∷ xs) = []
slice zero (suc end) (x ∷ xs) = x ∷ slice zero end xs
slice (suc start) (suc end) (x ∷ xs) = slice start end xs

module _ {Score : Type 0} (from_error : FromError) (runtime_version : GoString)
    (server : AuthServer XGetByRankRequest (List (LeaderboardElement Score))) (l : Leaderboard)
    (r : LeaderboardFetchByRankRequest) (sent : HeadersSent) where
  -- A fetch by rank whose end is not after its start is refused, and nothing is sent.
  pub leaderboard_fetch_by_rank_refuses :
      leb r.end_rank r.start_rank ≡ true
      → IsRefused r sent (leaderboard_fetch_by_rank from_error runtime_version server l r sent)
  unfolding leaderboard_fetch_by_rank error_code
  leaderboard_fetch_by_rank_refuses h =
      let le : r.end_rank ≤ r.start_rank = ground arith in rw h (le, refl, refl, _, refl, refl)

-- `ranking` is what the server has: for each leaderboard and order the elements in the order of their ranks.
module _ {Score : Type 0} (from_error : FromError) (runtime_version : GoString)
    (server : AuthServer XGetByRankRequest (List (LeaderboardElement Score)))
    (ranking : Leaderboard → XOrder → List (LeaderboardElement Score))
    (serves : (h : Headers) (q : XGetByRankRequest)
      → q.end_exclusive ≤ q.start_inclusive + 8192
      → server h q
        ≡ response (slice q.start_inclusive q.end_exclusive (ranking q.leaderboard q.order)))
    (l : Leaderboard) (order : Option LeaderboardOrder) where
  -- The outcome of a fetch of the ranks from `start` up to `end`.
  abbrev pub page : ℕ → ℕ → HeadersSent → Result (List (LeaderboardElement Score))
  page start end sent =
      (leaderboard_fetch_by_rank from_error runtime_version server l
        (record { start_rank = start; end_rank = end; order = order }) sent).outcome
