-- ===== src/Tests/SortedSets.antt =====
-- Sorted sets and leaderboards with numbers as their scores.
use client_sdk_go.Base.{ℕ, ◌-◌, ◌^◌, pos, negsuc, ◌≡◌, List, refl, none, some, [], ◌∷◌, arith}
use client_sdk_go.Text.{Bytes}
use client_sdk_go.Requester.{string}
use client_sdk_go.SortedSets.{
  SortedSetFetchByScoreRequest, XSortedSetFetchRequest, XByScore, by_score,
  sorted_set_fetch_by_score,
}
use client_sdk_go.SortedSets.Elements.{SortedSetElement, SortedSetPutElementsRequest}
use client_sdk_go.Tests.{status_of, go_version}
use client_sdk_go.Metadata.{init_headers_sent}
use client_sdk_go.DataClient.{response}
use client_sdk_go.Leaderboard.{Leaderboard}
use client_sdk_go.Leaderboard.Fetch.{
  LeaderboardElement, XGetByRankRequest, XOrder, ascending, descending,
}
use client_sdk_go.Leaderboard.Laws.{slice, page}
use client_sdk_go.Tokens.Client.{AuthServer}
use client_sdk_go.Errors.{Result}
use client_sdk_go.SortedSets.Laws.{CountOf, sorted_set_fetch_by_score-count}

-- The largest count.
abbrev all_request : SortedSetFetchByScoreRequest ℕ
all_request = record {
  cache_name = 99 ∷ [];
  set_name = 115 ∷ [];
  order = pos 0;
  min_score = some 3;
  max_score = none;
  offset = none;
  count = some (2 ^ 32 - 1);
}

abbrev all_message : XSortedSetFetchRequest ℕ
all_message = record {
  set_name = 115 ∷ [];
  order = pos 0;
  range = by_score (record { min = some 3; max = none; offset = 0; count = negsuc 0 });
}

sorted_set_fetch_by_score-count_example :
    (b : XByScore ℕ) × (all_message.range ≡ by_score b)
    × (b.min ≡ some 3)
    × (b.max ≡ none)
    × CountOf (some (2 ^ 32 - 1)) b.count
unfolding sorted_set_fetch_by_score client_sdk_go.Requester.prepare_name client_sdk_go.Text.to_bytes
sorted_set_fetch_by_score-count_example =
    sorted_set_fetch_by_score-count all_request (pos 0) all_message (omega arith) refl

abbrev one_element : SortedSetElement ℕ
one_element = record { value = string (97 ∷ []); score = 4 }

abbrev put_one : SortedSetPutElementsRequest ℕ
put_one = record {
  cache_name = 99 ∷ [];
  set_name = 115 ∷ [];
  elements = some (one_element ∷ []);
  ttl = none;
}

abbrev board : Leaderboard
board = record { cache_name = 99 ∷ []; leaderboard_name = 108 ∷ [] }

abbrev best : LeaderboardElement ℕ
best = record { id = 7; rank = 0; score = 90 }

abbrev second : LeaderboardElement ℕ
second = record { id = 3; rank = 1; score = 40 }

abbrev third : LeaderboardElement ℕ
third = record { id = 5; rank = 2; score = 10 }

-- The elements in both orders; the ranks count from the end where the order begins.
abbrev rankings : Leaderboard → XOrder → List (LeaderboardElement ℕ)
rankings l descending = best ∷ second ∷ third ∷ []
rankings l ascending =
    record third { rank = 0 } ∷ record second { rank = 1 } ∷ record best { rank = 2 } ∷ []

abbrev ranking_server : AuthServer XGetByRankRequest (List (LeaderboardElement ℕ))
ranking_server h q =
    response (slice q.start_inclusive q.end_exclusive (rankings q.leaderboard q.order))

abbrev ranks : ℕ → ℕ → Result (List (LeaderboardElement ℕ))
ranks start end =
    page status_of go_version ranking_server rankings (λ h q limit. refl) board (some (pos 1)) start
      end init_headers_sent
