-- ===== src/Leaderboard/Fetch.antt =====
-- The requests for the elements of a leaderboard, of momento/leaderboard.go and
-- leaderboard_data_client.go. A score is a float64; its type is a parameter, with its ≥.
use client_sdk_go.Base.{
  ℕ, zero, suc, leb, ℤ, pos, Bool, false, Option, none, some, List, [], ◌∷◌, if◌then◌else◌,
}
use client_sdk_go.Text.{GoString}
use client_sdk_go.Errors.{invalid_argument_error, fixed, nil_error, new_momento_svc_err, err}
use client_sdk_go.Errors.Convert.{FromError}
use client_sdk_go.Metadata.{HeadersSent}
use client_sdk_go.DataClient.{Exchange}
use client_sdk_go.Tokens.Client.{AuthServer, unsent}
use client_sdk_go.Leaderboard.{Leaderboard, ask}

-- LeaderboardOrder, an int: ASCENDING is 0, DESCENDING is 1.
abbrev pub LeaderboardOrder : Type 0
LeaderboardOrder = ℤ

-- LeaderboardElement, which is an _RankedElement as well.
pub record LeaderboardElement (Score : Type 0) : Type 0 where
  pub id : ℕ
  pub rank : ℕ
  pub score : Score

pub record LeaderboardFetchByRankRequest : Type 0 where
  pub start_rank : ℕ
  pub end_rank : ℕ
  pub order : Option LeaderboardOrder

pub record LeaderboardFetchByScoreRequest (Score : Type 0) : Type 0 where
  pub min_score : Option Score
  pub max_score : Option Score
  pub order : Option LeaderboardOrder
  pub offset : Option ℕ
  pub count : Option ℕ

pub record LeaderboardGetRankRequest : Type 0 where
  pub ids : List ℕ
  pub order : Option LeaderboardOrder

pub data XOrder : Type 0 where
  ascending descending : XOrder

-- The messages; each has the names of a leaderboard.
pub record XGetByRankRequest : Type 0 where
  pub leaderboard : Leaderboard
  pub start_inclusive : ℕ
  pub end_exclusive : ℕ
  pub order : XOrder

-- The bounds of the range: `none` is an unbounded one.
pub record XScoreRange (Score : Type 0) : Type 0 where
  pub min_inclusive : Option Score
  pub max_exclusive : Option Score

pub record XGetByScoreRequest (Score : Type 0) : Type 0 where
  pub leaderboard : Leaderboard
  pub score_range : XScoreRange Score
  pub offset : ℕ
  pub limit_elements : ℕ
  pub order : XOrder

pub record XGetRankRequest : Type 0 where
  pub leaderboard : Leaderboard
  pub ids : List ℕ
  pub order : XOrder

-- The order of a message: descending only where the request asks for it.
unfoldable pub leaderboard_order : Option LeaderboardOrder → XOrder
leaderboard_order (some (pos (suc zero))) = descending
leaderboard_order _ = ascending

-- A field that has a default.
unfoldable pub or_default : ℕ → Option ℕ → ℕ
or_default d (some n) = n
or_default d none = d

-- leaderboardFetchGrpcElementToModel.
unfoldable pub leaderboard_fetch_grpc_element_to_model :
    {Score : Type 0} → List (LeaderboardElement Score) → List (LeaderboardElement Score)
leaderboard_fetch_grpc_element_to_model [] = []
leaderboard_fetch_grpc_element_to_model (e ∷ es) =
    record { id = e.id; rank = e.rank; score = e.score }
    ∷ leaderboard_fetch_grpc_element_to_model es

module _ (from_error : FromError) (runtime_version : GoString) where
  module _ {Score : Type 0} where
    -- GetRank.
    unfoldable pub leaderboard_get_rank :
        AuthServer XGetRankRequest (List (LeaderboardElement Score))
        → Leaderboard
        → LeaderboardGetRankRequest
        → HeadersSent
        → Exchange XGetRankRequest (List (LeaderboardElement Score))
    unfolding ask leaderboard_order leaderboard_fetch_grpc_element_to_model
    leaderboard_get_rank server l r sent =
        ask from_error runtime_version server l
          (record { leaderboard = l; ids = r.ids; order = leaderboard_order r.order })
          leaderboard_fetch_grpc_element_to_model sent

    -- FetchByRank; ranks are uint32s.
    unfoldable pub leaderboard_fetch_by_rank :
        AuthServer XGetByRankRequest (List (LeaderboardElement Score))
        → Leaderboard
        → LeaderboardFetchByRankRequest
        → HeadersSent
        → Exchange XGetByRankRequest (List (LeaderboardElement Score))
    unfolding ask leaderboard_order leaderboard_fetch_grpc_element_to_model new_momento_svc_err
    leaderboard_fetch_by_rank server l r sent =
        if leb r.end_rank r.start_rank
        then unsent
            (err (
              new_momento_svc_err invalid_argument_error
                (fixed "start rank must be less than end rank") nil_error))
            sent
        else ask from_error runtime_version server l
            (record {
              leaderboard = l;
              start_inclusive = r.start_rank;
              end_exclusive = r.end_rank;
              order = leaderboard_order r.order;
            })
            leaderboard_fetch_grpc_element_to_model sent

    module _ (ge : Score → Score → Bool) where
      -- Whether both bounds are given and the lower one is not below the upper one.
      unfoldable pub empty_range : Option Score → Option Score → Bool
      empty_range (some low) (some high) = ge low high
      empty_range _ _ = false

      -- FetchByScore; the offset and the count are uint32s.
      unfoldable pub leaderboard_fetch_by_score :
          AuthServer (XGetByScoreRequest Score) (List (LeaderboardElement Score))
          → Leaderboard
          → LeaderboardFetchByScoreRequest Score
          → HeadersSent
          → Exchange (XGetByScoreRequest Score) (List (LeaderboardElement Score))
      unfolding ask leaderboard_order or_default leaderboard_fetch_grpc_element_to_model
          new_momento_svc_err empty_range
      leaderboard_fetch_by_score server l r sent =
          if empty_range r.min_score r.max_score
          then unsent
              (err (
                new_momento_svc_err invalid_argument_error
                  (fixed "min score must be less than max score") nil_error))
              sent
          else ask from_error runtime_version server l
              (record {
                leaderboard = l;
                score_range = record { min_inclusive = r.min_score; max_exclusive = r.max_score };
                offset = or_default 0 r.offset;
                limit_elements = or_default 8192 r.count;
                order = leaderboard_order r.order;
              })
              leaderboard_fetch_grpc_element_to_model sent
