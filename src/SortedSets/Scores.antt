-- ===== src/SortedSets/Scores.antt =====
-- The scores of elements: momento/sorted_set_get_scores.go, sorted_set_get_score.go with its part of
-- momento/cache_client.go, and responses/sorted_set_get_scores.go.
use client_sdk_go.Base.{some, List, [], ◌∷◌, map}
use client_sdk_go.Text.{GoString, Bytes, to_bytes}
use client_sdk_go.Errors.{Result, ok, err, panic, index_out_of_range, ◌>>=◌}
use client_sdk_go.Requester.{
  prepare_name, momento_values_to_primitive_byte_list, err_unexpected_grpc_response,
}
use client_sdk_go.Protos.{ECacheResult, Lookup, found, missing, unset, HitOrMiss}
use client_sdk_go.DataClient.{Requester}
use client_sdk_go.Dictionary.{assign}
use client_sdk_go.Dictionary.Single.{get_cache_name_for_request}
use client_sdk_go.SortedSets.Elements.{
  XSortedSetValuesRequest, SortedSetValuesRequest, SortedSetValueRequest,
}

-- The request that SortedSetGetScore makes, without a test of the value.
unfoldable pub get_score_request : GoString → SortedSetValueRequest → SortedSetValuesRequest
unfolding get_cache_name_for_request
get_score_request default_cache r = record {
  cache_name = get_cache_name_for_request default_cache r.cache_name;
  set_name = r.set_name;
  values = some (r.value ∷ []);
}

-- XSortedSetGetScoreResponsePart.
pub record XScorePart (Score : Type 0) : Type 0 where
  pub result : ECacheResult
  pub score : Score

-- SortedSetGetScoreResponse.
pub data ScoreResponse (Score : Type 0) : Type 0 where
  score_hit : Score → ScoreResponse Score
  score_miss score_invalid : ScoreResponse Score

-- SortedSetGetScoresHit.
pub record GetScoresHit (Score : Type 0) : Type 0 where
  pub responses : List (ScoreResponse Score)
  pub values : List Bytes

module _ {Score : Type 0} where
  -- convertSortedSetScoreElement.
  unfoldable pub score_response : XScorePart Score → ScoreResponse Score
  score_response part = elim part.result [
    | ECacheResult.hit ↦ score_hit part.score
    | ECacheResult.miss ↦ score_miss
    | _ ↦ score_invalid
  ]

  unfoldable pub interpret_get_scores :
      XSortedSetValuesRequest
      → Lookup (List (XScorePart Score))
      → Result (HitOrMiss (GetScoresHit Score))
  unfolding score_response
  interpret_get_scores req (found parts) =
      ok (HitOrMiss.hit (record { responses = map score_response parts; values = req.values }))
  interpret_get_scores req missing = ok HitOrMiss.miss
  interpret_get_scores req unset = err (err_unexpected_grpc_response "Sorted set get score")

  unfoldable pub sorted_set_get_scores :
      SortedSetValuesRequest
      → Requester XSortedSetValuesRequest
          (Lookup (List (XScorePart Score)))
          (HitOrMiss (GetScoresHit Score))
  unfolding interpret_get_scores
  sorted_set_get_scores r = record {
    cache_name = r.cache_name;
    request_name = "Sorted set get score";
    method = "/cache_client.Scs/SortedSetGetScore";
    init_grpc_request = λ default_ttl. do
      name ← prepare_name r.set_name "Set name"
      values ← momento_values_to_primitive_byte_list r.values
      ok (record { set_name = to_bytes r.set_name; values = values });
    interpret_grpc_response = λ req resp. interpret_get_scores req resp;
  }

  -- The switch of SortedSetGetScore on the answer.
  unfoldable pub get_score_response : HitOrMiss (GetScoresHit Score) → Result (ScoreResponse Score)
  get_score_response HitOrMiss.miss = ok score_miss
  get_score_response (HitOrMiss.hit h) = elim h.responses [
    | [] ↦ panic index_out_of_range
    | s ∷ rest ↦ ok s
  ]

  -- ScoresArray.
  unfoldable pub scores_array : List (ScoreResponse Score) → List Score
  scores_array [] = []
  scores_array (score_hit s ∷ rs) = s ∷ scores_array rs
  scores_array (_ ∷ rs) = scores_array rs

  -- ScoresMap, whose loop takes the value of a hit by its index.
  unfoldable pub scores_map :
      List (ScoreResponse Score) → List Bytes → List (Bytes × Score) → Result (List (Bytes × Score))
  unfolding assign
  scores_map [] vs m = ok m
  scores_map (score_hit s ∷ rs) (v ∷ vs) m = scores_map rs vs (assign v s m)
  scores_map (score_hit s ∷ rs) [] m = panic index_out_of_range
  scores_map (_ ∷ rs) (v ∷ vs) m = scores_map rs vs m
  scores_map (_ ∷ rs) [] m = scores_map rs [] m
