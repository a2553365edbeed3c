-- ===== src/SortedSets.antt =====
-- The requests that read a sorted set: momento/sorted_set_fetch_by_rank.go,
-- sorted_set_fetch_by_score.go, sorted_set_length.go and sorted_set_length_by_score.go. A score is a
-- float64; its type is a parameter.
pub mod Elements
pub mod Scores
pub mod Laws
use Prim.Native.String.{String}
use client_sdk_go.Base.{
  ℕ, ℤ, pos, negsuc, to_signed, to_unsigned, Bool, true, false, Option, none, some, List, [], ◌∷◌,
}
use client_sdk_go.Text.{GoString, Bytes, to_bytes}
use client_sdk_go.Errors.{Result, ok, err, panic, nil_dereference, ◌>>=◌}
use client_sdk_go.Requester.{prepare_name, validate_sorted_set_ranks, err_unexpected_grpc_response}
use client_sdk_go.Protos.{Lookup, found, missing, unset, HitOrMiss, interpret_lookup}
use client_sdk_go.DataClient.{Requester}

-- SortedSetOrder, an int: ASCENDING is 0, DESCENDING is 1.
abbrev pub SortedSetOrder : Type 0
SortedSetOrder = ℤ

-- XSortedSetElement, and SortedSetBytesElement of the package responses.
pub record XSortedSetElement (Score : Type 0) : Type 0 where
  pub value : Bytes
  pub score : Score

-- A bound of a range; `none` is an unbounded one.
pub record XByIndex : Type 0 where
  pub start : Option ℤ
  pub end : Option ℤ

-- The bounds by score are inclusive.
pub record XByScore (Score : Type 0) : Type 0 where
  pub min : Option Score
  pub max : Option Score
  pub offset : ℕ
  pub count : ℤ

pub data XRange (Score : Type 0) : Type 0 where
  by_index : XByIndex → XRange Score
  by_score : XByScore Score → XRange Score

-- XSortedSetFetchRequest; `WithScores` is always true. The order is converted to the enum, an int32.
pub record XSortedSetFetchRequest (Score : Type 0) : Type 0 where
  pub set_name : Bytes
  pub order : ℤ
  pub range : XRange Score

-- The oneof of XSortedSetFetchResponse_XFound.
pub data XFoundElements (Score : Type 0) : Type 0 where
  values_with_scores : List (XSortedSetElement Score) → XFoundElements Score
  values_only : List Bytes → XFoundElements Score
  no_elements : XFoundElements Score

pub record SortedSetFetchByRankRequest : Type 0 where
  pub cache_name : GoString
  pub set_name : GoString
  pub order : SortedSetOrder
  pub start_rank : Option ℤ
  pub end_rank : Option ℤ

pub record SortedSetFetchByScoreRequest (Score : Type 0) : Type 0 where
  pub cache_name : GoString
  pub set_name : GoString
  pub order : SortedSetOrder
  pub min_score : Option Score
  pub max_score : Option Score
  pub offset : Option ℕ
  pub count : Option ℕ

-- SortedSetLengthRequest.
pub record SortedSetLengthRequest : Type 0 where
  pub cache_name : GoString
  pub set_name : GoString

pub record SortedSetLengthByScoreRequest (Score : Type 0) : Type 0 where
  pub cache_name : GoString
  pub set_name : GoString
  pub min_score : Option Score
  pub max_score : Option Score

pub record XSortedSetLengthRequest : Type 0 where
  pub set_name : Bytes

pub record XSortedSetLengthByScoreRequest (Score : Type 0) : Type 0 where
  pub set_name : Bytes
  pub min : Option Score
  pub max : Option Score

-- The conversion of the order to the enum.
unfoldable pub to_enum : SortedSetOrder → ℤ
unfolding to_signed to_unsigned
to_enum o = to_signed 31 (to_unsigned 32 o)

-- The check of the ranks: none if there is no end, and the start 0 if there is none.
unfoldable pub check_ranks : Option ℤ → Option ℤ → Result (Unit {0})
unfolding validate_sorted_set_ranks
check_ranks start none = ok tt
check_ranks none (some e) = validate_sorted_set_ranks (pos 0) e
check_ranks (some s) (some e) = validate_sorted_set_ranks s e

-- int32 of the count, and -1 for none.
unfoldable pub sent_count : Option ℕ → ℤ
unfolding to_signed
sent_count none = negsuc 0
sent_count (some n) = to_signed 31 n

unfoldable pub sent_offset : Option ℕ → ℕ
sent_offset none = 0
sent_offset (some n) = n

module _ {Score : Type 0} where
  -- `Found.GetValuesWithScores().Elements`: the getter gives nil where the oneof holds no scores.
  unfoldable pub found_elements : XFoundElements Score → Result (List (XSortedSetElement Score))
  found_elements (values_with_scores es) = ok es
  found_elements _ = panic nil_dereference

  -- interpretGrpcResponse of both requests; the conversion to the model copies the elements.
  unfoldable pub interpret_sorted_set_fetch :
      Lookup (XFoundElements Score) → Result (HitOrMiss (List (XSortedSetElement Score)))
  unfolding found_elements
  interpret_sorted_set_fetch (found f) = do es ← found_elements f; ok (HitOrMiss.hit es)
  interpret_sorted_set_fetch missing = ok HitOrMiss.miss
  interpret_sorted_set_fetch unset = err (err_unexpected_grpc_response "Sorted set fetch")

  unfoldable pub sorted_set_fetch_by_rank :
      SortedSetFetchByRankRequest
      → Requester
          (XSortedSetFetchRequest Score)
          (Lookup (XFoundElements Score))
          (HitOrMiss (List (XSortedSetElement Score)))
  unfolding interpret_sorted_set_fetch check_ranks to_enum
  sorted_set_fetch_by_rank r = record {
    cache_name = r.cache_name;
    request_name = "Sorted set fetch";
    method = "/cache_client.Scs/SortedSetFetch";
    init_grpc_request = λ default_ttl. do
      name ← prepare_name r.set_name "Set name"
      checked ← check_ranks r.start_rank r.end_rank
      ok (record {
        set_name = to_bytes r.set_name;
        order = to_enum r.order;
        range = by_index (record { start = r.start_rank; end = r.end_rank });
      });
    interpret_grpc_response = λ req resp. interpret_sorted_set_fetch resp;
  }

  unfoldable pub sorted_set_fetch_by_score :
      SortedSetFetchByScoreRequest Score
      → Requester
          (XSortedSetFetchRequest Score)
          (Lookup (XFoundElements Score))
          (HitOrMiss (List (XSortedSetElement Score)))
  unfolding interpret_sorted_set_fetch sent_count sent_offset to_enum
  sorted_set_fetch_by_score r = record {
    cache_name = r.cache_name;
    request_name = "Sorted set fetch";
    method = "/cache_client.Scs/SortedSetFetch";
    init_grpc_request = λ default_ttl. do
      name ← prepare_name r.set_name "Set name"
      ok (record {
        set_name = to_bytes r.set_name;
        order = to_enum r.order;
        range = by_score (record {
          min = r.min_score;
          max = r.max_score;
          offset = sent_offset r.offset;
          count = sent_count r.count;
        });
      });
    interpret_grpc_response = λ req resp. interpret_sorted_set_fetch resp;
  }

  unfoldable pub sorted_set_length_by_score :
      SortedSetLengthByScoreRequest Score
      → Requester (XSortedSetLengthByScoreRequest Score) (Lookup ℕ) (HitOrMiss ℕ)
  unfolding interpret_lookup
  sorted_set_length_by_score r = record {
    cache_name = r.cache_name;
    request_name = "SortedSetLengthByScore";
    method = "/cache_client.Scs/SortedSetLengthByScore";
    init_grpc_request = λ default_ttl. do
      name ← prepare_name r.set_name "Set name"
      ok (record { set_name = to_bytes r.set_name; min = r.min_score; max = r.max_score });
    interpret_grpc_response = λ req resp. interpret_lookup "SortedSetLengthByScore" resp;
  }

unfoldable pub sorted_set_length :
    SortedSetLengthRequest → Requester XSortedSetLengthRequest (Lookup ℕ) (HitOrMiss ℕ)
unfolding interpret_lookup
sorted_set_length r = record {
  cache_name = r.cache_name;
  request_name = "SortedSetLength";
  method = "/cache_client.Scs/SortedSetLength";
  init_grpc_request = λ default_ttl. do
    name ← prepare_name r.set_name "Set name"
    ok (record { set_name = to_bytes r.set_name });
  interpret_grpc_response = λ req resp. interpret_lookup "SortedSetLength" resp;
}
