-- ===== src/Tests/Batches.antt =====
-- A batch get of two keys, made once and then again with other keys.
use client_sdk_go.Base.{◌≡◌, refl, List, [], ◌∷◌}
use client_sdk_go.Text.{Bytes}
use client_sdk_go.Errors.{ok}
use client_sdk_go.Requester.{string}
use client_sdk_go.Protos.{HitOrMiss}
use client_sdk_go.Scalar.{XGetRequest}
use client_sdk_go.Scalar.Batch.{GetBatchRequest, XGetBatchRequest, value_map}
use client_sdk_go.Scalar.Batch.Laws.{paired_hits, sent_keys, get_batch_pairs, get_batch_reused}

abbrev first_use : GetBatchRequest
first_use = record {
  cache_name = 99 ∷ [];
  keys = string (107 ∷ []) ∷ string (108 ∷ []) ∷ [];
  byte_keys = [];
}

abbrev first_message : XGetBatchRequest
first_message = record {
  items = record { cache_key = 107 ∷ [] } ∷ record { cache_key = 108 ∷ [] } ∷ [];
}

abbrev answers : List (HitOrMiss Bytes)
answers = HitOrMiss.miss ∷ HitOrMiss.hit (118 ∷ []) ∷ []

abbrev after_first : GetBatchRequest
after_first = record first_use { byte_keys = (107 ∷ []) ∷ (108 ∷ []) ∷ [] }

get_batch_pairs_example :
    value_map answers ((107 ∷ []) ∷ (108 ∷ []) ∷ [])
    ≡ ok (paired_hits (sent_keys first_message.items) answers)
unfolding client_sdk_go.Scalar.Batch.init_get_batch client_sdk_go.Requester.prepare_name
    client_sdk_go.Text.to_bytes
get_batch_pairs_example = get_batch_pairs first_use first_message after_first answers refl refl refl

abbrev second_use : GetBatchRequest
second_use = record after_first { keys = string (109 ∷ []) ∷ string (110 ∷ []) ∷ [] }

abbrev second_message : XGetBatchRequest
second_message = record {
  items = record { cache_key = 109 ∷ [] } ∷ record { cache_key = 110 ∷ [] } ∷ [];
}

abbrev after_second : GetBatchRequest
after_second = record second_use {
  byte_keys = (107 ∷ []) ∷ (108 ∷ []) ∷ (109 ∷ []) ∷ (110 ∷ []) ∷ [];
}

get_batch_reused_example :
    value_map answers after_second.byte_keys
    ≡ ok (paired_hits ((107 ∷ []) ∷ (108 ∷ []) ∷ []) answers)
unfolding client_sdk_go.Scalar.Batch.init_get_batch client_sdk_go.Requester.prepare_name
    client_sdk_go.Text.to_bytes
get_batch_reused_example = get_batch_reused second_use second_message after_second answers refl refl
