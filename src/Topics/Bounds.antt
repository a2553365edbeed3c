-- ===== src/Topics/Bounds.antt =====
-- The bound that the topic client keeps on the count of its streams.
use client_sdk_go.Base.{
  ℕ, zero, suc, ℤ, pos, negsuc, lez, succ_ℤ, pred_ℤ-succ_ℤ, ◌≡◌, refl, true, false, none, arith,
}
use client_sdk_go.Text.{GoString}
use client_sdk_go.Errors.Convert.{FromError}
use client_sdk_go.Topics.{
  XSubscriptionRequest, PubSubClient, Opened, max_concurrent_streams, check_num_concurrent_streams,
  get_next_stream_topic_manager, topic_subscribe,
}

-- The count of open streams is at most what the connections have room for.
abbrev pub IsWithin : PubSubClient → Type 0
IsWithin c = lez c.num_grpc_streams (pos (max_concurrent_streams c)) ≡ true

succ-lez : (m : ℕ) (a : ℤ) → lez (pos m) a ≡ false → lez (succ_ℤ a) (pos m) ≡ true
unfolding lez succ_ℤ
succ-lez m (pos n) h = ground arith
succ-lez m (negsuc zero) h = ground arith
succ-lez m (negsuc (suc n)) h = refl

check-none :
    (c : PubSubClient)
    → check_num_concurrent_streams c ≡ none
    → lez (pos (max_concurrent_streams c)) c.num_grpc_streams ≡ false
unfolding check_num_concurrent_streams
check-none c h = ground arith

module _ (from_error : FromError) (runtime_version : GoString) where
  -- A subscription, however it ends, leaves the count of open streams within the bound if it was
  -- within the bound before.
  pub topic_subscribe-IsWithin :
      (req : XSubscriptionRequest) (o : Opened) (c : PubSubClient)
      → IsWithin c
      → IsWithin (topic_subscribe from_error runtime_version req o c).1
  unfolding topic_subscribe get_next_stream_topic_manager max_concurrent_streams
  topic_subscribe-IsWithin req o c h =
      let s = succ-lez (max_concurrent_streams c) c.num_grpc_streams in
      let k = check-none c in ground (arith, h, s, k, pred_ℤ-succ_ℤ c.num_grpc_streams)
