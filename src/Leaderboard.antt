-- ===== src/Leaderboard.antt =====
-- Leaderboards: momento/leaderboard_client.go, leaderboard.go, leaderboard_data_client.go and the
-- requests momento/leaderboard_*.go. A score is a float64; its type is a parameter.
pub mod Fetch
pub mod Laws
use Prim.Native.String.{String}
use client_sdk_go.Base.{
  ℕ, zero, suc, ltb, length, leb, ℤ, pos, Bool, true, false, Option, none, some, List, [], ◌∷◌,
  if◌then◌else◌,
}
use client_sdk_go.Text.{GoString, trim_space}
use client_sdk_go.Errors.{
  invalid_argument_error, fixed, labelled, nil_error, new_momento_svc_err, Result, ok, err, ◌>>=◌,
}
use client_sdk_go.Errors.Convert.{FromError}
use client_sdk_go.Metadata.{Headers, HeadersSent, create_leaderboard_metadata}
use client_sdk_go.DataClient.{Reply, response, failure, Exchange}
use client_sdk_go.Protos.{Success, success}
use client_sdk_go.Tokens.Client.{AuthServer, converted, unsent}

-- LeaderboardUpsertElement, which is an _Element as well.
pub record LeaderboardUpsertElement (Score : Type 0) : Type 0 where
  pub id : ℕ
  pub score : Score

-- A leaderboard, and the request for one: the names that the data client is given with each request.
pub record Leaderboard : Type 0 where
  pub cache_name : GoString
  pub leaderboard_name : GoString

-- The messages; each has the names of a leaderboard.
pub record XRemoveElementsRequest : Type 0 where
  pub leaderboard : Leaderboard
  pub ids : List ℕ

pub record XUpsertElementsRequest (Score : Type 0) : Type 0 where
  pub leaderboard : Leaderboard
  pub elements : List (LeaderboardUpsertElement Score)

-- ValidateName of utils/validators.go: the error, or nil.
unfoldable pub validate_name : GoString → String → Result (Unit {0})
unfolding trim_space new_momento_svc_err
validate_name name label =
    if ltb (length (trim_space name)) 1
    then err (
        new_momento_svc_err invalid_argument_error (labelled label "cannot be empty or blank")
          nil_error)
    else ok tt

-- Leaderboard of the client.
unfoldable pub new_leaderboard : Leaderboard → Result Leaderboard
unfolding validate_name
new_leaderboard r = do
  cache ← validate_name r.cache_name "cache name"
  name ← validate_name r.leaderboard_name "leaderboard name"
  ok (record { cache_name = r.cache_name; leaderboard_name = r.leaderboard_name })

-- leaderboardUpsertElementToGrpc.
unfoldable pub leaderboard_upsert_element_to_grpc :
    {Score : Type 0} → List (LeaderboardUpsertElement Score) → List (LeaderboardUpsertElement Score)
leaderboard_upsert_element_to_grpc [] = []
leaderboard_upsert_element_to_grpc (e ∷ es) =
    record { id = e.id; score = e.score } ∷ leaderboard_upsert_element_to_grpc es

module _ (from_error : FromError) (runtime_version : GoString) where
  -- What every method of the data client makes of a reply.
  unfoldable pub read_leaderboard_reply :
      {Resp Out : Type 0} → (Resp → Out) → Reply Resp → Result Out
  unfolding converted
  read_leaderboard_reply f (response resp) = ok (f resp)
  read_leaderboard_reply f (failure e md) = converted from_error e md

  -- The RPC of every method, with its headers.
  unfoldable pub ask :
      {Req Resp Out : Type 0}
      → AuthServer Req Resp
      → Leaderboard
      → Req
      → (Resp → Out)
      → HeadersSent
      → Exchange Req Out
  unfolding create_leaderboard_metadata read_leaderboard_reply
  ask server l req f sent =
      let (headers, sent') = create_leaderboard_metadata runtime_version l.cache_name sent in
      record {
        outcome = read_leaderboard_reply f (server headers req);
        sent = some (headers, req);
        headers_sent = sent';
      }

  -- Delete.
  unfoldable pub leaderboard_delete :
      AuthServer Leaderboard (Unit {0}) → Leaderboard → HeadersSent → Exchange Leaderboard Success
  unfolding ask
  leaderboard_delete server l sent = ask server l l (λ resp. success) sent

  -- Length; the reply and the response are a count.
  unfoldable pub leaderboard_length :
      AuthServer Leaderboard ℕ → Leaderboard → HeadersSent → Exchange Leaderboard ℕ
  unfolding ask
  leaderboard_length server l sent = ask server l l (λ n. n) sent

  -- RemoveElements.
  unfoldable pub leaderboard_remove_elements :
      AuthServer XRemoveElementsRequest (Unit {0})
      → Leaderboard
      → List ℕ
      → HeadersSent
      → Exchange XRemoveElementsRequest Success
  unfolding ask new_momento_svc_err
  leaderboard_remove_elements server l [] sent =
      unsent
        (err (
          new_momento_svc_err invalid_argument_error
            (fixed "List of elements to remove cannot be empty") nil_error))
        sent
  leaderboard_remove_elements server l (i ∷ ids) sent =
      ask server l (record { leaderboard = l; ids = i ∷ ids }) (λ resp. success) sent

  module _ {Score : Type 0} where
    -- Upsert.
    unfoldable pub leaderboard_upsert :
        AuthServer (XUpsertElementsRequest Score) (Unit {0})
        → Leaderboard
        → List (LeaderboardUpsertElement Score)
        → HeadersSent
        → Exchange (XUpsertElementsRequest Score) Success
    unfolding ask new_momento_svc_err leaderboard_upsert_element_to_grpc
    leaderboard_upsert server l [] sent =
        unsent
          (err (
            new_momento_svc_err invalid_argument_error
              (fixed "List of elements to upsert cannot be empty") nil_error))
          sent
    leaderboard_upsert server l (e ∷ es) sent =
        ask server l
          (record { leaderboard = l; elements = leaderboard_upsert_element_to_grpc (e ∷ es) })
          (λ resp. success) sent
