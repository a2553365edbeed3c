-- ===== src/Metadata.antt =====
-- internal/metadata.go: the headers of a request. The first request of each kind of client also
-- carries the agent headers; the map FirstTimeHeadersSent remembers for which kinds they are sent.
pub mod Laws
use Prim.Native.String.{String}
use mathlib.Core.Logic.{ite}
use client_sdk_go.Base.{◌≡◌, Bool, true, false, List, [], ◌∷◌, ◌++◌, if◌then◌else◌}
use client_sdk_go.Text.{GoString, codes}

pub data ClientType : Type 0 where
  cache store leaderboard topic ping auth : ClientType

abbrev pub Headers : Type 0
Headers = List (String × GoString)

-- FirstTimeHeadersSent; `init` stores false for each kind.
abbrev pub HeadersSent : Type 0
HeadersSent = ClientType → Bool

unfoldable pub init_headers_sent : HeadersSent
init_headers_sent client_type = false

unfoldable pub same_client_type : ClientType → ClientType → Bool
same_client_type cache cache = true
same_client_type store store = true
same_client_type leaderboard leaderboard = true
same_client_type topic topic = true
same_client_type ping ping = true
same_client_type auth auth = true
same_client_type _ _ = false

unfoldable pub mark_sent : ClientType → HeadersSent → HeadersSent
unfolding same_client_type
mark_sent client_type sent t = if same_client_type client_type t then true else sent t

-- string(clientType).
unfoldable pub client_type_name : ClientType → GoString
client_type_name cache = codes "cache"
client_type_name store = codes "store"
client_type_name leaderboard = codes "leaderboard"
client_type_name topic = codes "topic"
client_type_name ping = codes "ping"
client_type_name auth = codes "auth"

abbrev pub version : GoString
version = codes "1.33.0"

-- The agent headers; `runtime_version` is runtime.Version().
unfoldable pub first_time_headers : GoString → ClientType → Headers
unfolding client_type_name
first_time_headers runtime_version client_type =
    ("runtime-version", codes "golang:" ++ runtime_version)
    ∷ ("agent", codes "golang:" ++ (client_type_name client_type ++ (codes ":" ++ version)))
    ∷ []

-- CreateMetadata: the headers that are appended, and the map after it.
unfoldable pub create_metadata :
    GoString → ClientType → Headers → HeadersSent → Headers × HeadersSent
unfolding first_time_headers mark_sent
create_metadata runtime_version client_type extra_pairs sent =
    if sent client_type
    then (extra_pairs, sent)
    else (extra_pairs ++ first_time_headers runtime_version client_type, mark_sent client_type sent)

-- CreateCacheMetadata, CreateStoreMetadata and CreateLeaderboardMetadata.
unfoldable pub create_cache_metadata : GoString → GoString → HeadersSent → Headers × HeadersSent
unfolding create_metadata
create_cache_metadata runtime_version cache_name sent =
    create_metadata runtime_version cache (("cache", cache_name) ∷ []) sent

unfoldable pub create_store_metadata : GoString → GoString → HeadersSent → Headers × HeadersSent
unfolding create_metadata
create_store_metadata runtime_version store_name sent =
    create_metadata runtime_version store (("store", store_name) ∷ []) sent

unfoldable pub create_leaderboard_metadata :
    GoString → GoString → HeadersSent → Headers × HeadersSent
unfolding create_metadata
create_leaderboard_metadata runtime_version cache_name sent =
    create_metadata runtime_version leaderboard (("cache", cache_name) ∷ []) sent
