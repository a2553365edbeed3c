-- ===== src/Lib.antt =====
-- Verification of the Momento client SDK for Go: the path of a request from the caller's arguments to
-- the server and back, the subscriptions of the topic client, the tokens that the auth client asks
-- for, and the workers that the batch utilities run.
--
-- The parts, and how they interact. The cache client (momento/cache_client.go) hands a request to the
-- data client of one of its connections. A request of momento (get.go, set.go and so on) implements the
-- interface `requester` of momento/requester.go: its fields are checked by the functions of that file
-- and become a message; scsDataClient.makeRequest (momento/scs_data_client.go) checks the name of the
-- cache, adds the headers of internal/metadata.go, makes the RPC and lets the request read the answer,
-- or converts the error by momentoerrors.ConvertSvcErr (internal/momentoerrors/scs_errors.go). The
-- connection repeats an RPC by the interceptors of internal/interceptor, as the strategies of internal/retry say. The topic client (momento/topic_client.go, pubsub_client.go) opens
-- streams, of which it counts the open ones, and a subscription (topic_subscription.go) reads its
-- stream and opens it again when it is lost. The auth client (momento/auth_client.go) translates scopes
-- of permissions into messages (token_client.go, internal_auth_client.go); the key that comes back is
-- one that auth/credential_provider.go takes apart. The batch utilities (batchutils) spread the calls
-- of the cache client over goroutines.
--
-- The files:
--   Base         the shared names: tests, lists, the integers of Go
--   Text         strings as code points: TrimSpace, ToLower, Contains, UTF-8
--   Errors       momento/error.go, internal/momentoerrors; Errors/Convert: ConvertSvcErr
--   Retry        internal/retry and internal/interceptor/retry_interceptor.go;
--                Retry/Streams: the interceptor of streams
--   Requester    momento/requester.go, momento/value.go, utils/collection_ttl.go
--   Metadata     internal/metadata.go
--   DataClient   makeRequest of momento/scs_data_client.go, over any request
--   Protos       the shapes that the answers of several RPCs share
--   Scalar       the requests on items; Scalar/SetIf: the conditional sets;
--                Scalar/Batch: the batches; Scalar/UpdateTtl: the changes of a TTL
--   Dictionary   the requests momento/dictionary_*.go; Dictionary/Update: those that change one;
--                Dictionary/Single: those for one field, of momento/cache_client.go
--   Sets         the requests momento/set_*.go on sets; Lists: momento/list_*.go
--   SortedSets   momento/sorted_set_*.go; SortedSets/Elements: the elements;
--                SortedSets/Scores: the requests for scores and those that change a set
--   Collections  which of these requests are never repeated
--   Topics       momento/pubsub_client.go; Topics/Subscription: topic_subscription.go;
--                Topics/Client: Subscribe of topic_client.go; Topics/Publish: Publish
--   Leaderboard  momento/leaderboard*.go; Leaderboard/Fetch: the requests for elements
--   Storage      momento/storage_client.go, storage_data_client.go; Storage/Stores: the requests on
--                stores
--   CacheClient  momento/cache_client.go, internal/services/scs_control_service.go
--   BatchUtils   batchutils, the goroutines; BatchUtils/Calls: what its functions prepare and return
--   Credentials  auth/credential_provider.go
--   Permissions  the scopes of momento; Permissions/Grpc: their messages and translation;
--                Permissions/Meaning: what scopes and messages grant
--   Tokens       utils/expiration.go, utils/validators.go; Tokens/Client: the calls
--   Tests        the theorems at concrete inputs
-- A file X/Laws, or one named for what it proves, holds the theorems on X. A function keeps its name,
-- in lower case: `prepare_ttl` is prepareTtl.
--
-- How the code is modelled. A call that returns a value and an error is a `Result`, whose third case is
-- a panic. An error is its code, its message, as the format and its arguments, and the error that it
-- wraps. A Value is nil, a String or Bytes. A duration is an integer of nanoseconds; a conversion to
-- uint64 wraps around. State that the code keeps in a shared variable, the map of sent headers and the
-- client's counters, is passed along; calls are made one after another. Only the goroutines of the
-- batch utilities run interleaved: each operation on a channel is a step of a relation, and a run is
-- a sequence of steps. The fields of the messages are those that the client fills or reads.
--
-- Parameters. grpc's status.FromError and status.Code, runtime.Version, time.Now, the decoding of
-- Base64, JSON and JWT, the type float64 with the tests on it, and the server are arguments of the
-- definitions. What a server answers on a stream, and what becomes of the contexts, is a list of
-- inputs with one entry for each round of the loop that reads it; a loop that has no input left waits.
-- What the client answers to a worker is chosen by the environment. The loops of the interceptors and
-- of Item run on fuel: for the interceptor the number of attempts that the strategy allows, and for
-- Item more than there are inputs, is enough. A run of the batch utilities needs no fuel:
-- its steps are at most three for each item and each worker.
--
-- Not modelled: the connections themselves (internal/grpcmanagers) and the calls that open and close
-- them, configuration and loggers, which hold values and print; generated code; sleeping, but for the
-- time that the interceptors ask for; calls on one client that run at the same time; the conversion of
-- a Go map into a list of elements, whose order Go leaves open; the texts that errors print. The
-- ping stands outside the model.
pub mod Base
pub mod Text
pub mod Errors
pub mod Retry
pub mod Requester
pub mod Metadata
pub mod DataClient
pub mod Protos
pub mod Scalar
pub mod Topics
pub mod Tests
pub mod Dictionary
pub mod Sets
pub mod Lists
pub mod Collections
pub mod BatchUtils
pub mod Permissions
pub mod Credentials
pub mod SortedSets
pub mod CacheClient
pub mod Tokens
pub mod Leaderboard
pub mod Storage
