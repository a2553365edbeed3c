-- ===== src/CacheClient.antt =====
-- momento/cache_client.go: the constructor's checks, the choice of a connection, the requests on
-- caches, and how every request on items goes out; with CreateCache, DeleteCache and ListCaches of
-- internal/services/scs_control_service.go.
pub mod Laws
use client_sdk_go.Base.{
  ℕ, zero, suc, ◌&&◌, ltz, ◌+◌, ◌%◌, ◌^◌, ℤ, pos, is_zero, is_negative, is_positive, not, ◌==◌,
  Bool, true, false, Option, none, some, List, [], ◌∷◌, if◌then◌else◌,
}
use client_sdk_go.Text.{GoString}
use client_sdk_go.Errors.{
  ErrorCode, not_found_error, already_exists_error, cache_not_found_error,
  cache_already_exists_error, invalid_argument_error, fixed, GoError, nil_error, is_nil, error_code,
  new_momento_svc_err, convert_to_customer_error, division_by_zero, Result, ok, err, panic, ◌>>=◌,
}
use client_sdk_go.Errors.Convert.{FromError, Metadata, convert_svc_err, new_connection_error}
use client_sdk_go.Metadata.{HeadersSent}
use client_sdk_go.DataClient.{Reply, response, failure, Requester, Server, Exchange, make_request}
use client_sdk_go.Protos.{Success, success}
use client_sdk_go.Dictionary.Single.{get_cache_name_for_request}
use client_sdk_go.Topics.Client.{is_cache_name_valid}

-- What the constructor reads of the configuration, and its other arguments. Durations are int64s.
pub record CacheClientProps : Type 0 where
  pub cache_name : GoString
  pub client_side_timeout : ℤ
  pub num_grpc_channels : ℕ
  pub default_ttl : ℤ
  pub eager_connect_timeout : ℤ

-- What the constructors of the other clients return: the error, or nil. `connect i` is that of
-- Connect on connection i.
pub record Connections : Type 0 where
  pub control_client : GoError
  pub data_client : ℕ → GoError
  pub connect : ℕ → GoError
  pub ping_client : GoError

-- defaultScsClient: its default cache, its default TTL, which the data clients have, and the number of
-- these. The counter of requests is shared by all clients of the program, and an argument.
pub record CacheClient : Type 0 where
  pub default_cache : GoString
  pub default_ttl : ℤ
  pub num_data_clients : ℕ

-- validateEagerConnectionTimeout.
unfoldable pub validate_eager_connection_timeout : ℤ → GoError
unfolding is_negative new_momento_svc_err
validate_eager_connection_timeout timeout =
    if is_negative timeout
    then new_momento_svc_err invalid_argument_error
        (fixed "eager connection timeout must be greater than 0") nil_error
    else nil_error

-- Connect, if it is asked for.
unfoldable pub check_connected : Bool → GoError → Result (Unit {0})
unfolding is_nil new_connection_error
check_connected eager e = if eager && not (is_nil e) then err (new_connection_error e) else ok tt

-- The number of data clients.
unfoldable pub num_channels : ℕ → ℕ
num_channels configured = if configured == 0 then 1 else configured

unfoldable pub check_timeout : ℤ → Result (Unit {0})
unfolding ltz new_momento_svc_err
check_timeout timeout =
    if ltz timeout (pos 1)
    then err (
        new_momento_svc_err invalid_argument_error (fixed "request timeout must be greater than 0")
          nil_error)
    else ok tt

unfoldable pub check_default_ttl : ℤ → Result (Unit {0})
unfolding is_zero new_momento_svc_err convert_to_customer_error
check_default_ttl ttl =
    if is_zero ttl
    then err (
        convert_to_customer_error (
          new_momento_svc_err invalid_argument_error (fixed "Must Define a non zero Default TTL")
            nil_error))
    else ok tt

module _ (from_error : FromError) where
  -- A step of the constructor that has returned an error.
  unfoldable pub check_made : GoError → Result (Unit {0})
  unfolding is_nil convert_svc_err convert_to_customer_error
  check_made e =
      if is_nil e
      then ok tt
      else convert_svc_err from_error e [] >>= λ e'. err (convert_to_customer_error e')

  -- The loop that makes `n` data clients, the first one with the index `i`: how many it has appended.
  unfoldable pub make_data_clients : Connections → Bool → ℕ → ℕ → Result ℕ
  unfolding check_made check_connected
  make_data_clients net eager zero i = ok 0
  make_data_clients net eager (suc n) i = do
    made ← check_made (net.data_client i)
    connected ← check_connected eager (net.connect i)
    more ← make_data_clients net eager n (i + 1)
    ok (more + 1)

  -- commonCacheClient, which the three constructors call.
  unfoldable pub common_cache_client : CacheClientProps → Connections → Result CacheClient
  unfolding check_timeout check_made check_default_ttl validate_eager_connection_timeout
      num_channels make_data_clients is_positive
  common_cache_client props net = do
    timeout ← check_timeout props.client_side_timeout
    control ← check_made net.control_client
    ttl ← check_default_ttl props.default_ttl
    eager ← check_made (validate_eager_connection_timeout props.eager_connect_timeout)
    clients ←
        make_data_clients net (is_positive props.eager_connect_timeout)
          (num_channels props.num_grpc_channels) 0
    ping ← check_made net.ping_client
    ok (record {
      default_cache = props.cache_name;
      default_ttl = props.default_ttl;
      num_data_clients = clients;
    })

-- getNextDataClient: the index of the client, and the counter after it, a uint64.
unfoldable pub get_next_data_client : CacheClient → ℕ → Result (ℕ × ℕ)
get_next_data_client c count =
    let next = (count + 1) % 2 ^ 64 in
    if c.num_data_clients == 0 then panic division_by_zero else ok (next % c.num_data_clients, next)

-- What a method for a request on items gives: the connection, and what happened on it.
pub record Call (Req Out : Type 0) : Type 0 where
  pub connection : ℕ
  pub count : ℕ
  pub exchange : Exchange Req Out

module _ {Req Resp Out : Type 0} (from_error : FromError) (runtime_version : GoString)
    (server : Server Req Resp) where
  -- Increment, Set, Get and the other methods: the default cache stands for an empty name, and the
  -- request is made by the next data client.
  unfoldable pub call :
      CacheClient → Requester Req Resp Out → ℕ → HeadersSent → Result (Call Req Out)
  unfolding get_next_data_client get_cache_name_for_request make_request
  call c r count sent = do
    (i, next) ← get_next_data_client c count
    ok (record {
      connection = i;
      count = next;
      exchange =
          make_request from_error runtime_version server c.default_ttl
            (record r { cache_name = get_cache_name_for_request c.default_cache r.cache_name })
            sent;
    })

-- The responses to a request for a new cache.
pub data CreateCacheResponse : Type 0 where
  create_cache_success create_cache_already_exists : CreateCacheResponse

-- What the RPC of a request on caches returns: nothing, or an error with metadata.
pub data ControlReply : Type 0 where
  done : ControlReply
  failed : GoError → List Metadata → ControlReply

unfoldable pub same_code : Option ErrorCode → ErrorCode → Bool
same_code (some not_found_error) not_found_error = true
same_code (some already_exists_error) already_exists_error = true
same_code _ _ = false

-- The error is returned, but for one code.
unfoldable pub unless : {A : Type 0} → Bool → A → GoError → Result A
unfolding convert_to_customer_error
unless true a e = ok a
unless false a e = err (convert_to_customer_error e)

module _ (from_error : FromError) where
  -- What CreateCache makes of the reply.
  unfoldable pub read_created : ControlReply → Result CreateCacheResponse
  unfolding convert_svc_err same_code error_code unless
  read_created done = ok create_cache_success
  read_created (failed e md) = do
    e' ← convert_svc_err from_error e md
    unless (same_code (error_code e') cache_already_exists_error) create_cache_already_exists e'

  -- CreateCache; the server is given the name.
  unfoldable pub create_cache :
      (GoString → ControlReply) → GoString → GoString → Result CreateCacheResponse
  unfolding is_cache_name_valid get_cache_name_for_request read_created
  create_cache server default_cache name = do
    valid ← is_cache_name_valid (get_cache_name_for_request default_cache name)
    read_created (server (get_cache_name_for_request default_cache name))

  -- What DeleteCache makes of the reply.
  unfoldable pub read_deleted_cache : ControlReply → Result Success
  unfolding convert_svc_err same_code error_code unless
  read_deleted_cache done = ok success
  read_deleted_cache (failed e md) = do
    e' ← convert_svc_err from_error e md
    unless (same_code (error_code e') cache_not_found_error) success e'

  -- DeleteCache.
  unfoldable pub delete_cache : (GoString → ControlReply) → GoString → GoString → Result Success
  unfolding is_cache_name_valid get_cache_name_for_request read_deleted_cache
  delete_cache server default_cache name = do
    valid ← is_cache_name_valid (get_cache_name_for_request default_cache name)
    read_deleted_cache (server (get_cache_name_for_request default_cache name))

-- ListCachesSuccess.
pub record ListCachesSuccess : Type 0 where
  pub next_token : GoString
  pub caches : List GoString

-- ListCaches; it always asks for the first page.
unfoldable pub list_caches :
    FromError → (GoString → Reply ListCachesSuccess) → Result ListCachesSuccess
unfolding convert_svc_err convert_to_customer_error
list_caches from_error server = elim (server []) [
  | response page ↦ ok page
  | failure e md ↦ convert_svc_err from_error e md >>= λ e'. err (convert_to_customer_error e')
]
