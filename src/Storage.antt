-- ===== src/Storage.antt =====
-- momento/storage_client.go and storage_data_client.go: the items of stores.
pub mod Stores
pub mod Laws
use client_sdk_go.Base.{
  ℕ, ◌+◌, ◌%◌, ◌^◌, ltb, length, ◌==◌, ℤ, Bool, true, false, Option, none, some, List, [],
  if◌then◌else◌,
}
use client_sdk_go.Text.{GoString, Bytes, trim_space}
use client_sdk_go.Errors.{
  ErrorCode, item_not_found_error, store_not_found_error, cache_not_found_error,
  cache_already_exists_error, invalid_argument_error, unknown_service_error, fixed, GoError,
  nil_error, momento_error, error_code, new_momento_svc_err, convert_to_customer_error,
  division_by_zero, nil_dereference, Result, ok, err, panic, ◌>>=◌,
}
use client_sdk_go.Errors.Convert.{FromError, convert_svc_err}
use client_sdk_go.Metadata.{Headers, HeadersSent, create_store_metadata}
use client_sdk_go.Requester.{prepare_name}
use client_sdk_go.DataClient.{Reply, response, failure}
use client_sdk_go.Protos.{Success, success}
use client_sdk_go.CacheClient.{ControlReply, done, failed, same_code, unless}

-- storageTypes.Value: nil, the four types of the package, or another one with their methods, such as a
-- pointer to one of them. A float64 is a parameter.
pub data StorageValue (Float : Type 0) : Type 0 where
  nil_storage_value other_storage_value : StorageValue Float
  storage_bytes : Bytes → StorageValue Float
  storage_string : GoString → StorageValue Float
  storage_float : Float → StorageValue Float
  storage_int : ℤ → StorageValue Float

-- The oneof of _StoreValue, which may be unset.
pub data XStoreValue (Float : Type 0) : Type 0 where
  unset_value : XStoreValue Float
  bytes_value : Bytes → XStoreValue Float
  string_value : GoString → XStoreValue Float
  double_value : Float → XStoreValue Float
  integer_value : ℤ → XStoreValue Float

pub record StoragePutRequest (Float : Type 0) : Type 0 where
  pub store_name : GoString
  pub key : GoString
  pub value : StorageValue Float

-- StorageGetRequest and StorageDeleteRequest; the key is the message.
pub record StorageKeyRequest : Type 0 where
  pub store_name : GoString
  pub key : GoString

pub record XStorePutRequest (Float : Type 0) : Type 0 where
  pub key : GoString
  pub value : XStoreValue Float

-- The counter of requests, a uint64 that all storage clients share, and the map of sent headers.
pub record StorageState : Type 0 where
  pub count : ℕ
  pub headers_sent : HeadersSent

-- A finished call: its outcome, the RPC with the index of its connection, if it was made, and the
-- state after it.
pub record Stored (Req Out : Type 0) : Type 0 where
  pub outcome : Result Out
  pub sent : Option (ℕ × Headers × Req)
  pub state : StorageState

-- The servers behind the connections.
abbrev pub StoreServer : Type 0 → Type 0 → Type 0
StoreServer Req Resp = ℕ → Headers → Req → Reply Resp

-- isStoreNameValid: the error, or nil.
unfoldable pub is_store_name_valid : GoString → Result (Unit {0})
unfolding trim_space
is_store_name_valid name =
    if ltb (length (trim_space name)) 1
    then err (momento_error invalid_argument_error (fixed "Store name cannot be empty") nil_error)
    else ok tt

-- The checks of every request on an item.
unfoldable pub check_names : GoString → GoString → Result (Unit {0})
unfolding is_store_name_valid prepare_name
check_names store key = do valid ← is_store_name_valid store; name ← prepare_name key "Key"; ok tt

module _ {Float : Type 0} where
  -- The value that put sends.
  unfoldable pub to_store_value : StorageValue Float → XStoreValue Float
  to_store_value (storage_bytes b) = bytes_value b
  to_store_value (storage_string s) = string_value s
  to_store_value (storage_float x) = double_value x
  to_store_value (storage_int n) = integer_value n
  to_store_value _ = unset_value

  -- The value that get returns.
  unfoldable pub of_store_value : XStoreValue Float → Result (StorageValue Float)
  unfolding new_momento_svc_err convert_to_customer_error
  of_store_value (bytes_value b) = ok (storage_bytes b)
  of_store_value (string_value s) = ok (storage_string s)
  of_store_value (double_value x) = ok (storage_float x)
  of_store_value (integer_value n) = ok (storage_int n)
  of_store_value unset_value = err (
      convert_to_customer_error
        (new_momento_svc_err unknown_service_error (fixed "Unknown store value type") nil_error))

  -- The message of Put, of a value that is not nil.
  unfoldable pub value_message : GoString → StorageValue Float → Result (XStorePutRequest Float)
  unfolding to_store_value
  value_message key nil_storage_value =
      err (momento_error invalid_argument_error (fixed "Value cannot be nil") nil_error)
  value_message key v = ok (record { key = key; value = to_store_value v })

  -- The checks of Put, and its message.
  unfoldable pub put_message : StoragePutRequest Float → Result (XStorePutRequest Float)
  unfolding check_names value_message
  put_message r = check_names r.store_name r.key >>= λ valid. value_message r.key r.value

unfoldable pub is_item_not_found : Option ErrorCode → Bool
is_item_not_found (some item_not_found_error) = true
is_item_not_found _ = false

module _ (from_error : FromError) where
  -- What Put and Delete make of a reply.
  unfoldable pub read_stored : Reply (Unit {0}) → Result Success
  unfolding convert_to_customer_error
  read_stored (response r) = ok success
  read_stored (failure e md) =
      convert_svc_err from_error e md >>= λ e'. err (convert_to_customer_error e')

  -- What Get makes of a reply: a missing item is the value nil. A reply without a value is a nil
  -- pointer, which is read.
  unfoldable pub read_value :
      {Float : Type 0} → Reply (Option (XStoreValue Float)) → Result (StorageValue Float)
  unfolding of_store_value is_item_not_found error_code unless
  read_value (response none) = panic nil_dereference
  read_value (response (some v)) = of_store_value v
  read_value (failure e md) = do
    e' ← convert_svc_err from_error e md
    unless (is_item_not_found (error_code e')) nil_storage_value e'

-- getNextStorageDataClient, of `n` clients: the index of the client, and the counter after it.
unfoldable pub get_next_storage_data_client : ℕ → ℕ → Result (ℕ × ℕ)
get_next_storage_data_client n count =
    let next = (count + 1) % 2 ^ 64 in
    if n == 0 then panic division_by_zero else ok (next % n, next)

module _ {Req Resp Out : Type 0} (runtime_version : GoString) (server : StoreServer Req Resp)
    (read : Reply Resp → Result Out) (store : GoString) where
  -- An RPC on the next connection, with its headers.
  unfoldable pub store_on : Req → StorageState → Result (ℕ × ℕ) → Stored Req Out
  unfolding create_store_metadata
  store_on q st (ok (i, next)) =
      let (headers, sent) = create_store_metadata runtime_version store st.headers_sent in
      record {
        outcome = read (server i headers q);
        sent = some (i, headers, q);
        state = record { count = next; headers_sent = sent };
      }
  store_on q st (err e) = record { outcome = err e; sent = none; state = st }
  store_on q st (panic p) = record { outcome = panic p; sent = none; state = st }

  -- A call whose message is made, if the checks are passed.
  unfoldable pub store_call : ℕ → Result Req → StorageState → Stored Req Out
  unfolding store_on get_next_storage_data_client
  store_call n (ok q) st = store_on q st (get_next_storage_data_client n st.count)
  store_call n (err e) st = record { outcome = err e; sent = none; state = st }
  store_call n (panic p) st = record { outcome = panic p; sent = none; state = st }

module _ (from_error : FromError) (runtime_version : GoString) where
  -- Put.
  unfoldable pub storage_put :
      {Float : Type 0}
      → StoreServer (XStorePutRequest Float) (Unit {0})
      → ℕ
      → StoragePutRequest Float
      → StorageState
      → Stored (XStorePutRequest Float) Success
  unfolding store_call put_message read_stored
  storage_put server n r st =
      store_call runtime_version server (read_stored from_error) r.store_name n (put_message r) st

  -- Get. With every error the response is the value nil.
  unfoldable pub storage_get :
      {Float : Type 0}
      → StoreServer GoString (Option (XStoreValue Float))
      → ℕ
      → StorageKeyRequest
      → StorageState
      → Stored GoString (StorageValue Float)
  unfolding store_call check_names read_value
  storage_get server n r st =
      store_call runtime_version server (read_value from_error) r.store_name n
        (check_names r.store_name r.key >>= λ valid. ok r.key) st

  -- Delete.
  unfoldable pub storage_delete :
      StoreServer GoString (Unit {0})
      → ℕ
      → StorageKeyRequest
      → StorageState
      → Stored GoString Success
  unfolding store_call check_names read_stored
  storage_delete server n r st =
      store_call runtime_version server (read_stored from_error) r.store_name n
        (check_names r.store_name r.key >>= λ valid. ok r.key) st
