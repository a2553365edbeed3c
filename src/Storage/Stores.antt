-- ===== src/Storage/Stores.antt =====
-- momento/storage_client.go: the requests on stores, with CreateStore, DeleteStore and ListStores of
-- internal/services/scs_control_service.go.
use client_sdk_go.Base.{List, [], if◌then◌else◌}
use client_sdk_go.Text.{GoString}
use client_sdk_go.Errors.{
  store_not_found_error, cache_not_found_error, cache_already_exists_error, fixed, nil_error,
  momento_error, error_code, convert_to_customer_error, Result, ok, err, ◌>>=◌,
}
use client_sdk_go.Errors.Convert.{FromError, convert_svc_err}
use client_sdk_go.DataClient.{Reply, response, failure}
use client_sdk_go.Protos.{Success, success}
use client_sdk_go.CacheClient.{ControlReply, done, failed, same_code, unless}
use client_sdk_go.Storage.{is_store_name_valid}

-- ListStoresSuccess.
pub record ListStoresSuccess : Type 0 where
  pub next_token : GoString
  pub stores : List GoString

-- The responses to a request for a new store.
pub data CreateStoreResponse : Type 0 where
  create_store_success create_store_already_exists : CreateStoreResponse

module _ (from_error : FromError) where
  -- CreateStore, and what it makes of the reply.
  unfoldable pub read_created_store : ControlReply → Result CreateStoreResponse
  unfolding same_code error_code unless
  read_created_store done = ok create_store_success
  read_created_store (failed e md) = do
    e' ← convert_svc_err from_error e md
    unless (same_code (error_code e') cache_already_exists_error) create_store_already_exists e'

  unfoldable pub create_store : (GoString → ControlReply) → GoString → Result CreateStoreResponse
  unfolding is_store_name_valid read_created_store
  create_store server name = is_store_name_valid name >>= λ valid. read_created_store (server name)

  -- DeleteStore, and what it makes of the reply.
  unfoldable pub read_deleted_store : ControlReply → Result Success
  unfolding same_code error_code convert_to_customer_error
  read_deleted_store done = ok success
  read_deleted_store (failed e md) = do
    e' ← convert_svc_err from_error e md
    err (
        if same_code (error_code e') cache_not_found_error
        then momento_error store_not_found_error (fixed "Store not found") nil_error
        else convert_to_customer_error e')

  unfoldable pub delete_store : (GoString → ControlReply) → GoString → Result Success
  unfolding is_store_name_valid read_deleted_store
  delete_store server name = is_store_name_valid name >>= λ valid. read_deleted_store (server name)

-- ListStores; like ListCaches it always asks for the first page.
unfoldable pub list_stores :
    FromError → (GoString → Reply ListStoresSuccess) → Result ListStoresSuccess
unfolding convert_to_customer_error
list_stores from_error server = elim (server []) [
  | response page ↦ ok page
  | failure e md ↦ convert_svc_err from_error e md >>= λ e'. err (convert_to_customer_error e')
]
