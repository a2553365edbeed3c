-- ===== src/Scalar/Batch.antt =====
-- The batches: momento/get_batch.go and momento/set_batch.go. Their RPC returns a stream, which the
-- request reads to its end; `io_eof` is io.EOF. A GetBatchRequest keeps the bytes of its keys in a
-- field of its own, to which initGrpcRequest appends.
pub mod Laws
use client_sdk_go.Base.{ℕ, ◌+◌, ℤ, List, [], ◌∷◌, ◌++◌}
use client_sdk_go.Text.{GoString, Bytes}
use client_sdk_go.Errors.{index_out_of_range, panic, GoError, nil_error, Result, ok, err, ◌>>=◌}
use client_sdk_go.Errors.Convert.{FromError, convert_svc_err}
use client_sdk_go.Requester.{Value, Key, as_bytes, prepare_name, prepare_ttl}
use client_sdk_go.Protos.{ECacheResult, result_ok, HitOrMiss}
use client_sdk_go.Scalar.{XGetRequest, XGetResponse, XSetRequest}

pub record GetBatchRequest : Type 0 where
  pub cache_name : GoString
  pub keys : List Value
  pub byte_keys : List Bytes

pub record XGetBatchRequest : Type 0 where
  pub items : List XGetRequest

-- What a stream gives until it ends: messages, then io.EOF or another error.
pub data Stream (A : Type 0) : Type 0 where
  io_eof : Stream A
  broken : GoError → Stream A
  receive : A → Stream A → Stream A

-- GetBatchSuccess.
pub record GetBatchSuccess : Type 0 where
  pub responses : List (HitOrMiss Bytes)
  pub keys : List Bytes

-- `key.asBytes()` for each key: the keys are not checked, and a nil key panics.
unfoldable pub all_bytes : List Value → Result (List Bytes)
unfolding as_bytes
all_bytes [] = ok []
all_bytes (key ∷ keys) = do b ← as_bytes key; rest ← all_bytes keys; ok (b ∷ rest)

unfoldable pub get_requests : List Bytes → List XGetRequest
get_requests [] = []
get_requests (b ∷ bs) = record { cache_key = b } ∷ get_requests bs

-- initGrpcRequest of GetBatchRequest: the message, and the request after it.
unfoldable pub init_get_batch : GetBatchRequest → Result (XGetBatchRequest × GetBatchRequest)
unfolding all_bytes get_requests
init_get_batch r = do
  name ← prepare_name r.cache_name "Cache name"
  bs ← all_bytes r.keys
  ok (record { items = get_requests bs }, record r { byte_keys = r.byte_keys ++ bs })

module _ (from_error : FromError) where
  -- ConvertSvcErr(err) as the error that is returned.
  unfoldable pub fail_with {ℓ} : {A : Type ℓ} → GoError → Result A
  fail_with e = convert_svc_err from_error e [] >>= err

  -- The loop of interpretGrpcResponse of GetBatchRequest. In the default arm `err` is nil.
  unfoldable pub read_get_batch : Stream XGetResponse → Result (List (HitOrMiss Bytes))
  unfolding fail_with
  read_get_batch io_eof = ok []
  read_get_batch (broken e) = fail_with e
  read_get_batch (receive resp rest) = elim resp.result [
    | ECacheResult.hit ↦ do more ← read_get_batch rest; ok (HitOrMiss.hit resp.cache_body ∷ more)
    | ECacheResult.miss ↦ do more ← read_get_batch rest; ok (HitOrMiss.miss ∷ more)
    | _ ↦ fail_with nil_error
  ]

  unfoldable pub interpret_get_batch :
      GetBatchRequest → Stream XGetResponse → Result GetBatchSuccess
  unfolding read_get_batch
  interpret_get_batch r stream = do
    rs ← read_get_batch stream
    ok (record { responses = rs; keys = r.byte_keys })

  -- The loop of interpretGrpcResponse of SetBatchRequest: one SetSuccess for each Ok.
  unfoldable pub read_set_batch : Stream ECacheResult → Result ℕ
  unfolding fail_with
  read_set_batch io_eof = ok 0
  read_set_batch (broken e) = fail_with e
  read_set_batch (receive result_ok rest) = do n ← read_set_batch rest; ok (n + 1)
  read_set_batch (receive _ rest) = fail_with nil_error

pub record BatchSetItem : Type 0 where
  pub key : Key
  pub value : Value

pub record SetBatchRequest : Type 0 where
  pub cache_name : GoString
  pub items : List BatchSetItem
  pub ttl : ℤ

pub record XSetBatchRequest : Type 0 where
  pub items : List XSetRequest

-- The requests for the items; a nil key or value panics.
unfoldable pub set_requests : ℕ → List BatchSetItem → Result (List XSetRequest)
unfolding as_bytes
set_requests ttl [] = ok []
set_requests ttl (item ∷ items) = do
  key ← as_bytes item.key
  value ← as_bytes item.value
  rest ← set_requests ttl items
  ok (record { cache_key = key; cache_body = value; ttl_milliseconds = ttl } ∷ rest)

-- initGrpcRequest of SetBatchRequest.
unfoldable pub init_set_batch : ℤ → SetBatchRequest → Result XSetBatchRequest
unfolding set_requests
init_set_batch default_ttl r = do
  name ← prepare_name r.cache_name "Cache name"
  ttl ← prepare_ttl r.ttl default_ttl
  rs ← set_requests ttl r.items
  ok (record { items = rs })

-- ValueMapStringBytes of GetBatchSuccess, as the assignments `ret[keys[idx]] = value` that it makes
-- in their order. A hit past the last key panics.
unfoldable pub value_map : List (HitOrMiss Bytes) → List Bytes → Result (List (Bytes × Bytes))
value_map [] keys = ok []
value_map (HitOrMiss.hit v ∷ rs) [] = panic index_out_of_range
value_map (HitOrMiss.hit v ∷ rs) (k ∷ keys) = do rest ← value_map rs keys; ok ((k, v) ∷ rest)
value_map (HitOrMiss.miss ∷ rs) [] = value_map rs []
value_map (HitOrMiss.miss ∷ rs) (k ∷ keys) = value_map rs keys
