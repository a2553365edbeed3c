-- ===== src/BatchUtils/Calls.antt =====
-- batchutils: BatchGet, BatchSet, BatchDelete and BatchSetIfNotExists. How they prepare the pool and
-- what they make of the results.
use mathlib.Core.Option.{map}
use client_sdk_go.Base.{
  ℕ, zero, suc, ℤ, pos, negsuc, Bool, true, false, Option, none, some, List, [], ◌∷◌, same_text,
  if◌then◌else◌,
}
use client_sdk_go.Errors.{
  GoError, client_sdk_error, fixed, plain, momento_error, Fault, unhashable_key, nil_dereference,
  Result, ok, panic,
}
use client_sdk_go.Requester.{Value, nil_value, string, bytes, Key}
use client_sdk_go.BatchUtils.{Messages, max_concurrent}

-- getRequestTimeout; a duration is its number of nanoseconds.
unfoldable pub get_request_timeout : Option ℤ → ℤ
get_request_timeout none = pos 10000000000
get_request_timeout (some t) = t

-- BatchSetItem.
pub record BatchSetItem : Type 0 where
  pub key : Key
  pub value : Value
  pub ttl : ℤ

-- What a getWorker and a deleteWorker receive: keys, and nil at the end.
abbrev pub key_messages : Messages
key_messages = record { Message = Key; key = λ k. k; stop = nil_value }

-- What a setWorker receives: items, and `BatchSetItem{}` at the end.
abbrev pub item_messages : Messages
item_messages = record {
  Message = BatchSetItem;
  key = λ item. item.key;
  stop = record { key = nil_value; value = nil_value; ttl = pos 0 };
}

-- `make(chan T, n)` panics for a negative capacity. This is the capacity of the channel of BatchDelete;
-- those of BatchGet and BatchSet have the number of items.
unfoldable pub delete_capacity : ℤ → ℕ → Option ℕ
unfolding max_concurrent
delete_capacity requested items = elim (max_concurrent requested items) [
  | pos n ↦ some n
  | negsuc n ↦ none
]

-- getResultOrError and setResultOrError, whose two fields are not both nil.
pub data ResultOrError (Resp : Type 0) : Type 0 where
  result : Resp → ResultOrError Resp
  failed : GoError → ResultOrError Resp

-- Whether a value can be the key of a Go map with an interface as its key type: a slice cannot.
unfoldable pub is_hashable : Value → Bool
is_hashable (bytes b) = false
is_hashable _ = true

-- Equality of two keys that are no slices.
unfoldable pub same_key : Value → Value → Bool
same_key nil_value nil_value = true
same_key (string s) (string t) = same_text s t
same_key _ _ = false

unfoldable pub insert : {Resp : Type 0} → Key → Resp → List (Key × Resp) → List (Key × Resp)
unfolding same_key
insert k v [] = (k, v) ∷ []
insert k v ((j, w) ∷ rest) = if same_key j k then (j, v) ∷ rest else (j, w) ∷ insert k v rest

-- `m[k] = v`; `none` is the panic of a key that is a slice.
unfoldable pub put : {Resp : Type 0} → Key → Resp → List (Key × Resp) → Option (List (Key × Resp))
unfolding is_hashable insert
put k v m = if is_hashable k then some (insert k v m) else none

-- The two maps that BatchGet and BatchSet fill.
pub record Maps (Resp : Type 0) : Type 0 where
  pub responses : List (Key × Resp)
  pub errors : List (Key × GoError)

unfoldable pub no_maps : {Resp : Type 0} → Maps Resp
no_maps = record { responses = []; errors = [] }

-- How the loop that reads the results ends: with its maps, waiting for a result for good, or by a
-- panic.
pub data Reading (Resp : Type 0) : Type 0 where
  returned : Maps Resp → Reading Resp
  blocked : Reading Resp
  panicked : Fault → Reading Resp

-- The body of the loop of BatchGet and BatchSet that reads the results.
unfoldable pub read_one :
    {Resp : Type 0} → Key → ResultOrError Resp → Maps Resp → Option (Maps Resp)
unfolding put
read_one k (result r) maps = map (λ m. record maps { responses = m }) (put k r maps.responses)
read_one k (failed e) maps = map (λ m. record maps { errors = m }) (put k e maps.errors)

-- The loop. All workers have returned, so that no result is added.
unfoldable pub collect :
    {Resp : Type 0} → ℕ → List (Key × ResultOrError Resp) → Maps Resp → Reading Resp
unfolding read_one
collect zero rs maps = returned maps
collect (suc n) [] maps = blocked
collect (suc n) ((k, r) ∷ rs) maps = elim (read_one k r maps) [
  | some m ↦ collect n rs m
  | none ↦ panicked unhashable_key
]

-- The same of BatchDelete, where a worker sends nil for a key that is deleted.
unfoldable pub read_deleted :
    {Resp : Type 0} → Key → ResultOrError Resp → Maps Resp → Option (Maps Resp)
unfolding put
read_deleted k (result r) maps = some maps
read_deleted k (failed e) maps = map (λ m. record maps { errors = m }) (put k e maps.errors)

unfoldable pub collect_errors :
    {Resp : Type 0} → ℕ → List (Key × ResultOrError Resp) → Maps Resp → Reading Resp
unfolding read_deleted
collect_errors zero rs maps = returned maps
collect_errors (suc n) [] maps = blocked
collect_errors (suc n) ((k, r) ∷ rs) maps = elim (read_deleted k r maps) [
  | some m ↦ collect_errors n rs m
  | none ↦ panicked unhashable_key
]

-- An empty map is returned as nil.
unfoldable pub non_empty : {A : Type 0} → List A → Option (List A)
non_empty [] = none
non_empty (x ∷ xs) = some (x ∷ xs)

-- What BatchGet and BatchSet return: the responses and the errors.
abbrev pub BatchResult : Type 0 → Type 0
BatchResult Resp = Option (List (Key × Resp)) × Option (List (Key × GoError))

unfoldable pub batch_result : {Resp : Type 0} → Maps Resp → BatchResult Resp
unfolding non_empty
batch_result maps = (non_empty maps.responses, non_empty maps.errors)

-- ExtractKeys.
unfoldable pub extract_keys : List BatchSetItem → List Key
extract_keys [] = []
extract_keys (item ∷ items) = item.key ∷ extract_keys items

-- CreateErrorMapping.
unfoldable pub create_error_mapping :
    List Key → GoError → List (Key × GoError) → Option (List (Key × GoError))
unfolding put
create_error_mapping [] e m = some m
create_error_mapping (k ∷ ks) e m = elim (put k e m) [
  | some m' ↦ create_error_mapping ks e m'
  | none ↦ none
]

-- What the client's KeysExist gives: the type of its response is that of a success or another one.
pub data KeysExistReply : Type 0 where
  exists : List Bool → KeysExistReply
  other_response : KeysExistReply
  refused : GoError → KeysExistReply

-- What BatchSetIfNotExists returns.
pub data SetIfNotExists (Resp : Type 0) : Type 0 where
  not_stored : SetIfNotExists Resp
  stored : List (Key × Resp) → SetIfNotExists Resp
  errors : List (Key × GoError) → SetIfNotExists Resp

unfoldable pub any_exists : List Bool → Bool
any_exists [] = false
any_exists (true ∷ bs) = true
any_exists (false ∷ bs) = any_exists bs

-- What becomes of an error that is given to all keys.
unfoldable pub fail_all : {Resp : Type 0} → List Key → GoError → Result (SetIfNotExists Resp)
unfolding create_error_mapping
fail_all ks e = elim (create_error_mapping ks e []) [
  | some m ↦ ok (errors m)
  | none ↦ panic unhashable_key
]

-- What BatchSetIfNotExists makes of the result of BatchSet. `Responses()` of a nil response reads
-- a field of it.
unfoldable pub of_batch_set : {Resp : Type 0} → BatchResult Resp → Result (SetIfNotExists Resp)
of_batch_set (responses, some m) = ok (errors m)
of_batch_set (some m, none) = ok (stored m)
of_batch_set (none, none) = panic nil_dereference

-- The rest of BatchSetIfNotExists, once it knows whether a key exists; `none` is a call that never
-- returns.
unfoldable pub set_unless :
    {Resp : Type 0} → Bool → Reading Resp → Option (Result (SetIfNotExists Resp))
unfolding of_batch_set batch_result
set_unless true batch_set = some (ok not_stored)
set_unless false (returned maps) = some (of_batch_set (batch_result maps))
set_unless false blocked = none
set_unless false (panicked fault) = some (panic fault)

-- BatchSetIfNotExists; `batch_set` is the outcome of BatchSet, if it is called.
unfoldable pub batch_set_if_not_exists :
    {Resp : Type 0}
    → List BatchSetItem
    → KeysExistReply
    → Reading Resp
    → Option (Result (SetIfNotExists Resp))
unfolding extract_keys fail_all any_exists set_unless
batch_set_if_not_exists items (refused e) batch_set = some (fail_all (extract_keys items) e)
batch_set_if_not_exists items other_response batch_set = some (
    fail_all (extract_keys items) (
      momento_error client_sdk_error (fixed "Unexpected KeysExistResponse type")
        (plain "Unexpected KeysExistResponse type")))
batch_set_if_not_exists items (exists bs) batch_set = set_unless (any_exists bs) batch_set
