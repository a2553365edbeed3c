-- ===== src/Errors/Laws.antt =====
-- What ConvertSvcErr makes of an error: when it panics, which code a status gets, what it keeps.
use client_sdk_go.Base.{◌≡◌, ◌↔◌, ◌⊎◌, some, List, [], ◌∷◌, arith}
use client_sdk_go.Errors.{
  ErrorCode, limit_exceeded_error, cache_not_found_error, store_not_found_error,
  item_not_found_error, cache_already_exists_error, store_already_exists_error, GoError, error_code,
  original_err, ok, panic, index_out_of_range,
}
use client_sdk_go.Errors.Convert.{
  Code, not_found, already_exists, resource_exhausted, Status, Metadata, FromError, first_string,
  determine_limit_exceeded_message_wrapper, not_found_code, already_exists_code, classify,
  from_status, convert_svc_err,
}

-- The trailer has the key "err" with an empty list of strings.
abbrev pub HasEmptyCause : List Metadata → Type 0
HasEmptyCause (header ∷ some [] ∷ more) = Unit
HasEmptyCause _ = ⊥

-- The codes for which the trailer is looked at.
abbrev pub LooksAtTrailer : Code → Type 0
LooksAtTrailer resource_exhausted = Unit
LooksAtTrailer not_found = Unit
LooksAtTrailer already_exists = Unit
LooksAtTrailer _ = ⊥

-- ConvertSvcErr panics on an error with a status exactly if the status is ResourceExhausted, NotFound
-- or AlreadyExists and the trailer's key "err" is there with an empty list; in every other case it
-- returns an error.
pub convert_svc_err-panics :
    (from_error : FromError) (e : GoError) (md : List Metadata) (s : Status)
    → from_error e ≡ some s
    → ((convert_svc_err from_error e md ≡ panic index_out_of_range)
        ↔ (LooksAtTrailer s.code × HasEmptyCause md))
      × ((convert_svc_err from_error e md ≡ panic index_out_of_range)
          ⊎ ((x : GoError) × (convert_svc_err from_error e md ≡ ok x)))
unfolding convert_svc_err from_status classify error_code original_err first_string
    determine_limit_exceeded_message_wrapper not_found_code already_exists_code
convert_svc_err-panics from_error e md s h = ((λ k. ground arith, λ k. ground arith), ground arith)

-- The codes of an error that says that something is missing, or is there already.
abbrev pub NotFoundCode : ErrorCode → Type 0
NotFoundCode c =
    (c ≡ cache_not_found_error) ⊎ ((c ≡ store_not_found_error) ⊎ (c ≡ item_not_found_error))

abbrev pub AlreadyExistsCode : ErrorCode → Type 0
AlreadyExistsCode c = (c ≡ cache_already_exists_error) ⊎ (c ≡ store_already_exists_error)

-- An error that ConvertSvcErr returns for a status keeps the error that it was made from. Its code
-- is that of an exceeded limit exactly if the status is ResourceExhausted, one of those for a missing
-- cache, store or item exactly if it is NotFound, and one of those for an existing cache or store
-- exactly if it is AlreadyExists, whatever the message and the metadata are.
pub convert_svc_err-code :
    (from_error : FromError) (e x : GoError) (md : List Metadata) (s : Status) (c : ErrorCode)
    → from_error e ≡ some s
    → convert_svc_err from_error e md ≡ ok x
    → error_code x ≡ some c
    → (original_err x ≡ e)
      × ((c ≡ limit_exceeded_error) ↔ (s.code ≡ resource_exhausted))
      × (NotFoundCode c ↔ (s.code ≡ not_found))
      × (AlreadyExistsCode c ↔ (s.code ≡ already_exists))
unfolding convert_svc_err from_status classify error_code original_err first_string
    determine_limit_exceeded_message_wrapper not_found_code already_exists_code
convert_svc_err-code from_error e x md s c h k n = (
  ground arith,
  (λ q. ground arith, λ q. ground arith),
  (λ q. ground arith, λ q. ground arith),
  (λ q. ground arith, λ q. ground arith),
)
