-- ===== src/Errors.antt =====
-- The errors of the client: momento/error.go and internal/momentoerrors (types.go,
-- error_messages.go and the codes and constructors of scs_errors.go).
pub mod Convert
pub mod Laws
use Prim.Native.String.{String}
use client_sdk_go.Base.{ℕ, Bool, true, false, ◌≡◌, refl, Option, none, some}
use client_sdk_go.Text.{GoString}

-- The code strings. Two constants that hold one string are one constructor.
pub data ErrorCode : Type 0 where
  invalid_argument_error internal_server_error client_sdk_error bad_request_error : ErrorCode
  canceled_error timeout_error permission_error authentication_error : ErrorCode
  limit_exceeded_error not_found_error store_not_found_error item_not_found_error : ErrorCode
  already_exists_error store_already_exists_error unknown_service_error : ErrorCode
  server_unavailable_error failed_precondition_error connection_error : ErrorCode

abbrev pub cache_not_found_error : ErrorCode
cache_not_found_error = not_found_error

abbrev pub cache_already_exists_error : ErrorCode
cache_already_exists_error = already_exists_error

-- The message wrappers; `of_code` is a code used as its own wrapper.
pub data MessageWrapper : Type 0 where
  topic_subscriptions_limit_exceeded operations_rate_limit_exceeded : MessageWrapper
  throughput_rate_limit_exceeded request_size_limit_exceeded : MessageWrapper
  item_size_limit_exceeded element_size_limit_exceeded unknown_limit_exceeded : MessageWrapper
  invalid_argument_message bad_request_message failed_precondition_message : MessageWrapper
  canceled_message timeout_message permission_message authentication_message : MessageWrapper
  cache_not_found_message store_not_found_message item_not_found_message : MessageWrapper
  cache_already_exists_message store_already_exists_message : MessageWrapper
  unknown_service_error_message internal_server_error_message : MessageWrapper
  server_unavailable_message : MessageWrapper
  of_code : ErrorCode → MessageWrapper

-- A message as the format and the arguments that it is printed from.
pub data Message : Type 0 where
  fixed : String → Message
  labelled : String → String → Message
  unexpected_response : String → Message
  received : GoString → Message
  wrapped : MessageWrapper → Message → Message

-- A value of the type error; `nil_error` is nil. `foreign` are the errors that other packages make.
pub data GoError : Type 0 where
  nil_error : GoError
  svc_error : ErrorCode → Message → GoError → MessageWrapper → GoError
  momento_error : ErrorCode → Message → GoError → GoError
  plain : String → GoError
  foreign : ℕ → GoError

unfoldable pub is_nil : GoError → Bool
is_nil nil_error = true
is_nil _ = false

-- Code(), which the two error types of the client have.
unfoldable pub error_code : GoError → Option ErrorCode
error_code (svc_error code message original wrapper) = some code
error_code (momento_error code message original) = some code
error_code _ = none

-- OriginalErr() of the two.
unfoldable pub original_err : GoError → GoError
original_err (svc_error code message original wrapper) = original
original_err (momento_error code message original) = original
original_err _ = nil_error

-- convertMomentoSvcErrorToCustomerError: `Message()` puts the wrapper before the message.
unfoldable pub convert_to_customer_error : GoError → GoError
convert_to_customer_error (svc_error code message original wrapper) =
    momento_error code (wrapped wrapper message) original
convert_to_customer_error e = e

-- NewMomentoSvcErr.
unfoldable pub new_momento_svc_err : ErrorCode → Message → GoError → GoError
new_momento_svc_err invalid_argument_error message original =
    svc_error invalid_argument_error message original invalid_argument_message
new_momento_svc_err code message original = svc_error code message original (of_code code)

-- What makes a Go call panic.
pub data Fault : Type 0 where
  nil_dereference index_out_of_range unhashable_key division_by_zero : Fault

-- The outcome of a call that returns a value and an error, or panics.
pub data Result {ℓ} (A : Type ℓ) : Type ℓ where
  ok : A → Result A
  err : GoError → Result A
  panic : Fault → Result A

-- What follows a call runs only if the call returned a value.
infixl 5 ◌>>=◌ ◌>>◌
abbrev pub ◌>>=◌ {ℓ κ} : {X : Type ℓ} {Y : Type κ} → Result X → (X → Result Y) → Result Y
(panic fault) >>= next = panic fault
(err failed) >>= next = err failed
(ok x) >>= next = next x

abbrev pub ◌>>◌ {κ} : {Y : Type κ} → Result (Unit {0}) → Result Y → Result Y
check >> rest = check >>= λ done. rest

pub >>=-ok {ℓ κ} :
    {A : Type ℓ} {B : Type κ} (r : Result A) (f : A → Result B) (b : B)
    → (r >>= f) ≡ ok b
    → (a : A) × (r ≡ ok a) × (f a ≡ ok b)
>>=-ok (ok a) f b h = (a, refl, h)
>>=-ok (err e) f b h = absurd cc
>>=-ok (panic p) f b h = absurd cc
