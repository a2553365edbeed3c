-- ===== src/Errors/Convert.antt =====
-- ConvertSvcErr and determineLimitExceededMessageWrapper of internal/momentoerrors/scs_errors.go.
-- google.golang.org/grpc/status.FromError is a parameter.
use client_sdk_go.Base.{ℕ, Option, none, some, List, [], ◌∷◌, same_text, if◌then◌else◌}
use client_sdk_go.Text.{GoString, codes, to_lower, contains}
use client_sdk_go.Errors.{
  ErrorCode, invalid_argument_error, internal_server_error, client_sdk_error, bad_request_error,
  canceled_error, timeout_error, permission_error, authentication_error, limit_exceeded_error,
  store_not_found_error, item_not_found_error, store_already_exists_error, unknown_service_error,
  server_unavailable_error, failed_precondition_error, cache_not_found_error,
  cache_already_exists_error, connection_error, MessageWrapper, topic_subscriptions_limit_exceeded,
  operations_rate_limit_exceeded, throughput_rate_limit_exceeded, request_size_limit_exceeded,
  item_size_limit_exceeded, element_size_limit_exceeded, unknown_limit_exceeded,
  invalid_argument_message, bad_request_message, failed_precondition_message, canceled_message,
  timeout_message, permission_message, authentication_message, cache_not_found_message,
  store_not_found_message, item_not_found_message, cache_already_exists_message,
  store_already_exists_message, unknown_service_error_message, internal_server_error_message,
  server_unavailable_message, fixed, received, GoError, svc_error, new_momento_svc_err, Result, ok,
  panic, index_out_of_range, ◌>>=◌,
}

-- The gRPC status codes; `unassigned` is any other number.
pub data Code : Type 0 where
  ok_code canceled unknown invalid_argument deadline_exceeded not_found already_exists : Code
  permission_denied resource_exhausted failed_precondition aborted out_of_range : Code
  unimplemented internal unavailable data_loss unauthenticated : Code
  unassigned : ℕ → Code

pub record Status : Type 0 where
  pub code : Code
  pub message : GoString

-- The value of the key "err" in one metadata map: absent, or its list of strings.
abbrev pub Metadata : Type 0
Metadata = Option (List GoString)

-- status.FromError: the status that an error carries, if there is one.
abbrev pub FromError : Type 0
FromError = GoError → Option Status

-- The arm of `errData[0]` when the key is there. An empty list of strings has no element 0.
unfoldable pub first_string : List GoString → Result GoString
first_string [] = panic index_out_of_range
first_string (s ∷ rest) = ok s

-- The switch on `errData[0]`.
unfoldable pub limit_cause : GoString → MessageWrapper
limit_cause c =
    if same_text c (codes "topic_subscriptions_limit_exceeded")
    then topic_subscriptions_limit_exceeded
    else if same_text c (codes "operations_rate_limit_exceeded")
    then operations_rate_limit_exceeded
    else if same_text c (codes "throughput_rate_limit_exceeded")
    then throughput_rate_limit_exceeded
    else if same_text c (codes "request_size_limit_exceeded")
    then request_size_limit_exceeded
    else if same_text c (codes "item_size_limit_exceeded")
    then item_size_limit_exceeded
    else if same_text c (codes "element_size_limit_exceeded")
    then element_size_limit_exceeded
    else unknown_limit_exceeded

-- The tests on the lower-cased message.
unfoldable pub limit_text : GoString → MessageWrapper
limit_text lower =
    if contains lower (codes "subscribers")
    then topic_subscriptions_limit_exceeded
    else if contains lower (codes "operations")
    then operations_rate_limit_exceeded
    else if contains lower (codes "throughput")
    then throughput_rate_limit_exceeded
    else if contains lower (codes "request limit")
    then request_size_limit_exceeded
    else if contains lower (codes "item size")
    then item_size_limit_exceeded
    else if contains lower (codes "element size")
    then element_size_limit_exceeded
    else unknown_limit_exceeded

-- The metadata are those of the header and of the trailer; only the second is looked at.
unfoldable pub determine_limit_exceeded_message_wrapper :
    GoString → List Metadata → Result MessageWrapper
unfolding first_string
determine_limit_exceeded_message_wrapper message (header ∷ some data_err ∷ more) = do
  cause ← first_string data_err
  ok (if same_text cause [] then limit_text (to_lower message) else limit_cause cause)
determine_limit_exceeded_message_wrapper message metadata = ok (limit_text (to_lower message))

-- The arm for NotFound.
unfoldable pub not_found_code : List Metadata → Result (ErrorCode × MessageWrapper)
unfolding first_string
not_found_code (header ∷ some data_err ∷ more) = do
  cause ← first_string data_err
  ok (
      if same_text cause (codes "item_not_found")
      then (item_not_found_error, item_not_found_message)
      else if same_text cause (codes "store_not_found")
      then (store_not_found_error, store_not_found_message)
      else (cache_not_found_error, cache_not_found_message))
not_found_code metadata = ok (cache_not_found_error, cache_not_found_message)

-- The arm for AlreadyExists.
unfoldable pub already_exists_code : List Metadata → Result (ErrorCode × MessageWrapper)
unfolding first_string
already_exists_code (header ∷ some data_err ∷ more) = do
  cause ← first_string data_err
  ok (
      if same_text cause (codes "store_already_exists")
      then (store_already_exists_error, store_already_exists_message)
      else (cache_already_exists_error, cache_already_exists_message))
already_exists_code metadata = ok (cache_already_exists_error, cache_already_exists_message)

-- The switch on the status code.
unfoldable pub classify : Code → GoString → List Metadata → Result (ErrorCode × MessageWrapper)
unfolding not_found_code already_exists_code
classify invalid_argument m md = ok (invalid_argument_error, invalid_argument_message)
classify unimplemented m md = ok (bad_request_error, bad_request_message)
classify out_of_range m md = ok (bad_request_error, bad_request_message)
classify failed_precondition m md = ok (failed_precondition_error, failed_precondition_message)
classify canceled m md = ok (canceled_error, canceled_message)
classify deadline_exceeded m md = ok (timeout_error, timeout_message)
classify permission_denied m md = ok (permission_error, permission_message)
classify unauthenticated m md = ok (authentication_error, authentication_message)
classify resource_exhausted m md = do
  w ← determine_limit_exceeded_message_wrapper m md
  ok (limit_exceeded_error, w)
classify not_found m md = not_found_code md
classify already_exists m md = already_exists_code md
classify unknown m md = ok (unknown_service_error, unknown_service_error_message)
classify aborted m md = ok (internal_server_error, internal_server_error_message)
classify internal m md = ok (internal_server_error, internal_server_error_message)
classify unavailable m md = ok (server_unavailable_error, server_unavailable_message)
classify data_loss m md = ok (internal_server_error, internal_server_error_message)
classify _ m md = ok (unknown_service_error, unknown_service_error_message)

-- The error for a status, or for an error that carries none.
unfoldable pub from_status : GoError → List Metadata → Option Status → Result GoError
unfolding new_momento_svc_err
from_status e md none =
    ok (new_momento_svc_err client_sdk_error (fixed "SDK Failed to process the request.") e)
from_status e md (some s) = do
  (c, w) ← classify s.code s.message md
  ok (svc_error c (received s.message) e w)

unfoldable pub convert_svc_err : FromError → GoError → List Metadata → Result GoError
unfolding from_status
convert_svc_err from_error e md = from_status e md (from_error e)

-- NewConnectionError.
unfoldable pub new_connection_error : GoError → GoError
unfolding new_momento_svc_err
new_connection_error e =
    new_momento_svc_err connection_error (fixed "Connection is in an unexpected state") e
