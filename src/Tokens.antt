-- ===== src/Tokens.antt =====
-- The tokens that the auth client asks for: utils/expiration.go, utils/validators.go,
-- momento/token_client.go, momento/internal_auth_client.go and momento/auth_client.go.
pub mod Client
pub mod Keys
pub mod Laws
use client_sdk_go.Base.{
  ℕ, zero, suc, ◌+◌, ◌-◌, ◌*◌, ◌^◌, ℤ, pos, negsuc, sub_ℕ, to_unsigned, to_signed, is_positive,
  is_negative, ltz, ltb, ◌==◌, Bool, true, false, not, Option, none, some, List, [], ◌∷◌,
  if◌then◌else◌,
}
use client_sdk_go.Text.{GoString, codes}
use client_sdk_go.Errors.{
  GoError, nil_error, is_nil, invalid_argument_error, client_sdk_error, fixed, new_momento_svc_err,
  momento_error, convert_to_customer_error, Result, ok, err, panic, ◌>>=◌,
}
use client_sdk_go.Errors.Convert.{FromError, convert_svc_err}
use client_sdk_go.Metadata.{Headers, HeadersSent, auth, create_metadata}
use client_sdk_go.DataClient.{Reply, response, failure, Exchange}
use client_sdk_go.Permissions.{Scope}
use client_sdk_go.Permissions.Grpc.{
  XPermissionsType, XPermissions, disposable_scope_permissions, permissions_from_token_scope,
}
use client_sdk_go.Credentials.{Codec, StringMap}

-- Arithmetic of int64, which wraps around.
unfoldable pub wrap_int64 : ℤ → ℤ
unfolding to_signed to_unsigned
wrap_int64 z = to_signed 63 (to_unsigned 64 z)

unfoldable pub times : ℤ → ℕ → ℤ
unfolding wrap_int64
times (pos n) k = wrap_int64 (pos (n * k))
times (negsuc n) k = wrap_int64 (if k == 0 then pos 0 else negsuc (suc n * k - 1))

unfoldable pub minus : ℤ → ℤ → ℤ
unfolding wrap_int64
minus (pos a) (pos b) = wrap_int64 (sub_ℕ a b)
minus (pos a) (negsuc b) = wrap_int64 (pos (a + b + 1))
minus (negsuc a) (pos b) = wrap_int64 (negsuc (a + b))
minus (negsuc a) (negsuc b) = wrap_int64 (sub_ℕ b a)

-- ExpiresIn, by its validForSeconds, and ExpiresAt, by its validUntil; both int64.
abbrev pub ExpiresIn : Type 0
ExpiresIn = ℤ

abbrev pub ExpiresAt : Type 0
ExpiresAt = ℤ

abbrev pub max_int64 : ℕ
max_int64 = 2 ^ 63 - 1

-- DoesExpire, of both types.
unfoldable pub does_expire : ℤ → Bool
does_expire (pos n) = not (n == max_int64)
does_expire (negsuc n) = true

unfoldable pub expires_in_never : ExpiresIn
expires_in_never = pos max_int64

unfoldable pub expires_in_seconds : ℤ → ExpiresIn
expires_in_seconds seconds = seconds

unfoldable pub expires_in_minutes : ℤ → ExpiresIn
unfolding times
expires_in_minutes minutes = times minutes 60

unfoldable pub expires_in_hours : ℤ → ExpiresIn
unfolding times
expires_in_hours hours = times (times hours 60) 60

unfoldable pub expires_in_days : ℤ → ExpiresIn
unfolding times
expires_in_days days = times (times (times days 60) 60) 24

-- ExpiresAtEpoch; `now` is time.Now().Unix().
unfoldable pub expires_at_epoch : ℤ → ℤ → ExpiresIn
unfolding minus
expires_at_epoch now expires_by = minus expires_by now

-- ExpiresAtFromEpoch.
unfoldable pub expires_at_from_epoch : ℤ → ExpiresAt
unfolding is_positive
expires_at_from_epoch epoch = if is_positive epoch then epoch else pos max_int64

-- ValidateDisposableTokenExpiry.
unfoldable pub validate_disposable_token_expiry : ExpiresIn → GoError
unfolding does_expire ltz new_momento_svc_err
validate_disposable_token_expiry e =
    if not (does_expire e)
    then new_momento_svc_err invalid_argument_error (fixed "disposable tokens must have an expiry")
        nil_error
    else if ltz (pos 3600) e
    then new_momento_svc_err invalid_argument_error
        (fixed "disposable tokens must expire within 1 hour") nil_error
    else nil_error

-- ValidateApiKeyExpiry.
unfoldable pub validate_api_key_expiry : ExpiresIn → GoError
unfolding does_expire ltz new_momento_svc_err
validate_api_key_expiry e =
    if not (does_expire e)
    then nil_error
    else if ltz e (pos 0)
    then new_momento_svc_err invalid_argument_error
        (fixed "API key expiry must be a positive number of seconds") nil_error
    else nil_error

pub record GenerateDisposableTokenRequest : Type 0 where
  pub expires_in : ExpiresIn
  pub scope : Scope
  pub token_id : Option GoString

pub record XGenerateDisposableTokenRequest : Type 0 where
  pub auth_token : GoString
  pub valid_for_seconds : ℕ
  pub permissions : List XPermissionsType
  pub token_id : GoString

-- The response of both RPCs that generate; `refresh_token` is not in that for a disposable token.
pub record XGenerateResponse : Type 0 where
  pub api_key : GoString
  pub refresh_token : GoString
  pub endpoint : GoString
  pub valid_until : ℕ

pub record GenerateDisposableTokenSuccess : Type 0 where
  pub api_key : GoString
  pub endpoint : GoString
  pub valid_until : ℕ

pub record GenerateApiKeyRequest : Type 0 where
  pub expires_in : ExpiresIn
  pub scope : Scope

-- `none` is the expiry Never.
pub record XGenerateApiTokenRequest : Type 0 where
  pub permissions : XPermissions
  pub auth_token : GoString
  pub expiry : Option ℕ

pub record ApiKeySuccess : Type 0 where
  pub api_key : GoString
  pub refresh_token : GoString
  pub endpoint : GoString
  pub expires_at : ExpiresAt

pub record XRefreshApiTokenRequest : Type 0 where
  pub refresh_token : GoString
  pub api_key : GoString
