-- ===== src/Tokens/Client.antt =====
-- The calls of the auth client: momento/token_client.go, internal_auth_client.go, auth_client.go.
use client_sdk_go.Base.{to_unsigned, to_signed, Option, none, some, List, [], ◌∷◌, if◌then◌else◌}
use client_sdk_go.Text.{GoString, Bytes, codes}
use client_sdk_go.Errors.{
  GoError, nil_error, client_sdk_error, fixed, momento_error, convert_to_customer_error, Result, ok,
  err, panic, ◌>>=◌,
}
use client_sdk_go.Errors.Convert.{FromError, convert_svc_err}
use client_sdk_go.Metadata.{Headers, HeadersSent, auth, create_metadata}
use client_sdk_go.DataClient.{Reply, response, failure, Exchange}
use client_sdk_go.Permissions.Grpc.{disposable_scope_permissions, permissions_from_token_scope}
use client_sdk_go.Credentials.{Codec, StringMap}
use client_sdk_go.Tokens.{
  does_expire, expires_at_from_epoch, validate_disposable_token_expiry, validate_api_key_expiry,
  GenerateDisposableTokenRequest, XGenerateDisposableTokenRequest, XGenerateResponse,
  GenerateDisposableTokenSuccess, GenerateApiKeyRequest, XGenerateApiTokenRequest, ApiKeySuccess,
  XRefreshApiTokenRequest,
}

-- The RPCs, behind the interceptors of the connection.
abbrev pub AuthServer : Type 0 → Type 0 → Type 0
AuthServer Req Resp = Headers → Req → Reply Resp

-- A call that makes no RPC.
abbrev pub unsent : {Req Out : Type 0} → Result Out → HeadersSent → Exchange Req Out
unsent out sent = record { outcome = out; sent = none; headers_sent = sent }

-- A call that makes no RPC and no headers if the check of its time has found an error.
unfoldable pub if_valid :
    {Req Out : Type 0} → GoError → HeadersSent → Exchange Req Out → Exchange Req Out
unfolding convert_to_customer_error
if_valid nil_error sent x = x
if_valid e sent x = unsent (err (convert_to_customer_error e)) sent

-- The object that is put into an API key.
unfoldable pub json_object : XGenerateResponse → StringMap
json_object resp = (codes "api_key", resp.api_key) ∷ (codes "endpoint", resp.endpoint) ∷ []

module _ (codec : Codec) where
  -- How a key is written: the object in JSON, in Base64.
  unfoldable pub encode_json : Result Bytes → Result GoString
  encode_json (ok b) = ok (codec.encode_to_string b)
  encode_json (err e) =
      err (momento_error client_sdk_error (fixed "Unable to map API key to necessary form") e)
  encode_json (panic p) = panic p

  unfoldable pub encode_api_key : XGenerateResponse → Result GoString
  unfolding encode_json json_object
  encode_api_key resp = encode_json (codec.marshal (json_object resp))

  unfoldable pub disposable_token_success :
      XGenerateResponse → Result GenerateDisposableTokenSuccess
  unfolding encode_api_key
  disposable_token_success resp = do
    key ← encode_api_key resp
    ok (record { api_key = key; endpoint = resp.endpoint; valid_until = resp.valid_until })

  unfoldable pub api_key_success : XGenerateResponse → Result ApiKeySuccess
  unfolding encode_api_key expires_at_from_epoch to_signed
  api_key_success resp = do
    key ← encode_api_key resp
    ok (record {
      api_key = key;
      refresh_token = resp.refresh_token;
      endpoint = resp.endpoint;
      expires_at = expires_at_from_epoch (to_signed 63 resp.valid_until);
    })

-- The message of GenerateDisposableToken.
unfoldable pub disposable_token_message :
    GoString → GenerateDisposableTokenRequest → Result XGenerateDisposableTokenRequest
unfolding disposable_scope_permissions to_unsigned
disposable_token_message auth_token r = do
  permissions ← disposable_scope_permissions r.scope
  ok (record {
    auth_token = auth_token;
    valid_for_seconds = to_unsigned 32 r.expires_in;
    permissions = permissions;
    token_id = elim r.token_id [ some t ↦ t | none ↦ [] ];
  })

-- The message of GenerateApiKey.
unfoldable pub api_key_message : GoString → GenerateApiKeyRequest → Result XGenerateApiTokenRequest
unfolding permissions_from_token_scope does_expire to_unsigned
api_key_message auth_token r = do
  permissions ← permissions_from_token_scope r.scope
  ok (record {
    permissions = permissions;
    auth_token = auth_token;
    expiry = if does_expire r.expires_in then some (to_unsigned 32 r.expires_in) else none;
  })

module _ (from_error : FromError) where
  -- An error that is converted.
  unfoldable pub converted : {Out : Type 0} → GoError → List (Option (List GoString)) → Result Out
  converted e md = convert_svc_err from_error e md >>= λ e'. err e'

  -- The error of the token client, which the auth client converts once more.
  unfoldable pub converted_again : {Out : Type 0} → Result Out → Result Out
  unfolding converted
  converted_again (ok x) = ok x
  converted_again (err e) = converted e []
  converted_again (panic p) = panic p

  module _ (codec : Codec) (runtime_version : GoString) (auth_token : GoString) where
    -- What GenerateDisposableToken of the token client makes of the reply.
    unfoldable pub read_disposable_token :
        Reply XGenerateResponse → Result GenerateDisposableTokenSuccess
    unfolding converted disposable_token_success
    read_disposable_token (response resp) = disposable_token_success codec resp
    read_disposable_token (failure e md) = converted e md

    -- The part of it after the message.
    unfoldable pub send_disposable_token :
        AuthServer XGenerateDisposableTokenRequest XGenerateResponse
        → Result XGenerateDisposableTokenRequest
        → Headers
        → HeadersSent
        → Exchange XGenerateDisposableTokenRequest GenerateDisposableTokenSuccess
    unfolding converted_again read_disposable_token
    send_disposable_token server (ok req) headers sent = record {
      outcome = converted_again (read_disposable_token (server headers req));
      sent = some (headers, req);
      headers_sent = sent;
    }
    send_disposable_token server (err e) headers sent = unsent (converted_again (err e)) sent
    send_disposable_token server (panic p) headers sent = unsent (panic p) sent

    -- GenerateDisposableToken of the auth client. The token client checks the expiry again, after
    -- it has made the permissions, with the same result.
    unfoldable pub generate_disposable_token :
        AuthServer XGenerateDisposableTokenRequest XGenerateResponse
        → GenerateDisposableTokenRequest
        → HeadersSent
        → Exchange XGenerateDisposableTokenRequest GenerateDisposableTokenSuccess
    unfolding send_disposable_token create_metadata disposable_token_message
        validate_disposable_token_expiry if_valid
    generate_disposable_token server r sent =
        let (headers, sent') = create_metadata runtime_version auth [] sent in
        if_valid (validate_disposable_token_expiry r.expires_in) sent
          (send_disposable_token server (disposable_token_message auth_token r) headers sent')

    unfoldable pub read_api_key : Reply XGenerateResponse → Result ApiKeySuccess
    unfolding converted api_key_success
    read_api_key (response resp) = api_key_success codec resp
    read_api_key (failure e md) = converted e []

    unfoldable pub send_api_key :
        AuthServer XGenerateApiTokenRequest XGenerateResponse
        → Result XGenerateApiTokenRequest
        → Headers
        → HeadersSent
        → Exchange XGenerateApiTokenRequest ApiKeySuccess
    unfolding read_api_key
    send_api_key server (ok req) headers sent = record {
      outcome = read_api_key (server headers req);
      sent = some (headers, req);
      headers_sent = sent;
    }
    send_api_key server (err e) headers sent = unsent (err e) sent
    send_api_key server (panic p) headers sent = unsent (panic p) sent

    -- GenerateApiKey of the auth client.
    unfoldable pub generate_api_key :
        AuthServer XGenerateApiTokenRequest XGenerateResponse
        → GenerateApiKeyRequest
        → HeadersSent
        → Exchange XGenerateApiTokenRequest ApiKeySuccess
    unfolding send_api_key create_metadata api_key_message validate_api_key_expiry if_valid
    generate_api_key server r sent =
        let (headers, sent') = create_metadata runtime_version auth [] sent in
        if_valid (validate_api_key_expiry r.expires_in) sent
          (send_api_key server (api_key_message auth_token r) headers sent')

    unfoldable pub read_refreshed : Reply XGenerateResponse → Result ApiKeySuccess
    unfolding converted expires_at_from_epoch to_signed
    read_refreshed (response resp) = ok (record {
      api_key = resp.api_key;
      refresh_token = resp.refresh_token;
      endpoint = resp.endpoint;
      expires_at = expires_at_from_epoch (to_signed 63 resp.valid_until);
    })
    read_refreshed (failure e md) = converted e []

    -- RefreshApiKey.
    unfoldable pub refresh_api_key :
        AuthServer XRefreshApiTokenRequest XGenerateResponse
        → GoString
        → HeadersSent
        → Exchange XRefreshApiTokenRequest ApiKeySuccess
    unfolding create_metadata read_refreshed
    refresh_api_key server refresh_token sent =
        let (headers, sent') = create_metadata runtime_version auth [] sent in
        let req : XRefreshApiTokenRequest = record {
          refresh_token = refresh_token;
          api_key = auth_token;
        } in
        record {
          outcome = read_refreshed (server headers req);
          sent = some (headers, req);
          headers_sent = sent';
        }
