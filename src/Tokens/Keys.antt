-- ===== src/Tokens/Keys.antt =====
-- The keys that the auth client hands out: their expiry, and that a client can be made from them.
use client_sdk_go.Base.{
  ℕ, ◌%◌, ◌^◌, ℤ, pos, negsuc, to_unsigned, ltz, ◌≡◌, refl, sym, ap, subst, ◌∙◌, ◌⊎◌, inl, inr,
  false, Option, none, some, [], ◌++◌, same_text, Bool-cases, ◌==◌, ==_iff, if◌then◌else◌,
}
use client_sdk_go.Text.{GoString, Bytes, codes}
use client_sdk_go.Errors.{nil_error, new_momento_svc_err, Result, ok, err, panic, >>=-ok}
use client_sdk_go.Errors.Convert.{FromError, convert_svc_err}
use client_sdk_go.Metadata.{Headers, HeadersSent}
use client_sdk_go.DataClient.{response}
use client_sdk_go.Credentials.{
  Codec, StringMap, value_at, CredentialProvider, is_empty, secure, with_port, v1_endpoints,
  of_token_data, process_v1_token, decode_auth_token, new_string_momento_token_provider,
}
use client_sdk_go.Permissions.Grpc.{permissions_from_token_scope}
use client_sdk_go.Tokens.{
  does_expire, max_int64, validate_api_key_expiry, GenerateDisposableTokenRequest,
  XGenerateDisposableTokenRequest, XGenerateResponse, GenerateDisposableTokenSuccess,
  GenerateApiKeyRequest, XGenerateApiTokenRequest,
}
use client_sdk_go.Tokens.Client.{
  AuthServer, json_object, encode_json, encode_api_key, disposable_token_success, converted,
  converted_again, read_disposable_token, generate_disposable_token, api_key_message, send_api_key,
  generate_api_key,
}
use client_sdk_go.Tokens.Laws.{if_valid-sent, generated}

-- The provider of a client of the endpoint `e` with the token `t`.
unfoldable pub provider : GoString → GoString → CredentialProvider
unfolding secure
provider t e = record {
  auth_token = t;
  endpoints = record {
    control_endpoint = secure ((codes "control." ++ e) ++ codes ":443");
    cache_endpoint = secure ((codes "cache." ++ e) ++ codes ":443");
    token_endpoint = secure ((codes "token." ++ e) ++ codes ":443");
    storage_endpoint = secure ((codes "storage." ++ e) ++ codes ":443");
  };
}

read_object :
    (resp : XGenerateResponse)
    → is_empty resp.api_key ≡ false
    → is_empty resp.endpoint ≡ false
    → of_token_data (json_object resp)
      ≡ ok (record { endpoints = v1_endpoints resp.endpoint; auth_token = resp.api_key })
unfolding of_token_data json_object value_at same_text
read_object resp k e = rw (e, k) refl

not_converted :
    (from_error : FromError) (z : Result GenerateDisposableTokenSuccess)
    (x : GenerateDisposableTokenSuccess)
    → converted_again from_error z ≡ ok x
    → z ≡ ok x
unfolding converted_again converted
not_converted from_error (ok y) x w = w
not_converted from_error (err y) x w =
    let (e, _, no_value) = >>=-ok (convert_svc_err from_error y []) _ x w in absurd cc
not_converted from_error (panic p) x w = absurd cc

module _ (codec : Codec)
    (decoded : (b : Bytes) → codec.decode_string (codec.encode_to_string b) ≡ some b)
    (unmarshalled : (m : StringMap) (b : Bytes)
      → codec.marshal m ≡ ok b
      → codec.unmarshal b ≡ some m) where
  encoded :
      (m : Result Bytes) (key : GoString)
      → encode_json codec m ≡ ok key
      → (b : Bytes) × (m ≡ ok b) × (codec.encode_to_string b ≡ key)
  unfolding encode_json
  encoded (ok b) key h = (b, refl, cc)
  encoded (err e) key h = absurd cc
  encoded (panic p) key h = absurd cc

  -- A key that the client has written is read as what it was written from.
  key_read :
      (resp : XGenerateResponse) (key : GoString)
      → encode_api_key codec resp ≡ ok key
      → is_empty resp.api_key ≡ false
      → is_empty resp.endpoint ≡ false
      → new_string_momento_token_provider codec key ≡ ok (provider resp.api_key resp.endpoint)
  unfolding encode_api_key new_string_momento_token_provider decode_auth_token process_v1_token
      provider with_port secure v1_endpoints
  key_read resp key h k e =
      let (b, made, same) = encoded (codec.marshal (json_object resp)) key h in
      let read : codec.decode_string key ≡ some b = ap codec.decode_string (sym same) ∙ decoded b in
      let taken : decode_auth_token codec key ≡ of_token_data (json_object resp) =
        rw (decode_auth_token, read)
          (rw (process_v1_token, unmarshalled (json_object resp) b made) refl) in
      rw (new_string_momento_token_provider, taken ∙ read_object resp k e) refl

  -- Where Base64 and JSON are read back as they were written, the key of a disposable token that the client
  -- returns makes a credential provider with the key and the endpoint that the server sent, if these are not empty.
  pub generate_disposable_token-roundtrip :
      (from_error : FromError) (version auth_token : GoString)
      (server : AuthServer XGenerateDisposableTokenRequest XGenerateResponse)
      (r : GenerateDisposableTokenRequest) (sent : HeadersSent) (headers : Headers)
      (q : XGenerateDisposableTokenRequest) (resp : XGenerateResponse)
      (x : GenerateDisposableTokenSuccess)
      → (generate_disposable_token from_error codec version auth_token server r sent).sent
        ≡ some (headers, q)
      → server headers q ≡ response resp
      → (generate_disposable_token from_error codec version auth_token server r sent).outcome ≡ ok x
      → is_empty resp.api_key ≡ false
      → is_empty resp.endpoint ≡ false
      → new_string_momento_token_provider codec x.api_key ≡ ok (provider resp.api_key resp.endpoint)
  unfolding disposable_token_success read_disposable_token
  generate_disposable_token-roundtrip from_error version auth_token server r sent headers q resp x h
        answered out k e =
      let (_, _, same) = generated from_error codec version auth_token server r sent headers q h in
      let success : disposable_token_success codec resp ≡ ok x =
        not_converted from_error (disposable_token_success codec resp) x (
          ap
            (λ reply.
              converted_again from_error
                (read_disposable_token from_error codec version auth_token reply))
            (sym answered)
          ∙ sym same
          ∙ out) in
      let (key, wrote, built) = >>=-ok (encode_api_key codec resp) _ x success in
      let same_key : key ≡ x.api_key = cc in
      ap (new_string_momento_token_provider codec) (sym same_key) ∙ key_read resp key wrote k e

-- What an API key is asked to expire in: never, or a number of seconds, modulo 2 ^ 32.
abbrev pub SentExpiry : ℤ → Option ℕ → Type 0
SentExpiry e v =
    ((e ≡ pos max_int64) × (v ≡ none)) ⊎ ((n : ℕ) × (e ≡ pos n) × (v ≡ some (n % 2 ^ 32)))

accepted_expiry :
    (e : ℤ)
    → validate_api_key_expiry e ≡ nil_error
    → SentExpiry e (if does_expire e then some (to_unsigned 32 e) else none)
unfolding validate_api_key_expiry does_expire ltz to_unsigned new_momento_svc_err
accepted_expiry (pos n) h = elim (Bool-cases (n == max_int64)) [
  | inl never ↦ rw never (inl (ap pos ((==_iff n max_int64).0 never), refl))
  | inr finite ↦ rw finite (inr (n, refl, refl))
]
accepted_expiry (negsuc n) h = absurd cc

api_key_sent :
    (from_error : FromError) (codec : Codec) (version auth_token : GoString)
    (server : AuthServer XGenerateApiTokenRequest XGenerateResponse)
    (m : Result XGenerateApiTokenRequest) (given : Headers) (sent : HeadersSent) (headers : Headers)
    (q : XGenerateApiTokenRequest)
    → (send_api_key from_error codec version auth_token server m given sent).sent
      ≡ some (headers, q)
    → m ≡ ok q
unfolding send_api_key
api_key_sent from_error codec version auth_token server (ok req) given sent headers q h = cc
api_key_sent from_error codec version auth_token server (err e) given sent headers q h = absurd cc
api_key_sent from_error codec version auth_token server (panic p) given sent headers q h = absurd cc

-- A request for an API key that is sent asks for one that never expires, or that expires in a number
-- of seconds from 0 on, of which only the remainder modulo 2 ^ 32 is sent.
pub generate_api_key-asks :
    (from_error : FromError) (codec : Codec) (version auth_token : GoString)
    (server : AuthServer XGenerateApiTokenRequest XGenerateResponse) (r : GenerateApiKeyRequest)
    (sent : HeadersSent) (headers : Headers) (q : XGenerateApiTokenRequest)
    → (generate_api_key from_error codec version auth_token server r sent).sent ≡ some (headers, q)
    → SentExpiry r.expires_in q.expiry
unfolding generate_api_key api_key_message
generate_api_key-asks from_error codec version auth_token server r sent headers q h =
    let (fine, same) = if_valid-sent (validate_api_key_expiry r.expires_in) sent _ (headers, q) h in
    let made =
      api_key_sent from_error codec version auth_token server (api_key_message auth_token r) _ _
        headers q (ap (λ x. x.sent) (sym same) ∙ h) in
    let (ps, _, built) = >>=-ok (permissions_from_token_scope r.scope) _ q made in
    let expiry : (if does_expire r.expires_in then some (to_unsigned 32 r.expires_in) else none)
        ≡ q.expiry =
      cc in
    subst (SentExpiry r.expires_in) expiry (accepted_expiry r.expires_in fine)
