-- ===== src/Credentials.antt =====
-- auth/credential_provider.go: how an API key is taken apart, and the endpoints of the services.
-- encoding/base64, encoding/json and golang-jwt are a parameter.

use client_sdk_go.Base.{
  ℕ, zero, suc, ◌+◌, ◌/◌, ◌%◌, ltb, ◌==◌, Bool, true, false, not, ◌||◌, Option, none, some, List,
  [], ◌∷◌, ◌++◌, same_text, if◌then◌else◌,
}
use client_sdk_go.Text.{GoString, Bytes, codes}
use client_sdk_go.Errors.{
  nil_error, plain, invalid_argument_error, fixed, new_momento_svc_err, Result, ok, err, panic,
  ◌>>=◌,
}

-- A map[string]string, as its entries.
abbrev pub StringMap : Type 0
StringMap = List (GoString × GoString)

-- `m[k]`, the empty string for a missing key.
unfoldable pub value_at : GoString → StringMap → GoString
value_at k [] = []
value_at k ((j, v) ∷ m) = if same_text j k then v else value_at k m

-- base64.StdEncoding, json.Marshal and json.Unmarshal on a map[string]string, and ParseUnverified,
-- which gives an error or the claims; a claim is the string that reflect prints it as.
pub record Codec : Type 0 where
  pub encode_to_string : Bytes → GoString
  pub decode_string : GoString → Option Bytes
  pub marshal : StringMap → Result Bytes
  pub unmarshal : Bytes → Option StringMap
  pub parse_unverified : GoString → Result (GoString → GoString)

pub record Endpoint : Type 0 where
  pub endpoint : GoString
  pub insecure_connection : Bool

pub record AllEndpoints : Type 0 where
  pub control_endpoint : Endpoint
  pub cache_endpoint : Endpoint
  pub token_endpoint : Endpoint
  pub storage_endpoint : Endpoint

pub record TokenAndEndpoints : Type 0 where
  pub endpoints : AllEndpoints
  pub auth_token : GoString

-- defaultCredentialProvider, with its four endpoints in one record.
pub record CredentialProvider : Type 0 where
  pub auth_token : GoString
  pub endpoints : AllEndpoints

-- `Endpoint{Endpoint: e}`.
unfoldable pub secure : GoString → Endpoint
secure e = record { endpoint = e; insecure_connection = false }

-- IsControlEndpointSecure and the others, by the endpoint.
unfoldable pub is_secure : Endpoint → Bool
is_secure e = not e.insecure_connection

unfoldable pub is_empty : GoString → Bool
is_empty [] = true
is_empty (c ∷ s) = false

-- The endpoints of a token in the JSON form.
unfoldable pub v1_endpoints : GoString → AllEndpoints
unfolding secure
v1_endpoints e = record {
  control_endpoint = secure (codes "control." ++ e);
  cache_endpoint = secure (codes "cache." ++ e);
  token_endpoint = secure (codes "token." ++ e);
  storage_endpoint = secure (codes "storage." ++ e);
}

-- processV1Token, after the JSON is read.
unfoldable pub of_token_data : StringMap → Result TokenAndEndpoints
unfolding value_at is_empty v1_endpoints new_momento_svc_err
of_token_data token_data =
    if is_empty (value_at (codes "endpoint") token_data)
      || is_empty (value_at (codes "api_key") token_data)
    then err (new_momento_svc_err invalid_argument_error (fixed "failed to parse token") nil_error)
    else ok (record {
      endpoints = v1_endpoints (value_at (codes "endpoint") token_data);
      auth_token = value_at (codes "api_key") token_data;
    })

-- AllEndpoints of a JWT: the zero value but for the two claims.
unfoldable pub jwt_endpoints : (GoString → GoString) → AllEndpoints
unfolding secure
jwt_endpoints claims = record {
  control_endpoint = secure (claims (codes "cp"));
  cache_endpoint = secure (claims (codes "c"));
  token_endpoint = secure [];
  storage_endpoint = secure [];
}

-- fmt.Sprintf("%s:%d", e, 443).
unfoldable pub with_port : Endpoint → Endpoint
unfolding secure
with_port e = secure (e.endpoint ++ codes ":443")

module _ (codec : Codec) where
  -- processV1Token.
  unfoldable pub process_v1_token : Bytes → Result TokenAndEndpoints
  unfolding of_token_data new_momento_svc_err
  process_v1_token decoded = elim (codec.unmarshal decoded) [
    | none ↦
        err (new_momento_svc_err invalid_argument_error (fixed "malformed auth token") nil_error)
    | some token_data ↦ of_token_data token_data
  ]

  -- processJwtToken. The claims are always jwt.MapClaims, which the parser was given.
  unfoldable pub process_jwt_token : GoString → Result TokenAndEndpoints
  unfolding jwt_endpoints new_momento_svc_err
  process_jwt_token auth_token = elim (codec.parse_unverified auth_token) [
    | ok claims ↦ ok (record { endpoints = jwt_endpoints claims; auth_token = auth_token })
    | err e ↦
        err (new_momento_svc_err invalid_argument_error (fixed "Could not parse auth token.") e)
    | panic p ↦ panic p
  ]

  -- decodeAuthToken.
  unfoldable pub decode_auth_token : GoString → Result TokenAndEndpoints
  unfolding process_v1_token process_jwt_token
  decode_auth_token auth_token = elim (codec.decode_string auth_token) [
    | none ↦ process_jwt_token auth_token
    | some decoded ↦ process_v1_token decoded
  ]

  -- NewStringMomentoTokenProvider, and FromString, which returns what it returns.
  unfoldable pub new_string_momento_token_provider : GoString → Result CredentialProvider
  unfolding decode_auth_token with_port
  new_string_momento_token_provider auth_token = do
    t ← decode_auth_token auth_token
    ok (record {
      auth_token = t.auth_token;
      endpoints = record {
        control_endpoint = with_port t.endpoints.control_endpoint;
        cache_endpoint = with_port t.endpoints.cache_endpoint;
        token_endpoint = with_port t.endpoints.token_endpoint;
        storage_endpoint = with_port t.endpoints.storage_endpoint;
      };
    })

  -- NewEnvMomentoTokenProvider, and FromEnvironmentVariable; the environment is a function.
  unfoldable pub new_env_momento_token_provider :
      (GoString → GoString) → GoString → Result CredentialProvider
  unfolding new_string_momento_token_provider is_empty new_momento_svc_err
  new_env_momento_token_provider getenv name =
      if is_empty (getenv name)
      then err (
          new_momento_svc_err invalid_argument_error
            (fixed "Missing required environment variable %s") (plain "invalid argument"))
      else new_string_momento_token_provider (getenv name)

-- One endpoint of WithEndpoints.
unfoldable pub override : Endpoint → Endpoint → Endpoint
unfolding is_empty
override new old = if is_empty new.endpoint then old else new

-- WithEndpoints.
unfoldable pub with_endpoints : CredentialProvider → AllEndpoints → CredentialProvider
unfolding override
with_endpoints p e = record p {
  endpoints = record {
    control_endpoint = override e.control_endpoint p.endpoints.control_endpoint;
    cache_endpoint = override e.cache_endpoint p.endpoints.cache_endpoint;
    token_endpoint = override e.token_endpoint p.endpoints.token_endpoint;
    storage_endpoint = override e.storage_endpoint p.endpoints.storage_endpoint;
  };
}

pub record MomentoLocalConfig : Type 0 where
  pub hostname : GoString
  pub port : ℕ

-- The digits of a number, the last one first; a uint has at most 20.
unfoldable pub digits : ℕ → ℕ → GoString → GoString
digits zero n tail = tail
digits (suc fuel) n tail =
    let here = (b'0' + n % 10) ∷ tail in
    let rest = digits fuel (n / 10) here in if ltb n 10 then here else rest

-- fmt.Sprintf("%s:%d", hostname, port).
unfoldable pub local_endpoint : GoString → ℕ → Endpoint
unfolding digits
local_endpoint hostname port = record {
  endpoint = hostname ++ (codes ":" ++ digits 20 port []);
  insecure_connection = true;
}

-- NewMomentoLocalProvider; it returns no error.
unfoldable pub new_momento_local_provider : Option MomentoLocalConfig → CredentialProvider
unfolding local_endpoint is_empty
new_momento_local_provider config =
    let hostname : GoString = elim config [
      | some c ↦ if is_empty c.hostname then codes "127.0.0.1" else c.hostname
      | none ↦ codes "127.0.0.1"
    ] in
    let port : ℕ = elim config [ some c ↦ if c.port == 0 then 8080 else c.port | none ↦ 8080 ] in
    let e = local_endpoint hostname port in
    record {
      auth_token = [];
      endpoints = record {
        control_endpoint = e;
        cache_endpoint = e;
        token_endpoint = e;
        storage_endpoint = e;
      };
    }
