-- ===== src/Tests/Tokens.antt =====
-- Tokens and keys at concrete requests. JSON is here a list of texts that
-- each end with 0, and Base64 is the identity.
use client_sdk_go.Base.{
  ℕ, zero, suc, ap, ◌∙◌, to_unsigned, pos, negsuc, ◌≡◌, ◌⊎◌, refl, true, false, not, ◌&&◌, none,
  some, List, [], ◌∷◌, some_of,
}
use client_sdk_go.Text.{GoString, Bytes, codes}
use client_sdk_go.Errors.{
  client_sdk_error, GoError, foreign, error_code, ok, err, panic, index_out_of_range,
}
use client_sdk_go.Errors.Convert.{unavailable}
use client_sdk_go.Tests.{status_of, go_version}
use client_sdk_go.Metadata.{init_headers_sent, Headers, auth, create_metadata}
use client_sdk_go.DataClient.{response, failure}
use client_sdk_go.Credentials.{Codec, StringMap, new_string_momento_token_provider, is_empty}
use client_sdk_go.Permissions.{
  permissions, cache_permission, disposable_token_cache_permission, read_only, write_only,
  all_caches, cache_item_key, Permission,
}
use client_sdk_go.Permissions.Meaning.{item_access, granted, permits}
use client_sdk_go.Permissions.Grpc.{
  explicit, cache_permissions, every_cache, item_key, any_item, cache_read_only, cache_write_only,
  permissions_from_token_scope,
}
use client_sdk_go.Permissions.Laws.{is_disposable, permissions_from_token_scope-granted}
use client_sdk_go.Tokens.{
  GenerateDisposableTokenRequest, XGenerateDisposableTokenRequest, XGenerateResponse,
  GenerateApiKeyRequest, XGenerateApiTokenRequest,
}
use client_sdk_go.Tokens.Client.{AuthServer, generate_disposable_token, generate_api_key}
use client_sdk_go.Tokens.Laws.{
  SentSeconds, generate_disposable_token-asks, generate_disposable_token-grants,
  generate_disposable_token-code,
}
use client_sdk_go.Tokens.Keys.{
  provider, generate_disposable_token-roundtrip, SentExpiry, generate_api_key-asks,
}

-- A text with its code points raised by one, and a 0 behind it.
abbrev write_text : GoString → Bytes → Bytes
write_text [] rest = 0 ∷ rest
write_text (c ∷ s) rest = suc c ∷ write_text s rest

abbrev write_map : StringMap → Bytes
write_map [] = []
write_map ((k, v) ∷ m) = write_text k (write_text v (write_map m))

-- A code point in front of the first text.
abbrev on_first : ℕ → List GoString → List GoString
on_first c [] = []
on_first c (s ∷ ss) = (c ∷ s) ∷ ss

abbrev texts : Bytes → List GoString
texts [] = []
texts (zero ∷ b) = [] ∷ texts b
texts (suc c ∷ b) = on_first c (texts b)

abbrev pairs : List GoString → StringMap
pairs (k ∷ v ∷ ss) = (k, v) ∷ pairs ss
pairs _ = []

texts-write_text : (s : GoString) (rest : Bytes) → texts (write_text s rest) ≡ s ∷ texts rest
texts-write_text [] rest = refl
texts-write_text (c ∷ s) rest = ap (on_first c) (texts-write_text s rest)

pairs-texts : (m : StringMap) → pairs (texts (write_map m)) ≡ m
pairs-texts [] = refl
pairs-texts ((k, v) ∷ m) =
    ap pairs (texts-write_text k (write_text v (write_map m)))
    ∙ ap (λ ss. pairs (k ∷ ss)) (texts-write_text v (write_map m))
    ∙ ap (λ r. (k, v) ∷ r) (pairs-texts m)

abbrev codec : Codec
codec = record {
  encode_to_string = λ b. b;
  decode_string = λ s. some s;
  marshal = λ m. ok (write_map m);
  unmarshal = λ b. some (pairs (texts b));
  parse_unverified = λ s. err (foreign 5);
}

unmarshalled : (m : StringMap) (b : Bytes) → codec.marshal m ≡ ok b → codec.unmarshal b ≡ some m
unmarshalled m b h =
    let same : b ≡ write_map m = cc in ap codec.unmarshal same ∙ ap some (pairs-texts m)

abbrev made : XGenerateResponse
made = record {
  api_key = codes "key";
  refresh_token = [];
  endpoint = codes "momento";
  valid_until = 9;
}

abbrev token_server : AuthServer XGenerateDisposableTokenRequest XGenerateResponse
token_server headers q = response made

abbrev no_token_server : AuthServer XGenerateDisposableTokenRequest XGenerateResponse
no_token_server headers q = failure (foreign 1) []

abbrev key_server : AuthServer XGenerateApiTokenRequest XGenerateResponse
key_server headers q = response made

abbrev read_key : Permission
read_key =
    disposable_token_cache_permission
      (record { role = read_only; cache = all_caches; item = cache_item_key (1 ∷ []) })

abbrev write_caches : Permission
write_caches = cache_permission (record { role = write_only; cache = all_caches })

-- A token that has expired one second ago.
abbrev late_request : GenerateDisposableTokenRequest
late_request = record {
  expires_in = negsuc 0;
  scope = permissions (read_key ∷ []);
  token_id = none;
}

abbrev token_request : GenerateDisposableTokenRequest
token_request = record { expires_in = pos 60; scope = permissions (read_key ∷ []); token_id = none }

abbrev asked_for : GenerateDisposableTokenRequest → XGenerateDisposableTokenRequest
asked_for r = record {
  auth_token = codes "own";
  valid_for_seconds = to_unsigned 32 r.expires_in;
  permissions =
      cache_permissions (
        some
          (record { role = cache_read_only; cache = every_cache; cache_item = item_key (1 ∷ []) }))
      ∷ [];
  token_id = [];
}

abbrev key_request : GenerateApiKeyRequest
key_request = record { expires_in = pos 60; scope = permissions (read_key ∷ write_caches ∷ []) }

abbrev auth_headers : Headers
auth_headers = (create_metadata go_version auth [] init_headers_sent).0

generate_disposable_token-asks_example :
    ((asked_for late_request).auth_token ≡ codes "own")
    × SentSeconds (negsuc 0) ((asked_for late_request).valid_for_seconds)
unfolding generate_disposable_token
generate_disposable_token-asks_example =
    generate_disposable_token-asks status_of codec go_version (codes "own") token_server
      late_request init_headers_sent auth_headers (asked_for late_request) refl

generate_disposable_token-grants_example :
    some_of (granted (item_access [] (1 ∷ []) false)) ((asked_for token_request).permissions)
    ≡ some_of (permits (item_access [] (1 ∷ []) false)) (read_key ∷ [])
unfolding generate_disposable_token
generate_disposable_token-grants_example =
    generate_disposable_token-grants status_of codec go_version (codes "own") token_server
      token_request (read_key ∷ []) init_headers_sent auth_headers (asked_for token_request)
      (item_access [] (1 ∷ []) false) refl refl

generate_disposable_token-code_example :
    ((x : GoError) × ((generate_disposable_token status_of codec go_version
          (codes "own")
          no_token_server
          token_request
          init_headers_sent).outcome
        ≡ err x)
      × (error_code x ≡ some client_sdk_error))
    ⊎ (⊥
        × ⊥
        × ((generate_disposable_token status_of codec go_version
              (codes "own")
              no_token_server
              token_request
              init_headers_sent).outcome
            ≡ panic index_out_of_range))
unfolding generate_disposable_token
generate_disposable_token-code_example =
    generate_disposable_token-code status_of codec go_version (codes "own") no_token_server
      (λ c m o w. refl) token_request init_headers_sent auth_headers (asked_for token_request)
      (foreign 1) [] (record { code = unavailable; message = codes "down" }) refl refl refl

generate_disposable_token-roundtrip_example :
    new_string_momento_token_provider codec
      (write_map ((codes "api_key", codes "key") ∷ (codes "endpoint", codes "momento") ∷ []))
    ≡ ok (provider (codes "key") (codes "momento"))
unfolding generate_disposable_token is_empty
generate_disposable_token-roundtrip_example =
    generate_disposable_token-roundtrip codec (λ b. refl) unmarshalled status_of go_version
      (codes "own") token_server token_request init_headers_sent auth_headers
      (asked_for token_request) made
      (record {
        api_key =
            write_map ((codes "api_key", codes "key") ∷ (codes "endpoint", codes "momento") ∷ []);
        endpoint = codes "momento";
        valid_until = 9;
      })
      refl refl refl refl refl

generate_api_key-asks_example : SentExpiry (pos 60) (some 60)
unfolding generate_api_key
generate_api_key-asks_example =
    generate_api_key-asks status_of codec go_version (codes "own") key_server key_request
      init_headers_sent auth_headers
      (record {
        permissions = explicit (
            cache_permissions (
              some (record { role = cache_write_only; cache = every_cache; cache_item = any_item }))
            ∷ []);
        auth_token = codes "own";
        expiry = some 60;
      })
      refl

permissions_from_token_scope-granted_example :
    some_of (granted (item_access [] (1 ∷ []) true)) (
      cache_permissions
        (some (record { role = cache_write_only; cache = every_cache; cache_item = any_item }))
      ∷ [])
    ≡ some_of
        (λ p. not (is_disposable p) && permits (item_access [] (1 ∷ []) true) p)
        (read_key ∷ write_caches ∷ [])
unfolding permissions_from_token_scope
permissions_from_token_scope-granted_example =
    permissions_from_token_scope-granted (item_access [] (1 ∷ []) true)
      (read_key ∷ write_caches ∷ [])
      (cache_permissions
          (some (record { role = cache_write_only; cache = every_cache; cache_item = any_item }))
        ∷ [])
      refl
