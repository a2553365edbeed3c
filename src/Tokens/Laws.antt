-- ===== src/Tokens/Laws.antt =====
-- What the auth client asks for, what it makes of errors, and that the client reads the keys that it
-- hands out.
use client_sdk_go.Base.{
  ℕ, ◌-◌, ◌≤◌, ◌%◌, ◌^◌, ℤ, pos, negsuc, to_unsigned, ltz, ◌≡◌, refl, sym, ap, ◌∙◌, ◌⊎◌, inl, inr,
  Option, none, some, List, [], arith, some_of, subst,
}
use client_sdk_go.Text.{GoString}
use client_sdk_go.Errors.{
  ErrorCode, Message, MessageWrapper, GoError, nil_error, new_momento_svc_err, svc_error,
  client_sdk_error, error_code, of_code, fixed, received, index_out_of_range, Result, ok, err,
  panic, ◌>>=◌, >>=-ok,
}
use client_sdk_go.Errors.Convert.{FromError, Status, classify, from_status, convert_svc_err}
use client_sdk_go.Errors.Laws.{LooksAtTrailer, HasEmptyCause, convert_svc_err-panics}
use client_sdk_go.Metadata.{Headers, HeadersSent}
use client_sdk_go.DataClient.{failure, Exchange}
use client_sdk_go.Credentials.{Codec}
use client_sdk_go.Permissions.{Permission, permissions}
use client_sdk_go.Permissions.Grpc.{disposable_scope_permissions}
use client_sdk_go.Permissions.Meaning.{Access, permits, granted}
use client_sdk_go.Permissions.Laws.{disposable_permissions-granted}
use client_sdk_go.Tokens.{
  does_expire, validate_disposable_token_expiry, GenerateDisposableTokenRequest,
  XGenerateDisposableTokenRequest, XGenerateResponse, GenerateDisposableTokenSuccess,
}
use client_sdk_go.Tokens.Client.{
  AuthServer, disposable_token_message, generate_disposable_token, send_disposable_token, if_valid,
  converted, converted_again, read_disposable_token,
}

-- What is sent for an accepted time: the seconds themselves, or what is left of a negative number in
-- 32 bits.
abbrev pub SentSeconds : ℤ → ℕ → Type 0
SentSeconds e v =
    ((n : ℕ) × (e ≡ pos n) × (n ≤ 3600) × (v ≡ n))
    ⊎ ((n : ℕ) × (e ≡ negsuc n) × (v ≡ 2 ^ 32 - 1 - n % 2 ^ 32))

within_hour : (n : ℕ) → validate_disposable_token_expiry (pos n) ≡ nil_error → n ≤ 3600
unfolding validate_disposable_token_expiry does_expire ltz new_momento_svc_err
within_hour n h = ground arith

accepted_seconds :
    (e : ℤ) → validate_disposable_token_expiry e ≡ nil_error → SentSeconds e (to_unsigned 32 e)
unfolding to_unsigned
accepted_seconds (pos n) h = inl (n, refl, within_hour n h, omega (arith, within_hour n h))
accepted_seconds (negsuc n) h = inr (n, refl, refl)

pub if_valid-sent :
    {Req Out : Type 0} (e : GoError) (sent : HeadersSent) (x : Exchange Req Out)
    (made : Headers × Req)
    → (if_valid e sent x).sent ≡ some made
    → (e ≡ nil_error) × (if_valid e sent x ≡ x)
unfolding if_valid
if_valid-sent nil_error sent x made h = (refl, refl)
if_valid-sent _ sent x made h = absurd cc

-- An error that the conversion has made.
pub data IsSvcError : GoError → Type 0 where
  is_svc_error :
      (c : ErrorCode) (m : Message) (o : GoError) (w : MessageWrapper)
      → IsSvcError (svc_error c m o w)

module _ (from_error : FromError) (codec : Codec) (version auth_token : GoString)
    (server : AuthServer XGenerateDisposableTokenRequest XGenerateResponse) where
  sent_message :
      (m : Result XGenerateDisposableTokenRequest) (given headers : Headers) (sent : HeadersSent)
      (q : XGenerateDisposableTokenRequest)
      → (send_disposable_token from_error codec version auth_token server m given sent).sent
        ≡ some (headers, q)
      → (m ≡ ok q)
        × ((send_disposable_token from_error codec version auth_token server m given sent).outcome
            ≡ converted_again from_error
                (read_disposable_token from_error codec version auth_token (server headers q)))
  unfolding send_disposable_token
  sent_message (ok req) given headers sent q h =
      let same : req ≡ q = cc in
      let same_headers : given ≡ headers = cc in (ap ok same, rw (same, same_headers) refl)
  sent_message (err e) given headers sent q h = absurd cc
  sent_message (panic p) given headers sent q h = absurd cc

  -- The message that a call sent is the one made of the request, whose time was accepted.
  pub generated :
      (r : GenerateDisposableTokenRequest) (sent : HeadersSent) (headers : Headers)
      (q : XGenerateDisposableTokenRequest)
      → (generate_disposable_token from_error codec version auth_token server r sent).sent
        ≡ some (headers, q)
      → (validate_disposable_token_expiry r.expires_in ≡ nil_error)
        × (disposable_token_message auth_token r ≡ ok q)
        × ((generate_disposable_token from_error codec version auth_token server r sent).outcome
            ≡ converted_again from_error
                (read_disposable_token from_error codec version auth_token (server headers q)))
  unfolding generate_disposable_token
  generated r sent headers q h =
      let (fine, same) =
        if_valid-sent (validate_disposable_token_expiry r.expires_in) sent _ (headers, q) h in
      let (made, out) =
        sent_message (disposable_token_message auth_token r) _ headers _ q
          (ap (λ x. x.sent) (sym same) ∙ h) in
      (fine, made, ap (λ x. x.outcome) same ∙ out)

  -- A request for a disposable token that is sent carries the client's own token, and its time: a number of seconds
  -- from 0 to 3600 as it is, and a negative one, which is not refused, as the rest of it in 32 bits.
  pub generate_disposable_token-asks :
      (r : GenerateDisposableTokenRequest) (sent : HeadersSent) (headers : Headers)
      (q : XGenerateDisposableTokenRequest)
      → (generate_disposable_token from_error codec version auth_token server r sent).sent
        ≡ some (headers, q)
      → (q.auth_token ≡ auth_token) × SentSeconds r.expires_in q.valid_for_seconds
  unfolding disposable_token_message
  generate_disposable_token-asks r sent headers q h =
      let (fine, made, _) = generated r sent headers q h in
      let (ps, _, built) = >>=-ok (disposable_scope_permissions r.scope) _ q made in
      let token : q.auth_token ≡ auth_token = cc in
      let seconds : to_unsigned 32 r.expires_in ≡ q.valid_for_seconds = cc in
      (token, subst (SentSeconds r.expires_in) seconds (accepted_seconds r.expires_in fine))

  -- The permissions that a request for a disposable token asks for, with a scope of the type Permissions, grant an
  -- access exactly if a permission of the scope grants it.
  pub generate_disposable_token-grants :
      (r : GenerateDisposableTokenRequest) (ps : List Permission) (sent : HeadersSent)
      (headers : Headers) (q : XGenerateDisposableTokenRequest) (a : Access)
      → r.scope ≡ permissions ps
      → (generate_disposable_token from_error codec version auth_token server r sent).sent
        ≡ some (headers, q)
      → some_of (granted a) q.permissions ≡ some_of (permits a) ps
  unfolding disposable_token_message
  generate_disposable_token-grants r ps sent headers q a scoped h =
      let (_, made, _) = generated r sent headers q h in
      let (xs, e, built) = >>=-ok (disposable_scope_permissions r.scope) _ q made in
      let same : q.permissions ≡ xs = cc in
      ap (some_of (granted a)) same
      ∙ disposable_permissions-granted a ps xs (ap disposable_scope_permissions (sym scoped) ∙ e)

module _ (from_error : FromError) where
  -- The conversion returns one of its own errors, or panics.
  convert-own :
      (e : GoError) (md : List (Option (List GoString))) (o : Option Status)
      → from_error e ≡ o
      → (convert_svc_err from_error e md ≡ panic index_out_of_range)
        ⊎ ((x : GoError) × (convert_svc_err from_error e md ≡ ok x) × IsSvcError x)
  unfolding convert_svc_err from_status new_momento_svc_err
  convert-own e md none h = inr (
    svc_error client_sdk_error (fixed "SDK Failed to process the request.") e
        (of_code client_sdk_error),
    rw (from_status, h) refl,
    is_svc_error _ _ _ _,
  )
  convert-own e md (some s) h = elim ((convert_svc_err-panics from_error e md s h).1) [
    | inl stop ↦ inl stop
    | inr (x, q) ↦ inr (x, q, own x q)
  ]
    where
      own : (x : GoError) → convert_svc_err from_error e md ≡ ok x → IsSvcError x
      own x q =
          let (c, _, built) =
            >>=-ok (classify s.code s.message md) _ x (sym (ap (from_status e md) h) ∙ q) in
          let made : svc_error (c.0) (received s.message) e (c.1) ≡ x = cc in
          subst IsSvcError made (is_svc_error _ _ _ _)

  -- A conversion of one of the client's own errors, which has no status: a ClientSdkError.
  twice-code :
      (x : GoError)
      → IsSvcError x
      → ((c : ErrorCode) (m : Message) (o : GoError) (w : MessageWrapper)
          → from_error (svc_error c m o w) ≡ none)
      → (y : GoError) × Path
          (Result GenerateDisposableTokenSuccess)
          (converted from_error x [])
          (err y)
        × (error_code y ≡ some client_sdk_error)
  unfolding converted convert_svc_err from_status new_momento_svc_err error_code
  twice-code _ (is_svc_error c m o w) plain = (
    svc_error client_sdk_error (fixed "SDK Failed to process the request.") (svc_error c m o w)
        (of_code client_sdk_error),
    ap (λ z. from_status (svc_error c m o w) [] z >>= λ e'. err e') (plain c m o w),
    refl,
  )

  -- What becomes of the result of the first conversion.
  abbrev converted_once : Result GoError → Result GenerateDisposableTokenSuccess
  converted_once first = converted_again from_error (first >>= λ e'. err e')

  -- Where the client's own errors carry no status, an error of the server with a status, to a request for a
  -- disposable token, is returned as a ClientSdkError, or, if the status is ResourceExhausted, NotFound or
  -- AlreadyExists and the trailer's key "err" has an empty list, its conversion panics.
  pub generate_disposable_token-code :
      (codec : Codec) (version auth_token : GoString)
      (server : AuthServer XGenerateDisposableTokenRequest XGenerateResponse)
      → ((c : ErrorCode) (m : Message) (o : GoError) (w : MessageWrapper)
          → from_error (svc_error c m o w) ≡ none)
      → (r : GenerateDisposableTokenRequest) (sent : HeadersSent) (headers : Headers)
        (q : XGenerateDisposableTokenRequest) (e : GoError) (md : List (Option (List GoString)))
        (s : Status)
      → (generate_disposable_token from_error codec version auth_token server r sent).sent
        ≡ some (headers, q)
      → server headers q ≡ failure e md
      → from_error e ≡ some s
      → ((x : GoError) × ((generate_disposable_token from_error codec version auth_token server r
              sent).outcome
            ≡ err x)
          × (error_code x ≡ some client_sdk_error))
        ⊎ (LooksAtTrailer s.code
            × HasEmptyCause md
            × ((generate_disposable_token from_error codec version auth_token server r sent).outcome
                ≡ panic index_out_of_range))
  unfolding read_disposable_token converted converted_again
  generate_disposable_token-code codec version auth_token server plain r sent headers q e md s h
        failed status =
      let (_, _, same) = generated from_error codec version auth_token server r sent headers q h in
      let outcome =
        same
        ∙ ap
            (λ reply.
              converted_again from_error
                (read_disposable_token from_error codec version auth_token reply))
            failed in
      elim (convert-own e md (some s) status) [
        | inl stop ↦
            let (looks, empty) = (convert_svc_err-panics from_error e md s status).0.0 stop in
            inr (looks, empty, outcome ∙ ap converted_once stop)
        | inr (x, made, own) ↦
            let (y, again, code) = twice-code x own plain in
            inl (y, outcome ∙ ap converted_once made ∙ again, code)
      ]
