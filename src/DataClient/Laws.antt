-- ===== src/DataClient/Laws.antt =====
-- When a request reaches the server, and where its outcome comes from.
use client_sdk_go.Base.{ℤ, ◌≡◌, refl, none, some, inl, inr, ap, arith}
use client_sdk_go.Text.{GoString}
use client_sdk_go.Errors.{GoError, Result, ok, err, panic}
use client_sdk_go.Errors.Convert.{FromError}
use client_sdk_go.Requester.Laws.{HasText, IsInvalid, prepare_cache_name-cases}
use client_sdk_go.Metadata.{Headers, HeadersSent, create_cache_metadata}
use client_sdk_go.DataClient.{
  Requester, Reply, response, failure, Server, Exchange, read_reply, init_and_exchange,
  check_and_exchange, make_request,
}

ok_or_IsInvalid : {A : Type 0} (x : Result A) (a : A) → x ≡ ok a → ¬ IsInvalid x
ok_or_IsInvalid (ok b) a e h = h
ok_or_IsInvalid (err e') a e h = cc
ok_or_IsInvalid (panic p) a e h = h

module _ {Req Resp Out : Type 0} (from_error : FromError) (runtime_version : GoString)
    (server : Server Req Resp) (default_ttl : ℤ) (r : Requester Req Resp Out)
    (sent : HeadersSent) where
  abbrev run : Exchange Req Out
  run = make_request from_error runtime_version server default_ttl r sent

  abbrev cache_headers : Headers
  cache_headers = (create_cache_metadata runtime_version r.cache_name sent).0

  -- What a successful request went through: a named cache, a message of its own, the server's
  -- answer to exactly that message under the headers of its cache, read by the request.
  pub record IsAnswered (out : Out) : Type 0 where
    pub message : Req
    pub answer : Resp
    pub named : HasText r.cache_name
    pub initialised : r.init_grpc_request default_ttl ≡ ok message
    pub recorded : run.sent ≡ some (cache_headers, message)
    pub answered : server r.method cache_headers message ≡ response answer
    pub read : r.interpret_grpc_response message answer ≡ ok out

  read_reply-ok :
      (req : Req) (reply : Reply Resp) (out : Out)
      → read_reply from_error runtime_version server r req reply ≡ ok out
      → (resp : Resp) × (reply ≡ response resp) × (r.interpret_grpc_response req resp ≡ ok out)
  unfolding read_reply
  read_reply-ok req (response resp) out h = (resp, refl, h)
  read_reply-ok req (failure e md) out h = ground arith

  abbrev initialised_run : Result Req → Exchange Req Out
  initialised_run ri = init_and_exchange from_error runtime_version server r ri sent

  abbrev named_run : Result GoString → Exchange Req Out
  named_run rn = check_and_exchange from_error runtime_version server default_ttl r rn sent

  run-named : HasText r.cache_name → run ≡ initialised_run (r.init_grpc_request default_ttl)
  unfolding make_request
  run-named h = elim (prepare_cache_name-cases r.cache_name) [
    | inl t ↦ ap named_run t.1
    | inr b ↦ absurd (b.0 h)
  ]

  named_run-refused :
      (rn : Result GoString)
      → IsInvalid rn
      → IsInvalid (named_run rn).outcome
        × ((named_run rn).sent ≡ none)
        × ((named_run rn).headers_sent ≡ sent)
  unfolding check_and_exchange
  named_run-refused (ok n) h = absurd h
  named_run-refused (err e) h = (h, refl, refl)
  named_run-refused (panic p) h = absurd h

  -- A request on a cache whose name is blank is refused as an invalid argument: nothing is sent, and
  -- no headers are used up.
  pub make_request-blank :
      ¬ HasText r.cache_name → IsInvalid run.outcome × (run.sent ≡ none) × (run.headers_sent ≡ sent)
  unfolding make_request
  make_request-blank h = elim (prepare_cache_name-cases r.cache_name) [
    | inl t ↦ absurd (h t.0)
    | inr b ↦ named_run-refused _ b.1
  ]

  -- A request on a named cache that cannot be turned into a message returns the error of that
  -- attempt: nothing is sent, and no headers are used up.
  pub make_request-invalid :
      (e : GoError)
      → HasText r.cache_name
      → r.init_grpc_request default_ttl ≡ err e
      → (run.outcome ≡ err e) × (run.sent ≡ none) × (run.headers_sent ≡ sent)
  unfolding init_and_exchange
  make_request-invalid e h p = rw (run-named h, p) (refl, refl, refl)

  initialised_run-IsAnswered :
      (ri : Result Req) (out : Out)
      → HasText r.cache_name
      → r.init_grpc_request default_ttl ≡ ri
      → run ≡ initialised_run ri
      → (initialised_run ri).outcome ≡ ok out
      → IsAnswered out
  unfolding init_and_exchange
  initialised_run-IsAnswered (ok req) out text p q h =
      let (resp, answered, read) = read_reply-ok req _ out h in
      record {
        message = req;
        answer = resp;
        named = text;
        initialised = p;
        recorded = ap (λ x. x.sent) q;
        answered = answered;
        read = read;
      }
  initialised_run-IsAnswered (err e) out text p q h = cc
  initialised_run-IsAnswered (panic f) out text p q h = cc

  -- A request succeeds only with an answer of the server to the message that it was turned into.
  pub make_request-IsAnswered : (out : Out) → run.outcome ≡ ok out → IsAnswered out
  make_request-IsAnswered out h = elim (prepare_cache_name-cases r.cache_name) [
    | inl t ↦
        initialised_run-IsAnswered (r.init_grpc_request default_ttl) out t.0 refl (run-named t.0)
          (rw (run-named t.0) at h)
    | inr b ↦ absurd (ok_or_IsInvalid run.outcome out h (make_request-blank b.0).0)
  ]
