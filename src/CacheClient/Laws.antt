-- ===== src/CacheClient/Laws.antt =====
-- What a constructed client has, where its requests go, and which errors the requests on caches hide.
use native.Mathlib.Nat.{mod-lt}
use client_sdk_go.Base.{
  ℕ, ◌+◌, ◌%◌, ◌^◌, ◌<◌, ◌==◌, zero, suc, ℤ, pos, negsuc, is_positive, is_zero, is_negative, ◌≡◌,
  inl, inr, refl, subst, sym, ap, ◌∙◌, Bool, true, false, Option, none, some, List, [], ◌∷◌,
  Bool-cases, arith, ==_iff,
}
use client_sdk_go.Text.{GoString}
use client_sdk_go.Errors.{
  ErrorCode, client_sdk_error, Message, MessageWrapper, GoError, svc_error, momento_error, wrapped,
  of_code, error_code, fixed, invalid_argument_error, invalid_argument_message, not_found_error,
  already_exists_error, nil_error, new_momento_svc_err, convert_to_customer_error, is_nil, Result,
  ok, err, ◌>>=◌, >>=-ok,
}
use client_sdk_go.Errors.Convert.{
  FromError, Metadata, Status, already_exists, not_found, from_status, convert_svc_err,
}
use client_sdk_go.Errors.Laws.{convert_svc_err-code}
use client_sdk_go.Metadata.{HeadersSent}
use client_sdk_go.DataClient.{Requester, Server, make_request}
use client_sdk_go.Protos.{success}
use client_sdk_go.Dictionary.Single.{get_cache_name_for_request}
use client_sdk_go.Topics.Client.{is_cache_name_valid}
use client_sdk_go.CacheClient.{
  CacheClientProps, Connections, CacheClient, num_channels, check_timeout, check_default_ttl,
  check_made, check_connected, validate_eager_connection_timeout, make_data_clients,
  common_cache_client, get_next_data_client, Call, call, create_cache_already_exists, ControlReply,
  failed, same_code, unless, read_created, create_cache, read_deleted_cache, delete_cache,
}

num_channels_pos : (n : ℕ) → 0 < num_channels n
unfolding num_channels
num_channels_pos n = ground arith

-- The loop appends as many clients as it has rounds.
make_data_clients_count :
    (from_error : FromError) (net : Connections) (eager : Bool) (n i k : ℕ)
    → make_data_clients from_error net eager n i ≡ ok k
    → n ≡ k
unfolding make_data_clients
make_data_clients_count from_error net eager zero i k h = cc
make_data_clients_count from_error net eager (suc n) i k h =
    let (_, _, h1) = >>=-ok (check_made from_error (net.data_client i)) _ k h in
    let (_, _, h2) = >>=-ok (check_connected eager (net.connect i)) _ k h1 in
    let (more, made, h3) = >>=-ok (make_data_clients from_error net eager n (i + 1)) _ k h2 in
    let same = make_data_clients_count from_error net eager n (i + 1) more made in
    let counted : more + 1 ≡ k = cc in omega (arith, same, counted)

-- What a client that the constructor has made consists of.
made_from :
    (from_error : FromError) (props : CacheClientProps) (net : Connections) (c : CacheClient)
    → common_cache_client from_error props net ≡ ok c
    → record {
      default_cache = props.cache_name;
      default_ttl = props.default_ttl;
      num_data_clients = num_channels props.num_grpc_channels;
    }
      ≡ c
unfolding common_cache_client
made_from from_error props net c h =
    let (_, _, h1) = >>=-ok (check_timeout props.client_side_timeout) _ c h in
    let (_, _, h2) = >>=-ok (check_made from_error net.control_client) _ c h1 in
    let (_, _, h3) = >>=-ok (check_default_ttl props.default_ttl) _ c h2 in
    let (_, _, h4) =
      >>=-ok (check_made from_error (validate_eager_connection_timeout props.eager_connect_timeout))
        _ c h3 in
    let (clients, made, h5) =
      >>=-ok
        (make_data_clients from_error net (is_positive props.eager_connect_timeout)
          (num_channels props.num_grpc_channels) 0)
        _ c h4 in
    let (_, _, h6) = >>=-ok (check_made from_error net.ping_client) _ c h5 in
    let counted = make_data_clients_count from_error net _ _ _ clients made in cc

>>=-skip {ℓ κ} :
    {A : Type ℓ} {B : Type κ} (r : Result A) (f : A → Result B) (a : A) → r ≡ ok a → (r >>= f) ≡ f a
>>=-skip r f a h = ap (λ s. s >>= f) h

>>=-fails {ℓ κ} :
    {A : Type ℓ} {B : Type κ} (r : Result A) (f : A → Result B) (y : GoError)
    → r ≡ err y
    → (r >>= f) ≡ err y
>>=-fails r f y h = ap (λ s. s >>= f) h

next_client :
    (c : CacheClient) (count : ℕ)
    → 0 < c.num_data_clients
    → get_next_data_client c count
      ≡ ok ((count + 1) % 2 ^ 64 % c.num_data_clients, (count + 1) % 2 ^ 64)
unfolding get_next_data_client
next_client c count h = elim (Bool-cases (c.num_data_clients == 0)) [
  | inl empty ↦ absurd (omega (arith, (==_iff c.num_data_clients 0).0 empty, h))
  | inr more ↦ rw more refl
]

-- The cache that a request goes to: the default one, if none is named.
abbrev pub GoesTo : GoString → GoString → GoString → Type 0
GoesTo default_cache [] cache = cache ≡ default_cache
GoesTo default_cache (c ∷ named) cache = cache ≡ c ∷ named

get_cache_name_for_request-GoesTo :
    (default_cache named : GoString)
    → GoesTo default_cache named (get_cache_name_for_request default_cache named)
unfolding get_cache_name_for_request
get_cache_name_for_request-GoesTo default_cache [] = refl
get_cache_name_for_request-GoesTo default_cache (c ∷ named) = refl

-- A client that the constructor has made carries out every request on one of its connections, and as a data client
-- does, for the named cache, or for the default one if no cache is named.
pub call-connected :
    {Req Resp Out : Type 0} (from_error : FromError) (runtime_version : GoString)
    (server : Server Req Resp) (props : CacheClientProps) (net : Connections) (c : CacheClient)
    (r : Requester Req Resp Out) (count : ℕ) (sent : HeadersSent)
    → common_cache_client from_error props net ≡ ok c
    → (x : Call Req Out) × (call from_error runtime_version server c r count sent ≡ ok x)
      × (x.connection < c.num_data_clients)
      × (cache : GoString) × GoesTo props.cache_name r.cache_name cache
      × (x.exchange
          ≡ make_request from_error runtime_version server props.default_ttl
              (record r { cache_name = cache })
              sent)
unfolding call
call-connected {Req} {Resp} {Out} from_error runtime_version server props net c r count sent h =
    let same = made_from from_error props net c h in
    let room =
      subst (λ d. 0 < d.num_data_clients) same (num_channels_pos props.num_grpc_channels) in
    let x : Call Req Out = record {
      connection = (count + 1) % 2 ^ 64 % c.num_data_clients;
      count = (count + 1) % 2 ^ 64;
      exchange =
          make_request from_error runtime_version server c.default_ttl
            (record r { cache_name = get_cache_name_for_request c.default_cache r.cache_name })
            sent;
    } in
    (
      x,
      >>=-skip (get_next_data_client c count) _ _ (next_client c count room),
      mod-lt ((count + 1) % 2 ^ 64) room,
      get_cache_name_for_request props.cache_name r.cache_name,
      get_cache_name_for_request-GoesTo props.cache_name r.cache_name,
      ap
          (λ d.
            make_request from_error runtime_version server d.default_ttl
              (record r { cache_name = get_cache_name_for_request d.default_cache r.cache_name })
              sent)
          (sym same),
    )

negative_eager :
    (from_error : FromError) (timeout : ℤ)
    → ((c : ErrorCode) (m : Message) (o : GoError) (w : MessageWrapper)
        → from_error (svc_error c m o w) ≡ none)
    → is_negative timeout ≡ true
    → (y : GoError) × (check_made from_error (validate_eager_connection_timeout timeout) ≡ err y)
      × (error_code y ≡ some client_sdk_error)
unfolding check_made validate_eager_connection_timeout convert_svc_err from_status
    new_momento_svc_err is_nil error_code convert_to_customer_error is_negative
negative_eager from_error (pos n) plain h = absurd cc
negative_eager from_error (negsuc n) plain h =
    let refused =
      svc_error invalid_argument_error (fixed "eager connection timeout must be greater than 0")
        nil_error invalid_argument_message in
    let y =
      momento_error client_sdk_error
        (wrapped (of_code client_sdk_error) (fixed "SDK Failed to process the request.")) refused in
    (
      y,
      ap (λ o. from_status refused [] o >>= λ e. err (convert_to_customer_error e)) (plain _ _ _ _),
      refl,
    )

-- Where the client's own errors carry no status, a negative time for eager connections, in a configuration that is
-- otherwise accepted so far, is returned as a ClientSdkError.
pub common_cache_client-eager :
    (from_error : FromError) (props : CacheClientProps) (net : Connections)
    → ((c : ErrorCode) (m : Message) (o : GoError) (w : MessageWrapper)
        → from_error (svc_error c m o w) ≡ none)
    → check_timeout props.client_side_timeout ≡ ok tt
    → net.control_client ≡ nil_error
    → is_zero props.default_ttl ≡ false
    → is_negative props.eager_connect_timeout ≡ true
    → (x : GoError) × (common_cache_client from_error props net ≡ err x)
      × (error_code x ≡ some client_sdk_error)
unfolding common_cache_client check_made is_nil check_default_ttl
common_cache_client-eager from_error props net plain t n d e =
    let (y, fails, code) = negative_eager from_error props.eager_connect_timeout plain e in
    let control : check_made from_error net.control_client ≡ ok tt = ap (check_made from_error) n in
    let ttl : check_default_ttl props.default_ttl ≡ ok tt = rw d refl in
    let stops : common_cache_client from_error props net ≡ err y =
      >>=-skip (check_timeout props.client_side_timeout) _ tt t
      ∙ >>=-skip (check_made from_error net.control_client) _ tt control
      ∙ >>=-skip (check_default_ttl props.default_ttl) _ tt ttl
      ∙ >>=-fails
          (check_made from_error (validate_eager_connection_timeout props.eager_connect_timeout)) _
          y fails in
    (y, stops, code)

same_code-already :
    (c : Option ErrorCode) → same_code c already_exists_error ≡ true → c ≡ some already_exists_error
unfolding same_code
same_code-already c h = ground arith

same_code-not_found :
    (c : Option ErrorCode) → same_code c not_found_error ≡ true → c ≡ some not_found_error
unfolding same_code
same_code-not_found c h = ground arith

unless-ok : {A : Type 0} (b : Bool) (a r : A) (e : GoError) → unless b a e ≡ ok r → b ≡ true
unfolding unless
unless-ok true a r e h = refl
unless-ok false a r e h = absurd cc

module _ (from_error : FromError) (server : GoString → ControlReply) (default_cache name : GoString)
    (e : GoError) (md : List Metadata) (s : Status) where
  -- If CreateCache says that the cache exists where the server has returned an error with a status, the status is
  -- AlreadyExists.
  pub create_cache-hides :
      from_error e ≡ some s
      → server (get_cache_name_for_request default_cache name) ≡ failed e md
      → create_cache from_error server default_cache name ≡ ok create_cache_already_exists
      → s.code ≡ already_exists
  unfolding create_cache read_created
  create_cache-hides q given h =
      let (_, _, h1) =
        >>=-ok (is_cache_name_valid (get_cache_name_for_request default_cache name)) _
          create_cache_already_exists h in
      let (x, made, h2) =
        >>=-ok (convert_svc_err from_error e md) _ create_cache_already_exists
          (ap (read_created from_error) (sym given) ∙ h1) in
      let code =
        same_code-already (error_code x)
          (unless-ok _ create_cache_already_exists create_cache_already_exists x h2) in
      (convert_svc_err-code from_error e x md s already_exists_error q made code).3.0 (inl refl)

  -- If DeleteCache succeeds where the server has returned an error with a status, the status is NotFound.
  pub delete_cache-hides :
      from_error e ≡ some s
      → server (get_cache_name_for_request default_cache name) ≡ failed e md
      → delete_cache from_error server default_cache name ≡ ok success
      → s.code ≡ not_found
  unfolding delete_cache read_deleted_cache
  delete_cache-hides q given h =
      let (_, _, h1) =
        >>=-ok (is_cache_name_valid (get_cache_name_for_request default_cache name)) _ success h in
      let (x, made, h2) =
        >>=-ok (convert_svc_err from_error e md) _ success
          (ap (read_deleted_cache from_error) (sym given) ∙ h1) in
      let code = same_code-not_found (error_code x) (unless-ok _ success success x h2) in
      (convert_svc_err-code from_error e x md s not_found_error q made code).2.0 (inl refl)
