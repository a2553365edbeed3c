-- ===== src/DataClient.antt =====
-- momento/scs_data_client.go: how a request is checked, sent and read. A request type of the
-- package gives the five methods of the interface `requester`; the server, behind the interceptors
-- of the connection, is a parameter.
pub mod Laws
use Prim.Native.String.{String}
use client_sdk_go.Base.{ℤ, Option, none, some, List, [], ◌∷◌}
use client_sdk_go.Text.{GoString}
use client_sdk_go.Errors.{GoError, Result, ok, err, panic}
use client_sdk_go.Errors.Convert.{Metadata, FromError, convert_svc_err}
use client_sdk_go.Requester.{prepare_cache_name}
use client_sdk_go.Metadata.{Headers, HeadersSent, create_cache_metadata}

-- The interface `requester`, over the messages of one RPC and the response type of the request.
-- `init_grpc_request` is given the client's default TTL, the one field of the client that is read.
pub record Requester (Req Resp Out : Type 0) : Type 0 where
  pub cache_name : GoString
  pub request_name : String
  pub method : String
  pub init_grpc_request : ℤ → Result Req
  pub interpret_grpc_response : Req → Resp → Result Out

-- What an RPC returns: a message, or an error with the header's and the trailer's metadata.
pub data Reply (Resp : Type 0) : Type 0 where
  response : Resp → Reply Resp
  failure : GoError → List Metadata → Reply Resp

abbrev pub Server : Type 0 → Type 0 → Type 0
Server Req Resp = String → Headers → Req → Reply Resp

-- A finished call: its outcome, the RPC that it made, if it made one, and the headers map after it.
pub record Exchange (Req Out : Type 0) : Type 0 where
  pub outcome : Result Out
  pub sent : Option (Headers × Req)
  pub headers_sent : HeadersSent

module _ {Req Resp Out : Type 0} (from_error : FromError) (runtime_version : GoString)
    (server : Server Req Resp) where
  -- What makeRequest does with the reply of makeGrpcRequest.
  unfoldable pub read_reply : Requester Req Resp Out → Req → Reply Resp → Result Out
  read_reply r req (response resp) = r.interpret_grpc_response req resp
  read_reply r req (failure e md) = elim (convert_svc_err from_error e md) [
    | ok e' ↦ err e'
    | err e' ↦ err e'
    | panic p ↦ panic p
  ]

  -- makeRequest, after the request is initialised.
  unfoldable pub exchange : Requester Req Resp Out → Req → HeadersSent → Exchange Req Out
  unfolding read_reply
  exchange r req sent =
      let (headers, sent') = create_cache_metadata runtime_version r.cache_name sent in
      record {
        outcome = read_reply r req (server r.method headers req);
        sent = some (headers, req);
        headers_sent = sent';
      }

  unfoldable pub init_and_exchange :
      Requester Req Resp Out → Result Req → HeadersSent → Exchange Req Out
  unfolding exchange
  init_and_exchange r (ok req) sent = exchange r req sent
  init_and_exchange r (err e) sent = record { outcome = err e; sent = none; headers_sent = sent }
  init_and_exchange r (panic p) sent = record {
    outcome = panic p;
    sent = none;
    headers_sent = sent;
  }

  unfoldable pub check_and_exchange :
      ℤ → Requester Req Resp Out → Result GoString → HeadersSent → Exchange Req Out
  unfolding init_and_exchange
  check_and_exchange default_ttl r (ok name) sent =
      init_and_exchange r (r.init_grpc_request default_ttl) sent
  check_and_exchange default_ttl r (err e) sent = record {
    outcome = err e;
    sent = none;
    headers_sent = sent;
  }
  check_and_exchange default_ttl r (panic p) sent = record {
    outcome = panic p;
    sent = none;
    headers_sent = sent;
  }

  -- makeRequest. The client-side timeout of the context is the server's to report.
  unfoldable pub make_request : ℤ → Requester Req Resp Out → HeadersSent → Exchange Req Out
  unfolding check_and_exchange
  make_request default_ttl r sent =
      check_and_exchange default_ttl r (prepare_cache_name r.cache_name) sent
