-- ===== src/Protos.antt =====
-- Shapes that the responses of many RPCs share: the oneofs of cacheclient.proto and the response
-- types of the package responses.
use Prim.Native.String.{String}
use client_sdk_go.Base.{ℕ}
use client_sdk_go.Errors.{Result, ok, err}
use client_sdk_go.Requester.{err_unexpected_grpc_response}

-- pb.ECacheResult; `other` is any other number.
pub data ECacheResult : Type 0 where
  result_ok hit miss : ECacheResult
  other : ℕ → ECacheResult

-- The oneof of a response: one of its two messages, or neither.
pub data Lookup (A : Type 0) : Type 0 where
  found : A → Lookup A
  missing : Lookup A
  unset : Lookup A

-- The responses of the package responses. A request that has no other answer returns `success`.
pub data Success : Type 0 where
  success : Success

pub data HitOrMiss (A : Type 0) : Type 0 where
  hit : A → HitOrMiss A
  miss : HitOrMiss A

-- The switch on such a oneof, as interpretGrpcResponse of many requests has it.
unfoldable pub interpret_lookup : {A : Type 0} → String → Lookup A → Result (HitOrMiss A)
interpret_lookup request_name (found a) = ok (HitOrMiss.hit a)
interpret_lookup request_name missing = ok HitOrMiss.miss
interpret_lookup request_name unset = err (err_unexpected_grpc_response request_name)
