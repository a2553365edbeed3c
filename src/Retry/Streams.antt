-- ===== src/Retry/Streams.antt =====
-- internal/interceptor/stream_retry_interceptor.go: the loop that opens a stream, which decides as the
-- unary one does.
use Prim.Native.String.{String}
use mathlib.Core.Option.{map}
use client_sdk_go.Base.{
  ℕ, zero, suc, ◌+◌, ℤ, ◌≡◌, refl, true, false, Option, none, some, List, [], Bool-cases,
  Option-cases, inl, inr,
}
use client_sdk_go.Errors.{GoError, nil_error, is_nil}
use client_sdk_go.Errors.Convert.{Code}
use client_sdk_go.Retry.{
  Strategy, determine_when_to_retry, Run, sleep, props_at, retry_loop, unary_retry,
}

-- What the interceptor did: the stream if one was opened, else the error; the attempts; the sleeps.
pub record StreamRun (Stream : Type 0) : Type 0 where
  pub stream : Option Stream
  pub error : GoError
  pub attempts : ℕ
  pub slept : List ℤ

-- `streamer n` is what attempt n returns, a stream and an error. `none` means that the fuel ran out.
module _ {Stream : Type 0} (status_code : GoError → Code) (s : Strategy) (method : String)
    (streamer : ℕ → Stream × GoError) where
  unfoldable pub stream_loop : ℕ → ℕ → List ℤ → Option (StreamRun Stream)
  unfolding determine_when_to_retry is_nil
  stream_loop zero attempt slept = none
  stream_loop (suc fuel) attempt slept = elim (is_nil ((streamer attempt).1)) [
    | true ↦ some (record {
      stream = some ((streamer attempt).0);
      error = nil_error;
      attempts = attempt;
      slept = slept;
    })
    | false ↦
        elim (determine_when_to_retry s (record {
          grpc_status_code = status_code ((streamer attempt).1);
          grpc_method = method;
          attempt_number = attempt;
        })) [
          | none ↦ some (record {
            stream = none;
            error = (streamer attempt).1;
            attempts = attempt;
            slept = slept;
          })
          | some t ↦ stream_loop fuel (attempt + 1) (sleep t slept)
        ]
  ]

  -- StreamRetryInterceptor.
  unfoldable pub stream_retry : ℕ → Option (StreamRun Stream)
  unfolding stream_loop
  stream_retry fuel = stream_loop fuel 1 []

-- The run without its stream.
unfoldable pub without_stream : {Stream : Type 0} → StreamRun Stream → Run
without_stream r = record { error = r.error; attempts = r.attempts; slept = r.slept }

module _ {Stream : Type 0} (status_code : GoError → Code) (s : Strategy) (method : String)
    (streamer : ℕ → Stream × GoError) where
  loop_agrees :
      (fuel attempt : ℕ) (slept : List ℤ)
      → map without_stream (stream_loop status_code s method streamer fuel attempt slept)
        ≡ retry_loop status_code s method (λ n. (streamer n).1) fuel attempt slept
  unfolding stream_loop retry_loop without_stream props_at
  loop_agrees zero attempt slept = refl
  loop_agrees (suc fuel) attempt slept = elim (Bool-cases (is_nil ((streamer attempt).1))) [
    | inl opened ↦ rw (stream_loop, retry_loop, opened) refl
    | inr failed ↦
        elim (Option-cases (
          determine_when_to_retry s
            (props_at status_code s method (λ n. (streamer n).1) attempt))) [
              | inl stop ↦ rw (stream_loop, retry_loop, failed, stop) refl
              | inr (t, again) ↦
                  rw (stream_loop, retry_loop, failed, again)
                    (loop_agrees fuel (attempt + 1) (sleep t slept))
            ]
  ]

  -- Opening a stream makes the attempts and the sleeps of a unary call with the same errors, and returns its
  -- error.
  pub stream_retry-unary :
      (fuel : ℕ)
      → map without_stream (stream_retry status_code s method streamer fuel)
        ≡ unary_retry status_code s method (λ n. (streamer n).1) fuel
  unfolding stream_retry unary_retry
  stream_retry-unary fuel = loop_agrees fuel 1 []
