-- ===== src/Server.antt =====
-- options.go, verify.go and output.go: the options of the server, the composition of the middlewares
-- with the response timing, and the two HTTP handlers. A middleware is a function between handlers.
-- An HTTP exchange is the raw body, or the error of reading it, and the response that is written.
use zero_trust_service.Common.{
  ℕ, String, true, Option, none, some, List, [], ◌∷◌, ◌++◌, insert, compose, join,
}
use zero_trust_service.Json.{Json}
use zero_trust_service.Fault.{Error, error_text, Result, ok, err}
use zero_trust_service.Types.{Bytes, VerifyRequest, VerifyResponse, OutputRequest, OutputResponse}
use zero_trust_service.State.{State, now, tick}
use zero_trust_service.Verifier.{Context, VerifyHandler}
use zero_trust_service.Instrumented.{with_tracker}

abbrev pub OutputHandler : Type 0 → Type 0
OutputHandler W = Context → OutputRequest → W → (OutputResponse × Option Error) × W

abbrev pub VerifyMiddleware : Type 0 → Type 0
VerifyMiddleware W = VerifyHandler W → VerifyHandler W

abbrev pub OutputMiddleware : Type 0 → Type 0
OutputMiddleware W = OutputHandler W → OutputHandler W

-- `DefaultVerifyHandler` and `DefaultOutputHandler`.
unfoldable pub default_verify_handler : {W : Type 0} → VerifyHandler W
default_verify_handler ctx req w =
    ((record { allowed = true; reason = ""; metadata = none }, none), w)

unfoldable pub default_output_handler : {W : Type 0} → OutputHandler W
default_output_handler ctx req w = ((record { error = "" }, none), w)

pub record Options (W : Type 0) : Type 0 where
  pub port : ℕ
  pub verify_handler : VerifyHandler W
  pub output_handler : OutputHandler W
  pub verify_middleware : List (VerifyMiddleware W)
  pub output_middleware : List (OutputMiddleware W)

-- The options `WithPort`, `WithVerifyHandler`, `WithOutputHandler`, `WithVerifyMiddleware` and
-- `WithOutputMiddleware`. They panic on a nil function, which
-- a function of the model never is, and on a port that is not positive, which is left out here.
pub data ServerOption (W : Type 0) : Type 0 where
  with_port : ℕ → ServerOption W
  with_verify_handler : VerifyHandler W → ServerOption W
  with_output_handler : OutputHandler W → ServerOption W
  with_verify_middleware : List (VerifyMiddleware W) → ServerOption W
  with_output_middleware : List (OutputMiddleware W) → ServerOption W

module _ {W : Type 0} where
  unfoldable pub apply_option : Options W → ServerOption W → Options W
  apply_option o (with_port p) = record o { port = p }
  apply_option o (with_verify_handler h) = record o { verify_handler = h }
  apply_option o (with_output_handler h) = record o { output_handler = h }
  apply_option o (with_verify_middleware mws) = record o {
    verify_middleware = o.verify_middleware ++ mws;
  }
  apply_option o (with_output_middleware mws) = record o {
    output_middleware = o.output_middleware ++ mws;
  }

  apply_options : Options W → List (ServerOption W) → Options W
  apply_options o [] = o
  apply_options o (f ∷ fs) = apply_options (apply_option o f) fs

  -- `resolveOptions`.
  unfoldable pub resolve_options : List (ServerOption W) → Options W
  unfolding apply_options apply_option
  resolve_options opts =
      apply_options
        (record {
          port = 8080;
          verify_handler = default_verify_handler;
          output_handler = default_output_handler;
          verify_middleware = [];
          output_middleware = [];
        })
        opts

-- `if resp.Metadata == nil { resp.Metadata = make(…) }`.
abbrev pub metadata_or_new : Option (List (String × Json)) → List (String × Json)
metadata_or_new none = []
metadata_or_new (some m) = m

module _ {S : Type 0} (millis : ℕ → Json) where
  unfoldable pub stamp :
      ℕ → (VerifyResponse × Option Error) × State S → (VerifyResponse × Option Error) × State S
  stamp start ((resp, some e), s) = ((resp, some e), tick s)
  stamp start ((resp, none), s) = (
    (
      record resp {
        metadata = some (
            insert "endTs" (millis (now s))
              (insert "startTs" (millis start) (metadata_or_new resp.metadata)));
      },
      none,
    ),
    tick s,
  )

  -- `responseTiming`; `millis` renders a reading of the clock as `UTC().UnixMilli()`.
  unfoldable pub response_timing : VerifyMiddleware (State S)
  unfolding stamp
  response_timing next ctx req s = stamp (now s) (next ctx req (tick s))

  unfoldable pub composed_verify_handler : Options (State S) → VerifyHandler (State S)
  composed_verify_handler o = response_timing (compose o.verify_handler o.verify_middleware)

unfoldable pub composed_output_handler : {W : Type 0} → Options W → OutputHandler W
composed_output_handler o = compose o.output_handler o.output_middleware

-- What the client receives: a status with a text, or the encoded response with status 200. A failure
-- of the encoder is only logged.
pub data Reply (R : Type 0) : Type 0 where
  http_error : ℕ → String → Reply R
  respond : R → Reply R

module _ {S : Type 0} where
  unfoldable pub verify_reply :
      (VerifyResponse × Option Error) × State S → Reply VerifyResponse × State S
  verify_reply ((resp, some e), s) = (http_error 500 (error_text e), s)
  verify_reply ((resp, none), s) = (respond resp, s)

  unfoldable pub verify_decoded :
      VerifyHandler (State S)
      → Context
      → Bytes
      → Result VerifyRequest
      → State S
      → Reply VerifyResponse × State S
  unfolding verify_reply
  verify_decoded handler ctx raw (err e) s =
      (http_error 400 (join ("failed to deserialize request: " ∷ error_text e ∷ [])), s)
  verify_decoded handler ctx raw (ok request) s =
      let (ctx', s') = with_tracker ctx s in
      verify_reply (handler (record ctx' { raw_payload = some raw }) request s')

  -- `handleVerify`; `decode` is `json.Unmarshal`, and `body` what `io.ReadAll` returned.
  unfoldable pub handle_verify :
      (Bytes → Result VerifyRequest)
      → VerifyHandler (State S)
      → Context
      → Result Bytes
      → State S
      → Reply VerifyResponse × State S
  unfolding verify_decoded
  handle_verify decode handler ctx (err e) s =
      (http_error 400 (join ("failed to read request body: " ∷ error_text e ∷ [])), s)
  handle_verify decode handler ctx (ok raw) s = verify_decoded handler ctx raw (decode raw) s

  output_reply : (OutputResponse × Option Error) × State S → Reply OutputResponse × State S
  output_reply ((resp, some e), s) = (http_error 500 (error_text e), s)
  output_reply ((resp, none), s) = (respond resp, s)

  output_decoded :
      OutputHandler (State S)
      → Context
      → Bytes
      → Result OutputRequest
      → State S
      → Reply OutputResponse × State S
  unfolding output_reply
  output_decoded handler ctx raw (err e) s =
      (http_error 400 (join ("failed to deserialize request: " ∷ error_text e ∷ [])), s)
  output_decoded handler ctx raw (ok request) s =
      output_reply (handler (record ctx { raw_payload = some raw }) request s)

  -- `handleOutput`.
  unfoldable pub handle_output :
      (Bytes → Result OutputRequest)
      → OutputHandler (State S)
      → Context
      → Result Bytes
      → State S
      → Reply OutputResponse × State S
  unfolding output_decoded
  handle_output decode handler ctx (err e) s =
      (http_error 400 (join ("failed to read request body: " ∷ error_text e ∷ [])), s)
  handle_output decode handler ctx (ok raw) s = output_decoded handler ctx raw (decode raw) s
