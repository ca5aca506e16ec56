-- ===== src/Tests/Servers.antt =====
-- HTTP exchanges with a server whose handler is a sample verifier.
use zero_trust_service.Common.{ℕ, ◌≡◌, refl, ◌↔◌, String, true, none, [], ◌∷◌, All}
use zero_trust_service.Json.{Json, number}
use zero_trust_service.Fault.{Result, ok, err, message, error_text}
use zero_trust_service.Types.{Bytes, VerifyRequest, VerifyResponse}
use zero_trust_service.State.{State}
use zero_trust_service.Verifier.{to_handler}
use zero_trust_service.Instrumented.{with_tracker}
use zero_trust_service.Server.{
  Options, default_output_handler, http_error, respond, composed_verify_handler, handle_verify,
}
use zero_trust_service.Middleware.{missing_metadata, logging, metrics, audit}
use zero_trust_service.Middleware.Transparent.{
  IsTransparent, middlewares-IsTransparent, request_context, handle_verify-decides,
}
use zero_trust_service.Middleware.Audit.{MatchesReply, handle_verify-IsAudited}
use zero_trust_service.Tests.Samples.{plain_context, shell_request, start, denies}

abbrev millis : ℕ → Json
millis n = number "0"

abbrev uuid : State ℕ → String
uuid s = "id"

-- An empty body does not decode.
abbrev decode : Bytes → Result VerifyRequest
decode [] = err (message "syntax")
decode (b ∷ raw) = ok shell_request

abbrev options : Options (State ℕ)
options = record {
  port = 4210;
  verify_handler = to_handler denies;
  output_handler = default_output_handler;
  verify_middleware = logging ∷ metrics ∷ missing_metadata ∷ audit uuid ∷ [];
  output_middleware = [];
}

bad_body :
    (handle_verify decode (composed_verify_handler millis options) plain_context (ok []) start).0
    ≡ http_error 400 "failed to deserialize request: syntax"
unfolding handle_verify error_text
bad_body = refl

middlewares-IsTransparent_example :
    All IsTransparent (logging ∷ metrics ∷ missing_metadata ∷ audit uuid ∷ [])
middlewares-IsTransparent_example = middlewares-IsTransparent uuid

handle_verify-decides_example :
    (resp : VerifyResponse) × (t : State ℕ) × ((handle_verify decode
        (composed_verify_handler millis options)
        plain_context
        (ok (1 ∷ []))
        start).0
      ≡ respond resp)
    × (t.trackers ≡ (with_tracker plain_context start).1.trackers)
    × (t.own ≡ start.own)
    × ((resp.allowed ≡ true)
        ↔ ((denies (request_context (1 ∷ []) plain_context start) shell_request t).0 ≡ none))
handle_verify-decides_example =
    handle_verify-decides millis decode denies options plain_context (1 ∷ []) shell_request start
      refl (middlewares-IsTransparent uuid) refl

abbrev audited_options : Options (State ℕ)
audited_options = record options { verify_middleware = audit uuid ∷ logging ∷ [] }

handle_verify-IsAudited_example : MatchesReply shell_request (1 ∷ []) (
    handle_verify decode
      (composed_verify_handler millis audited_options)
      plain_context
      (ok (1 ∷ []))
      start)
handle_verify-IsAudited_example =
    handle_verify-IsAudited millis uuid decode audited_options (logging ∷ []) plain_context (1 ∷ [])
      shell_request start refl refl
