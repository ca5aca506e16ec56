-- ===== src/Middleware/Audit.antt =====
-- middleware/verify/audit.go: what the audit of a request says beside what the client is told.
use zero_trust_service.Common.{
  ◌≡◌, refl, ℕ, String, false, Option, none, some, List, [], ◌∷◌, ◌++◌, compose, compose-cons,
}
use zero_trust_service.Json.{Json}
use zero_trust_service.Fault.{Error, Result, ok}
use zero_trust_service.Types.{
  Bytes, VerifyRequest, VerifyResponse, resolve_account_id, request_task_id, resolve_task_type,
  request_delegate_id, request_delegate_instance_id, request_git_ops_agent_id,
}
use zero_trust_service.State.{State, Record, Event, verify, now, tick}
use zero_trust_service.Verifier.{Context}
use zero_trust_service.Instrumented.{with_tracker}
use zero_trust_service.Server.{
  stamp, verify_reply, VerifyMiddleware, Options, response_timing, composed_verify_handler, Reply,
  http_error, respond, handle_verify,
}
use zero_trust_service.Middleware.{audited, audit}

-- What a record says of the request agrees with what the client receives: an HTTP error has the text
-- of the error and allows nothing, a response its decision and its reason.
abbrev pub Tells : Record → Reply VerifyResponse → Type 0
Tells rec (http_error status msg) = (rec.allowed ≡ false) × (rec.error ≡ msg)
Tells rec (respond resp) =
    (rec.allowed ≡ resp.allowed) × (rec.reason ≡ resp.reason) × (rec.error ≡ "")

-- The last event of a state is the audit of a request with its raw body, and tells of the reply.
pub record IsAudited {S : Type 0} (req : VerifyRequest) (raw : Bytes) (reply : Reply VerifyResponse)
    (s : State S) : Type 0 where
  pub earlier : List Event
  pub rec : Record
  pub last : s.written ≡ earlier ++ verify rec raw ∷ []
  pub verdict : Tells rec reply
  pub account : rec.account_id ≡ resolve_account_id req
  pub task : rec.task_id ≡ request_task_id req
  pub task_type : rec.task_type ≡ resolve_task_type req
  pub delegate : rec.delegate_id ≡ request_delegate_id req
  pub delegate_instance : rec.delegate_instance_id ≡ request_delegate_instance_id req
  pub agent : rec.git_ops_agent_id ≡ request_git_ops_agent_id req

abbrev pub MatchesReply :
    {S : Type 0} → VerifyRequest → Bytes → Reply VerifyResponse × State S → Type 0
MatchesReply req raw (reply, s) = IsAudited req raw reply s

module _ {S : Type 0} (millis : ℕ → Json) (uuid : State S → String) where
  audited_reply :
      (ctx : Context) (raw : Bytes) (req : VerifyRequest) (start begin : ℕ)
      (r : (VerifyResponse × Option Error) × State S)
      → MatchesReply req raw (
          verify_reply
            (stamp millis start (audited uuid (record ctx { raw_payload = some raw }) req begin r)))
  unfolding verify_reply stamp audited
  audited_reply ctx raw req start begin ((resp, none), s) = record {
    earlier = s.written;
    rec = _;
    last = refl;
    verdict = (refl, refl, refl);
    account = refl;
    task = refl;
    task_type = refl;
    delegate = refl;
    delegate_instance = refl;
    agent = refl;
  }
  audited_reply ctx raw req start begin ((resp, some e), s) = record {
    earlier = s.written;
    rec = _;
    last = refl;
    verdict = (refl, refl);
    account = refl;
    task = refl;
    task_type = refl;
    delegate = refl;
    delegate_instance = refl;
    agent = refl;
  }

  -- Where the audit is the outermost of the server's middlewares, whatever the others and the handler
  -- do, the last event that a decoded request leaves is its audit, with the exact body that the client
  -- sent and the request's account, task, type, delegate and agent. Where the client receives a
  -- response, the audit has its decision and its reason, and no error; where the client receives an
  -- HTTP error, the audit denies the task and has the text of the error.
  pub handle_verify-IsAudited :
      (decode : Bytes → Result VerifyRequest) (o : Options (State S))
      (mws : List (VerifyMiddleware (State S))) (ctx : Context) (raw : Bytes) (req : VerifyRequest)
      (s : State S)
      → o.verify_middleware ≡ audit uuid ∷ mws
      → decode raw ≡ ok req
      → MatchesReply req raw
          (handle_verify decode (composed_verify_handler millis o) ctx (ok raw) s)
  unfolding handle_verify composed_verify_handler response_timing audit
  handle_verify-IsAudited decode o mws ctx raw req s outer decoded =
      let (ctx', s') = with_tracker ctx s in
      rw (decoded, outer, compose-cons o.verify_handler (audit uuid) mws)
        (audited_reply ctx' raw req (now s') (now (tick s')) (
          compose o.verify_handler mws (record ctx' { raw_payload = some raw }) req
            (tick (tick s'))))
