-- ===== src/Middleware.antt =====
-- middleware/verify and middleware/output: the middlewares for logging, metrics, requests without
-- metadata and the audit. Log lines are left out; a logging middleware reads the clock where the code
-- does. `uuid` is what `uuid.New().String()` returns in a state.
pub mod Transparent
pub mod Audit
use zero_trust_service.Common.{
  ℕ, ℤ, pos, sub_ℕ, String, Bool, true, false, Option, none, some, List, [], ◌∷◌, ◌&&◌, not, ◌==◌,
  if◌then◌else◌, is_some, ◌++◌,
}
use zero_trust_service.Fault.{Error, error_text}
use zero_trust_service.Types.{
  Bytes, VerifyRequest, VerifyResponse, TaskPackage, OutputRequest, resolve_account_id,
  resolve_task_type, request_task_id, request_delegate_id, request_delegate_instance_id,
  request_git_ops_agent_id, output_account_id, output_task_type_name, output_response_code,
  output_git_ops_agent_id,
}
use zero_trust_service.State.{
  State, Tracker, Record, OutputRecord, verify, output, counter, histogram, dim, now, tick, emit,
  write_event,
}
use zero_trust_service.Verifier.{Context}
use zero_trust_service.Instrumented.{tracker_from}
use zero_trust_service.Server.{VerifyMiddleware, OutputMiddleware}

-- `classify`.
unfoldable pub classify : VerifyResponse → Option Error → String
classify resp e =
    if is_some e then "error" else if resp.allowed then "authorized" else "unauthorized"

-- `Tracker.Results` of the tracker that the context points to, if any.
abbrev pub tracked_run : Option Tracker → List String
tracked_run none = []
tracked_run (some t) = t.validators_run

abbrev pub tracked_failure : Option Tracker → String
tracked_failure none = ""
tracked_failure (some t) = t.failed_validator

abbrev pub text_or_empty : Option Error → String
text_or_empty none = ""
text_or_empty (some e) = error_text e

-- `RawPayloadFrom`.
abbrev pub payload_or_nil : Option Bytes → Bytes
payload_or_nil none = []
payload_or_nil (some raw) = raw

-- `recordMissingMetadata`, by the package that the request has.
missing : String → List String
missing f = f ∷ []

missing_fields_of : Option TaskPackage → VerifyRequest → List String
unfolding missing
missing_fields_of none req = missing "zts_metadata"
missing_fields_of (some p) req =
    if not (is_some p.zts_metadata) && p.git_ops_agent_id == ""
    then missing "zts_metadata"
    else (if resolve_account_id req == "" then missing "account_id" else [])
      ++ (if resolve_task_type req == "" then missing "task_type" else [])

unfoldable pub missing_fields : VerifyRequest → List String
unfolding missing_fields_of
missing_fields req = missing_fields_of req.task_package req

module _ {S : Type 0} where
  count_missing : List String → State S → State S
  count_missing [] s = s
  count_missing (f ∷ fs) s =
      count_missing fs (emit (counter "zts_missing_metadata_total" (pos 1) (dim "field" f ∷ [])) s)

  -- `verify.MissingMetadata`.
  unfoldable pub missing_metadata : VerifyMiddleware (State S)
  unfolding count_missing
  missing_metadata next ctx req s = next ctx req (count_missing (missing_fields req) s)

  -- `verify.Logging`, less its log lines.
  unfoldable pub logging : VerifyMiddleware (State S)
  logging next ctx req s = let (r, s') = next ctx req (tick s) in (r, tick s')

  measured :
      VerifyRequest
      → ℕ
      → (VerifyResponse × Option Error) × State S
      → (VerifyResponse × Option Error) × State S
  measured req start ((resp, e), s) =
      let dims = dim "status" (classify resp e) ∷ dim "account_id" (resolve_account_id req) ∷ [] in
      (
        (resp, e),
        emit (histogram "zts_verify_request_duration_seconds" (sub_ℕ (now s) start) dims)
            (emit (counter "zts_verify_requests_total" (pos 1) dims) (tick s)),
      )

  -- `verify.Metrics`.
  unfoldable pub metrics : VerifyMiddleware (State S)
  unfolding measured
  metrics next ctx req s = measured req (now s) (next ctx req (tick s))

  -- `output.Logging`, less its log line.
  unfoldable pub output_logging : OutputMiddleware (State S)
  output_logging next ctx req s = next ctx req s

  -- `output.Metrics`.
  unfoldable pub output_metrics : OutputMiddleware (State S)
  output_metrics next ctx req s =
      let (r, s') = next ctx req s in
      (
        r,
        emit
            (counter "zts_output_requests_total" (pos 1) (
              dim "status" (if is_some r.1 then "error" else "success")
              ∷ dim "account_id" (output_account_id req)
              ∷ []))
            s',
      )

module _ {S : Type 0} (uuid : State S → String) where
  -- `buildRecord`.
  unfoldable pub build_record :
      ℕ → ℕ → VerifyRequest → Context → VerifyResponse → Option Error → State S → Record
  build_record start end_time req ctx resp e s = record {
    id = uuid s;
    start_time = start;
    end_time = end_time;
    account_id = resolve_account_id req;
    task_id = request_task_id req;
    task_type = resolve_task_type req;
    delegate_id = request_delegate_id req;
    delegate_instance_id = request_delegate_instance_id req;
    git_ops_agent_id = request_git_ops_agent_id req;
    allowed = not (is_some e) && resp.allowed;
    failed_validator = tracked_failure (tracker_from ctx s);
    reason = resp.reason;
    error = text_or_empty e;
    duration = sub_ℕ end_time start;
    validators_run = tracked_run (tracker_from ctx s);
  }

  audited :
      Context
      → VerifyRequest
      → ℕ
      → (VerifyResponse × Option Error) × State S
      → (VerifyResponse × Option Error) × State S
  unfolding build_record
  audited ctx req start ((resp, e), s) = (
    (resp, e),
    write_event
        (verify (build_record start (now s) req ctx resp e (tick s))
          (payload_or_nil ctx.raw_payload))
        (tick s),
  )

  -- `verify.Audit`.
  unfoldable pub audit : VerifyMiddleware (State S)
  unfolding audited
  audit next ctx req s = audited ctx req (now s) (next ctx req (tick s))

  -- `output.Audit`; `millis` is `UTC().UnixMilli()` of a reading of the clock.
  unfoldable pub output_audit : (ℕ → ℤ) → OutputMiddleware (State S)
  output_audit millis next ctx req s =
      let (r, s') = next ctx req s in
      (
        r,
        write_event
            (output
              (record {
                id = uuid s';
                timestamp = millis (now s');
                account_id = output_account_id req;
                task_id = req.task_id;
                task_type_name = output_task_type_name req;
                response_code = output_response_code req;
                git_ops_agent_id = output_git_ops_agent_id req;
              })
              (payload_or_nil ctx.raw_payload))
            (tick s'),
      )
