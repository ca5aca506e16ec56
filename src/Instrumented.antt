-- ===== src/Instrumented.antt =====
-- verifier/instrumented: the per-request tracker and the wrapper that times a verifier, records its
-- name in the tracker that the context points to, and counts its verdict in the metrics.
pub mod Tracking
pub mod Emissions
use zero_trust_service.Common.{
  ℕ, ℤ, pos, sub_ℕ, String, Bool, Option, none, some, List, [], ◌∷◌, ◌++◌, ◌&&◌, ◌==◌,
  if◌then◌else◌, length, get_elem?, set, is_some,
}
use zero_trust_service.Fault.{Error}
use zero_trust_service.Types.{VerifyRequest, resolve_account_id, resolve_task_type}
use zero_trust_service.State.{Tracker, State, Emission, counter, histogram, dim, now, tick, emit}
use zero_trust_service.Verifier.{Context, Interface}

-- `NewTracker`.
abbrev pub fresh_tracker : Tracker
fresh_tracker = record { validators_run = []; failed_validator = "" }

-- `Tracker.Record`.
unfoldable pub record_result : Tracker → String → Bool → Tracker
record_result t name failed = record t {
  validators_run = t.validators_run ++ name ∷ [];
  failed_validator = if failed && t.failed_validator == "" then name else t.failed_validator;
}

found_tracker : List Tracker → Option ℕ → Option Tracker
found_tracker ts none = none
found_tracker ts (some i) = get_elem? ts i

record_at : Option ℕ → String → Bool → List Tracker → List Tracker
record_at none name failed ts = ts
record_at (some i) name failed ts = elim (get_elem? ts i) [
  | none ↦ ts
  | some t ↦ set ts i (record_result t name failed)
]

result_text : Bool → String
result_text failed = if failed then "fail" else "pass"

module _ {S : Type 0} where
  -- `WithTracker(ctx, NewTracker())`: the new tracker's pointer is stored in the context.
  unfoldable pub with_tracker : Context → State S → Context × State S
  with_tracker ctx s = (
    record ctx { tracker = some (length s.trackers) },
    record s { trackers = s.trackers ++ fresh_tracker ∷ [] },
  )

  -- `TrackerFrom(ctx)`, read through the pointer.
  unfoldable pub tracker_from : Context → State S → Option Tracker
  unfolding found_tracker
  tracker_from ctx s = found_tracker s.trackers ctx.tracker

  -- `if t := TrackerFrom(ctx); t != nil { t.Record(name, failed) }`.
  track : Context → String → Bool → State S → State S
  unfolding record_at
  track ctx name failed s = record s { trackers = record_at ctx.tracker name failed s.trackers }

  -- The emissions of `Wrap`, after the verifier returned.
  report : String → VerifyRequest → ℤ → Bool → State S → State S
  unfolding result_text
  report name req duration failed s =
      let account_id = resolve_account_id req in
      let s1 =
        emit
          (counter "zts_verifier_evaluations_total" (pos 1) (
            dim "validator" name
            ∷ dim "result" (result_text failed)
            ∷ dim "account_id" account_id
            ∷ []))
          s in
      let s2 =
        emit
          (histogram "zts_verifier_duration_seconds" duration
            (dim "validator" name ∷ dim "account_id" account_id ∷ []))
          s1 in
      if failed
      then emit
          (counter "zts_blocked_tasks_total" (pos 1) (
            dim "account_id" account_id
            ∷ dim "task_type" (resolve_task_type req)
            ∷ dim "validator" name
            ∷ []))
          s2
      else s2

  conclude : String → Context → VerifyRequest → ℕ → Option Error × State S → Option Error × State S
  unfolding report track
  conclude name ctx req start (e, s) =
      let failed = is_some e in
      (e, report name req (sub_ℕ (now s) start) failed (track ctx name failed (tick s)))

  -- `instrumented.Wrap`.
  unfoldable pub instrument : String → Interface (State S) → Interface (State S)
  unfolding conclude
  instrument name v ctx req s = conclude name ctx req (now s) (v ctx req (tick s))
