-- ===== src/Verifier.antt =====
-- verifier/verifier.go, chain.go, dispatcher.go and handler.go: the verifier interface and the
-- ways to compose verifiers. A verifier is a function of the request's context, the request and
-- the state `W` of everything outside of the code (trackers, metrics, a verifier's own store),
-- which it returns anew with its error, if any.
pub mod Chains
use zero_trust_service.Common.{
  ℕ, String, true, false, Option, none, some, List, [], ◌∷◌, lookup, compose, if◌then◌else◌, ◌==◌,
}
use zero_trust_service.Fault.{Error, error_text}
use zero_trust_service.Types.{Bytes, VerifyRequest, VerifyResponse, resolve_task_type}

-- The values that the code stores in a `context.Context`: the pointer to the request's tracker,
-- the pointer to its pipeline holder and the raw body. A pointer is an index into the state.
pub record Context : Type 0 where
  pub tracker : Option ℕ
  pub holder : Option ℕ
  pub raw_payload : Option Bytes

abbrev pub Interface : Type 0 → Type 0
Interface W = Context → VerifyRequest → W → Option Error × W

-- A handler returns a response and an error, both.
abbrev pub VerifyHandler : Type 0 → Type 0
VerifyHandler W = Context → VerifyRequest → W → (VerifyResponse × Option Error) × W

module _ {W : Type 0} where
  -- `if err := …; err != nil { return err }`, and the rest of the function.
  abbrev pub and_then : Option Error × W → (W → Option Error × W) → Option Error × W
  and_then (none, w) rest = rest w
  and_then (some e, w) rest = (some e, w)

  unfoldable pub chain : List (Interface W) → Interface W
  chain [] ctx req w = (none, w)
  chain (v ∷ vs) ctx req w = and_then (v ctx req w) (chain vs ctx req)

  unfoldable pub wrap : Interface W → List (Interface W → Interface W) → Interface W
  wrap v mws = compose v mws

  -- The loop body of `Dispatcher.Handle` after the task type is known.
  unfoldable pub handle_found : Option (Interface W) → Interface W
  handle_found none ctx req w = (none, w)
  handle_found (some found) ctx req w = found ctx req w

  unfoldable pub dispatcher : List (String × Interface W) → Interface W
  unfolding handle_found
  dispatcher chains ctx req w =
      if resolve_task_type req == ""
      then (none, w)
      else handle_found (lookup (resolve_task_type req) chains) ctx req w

  respond : Option Error × W → (VerifyResponse × Option Error) × W
  respond (some e, w) =
      ((record { allowed = false; reason = error_text e; metadata = none }, none), w)
  respond (none, w) = ((record { allowed = true; reason = ""; metadata = none }, none), w)

  unfoldable pub to_handler : Interface W → VerifyHandler W
  unfolding respond
  to_handler v ctx req w = respond (v ctx req w)
