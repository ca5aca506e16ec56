-- ===== src/Tests/Services.antt =====
-- A chain built from a small configuration, and a store with one completed step.
use zero_trust_service.Common.{
  ℕ, ◌≡◌, refl, String, Bool, true, false, Option, none, some, [], ◌∷◌, ◌||◌, ◌&&◌, ◌==◌, length,
  ◌↔◌, if◌then◌else◌, lookup, insert,
}
use zero_trust_service.Fault.{message, wrapped, ok, err}
use zero_trust_service.Types.{resolve_task_type}
use zero_trust_service.State.{State}
use zero_trust_service.Verifier.{chain, dispatcher, handle_found}
use zero_trust_service.Service.Build.{
  ValidatorDef, ValidatorsConfig, is_enabled, enabled_flag, Registry, ResolveFunc, register,
  resolve, wrapped_by, add_verifier, add_chain, dispatched, chain_or_pass, build_verifier,
  build_from, build_verifiers, build_chains, chain_of, build_chain,
}
use zero_trust_service.Service.Chains.{Distinct}
use zero_trust_service.Service.Listed.{listed, build_chain-listed}
use zero_trust_service.Service.Built.{Built, build_verifiers-Built}
use zero_trust_service.Service.Store.{new_store, mark_ran, ran}
use zero_trust_service.Service.Completed.{ran-mark_ran}
use zero_trust_service.Pipeline.Model.{When}
use zero_trust_service.Service.Conditions.{
  ConditionChecker, new_condition_checker, mark_status, or_success, observed_status, both_gates,
  status_gate, expr_gate, eval,
}
use zero_trust_service.Service.Guards.{
  StatusHolds, ExprHolds, eval-eq-ok_iff, observed_status-mark_status,
}
use zero_trust_service.Tests.Samples.{plain_context, shell_request, start, counts, denies, quote}

abbrev show : ℕ → String
show n = "n"

-- The configuration of a sample verifier is its kind.
abbrev registry : Registry (State ℕ) Bool
registry = register "counts" (λ cfg. ok counts) (register "denies" (λ cfg. ok denies) [])

abbrev by_name : ResolveFunc (State ℕ) Bool
by_name = resolve quote registry

abbrev def : Option Bool → String → ValidatorDef Bool
def on name = record { type_name = name; enabled = on; config = true }

abbrev config : ValidatorsConfig Bool
config = record {
  global = def none "counts" ∷ def (some false) "denies" ∷ [];
  by_task_type = ("SHELL", def (some true) "denies" ∷ []) ∷ ("HTTP", []) ∷ [];
  custom = def none "counts" ∷ [];
}

distinct : Distinct config.by_task_type
unfolding lookup
distinct = (refl, (refl, tt))

built_config :
    (v : _) × ((build_chain {S = ℕ} show by_name none config start).0 ≡ ok v)
    × (v plain_context shell_request start ≡ (some (message "no"), record start { own = 2 }))
unfolding build_chain chain_of build_verifiers build_from build_verifier add_verifier build_chains
    add_chain dispatched chain_or_pass wrapped_by is_enabled enabled_flag resolve register lookup
    insert chain dispatcher handle_found resolve_task_type
built_config = (_, refl, refl)

unknown_name :
    (build_chain {S = ℕ} show by_name none
      (record config { custom = def none "other" ∷ [] })
      start).0
    ≡ err (wrapped "custom verifier #n (other): " (message "unknown verifier type: other") "")
unfolding build_chain chain_of build_verifiers build_from build_verifier add_verifier build_chains
    add_chain is_enabled enabled_flag resolve register lookup insert
unknown_name = refl

build_chain-listed_example :
    built_config.0 plain_context shell_request start
    ≡ chain (listed show by_name none config shell_request) plain_context shell_request start
build_chain-listed_example =
    build_chain-listed show by_name none config start built_config.0 plain_context shell_request
      start distinct built_config.1

global_built : build_verifiers show by_name none "global" config.global ≡ ok (counts ∷ [], 1)
unfolding build_verifiers build_from build_verifier add_verifier wrapped_by is_enabled enabled_flag
    resolve register lookup insert
global_built = refl

build_verifiers-Built_example :
    Built show by_name none config.global (counts ∷ []) × (1 ≡ length (counts ∷ []))
build_verifiers-Built_example =
    build_verifiers-Built show by_name none "global" config.global (counts ∷ []) 1 global_built

ran-mark_ran_example :
    ran (mark_ran new_store "e1" "build_0" "build") "e1" "build"
    ≡ (ran new_store "e1" "build" || "e1" == "e1" && ("build_0" == "build" || "build" == "build"))
ran-mark_ran_example = ran-mark_ran new_store "e1" "build_0" "build" "e1" "build"

-- Texts without blanks in lower case, compared as they are.
abbrev same_text : String → String
same_text s = s

abbrev equal_text : String → String → Bool
equal_text s t = s == t

abbrev checker : ConditionChecker
checker = mark_status (new_condition_checker none []) "e1" "pipeline.stages.s" "Failure"

abbrev on_success : When
on_success = record {
  level = "stage";
  owner_fqn = "pipeline.stages.s";
  status = "Success";
  expression = "";
  runtime_input = false;
}

-- The recorded failure decides, where another execution still counts as a success.
failed_stage : eval same_text same_text equal_text checker "e1" on_success ≡ ok false
unfolding eval status_gate expr_gate both_gates mark_status observed_status or_success insert lookup
failed_stage = refl

other_execution : eval same_text same_text equal_text checker "e2" on_success ≡ ok true
unfolding eval status_gate expr_gate both_gates mark_status observed_status or_success insert lookup
other_execution = refl

eval-eq-ok_iff_example : (eval same_text same_text equal_text checker "e2" on_success ≡ ok true) ↔ (
    (on_success.runtime_input ≡ false)
    × StatusHolds same_text same_text equal_text checker "e2" on_success
    × ExprHolds same_text same_text equal_text checker "e2" on_success)
eval-eq-ok_iff_example = eval-eq-ok_iff same_text same_text equal_text checker "e2" on_success

observed_status-mark_status_example :
    observed_status
      (mark_status checker "e1" "pipeline.stages.t" "Success")
      "e1"
      "pipeline.stages.s"
    ≡ (if "e1" == "e1" && "pipeline.stages.t" == "pipeline.stages.s"
        then "Success"
        else observed_status checker "e1" "pipeline.stages.s")
observed_status-mark_status_example =
    observed_status-mark_status checker "e1" "pipeline.stages.t" "Success" "e1" "pipeline.stages.s"
