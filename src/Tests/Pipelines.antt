-- ===== src/Tests/Pipelines.antt =====
-- Verdicts on a step behind a fanned-out and an excluded step.
use zero_trust_service.Common.{
  ◌≡◌, refl, ◌↔◌, ◌⊎◌, String, true, false, none, some, if◌then◌else◌, [], ◌∷◌, All, Some, ◌==◌,
  ◌||◌, eq_iff, arith,
}
use zero_trust_service.Fault.{message, ok, err}
use zero_trust_service.Pipeline.Model.{When, Ancestor, Resolution, join_and, join_or}
use zero_trust_service.Pipeline.Violations.{
  StepRanFunc, ConditionFunc, ConditionUnknownViolation, EvalOptions, with_ran,
  with_ancestor_policy, apply_evaluate_option, always_true, is_ignored, apply_policy,
}
use zero_trust_service.Pipeline.Gates.{
  condition_violations, judge_guard, effective_fqns, no_instances, non_enumerable, judge_ancestor,
  new_condition_unknown_violation,
}
use zero_trust_service.Pipeline.Ancestors.{
  look_up_runs, add_run, judge_and, judge_missing, ancestor_violations,
}
use zero_trust_service.Pipeline.Evaluate.{
  eval_options, evaluate_resolved, own_violations, gate_violations, all_ignored, ran_or_default,
  cond_or_default,
}
use zero_trust_service.Pipeline.AndGate.{AllRan, ancestor_violations-and-eq-nil_iff}
use zero_trust_service.Pipeline.OrGate.{Candidate, ancestor_violations-or-eq-nil_iff}
use zero_trust_service.Pipeline.Decisions.{evaluate_resolved-Judged}
use zero_trust_service.Pipeline.Accepted.{Judged, Accepts}
use zero_trust_service.Pipeline.Verdicts.{
  strict, Runnable, evaluate_resolved-Accepts_iff, evaluate_resolved-Runnable_iff,
}
use zero_trust_service.Pipeline.Progress.{evaluate_resolved_grows}
use zero_trust_service.Pipeline.Skips.{
  guard_skip, skip_loop, skip_turn, Gives, Passes, IsGated, guard_skip-skipped_iff,
  guard_skip-IsGated_iff,
}
use zero_trust_service.Tests.Samples.{quote}

abbrev build_step : Ancestor
build_step = record {
  fqn = "p.stages.s.steps.build";
  type_name = "Run";
  expands = true;
  instances = "build_0" ∷ "build_1" ∷ [];
  status = "";
  excluded = false;
}

abbrev skipped_step : Ancestor
skipped_step = record build_step { fqn = "p.stages.s.steps.skipped"; excluded = true }

abbrev guard : When
guard = record {
  level = "step";
  owner_fqn = "p.stages.s.steps.deploy";
  status = "";
  expression = "<+env> == 1";
  runtime_input = false;
}

abbrev deploy : Resolution
deploy = record {
  fqn = "p.stages.s.steps.deploy";
  found = true;
  type_name = "Run";
  has_strategy = false;
  status = "";
  excluded = false;
  join = join_and;
  ancestors = [];
  conditions = guard ∷ [];
  separate_plan_rollback = false;
}

-- Only the first instance has completed, and then both.
abbrev first_ran : StepRanFunc
first_ran f = ok (f == "build_0")

abbrev both_ran : StepRanFunc
both_ran f = ok (f == "build_0" || f == "build_1")

abbrev holds : ConditionFunc
holds w = ok true

blocked_by_one :
    (evaluate_resolved quote
      (strict first_ran holds)
      deploy
      (build_step ∷ skipped_step ∷ [])
      []).allowed
    ≡ false
unfolding evaluate_resolved eval_options apply_evaluate_option own_violations gate_violations
    condition_violations judge_guard cond_or_default ran_or_default ancestor_violations judge_and
    non_enumerable no_instances look_up_runs effective_fqns add_run judge_missing judge_ancestor
    apply_policy all_ignored is_ignored
blocked_by_one = refl

evaluate_resolved-Runnable_iff_example :
    ((evaluate_resolved quote
        (strict first_ran holds)
        deploy
        (build_step ∷ skipped_step ∷ [])
        []).allowed
      ≡ true)
    ↔ Runnable first_ran holds deploy (build_step ∷ skipped_step ∷ []) []
evaluate_resolved-Runnable_iff_example =
    evaluate_resolved-Runnable_iff quote first_ran holds deploy (build_step ∷ skipped_step ∷ []) []
      tt

-- A caller that accepts any ancestor which did not run.
abbrev lenient : EvalOptions
lenient = eval_options (with_ran (some first_ran) ∷ with_ancestor_policy (some (λ v. true)) ∷ [])

accepted_by_policy :
    (evaluate_resolved quote lenient deploy (build_step ∷ skipped_step ∷ []) []).allowed ≡ true
unfolding evaluate_resolved eval_options apply_evaluate_option own_violations gate_violations
    condition_violations judge_guard cond_or_default always_true ran_or_default ancestor_violations
    judge_and non_enumerable no_instances look_up_runs effective_fqns add_run judge_missing
    judge_ancestor apply_policy all_ignored is_ignored
accepted_by_policy = refl

-- A guard of an ancestor that could not be evaluated.
abbrev unknown_guard : ConditionUnknownViolation
unknown_guard =
    new_condition_unknown_violation quote "p.stages.s.steps.test" guard (message "unresolved")

unknown_guard-fresh : All (λ u. u.ignored ≡ false) (unknown_guard ∷ [])
unfolding new_condition_unknown_violation
unknown_guard-fresh = (refl, tt)

evaluate_resolved-Judged_example :
    All
      (Judged lenient)
      (evaluate_resolved quote lenient deploy (build_step ∷ []) (unknown_guard ∷ [])).violations
evaluate_resolved-Judged_example =
    evaluate_resolved-Judged lenient quote deploy (build_step ∷ []) (unknown_guard ∷ [])
      unknown_guard-fresh

evaluate_resolved-Accepts_iff_example :
    ((evaluate_resolved quote lenient deploy (build_step ∷ []) (unknown_guard ∷ [])).allowed ≡ true)
    ↔ All
        (Accepts lenient)
        (evaluate_resolved quote lenient deploy (build_step ∷ []) (unknown_guard ∷ [])).violations
evaluate_resolved-Accepts_iff_example =
    evaluate_resolved-Accepts_iff quote lenient deploy (build_step ∷ []) (unknown_guard ∷ [])
      unknown_guard-fresh

first-both : (f : String) → first_ran f ≡ ok true → both_ran f ≡ ok true
first-both f h = ground (arith, eq_iff f "build_0", eq_iff f "build_1")

abbrev either : Resolution
either = record deploy { join = join_or }

allowed_by_one :
    (evaluate_resolved quote (strict both_ran holds) deploy (build_step ∷ []) []).allowed ≡ true
unfolding evaluate_resolved eval_options apply_evaluate_option own_violations gate_violations
    condition_violations judge_guard cond_or_default ran_or_default ancestor_violations judge_and
    non_enumerable no_instances look_up_runs effective_fqns add_run judge_missing judge_ancestor
    apply_policy all_ignored is_ignored
allowed_by_one = refl

abbrev all_ran : StepRanFunc
all_ran f = ok true

evaluate_resolved_grows_example :
    (evaluate_resolved quote (strict all_ran holds) deploy (build_step ∷ []) []).allowed ≡ true
evaluate_resolved_grows_example =
    evaluate_resolved_grows both_ran all_ran (λ f h. refl) quote holds deploy (build_step ∷ []) []
      tt allowed_by_one

ancestor_violations-and-eq-nil_iff_example :
    (ancestor_violations lenient first_ran join_and (build_step ∷ skipped_step ∷ []) ≡ [])
    ↔ All (λ a. (a.excluded ≡ true) ⊎ AllRan first_ran a) (build_step ∷ skipped_step ∷ [])
ancestor_violations-and-eq-nil_iff_example =
    ancestor_violations-and-eq-nil_iff first_ran lenient (build_step ∷ skipped_step ∷ [])

ancestor_violations-or-eq-nil_iff_example :
    (ancestor_violations lenient first_ran join_or (skipped_step ∷ build_step ∷ []) ≡ []) ↔ (
      All (λ a. a.excluded ≡ true) (skipped_step ∷ build_step ∷ [])
      ⊎ Some (Candidate first_ran) (skipped_step ∷ build_step ∷ []))
ancestor_violations-or-eq-nil_iff_example =
    ancestor_violations-or-eq-nil_iff first_ran lenient (skipped_step ∷ build_step ∷ [])

-- The guard of the step cannot be evaluated, and that of its stage does not hold.
abbrev stage_fails : ConditionFunc
stage_fails w = if w.level == "stage" then ok false else err (message "unresolved")

abbrev stage_guard : When
stage_guard = record guard { level = "stage"; owner_fqn = "p.stages.s" }

skipped_by_stage :
    guard_skip quote "p.stages.s.steps.deploy"
      (some guard ∷ none ∷ some stage_guard ∷ [])
      stage_fails
    ≡ (true, none)
unfolding guard_skip skip_loop skip_turn
skipped_by_stage = refl

guard_skip-skipped_iff_example :
    ((guard_skip quote "deploy" (some guard ∷ none ∷ some stage_guard ∷ []) stage_fails).0 ≡ true)
    ↔ Some (Gives stage_fails (ok false)) (some guard ∷ none ∷ some stage_guard ∷ [])
guard_skip-skipped_iff_example =
    guard_skip-skipped_iff quote "deploy" (some guard ∷ none ∷ some stage_guard ∷ []) stage_fails

guard_skip-IsGated_iff_example :
    IsGated quote "deploy" (guard_skip quote "deploy" (some guard ∷ none ∷ []) holds)
    ↔ All (Passes holds) (some guard ∷ none ∷ [])
guard_skip-IsGated_iff_example =
    guard_skip-IsGated_iff quote "deploy" (some guard ∷ none ∷ []) holds
