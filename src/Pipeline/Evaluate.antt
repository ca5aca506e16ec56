-- ===== src/Pipeline/Evaluate.antt =====
-- verifier/pipeline/evaluate.go: `EvaluateStep`, on what `Resolve` and `liveAncestorsOf` found for the
-- step in the graph.
use Prim.Native.String
use zero_trust_service.Common.{
  String, Bool, true, false, Option, none, some, List, [], ◌∷◌, ◌++◌, ◌&&◌, not, ◌==◌,
  if◌then◌else◌, map,
}
use zero_trust_service.Fault.{ok}
use zero_trust_service.Pipeline.Model.{
  Ancestor, JoinType, Resolution, when_level_unset, when_status_unset, fanout_enumerable,
}
use zero_trust_service.Pipeline.Violations.{
  StepRanFunc, ConditionFunc, always_true, condition_strategy_excluded, fanout_self,
  ConditionViolation, ConditionUnknownViolation, PipelineRollbackViolation, Violation,
  pipeline_rollback, is_ignored, EvalOptions, EvaluateOption, apply_evaluate_option, apply_policy,
}
use zero_trust_service.Pipeline.Gates.{
  ConditionRef, condition_violations, effective_fqns, judge_condition, judge_condition_unknown,
  judge_runtime_fanout, new_runtime_fanout_violation,
}
use zero_trust_service.Pipeline.Ancestors.{ancestor_violations}

-- The list of ancestors keeps their FQNs, the single field of an `AncestorRef`.
pub record Verdict : Type 0 where
  pub fqn : String
  pub allowed : Bool
  pub join_type : JoinType
  pub ancestors : List String
  pub conditions : List ConditionRef
  pub violations : List Violation

apply_all : EvalOptions → List EvaluateOption → EvalOptions
apply_all o [] = o
apply_all o (opt ∷ opts) = apply_all (apply_evaluate_option o opt) opts

-- The options of one evaluation, nothing set before they are applied.
unfoldable pub eval_options : List EvaluateOption → EvalOptions
unfolding apply_all apply_evaluate_option
eval_options opts =
    apply_all
      (record {
        ran = none;
        cond = none;
        condition_policy = none;
        condition_unknown_policy = none;
        ancestor_policy = none;
        runtime_fanout_policy = none;
        run_state_unknown_policy = none;
        pipeline_rollback_policy = none;
      })
      opts

-- Without `WithRan` nothing has run.
unfoldable pub ran_or_default : Option StepRanFunc → StepRanFunc
ran_or_default none f = ok false
ran_or_default (some ran) f = ran f

unfoldable pub cond_or_default : Option ConditionFunc → ConditionFunc
unfolding always_true
cond_or_default none w = always_true w
cond_or_default (some cond) w = cond w

unfoldable pub excluded_violation : Resolution → ConditionViolation
excluded_violation res = record {
  guard_fqn = res.fqn;
  level = when_level_unset;
  kind = condition_strategy_excluded;
  expression = "";
  status = when_status_unset;
  description =
      String.◌++◌ "matrix strategy on "
        (String.◌++◌ res.fqn " excludes every combination; the step is defined not to run");
  ignored = false;
}

abbrev pub rollback_violation : PipelineRollbackViolation
rollback_violation = record {
  description = "pipeline-rollback entry runs in a separate plan; forward gate not evaluated";
  ignored = false;
}

-- The effective ancestors, less the excluded ones.
unfoldable pub ancestor_refs : List Ancestor → List String
ancestor_refs [] = []
ancestor_refs (a ∷ ancestors) =
    (if a.excluded then [] else effective_fqns a) ++ ancestor_refs ancestors

-- The loop that looks for a violation that is not ignored.
unfoldable pub all_ignored : List Violation → Bool
all_ignored [] = true
all_ignored (v ∷ vs) = is_ignored v && all_ignored vs

module _ (quote : String → String) (eo : EvalOptions) where
  -- The violations of the step itself: its strategy, its own fan-out and its guards.
  unfoldable pub own_violations : Resolution → List Violation
  unfolding excluded_violation
  own_violations res =
      (if res.excluded then judge_condition eo (excluded_violation res) ∷ [] else [])
      ++ ((if not (res.status == fanout_enumerable) && not (res.status == "")
            then judge_runtime_fanout eo
                (new_runtime_fanout_violation res.fqn res.status fanout_self)
              ∷ []
            else [])
          ++ (condition_violations quote eo res.fqn res.conditions (cond_or_default eo.cond)).1)

  -- The violations of the forward gate.
  unfoldable pub gate_violations :
      Resolution → List Ancestor → List ConditionUnknownViolation → List Violation
  gate_violations res ancestors unknowns =
      if res.separate_plan_rollback
      then pipeline_rollback (record rollback_violation {
        ignored = apply_policy eo.pipeline_rollback_policy rollback_violation;
      })
        ∷ []
      else map (judge_condition_unknown eo) unknowns
        ++ ancestor_violations eo (ran_or_default eo.ran) res.join ancestors

  -- `EvaluateStep` for a step that was found: `ancestors` and `unknowns` are what `liveAncestorsOf`
  -- returned for it.
  unfoldable pub evaluate_resolved :
      Resolution → List Ancestor → List ConditionUnknownViolation → Verdict
  unfolding own_violations gate_violations
  evaluate_resolved res ancestors unknowns =
      let violations = own_violations res ++ gate_violations res ancestors unknowns in
      record {
        fqn = res.fqn;
        allowed = all_ignored violations;
        join_type = res.join;
        ancestors = if res.separate_plan_rollback then [] else ancestor_refs ancestors;
        conditions =
            (condition_violations quote eo res.fqn res.conditions (cond_or_default eo.cond)).0;
        violations = violations;
      }
