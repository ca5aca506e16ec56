-- ===== src/Pipeline/Step.antt =====
-- verifier/pipeline/evaluate.go: `EvaluateStep`, from the FQN of a step to the verdict. `none` means
-- that the fuel of a walk ran out.
use zero_trust_service.Common.{
  ◌≡◌, refl, ap, ◌∙◌, String, Bool, true, false, Option, none, some, List, [],
}
use zero_trust_service.Pipeline.Model.{JoinType, join_and, join_or, Resolution}
use zero_trust_service.Pipeline.Violations.{EvalOptions, EvaluateOption}
use zero_trust_service.Pipeline.Evaluate.{Verdict, eval_options, cond_or_default, evaluate_resolved}
use zero_trust_service.Pipeline.Graph.{Pointer}
use zero_trust_service.Pipeline.Lookup.{PipelineGraph, lookup_node}
use zero_trust_service.Pipeline.Resolve.{resolve, resolve_node, resolve-found}
use zero_trust_service.Pipeline.Live.{Live, live_ancestors_of}
use zero_trust_service.Pipeline.Errors.{PipelineError, node_not_found}

-- A verdict, with the error that may stand beside it.
abbrev pub Answer : Type 0
Answer = Verdict × Option PipelineError

-- `Verdict{FQN: fqn}`.
unfoldable pub empty_verdict : String → Verdict
empty_verdict fqn = record {
  fqn = fqn;
  allowed = false;
  join_type = join_and;
  ancestors = [];
  conditions = [];
  violations = [];
}

abbrev pub is_and : JoinType → Bool
is_and join_and = true
is_and join_or = false

module _ (quote : String → String) where
  judge_live : EvalOptions → Resolution → Option Live → Option Answer
  unfolding evaluate_resolved
  judge_live eo res none = none
  judge_live eo res (some (ancestors, unknowns)) =
      some (evaluate_resolved quote eo res ancestors unknowns, none)

  -- The ancestors that gate the step. Those of `Resolve` stand where the node is nil.
  live_or_resolved : EvalOptions → Resolution → String → Option Pointer → Option Live
  unfolding live_ancestors_of cond_or_default
  live_or_resolved eo res fqn none = some (res.ancestors, [])
  live_or_resolved eo res fqn (some node) =
      live_ancestors_of quote node fqn (cond_or_default eo.cond) (is_and res.join)

  -- The same, on whether the step is an entry of a rollback that runs in a plan of its own.
  gating : EvalOptions → Resolution → String → Option Pointer → Bool → Option Live
  unfolding live_or_resolved
  gating eo res fqn found true = some ([], [])
  gating eo res fqn found false = live_or_resolved eo res fqn found

  -- The part of `EvaluateStep` behind the test of `res.Found`.
  evaluate_found : PipelineGraph → String → EvalOptions → Resolution → Bool → Option Answer
  unfolding judge_live gating lookup_node empty_verdict
  evaluate_found g fqn eo res false = some (empty_verdict fqn, some node_not_found)
  evaluate_found g fqn eo res true =
      judge_live eo res (gating eo res fqn (lookup_node g fqn) res.separate_plan_rollback)

  -- `EvaluateStep`.
  unfoldable pub evaluate_step : PipelineGraph → String → List EvaluateOption → Option Answer
  unfolding evaluate_found resolve eval_options
  evaluate_step g fqn opts =
      let res = resolve g fqn in evaluate_found g fqn (eval_options opts) res res.found

  module _ (g : PipelineGraph) (fqn : String) (opts : List EvaluateOption) where
    gating-separate :
        (eo : EvalOptions) (res : Resolution) (node : Option Pointer) (b : Bool)
        → b ≡ true
        → gating eo res fqn node b ≡ some ([], [])
    unfolding gating
    gating-separate eo res found true e = refl
    gating-separate eo res found false e = cc

    gating-live :
        (eo : EvalOptions) (res : Resolution) (target : Pointer) (b : Bool) {live : Live}
        → b ≡ false
        → live_ancestors_of quote target fqn (cond_or_default eo.cond) (is_and res.join) ≡ some live
        → gating eo res fqn (some target) b ≡ some live
    unfolding gating
    gating-live eo res target true e run = cc
    gating-live eo res target false e run = run

    evaluate_step-found :
        (target : Pointer)
        → lookup_node g fqn ≡ some target
        → evaluate_step g fqn opts
          ≡ judge_live (eval_options opts) (resolve_node target fqn) (
              gating
                (eval_options opts)
                (resolve_node target fqn)
                fqn
                (some target)
                (resolve_node target fqn).separate_plan_rollback)
    unfolding evaluate_step evaluate_found resolve_node
    evaluate_step-found target found = rw (resolve-found g fqn target found, found) refl

    -- A step that is an entry of a pipeline rollback has no ancestors to gate it.
    pub evaluate_step-separate :
        (target : Pointer)
        → lookup_node g fqn ≡ some target
        → (resolve_node target fqn).separate_plan_rollback ≡ true
        → evaluate_step g fqn opts
          ≡ some (evaluate_resolved quote (eval_options opts) (resolve_node target fqn) [] [], none)
    unfolding judge_live
    evaluate_step-separate target found plan =
        let eo = eval_options opts in
        let res = resolve_node target fqn in
        evaluate_step-found target found
        ∙ ap (judge_live eo res)
            (gating-separate eo res (some target) res.separate_plan_rollback plan)

    pub evaluate_step-live :
        (target : Pointer) {live : Live}
        → lookup_node g fqn ≡ some target
        → (resolve_node target fqn).separate_plan_rollback ≡ false
        → live_ancestors_of quote target fqn
            (cond_or_default (eval_options opts).cond)
            (is_and (resolve_node target fqn).join)
          ≡ some live
        → evaluate_step g fqn opts
          ≡ some (
            evaluate_resolved quote (eval_options opts) (resolve_node target fqn) live.0 live.1,
            none,
          )
    unfolding judge_live
    evaluate_step-live target found plan run =
        let eo = eval_options opts in
        let res = resolve_node target fqn in
        evaluate_step-found target found
        ∙ ap (judge_live eo res) (gating-live eo res target res.separate_plan_rollback plan run)

    pub evaluate_step-missing :
        lookup_node g fqn ≡ none
        → evaluate_step g fqn opts ≡ some (empty_verdict fqn, some node_not_found)
    unfolding evaluate_step evaluate_found resolve
    evaluate_step-missing e = rw e refl
