-- ===== src/Pipeline/Returns.antt =====
-- verifier/pipeline/evaluate.go: that `EvaluateStep` ends, and when it gives its error.
use zero_trust_service.Common.{
  ◌≡◌, refl, ◌↔◌, ◌⊎◌, inl, inr, Option-cases, String, none, some, List, [], Bool-cases,
}
use zero_trust_service.Pipeline.Violations.{EvaluateOption}
use zero_trust_service.Pipeline.Evaluate.{eval_options, cond_or_default, evaluate_resolved}
use zero_trust_service.Pipeline.Graph.{Pointer}
use zero_trust_service.Pipeline.Rank.{IsNode}
use zero_trust_service.Pipeline.Lookup.{PipelineGraph, lookup_node}
use zero_trust_service.Pipeline.Resolve.{resolve_node}
use zero_trust_service.Pipeline.Gate.{live_ancestors_of-some}
use zero_trust_service.Pipeline.Errors.{node_not_found}
use zero_trust_service.Pipeline.Step.{
  Answer, empty_verdict, is_and, evaluate_step, evaluate_step-separate, evaluate_step-live,
  evaluate_step-missing,
}

module _ (quote : String → String) (g : PipelineGraph) (fqn : String)
    (opts : List EvaluateOption) where
  found_returns :
      (target : Pointer)
      → IsNode g.root target
      → lookup_node g fqn ≡ some target
      → (a : Answer) × (evaluate_step quote g fqn opts ≡ some a) × (a.1 ≡ none)
  found_returns target in_graph found =
      let res = resolve_node target fqn in
      let eo = eval_options opts in
      elim (Bool-cases res.separate_plan_rollback) [
        | inl plan ↦ (
          (evaluate_resolved quote eo res [] [], none),
          evaluate_step-separate quote g fqn opts target found plan,
          refl,
        )
        | inr plan ↦
            let (live, run) =
              live_ancestors_of-some g.root (cond_or_default eo.cond) target in_graph quote fqn
                (is_and res.join) in
            (
              (evaluate_resolved quote eo res live.0 live.1, none),
              evaluate_step-live quote g fqn opts target found plan run,
              refl,
            )
      ]

  -- The evaluation of any FQN ends, with whatever options, in a graph whose maps name its own nodes.
  -- It gives the error that the step is not found exactly where the lookup finds no node, and then
  -- the verdict does not allow the step and names no violation; else it gives no error.
  pub evaluate_step_returns :
      ((target : Pointer) → lookup_node g fqn ≡ some target → IsNode g.root target)
      → (a : Answer) × (evaluate_step quote g fqn opts ≡ some a)
        × ((a.1 ≡ some node_not_found) ↔ (lookup_node g fqn ≡ none))
        × ((a.1 ≡ none) ⊎ (a ≡ (empty_verdict fqn, some node_not_found)))
  evaluate_step_returns maps = elim (Option-cases (lookup_node g fqn)) [
    | inl missing ↦ (
      (empty_verdict fqn, some node_not_found),
      evaluate_step-missing quote g fqn opts missing,
      (λ e. missing, λ e. refl),
      inr refl,
    )
    | inr (target, found) ↦
        let (a, run, fine) = found_returns target (maps target found) found in
        (a, run, (λ e. cc, λ e. cc), inl fine)
  ]
