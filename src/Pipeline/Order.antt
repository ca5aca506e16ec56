-- ===== src/Pipeline/Order.antt =====
-- verifier/pipeline/evaluate.go: `VerifyStepOrder`, from a decoded pipeline to the verdict.
use zero_trust_service.Common.{◌≡◌, refl, ◌⊎◌, inl, inr, String, false, none, some, List}
use zero_trust_service.Pipeline.Violations.{EvaluateOption}
use zero_trust_service.Pipeline.Strategies.{MatrixNaming}
use zero_trust_service.Pipeline.Assemble.{
  BuildResult, built, failed, Decoded, build_graph, step_order, verify_step_order,
}
use zero_trust_service.Pipeline.Step.{Answer, empty_verdict}
use zero_trust_service.Pipeline.Built.{lookup_node-build_graph}
use zero_trust_service.Pipeline.Returns.{evaluate_step_returns}

-- The verification ends for every decoded pipeline, FQN and list of options. Where it gives an error,
-- which is of the pipeline or of an FQN that is not in it, the verdict beside it is the empty one,
-- which does not allow the step.
pub verify_step_order_returns :
    (quote : String → String) (yaml : Decoded) (fqn : String) (build_opts : List MatrixNaming)
    (opts : List EvaluateOption)
    → (a : Answer) × (verify_step_order quote yaml fqn build_opts opts ≡ some a)
      × ((a.1 ≡ none) ⊎ ((a.0 ≡ empty_verdict fqn) × (a.0.allowed ≡ false)))
unfolding verify_step_order empty_verdict
verify_step_order_returns quote yaml fqn build_opts opts =
    by_result (build_graph yaml build_opts) refl
  where
    by_result :
        (r : BuildResult)
        → build_graph yaml build_opts ≡ r
        → (a : Answer) × (step_order quote fqn opts r ≡ some a)
          × ((a.1 ≡ none) ⊎ ((a.0 ≡ empty_verdict fqn) × (a.0.allowed ≡ false)))
    by_result (failed e) same = ((empty_verdict fqn, some e), refl, inr (refl, refl))
    by_result (built g) same =
        let (a, run, _, result) =
          evaluate_step_returns quote g fqn opts
            (λ target found. lookup_node-build_graph yaml build_opts g fqn target same found) in
        (a, run, elim result [ inl fine ↦ inl fine | inr e ↦ inr (cc, cc) ])
