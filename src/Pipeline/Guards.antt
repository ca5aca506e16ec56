-- ===== src/Pipeline/Guards.antt =====
-- verifier/pipeline/evaluate.go: when the guards of a step give no violation.
use zero_trust_service.Common.{
  ◌≡◌, refl, ◌↔◌, String, Bool, true, false, List, [], ◌∷◌, All, append-eq-nil_iff,
}
use zero_trust_service.Fault.{Result, ok, err}
use zero_trust_service.Pipeline.Model.{When}
use zero_trust_service.Pipeline.Violations.{ConditionFunc, EvalOptions}
use zero_trust_service.Pipeline.Gates.{judge_guard, condition_violations}

module _ (quote : String → String) (eo : EvalOptions) (fqn : String) where
  judge_guard-eq-nil_iff :
      (w : When) (r : Result Bool) → (judge_guard quote eo fqn w r ≡ []) ↔ (r ≡ ok true)
  unfolding judge_guard
  judge_guard-eq-nil_iff w (err e) = (λ h. cc, λ h. cc)
  judge_guard-eq-nil_iff w (ok true) = (λ h. refl, λ h. refl)
  judge_guard-eq-nil_iff w (ok false) = (λ h. cc, λ h. cc)

  -- The guards of a step give no violation exactly when each of them evaluates and holds.
  pub condition_violations-eq-nil_iff :
      (conds : List When) (cond : ConditionFunc)
      → ((condition_violations quote eo fqn conds cond).1 ≡ []) ↔ All (λ w. cond w ≡ ok true) conds
  unfolding condition_violations
  condition_violations-eq-nil_iff [] cond = (λ h. tt, λ h. refl)
  condition_violations-eq-nil_iff (w ∷ conds) cond =
      let (split, glue) = append-eq-nil_iff (judge_guard quote eo fqn w (cond w)) _ in
      let (holds, gives) = judge_guard-eq-nil_iff w (cond w) in
      let (all, none_of) = condition_violations-eq-nil_iff conds cond in
      (λ h. let (p, q) = split h in (holds p, all q), λ (p, q). glue (gives p, none_of q))
