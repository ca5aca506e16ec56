-- ===== src/Pipeline/Accepted.antt =====
-- verifier/pipeline/evaluate.go: which violations the policies of a caller accept.
use mathlib.Core.Option.{some-injective}
use zero_trust_service.Common.{
  ◌≡◌, refl, sym, subst, ◌∙◌, ◌↔◌, Option, none, some, Bool, true, false,
}
use zero_trust_service.Pipeline.Violations.{
  Violation, condition, condition_unknown, ancestor, runtime_fanout, run_state_unknown,
  pipeline_rollback, is_ignored, EvalOptions, apply_policy,
}

-- The caller gave a policy, and it accepts the violation.
abbrev AcceptedBy : {V : Type 0} → Option (V → Bool) → V → Type 0
AcceptedBy {V} policy v = (fn : V → Bool) × (policy ≡ some fn) × (fn v ≡ true)

-- The caller gave a policy for the kind of the violation, and it accepts the violation as it was
-- before the decision.
abbrev pub Accepts : EvalOptions → Violation → Type 0
Accepts eo (condition v) = AcceptedBy eo.condition_policy (record v { ignored = false })
Accepts eo (condition_unknown v) =
    AcceptedBy eo.condition_unknown_policy (record v { ignored = false })
Accepts eo (ancestor v) = AcceptedBy eo.ancestor_policy (record v { ignored = false })
Accepts eo (runtime_fanout v) = AcceptedBy eo.runtime_fanout_policy (record v { ignored = false })
Accepts eo (run_state_unknown v) =
    AcceptedBy eo.run_state_unknown_policy (record v { ignored = false })
Accepts eo (pipeline_rollback v) =
    AcceptedBy eo.pipeline_rollback_policy (record v { ignored = false })

-- The violation is ignored exactly if it is accepted.
abbrev pub Judged : EvalOptions → Violation → Type 0
Judged eo v = (is_ignored v ≡ true) ↔ Accepts eo v

apply_policy_iff :
    {V : Type 0} (policy : Option (V → Bool)) (v : V)
    → (apply_policy policy v ≡ true) ↔ AcceptedBy policy v
unfolding apply_policy
apply_policy_iff none v = (λ h. cc, λ (fn, e, h). cc)
apply_policy_iff (some fn) v =
    (λ h. (fn, refl, h), λ (gn, e, h). subst (λ k. k v ≡ true) (sym (some-injective _ _ e)) h)

-- What `applyPolicy` gives for the policy of its kind.
abbrev pub decided : EvalOptions → Violation → Bool
decided eo (condition v) = apply_policy eo.condition_policy (record v { ignored = false })
decided eo (condition_unknown v) =
    apply_policy eo.condition_unknown_policy (record v { ignored = false })
decided eo (ancestor v) = apply_policy eo.ancestor_policy (record v { ignored = false })
decided eo (runtime_fanout v) = apply_policy eo.runtime_fanout_policy (record v { ignored = false })
decided eo (run_state_unknown v) =
    apply_policy eo.run_state_unknown_policy (record v { ignored = false })
decided eo (pipeline_rollback v) =
    apply_policy eo.pipeline_rollback_policy (record v { ignored = false })

abbrev pub Decided : EvalOptions → Violation → Type 0
Decided eo v = is_ignored v ≡ decided eo v

pub Judged-of_Decided : (eo : EvalOptions) (v : Violation) → Decided eo v → Judged eo v
Judged-of_Decided eo v e = let (to, from) = decided_iff v in (λ h. to (sym e ∙ h), λ a. e ∙ from a)
  where
    decided_iff : (u : Violation) → (decided eo u ≡ true) ↔ Accepts eo u
    decided_iff (condition u) = apply_policy_iff eo.condition_policy _
    decided_iff (condition_unknown u) = apply_policy_iff eo.condition_unknown_policy _
    decided_iff (ancestor u) = apply_policy_iff eo.ancestor_policy _
    decided_iff (runtime_fanout u) = apply_policy_iff eo.runtime_fanout_policy _
    decided_iff (run_state_unknown u) = apply_policy_iff eo.run_state_unknown_policy _
    decided_iff (pipeline_rollback u) = apply_policy_iff eo.pipeline_rollback_policy _
