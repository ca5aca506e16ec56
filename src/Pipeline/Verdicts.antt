-- ===== src/Pipeline/Verdicts.antt =====
-- verifier/pipeline/evaluate.go: the verdict on a step against what the pipeline says, for a caller
-- that gives no policies.
use zero_trust_service.Common.{
  ◌≡◌, refl, ◌↔◌, ◌⊎◌, String, Bool, true, false, some, List, [], ◌∷◌, ◌++◌, All, Some, ◌&&◌, ◌==◌,
  not, if◌then◌else◌, arith, map, eq_iff, append-eq-nil_iff, map-eq-nil_iff,
}
use zero_trust_service.Fault.{ok}
use zero_trust_service.Pipeline.Model.{Ancestor, JoinType, join_and, join_or, Resolution}
use zero_trust_service.Pipeline.Violations.{
  StepRanFunc, ConditionFunc, ConditionUnknownViolation, Violation, condition, condition_unknown,
  ancestor, runtime_fanout, run_state_unknown, pipeline_rollback, is_ignored, EvalOptions, with_ran,
  with_condition, apply_evaluate_option,
}
use zero_trust_service.Pipeline.Gates.{judge_condition_unknown}
use zero_trust_service.Pipeline.Ancestors.{ancestor_violations}
use zero_trust_service.Pipeline.Evaluate.{
  eval_options, ran_or_default, cond_or_default, all_ignored, own_violations, gate_violations,
  evaluate_resolved,
}
use zero_trust_service.Pipeline.Guards.{condition_violations-eq-nil_iff}
use zero_trust_service.Pipeline.AndGate.{AllRan, ancestor_violations-and-eq-nil_iff}
use zero_trust_service.Pipeline.OrGate.{Candidate, ancestor_violations-or-eq-nil_iff}
use zero_trust_service.Pipeline.Decisions.{evaluate_resolved-Judged}
use zero_trust_service.Pipeline.Accepted.{Judged, Accepts}

all_ignored_iff :
    (vs : List Violation) → (all_ignored vs ≡ true) ↔ All (λ v. is_ignored v ≡ true) vs
unfolding all_ignored
all_ignored_iff [] = (λ h. tt, λ h. refl)
all_ignored_iff (v ∷ vs) = ground (arith, all_ignored_iff vs)

-- Where the violations of unevaluable ancestor guards come undecided, a step is allowed exactly if for
-- each violation of the verdict the caller gave a policy for its kind that accepts it.
pub evaluate_resolved-Accepts_iff :
    (quote : String → String) (eo : EvalOptions) (res : Resolution) (ancestors : List Ancestor)
    (unknowns : List ConditionUnknownViolation)
    → All (λ u. u.ignored ≡ false) unknowns
    → ((evaluate_resolved quote eo res ancestors unknowns).allowed ≡ true)
      ↔ All (Accepts eo) (evaluate_resolved quote eo res ancestors unknowns).violations
unfolding evaluate_resolved
evaluate_resolved-Accepts_iff quote eo res ancestors unknowns fresh =
    let vs = own_violations quote eo res ++ gate_violations quote eo res ancestors unknowns in
    let judged = evaluate_resolved-Judged eo quote res ancestors unknowns fresh in
    let (to, from) = all_ignored_iff vs in
    (λ h. transfer vs judged (to h), λ h. from (transfer_back vs judged h))
  where
    transfer :
        (vs : List Violation)
        → All (Judged eo) vs
        → All (λ v. is_ignored v ≡ true) vs
        → All (Accepts eo) vs
    transfer [] j h = tt
    transfer (v ∷ vs) (e, j) (p, h) = (e.0 p, transfer vs j h)

    transfer_back :
        (vs : List Violation)
        → All (Judged eo) vs
        → All (Accepts eo) vs
        → All (λ v. is_ignored v ≡ true) vs
    transfer_back [] j h = tt
    transfer_back (v ∷ vs) (e, j) (p, h) = (e.1 p, transfer_back vs j h)

-- The options of a caller that gives the two callbacks and no policy.
abbrev pub strict : StepRanFunc → ConditionFunc → EvalOptions
strict ran cond = eval_options (with_ran (some ran) ∷ with_condition (some cond) ∷ [])

-- What the join of a step asks of its ancestors.
abbrev pub Joined : StepRanFunc → JoinType → List Ancestor → Type 0
Joined ran join_and ancestors = All (λ a. (a.excluded ≡ true) ⊎ AllRan ran a) ancestors
Joined ran join_or ancestors =
    All (λ a. a.excluded ≡ true) ancestors ⊎ Some (Candidate ran) ancestors

-- What a step must fulfil to run.
pub record Runnable (ran : StepRanFunc) (cond : ConditionFunc) (res : Resolution)
    (ancestors : List Ancestor) (unknowns : List ConditionUnknownViolation) : Type 0 where
  pub not_excluded : res.excluded ≡ false
  pub enumerable : (res.status ≡ "enumerable") ⊎ (res.status ≡ "")
  pub guards_hold : All (λ w. cond w ≡ ok true) res.conditions
  pub same_plan : res.separate_plan_rollback ≡ false
  pub guards_known : unknowns ≡ []
  pub joined : Joined ran res.join ancestors

none_accepted :
    (ran : StepRanFunc) (cond : ConditionFunc) (v : Violation) → ¬ Accepts (strict ran cond) v
unfolding eval_options apply_evaluate_option
none_accepted ran cond (condition v) (fn, e, h) = cc
none_accepted ran cond (condition_unknown v) (fn, e, h) = cc
none_accepted ran cond (ancestor v) (fn, e, h) = cc
none_accepted ran cond (runtime_fanout v) (fn, e, h) = cc
none_accepted ran cond (run_state_unknown v) (fn, e, h) = cc
none_accepted ran cond (pipeline_rollback v) (fn, e, h) = cc

accepted-eq-nil_iff :
    (ran : StepRanFunc) (cond : ConditionFunc) (vs : List Violation)
    → All (Accepts (strict ran cond)) vs ↔ (vs ≡ [])
accepted-eq-nil_iff ran cond [] = (λ h. refl, λ h. tt)
accepted-eq-nil_iff ran cond (v ∷ vs) = (λ (h, _). absurd (none_accepted ran cond v h), λ h. cc)

if-eq-nil_iff : {A : Type 0} (b : Bool) (x : A) → ((if b then x ∷ [] else []) ≡ []) ↔ (b ≡ false)
if-eq-nil_iff true x = (λ h. cc, λ h. cc)
if-eq-nil_iff false x = (λ h. refl, λ h. refl)

Joined-iff :
    (eo : EvalOptions) (ran : StepRanFunc) (j : JoinType) (ancestors : List Ancestor)
    → (ancestor_violations eo ran j ancestors ≡ []) ↔ Joined ran j ancestors
Joined-iff eo ran join_and ancestors = ancestor_violations-and-eq-nil_iff ran eo ancestors
Joined-iff eo ran join_or ancestors = ancestor_violations-or-eq-nil_iff ran eo ancestors

module _ (quote : String → String) (ran : StepRanFunc) (cond : ConditionFunc)
    (res : Resolution) where
  own_violations-eq-nil_iff : (own_violations quote (strict ran cond) res ≡ []) ↔ (
      (res.excluded ≡ false)
      × ((res.status ≡ "enumerable") ⊎ (res.status ≡ ""))
      × All (λ w. cond w ≡ ok true) res.conditions)
  unfolding own_violations cond_or_default eval_options apply_evaluate_option
  own_violations-eq-nil_iff =
      let (split, glue) = append-eq-nil_iff (if res.excluded then _ ∷ [] else []) _ in
      let (split2, glue2) =
        append-eq-nil_iff
          (if not (res.status == "enumerable") && not (res.status == "") then _ ∷ [] else []) _ in
      let (ex, ex') = if-eq-nil_iff res.excluded _ in
      let (st, st') =
        if-eq-nil_iff (not (res.status == "enumerable") && not (res.status == "")) _ in
      let (gs, gs') =
        condition_violations-eq-nil_iff quote (strict ran cond) res.fqn res.conditions cond in
      (
        λ h. let (p, q) = split h in let (q1, q2) = split2 q in (ex p, status.0 (st q1), gs q2),
        λ (p, q, r). glue (ex' p, glue2 (st' (status.1 q), gs' r)),
      )
    where
      status :
          ((not (res.status == "enumerable") && not (res.status == "")) ≡ false)
          ↔ ((res.status ≡ "enumerable") ⊎ (res.status ≡ ""))
      status = ground (arith, eq_iff res.status "enumerable", eq_iff res.status "")

  gate_violations-eq-nil_iff :
      (ancestors : List Ancestor) (unknowns : List ConditionUnknownViolation)
      → (gate_violations quote (strict ran cond) res ancestors unknowns ≡ [])
        ↔ ((res.separate_plan_rollback ≡ false) × (unknowns ≡ []) × Joined ran res.join ancestors)
  unfolding gate_violations ran_or_default eval_options apply_evaluate_option
  gate_violations-eq-nil_iff ancestors unknowns = by_plan _ res.separate_plan_rollback
    where
      by_plan :
          (v : Violation) (b : Bool)
          → ((if b
                then v ∷ []
                else map (judge_condition_unknown (strict ran cond)) unknowns
                  ++ ancestor_violations (strict ran cond) ran res.join ancestors)
              ≡ [])
            ↔ ((b ≡ false) × (unknowns ≡ []) × Joined ran res.join ancestors)
      by_plan v true = (λ h. cc, λ (h, _, _). cc)
      by_plan v false =
          let (split, glue) =
            append-eq-nil_iff (map (judge_condition_unknown (strict ran cond)) unknowns) _ in
          let (us, us') = map-eq-nil_iff (judge_condition_unknown (strict ran cond)) unknowns in
          let (to, from) = Joined-iff (strict ran cond) ran res.join ancestors in
          (λ h. let (p, q) = split h in (refl, us p, to q), λ (_, p, q). glue (us' p, from q))

  violations-eq-nil_iff :
      (eo : EvalOptions) (ancestors : List Ancestor) (unknowns : List ConditionUnknownViolation)
      → ((evaluate_resolved quote eo res ancestors unknowns).violations ≡ []) ↔ (
          (own_violations quote eo res ≡ [])
          × (gate_violations quote eo res ancestors unknowns ≡ []))
  unfolding evaluate_resolved
  violations-eq-nil_iff eo ancestors unknowns = append-eq-nil_iff _ _

  -- Without policies a step is allowed exactly when its strategy leaves a combination, its own
  -- fan-out is enumerable, each of its guards evaluates and holds, it is no entry of a pipeline
  -- rollback, every guard of an ancestor could be evaluated, and its join is satisfied: under AND all
  -- instances of every ancestor that is not excluded have completed, or the ancestor itself where it
  -- does not fan out and has none; under OR all ancestors are excluded, or of one that is not an
  -- instance has completed, or the ancestor itself where it does not fan out and has none. The violations of unevaluable ancestor guards come undecided.
  pub evaluate_resolved-Runnable_iff :
      (ancestors : List Ancestor) (unknowns : List ConditionUnknownViolation)
      → All (λ u. u.ignored ≡ false) unknowns
      → ((evaluate_resolved quote (strict ran cond) res ancestors unknowns).allowed ≡ true)
        ↔ Runnable ran cond res ancestors unknowns
  evaluate_resolved-Runnable_iff ancestors unknowns fresh =
      let eo = strict ran cond in
      let vs = (evaluate_resolved quote eo res ancestors unknowns).violations in
      let (to, from) = evaluate_resolved-Accepts_iff quote eo res ancestors unknowns fresh in
      let (empty, accepted) = accepted-eq-nil_iff ran cond vs in
      let (parts, whole) = violations-eq-nil_iff eo ancestors unknowns in
      (
        λ h.
            let (own, gate) = parts (empty (to h)) in
            let (a, b, c) = own_violations-eq-nil_iff.0 own in
            let (d, e, f) = (gate_violations-eq-nil_iff ancestors unknowns).0 gate in
            record {
              not_excluded = a;
              enumerable = b;
              guards_hold = c;
              same_plan = d;
              guards_known = e;
              joined = f;
            },
        λ r. from (
            accepted (
              whole (
                own_violations-eq-nil_iff.1 (r.not_excluded, r.enumerable, r.guards_hold),
                (gate_violations-eq-nil_iff ancestors unknowns).1
                    (r.same_plan, r.guards_known, r.joined),
              ))),
      )
