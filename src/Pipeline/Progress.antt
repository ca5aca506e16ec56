-- ===== src/Pipeline/Progress.antt =====
-- verifier/pipeline/evaluate.go: a verdict as more steps complete.
use zero_trust_service.Common.{
  ◌≡◌, inl, inr, ◌⊎◌, String, true, false, List, [], All, Some, All-imp, Some-imp,
}
use zero_trust_service.Pipeline.Model.{Ancestor, JoinType, join_and, join_or, Resolution}
use zero_trust_service.Pipeline.Violations.{StepRanFunc, ConditionFunc, ConditionUnknownViolation}
use zero_trust_service.Pipeline.Evaluate.{evaluate_resolved}
use zero_trust_service.Pipeline.AndGate.{Completed, AllRan}
use zero_trust_service.Pipeline.OrGate.{Candidate}
use zero_trust_service.Pipeline.Verdicts.{strict, Joined, evaluate_resolved-Runnable_iff}

module _ (ran later : StepRanFunc)
    (grows : (f : String) → Completed ran f → Completed later f) where
  AllRan-grows : (a : Ancestor) → AllRan ran a → AllRan later a
  AllRan-grows a done = elim done [
    | inl (some_of, all) ↦ inl (some_of, All-imp (Completed ran) _ a.instances grows all)
    | inr (single, empty, h) ↦ inr (single, empty, grows a.fqn h)
  ]

  finished_grows :
      (a : Ancestor)
      → Some (Completed ran) a.instances
        ⊎ ((a.expands ≡ false) × (a.instances ≡ []) × Completed ran a.fqn)
      → Some (Completed later) a.instances
        ⊎ ((a.expands ≡ false) × (a.instances ≡ []) × Completed later a.fqn)
  finished_grows a one = elim one [
    | inl s ↦ inl (Some-imp (Completed ran) _ a.instances grows s)
    | inr (single, empty, h) ↦ inr (single, empty, grows a.fqn h)
  ]

  Joined-grows :
      (j : JoinType) (ancestors : List Ancestor) → Joined ran j ancestors → Joined later j ancestors
  Joined-grows join_and ancestors h =
      All-imp _ _ ancestors (λ a p. elim p [ inl e ↦ inl e | inr done ↦ inr (AllRan-grows a done) ])
        h
  Joined-grows join_or ancestors h = elim h [
    | inl e ↦ inl e
    | inr s ↦ inr (
        Some-imp (Candidate ran) (Candidate later) ancestors
          (λ a (live, one). (live, finished_grows a one)) s)
  ]

  -- A step that was allowed without policies stays allowed as more steps complete, if every step that
  -- had completed still counts as completed, and the violations of unevaluable guards come undecided.
  pub evaluate_resolved_grows :
      (quote : String → String) (cond : ConditionFunc) (res : Resolution)
      (ancestors : List Ancestor) (unknowns : List ConditionUnknownViolation)
      → All (λ u. u.ignored ≡ false) unknowns
      → (evaluate_resolved quote (strict ran cond) res ancestors unknowns).allowed ≡ true
      → (evaluate_resolved quote (strict later cond) res ancestors unknowns).allowed ≡ true
  evaluate_resolved_grows quote cond res ancestors unknowns fresh h =
      let r = (evaluate_resolved-Runnable_iff quote ran cond res ancestors unknowns fresh).0 h in
      (evaluate_resolved-Runnable_iff quote later cond res ancestors unknowns fresh).1 (record {
        not_excluded = r.not_excluded;
        enumerable = r.enumerable;
        guards_hold = r.guards_hold;
        same_plan = r.same_plan;
        guards_known = r.guards_known;
        joined = Joined-grows res.join ancestors r.joined;
      })
