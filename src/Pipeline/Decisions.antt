-- ===== src/Pipeline/Decisions.antt =====
-- verifier/pipeline/evaluate.go: a violation is ignored exactly if the policy for its kind decided it.
use zero_trust_service.Common.{
  ◌≡◌, refl, ap, String, Bool, true, false, List, [], ◌∷◌, All, All-append, All-map, All-imp, map,
  if◌then◌else◌,
}
use zero_trust_service.Fault.{Result, ok, err}
use zero_trust_service.Pipeline.Model.{When, Ancestor, JoinType, join_and, join_or, Resolution}
use zero_trust_service.Pipeline.Violations.{
  StepRanFunc, ConditionFunc, ConditionUnknownViolation, RuntimeFanoutViolation,
  RunStateUnknownViolation, Violation, is_ignored, EvalOptions, apply_policy,
}
use zero_trust_service.Pipeline.Gates.{
  judge_guard, condition_violations, new_condition_violation, new_condition_unknown_violation,
  new_runtime_fanout_violation, new_run_state_unknown_violation, new_ancestor_did_not_run_violation,
  judge_condition, judge_condition_unknown, judge_ancestor, judge_runtime_fanout,
  judge_run_state_unknown, non_enumerable, effective_fqns,
}
use zero_trust_service.Pipeline.Ancestors.{
  Runs, add_run, look_up_runs, Candidates, add_candidate, collect_candidates, judge_missing,
  judge_and, or_satisfied, judge_or, ancestor_violations,
}
use zero_trust_service.Pipeline.Evaluate.{
  excluded_violation, own_violations, gate_violations, evaluate_resolved, ran_or_default,
}
use zero_trust_service.Pipeline.Accepted.{Judged, Decided, Judged-of_Decided}

FreshRuns : List RunStateUnknownViolation → Type 0
FreshRuns = All (λ u. u.ignored ≡ false)

FreshFanouts : List RuntimeFanoutViolation → Type 0
FreshFanouts = All (λ u. u.ignored ≡ false)

module _ (ran : StepRanFunc) where
  add_run-Fresh :
      (f : String) (o : Result Bool) (r : Runs)
      → FreshRuns r.unknowns
      → FreshRuns (add_run f o r).unknowns
  unfolding FreshRuns add_run new_run_state_unknown_violation
  add_run-Fresh f (err e) r h = (refl, h)
  add_run-Fresh f (ok true) r h = h
  add_run-Fresh f (ok false) r h = h

  look_up_runs-Fresh : (fs : List String) → FreshRuns (look_up_runs ran fs).unknowns
  unfolding look_up_runs FreshRuns
  look_up_runs-Fresh [] = tt
  look_up_runs-Fresh (f ∷ fs) =
      add_run-Fresh f (ran f) (look_up_runs ran fs) (look_up_runs-Fresh fs)

  FreshCandidates : Candidates → Type 0
  FreshCandidates c = FreshFanouts c.fanouts × FreshRuns c.unknowns

  if-FreshCandidates :
      (e n : Bool) (c d f : Candidates)
      → FreshCandidates c
      → FreshCandidates d
      → FreshCandidates f
      → FreshCandidates (if e then c else if n then d else f)
  if-FreshCandidates true n c d f h1 h2 h3 = h1
  if-FreshCandidates false true c d f h1 h2 h3 = h2
  if-FreshCandidates false false c d f h1 h2 h3 = h3

  collect_candidates-Fresh :
      (ancestors : List Ancestor) → FreshCandidates (collect_candidates ran ancestors)
  unfolding collect_candidates add_candidate FreshCandidates FreshFanouts FreshRuns
      new_runtime_fanout_violation
  collect_candidates-Fresh [] = (tt, tt)
  collect_candidates-Fresh (a ∷ ancestors) =
      let (fanouts, unknowns) = collect_candidates-Fresh ancestors in
      if-FreshCandidates a.excluded (non_enumerable a) _ _ _ (fanouts, unknowns)
        ((refl, fanouts), unknowns)
        (
          fanouts,
          All-append (λ u. u.ignored ≡ false) _ _ (look_up_runs-Fresh (effective_fqns a)) unknowns,
        )

module _ (eo : EvalOptions) where
  Decided-runs :
      (us : List RunStateUnknownViolation)
      → FreshRuns us
      → All (Decided eo) (map (judge_run_state_unknown eo) us)
  unfolding FreshRuns judge_run_state_unknown is_ignored
  Decided-runs us h = All-map (Decided eo) (judge_run_state_unknown eo) us (
      All-imp (λ u. u.ignored ≡ false) _ us
        (λ u e. ap (λ b. apply_policy eo.run_state_unknown_policy (record u { ignored = b })) e) h)

  Decided-fanouts :
      (us : List RuntimeFanoutViolation)
      → FreshFanouts us
      → All (Decided eo) (map (judge_runtime_fanout eo) us)
  unfolding FreshFanouts judge_runtime_fanout is_ignored
  Decided-fanouts us h = All-map (Decided eo) (judge_runtime_fanout eo) us (
      All-imp (λ u. u.ignored ≡ false) _ us
        (λ u e. ap (λ b. apply_policy eo.runtime_fanout_policy (record u { ignored = b })) e) h)

  Decided-unknowns :
      (us : List ConditionUnknownViolation)
      → All (λ u. u.ignored ≡ false) us
      → All (Decided eo) (map (judge_condition_unknown eo) us)
  unfolding judge_condition_unknown is_ignored
  Decided-unknowns us h = All-map (Decided eo) (judge_condition_unknown eo) us (
      All-imp (λ u. u.ignored ≡ false) _ us
        (λ u e. ap (λ b. apply_policy eo.condition_unknown_policy (record u { ignored = b })) e) h)

  Decided-guard :
      (quote : String → String) (fqn : String) (w : When) (r : Result Bool)
      → All (Decided eo) (judge_guard quote eo fqn w r)
  unfolding judge_guard judge_condition judge_condition_unknown is_ignored new_condition_violation
      new_condition_unknown_violation
  Decided-guard quote fqn w (err e) = (refl, tt)
  Decided-guard quote fqn w (ok true) = tt
  Decided-guard quote fqn w (ok false) = (refl, tt)

  Decided-guards :
      (quote : String → String) (fqn : String) (conds : List When) (cond : ConditionFunc)
      → All (Decided eo) (condition_violations quote eo fqn conds cond).1
  unfolding condition_violations
  Decided-guards quote fqn [] cond = tt
  Decided-guards quote fqn (w ∷ conds) cond =
      All-append (Decided eo) (judge_guard quote eo fqn w (cond w)) _
        (Decided-guard quote fqn w (cond w)) (Decided-guards quote fqn conds cond)

  Decided-missing :
      (ran : StepRanFunc) (j : JoinType) (fqn : String) (fs : List String)
      → All (Decided eo) (judge_missing eo ran j fqn fs)
  unfolding judge_missing judge_ancestor is_ignored new_ancestor_did_not_run_violation
  Decided-missing ran j fqn [] = tt
  Decided-missing ran j fqn (f ∷ fs) = (refl, tt)

  Decided-if :
      (b : Bool) (xs ys : List Violation)
      → All (Decided eo) xs
      → All (Decided eo) ys
      → All (Decided eo) (if b then xs else ys)
  Decided-if true xs ys h k = h
  Decided-if false xs ys h k = k

  Decided-ancestors :
      (ran : StepRanFunc) (j : JoinType) (ancestors : List Ancestor)
      → All (Decided eo) (ancestor_violations eo ran j ancestors)
  unfolding ancestor_violations judge_and judge_or judge_runtime_fanout is_ignored
      new_runtime_fanout_violation FreshCandidates
  Decided-ancestors ran join_and [] = tt
  Decided-ancestors ran join_and (a ∷ ancestors) =
      All-append (Decided eo) (judge_and eo ran a) _
        (Decided-if a.excluded [] _ tt (
          Decided-if (non_enumerable a) (_ ∷ []) _ (refl, tt)
            (All-append (Decided eo) _ _
              (Decided-runs _ (look_up_runs-Fresh ran (effective_fqns a)))
              (Decided-missing ran join_and a.fqn _))))
        (Decided-ancestors ran join_and ancestors)
  Decided-ancestors ran join_or ancestors =
      let (fanouts, unknowns) = collect_candidates-Fresh ran ancestors in
      Decided-if (or_satisfied eo ran (collect_candidates ran ancestors)) [] _ tt (
        All-append (Decided eo) _ _ (Decided-fanouts _ fanouts) (
          All-append (Decided eo) _ _ (Decided-runs _ unknowns) (Decided-missing ran join_or "" _)))

  Decided-own :
      (quote : String → String) (res : Resolution) → All (Decided eo) (own_violations quote eo res)
  unfolding own_violations excluded_violation judge_condition judge_runtime_fanout is_ignored
      new_runtime_fanout_violation
  Decided-own quote res =
      All-append (Decided eo) _ _ (Decided-if res.excluded (_ ∷ []) [] (refl, tt) tt) (
        All-append (Decided eo) _ _ (Decided-if _ (_ ∷ []) [] (refl, tt) tt)
          (Decided-guards quote res.fqn res.conditions _))

  Decided-gate :
      (quote : String → String) (res : Resolution) (ancestors : List Ancestor)
      (unknowns : List ConditionUnknownViolation)
      → All (λ u. u.ignored ≡ false) unknowns
      → All (Decided eo) (gate_violations quote eo res ancestors unknowns)
  unfolding gate_violations is_ignored
  Decided-gate quote res ancestors unknowns fresh =
      Decided-if res.separate_plan_rollback (_ ∷ []) _ (refl, tt)
        (All-append (Decided eo) _ _ (Decided-unknowns unknowns fresh)
          (Decided-ancestors (ran_or_default eo.ran) res.join ancestors))

  -- Where the violations of unevaluable ancestor guards come undecided, each violation of a verdict
  -- is ignored exactly if the caller gave a policy for its kind and the policy accepts the violation
  -- as it was before the decision.
  pub evaluate_resolved-Judged :
      (quote : String → String) (res : Resolution) (ancestors : List Ancestor)
      (unknowns : List ConditionUnknownViolation)
      → All (λ u. u.ignored ≡ false) unknowns
      → All (Judged eo) (evaluate_resolved quote eo res ancestors unknowns).violations
  unfolding evaluate_resolved
  evaluate_resolved-Judged quote res ancestors unknowns fresh =
      All-imp (Decided eo) (Judged eo) _ (Judged-of_Decided eo) (
        All-append (Decided eo) _ _ (Decided-own quote res)
          (Decided-gate quote res ancestors unknowns fresh))
