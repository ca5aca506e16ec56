-- ===== src/Pipeline/Ancestors.antt =====
-- verifier/pipeline/evaluate.go: `ancestorViolations`, the gate of a step on its ancestors.
use zero_trust_service.Common.{
  String, Bool, true, false, List, [], ◌∷◌, ◌++◌, ◌||◌, if◌then◌else◌, ℕ, zero, suc,
}
use zero_trust_service.Fault.{Result, ok, err}
use zero_trust_service.Pipeline.Model.{Ancestor, JoinType, join_and, join_or}
use zero_trust_service.Pipeline.Violations.{
  StepRanFunc, fanout_ancestor, RuntimeFanoutViolation, RunStateUnknownViolation, Violation,
  EvalOptions,
}
use zero_trust_service.Common.{map}
use zero_trust_service.Pipeline.Gates.{
  effective_fqns, non_enumerable, new_runtime_fanout_violation, new_run_state_unknown_violation,
  new_ancestor_did_not_run_violation, judge_ancestor, judge_runtime_fanout, judge_run_state_unknown,
}

-- What the loops over the FQNs of one ancestor collect: the lookups that failed, the FQNs that were
-- found to have run or not, and those of them that have not.
pub record Runs : Type 0 where
  pub unknowns : List RunStateUnknownViolation
  pub known : List String
  pub missing : List String
  pub some_ran : Bool

unfoldable pub add_run : String → Result Bool → Runs → Runs
add_run f (err e) r = record r { unknowns = new_run_state_unknown_violation f e ∷ r.unknowns }
add_run f (ok true) r = record r { known = f ∷ r.known; some_ran = true }
add_run f (ok false) r = record r { known = f ∷ r.known; missing = f ∷ r.missing }

unfoldable pub look_up_runs : StepRanFunc → List String → Runs
unfolding add_run
look_up_runs ran [] = record { unknowns = []; known = []; missing = []; some_ran = false }
look_up_runs ran (f ∷ fs) = add_run f (ran f) (look_up_runs ran fs)

-- What the loop of the OR join over the ancestors collects.
pub record Candidates : Type 0 where
  pub satisfied : Bool
  pub live : ℕ
  pub candidates : List String
  pub fanouts : List RuntimeFanoutViolation
  pub unknowns : List RunStateUnknownViolation

unfoldable pub add_candidate : Ancestor → Runs → Candidates → Candidates
add_candidate a r c =
    if a.excluded
    then c
    else if non_enumerable a
    then record c {
      live = suc c.live;
      fanouts = new_runtime_fanout_violation a.fqn a.status fanout_ancestor ∷ c.fanouts;
    }
    else record c {
      satisfied = r.some_ran || c.satisfied;
      live = suc c.live;
      candidates = r.known ++ c.candidates;
      unknowns = r.unknowns ++ c.unknowns;
    }

unfoldable pub collect_candidates : StepRanFunc → List Ancestor → Candidates
unfolding add_candidate
collect_candidates ran [] = record {
  satisfied = false;
  live = 0;
  candidates = [];
  fanouts = [];
  unknowns = [];
}
collect_candidates ran (a ∷ ancestors) =
    add_candidate a (look_up_runs ran (effective_fqns a)) (collect_candidates ran ancestors)

module _ (eo : EvalOptions) (ran : StepRanFunc) where
  -- `if len(missing) > 0`, and its violation.
  unfoldable pub judge_missing : JoinType → String → List String → List Violation
  judge_missing join_type fqn [] = []
  judge_missing join_type fqn (f ∷ fs) =
      judge_ancestor eo (new_ancestor_did_not_run_violation join_type fqn (f ∷ fs)) ∷ []

  -- One turn of the loop of the AND join.
  unfoldable pub judge_and : Ancestor → List Violation
  unfolding judge_missing
  judge_and a =
      let r = look_up_runs ran (effective_fqns a) in
      if a.excluded
      then []
      else if non_enumerable a
      then judge_runtime_fanout eo (new_runtime_fanout_violation a.fqn a.status fanout_ancestor)
        ∷ []
      else map (judge_run_state_unknown eo) r.unknowns ++ judge_missing join_and a.fqn r.missing

  -- `live == 0` satisfies the join, too.
  unfoldable pub or_satisfied : Candidates → Bool
  or_satisfied c = elim c.live [ zero ↦ true | suc n ↦ c.satisfied ]

  unfoldable pub judge_or : Candidates → List Violation
  unfolding or_satisfied judge_missing
  judge_or c =
      if or_satisfied c
      then []
      else map (judge_runtime_fanout eo) c.fanouts
        ++ (map (judge_run_state_unknown eo) c.unknowns ++ judge_missing join_or "" c.candidates)

  -- `ancestorViolations`.
  unfoldable pub ancestor_violations : JoinType → List Ancestor → List Violation
  unfolding judge_or judge_and
  ancestor_violations join_or ancestors = judge_or (collect_candidates ran ancestors)
  ancestor_violations join_and [] = []
  ancestor_violations join_and (a ∷ ancestors) =
      judge_and a ++ ancestor_violations join_and ancestors
