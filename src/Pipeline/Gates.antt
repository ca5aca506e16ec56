-- ===== src/Pipeline/Gates.antt =====
-- verifier/pipeline/evaluate.go: the violations that the guards of a step and its ancestors give.
-- `quote` is the verb `%q` of package fmt. A loop that appends is a recursion that puts in front.
use zero_trust_service.Common.{
  String, Bool, true, false, List, [], ◌∷◌, ◌==◌, ◌&&◌, not, if◌then◌else◌, join, ◌++◌,
}
use zero_trust_service.Fault.{Error, error_text, Result, ok, err}
use zero_trust_service.Pipeline.Model.{
  When, FanoutStatus, fanout_custom_names, Ancestor, JoinType, join_and, join_or, when_status_unset,
}
use zero_trust_service.Pipeline.Violations.{
  ConditionFunc, ConditionKind, condition_expression, condition_status, FanoutRole,
  ConditionViolation, ConditionUnknownViolation, AncestorDidNotRunViolation, RuntimeFanoutViolation,
  RunStateUnknownViolation, Violation, condition, condition_unknown, ancestor, runtime_fanout,
  run_state_unknown, EvalOptions, apply_policy,
}

-- `strings.Join`.
abbrev pub join_with : String → List String → String
join_with sep [] = ""
join_with sep (s ∷ []) = s
join_with sep (s ∷ t ∷ rest) = join (s ∷ sep ∷ join_with sep (t ∷ rest) ∷ [])

unfoldable pub condition_kind : When → ConditionKind
condition_kind w =
    if not (w.status == when_status_unset) then condition_status else condition_expression

unfoldable pub condition_desc : When → String
condition_desc w =
    if w.runtime_input
    then join ("<+input> when-guard on " ∷ w.owner_fqn ∷ [])
    else if not (w.expression == "")
    then w.expression
    else if not (w.status == when_status_unset)
    then join (w.status ∷ " " ∷ w.level ∷ "-status gate" ∷ [])
    else join ("when-guard on " ∷ w.owner_fqn ∷ [])

unfoldable pub new_condition_violation : When → ConditionViolation
unfolding condition_kind condition_desc
new_condition_violation w = record {
  guard_fqn = w.owner_fqn;
  level = w.level;
  kind = condition_kind w;
  expression = w.expression;
  status = w.status;
  description = join ("\"when\" condition did not hold: " ∷ condition_desc w ∷ []);
  ignored = false;
}

unfoldable pub new_condition_unknown_violation :
    (String → String) → String → When → Error → ConditionUnknownViolation
unfolding condition_kind condition_desc
new_condition_unknown_violation quote fqn w e = record {
  fqn = fqn;
  guard_fqn = w.owner_fqn;
  level = w.level;
  kind = condition_kind w;
  expression = w.expression;
  status = w.status;
  description =
      join
        (quote (condition_desc w) ∷ " on " ∷ fqn ∷ " could not be evaluated: " ∷ error_text e ∷ []);
  error = e;
  ignored = false;
}

unfoldable pub new_runtime_fanout_violation :
    String → FanoutStatus → FanoutRole → RuntimeFanoutViolation
new_runtime_fanout_violation fqn status role = record {
  fqn = fqn;
  status = status;
  role = role;
  description = join (
      fqn
      ∷ " "
      ∷ (if status == fanout_custom_names
          then "fans out into engine-named instances"
          else "fans out a runtime <+input> count of instances")
      ∷ "; fan-in cannot be verified complete"
      ∷ []);
  ignored = false;
}

unfoldable pub new_run_state_unknown_violation : String → Error → RunStateUnknownViolation
new_run_state_unknown_violation fqn e = record {
  fqn = fqn;
  description = join ("run-state of " ∷ fqn ∷ " could not be determined: " ∷ error_text e ∷ []);
  error = e;
  ignored = false;
}

missing_text : JoinType → List String → String
missing_text join_or missing =
    join ("no preceding step has run (need any of): " ∷ join_with ", " missing ∷ [])
missing_text join_and missing =
    join ("preceding steps have not finished: " ∷ join_with ", " missing ∷ [])

unfoldable pub new_ancestor_did_not_run_violation :
    JoinType → String → List String → AncestorDidNotRunViolation
unfolding missing_text
new_ancestor_did_not_run_violation join_type ancestor_fqn missing = record {
  join_type = join_type;
  ancestor_fqn = ancestor_fqn;
  ancestors = missing;
  description = missing_text join_type missing;
  ignored = false;
}

-- `v.ignored = applyPolicy(policy, v)` for each kind of violation.
module _ (eo : EvalOptions) where
  unfoldable pub judge_condition : ConditionViolation → Violation
  judge_condition v = condition (record v { ignored = apply_policy eo.condition_policy v })

  unfoldable pub judge_condition_unknown : ConditionUnknownViolation → Violation
  judge_condition_unknown v =
      condition_unknown (record v { ignored = apply_policy eo.condition_unknown_policy v })

  unfoldable pub judge_ancestor : AncestorDidNotRunViolation → Violation
  judge_ancestor v = ancestor (record v { ignored = apply_policy eo.ancestor_policy v })

  unfoldable pub judge_runtime_fanout : RuntimeFanoutViolation → Violation
  judge_runtime_fanout v =
      runtime_fanout (record v { ignored = apply_policy eo.runtime_fanout_policy v })

  unfoldable pub judge_run_state_unknown : RunStateUnknownViolation → Violation
  judge_run_state_unknown v =
      run_state_unknown (record v { ignored = apply_policy eo.run_state_unknown_policy v })

pub record ConditionRef : Type 0 where
  pub guard : When
  pub desc : String

module _ (quote : String → String) (eo : EvalOptions) (fqn : String) where
  -- What one guard adds to the violations of `conditionViolations`.
  unfoldable pub judge_guard : When → Result Bool → List Violation
  judge_guard w (err e) =
      judge_condition_unknown eo (new_condition_unknown_violation quote fqn w e) ∷ []
  judge_guard w (ok true) = []
  judge_guard w (ok false) = judge_condition eo (new_condition_violation w) ∷ []

  -- `conditionViolations`.
  unfoldable pub condition_violations :
      List When → ConditionFunc → List ConditionRef × List Violation
  unfolding condition_desc
  condition_violations [] cond = ([], [])
  condition_violations (w ∷ conds) cond =
      let (report, violations) = condition_violations conds cond in
      (record { guard = w; desc = condition_desc w } ∷ report, judge_guard w (cond w) ++ violations)

unfoldable pub no_instances : List String → Bool
no_instances [] = true
no_instances (i ∷ is) = false

-- `effectiveFQNs` of a single ancestor, the only way in which it is called.
unfoldable pub effective_fqns : Ancestor → List String
unfolding no_instances
effective_fqns a = if not (no_instances a.instances) then a.instances else a.fqn ∷ []

-- A fan-out whose instances are not known: `a.Expands && len(a.Instances) == 0`.
unfoldable pub non_enumerable : Ancestor → Bool
unfolding no_instances
non_enumerable a = a.expands && no_instances a.instances
