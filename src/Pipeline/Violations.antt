-- ===== src/Pipeline/Violations.antt =====
-- verifier/pipeline/evaluate.go: the reasons why a step may not run, the options of an evaluation
-- with the policies that accept single violations, and the callbacks. A callback answers a value or
-- an error, and answers the same each time during one evaluation.
use zero_trust_service.Common.{String, Bool, true, false, Option, none, some, List}
use zero_trust_service.Fault.{Error, Result, ok}
use zero_trust_service.Pipeline.Model.{When, WhenLevel, WhenStatus, FanoutStatus, JoinType}

abbrev pub StepRanFunc : Type 0
StepRanFunc = String → Result Bool

abbrev pub ConditionFunc : Type 0
ConditionFunc = When → Result Bool

-- `AlwaysTrue`.
unfoldable pub always_true : ConditionFunc
always_true w = ok true

abbrev pub ConditionKind : Type 0
ConditionKind = String

abbrev pub condition_expression : ConditionKind
condition_expression = "expression"

abbrev pub condition_status : ConditionKind
condition_status = "status"

abbrev pub condition_strategy_excluded : ConditionKind
condition_strategy_excluded = "strategy_excluded"

abbrev pub FanoutRole : Type 0
FanoutRole = String

abbrev pub fanout_self : FanoutRole
fanout_self = "self"

abbrev pub fanout_ancestor : FanoutRole
fanout_ancestor = "ancestor"

pub record ConditionViolation : Type 0 where
  pub guard_fqn : String
  pub level : WhenLevel
  pub kind : ConditionKind
  pub expression : String
  pub status : WhenStatus
  pub description : String
  pub ignored : Bool

pub record ConditionUnknownViolation : Type 0 where
  pub fqn : String
  pub guard_fqn : String
  pub level : WhenLevel
  pub kind : ConditionKind
  pub expression : String
  pub status : WhenStatus
  pub description : String
  pub error : Error
  pub ignored : Bool

pub record AncestorDidNotRunViolation : Type 0 where
  pub join_type : JoinType
  pub ancestor_fqn : String
  pub ancestors : List String
  pub description : String
  pub ignored : Bool

pub record RuntimeFanoutViolation : Type 0 where
  pub fqn : String
  pub status : FanoutStatus
  pub role : FanoutRole
  pub description : String
  pub ignored : Bool

pub record RunStateUnknownViolation : Type 0 where
  pub fqn : String
  pub description : String
  pub error : Error
  pub ignored : Bool

pub record PipelineRollbackViolation : Type 0 where
  pub description : String
  pub ignored : Bool

pub data Violation : Type 0 where
  condition : ConditionViolation → Violation
  condition_unknown : ConditionUnknownViolation → Violation
  ancestor : AncestorDidNotRunViolation → Violation
  runtime_fanout : RuntimeFanoutViolation → Violation
  run_state_unknown : RunStateUnknownViolation → Violation
  pipeline_rollback : PipelineRollbackViolation → Violation

-- `IsIgnored`.
unfoldable pub is_ignored : Violation → Bool
is_ignored (Violation.condition v) = v.ignored
is_ignored (Violation.condition_unknown v) = v.ignored
is_ignored (Violation.ancestor v) = v.ignored
is_ignored (Violation.runtime_fanout v) = v.ignored
is_ignored (Violation.run_state_unknown v) = v.ignored
is_ignored (Violation.pipeline_rollback v) = v.ignored

-- `Reason`.
unfoldable pub reason : Violation → String
reason (Violation.condition v) = v.description
reason (Violation.condition_unknown v) = v.description
reason (Violation.ancestor v) = v.description
reason (Violation.runtime_fanout v) = v.description
reason (Violation.run_state_unknown v) = v.description
reason (Violation.pipeline_rollback v) = v.description

-- `Err`.
unfoldable pub err_of : Violation → Option Error
err_of (Violation.condition v) = none
err_of (Violation.condition_unknown v) = some v.error
err_of (Violation.ancestor v) = none
err_of (Violation.runtime_fanout v) = none
err_of (Violation.run_state_unknown v) = some v.error
err_of (Violation.pipeline_rollback v) = none

-- A nil callback or policy is `none`.
pub record EvalOptions : Type 0 where
  pub ran : Option StepRanFunc
  pub cond : Option ConditionFunc
  pub condition_policy : Option (ConditionViolation → Bool)
  pub condition_unknown_policy : Option (ConditionUnknownViolation → Bool)
  pub ancestor_policy : Option (AncestorDidNotRunViolation → Bool)
  pub runtime_fanout_policy : Option (RuntimeFanoutViolation → Bool)
  pub run_state_unknown_policy : Option (RunStateUnknownViolation → Bool)
  pub pipeline_rollback_policy : Option (PipelineRollbackViolation → Bool)

-- `With…` and the function that it returns.
pub data EvaluateOption : Type 0 where
  with_ran : Option StepRanFunc → EvaluateOption
  with_condition : Option ConditionFunc → EvaluateOption
  with_condition_policy : Option (ConditionViolation → Bool) → EvaluateOption
  with_condition_unknown_policy : Option (ConditionUnknownViolation → Bool) → EvaluateOption
  with_ancestor_policy : Option (AncestorDidNotRunViolation → Bool) → EvaluateOption
  with_runtime_fanout_policy : Option (RuntimeFanoutViolation → Bool) → EvaluateOption
  with_run_state_unknown_policy : Option (RunStateUnknownViolation → Bool) → EvaluateOption
  with_pipeline_rollback_policy : Option (PipelineRollbackViolation → Bool) → EvaluateOption

unfoldable pub apply_evaluate_option : EvalOptions → EvaluateOption → EvalOptions
apply_evaluate_option o (with_ran fn) = record o { ran = fn }
apply_evaluate_option o (with_condition fn) = record o { cond = fn }
apply_evaluate_option o (with_condition_policy fn) = record o { condition_policy = fn }
apply_evaluate_option o (with_condition_unknown_policy fn) = record o {
  condition_unknown_policy = fn;
}
apply_evaluate_option o (with_ancestor_policy fn) = record o { ancestor_policy = fn }
apply_evaluate_option o (with_runtime_fanout_policy fn) = record o { runtime_fanout_policy = fn }
apply_evaluate_option o (with_run_state_unknown_policy fn) = record o {
  run_state_unknown_policy = fn;
}
apply_evaluate_option o (with_pipeline_rollback_policy fn) = record o {
  pipeline_rollback_policy = fn;
}

-- `applyPolicy`: without a policy a violation is not ignored.
unfoldable pub apply_policy : {V : Type 0} → Option (V → Bool) → V → Bool
apply_policy none v = false
apply_policy (some fn) v = fn v
