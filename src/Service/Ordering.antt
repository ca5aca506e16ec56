-- ===== src/Service/Ordering.antt =====
-- examples/zts/ordering/verifier.go: the verifier that `New` builds from its configuration. It takes a
-- request, the resolved pipeline of the context and the store. `quote` is the verb `%q` of package fmt,
-- `trim`, `lower` and `equal_fold` are `TrimSpace`, `ToLower` and `EqualFold` of package strings, and
-- `decode` reads the resolved YAML. What the verifier logs is left out.
use Prim.Native.String.{◌++◌}
use zero_trust_service.Common.{
  String, Bool, true, false, Option, none, some, List, [], ◌∷◌, ◌==◌, if◌then◌else◌,
}
use zero_trust_service.Common.Texts.{join_texts}
use zero_trust_service.Fault.{Error, message, wrapped, ok}
use zero_trust_service.Types.{ExecutionDetails, ZtsMetadata, TaskPackage, VerifyRequest}
use zero_trust_service.Template.Types.{ResolvedPipeline}
use zero_trust_service.Pipeline.Violations.{
  EvaluateOption, with_ran, with_condition, with_pipeline_rollback_policy,
}
use zero_trust_service.Pipeline.Evaluate.{Verdict}
use zero_trust_service.Pipeline.Strategies.{MatrixNaming, matrix_naming_value}
use zero_trust_service.Pipeline.Errors.{
  PipelineError, node_not_found, invalid_pipeline, unsupported_pipeline, strategy_on,
  pipeline_error_text,
}
use zero_trust_service.Pipeline.Step.{Answer}
use zero_trust_service.Pipeline.Assemble.{Decoded, verify_step_order}
use zero_trust_service.Service.Store.{Store, ran, mark_ran}
use zero_trust_service.Service.Conditions.{
  ConditionChecker, new_condition_checker, merge_overrides, eval,
}
use zero_trust_service.Service.Messages.{human_fqn, blocking, blocking_messages}

-- A nil pointer is `none`, a nil map the empty one.
pub record Config : Type 0 where
  pub deny_on_missing : Option Bool
  pub matrix_naming : String
  pub conditions : Option ConditionChecker
  pub condition_overrides : List (String × Bool)

-- What the closure of `New` keeps beside the store.
pub record Ordering : Type 0 where
  pub denies : Bool
  pub checker : Option ConditionChecker
  pub build_opts : List MatrixNaming

-- The plan execution, the FQN of the step and the resolved YAML.
pub record Target : Type 0 where
  pub plan : String
  pub step : String
  pub yaml : String

-- An error or nil, and the store.
abbrev pub Outcome : Type 0
Outcome = Option Error × Store

unless_false : Option Bool → Bool
unless_false none = true
unless_false (some b) = b

checker_or_new : Option ConditionChecker → List (String × Bool) → Option ConditionChecker
checker_or_new none [] = none
checker_or_new none (o ∷ overrides) = some (new_condition_checker none [])
checker_or_new (some c) overrides = some c

merged : List (String × Bool) → Option ConditionChecker → Option ConditionChecker
unfolding merge_overrides
merged overrides none = none
merged overrides (some c) = some (merge_overrides c overrides)

-- `New`, to the closure.
unfoldable pub new :
    (trim : String → String) (equal_fold : String → String → Bool) → Config → Ordering
unfolding unless_false checker_or_new merged
new trim equal_fold cfg = record {
  denies = unless_false cfg.deny_on_missing;
  checker = merged cfg.condition_overrides (checker_or_new cfg.conditions cfg.condition_overrides);
  build_opts = if equal_fold (trim cfg.matrix_naming) "value" then matrix_naming_value ∷ [] else [];
}

in_pipeline : Option ResolvedPipeline → String → String → Option Target
in_pipeline none plan step = none
in_pipeline (some rp) plan step =
    if rp.resolved_yaml == ""
    then none
    else some (record { plan = plan; step = step; yaml = rp.resolved_yaml })

in_execution : Option ResolvedPipeline → Option ExecutionDetails → String → Option Target
unfolding in_pipeline
in_execution rp none step = none
in_execution rp (some d) step =
    if d.pipeline_execution_id == "" then none else in_pipeline rp d.pipeline_execution_id step

of_metadata : Option ResolvedPipeline → Option ZtsMetadata → Option Target
unfolding in_execution
of_metadata rp none = none
of_metadata rp (some zts) =
    if zts.step_fqn == "" then none else in_execution rp zts.execution_details zts.step_fqn

of_package : Option ResolvedPipeline → Option TaskPackage → Option Target
unfolding of_metadata
of_package rp none = none
of_package rp (some pkg) = of_metadata rp pkg.zts_metadata

-- The guards of the closure: `none` where it has nothing to order.
unfoldable pub order_target : VerifyRequest → Option ResolvedPipeline → Option Target
unfolding of_package
order_target request rp = of_package rp request.task_package

-- `errors.Is(err, ErrNodeNotFound)`.
unfoldable pub is_node_not_found : PipelineError → Bool
is_node_not_found node_not_found = true
is_node_not_found (invalid_pipeline rest) = false
is_node_not_found (unsupported_pipeline rest) = false
is_node_not_found (strategy_on fqn e) = is_node_not_found e

module _ (quote trim lower : String → String) (equal_fold : String → String → Bool)
    (decode : String → Decoded) where
  condition_option : Option ConditionChecker → String → List EvaluateOption
  unfolding eval
  condition_option none plan = []
  condition_option (some c) plan =
      with_condition (some (λ w. eval trim lower equal_fold c plan w)) ∷ []

  -- `evalOpts`.
  unfoldable pub order_options : Ordering → String → Store → List EvaluateOption
  unfolding condition_option ran
  order_options o plan store =
      with_ran (some (λ fqn. ok (ran store plan fqn)))
      ∷ with_pipeline_rollback_policy (some (λ v. true))
      ∷ condition_option o.checker plan

  -- The error of a pipeline that cannot be evaluated.
  unfoldable pub order_failed : Ordering → Target → PipelineError → Option Error
  unfolding human_fqn pipeline_error_text
  order_failed o t e =
      if is_node_not_found e
      then none
      else if o.denies
      then some (
          wrapped ("execution_ordering: cannot verify step " ++ quote (human_fqn t.step) ++ ": ")
            (message (pipeline_error_text e)) "")
      else none

  -- The error of a step that may not run yet.
  unfoldable pub order_denied : Ordering → Target → Verdict → Option Error
  unfolding blocking blocking_messages join_texts
  order_denied o t verdict =
      if o.denies
      then some (
          message (
            "execution_ordering: step "
            ++ quote (human_fqn t.step)
            ++ " must not run: "
            ++ join_texts "; " (blocking_messages (blocking verdict.violations))))
      else none

  -- What follows the call of `VerifyStepOrder`.
  unfoldable pub order_answered : Ordering → Target → Store → Answer → Outcome
  unfolding order_failed order_denied is_node_not_found mark_ran
  order_answered o t store (verdict, some e) = (order_failed o t e, store)
  order_answered o t store (verdict, none) =
      if verdict.allowed
      then (none, mark_ran store t.plan t.step verdict.fqn)
      else (order_denied o t verdict, store)

  unfoldable pub order_asked : Ordering → Target → Store → Option Answer → Option Outcome
  unfolding order_answered
  order_asked o t store none = none
  order_asked o t store (some a) = some (order_answered o t store a)

  unfoldable pub order_of : Ordering → Store → Option Target → Option Outcome
  unfolding order_asked verify_step_order order_options
  order_of o store none = some (none, store)
  order_of o store (some t) =
      order_asked o t store
        (verify_step_order quote (decode t.yaml) t.step o.build_opts (order_options o t.plan store))

  -- The verifier of `New`. `none` means that the fuel of a walk ran out.
  unfoldable pub verify_order :
      Ordering → VerifyRequest → Option ResolvedPipeline → Store → Option Outcome
  unfolding order_of order_target
  verify_order o request rp store = order_of o store (order_target request rp)
