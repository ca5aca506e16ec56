-- ===== src/Tests/Orderings.antt =====
-- The ordering verifier of the example service on a request for the last step of the sample pipeline,
-- while nothing has run.
use zero_trust_service.Common.{
  ◌≡◌, refl, ◌⊎◌, String, Bool, true, false, none, some, [], ◌∷◌, ◌&&◌, ◌==◌, not, is_some,
  contains,
}
use zero_trust_service.Common.Texts.{itoa}
use zero_trust_service.Fault.{message}
use zero_trust_service.Types.{ZtsMetadata, VerifyRequest}
use zero_trust_service.Template.Types.{ResolvedPipeline}
use zero_trust_service.Pipeline.Climb.{preds, terminal_at, terminal_leaves}
use zero_trust_service.Pipeline.Gates.{
  condition_violations, non_enumerable, effective_fqns, judge_ancestor,
  new_ancestor_did_not_run_violation,
}
use zero_trust_service.Pipeline.Ancestors.{ancestor_violations, look_up_runs}
use zero_trust_service.Pipeline.Evaluate.{all_ignored, ran_or_default}
use zero_trust_service.Pipeline.Step.{Answer}
use zero_trust_service.Pipeline.Assemble.{Decoded, verify_step_order}
use zero_trust_service.Pipeline.Violations.{Violation, apply_policy}
use zero_trust_service.Pipeline.Model.{join_and}
use zero_trust_service.Service.Store.{new_store, mark_ran}
use zero_trust_service.Service.Messages.{human_fqn, human_fqns, blocking_messages}
use zero_trust_service.Service.Ordering.{
  Ordering, Target, Outcome, new, order_target, order_options, verify_order,
}
use zero_trust_service.Service.Enforced.{is_unknown, verify_order_outcome}
use zero_trust_service.Tests.Samples.{quote, package_of}
use zero_trust_service.Tests.Graphs.{pipeline_yaml}

abbrev plain : String → String
plain s = s

abbrev same_text : String → String → Bool
same_text s t = s == t

abbrev read_sample : String → Decoded
read_sample yaml = pipeline_yaml

abbrev deploy_metadata : ZtsMetadata
deploy_metadata = record {
  account_id = "acme";
  org_identifier = "";
  project_identifier = "";
  step_fqn = "pipeline.stages.ci.spec.execution.steps.deploy";
  pipeline_git_details = none;
  execution_details = some (record {
    pipeline_execution_id = "run1";
    stage_execution_id = "";
    step_execution_id = "";
    pipeline_identifier = "p";
  });
  parent_unique_id = "";
}

abbrev deploy_request : VerifyRequest
deploy_request = record {
  task_package =
      some (record (package_of "t1" "acme" "SHELL" []) { zts_metadata = some deploy_metadata });
}

-- It denies.
abbrev strict_ordering : Ordering
strict_ordering = record { denies = true; checker = none; build_opts = [] }

abbrev sample_pipeline : ResolvedPipeline
sample_pipeline = record {
  original_yaml = "pipeline:";
  resolved_yaml = "pipeline:";
  templates_used = [];
}

abbrev deploy_target : Target
deploy_target = record {
  plan = "run1";
  step = "pipeline.stages.ci.spec.execution.steps.deploy";
  yaml = "pipeline:";
}

new_strict :
    new plain same_text (record {
      deny_on_missing = none;
      matrix_naming = "";
      conditions = none;
      condition_overrides = [];
    })
    ≡ strict_ordering
unfolding new
new_strict = refl

deploy_has_target : order_target deploy_request (some sample_pipeline) ≡ some deploy_target
unfolding order_target
deploy_has_target = refl

verify_order_outcome_example :
    (a : Answer) × (r : Outcome) × (verify_step_order quote pipeline_yaml deploy_target.step []
        (order_options quote plain plain same_text read_sample strict_ordering "run1" new_store)
      ≡ some a)
    × (verify_order quote plain plain same_text read_sample strict_ordering deploy_request
          (some sample_pipeline)
          new_store
        ≡ some r)
    × (((a.1 ≡ none)
          × (a.0.allowed ≡ true)
          × (r ≡ (none, mark_ran new_store "run1" deploy_target.step a.0.fqn)))
        ⊎ ((a.0.allowed ≡ false)
            × (r.1 ≡ new_store)
            × (is_some r.0 ≡ (true && not (is_unknown a.1)))))
verify_order_outcome_example =
    verify_order_outcome quote plain plain same_text read_sample strict_ordering deploy_request
      (some sample_pipeline) new_store deploy_target deploy_has_target

short_name : human_fqn "pipeline.stages.st1.spec.execution.steps.sg1.steps.s2" ≡ "st1 / sg1 / s2"
unfolding human_fqn contains
short_name = refl

waits :
    blocking_messages (
      Violation.ancestor (record {
        join_type = join_and;
        ancestor_fqn = "pipeline.stages.a";
        ancestors = "pipeline.stages.a.x" ∷ "pipeline.stages.a.y" ∷ [];
        description = "";
        ignored = false;
      })
      ∷ [])
    ≡ "waiting on a: 2 instances outstanding (a / x, a / y)" ∷ []
unfolding blocking_messages human_fqns human_fqn itoa contains
waits = refl

-- The step has to wait for the one before it, on which nothing is known.
denied_first :
    verify_order quote plain plain same_text read_sample strict_ordering deploy_request
      (some sample_pipeline)
      new_store
    ≡ some (
      some (message "execution_ordering: step ci / deploy must not run: waiting on: ci / lint"),
      new_store,
    )
unfolding verify_order contains preds terminal_at terminal_leaves all_ignored condition_violations
    ancestor_violations non_enumerable look_up_runs effective_fqns ran_or_default judge_ancestor
    apply_policy new_ancestor_did_not_run_violation human_fqns
denied_first = refl
