-- ===== src/Tests/Graphs.antt =====
-- A pipeline with a stage of three steps, of which the second is guarded, as the decoder gives it and
-- as the graph that is built from it.
use zero_trust_service.Common.{◌≡◌, refl, ℕ, String, false, none, some, [], ◌∷◌}
use zero_trust_service.Pipeline.Model.{When}
use zero_trust_service.Pipeline.Graph.{
  NodeKind, kind_pipeline, kind_stage, kind_step, NodeInfo, GraphNode, graph_node, no_more,
  child_then, no_rollback, Pointer,
}
use zero_trust_service.Pipeline.Raw.{
  RawWhen, RawStep, step_wrapper, no_parallel, no_group, RawSteps, no_steps, steps_then, RawStage,
  stage_wrapper, no_parallel_stages, no_stages, stages_then,
}
use zero_trust_service.Pipeline.Lookup.{PipelineGraph}
use zero_trust_service.Pipeline.Listing.{tree_node, no_trees, to_tree, fqns}
use zero_trust_service.Pipeline.Assemble.{Decoded, decoded, built, build_graph}

abbrev plain_step : String → RawStep
plain_step id = record { identifier = id; type_name = "Run"; guard = none; strategy = none }

abbrev on_flag : RawWhen
on_flag = record {
  runtime_input = false;
  stage_status = "";
  pipeline_status = "";
  condition = "<+env> == 1";
}

abbrev then_step : RawStep → RawSteps → RawSteps
then_step st rest = steps_then (step_wrapper no_parallel no_group (some st)) rest

abbrev three_steps : RawSteps
three_steps = then_step (plain_step "build") (
    then_step (record (plain_step "lint") { guard = some on_flag })
      (then_step (plain_step "deploy") no_steps))

abbrev ci_stage : RawStage
ci_stage = record {
  identifier = "ci";
  type_name = "CI";
  guard = none;
  strategy = none;
  spec = some (record {
    execution = some (record { steps = three_steps; rollback_steps = no_steps });
    deployment = record { services = []; environments = []; environment_group = false };
  });
  failure_actions = [];
}

abbrev pub pipeline_yaml : Decoded
pipeline_yaml =
    decoded (some (stages_then (stage_wrapper no_parallel_stages (some ci_stage)) no_stages))

abbrev sample_info : NodeKind → String → String → String → ℕ → NodeInfo
sample_info kind id fqn step_type index = record {
  kind = kind;
  id = id;
  fqn = fqn;
  step_type = step_type;
  guard = none;
  strategy = false;
  strat = none;
  index = index;
  concurrent = false;
  pipeline_rollback = false;
}

abbrev pub lint_guard : When
lint_guard = record {
  level = "step";
  owner_fqn = "pipeline.stages.ci.spec.execution.steps.lint";
  status = "";
  expression = "<+env> == 1";
  runtime_input = false;
}

abbrev build_node : GraphNode
build_node =
    graph_node
      (sample_info kind_step "build" "pipeline.stages.ci.spec.execution.steps.build" "Run" 0)
      no_more no_rollback

abbrev lint_node : GraphNode
lint_node =
    graph_node
      (record (sample_info kind_step "lint" "pipeline.stages.ci.spec.execution.steps.lint" "Run"
        1) { guard = some lint_guard })
      no_more no_rollback

abbrev deploy_node : GraphNode
deploy_node =
    graph_node
      (sample_info kind_step "deploy" "pipeline.stages.ci.spec.execution.steps.deploy" "Run" 2)
      no_more no_rollback

abbrev stage_node : GraphNode
stage_node =
    graph_node (sample_info kind_stage "ci" "pipeline.stages.ci" "CI" 0)
      (child_then build_node (child_then lint_node (child_then deploy_node no_more))) no_rollback

abbrev root_node : GraphNode
root_node =
    graph_node (sample_info kind_pipeline "" "" "" 0) (child_then stage_node no_more) no_rollback

abbrev pub build_p : Pointer
build_p = build_node ∷ stage_node ∷ root_node ∷ []

abbrev pub lint_p : Pointer
lint_p = lint_node ∷ stage_node ∷ root_node ∷ []

abbrev pub deploy_p : Pointer
deploy_p = deploy_node ∷ stage_node ∷ root_node ∷ []

abbrev pub sample_graph : PipelineGraph
sample_graph = record {
  root = root_node;
  by_fqn =
      ("pipeline.stages.ci.spec.execution.steps.build", build_p)
      ∷ ("pipeline.stages.ci.spec.execution.steps.lint", lint_p)
      ∷ ("pipeline.stages.ci.spec.execution.steps.deploy", deploy_p)
      ∷ ("pipeline.stages.ci", stage_node ∷ root_node ∷ [])
      ∷ [];
  inst_by_fqn = [];
}

pub build_graph_sample : build_graph pipeline_yaml [] ≡ built sample_graph
unfolding build_graph
build_graph_sample = refl

listed_fqns :
    fqns (some sample_graph)
    ≡ "pipeline.stages.ci" ∷ "pipeline.stages.ci.spec.execution.steps.build"
      ∷ "pipeline.stages.ci.spec.execution.steps.deploy"
      ∷ "pipeline.stages.ci.spec.execution.steps.lint" ∷ []
unfolding fqns
listed_fqns = refl

build_view :
    to_tree build_node
    ≡ tree_node
        (record {
          kind = "step";
          id = "build";
          fqn = "pipeline.stages.ci.spec.execution.steps.build";
          type_name = "Run";
        })
        no_trees
unfolding to_tree
build_view = refl
