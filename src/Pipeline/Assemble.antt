-- ===== src/Pipeline/Assemble.antt =====
-- verifier/pipeline/graph.go: the stages of a graph, the maps from FQNs to its nodes, and `BuildGraph`
-- on what the YAML decoder returned; verifier/pipeline/evaluate.go: `VerifyStepOrder`.
use Prim.Native.String
use zero_trust_service.Common.{
  ℕ, suc, String, Bool, true, false, Option, none, some, List, [], ◌∷◌, ◌++◌, ◌==◌, ◌||◌,
  if◌then◌else◌, is_some, lookup, insert, contains,
}
use zero_trust_service.Common.Texts.{equal_fold, join_texts}
use zero_trust_service.Pipeline.Graph.{
  NodeKind, kind_pipeline, kind_stage, kind_step_group, kind_step, kind_rollback, StrategySpec,
  NodeInfo, GraphNode, graph_node, Children, no_more, child_then, Rollback, no_rollback,
  rollback_root, Pointer, fqn_of,
}
use zero_trust_service.Pipeline.Violations.{EvaluateOption}
use zero_trust_service.Pipeline.Instances.{instance_fqns}
use zero_trust_service.Pipeline.Lookup.{PipelineGraph}
use zero_trust_service.Pipeline.Raw.{
  RawSteps, no_steps, steps_then, RawExecution, RawStageSpec, RawStage, stage_wrapper,
  no_parallel_stages, parallel_stages, RawStages, no_stages, stages_then,
}
use zero_trust_service.Pipeline.Errors.{PipelineError, invalid_pipeline}
use zero_trust_service.Pipeline.Strategies.{MatrixNaming, matrix_naming_index}
use zero_trust_service.Pipeline.Deployments.{multi_deploy_spec, combine_stage_specs}
use zero_trust_service.Pipeline.Build.{
  make_when, BuildErr, strat_spec, child_fqn, blank_info, parallel_info, build_steps,
}
use zero_trust_service.Pipeline.Step.{Answer, empty_verdict, evaluate_step}

-- Whether a failure strategy rolls the pipeline back.
rolls_back : List String → Bool
unfolding equal_fold
rolls_back [] = false
rolls_back (action ∷ actions) = equal_fold action "pipelinerollback" || rolls_back actions

deployment_spec : Option RawStageSpec → Option StrategySpec
unfolding multi_deploy_spec
deployment_spec none = none
deployment_spec (some spec) = multi_deploy_spec spec.deployment

execution_of : Option RawStageSpec → Option RawExecution
execution_of none = none
execution_of (some spec) = spec.execution

-- The rollback steps below a root of their own, where there are any.
unfoldable pub build_rollback : MatrixNaming → RawSteps → String → BuildErr → Rollback × BuildErr
unfolding build_steps
build_rollback naming no_steps fqn first = (no_rollback, first)
build_rollback naming (steps_then w ws) fqn first =
    let rb_fqn = String.◌++◌ fqn ".spec.execution.rollbackSteps" in
    let (cs, first') = build_steps naming (steps_then w ws) rb_fqn 0 first in
    (
      rollback_root
          (graph_node (record (blank_info kind_rollback 0) { fqn = rb_fqn }) cs no_rollback),
      first',
    )

unfoldable pub build_execution :
    MatrixNaming → NodeInfo → Option RawExecution → BuildErr → GraphNode × BuildErr
unfolding build_steps build_rollback
build_execution naming n none first = (graph_node n no_more no_rollback, first)
build_execution naming n (some ex) first =
    let (cs, first1) =
      build_steps naming ex.steps (String.◌++◌ n.fqn ".spec.execution.steps") 0 first in
    let (rb, first2) = build_rollback naming ex.rollback_steps n.fqn first1 in
    (graph_node n cs rb, first2)

stage_info : RawStage → String → Option StrategySpec → ℕ → NodeInfo
unfolding make_when rolls_back
stage_info s fqn strat index = record (blank_info kind_stage index) {
  id = s.identifier;
  fqn = fqn;
  step_type = s.type_name;
  guard = make_when s.guard "stage" fqn;
  strategy = is_some strat;
  strat = strat;
  pipeline_rollback = rolls_back s.failure_actions;
}

-- `buildStage`.
unfoldable pub build_stage : MatrixNaming → RawStage → String → ℕ → BuildErr → GraphNode × BuildErr
unfolding stage_info strat_spec combine_stage_specs deployment_spec execution_of build_execution
build_stage naming s prefix index first =
    let fqn = child_fqn prefix s.identifier in
    let (explicit, first1) = strat_spec naming s.strategy fqn first in
    let strat = combine_stage_specs explicit (deployment_spec s.spec) in
    build_execution naming (stage_info s fqn strat index) (execution_of s.spec) first1

-- `buildStages` from the index `len(out)` on.
unfoldable pub build_stages : MatrixNaming → RawStages → String → ℕ → BuildErr → Children × BuildErr
unfolding build_stage
build_stages naming no_stages prefix index first = (no_more, first)
build_stages naming (stages_then (stage_wrapper (parallel_stages ws) s) rest) prefix index first =
    let (cs, first1) = build_stages naming ws prefix 0 first in
    let (out, first2) = build_stages naming rest prefix (suc index) first1 in
    (child_then (graph_node (parallel_info index) cs no_rollback) out, first2)
build_stages naming (stages_then (stage_wrapper no_parallel_stages (some s)) rest) prefix index
      first =
    let (n, first1) = build_stage naming s prefix index first in
    let (out, first2) = build_stages naming rest prefix (suc index) first1 in
    (child_then n out, first2)
build_stages naming (stages_then (stage_wrapper no_parallel_stages none) rest) prefix index first =
    build_stages naming rest prefix index first

abbrev pub is_registered : NodeKind → Bool
is_registered kind_stage = true
is_registered kind_step_group = true
is_registered kind_step = true
is_registered _ = false

-- The nodes that are registered, each behind those below it.
unfoldable mutual
  pub registered : GraphNode → Pointer → List Pointer
  registered (graph_node i cs rb) up =
      let n = graph_node i cs rb in
      registered_all cs (n ∷ up)
      ++ (registered_rollback rb (n ∷ up) ++ (if is_registered i.kind then (n ∷ up) ∷ [] else []))

  pub registered_all : Children → Pointer → List Pointer
  registered_all no_more up = []
  registered_all (child_then c cs) up = registered c up ++ registered_all cs up

  pub registered_rollback : Rollback → Pointer → List Pointer
  registered_rollback no_rollback up = []
  registered_rollback (rollback_root rb) up = registered rb up

abbrev pub NodeMap : Type 0
NodeMap = List (String × Pointer)

-- `register`, over the map and the duplicates.
unfoldable pub register_all : List Pointer → NodeMap → List String → NodeMap × List String
unfolding lookup insert
register_all [] by_fqn duplicates = (by_fqn, duplicates)
register_all (n ∷ nodes) by_fqn duplicates =
    register_all nodes (insert (fqn_of n) n by_fqn)
      (if is_some (lookup (fqn_of n) by_fqn) then duplicates ++ fqn_of n ∷ [] else duplicates)

unfoldable pub remove_key : String → NodeMap → NodeMap
remove_key key [] = []
remove_key key (entry ∷ rest) = (if entry.0 == key then [] else entry ∷ []) ++ remove_key key rest

-- The body of the inner loop of `indexInstances`.
unfoldable pub index_instance :
    NodeMap → Pointer → String → NodeMap → List String → NodeMap × List String
unfolding lookup insert remove_key contains
index_instance by_fqn n inst insts ambiguous =
    if inst == fqn_of n || is_some (lookup inst by_fqn) || contains inst ambiguous
    then (insts, ambiguous)
    else if is_some (lookup inst insts)
    then (remove_key inst insts, ambiguous ++ inst ∷ [])
    else (insert inst n insts, ambiguous)

unfoldable pub index_names :
    NodeMap → Pointer → List String → NodeMap → List String → NodeMap × List String
unfolding index_instance
index_names by_fqn n [] insts ambiguous = (insts, ambiguous)
index_names by_fqn n (inst ∷ names) insts ambiguous =
    let (insts', ambiguous') = index_instance by_fqn n inst insts ambiguous in
    index_names by_fqn n names insts' ambiguous'

abbrev pub names_or_nil : Option (List String) → List String
names_or_nil none = []
names_or_nil (some names) = names

-- `indexInstances`, on the nodes in any order.
unfoldable pub index_instances : NodeMap → NodeMap → NodeMap → List String → NodeMap
unfolding index_names instance_fqns
index_instances by_fqn [] insts ambiguous = insts
index_instances by_fqn ((key, n) ∷ nodes) insts ambiguous =
    let (insts', ambiguous') =
      index_names by_fqn n (names_or_nil (instance_fqns n)) insts ambiguous in
    index_instances by_fqn nodes insts' ambiguous'

pub data BuildResult : Type 0 where
  built : PipelineGraph → BuildResult
  failed : PipelineError → BuildResult

unfoldable pub graph_of : GraphNode → NodeMap → PipelineGraph
unfolding index_instances
graph_of root by_fqn = record {
  root = root;
  by_fqn = by_fqn;
  inst_by_fqn = index_instances by_fqn by_fqn [] [];
}

unfoldable pub with_maps : GraphNode → NodeMap → List String → BuildResult
unfolding graph_of join_texts
with_maps root by_fqn [] = built (graph_of root by_fqn)
with_maps root by_fqn (d ∷ duplicates) = failed (
    invalid_pipeline
      (String.◌++◌ ": duplicate step/stage identifiers: " (join_texts ", " (d ∷ duplicates))))

unfoldable pub check_build : GraphNode → BuildErr → BuildResult
unfolding with_maps register_all registered
check_build root (some e) = failed e
check_build root none =
    let (by_fqn, duplicates) = register_all (registered root []) [] [] in
    with_maps root by_fqn duplicates

-- `WithMatrixNaming`, the last of which counts.
unfoldable pub naming_of : List MatrixNaming → MatrixNaming
naming_of [] = matrix_naming_index
naming_of (m ∷ []) = m
naming_of (m ∷ m' ∷ opts) = naming_of (m' ∷ opts)

-- What `yaml.Unmarshal` gave: an error other than a `TypeError`, or a document, perhaps in part, of
-- which the pipeline may be nil.
pub data Decoded : Type 0 where
  not_decoded : String → Decoded
  decoded : Option RawStages → Decoded

-- `BuildGraph`.
unfoldable pub build_graph : Decoded → List MatrixNaming → BuildResult
unfolding build_stages check_build naming_of
build_graph (not_decoded text) opts = failed (invalid_pipeline (String.◌++◌ ": " text))
build_graph (decoded none) opts = failed (invalid_pipeline ": no pipeline root")
build_graph (decoded (some stages)) opts =
    let (cs, first) = build_stages (naming_of opts) stages "pipeline.stages" 0 none in
    check_build (graph_node (blank_info kind_pipeline 0) cs no_rollback) first

module _ (quote : String → String) where
  unfoldable pub step_order : String → List EvaluateOption → BuildResult → Option Answer
  unfolding evaluate_step empty_verdict
  step_order fqn opts (failed e) = some (empty_verdict fqn, some e)
  step_order fqn opts (built g) = evaluate_step quote g fqn opts

  -- `VerifyStepOrder`.
  unfoldable pub verify_step_order :
      Decoded → String → List MatrixNaming → List EvaluateOption → Option Answer
  unfolding step_order build_graph
  verify_step_order yaml fqn build_opts eval_opts =
      step_order fqn eval_opts (build_graph yaml build_opts)
