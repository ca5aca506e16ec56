-- ===== src/Pipeline/Build.antt =====
-- verifier/pipeline/graph.go: `BuildGraph` on a pipeline that was decoded from its YAML. The `buildErr`
-- of the graph is passed along; the maps are filled when the nodes are all there, in the order in
-- which the code registers them.
use Prim.Native.String
use zero_trust_service.Common.{
  ℕ, suc, String, true, false, Option, none, some, ◌==◌, if◌then◌else◌, is_some,
}
use zero_trust_service.Pipeline.Model.{When}
use zero_trust_service.Pipeline.Graph.{
  NodeKind, kind_step_group, kind_step, kind_parallel, StrategySpec, NodeInfo, GraphNode,
  graph_node, Children, no_more, child_then, no_rollback,
}
use zero_trust_service.Pipeline.Raw.{
  RawWhen, RawStep, step_wrapper, no_parallel, parallel_steps, no_group, step_group, RawSteps,
  no_steps, steps_then,
}
use zero_trust_service.Pipeline.Errors.{PipelineError, strategy_on}
use zero_trust_service.Pipeline.Suffixes.{spec_with_status}
use zero_trust_service.Pipeline.Strategies.{
  MatrixNaming, RawStrategy, SpecResult, resolved, refused, resolve_strategy,
}

-- `makeWhen`.
unfoldable pub make_when : Option RawWhen → String → String → Option When
make_when none level owner_fqn = none
make_when (some rw) level owner_fqn = some (
    if rw.runtime_input
    then record {
      level = level;
      owner_fqn = owner_fqn;
      status = "";
      expression = "";
      runtime_input = true;
    }
    else record {
      level = level;
      owner_fqn = owner_fqn;
      status = if rw.stage_status == "" then rw.pipeline_status else rw.stage_status;
      expression = rw.condition;
      runtime_input = false;
    })

-- `buildErr`.
abbrev pub BuildErr : Type 0
BuildErr = Option PipelineError

spec_or_note : String → SpecResult → BuildErr → Option StrategySpec × BuildErr
spec_or_note fqn (resolved spec) first = (some spec, first)
spec_or_note fqn (refused e) none = (some (spec_with_status ""), some (strategy_on fqn e))
spec_or_note fqn (refused e) (some first) = (some (spec_with_status ""), some first)

-- `stratSpec`.
unfoldable pub strat_spec :
    MatrixNaming → Option RawStrategy → String → BuildErr → Option StrategySpec × BuildErr
unfolding spec_or_note resolve_strategy
strat_spec naming none fqn first = (none, first)
strat_spec naming (some rs) fqn first = spec_or_note fqn (resolve_strategy rs naming) first

abbrev pub child_fqn : String → String → String
child_fqn prefix id = String.◌++◌ prefix (String.◌++◌ "." id)

-- A node without a kind of its own.
abbrev pub blank_info : NodeKind → ℕ → NodeInfo
blank_info kind index = record {
  kind = kind;
  id = "";
  fqn = "";
  step_type = "";
  guard = none;
  strategy = false;
  strat = none;
  index = index;
  concurrent = false;
  pipeline_rollback = false;
}

abbrev pub parallel_info : ℕ → NodeInfo
parallel_info index = record (blank_info kind_parallel index) { concurrent = true }

-- The fields of a step or a group, with the spec of its strategy.
abbrev pub unit_info :
    NodeKind
    → String
    → String
    → String
    → Option When
    → Option RawStrategy
    → Option StrategySpec
    → ℕ
    → NodeInfo
unit_info kind id fqn step_type guard strategy strat index = record (blank_info kind index) {
  id = id;
  fqn = fqn;
  step_type = step_type;
  guard = guard;
  strategy = is_some strategy;
  strat = strat;
}

-- `buildStep`.
unfoldable pub build_step : MatrixNaming → RawStep → String → ℕ → BuildErr → GraphNode × BuildErr
unfolding strat_spec make_when
build_step naming st prefix index first =
    let fqn = child_fqn prefix st.identifier in
    let (strat, first') = strat_spec naming st.strategy fqn first in
    (
      graph_node
          (unit_info kind_step st.identifier fqn st.type_name (make_when st.guard "step" fqn)
            st.strategy strat index)
          no_more no_rollback,
      first',
    )

-- `buildSteps` from the index `len(out)` on, its switch on a wrapper, and `buildStepGroup`.
unfoldable mutual
  unfolding build_step strat_spec make_when

  pub build_steps : MatrixNaming → RawSteps → String → ℕ → BuildErr → Children × BuildErr
  build_steps naming no_steps prefix index first = (no_more, first)
  build_steps naming (steps_then (step_wrapper (parallel_steps ws) g st) rest) prefix index first =
      let (cs, first1) = build_steps naming ws prefix 0 first in
      let (out, first2) = build_steps naming rest prefix (suc index) first1 in
      (child_then (graph_node (parallel_info index) cs no_rollback) out, first2)
  build_steps naming (steps_then (step_wrapper no_parallel (step_group sg ws) st) rest) prefix index
        first =
      let fqn = child_fqn prefix sg.identifier in
      let (strat, first1) = strat_spec naming sg.strategy fqn first in
      let (cs, first2) = build_steps naming ws (String.◌++◌ fqn ".steps") 0 first1 in
      let (out, first3) = build_steps naming rest prefix (suc index) first2 in
      (
        child_then
            (graph_node
              (unit_info kind_step_group sg.identifier fqn "" (make_when sg.guard "stepGroup" fqn)
                sg.strategy strat index)
              cs no_rollback)
            out,
        first3,
      )
  build_steps naming (steps_then (step_wrapper no_parallel no_group (some st)) rest) prefix index
        first =
      let (n, first1) = build_step naming st prefix index first in
      let (out, first2) = build_steps naming rest prefix (suc index) first1 in
      (child_then n out, first2)
  build_steps naming (steps_then (step_wrapper no_parallel no_group none) rest) prefix index first =
      build_steps naming rest prefix index first
