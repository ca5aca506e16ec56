-- ===== src/Pipeline/Strategies.antt =====
-- verifier/pipeline/graph.go: the fan-out of a `strategy` block that was decoded from the YAML.
use zero_trust_service.Common.{
  ℕ, String, Bool, true, false, Option, none, some, List, [], ◌∷◌, map, ◌||◌, if◌then◌else◌,
}
use zero_trust_service.Pipeline.Model.{fanout_runtime_input, fanout_custom_names}
use zero_trust_service.Pipeline.Graph.{StrategySpec}
use zero_trust_service.Pipeline.Errors.{PipelineError, invalid_pipeline, unsupported_pipeline}
use zero_trust_service.Pipeline.Suffixes.{
  spec_with_status, spec_known, enumerated, index_suffix, range_suffixes, product_suffixes, Axis,
  matrix_combos, matrix_value_suffixes,
}

pub data MatrixNaming : Type 0 where
  matrix_naming_index matrix_naming_value : MatrixNaming

pub record MatrixAxis : Type 0 where
  pub name : String
  pub vals : List String
  pub count : ℕ
  pub all_scalar : Bool

pub record MatrixStrategy : Type 0 where
  pub runtime_input : Bool
  pub node_name : Bool
  pub bad_shape : Bool
  pub axes : List MatrixAxis
  pub excludes : List (List (String × String))

pub record ParallelismStrategy : Type 0 where
  pub count : ℕ
  pub valid : Bool

pub record RepeatStrategy : Type 0 where
  pub start : Bool
  pub end : Bool
  pub unit : Bool
  pub partition_size : Bool
  pub node_name : Bool
  pub times_set : Bool
  pub times_ok : Bool
  pub times : ℕ
  pub items_seq : Bool
  pub items_count : ℕ

pub record RawStrategy : Type 0 where
  pub runtime_input : Bool
  pub matrix : Option MatrixStrategy
  pub parallelism : Option ParallelismStrategy
  pub repeat : Option RepeatStrategy

-- A spec, or the error that stands beside an empty one.
pub data SpecResult : Type 0 where
  resolved : StrategySpec → SpecResult
  refused : PipelineError → SpecResult

abbrev runtime_spec : SpecResult
runtime_spec = resolved (spec_with_status fanout_runtime_input)

abbrev pub axis_of : MatrixAxis → Axis
axis_of a = record { name = a.name; vals = a.vals }

unfoldable pub all_axes_scalar : List MatrixAxis → Bool
all_axes_scalar [] = true
all_axes_scalar (a ∷ axes) = if a.all_scalar then all_axes_scalar axes else false

enumerate_values : MatrixNaming → List Axis → List (List (String × String)) → SpecResult
unfolding matrix_value_suffixes matrix_combos enumerated
enumerate_values matrix_naming_value axes excludes = resolved (matrix_value_suffixes axes excludes)
enumerate_values matrix_naming_index axes excludes =
    resolved (enumerated (matrix_combos (λ i val. index_suffix i) axes excludes))

-- The part of `matrixSuffixes` behind the switch.
unfoldable pub enumerate_axes :
    MatrixNaming → List MatrixAxis → List (List (String × String)) → SpecResult
unfolding enumerate_values all_axes_scalar product_suffixes enumerated
enumerate_axes matrix_naming_index axes [] =
    resolved (enumerated (product_suffixes (map (λ (a : MatrixAxis). a.count) axes)))
enumerate_axes naming axes excludes =
    if all_axes_scalar axes
    then enumerate_values naming (map axis_of axes) excludes
    else resolved (spec_with_status fanout_custom_names)

no_axes_or : List MatrixAxis → SpecResult → SpecResult
no_axes_or [] other = refused (invalid_pipeline ": matrix has no axes to enumerate")
no_axes_or (a ∷ axes) other = other

-- `matrixSuffixes`.
unfoldable pub matrix_suffixes : MatrixStrategy → MatrixNaming → SpecResult
unfolding no_axes_or enumerate_axes
matrix_suffixes m naming =
    if m.runtime_input
    then runtime_spec
    else if m.bad_shape
    then refused (invalid_pipeline ": matrix axis is not a sequence, or `exclude` is malformed")
    else if m.node_name
    then resolved (spec_with_status fanout_custom_names)
    else no_axes_or m.axes (enumerate_axes naming m.axes m.excludes)

-- `repeatSuffixes`.
unfoldable pub repeat_suffixes : RepeatStrategy → StrategySpec
unfolding range_suffixes enumerated
repeat_suffixes r =
    if r.node_name
    then spec_with_status fanout_custom_names
    else if r.start || r.end || r.unit || r.partition_size
    then spec_with_status fanout_runtime_input
    else if r.times_set
    then (if r.times_ok
        then spec_known (range_suffixes r.times)
        else spec_with_status fanout_runtime_input)
    else if r.items_seq
    then enumerated (range_suffixes r.items_count)
    else spec_with_status fanout_runtime_input

parallelism_suffixes : ParallelismStrategy → StrategySpec
unfolding range_suffixes
parallelism_suffixes p =
    if p.valid then spec_known (range_suffixes p.count) else spec_with_status fanout_runtime_input

resolve_blocks :
    MatrixNaming
    → Bool
    → Option MatrixStrategy
    → Option ParallelismStrategy
    → Option RepeatStrategy
    → SpecResult
unfolding matrix_suffixes parallelism_suffixes repeat_suffixes
resolve_blocks naming runtime_input (some m) p r = matrix_suffixes m naming
resolve_blocks naming runtime_input none (some p) r = resolved (parallelism_suffixes p)
resolve_blocks naming runtime_input none none (some r) = resolved (repeat_suffixes r)
resolve_blocks naming true none none none = runtime_spec
resolve_blocks naming false none none none =
    refused (unsupported_pipeline ": unrecognized strategy shape (no matrix/parallelism/repeat)")

-- `resolve`.
unfoldable pub resolve_strategy : RawStrategy → MatrixNaming → SpecResult
unfolding resolve_blocks
resolve_strategy s naming = resolve_blocks naming s.runtime_input s.matrix s.parallelism s.repeat
