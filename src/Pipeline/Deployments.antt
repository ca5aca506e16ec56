-- ===== src/Pipeline/Deployments.antt =====
-- verifier/pipeline/graph.go: the fan-out of a Deployment stage over services, environments and
-- infrastructures, and its combination with a strategy of the stage.
use Prim.Native.String
use zero_trust_service.Common.{
  String, Bool, true, false, not, Option, none, some, List, [], ◌∷◌, ◌++◌, ◌&&◌, ◌||◌,
  if◌then◌else◌, contains,
}
use zero_trust_service.Common.Texts.{
  behind_pair, has_char, is_blank, remove_char, only_alphanumeric, truncate, join_texts,
}
use zero_trust_service.Pipeline.Model.{fanout_runtime_input}
use zero_trust_service.Pipeline.Graph.{StrategySpec}
use zero_trust_service.Pipeline.Suffixes.{spec_with_status, spec_known, max_matrix_suffix_len}

pub record RawInfraDefs : Type 0 where
  pub defs : List String
  pub runtime_input : Bool

pub record RawEnvironmentValue : Type 0 where
  pub environment_ref : String
  pub infrastructure_definitions : RawInfraDefs
  pub git_ops_clusters : Bool

-- The parts of `rawStageSpec` that fan a stage out. A block that is absent has no values either: the
-- code asks for a value that is there.
pub record RawDeployment : Type 0 where
  pub services : List String
  pub environments : List RawEnvironmentValue
  pub environment_group : Bool

closes : Option String → Bool
unfolding has_char
closes none = false
closes (some rest) = has_char b'>' rest

-- `containsExpression`.
unfoldable pub contains_expression : String → Bool
unfolding closes behind_pair
contains_expression s = closes (behind_pair b'<' b'+' s)

-- `isLiteralRef`.
unfoldable pub is_literal_ref : String → Bool
unfolding is_blank contains_expression
is_literal_ref s = not (is_blank s) && not (contains_expression s)

unfoldable pub all_literal : List String → Bool
unfolding is_literal_ref
all_literal [] = true
all_literal (s ∷ refs) = if is_literal_ref s then all_literal refs else false

-- A row of the environments: its reference and an infrastructure, if it has one.
abbrev pub EnvInfra : Type 0
EnvInfra = String × Option String

pair_infras : String → List String → List EnvInfra
pair_infras env [] = []
pair_infras env (infra ∷ infras) = (env, some infra) ∷ pair_infras env infras

rows_of : String → List String → Option (List EnvInfra)
unfolding pair_infras all_literal
rows_of env [] = some ((env, none) ∷ [])
rows_of env (infra ∷ infras) =
    if all_literal (infra ∷ infras) then some (pair_infras env (infra ∷ infras)) else none

append_rows : Option (List EnvInfra) → Option (List EnvInfra) → Option (List EnvInfra)
append_rows none rest = none
append_rows (some rows) none = none
append_rows (some rows) (some rest) = some (rows ++ rest)

-- The loop over the environments; none where one of them is not enumerable.
unfoldable pub env_pairs : List RawEnvironmentValue → Option (List EnvInfra)
unfolding rows_of append_rows is_literal_ref
env_pairs [] = some []
env_pairs (ev ∷ environments) =
    append_rows
      (if not (is_literal_ref ev.environment_ref)
          || ev.git_ops_clusters
          || ev.infrastructure_definitions.runtime_input
        then none
        else rows_of ev.environment_ref ev.infrastructure_definitions.defs)
      (env_pairs environments)

-- The values of a combination in the order of their keys, environmentRef, infraIdentifier and
-- serviceRef.
combination : Option String → Option EnvInfra → List String
combination none none = []
combination (some svc) none = svc ∷ []
combination none (some (env, none)) = env ∷ []
combination (some svc) (some (env, none)) = env ∷ svc ∷ []
combination none (some (env, some infra)) = env ∷ infra ∷ []
combination (some svc) (some (env, some infra)) = env ∷ infra ∷ svc ∷ []

without_dots : List String → List String
unfolding remove_char
without_dots [] = []
without_dots (s ∷ parts) = remove_char b'.' s ∷ without_dots parts

-- `multiDeploySuffix`.
unfoldable pub multi_deploy_suffix : List String → String
unfolding without_dots only_alphanumeric truncate join_texts
multi_deploy_suffix values =
    String.◌++◌ "_"
      (truncate max_matrix_suffix_len (only_alphanumeric (join_texts "_" (without_dots values))))

combine_service : Option String → List (Option EnvInfra) → List String
unfolding multi_deploy_suffix combination
combine_service svc [] = []
combine_service svc (row ∷ rows) =
    multi_deploy_suffix (combination svc row) ∷ combine_service svc rows

combine_all : List (Option String) → List (Option EnvInfra) → List String
unfolding combine_service
combine_all [] rows = []
combine_all (svc ∷ services) rows = combine_service svc rows ++ combine_all services rows

-- A dimension that is not configured has one empty place.
or_place : {A : Type 0} → List A → List (Option A)
or_place [] = none ∷ []
or_place (x ∷ xs) = some x ∷ places xs
  where
    places : {A : Type 0} → List A → List (Option A)
    places [] = []
    places (y ∷ ys) = some y ∷ places ys

-- The suffixes, unless two of them are equal.
unfoldable pub all_distinct : List String → List String → Bool
unfolding contains
all_distinct seen [] = true
all_distinct seen (s ∷ suffixes) =
    if contains s seen then false else all_distinct (seen ++ s ∷ []) suffixes

deploy_spec : List String → Option StrategySpec
unfolding all_distinct
deploy_spec [] = none
deploy_spec (s ∷ suffixes) = some (
    if all_distinct [] (s ∷ suffixes)
    then spec_known (s ∷ suffixes)
    else spec_with_status fanout_runtime_input)

fan_deployments : List String → Option (List EnvInfra) → Option StrategySpec
unfolding deploy_spec combine_all or_place
fan_deployments services none = some (spec_with_status fanout_runtime_input)
fan_deployments services (some pairs) =
    if all_literal services
    then deploy_spec (combine_all (or_place services) (or_place pairs))
    else some (spec_with_status fanout_runtime_input)

deploy_values : List String → List RawEnvironmentValue → Option StrategySpec
unfolding fan_deployments env_pairs
deploy_values [] [] = none
deploy_values services environments = fan_deployments services (env_pairs environments)

-- `multiDeploySpec`, of a spec that is not nil.
unfoldable pub multi_deploy_spec : RawDeployment → Option StrategySpec
unfolding deploy_values
multi_deploy_spec spec =
    if spec.environment_group
    then some (spec_with_status fanout_runtime_input)
    else deploy_values spec.services spec.environments

-- `combineStageSpecs`.
unfoldable pub combine_stage_specs : Option StrategySpec → Option StrategySpec → Option StrategySpec
combine_stage_specs none multi_deploy = multi_deploy
combine_stage_specs (some strategy) none = some strategy
combine_stage_specs (some strategy) (some multi_deploy) =
    some (spec_with_status fanout_runtime_input)
