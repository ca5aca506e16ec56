-- ===== src/Pipeline/Raw.antt =====
-- verifier/pipeline/graph.go: the decoded pipeline, of which the YAML decoder fills the fields.
use zero_trust_service.Common.{String, Bool, Option, List}
use zero_trust_service.Pipeline.Strategies.{RawStrategy}
use zero_trust_service.Pipeline.Deployments.{RawDeployment}

pub record RawWhen : Type 0 where
  pub runtime_input : Bool
  pub stage_status : String
  pub pipeline_status : String
  pub condition : String

pub record RawStep : Type 0 where
  pub identifier : String
  pub type_name : String
  pub guard : Option RawWhen
  pub strategy : Option RawStrategy

-- `rawStepGroup` without its steps.
pub record RawGroupInfo : Type 0 where
  pub identifier : String
  pub guard : Option RawWhen
  pub strategy : Option RawStrategy

-- `rawStepWrapper`: its parallel steps, its group and its step, each of which may be nil.
mutual
  pub data RawStepWrapper : Type 0 where
    step_wrapper : RawParallel → RawStepGroup → Option RawStep → RawStepWrapper

  pub data RawParallel : Type 0 where
    no_parallel : RawParallel
    parallel_steps : RawSteps → RawParallel

  pub data RawStepGroup : Type 0 where
    no_group : RawStepGroup
    step_group : RawGroupInfo → RawSteps → RawStepGroup

  pub data RawSteps : Type 0 where
    no_steps : RawSteps
    steps_then : RawStepWrapper → RawSteps → RawSteps

pub record RawExecution : Type 0 where
  pub steps : RawSteps
  pub rollback_steps : RawSteps

pub record RawStageSpec : Type 0 where
  pub execution : Option RawExecution
  pub deployment : RawDeployment

-- A stage has the action types of its failure strategies.
pub record RawStage : Type 0 where
  pub identifier : String
  pub type_name : String
  pub guard : Option RawWhen
  pub strategy : Option RawStrategy
  pub spec : Option RawStageSpec
  pub failure_actions : List String

-- `rawStageWrapper`.
mutual
  pub data RawStageWrapper : Type 0 where
    stage_wrapper : RawParallelStages → Option RawStage → RawStageWrapper

  pub data RawParallelStages : Type 0 where
    no_parallel_stages : RawParallelStages
    parallel_stages : RawStages → RawParallelStages

  pub data RawStages : Type 0 where
    no_stages : RawStages
    stages_then : RawStageWrapper → RawStages → RawStages
