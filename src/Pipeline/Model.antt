-- ===== src/Pipeline/Model.antt =====
-- verifier/pipeline/graph.go: the guards, the ancestors of a step and the answer of `Resolve`. A Go
-- string type with named values is `String` with constants, since a guard's status is read from the
-- pipeline as it stands there.
use zero_trust_service.Common.{String, Bool, List}

abbrev pub WhenLevel : Type 0
WhenLevel = String

abbrev pub when_level_unset : WhenLevel
when_level_unset = ""

abbrev pub WhenStatus : Type 0
WhenStatus = String

abbrev pub when_status_unset : WhenStatus
when_status_unset = ""

abbrev pub FanoutStatus : Type 0
FanoutStatus = String

abbrev pub fanout_enumerable : FanoutStatus
fanout_enumerable = "enumerable"

abbrev pub fanout_runtime_input : FanoutStatus
fanout_runtime_input = "runtime_input"

abbrev pub fanout_custom_names : FanoutStatus
fanout_custom_names = "custom_names"

pub record When : Type 0 where
  pub level : WhenLevel
  pub owner_fqn : String
  pub status : WhenStatus
  pub expression : String
  pub runtime_input : Bool

-- A nil list of instances is an empty one: the code only asks for its length.
pub record Ancestor : Type 0 where
  pub fqn : String
  pub type_name : String
  pub expands : Bool
  pub instances : List String
  pub status : FanoutStatus
  pub excluded : Bool

pub data JoinType : Type 0 where
  join_and join_or : JoinType

pub record Resolution : Type 0 where
  pub fqn : String
  pub found : Bool
  pub type_name : String
  pub has_strategy : Bool
  pub status : FanoutStatus
  pub excluded : Bool
  pub join : JoinType
  pub ancestors : List Ancestor
  pub conditions : List When
  pub separate_plan_rollback : Bool
