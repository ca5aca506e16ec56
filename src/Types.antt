-- ===== src/Types.antt =====
-- types/verify.go, types/task.go and types/output.go: the requests and responses of the two API
-- endpoints, the task package with its nested records, and the accessors that read them through
-- pointers which may be nil. A pointer is an `Option`, a `json.RawMessage` a list of bytes, and an
-- `interface{}` a `Json` value.
use zero_trust_service.Common.{
  ℕ, ℤ, String, Bool, Option, none, some, List, ◌&&◌, not, is_some, if◌then◌else◌, ◌==◌,
}
use zero_trust_service.Json.{Json}
use zero_trust_service.Fault.{Result, ok, err}

-- Raw bytes.
abbrev pub Bytes : Type 0
Bytes = List ℕ

pub record GitDetails : Type 0 where
  pub repo_name : String
  pub branch : String
  pub commit_id : String
  pub connector_ref : String
  pub file_path : String

pub record ExecutionDetails : Type 0 where
  pub pipeline_execution_id : String
  pub stage_execution_id : String
  pub step_execution_id : String
  pub pipeline_identifier : String

pub record ZtsMetadata : Type 0 where
  pub account_id : String
  pub org_identifier : String
  pub project_identifier : String
  pub step_fqn : String
  pub pipeline_git_details : Option GitDetails
  pub execution_details : Option ExecutionDetails
  pub parent_unique_id : String

pub record TaskDetails : Type 0 where
  pub parked : Bool
  pub async : Bool
  pub task_type : String
  pub parameters : Bytes
  pub timeout : ℤ
  pub expression_functor_token : ℤ
  pub expressions : List (String × String)

pub record TaskPackage : Type 0 where
  pub task_id : String
  pub account_id : String
  pub delegate_id : String
  pub delegate_instance_id : String
  pub git_ops_agent_id : String
  pub runner_response : Bool
  pub task_details : Option TaskDetails
  pub task_data_v2 : Option TaskDetails
  pub encryption_configs : List (String × Json)
  pub secret_details : List (String × Json)
  pub secrets : List String
  pub execution_capabilities : List Json
  pub log_abstractions : List (String × String)
  pub should_skip_open_stream : Bool
  pub base_log_key : String
  pub zts_metadata : Option ZtsMetadata
  pub is_aborted : Bool

pub record VerifyRequest : Type 0 where
  pub task_package : Option TaskPackage

-- A nil `metadata` map is `none`.
pub record VerifyResponse : Type 0 where
  pub allowed : Bool
  pub reason : String
  pub metadata : Option (List (String × Json))

pub record TaskOutputResponse : Type 0 where
  pub account_id : String
  pub task_type_name : String
  pub response_code : String
  pub git_ops_agent_id : String
  pub response : Bytes

pub record OutputRequest : Type 0 where
  pub task_id : String
  pub task_response : Option TaskOutputResponse

pub record OutputResponse : Type 0 where
  pub error : String

-- `TaskPackage.UnmarshalJSON`. The decoder fills the fields of the alias over the present value
-- and the extra field `delegateTaskId`; where it fails the package is left as it was.
unfoldable pub unmarshal_json :
    (TaskPackage → Bytes → Result (TaskPackage × String)) → TaskPackage → Bytes → Result TaskPackage
unmarshal_json decode t bytes = elim (decode t bytes) [
  | err e ↦ err e
  | ok (alias, delegate_task_id) ↦
      ok (
        if not (delegate_task_id == "") then record alias { task_id = delegate_task_id } else alias)
]

metadata_account_id : Option ZtsMetadata → String
metadata_account_id none = ""
metadata_account_id (some m) = m.account_id

package_account_id : Option TaskPackage → String
unfolding metadata_account_id
package_account_id none = ""
package_account_id (some p) =
    if is_some p.zts_metadata && not (metadata_account_id p.zts_metadata == "")
    then metadata_account_id p.zts_metadata
    else p.account_id

unfoldable pub resolve_account_id : VerifyRequest → String
unfolding package_account_id
resolve_account_id r = package_account_id r.task_package

details_task_type : Option TaskDetails → String
details_task_type none = ""
details_task_type (some d) = d.task_type

package_task_type : Option TaskPackage → String
unfolding details_task_type
package_task_type none = ""
package_task_type (some p) = details_task_type p.task_details

unfoldable pub resolve_task_type : VerifyRequest → String
unfolding package_task_type
resolve_task_type r = package_task_type r.task_package

-- The accessors of one field of the package, empty if the package is missing.
package_field : (TaskPackage → String) → Option TaskPackage → String
package_field f none = ""
package_field f (some p) = f p

unfoldable pub request_task_id : VerifyRequest → String
unfolding package_field
request_task_id r = package_field (λ p. p.task_id) r.task_package

unfoldable pub request_git_ops_agent_id : VerifyRequest → String
unfolding package_field
request_git_ops_agent_id r = package_field (λ p. p.git_ops_agent_id) r.task_package

unfoldable pub request_delegate_id : VerifyRequest → String
unfolding package_field
request_delegate_id r = package_field (λ p. p.delegate_id) r.task_package

unfoldable pub request_delegate_instance_id : VerifyRequest → String
unfolding package_field
request_delegate_instance_id r = package_field (λ p. p.delegate_instance_id) r.task_package

response_field : (TaskOutputResponse → String) → Option TaskOutputResponse → String
response_field f none = ""
response_field f (some r) = f r

unfoldable pub output_account_id : OutputRequest → String
unfolding response_field
output_account_id r = response_field (λ t. t.account_id) r.task_response

unfoldable pub output_task_type_name : OutputRequest → String
unfolding response_field
output_task_type_name r = response_field (λ t. t.task_type_name) r.task_response

unfoldable pub output_response_code : OutputRequest → String
unfolding response_field
output_response_code r = response_field (λ t. t.response_code) r.task_response

unfoldable pub output_git_ops_agent_id : OutputRequest → String
unfolding response_field
output_git_ops_agent_id r = response_field (λ t. t.git_ops_agent_id) r.task_response
