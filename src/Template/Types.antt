-- ===== src/Template/Types.antt =====
-- resolver/types.go. A scope is a string type with named values.
use zero_trust_service.Common.{String, List}

abbrev pub Scope : Type 0
Scope = String

abbrev pub scope_project : Scope
scope_project = "project"

abbrev pub scope_org : Scope
scope_org = "org"

abbrev pub scope_account : Scope
scope_account = "account"

pub record TemplateRef : Type 0 where
  pub identifier : String
  pub version_label : String
  pub scope : Scope
  pub account_identifier : String
  pub org_identifier : String
  pub project_identifier : String
  pub git_branch : String

pub record ResolvedPipeline : Type 0 where
  pub original_yaml : String
  pub resolved_yaml : String
  pub templates_used : List TemplateRef
