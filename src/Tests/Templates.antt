-- ===== src/Tests/Templates.antt =====
-- References to templates, as they stand in a mapping node.
use zero_trust_service.Common.{◌≡◌, refl, String, Option, none, some}
use zero_trust_service.Fault.{ok, err}
use zero_trust_service.Template.Node.{Node, node_of, Nodes, no_nodes, node_then, Kind, mapping}
use zero_trust_service.Template.Reference.{invalid_ref, parse_template_ref_from_node, split_first}
use zero_trust_service.Template.Element.{unwrap_array_element}

abbrev entry : String → Node → Nodes → Nodes
entry key val rest = node_then (node_of Kind.scalar "!!str" key no_nodes) (node_then val rest)

abbrev text_node : String → Node
text_node value = node_of Kind.scalar "!!str" value no_nodes

abbrev mapping_of : Nodes → Option Node
mapping_of content = some (node_of mapping "!!map" "" content)

uses_version :
    parse_template_ref_from_node
      (mapping_of (entry "uses" (text_node "account.build@v1@x") no_nodes))
    ≡ ok (
      record {
        identifier = "build";
        version_label = "v1@x";
        scope = "account";
        account_identifier = "";
        org_identifier = "";
        project_identifier = "";
        git_branch = "";
      },
      none,
    )
unfolding parse_template_ref_from_node split_first
uses_version = refl

empty_reference :
    parse_template_ref_from_node
      (mapping_of (entry "templateRef" (text_node "") (entry "uses" (text_node "b") no_nodes)))
    ≡ err (invalid_ref ": empty templateRef")
unfolding parse_template_ref_from_node
empty_reference = refl

step_element :
    unwrap_array_element (
      mapping_of (
        entry "step"
          (node_of mapping "!!map" "" (entry "identifier" (text_node "s") no_nodes))
          no_nodes))
    ≡ ("step", mapping_of (entry "identifier" (text_node "s") no_nodes))
unfolding unwrap_array_element
step_element = refl
