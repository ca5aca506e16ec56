-- ===== src/Template/Reference.antt =====
-- resolver/template.go: the reference that a template node holds, and the spec of a template.
use zero_trust_service.Common.{
  ℕ, String, Bool, false, Option, none, some, ◌==◌, ◌&&◌, ◌||◌, if◌then◌else◌,
}
use zero_trust_service.Common.Texts.{is_char, after, starts_with}
use zero_trust_service.Fault.{
  invalid_template_ref, invalid_yaml, sentinel, wrapped, Error, Result, ok, err,
}
use zero_trust_service.Template.Types.{TemplateRef, Scope, scope_project, scope_org, scope_account}
use zero_trust_service.Template.Node.{Node, is_mapping, value_of, node_get, node_has}

-- `parseIdentifierScope`, of which the last two results are always empty.
unfoldable pub parse_identifier_scope : String → String × Scope × String × String
unfolding starts_with after
parse_identifier_scope identifier =
    if starts_with "account." identifier
    then (after "account." identifier, scope_account, "", "")
    else if starts_with "org." identifier
    then (after "org." identifier, scope_org, "", "")
    else (identifier, scope_project, "", "")

-- `strings.SplitN` into two parts at most, at a character.
unfoldable pub split_first : ℕ → String → String × Option String
split_first at String.[] = ("", none)
split_first at (String.◌∷◌ c s) =
    let (left, right) = split_first at s in
    if is_char at c then ("", some s) else (String.◌∷◌ c left, right)

value_or_empty : Option Node → String
value_or_empty none = ""
value_or_empty (some n) = value_of n

text_or_empty : Option String → String
text_or_empty none = ""
text_or_empty (some s) = s

-- A reference with the parts of its identifier.
ref_of : String × Scope × String × String → (version_label git_branch : String) → TemplateRef
ref_of (id, scope, org, project) version_label git_branch = record {
  identifier = id;
  version_label = version_label;
  scope = scope;
  account_identifier = "";
  org_identifier = org;
  project_identifier = project;
  git_branch = git_branch;
}

-- `fmt.Errorf("%w…", ErrInvalidTemplateRef)`.
abbrev pub invalid_ref : String → Error
invalid_ref text = wrapped "" (sentinel invalid_template_ref) text

by_template_ref : Option Node → String → Result (TemplateRef × Option Node)
unfolding value_or_empty ref_of parse_identifier_scope node_get
by_template_ref n ref =
    if ref == ""
    then err (invalid_ref ": empty templateRef")
    else ok (
      ref_of (parse_identifier_scope ref) (value_or_empty (node_get n "versionLabel"))
          (value_or_empty (node_get n "gitBranch")),
      node_get n "templateInputs",
    )

by_uses : Option Node → String → Result (TemplateRef × Option Node)
unfolding text_or_empty ref_of parse_identifier_scope split_first node_get
by_uses n text =
    let (left, right) = split_first b'@' text in
    if text == ""
    then err (invalid_ref ": empty uses")
    else ok (ref_of (parse_identifier_scope left) (text_or_empty right) "", node_get n "with")

uses_or_error : Option Node → Option Node → Result (TemplateRef × Option Node)
unfolding by_uses
uses_or_error n none = err (invalid_ref ": no templateRef or uses found")
uses_or_error n (some u) = by_uses n (value_of u)

ref_or_uses : Option Node → Option Node → Result (TemplateRef × Option Node)
unfolding by_template_ref uses_or_error node_get
ref_or_uses n none = uses_or_error n (node_get n "uses")
ref_or_uses n (some r) = by_template_ref n (value_of r)

-- `ParseTemplateRefFromNode`.
unfoldable pub parse_template_ref_from_node : Option Node → Result (TemplateRef × Option Node)
unfolding ref_or_uses node_get
parse_template_ref_from_node n =
    if is_mapping n
    then ref_or_uses n (node_get n "templateRef")
    else err (invalid_ref ": node is nil or not a mapping")

-- `isTemplateNode`.
unfoldable pub is_template_node : Option Node → Bool
unfolding node_get node_has
is_template_node n =
    let tmpl = node_get n "template" in
    if is_mapping n
    then (is_mapping tmpl && node_has tmpl "templateRef") || node_has n "uses"
    else false

-- A spec that may be nil, the type of the template and an error or nil.
abbrev pub Extracted : Type 0
Extracted = Option Node × String × Option Error

abbrev pub invalid_yaml_with : String → Error
invalid_yaml_with text = wrapped "" (sentinel invalid_yaml) text

checked_spec : String → Option Node → Extracted
checked_spec template_type none =
    (none, template_type, some (invalid_yaml_with ": template has no spec"))
checked_spec template_type (some spec) =
    if is_mapping (some spec)
    then (some spec, template_type, none)
    else (none, template_type, some (invalid_yaml_with ": template.spec is not a map"))

spec_of_template : Node → Option Node → Extracted
unfolding checked_spec value_or_empty node_get
spec_of_template doc none = (some doc, "", none)
spec_of_template doc (some template) =
    let t = some template in
    if is_mapping t
    then checked_spec (value_or_empty (node_get t "type")) (node_get t "spec")
    else (none, "", some (invalid_yaml_with ": template node is not a map"))

spec_of_document : Result Node → Extracted
unfolding spec_of_template node_get
spec_of_document (err e) = (none, "", some e)
spec_of_document (ok doc) = spec_of_template doc (node_get (some doc) "template")

-- `ExtractTemplateSpec`, by `unmarshalYAMLNode`.
unfoldable pub extract_template_spec : (unmarshal : String → Result Node) → String → Extracted
unfolding spec_of_document
extract_template_spec unmarshal template_yaml = spec_of_document (unmarshal template_yaml)
