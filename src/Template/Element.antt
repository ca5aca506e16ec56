-- ===== src/Template/Element.antt =====
-- resolver/template.go: what identifies an element of a list of stages or steps.
use zero_trust_service.Common.{
  String, Option, none, some, List, [], ◌∷◌, ◌==◌, ◌||◌, not, if◌then◌else◌,
}
use zero_trust_service.Template.Node.{Node, is_mapping, value_of, node_get, node_has}

abbrev pub wrapper_keys : List String
wrapper_keys = "stage" ∷ "step" ∷ "stepGroup" ∷ "parallel" ∷ []

-- The loop over the wrapper keys, with the result where none of them has a mapping.
wrapped_by_key : Option Node → List String → String × Option Node → String × Option Node
unfolding node_get
wrapped_by_key elem [] other = other
wrapped_by_key elem (wk ∷ keys) other =
    let rest = wrapped_by_key elem keys other in
    let inner = node_get elem wk in if is_mapping inner then (wk, inner) else rest

-- `unwrapArrayElement`.
unfoldable pub unwrap_array_element : Option Node → String × Option Node
unfolding wrapped_by_key node_has
unwrap_array_element elem =
    let direct =
      if node_has elem "identifier" || node_has elem "name"
      then ("_direct", elem)
      else ("", none) in
    if is_mapping elem then wrapped_by_key elem wrapper_keys direct else ("", none)

value_or : Option Node → String → String
value_or none other = other
value_or (some n) other = if not (value_of n == "") then value_of n else other

-- `getElementIdentifier`.
unfoldable pub get_element_identifier : Option Node → String
unfolding value_or node_get
get_element_identifier n =
    if is_mapping n
    then value_or (node_get n "identifier") (value_or (node_get n "name") "")
    else ""
