-- ===== src/Template/Node.antt =====
-- resolver/yaml_helpers.go: the reads and writes of a mapping node. Of a `yaml.Node` the model has the
-- kind, the tag, the value and the content; nil is `none`.
use zero_trust_service.Common.{
  ◌≡◌, refl, String, Bool, true, false, Option, none, some, List, [], ◌∷◌, ◌==◌, if◌then◌else◌,
  is_some, arith, eq_iff,
}

pub data Kind : Type 0 where
  document sequence mapping scalar alias : Kind

mutual
  pub data Node : Type 0 where
    node_of : Kind → (tag value : String) → Nodes → Node

  pub data Nodes : Type 0 where
    no_nodes : Nodes
    node_then : Node → Nodes → Nodes

abbrev pub kind_of : Node → Kind
kind_of (node_of k tag value content) = k

abbrev pub value_of : Node → String
value_of (node_of k tag value content) = value

abbrev pub is_mapping_kind : Kind → Bool
is_mapping_kind mapping = true
is_mapping_kind _ = false

-- `n != nil && n.Kind == yaml.MappingNode`.
abbrev pub is_mapping : Option Node → Bool
is_mapping none = false
is_mapping (some n) = is_mapping_kind (kind_of n)

-- The loop of `nodeGet`, over the keys and values in turn.
unfoldable pub get_in : String → Nodes → Option Node
get_in key no_nodes = none
get_in key (node_then k no_nodes) = none
get_in key (node_then k (node_then v rest)) = if value_of k == key then some v else get_in key rest

get_of : String → Node → Option Node
unfolding get_in
get_of key (node_of mapping tag value content) = get_in key content
get_of key (node_of _ tag value content) = none

-- `nodeGet`.
unfoldable pub node_get : Option Node → String → Option Node
unfolding get_of
node_get none key = none
node_get (some n) key = get_of key n

-- `nodeHas`.
unfoldable pub node_has : Option Node → String → Bool
unfolding node_get
node_has n key = is_some (node_get n key)

-- `nodeScalar`.
unfoldable pub node_scalar : String → Node
node_scalar text = node_of scalar "!!str" text no_nodes

-- The loop of `nodeSet`, and the append behind it.
unfoldable pub set_in : String → Node → Nodes → Nodes
unfolding node_scalar
set_in key val no_nodes = node_then (node_scalar key) (node_then val no_nodes)
set_in key val (node_then k no_nodes) =
    node_then k (node_then (node_scalar key) (node_then val no_nodes))
set_in key val (node_then k (node_then v rest)) =
    if value_of k == key
    then node_then k (node_then val rest)
    else node_then k (node_then v (set_in key val rest))

-- `nodeSet` on a node that is not nil.
unfoldable pub node_set : Node → String → Node → Node
unfolding set_in
node_set (node_of mapping tag value content) key val =
    node_of mapping tag value (set_in key val content)
node_set n key val = n

keys_in : Nodes → List String
keys_in no_nodes = []
keys_in (node_then k no_nodes) = []
keys_in (node_then k (node_then v rest)) = value_of k ∷ keys_in rest

keys_of : Node → List String
unfolding keys_in
keys_of (node_of mapping tag value content) = keys_in content
keys_of (node_of _ tag value content) = []

-- `nodeKeys`.
unfoldable pub node_keys : Option Node → List String
unfolding keys_of
node_keys none = []
node_keys (some n) = keys_of n

-- Whether each key has its value.
unfoldable pub is_paired : Nodes → Bool
is_paired no_nodes = true
is_paired (node_then k no_nodes) = false
is_paired (node_then k (node_then v rest)) = is_paired rest

-- In a content of keys with their values a write sets its key and no other.
pub get_in-set_in :
    (key other : String) (val : Node) (content : Nodes)
    → is_paired content ≡ true
    → get_in other (set_in key val content)
      ≡ (if key == other then some val else get_in other content)
unfolding get_in set_in is_paired node_scalar
get_in-set_in key other val no_nodes paired = refl
get_in-set_in key other val (node_then k no_nodes) paired = absurd cc
get_in-set_in key other val (node_then k (node_then v rest)) paired =
    let ih = get_in-set_in key other val rest paired in
    ground (arith, eq_iff (value_of k) key, eq_iff (value_of k) other, eq_iff key other, ih)
