-- ===== src/Service/Store.antt =====
-- examples/zts/ordering/ranstore.go: the steps that have completed, by plan execution, as raw
-- instances and as logical steps.
use zero_trust_service.Common.{
  String, Bool, Option, none, some, List, [], ◌∷◌, ◌++◌, ◌||◌, if◌then◌else◌, lookup, insert,
  contains,
}
use zero_trust_service.Common.Texts.{sort_texts}

-- A map of sets, each a list of its keys.
abbrev pub Sets : Type 0
Sets = List (String × List String)

pub record Store : Type 0 where
  pub instances : Sets
  pub logical : Sets

-- `NewStore`.
abbrev pub new_store : Store
new_store = record { instances = []; logical = [] }

abbrev pub set_or_new : Option (List String) → List String
set_or_new none = []
set_or_new (some set) = set

-- `add`: `set[key] = struct{}{}` in the set of the execution, made on demand.
unfoldable pub add : Sets → String → String → Sets
add m plan key =
    let set = set_or_new (lookup plan m) in
    insert plan (if contains key set then set else set ++ key ∷ []) m

-- `MarkRan`.
unfoldable pub mark_ran : Store → String → String → String → Store
mark_ran s plan instance_fqn logical_fqn = record {
  instances = add s.instances plan instance_fqn;
  logical = add s.logical plan logical_fqn;
}

-- `Ran`.
unfoldable pub ran : Store → String → String → Bool
ran s plan fqn =
    contains fqn (set_or_new (lookup plan s.instances))
    || contains fqn (set_or_new (lookup plan s.logical))

-- `Instances`.
unfoldable pub sorted_instances : Store → String → List String
unfolding sort_texts
sorted_instances s plan = sort_texts (set_or_new (lookup plan s.instances))
