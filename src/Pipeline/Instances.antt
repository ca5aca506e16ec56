-- ===== src/Pipeline/Instances.antt =====
-- verifier/pipeline/graph.go: the runtime instances of a step that fans out. Go compares nodes by
-- their addresses. Here two pointers into one graph are to the same node where their ways from the
-- root agree, in the index of each node and in whether it is the root of a rollback.
use Prim.Native.String
use zero_trust_service.Common.{
  ℕ, zero, suc, ◌+◌, String, Bool, true, false, not, Option, none, some, List, [], ◌∷◌, ◌++◌, ◌==◌,
  ◌&&◌, ◌||◌, if◌then◌else◌, is_some, map, length, ltb,
}
use zero_trust_service.Common.Texts.{split, count, join_texts, after}
use zero_trust_service.Pipeline.Graph.{StrategySpec, Pointer, info, is_rollback, fqn_of}

abbrev pub same_bool : Bool → Bool → Bool
same_bool true b = b
same_bool false b = not b

abbrev pub same_index : ℕ → ℕ → Bool
same_index zero zero = true
same_index (suc i) (suc j) = same_index i j
same_index _ _ = false

unfoldable pub same_node : Pointer → Pointer → Bool
same_node [] [] = true
same_node (a ∷ up) (b ∷ up') =
    same_bool (is_rollback a) (is_rollback b)
    && (same_index (info a).index (info b).index && same_node up up')
same_node _ _ = false

-- Whether a node is among another and its containers.
unfoldable pub encloses : Pointer → Pointer → Bool
unfolding same_node
encloses c [] = false
encloses c (n ∷ up) = same_node c (n ∷ up) || encloses c up

-- `lowestCommonAncestor`.
unfoldable pub lowest_common_ancestor : Pointer → Pointer → Pointer
unfolding encloses
lowest_common_ancestor a [] = []
lowest_common_ancestor a (n ∷ up) =
    if encloses (n ∷ up) a then n ∷ up else lowest_common_ancestor a up

-- `level`: the FQN of a node with a strategy, and the suffixes that the strategy appends there.
abbrev pub Level : Type 0
Level = String × List String

unfoldable pub add_level : Option StrategySpec → String → Option (List Level) → Option (List Level)
add_level none fqn rest = rest
add_level (some s) fqn none = none
add_level (some s) fqn (some levels) = if s.known then some ((fqn, s.suffixes) ∷ levels) else none

-- The levels of a node and its containers below `stop`, innermost first; none where one of them
-- cannot be enumerated.
unfoldable pub levels_below : Pointer → Pointer → Option (List Level)
unfolding add_level same_node
levels_below stop [] = some []
levels_below stop (n ∷ up) =
    if same_node (n ∷ up) stop
    then some []
    else add_level (info n).strat (info n).fqn (levels_below stop up)

-- The body of the two nested loops: one instance for each base and each suffix.
unfoldable pub fan_level : Level → List String → List String
fan_level level [] = []
fan_level (fqn, suffixes) (base ∷ bases) =
    map (λ suffix. String.◌++◌ fqn (String.◌++◌ suffix (after fqn base))) suffixes
    ++ fan_level (fqn, suffixes) bases

unfoldable pub fan_out : List Level → List String → List String
unfolding fan_level
fan_out [] result = result
fan_out (level ∷ levels) result = fan_out levels (fan_level level result)

unfoldable pub fan_levels : Option (List Level) → String → Option (List String)
unfolding fan_out
fan_levels none fqn = none
fan_levels (some []) fqn = none
fan_levels (some (level ∷ levels)) fqn = some (fan_out (level ∷ levels) (fqn ∷ []))

-- `instanceFQNs`; `none` for its second result false.
unfoldable pub instance_fqns : Pointer → Option (List String)
unfolding fan_levels levels_below
instance_fqns p = fan_levels (levels_below [] p) (fqn_of p)

take_parts : ℕ → List String → List String
take_parts zero parts = []
take_parts (suc k) [] = []
take_parts (suc k) (s ∷ parts) = s ∷ take_parts k parts

-- `pinnedPrefix`.
unfoldable pub pinned_prefix : String → String → String → Option String
unfolding take_parts split count join_texts
pinned_prefix raw logical lca =
    let raw_segs = split b'.' raw in
    let log_segs = split b'.' logical in
    let lca_segs = count b'.' lca + 1 in
    if not (same_index (length raw_segs) (length log_segs))
    then none
    else if ltb (length raw_segs) lca_segs
    then none
    else if not (join_texts "." (take_parts lca_segs log_segs) == lca)
    then none
    else some (join_texts "." (take_parts lca_segs raw_segs))

-- Whether the node or one of its containers has a strategy.
unfoldable pub has_level : Pointer → Bool
has_level [] = false
has_level (n ∷ up) = is_some (info n).strat || has_level up

-- The end of `ancestorInstances`, on the instances in the logical domain and the pinned prefix.
unfoldable pub pin : Pointer → Pointer → List String → Option String → Option (List String)
unfolding instance_fqns
pin p lca result none = instance_fqns p
pin p lca result (some pinned) =
    if pinned == fqn_of lca
    then instance_fqns p
    else some (map (λ base. String.◌++◌ pinned (after (fqn_of lca) base)) result)

unfoldable pub pin_levels :
    Pointer → Pointer → Pointer → String → Option (List Level) → Option (List String)
unfolding pin has_level fan_out pinned_prefix
pin_levels p target lca raw none = none
pin_levels p target lca raw (some []) =
    if has_level lca
    then pin p lca (fqn_of p ∷ []) (pinned_prefix raw (fqn_of target) (fqn_of lca))
    else none
pin_levels p target lca raw (some (level ∷ levels)) =
    let result = fan_out (level ∷ levels) (fqn_of p ∷ []) in
    if has_level lca
    then pin p lca result (pinned_prefix raw (fqn_of target) (fqn_of lca))
    else some result

-- `ancestorInstances`.
unfoldable pub ancestor_instances : Pointer → Pointer → String → Option (List String)
unfolding pin_levels levels_below lowest_common_ancestor
ancestor_instances p target raw =
    let lca = lowest_common_ancestor p target in pin_levels p target lca raw (levels_below lca p)
