-- ===== src/Pipeline/Live.antt =====
-- verifier/pipeline/evaluate.go: `liveAncestorsOf`, the predecessors that gate a step after those
-- that never run were stepped over. The recursive walks of the code run on fuel, and `none` means
-- that it ran out; the fuel given is one more than the rank of the node that a walk starts from.
use zero_trust_service.Common.{
  ℕ, zero, suc, String, Bool, true, false, Option, none, some, List, [], ◌∷◌, ◌++◌, ◌||◌,
  if◌then◌else◌, map, contains,
}
use zero_trust_service.Pipeline.Model.{Ancestor}
use zero_trust_service.Pipeline.Violations.{ConditionFunc, ConditionUnknownViolation}
use zero_trust_service.Pipeline.Graph.{Pointer, fqn_of, guards_of, strategy_excluded}
use zero_trust_service.Pipeline.Climb.{preds}
use zero_trust_service.Pipeline.Rank.{rank}
use zero_trust_service.Pipeline.Instances.{same_node, same_index}
use zero_trust_service.Pipeline.Resolve.{or_joined, live_ancestor}
use zero_trust_service.Pipeline.Skips.{Skip, guard_skip}

-- The variables of the walk. `out` is not among them: it has the ancestor of each retained node.
pub record Frontier : Type 0 where
  pub nodes : List Pointer
  pub unknowns : List ConditionUnknownViolation
  pub seen : List String

abbrev pub Visit : Type 0
Visit = Pointer → Frontier → Option Frontier

abbrev pub then_visit : Option Frontier → (Frontier → Option Frontier) → Option Frontier
then_visit none next = none
then_visit (some st) next = next st

abbrev pub see : Pointer → Frontier → Frontier
see p st = record st { seen = st.seen ++ fqn_of p ∷ [] }

module _ (quote : String → String) (cond : ConditionFunc) where
  -- What `guardSkip` says of a node.
  abbrev pub skip_of : Pointer → Skip
  skip_of p = guard_skip quote (fqn_of p) (guards_of p) cond

  unfoldable pub visit_skipped : Visit → Pointer → Frontier → Skip → Option Frontier
  visit_skipped visit p st (skipped, some unknown) =
      some (record st { unknowns = st.unknowns ++ unknown ∷ [] })
  visit_skipped visit p st (true, none) = visit p st
  visit_skipped visit p st (false, none) = some (record st { nodes = st.nodes ++ p ∷ [] })

  -- The body of the loop of `visit`, for a predecessor that was not seen.
  unfoldable pub visit_new : Visit → Pointer → Frontier → Option Frontier
  unfolding visit_skipped guard_skip strategy_excluded
  visit_new visit p st =
      if strategy_excluded p then visit p st else visit_skipped visit p st (skip_of p)

  unfoldable pub visit_all : Visit → List Pointer → Frontier → Option Frontier
  unfolding visit_new contains
  visit_all visit [] st = some st
  visit_all visit (p ∷ ps) st =
      then_visit (if contains (fqn_of p) st.seen then some st else visit_new visit p (see p st))
        (visit_all visit ps)

  -- `visit`.
  unfoldable pub visit_node : ℕ → Pointer → Frontier → Option Frontier
  unfolding visit_all
  visit_node zero node st = none
  visit_node (suc fuel) node st = visit_all (visit_node fuel) (preds node) st

  unfoldable pub frontier : Pointer → Option Frontier
  unfolding visit_node rank
  frontier target =
      visit_node (suc (rank target)) target (record { nodes = []; unknowns = []; seen = [] })

unfoldable pub was_visited : Pointer → List Pointer → Bool
unfolding same_node
was_visited p [] = false
was_visited p (q ∷ visited) = same_node q p || was_visited p visited

abbrev pub Found : Type 0
Found = Bool × List Pointer

abbrev pub unless_found : Option Found → (List Pointer → Option Found) → Option Found
unless_found none next = none
unless_found (some (true, visited)) next = some (true, visited)
unless_found (some (false, visited)) next = next visited

unfoldable pub walk_preds :
    (Pointer → List Pointer → Option Found) → Pointer → List Pointer → List Pointer → Option Found
unfolding was_visited same_node
walk_preds walk a [] visited = some (false, visited)
walk_preds walk a (p ∷ ps) visited =
    if same_node p a
    then some (true, visited)
    else unless_found
        (if was_visited p visited then some (false, visited) else walk p (visited ++ p ∷ []))
        (walk_preds walk a ps)

-- The `walk` of `precedesVia`.
unfoldable pub walk_back : ℕ → Pointer → Pointer → List Pointer → Option Found
unfolding walk_preds or_joined
walk_back zero a n visited = none
walk_back (suc fuel) a n visited =
    if or_joined n then some (false, visited) else walk_preds (walk_back fuel a) a (preds n) visited

unfoldable pub found_result : Option Found → Option Bool
found_result none = none
found_result (some (found, visited)) = some found

-- `precedesVia`.
unfoldable pub precedes_via : Pointer → Pointer → Option Bool
unfolding found_result walk_back rank
precedes_via a b = found_result (walk_back (suc (rank b)) a b [])

abbrev pub or_else_covered : Option Bool → Option Bool → Option Bool
or_else_covered none rest = none
or_else_covered (some true) rest = some true
or_else_covered (some false) rest = rest

-- The loop of `coveredByAnother` for the node `a` at the index `i`, from the index `j` on.
unfoldable pub covered_from : Pointer → ℕ → ℕ → List Pointer → Option Bool
unfolding precedes_via
covered_from a i j [] = some false
covered_from a i j (b ∷ bs) =
    or_else_covered (if same_index j i then some false else precedes_via a b)
      (covered_from a i (suc j) bs)

abbrev pub keep_unless : Pointer → Option Bool → Option (List Pointer) → Option (List Pointer)
keep_unless a none rest = none
keep_unless a (some covered) none = none
keep_unless a (some true) (some kept) = some kept
keep_unless a (some false) (some kept) = some (a ∷ kept)

-- The loop that drops the covered nodes, from the index `i` on.
unfoldable pub prune_from : List Pointer → ℕ → List Pointer → Option (List Pointer)
unfolding covered_from
prune_from nodes i [] = some []
prune_from nodes i (a ∷ rest) =
    keep_unless a (covered_from a i 0 nodes) (prune_from nodes (suc i) rest)

unfoldable pub prune_nodes : Bool → List Pointer → Option (List Pointer)
unfolding prune_from
prune_nodes false nodes = some nodes
prune_nodes true [] = some []
prune_nodes true (a ∷ []) = some (a ∷ [])
prune_nodes true (a ∷ b ∷ rest) = prune_from (a ∷ b ∷ rest) 0 (a ∷ b ∷ rest)

abbrev pub Live : Type 0
Live = List Ancestor × List ConditionUnknownViolation

with_ancestors :
    Pointer → String → List ConditionUnknownViolation → Option (List Pointer) → Option Live
with_ancestors target raw unknowns none = none
with_ancestors target raw unknowns (some nodes) =
    some (map (live_ancestor target raw) nodes, unknowns)

pruned : Pointer → String → Bool → Option Frontier → Option Live
unfolding with_ancestors prune_nodes
pruned target raw prune none = none
pruned target raw prune (some st) =
    with_ancestors target raw st.unknowns (prune_nodes prune st.nodes)

-- `liveAncestorsOf`.
unfoldable pub live_ancestors_of :
    (String → String) → Pointer → String → ConditionFunc → Bool → Option Live
unfolding pruned frontier
live_ancestors_of quote target raw cond prune = pruned target raw prune (frontier quote cond target)
