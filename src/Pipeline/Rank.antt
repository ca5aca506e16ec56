-- ===== src/Pipeline/Rank.antt =====
-- verifier/pipeline/graph.go: what `BuildGraph` sees to in every graph that it returns (the index of
-- a node is its position among its siblings, and only the root of a rollback is of that kind), and a
-- number that falls from a node to each of its predecessors.
use zero_trust_service.Common.{
  ◌≡◌, ◌⊎◌, ℕ, zero, suc, ◌+◌, ◌<◌, true, false, [], ◌∷◌, if◌then◌else◌,
}
use zero_trust_service.Pipeline.Graph.{
  GraphNode, graph_node, Children, no_more, child_then, Rollback, no_rollback, rollback_root,
  Pointer, info, children, is_rollback,
}

unfoldable mutual
  pub IsPlaced : GraphNode → Type 0
  IsPlaced (graph_node i cs rb) = ArePlaced 0 cs × IsRollback rb

  -- The children from the position `k` on.
  pub ArePlaced : ℕ → Children → Type 0
  ArePlaced k no_more = Unit
  ArePlaced k (child_then c cs) =
      ((info c).index ≡ k) × (is_rollback c ≡ false) × IsPlaced c × ArePlaced (suc k) cs

  pub IsRollback : Rollback → Type 0
  IsRollback no_rollback = Unit
  IsRollback (rollback_root r) = (is_rollback r ≡ true) × IsPlaced r

unfoldable mutual
  pub size : GraphNode → ℕ
  size (graph_node i cs rb) = suc (sizes cs)

  pub sizes : Children → ℕ
  sizes no_more = 0
  sizes (child_then c cs) = size c + sizes cs

-- The sizes of the first `i` children.
unfoldable pub sizes_before : ℕ → Children → ℕ
sizes_before zero cs = 0
sizes_before (suc i) no_more = 0
sizes_before (suc i) (child_then c cs) = size c + sizes_before i cs

unfoldable pub offset : GraphNode → GraphNode → ℕ
offset n parent =
    if is_rollback n then sizes (children parent) else sizes_before (info n).index (children parent)

unfoldable pub rank : Pointer → ℕ
rank [] = 0
rank (n ∷ []) = 0
rank (n ∷ parent ∷ up) = rank (parent ∷ up) + offset n parent

-- The children from a position on.
unfoldable pub drop_children : ℕ → Children → Children
drop_children zero cs = cs
drop_children (suc k) no_more = no_more
drop_children (suc k) (child_then c cs) = drop_children k cs

abbrev pub rollback : GraphNode → Rollback
rollback (graph_node i cs rb) = rb

-- A node stands at its index among the children of a node, or is the root of its rollback.
abbrev pub IsChild : GraphNode → GraphNode → Type 0
IsChild n parent =
    ((is_rollback n ≡ true) × (rollback parent ≡ rollback_root n))
    ⊎ ((is_rollback n ≡ false)
        × ((rest : Children) × (drop_children (info n).index (children parent)
              ≡ child_then n rest)))

abbrev pub IsUnder : GraphNode → GraphNode → Pointer → Type 0
IsUnder root n [] = n ≡ root
IsUnder root n (parent ∷ up) = IsChild n parent

-- A pointer to a node of the graph, all of it placed; nil is among them.
abbrev pub IsNode : GraphNode → Pointer → Type 0
IsNode root [] = Unit
IsNode root (n ∷ up) = IsPlaced n × IsUnder root n up × IsNode root up

-- A pointer into the graph whose rank is below a bound.
abbrev pub Below : GraphNode → ℕ → Pointer → Type 0
Below root b q = (rank q < b) × IsNode root q
