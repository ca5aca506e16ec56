-- ===== src/Pipeline/Lookup.antt =====
-- verifier/pipeline/graph.go: the graph with its two maps from FQNs to nodes, and `lookup`, which
-- finds the logical node of an FQN that may carry the suffixes of runtime instances.
use Prim.Native.String
use zero_trust_service.Common.{
  ℕ, suc, String, Bool, true, false, Option, none, some, List, [], ◌∷◌, ◌==◌, if◌then◌else◌, lookup,
}
use zero_trust_service.Common.Texts.{split, index_byte, cuts}
use zero_trust_service.Pipeline.Graph.{GraphNode, Pointer, info, fqn_of}

-- `PipelineGraph`, without the fields that only `BuildGraph` reads.
pub record PipelineGraph : Type 0 where
  pub root : GraphNode
  pub by_fqn : List (String × Pointer)
  pub inst_by_fqn : List (String × Pointer)

abbrev pub strategy_of : Pointer → Bool
strategy_of [] = false
strategy_of (n ∷ up) = (info n).strategy

abbrev pub is_positive : Option ℕ → Bool
is_positive (some (suc i)) = true
is_positive _ = false

module _ (g : PipelineGraph) where
  -- The variables `cand` and `last` of the walk.
  abbrev pub Walk : Type 0
  Walk = String × Option Pointer

  unfoldable pub take_cut : String → String → Option Pointer → Walk → Walk
  take_cut prefix seg none other = other
  take_cut prefix seg (some n) other =
      if strategy_of n then (String.◌++◌ prefix seg, some n) else other

  -- The inner loop, which strips the groups of a segment: the first shorter segment whose node has a
  -- strategy is taken.
  unfoldable pub strip : String → List String → Walk → Walk
  unfolding take_cut
  strip prefix [] walk = walk
  strip prefix (seg ∷ segs) walk =
      take_cut prefix seg (lookup (String.◌++◌ prefix seg) g.by_fqn) (strip prefix segs walk)

  unfoldable pub walk_segment : String → String → Option Pointer → Option Pointer → Walk
  unfolding strip index_byte cuts
  walk_segment prefix s last (some n) = (String.◌++◌ prefix s, some n)
  walk_segment prefix s last none =
      if is_positive (index_byte b'_' s)
      then strip prefix (cuts b'_' s) (String.◌++◌ prefix s, last)
      else (String.◌++◌ prefix s, last)

  unfoldable pub walk_segments : List String → Walk → Walk
  unfolding walk_segment
  walk_segments [] walk = walk
  walk_segments (s ∷ segs) (cand, last) =
      let prefix = if cand == "" then "" else String.◌++◌ cand "." in
      walk_segments segs (walk_segment prefix s last (lookup (String.◌++◌ prefix s) g.by_fqn))

  unfoldable pub whole : Walk → Option Pointer
  whole (cand, none) = none
  whole (cand, some n) = if fqn_of n == cand then some n else none

  unfoldable pub or_walk : String → Option Pointer → Option Pointer → Option Pointer
  unfolding whole walk_segments split
  or_walk fqn (some n) instance_node = some n
  or_walk fqn none (some n) = some n
  or_walk fqn none none = whole (walk_segments (split b'.' fqn) ("", none))

  -- `PipelineGraph.lookup`.
  unfoldable pub lookup_node : String → Option Pointer
  unfolding or_walk lookup
  lookup_node fqn = or_walk fqn (lookup fqn g.by_fqn) (lookup fqn g.inst_by_fqn)
