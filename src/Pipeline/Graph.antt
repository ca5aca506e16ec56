-- ===== src/Pipeline/Graph.antt =====
-- verifier/pipeline/graph.go: the nodes of the ordering graph. A pointer to a node is the list of the
-- node and its containers, outwards, so that the loop `for c := n; c != nil; c = c.parent` is a
-- recursion on the pointer, and nil is the empty list.
use zero_trust_service.Common.{
  ℕ, zero, suc, String, Bool, true, false, Option, none, some, List, [], ◌∷◌, ◌==◌, ◌&&◌, ◌||◌,
  if◌then◌else◌,
}
use zero_trust_service.Pipeline.Model.{When, FanoutStatus, fanout_enumerable, fanout_runtime_input}

pub data NodeKind : Type 0 where
  kind_pipeline kind_stage kind_step_group kind_step kind_parallel kind_rollback : NodeKind

-- `strategySpec`.
pub record StrategySpec : Type 0 where
  pub known : Bool
  pub suffixes : List String
  pub status : FanoutStatus
  pub excluded : Bool

-- The fields of a `graphNode` that are no nodes. An index is a position, never negative.
pub record NodeInfo : Type 0 where
  pub kind : NodeKind
  pub id : String
  pub fqn : String
  pub step_type : String
  pub guard : Option When
  pub strategy : Bool
  pub strat : Option StrategySpec
  pub index : ℕ
  pub concurrent : Bool
  pub pipeline_rollback : Bool

-- `graphNode`, with its children and the root of its rollback steps, which may be nil.
mutual
  pub data GraphNode : Type 0 where
    graph_node : NodeInfo → Children → Rollback → GraphNode

  pub data Children : Type 0 where
    no_more : Children
    child_then : GraphNode → Children → Children

  pub data Rollback : Type 0 where
    no_rollback : Rollback
    rollback_root : GraphNode → Rollback

abbrev pub Pointer : Type 0
Pointer = List GraphNode

abbrev pub info : GraphNode → NodeInfo
info (graph_node i cs rb) = i

abbrev pub children : GraphNode → Children
children (graph_node i cs rb) = cs

abbrev pub is_step_kind : NodeKind → Bool
is_step_kind kind_step = true
is_step_kind _ = false

abbrev pub is_rollback_kind : NodeKind → Bool
is_rollback_kind kind_rollback = true
is_rollback_kind _ = false

-- `n.kind == kindStep` and `n.kind == kindRollback`.
abbrev pub is_step : GraphNode → Bool
is_step n = is_step_kind (info n).kind

abbrev pub is_rollback : GraphNode → Bool
is_rollback n = is_rollback_kind (info n).kind

-- The FQN of the node that is pointed to.
abbrev pub fqn_of : Pointer → String
fqn_of [] = ""
fqn_of (n ∷ up) = (info n).fqn

-- `hasStrategyInChain`.
unfoldable pub has_strategy_in_chain : Pointer → Bool
has_strategy_in_chain [] = false
has_strategy_in_chain (n ∷ up) = (info n).strategy || has_strategy_in_chain up

unfoldable pub is_excluded : Option StrategySpec → Bool
is_excluded none = false
is_excluded (some s) = s.excluded

-- `strategyExcluded`.
unfoldable pub strategy_excluded : Pointer → Bool
unfolding is_excluded
strategy_excluded [] = false
strategy_excluded (n ∷ up) = is_excluded (info n).strat || strategy_excluded up

-- The status that a strategy gives, if it ends the loop of `strategyStatus`.
unfoldable pub status_of : Option StrategySpec → Option FanoutStatus
status_of none = none
status_of (some s) =
    if s.known || s.excluded
    then none
    else if s.status == fanout_enumerable || s.status == ""
    then some fanout_runtime_input
    else some s.status

unfoldable pub or_else : Option FanoutStatus → FanoutStatus → FanoutStatus
or_else none s = s
or_else (some t) s = t

-- `strategyStatus`.
unfoldable pub strategy_status : Pointer → FanoutStatus
unfolding status_of or_else
strategy_status [] = fanout_enumerable
strategy_status (n ∷ up) = or_else (status_of (info n).strat) (strategy_status up)

-- `rollbackContainer`.
unfoldable pub rollback_container : Pointer → Pointer
rollback_container [] = []
rollback_container (n ∷ up) = if is_rollback n then n ∷ up else rollback_container up

-- `atRollbackEntry`, for a node that is not nil.
unfoldable pub at_rollback_entry : Pointer → Bool
at_rollback_entry [] = false
at_rollback_entry (c ∷ []) = is_rollback c
at_rollback_entry (c ∷ parent ∷ up) =
    is_rollback c
    || ((if (info parent).concurrent
          then true
          else elim (info c).index [ zero ↦ true | suc i ↦ false ])
        && at_rollback_entry (parent ∷ up))

-- The `when` of the node and of each container, outwards.
abbrev pub guards_of : Pointer → List (Option When)
guards_of [] = []
guards_of (n ∷ up) = (info n).guard ∷ guards_of up
