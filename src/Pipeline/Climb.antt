-- ===== src/Pipeline/Climb.antt =====
-- verifier/pipeline/graph.go: the direct predecessors of a node.
use zero_trust_service.Common.{
  ◌≡◌, refl, sym, ap, ◌∙◌, ℕ, zero, suc, Bool, true, false, Option, none, some, List, [], ◌∷◌, ◌++◌,
  if◌then◌else◌,
}
use zero_trust_service.Pipeline.Model.{When}
use zero_trust_service.Pipeline.Graph.{
  GraphNode, graph_node, Children, no_more, child_then, Pointer, info, children, is_step,
  is_rollback,
}

-- `terminalLeaves` of a node below the containers `up`; `terminal_all` is the loop over concurrent
-- children, `terminal_last` the call for the last child.
unfoldable mutual
  pub terminal_leaves : GraphNode → Pointer → List Pointer
  terminal_leaves (graph_node i no_more rb) up = (graph_node i no_more rb ∷ up) ∷ []
  terminal_leaves (graph_node i (child_then c cs) rb) up =
      let n = graph_node i (child_then c cs) rb in
      if is_step n
      then (n ∷ up) ∷ []
      else if i.concurrent
      then terminal_all (child_then c cs) (n ∷ up)
      else terminal_last (child_then c cs) (n ∷ up)

  pub terminal_all : Children → Pointer → List Pointer
  terminal_all no_more up = []
  terminal_all (child_then c cs) up = terminal_leaves c up ++ terminal_all cs up

  pub terminal_last : Children → Pointer → List Pointer
  terminal_last no_more up = []
  terminal_last (child_then c no_more) up = terminal_leaves c up
  terminal_last (child_then c (child_then d cs)) up = terminal_last (child_then d cs) up

-- The `walk` of `forwardLeaves`, of a node and over children.
unfoldable mutual
  pub walk : GraphNode → Pointer → List Pointer
  walk (graph_node i cs rb) up =
      let n = graph_node i cs rb in
      if is_rollback n then [] else if is_step n then (n ∷ up) ∷ [] else walk_all cs (n ∷ up)

  pub walk_all : Children → Pointer → List Pointer
  walk_all no_more up = []
  walk_all (child_then c cs) up = walk c up ++ walk_all cs up

-- `forwardLeaves`, which calls `walk` for each child of the stage.
unfoldable pub forward_leaves : Pointer → List Pointer
forward_leaves [] = []
forward_leaves (stage ∷ up) = walk_all (children stage) (stage ∷ up)

-- `terminalLeaves(parent.children[i])`; an index out of range, at which Go panics, does not occur in
-- a graph whose indices are positions.
unfoldable pub terminal_at : ℕ → Children → Pointer → List Pointer
terminal_at i no_more up = []
terminal_at zero (child_then c cs) up = terminal_leaves c up
terminal_at (suc i) (child_then c cs) up = terminal_at i cs up

abbrev pub with_guard : Option When → List When → List When
with_guard none conds = conds
with_guard (some w) conds = conds ++ w ∷ []

-- `climb`: the predecessors, and the guards with those that it appends. The guard of the parent is
-- appended where the node is its first ordered child.
unfoldable pub climb : Pointer → List When → List Pointer × List When
climb [] conds = ([], conds)
climb (node ∷ []) conds = ([], conds)
climb (node ∷ parent ∷ up) conds =
    let above =
      climb (parent ∷ up)
        (if (info parent).concurrent then conds else with_guard (info parent).guard conds) in
    if is_rollback node
    then (forward_leaves (parent ∷ up), conds)
    else if (info parent).concurrent
    then above
    else elim (info node).index [
      | zero ↦ above
      | suc i ↦ (terminal_at i (children parent) (parent ∷ up), conds)
    ]

-- The predecessors alone.
unfoldable pub preds : Pointer → List Pointer
preds n = (climb n []).0

-- One step of the climb, on whether the node is a rollback root, whether its parent is concurrent,
-- its index, and the predecessors of its parent.
abbrev pub one_step : Bool → Bool → ℕ → List Pointer → GraphNode → Pointer → List Pointer
one_step true concurrent i above parent up = forward_leaves (parent ∷ up)
one_step false true i above parent up = above
one_step false false zero above parent up = above
one_step false false (suc i) above parent up = terminal_at i (children parent) (parent ∷ up)

climb_by :
    (b c : Bool) (i : ℕ) (above : List Pointer × List When) (conds : List When) (parent : GraphNode)
    (up : Pointer)
    → (if b then (forward_leaves (parent ∷ up), conds) else if c then above else elim i [
      | zero ↦ above
      | suc j ↦ (terminal_at j (children parent) (parent ∷ up), conds)
    ]).0
      ≡ one_step b c i above.0 parent up
climb_by true c i above conds parent up = refl
climb_by false true i above conds parent up = refl
climb_by false false zero above conds parent up = refl
climb_by false false (suc i) above conds parent up = refl

-- The guards that are gathered have no part in the predecessors.
climb-preds : (n : Pointer) (conds : List When) → (climb n conds).0 ≡ preds n
unfolding climb preds
climb-preds [] conds = refl
climb-preds (n ∷ []) conds = refl
climb-preds (n ∷ parent ∷ up) conds =
    let step = λ (cs : List When).
      climb_by (is_rollback n) (info parent).concurrent (info n).index
        (climb (parent ∷ up)
          (if (info parent).concurrent then cs else with_guard (info parent).guard cs))
        cs parent up in
    let above = λ (cs : List When).
      climb-preds (parent ∷ up)
        (if (info parent).concurrent then cs else with_guard (info parent).guard cs) in
    let shape = one_step (is_rollback n) (info parent).concurrent (info n).index in
    step conds ∙ ap (λ a. shape a parent up) (above conds ∙ sym (above [])) ∙ sym (step [])

pub preds-cons :
    (n parent : GraphNode) (up : Pointer)
    → preds (n ∷ parent ∷ up)
      ≡ one_step
          (is_rollback n)
          (info parent).concurrent
          (info n).index
          (preds (parent ∷ up))
          parent
          up
unfolding preds climb
preds-cons n parent up =
    let conds : List When =
      if (info parent).concurrent then [] else with_guard (info parent).guard [] in
    climb_by (is_rollback n) (info parent).concurrent (info n).index (climb (parent ∷ up) conds) []
      parent up
    ∙ ap (λ a. one_step (is_rollback n) (info parent).concurrent (info n).index a parent up)
        (climb-preds (parent ∷ up) conds)

pub preds-nil : preds [] ≡ []
unfolding preds climb
preds-nil = refl

pub preds-root : (n : GraphNode) → preds (n ∷ []) ≡ []
unfolding preds climb
preds-root n = refl
