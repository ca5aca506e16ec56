-- ===== src/Pipeline/Placed.antt =====
-- verifier/pipeline/graph.go: the nodes of a graph that was built are placed, and those that are
-- registered are pointers into it.
use zero_trust_service.Common.{
  ◌≡◌, refl, inl, ℕ, suc, String, Bool, true, false, Option, none, some, [], ◌∷◌, All, All-append,
  if◌then◌else◌,
}
use zero_trust_service.Pipeline.Graph.{
  NodeInfo, GraphNode, graph_node, Children, no_more, child_then, Rollback, no_rollback,
  rollback_root, Pointer, info, children, is_rollback, is_rollback_kind,
}
use zero_trust_service.Pipeline.Rank.{
  IsPlaced, ArePlaced, IsRollback, IsUnder, IsNode, drop_children, rollback,
}
use zero_trust_service.Pipeline.Descent.{drop_children-suc, IsChild-at}
use zero_trust_service.Pipeline.Raw.{
  step_wrapper, no_parallel, parallel_steps, no_group, step_group, RawSteps, no_steps, steps_then,
  RawExecution, RawStage, stage_wrapper, no_parallel_stages, parallel_stages, RawStages, no_stages,
  stages_then,
}
use zero_trust_service.Pipeline.Strategies.{MatrixNaming}
use zero_trust_service.Pipeline.Build.{BuildErr, build_step, build_steps}
use zero_trust_service.Pipeline.Assemble.{
  build_rollback, build_execution, build_stage, build_stages, is_registered, registered,
  registered_all, registered_rollback,
}

if-IsNode :
    (root : GraphNode) (b : Bool) (p : Pointer)
    → IsNode root p
    → All (IsNode root) (if b then p ∷ [] else [])
if-IsNode root true p h = (h, tt)
if-IsNode root false p h = tt

module _ (naming : MatrixNaming) where
  build_steps-ArePlaced :
      (ws : RawSteps) (prefix : String) (index : ℕ) (first : BuildErr)
      → ArePlaced index (build_steps naming ws prefix index first).0
  unfolding build_steps build_step ArePlaced
  build_steps-ArePlaced no_steps prefix index first = tt
  build_steps-ArePlaced (steps_then (step_wrapper (parallel_steps ws) g st) rest) prefix index
        first =
      (
        refl,
        refl,
        (build_steps-ArePlaced ws prefix 0 _, tt),
        build_steps-ArePlaced rest prefix (suc index) _,
      )
  build_steps-ArePlaced (steps_then (step_wrapper no_parallel (step_group sg ws) st) rest) prefix
        index first =
      (
        refl,
        refl,
        (build_steps-ArePlaced ws _ 0 _, tt),
        build_steps-ArePlaced rest prefix (suc index) _,
      )
  build_steps-ArePlaced (steps_then (step_wrapper no_parallel no_group (some st)) rest) prefix index
        first =
      (refl, refl, (tt, tt), build_steps-ArePlaced rest prefix (suc index) _)
  build_steps-ArePlaced (steps_then (step_wrapper no_parallel no_group none) rest) prefix index
        first =
      build_steps-ArePlaced rest prefix index first

  build_rollback-IsRollback :
      (ws : RawSteps) (fqn : String) (first : BuildErr)
      → IsRollback (build_rollback naming ws fqn first).0
  unfolding build_rollback IsRollback
  build_rollback-IsRollback no_steps fqn first = tt
  build_rollback-IsRollback (steps_then w ws) fqn first =
      (refl, (build_steps-ArePlaced (steps_then w ws) _ 0 first, tt))

  -- A node is placed at an index and is no root of a rollback.
  abbrev Stands : ℕ → GraphNode → Type 0
  Stands index n = ((info n).index ≡ index) × (is_rollback n ≡ false) × IsPlaced n

  build_execution-Stands :
      (n : NodeInfo) (ex : Option RawExecution) (first : BuildErr) (index : ℕ)
      → n.index ≡ index
      → is_rollback_kind n.kind ≡ false
      → Stands index (build_execution naming n ex first).0
  unfolding build_execution IsPlaced
  build_execution-Stands n none first index i k = (i, k, (tt, tt))
  build_execution-Stands n (some ex) first index i k = (
    i,
    k,
    (build_steps-ArePlaced ex.steps _ 0 first, build_rollback-IsRollback ex.rollback_steps _ _),
  )

  build_stage-Stands :
      (s : RawStage) (prefix : String) (index : ℕ) (first : BuildErr)
      → Stands index (build_stage naming s prefix index first).0
  unfolding build_stage
  build_stage-Stands s prefix index first = build_execution-Stands _ _ _ index refl refl

  pub build_stages-ArePlaced :
      (ws : RawStages) (prefix : String) (index : ℕ) (first : BuildErr)
      → ArePlaced index (build_stages naming ws prefix index first).0
  unfolding build_stages ArePlaced
  build_stages-ArePlaced no_stages prefix index first = tt
  build_stages-ArePlaced (stages_then (stage_wrapper (parallel_stages ws) s) rest) prefix index
        first =
      (
        refl,
        refl,
        (build_stages-ArePlaced ws prefix 0 _, tt),
        build_stages-ArePlaced rest prefix (suc index) _,
      )
  build_stages-ArePlaced (stages_then (stage_wrapper no_parallel_stages (some s)) rest) prefix index
        first =
      let (i, k, placed) = build_stage-Stands s prefix index first in
      (i, k, placed, build_stages-ArePlaced rest prefix (suc index) _)
  build_stages-ArePlaced (stages_then (stage_wrapper no_parallel_stages none) rest) prefix index
        first =
      build_stages-ArePlaced rest prefix index first

mutual
  unfolding registered IsPlaced drop_children

  registered-IsNode :
      (root : GraphNode) (n : GraphNode) (up : Pointer)
      → IsPlaced n
      → IsUnder root n up
      → IsNode root up
      → All (IsNode root) (registered n up)
  registered-IsNode root (graph_node i cs rb) up p v ps =
      let n = graph_node i cs rb in
      All-append (IsNode root) (registered_all cs (n ∷ up)) _
        (registered_all-IsNode root cs n up 0 refl p.0 (p, v, ps))
        (All-append (IsNode root) (registered_rollback rb (n ∷ up)) _
          (registered_rollback-IsNode root rb n up refl p.1 (p, v, ps))
          (if-IsNode root (is_registered i.kind) (n ∷ up) (p, v, ps)))

  registered_all-IsNode :
      (root : GraphNode) (cs : Children) (n : GraphNode) (up : Pointer) (k : ℕ)
      → drop_children k (children n) ≡ cs
      → ArePlaced k cs
      → IsNode root (n ∷ up)
      → All (IsNode root) (registered_all cs (n ∷ up))
  registered_all-IsNode root no_more n up k e p ps = tt
  registered_all-IsNode root (child_then c cs) n up k e (i, r, p, p') ps =
      All-append (IsNode root) (registered c (n ∷ up)) (registered_all cs (n ∷ up))
        (registered-IsNode root c (n ∷ up) p (IsChild-at c n k cs e i r) ps)
        (registered_all-IsNode root cs n up (suc k) (drop_children-suc k (children n) c cs e).0 p'
          ps)

  registered_rollback-IsNode :
      (root : GraphNode) (rb : Rollback) (n : GraphNode) (up : Pointer)
      → rollback n ≡ rb
      → IsRollback rb
      → IsNode root (n ∷ up)
      → All (IsNode root) (registered_rollback rb (n ∷ up))
  registered_rollback-IsNode root no_rollback n up e p ps = tt
  registered_rollback-IsNode root (rollback_root r) n up e (k, p) ps =
      registered-IsNode root r (n ∷ up) p (inl (k, e)) ps

-- The nodes that are registered belong to the graph.
pub registered_in_graph :
    (root : GraphNode) → IsPlaced root → All (IsNode root) (registered root [])
registered_in_graph root p = registered-IsNode root root [] p refl tt
