-- ===== src/Pipeline/Gate.antt =====
-- verifier/pipeline/evaluate.go: what `liveAncestorsOf` returns, against the nodes behind the step.
use zero_trust_service.Common.{
  ◌≡◌, refl, ◌↔◌, ◌⊎◌, inl, inr, String, Bool, true, false, some, List, [], ◌∷◌, All, Elem, map,
  arith,
}
use zero_trust_service.Pipeline.Violations.{ConditionFunc, ConditionUnknownViolation}
use zero_trust_service.Pipeline.Graph.{GraphNode, Pointer}
use zero_trust_service.Pipeline.Climb.{preds}
use zero_trust_service.Pipeline.Rank.{rank, IsNode, Below}
use zero_trust_service.Pipeline.Descent.{preds-Below}
use zero_trust_service.Pipeline.Resolve.{live_ancestor}
use zero_trust_service.Pipeline.Behind.{Runs, Unknown, Behind, direct, over}
use zero_trust_service.Pipeline.Live.{Live, prune_nodes, live_ancestors_of}
use zero_trust_service.Pipeline.Frontier.{Distinct, frontier_iff, frontier_nodes}
use zero_trust_service.Pipeline.Precedes.{Precedes}
use zero_trust_service.Pipeline.Covering.{All-Elem, Covered}
use zero_trust_service.Pipeline.Pruning.{prune_nodes_iff, kept_or_implied}

module _ (cond : ConditionFunc) (target : Pointer) where
  -- The nodes that a step waits for.
  abbrev pub Gates : Pointer → Type 0
  Gates p = Behind cond target p × Runs cond p

  -- With pruning, a node is left out that precedes another one.
  abbrev pub Required : Bool → Pointer → Type 0
  Required false p = Gates p
  Required true p = Gates p × ¬ ((b : Pointer) × Gates b × Precedes p b)

module _ (root : GraphNode) (cond : ConditionFunc) (target : Pointer)
    (in_graph : IsNode root target) where
  pub Behind-Below : {p : Pointer} → Behind cond target p → Below root (rank target) p
  Behind-Below (direct p i) =
      All-Elem (Below root (rank target)) (preds target) p (preds-Below root target in_graph) i
  Behind-Below (over p q k d i) =
      let (less, in_graph_p) = Behind-Below k in
      let (less', in_graph_q) =
        All-Elem (Below root (rank p)) (preds p) q (preds-Below root p in_graph_p) i in
      (omega arith, in_graph_q)

  All-of : (P : Pointer → Type 0) (ps : List Pointer) → ((p : Pointer) → Elem p ps → P p) → All P ps
  All-of P [] h = tt
  All-of P (p ∷ ps) h = (h p (inl refl), All-of P ps (λ q i. h q (inr i)))

  nodes-IsNode :
      (nodes : List Pointer)
      → ((p : Pointer) → Elem p nodes → Gates cond target p)
      → All (IsNode root) nodes
  nodes-IsNode nodes h = All-of (IsNode root) nodes (λ p i. (Behind-Below (h p i).0).1)

  -- Pruning ends, and keeps the nodes that are required.
  prune_nodes-Required :
      (prune : Bool) (nodes : List Pointer)
      → ((p : Pointer) → Elem p nodes → Gates cond target p)
      → (kept : List Pointer) × (prune_nodes prune nodes ≡ some kept)
        × (((p : Pointer) → Gates cond target p → Elem p nodes)
            → (p : Pointer) → Elem p kept ↔ Required cond target prune p)
  prune_nodes-Required false nodes h = (nodes, unfold prune_nodes in refl, λ all p. (h p, all p))
  prune_nodes-Required true nodes h =
      let (kept, run, iff) = prune_nodes_iff root nodes (nodes-IsNode nodes h) in
      (
        kept,
        run,
        λ all p. (
          λ i.
              let (j, alone) = (iff p).0 i in (h p j, λ (b, k, before). alone (b, all b k, before)),
          λ (k, alone). (iff p).1 (all p k, λ (b, j, before). alone (b, h b j, before)),
        ),
      )

  Required-or_implied :
      Distinct cond target
      → (p : Pointer) → Behind cond target p
      → Runs cond p
      → Required cond target true p ⊎ ((b : Pointer) × Required cond target true b × Precedes p b)
  Required-or_implied distinct p k runs =
      let (st, _, iff, _) = frontier_iff (λ s. s) cond root target in_graph distinct in
      let sound = λ (q : Pointer). (iff q).0 in
      let (kept, _, keeps) = prune_nodes_iff root st.nodes (nodes-IsNode st.nodes sound) in
      let below = All-of (Below root (rank target)) st.nodes (λ q i. Behind-Below (sound q i).0) in
      elim (kept_or_implied root (rank target) st.nodes kept below keeps p ((iff p).1 (k, runs))) [
        | inl stays ↦ inl (required st.nodes kept iff keeps p stays)
        | inr (b, stays, before) ↦ inr (b, required st.nodes kept iff keeps b stays, before)
      ]
    where
      required :
          (nodes kept : List Pointer)
          → ((q : Pointer) → Elem q nodes ↔ Gates cond target q)
          → ((q : Pointer) → Elem q kept ↔ (Elem q nodes × ¬ Covered nodes q))
          → (q : Pointer) → Elem q kept
          → Required cond target true q
      required nodes kept iff keeps q i =
          let (j, alone) = (keeps q).0 i in
          ((iff q).0 j, λ (b, gates, before). alone (b, (iff b).1 gates, before))

  module _ (quote : String → String) (raw : String) where
    -- The walks end on the fuel that they are given.
    pub live_ancestors_of-some :
        (prune : Bool) → (live : Live) × (live_ancestors_of quote target raw cond prune ≡ some live)
    unfolding live_ancestors_of
    live_ancestors_of-some prune =
        let (st, run, sound) = frontier_nodes quote cond root target in_graph in
        let (kept, run', _) = prune_nodes-Required prune st.nodes sound in
        ((map (live_ancestor target raw) kept, st.unknowns), rw (run, run') refl)

    -- Where no two of the nodes behind a node of the graph share an FQN, the walk to its live ancestors
    -- ends. Behind it stand its predecessors, and the predecessors of each node behind it that never
    -- runs. The ancestors that the walk gives are the nodes behind it that run: all of them, or, where
    -- it prunes, those that precede no other of them. The unknown violations that it gives are those
    -- of the nodes behind it of which it is not known whether they run.
    pub live_ancestors_of_iff :
        (prune : Bool)
        → Distinct cond target
        → (nodes : List Pointer) × (unknowns : List ConditionUnknownViolation) × (live_ancestors_of
              quote target raw cond prune
            ≡ some (map (live_ancestor target raw) nodes, unknowns))
          × ((p : Pointer) → Elem p nodes ↔ Required cond target prune p)
          × ((u : ConditionUnknownViolation)
              → Elem u unknowns ↔ ((p : Pointer) × Behind cond target p × Unknown quote cond p u))
    unfolding live_ancestors_of
    live_ancestors_of_iff prune distinct =
        let (st, run, iff, unknown_iff) = frontier_iff quote cond root target in_graph distinct in
        let (kept, run', required) = prune_nodes-Required prune st.nodes (λ p. (iff p).0) in
        (kept, st.unknowns, rw (run, run') refl, required (λ p. (iff p).1), unknown_iff)

    -- Pruning loses nothing. Where no two of the nodes behind the step share an FQN, the walk with
    -- pruning ends, and each node behind the step that runs is one of the ancestors that the walk
    -- gives, or precedes, through nodes that wait for all of theirs, one of them.
    pub live_ancestors_of_covers :
        Distinct cond target
        → (nodes : List Pointer) × (unknowns : List ConditionUnknownViolation) × (live_ancestors_of
              quote target raw cond true
            ≡ some (map (live_ancestor target raw) nodes, unknowns))
          × ((p : Pointer)
              → Behind cond target p
              → Runs cond p
              → Elem p nodes ⊎ ((b : Pointer) × Elem b nodes × Precedes p b))
    live_ancestors_of_covers distinct =
        let (nodes, unknowns, run, iff, _) = live_ancestors_of_iff true distinct in
        (
          nodes,
          unknowns,
          run,
          λ p k runs. elim (Required-or_implied distinct p k runs) [
            | inl r ↦ inl ((iff p).1 r)
            | inr (b, r, before) ↦ inr (b, (iff b).1 r, before)
          ],
        )
