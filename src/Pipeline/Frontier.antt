-- ===== src/Pipeline/Frontier.antt =====
-- verifier/pipeline/evaluate.go: the walk of `liveAncestorsOf` against the nodes that stand behind a
-- step, which it finds all and within its fuel.
use zero_trust_service.Common.{◌≡◌, subst, ◌↔◌, inl, inr, suc, String, some, [], Elem, arith}
use zero_trust_service.Pipeline.Visits.{visit_node-Visits}
use zero_trust_service.Pipeline.Grows.{Opened, Handled, Grows}
use zero_trust_service.Pipeline.Violations.{ConditionFunc, ConditionUnknownViolation}
use zero_trust_service.Pipeline.Graph.{GraphNode, Pointer, fqn_of}
use zero_trust_service.Pipeline.Rank.{IsNode, rank}
use zero_trust_service.Pipeline.Live.{Frontier, frontier}
use zero_trust_service.Pipeline.Behind.{Runs, Unknown, Behind, direct, over}

-- No two of the nodes behind the step share an FQN.
abbrev pub Distinct : ConditionFunc → Pointer → Type 0
Distinct cond target =
    (p q : Pointer) → Behind cond target p → Behind cond target q → fqn_of p ≡ fqn_of q → p ≡ q

module _ (quote : String → String) (cond : ConditionFunc) (root : GraphNode)
    (target : Pointer) where
  abbrev empty_frontier : Frontier
  empty_frontier = record { nodes = []; unknowns = []; seen = [] }

  frontier_done :
      IsNode root target
      → (st : Frontier) × (frontier quote cond target ≡ some st)
        × Grows quote cond target empty_frontier st
        × Opened st target
  unfolding frontier
  frontier_done placed =
      visit_node-Visits quote cond root target (suc (rank target)) target (omega arith, placed)
        (λ q i. direct q i) empty_frontier

  -- The walk ends, and what it retains stands behind the step and runs.
  pub frontier_nodes :
      IsNode root target
      → (st : Frontier) × (frontier quote cond target ≡ some st)
        × ((p : Pointer) → Elem p st.nodes → Behind cond target p × Runs cond p)
  frontier_nodes placed =
      let (st, run, grows, opened) = frontier_done placed in
      (st, run, λ p i. elim (grows.nodes_new p i) [ inl old ↦ absurd old | inr new ↦ new ])

  module _ (st : Frontier) (unique : Distinct cond target)
      (grows : Grows quote cond target empty_frontier st) (opened : Opened st target) where
    Handled-seen :
        (p : Pointer)
        → Behind cond target p
        → Elem (fqn_of p) st.seen
        → Handled quote cond target st p
    Handled-seen p k i = elim (grows.seen_handled (fqn_of p) i) [
      | inl old ↦ absurd old
      | inr (q, k', e, h) ↦ subst (Handled quote cond target st) (unique q p k' k e) h
    ]

    all_seen : {p : Pointer} → Behind cond target p → Elem (fqn_of p) st.seen
    all_seen (direct p i) = opened p i
    all_seen (over p q k d i) = (Handled-seen p k (all_seen k)).opened d q i

    Handled-all : (p : Pointer) → Behind cond target p → Handled quote cond target st p
    Handled-all p k = Handled-seen p k (all_seen k)

  -- The walk finds exactly the nodes behind the step that run, and reports exactly the nodes behind
  -- it of which it is not known whether they run.
  pub frontier_iff :
      IsNode root target
      → Distinct cond target
      → (st : Frontier) × (frontier quote cond target ≡ some st)
        × ((p : Pointer) → Elem p st.nodes ↔ (Behind cond target p × Runs cond p))
        × ((u : ConditionUnknownViolation)
            → Elem u st.unknowns ↔ ((p : Pointer) × Behind cond target p × Unknown quote cond p u))
  frontier_iff placed unique =
      let (st, run, grows, opened) = frontier_done placed in
      (
        st,
        run,
        λ p. (
          λ i. elim (grows.nodes_new p i) [ inl old ↦ absurd old | inr new ↦ new ],
          λ (k, r). (Handled-all st unique grows opened p k).retained r,
        ),
        λ u. (
          λ i. elim (grows.unknowns_new u i) [ inl old ↦ absurd old | inr new ↦ new ],
          λ (p, k, known). (Handled-all st unique grows opened p k).reported u known,
        ),
      )
