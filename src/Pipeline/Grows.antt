-- ===== src/Pipeline/Grows.antt =====
-- verifier/pipeline/evaluate.go: how the state of the walk of `liveAncestorsOf` grows, and what the
-- walk has done for a node that it is through with.
use zero_trust_service.Common.{◌≡◌, refl, ◌⊎◌, inl, inr, String, [], ◌∷◌, Elem, Elem-append}
use zero_trust_service.Pipeline.Violations.{ConditionFunc, ConditionUnknownViolation}
use zero_trust_service.Pipeline.Graph.{Pointer, fqn_of}
use zero_trust_service.Pipeline.Climb.{preds}
use zero_trust_service.Pipeline.Live.{Frontier, see}
use zero_trust_service.Pipeline.Behind.{Dead, Runs, Unknown, Behind}

-- The predecessors were seen.
abbrev pub Opened : Frontier → Pointer → Type 0
Opened st p = (q : Pointer) → Elem q (preds p) → Elem (fqn_of q) st.seen

module _ (quote : String → String) (cond : ConditionFunc) (target : Pointer) where
  -- What the walk has done once it is through with a node.
  pub record Handled (st : Frontier) (p : Pointer) : Type 0 where
    pub opened : Dead cond p → Opened st p
    pub retained : Runs cond p → Elem p st.nodes
    pub reported : (u : ConditionUnknownViolation) → Unknown quote cond p u → Elem u st.unknowns

  -- How the walk goes from one state to another.
  pub record Grows (st st' : Frontier) : Type 0 where
    pub seen_kept : (x : String) → Elem x st.seen → Elem x st'.seen
    pub nodes_kept : (p : Pointer) → Elem p st.nodes → Elem p st'.nodes
    pub unknowns_kept : (u : ConditionUnknownViolation) → Elem u st.unknowns → Elem u st'.unknowns
    pub seen_handled :
        (x : String)
        → Elem x st'.seen
        → Elem x st.seen ⊎ ((p : Pointer) × Behind cond target p × (fqn_of p ≡ x) × Handled st' p)
    pub nodes_new :
        (p : Pointer) → Elem p st'.nodes → Elem p st.nodes ⊎ (Behind cond target p × Runs cond p)
    pub unknowns_new :
        (u : ConditionUnknownViolation)
        → Elem u st'.unknowns
        → Elem u st.unknowns ⊎ ((p : Pointer) × Behind cond target p × Unknown quote cond p u)

  pub Grows-refl : (st : Frontier) → Grows st st
  Grows-refl st = record {
    seen_kept = λ x e. e;
    nodes_kept = λ p e. e;
    unknowns_kept = λ u e. e;
    seen_handled = λ x e. inl e;
    nodes_new = λ p e. inl e;
    unknowns_new = λ u e. inl e;
  }

  pub Handled-mono : (st st' : Frontier) (p : Pointer) → Grows st st' → Handled st p → Handled st' p
  Handled-mono st st' p g h = record {
    opened = λ d q e. g.seen_kept _ (h.opened d q e);
    retained = λ r. g.nodes_kept p (h.retained r);
    reported = λ u k. g.unknowns_kept u (h.reported u k);
  }

  pub Grows-trans : (a b c : Frontier) → Grows a b → Grows b c → Grows a c
  Grows-trans a b c f g = record {
    seen_kept = λ x e. g.seen_kept x (f.seen_kept x e);
    nodes_kept = λ p e. g.nodes_kept p (f.nodes_kept p e);
    unknowns_kept = λ u e. g.unknowns_kept u (f.unknowns_kept u e);
    seen_handled = λ x e. elim (g.seen_handled x e) [
      | inl old ↦ elim (f.seen_handled x old) [
        | inl older ↦ inl older
        | inr (p, k, i, h) ↦ inr (p, k, i, Handled-mono b c p g h)
      ]
      | inr new ↦ inr new
    ];
    nodes_new = λ p e. elim (g.nodes_new p e) [ inl old ↦ f.nodes_new p old | inr new ↦ inr new ];
    unknowns_new =
        λ u e. elim (g.unknowns_new u e) [ inl old ↦ f.unknowns_new u old | inr new ↦ inr new ];
  }

  -- The walk is through with a node that it sees first.
  pub Grows-see :
      (st st' : Frontier) (p : Pointer)
      → Behind cond target p
      → Grows (see p st) st'
      → Handled st' p
      → Grows st st' × Elem (fqn_of p) st'.seen
  Grows-see st st' p k g h = (
    record {
      seen_kept = λ x e. g.seen_kept x ((Elem-append x st.seen (fqn_of p ∷ [])).1 (inl e));
      nodes_kept = λ q e. g.nodes_kept q e;
      unknowns_kept = λ u e. g.unknowns_kept u e;
      seen_handled = λ x e. elim (g.seen_handled x e) [
        | inl old ↦ elim ((Elem-append x st.seen (fqn_of p ∷ [])).0 old) [
          | inl older ↦ inl older
          | inr here ↦ elim here [ inl i ↦ inr (p, k, i, h) | inr no_more ↦ absurd no_more ]
        ]
        | inr new ↦ inr new
      ];
      nodes_new = λ q e. g.nodes_new q e;
      unknowns_new = λ u e. g.unknowns_new u e;
    },
    g.seen_kept (fqn_of p) ((Elem-append (fqn_of p) st.seen (fqn_of p ∷ [])).1 (inr (inl refl))),
  )
