-- ===== src/Pipeline/Visits.antt =====
-- verifier/pipeline/evaluate.go: the walk of `liveAncestorsOf` from a node, which comes to its end on
-- fuel for the rank of the node.
use mathlib.Core.Option.{some-injective}
use zero_trust_service.Common.{
  ◌≡◌, refl, ◌∙◌, sym, ap, subst, inl, inr, ℕ, zero, suc, String, true, false, Option, none, some,
  List, [], ◌∷◌, ◌++◌, All, All-imp, Elem, Elem-append, arith, contains, contains_iff, Bool-cases,
}
use zero_trust_service.Pipeline.Grows.{Opened, Handled, Grows, Grows-refl, Grows-trans, Grows-see}
use zero_trust_service.Pipeline.Violations.{ConditionFunc, ConditionUnknownViolation}
use zero_trust_service.Pipeline.Graph.{GraphNode, Pointer, fqn_of, strategy_excluded}
use zero_trust_service.Pipeline.Climb.{preds}
use zero_trust_service.Pipeline.Descent.{preds-Below}
use zero_trust_service.Pipeline.Rank.{rank, Below}
use zero_trust_service.Pipeline.Skips.{Skip}
use zero_trust_service.Pipeline.Live.{
  Frontier, Visit, see, skip_of, visit_skipped, visit_new, visit_all, visit_node,
}
use zero_trust_service.Pipeline.Behind.{
  Dead, Runs, Unknown, Behind, over, skipped_sure, Dead-skipped, Dead-of_skipped, Runs-skip_iff,
}

only : {A : Type 0} (a b : A) → Elem b (a ∷ []) → a ≡ b
only a b h = elim h [ inl e ↦ e | inr no_more ↦ absurd no_more ]

module _ (quote : String → String) (cond : ConditionFunc) (root : GraphNode)
    (target : Pointer) where
  -- A visit that is right for each node below a rank.
  abbrev pub Visits : ℕ → Visit → Type 0
  Visits b visit =
      (p : Pointer)
      → Below root b p
      → ((q : Pointer) → Elem q (preds p) → Behind cond target q)
      → (st : Frontier)
      → (st' : Frontier) × (visit p st ≡ some st') × Grows quote cond target st st' × Opened st' p

  -- What becomes of a node that is seen first.
  abbrev pub Ends : Pointer → Frontier → Option Frontier → Type 0
  Ends p st r =
      (st' : Frontier) × (r ≡ some st')
      × Grows quote cond target st st'
      × Handled quote cond target st' p

  Grows-Unknown :
      (p : Pointer) (u : ConditionUnknownViolation) (st : Frontier)
      → Behind cond target p
      → Unknown quote cond p u
      → Grows quote cond target st (record st { unknowns = st.unknowns ++ u ∷ [] })
  Grows-Unknown p u st k known = record {
    seen_kept = λ x i. i;
    nodes_kept = λ q i. i;
    unknowns_kept = λ v i. (Elem-append v st.unknowns (u ∷ [])).1 (inl i);
    seen_handled = λ x i. inl i;
    nodes_new = λ q i. inl i;
    unknowns_new = λ v i. elim ((Elem-append v st.unknowns (u ∷ [])).0 i) [
      | inl old ↦ inl old
      | inr here ↦ inr (p, k, (known.0, known.1 ∙ ap some (only u v here)))
    ];
  }

  Grows-node :
      (p : Pointer) (st : Frontier)
      → Behind cond target p
      → Runs cond p
      → Grows quote cond target st (record st { nodes = st.nodes ++ p ∷ [] })
  Grows-node p st k runs = record {
    seen_kept = λ x i. i;
    nodes_kept = λ q i. (Elem-append q st.nodes (p ∷ [])).1 (inl i);
    unknowns_kept = λ v i. i;
    seen_handled = λ x i. inl i;
    nodes_new = λ q i. elim ((Elem-append q st.nodes (p ∷ [])).0 i) [
      | inl old ↦ inl old
      | inr here ↦ inr (subst (λ n. Behind cond target n × Runs cond n) (only p q here) (k, runs))
    ];
    unknowns_new = λ v i. inl i;
  }

  visit_skipped-Ends :
      (b : ℕ) (visit : Visit) (p : Pointer) (st : Frontier) (s : Skip)
      → Visits b visit
      → Below root b p
      → Behind cond target p
      → strategy_excluded p ≡ false
      → skip_of quote cond p ≡ s
      → Ends p st (visit_skipped quote cond visit p st s)
  unfolding visit_skipped
  visit_skipped-Ends b visit p st (skipped, some u) ok below k x e =
      let unknown : (skip_of quote cond p).1 ≡ some u = ap (λ (t : Skip). t.1) e in
      (
        record st { unknowns = st.unknowns ++ u ∷ [] },
        refl,
        Grows-Unknown p u st k (x, unknown),
        record {
          opened =
              λ d. absurd (let h = skipped_sure quote cond p (Dead-skipped quote cond p x d) in cc);
          retained = λ r. absurd (let h = ((Runs-skip_iff quote cond p).0 r).2 in cc);
          reported = λ v (_, known).
              (Elem-append v st.unknowns (u ∷ [])).1
                (inr (inl (some-injective _ _ (sym unknown ∙ known))));
        },
      )
  visit_skipped-Ends b visit p st (true, none) ok below k x e =
      let dead : Dead cond p = Dead-of_skipped quote cond p (ap (λ (t : Skip). t.0) e) in
      let (st', run, grows, opened) = ok p below (λ q i. over p q k dead i) st in
      (
        st',
        run,
        grows,
        record {
          opened = λ d. opened;
          retained = λ r. absurd (
              let h = ((Runs-skip_iff quote cond p).0 r).1 in
              let h' = ap (λ (t : Skip). t.0) e in cc);
          reported = λ v (_, known). absurd (let h = ap (λ (t : Skip). t.1) e in cc);
        },
      )
  visit_skipped-Ends b visit p st (false, none) ok below k x e =
      let runs : Runs cond p =
        (Runs-skip_iff quote cond p).1 (x, ap (λ (t : Skip). t.0) e, ap (λ (t : Skip). t.1) e) in
      (
        record st { nodes = st.nodes ++ p ∷ [] },
        refl,
        Grows-node p st k runs,
        record {
          opened = λ d.
              absurd
                (let h = Dead-skipped quote cond p x d in let h' = ap (λ (t : Skip). t.0) e in cc);
          retained = λ r. (Elem-append p st.nodes (p ∷ [])).1 (inr (inl refl));
          reported = λ v (_, known). absurd (let h = ap (λ (t : Skip). t.1) e in cc);
        },
      )

  visit_new-Ends :
      (b : ℕ) (visit : Visit) (p : Pointer) (st : Frontier)
      → Visits b visit
      → Below root b p
      → Behind cond target p
      → Ends p st (visit_new quote cond visit p st)
  unfolding visit_new
  visit_new-Ends b visit p st ok below k = elim (Bool-cases (strategy_excluded p)) [
    | inl x ↦
        let (st', run, grows, opened) = ok p below (λ q i. over p q k (inl x) i) st in
        (
          st',
          rw x run,
          grows,
          record {
            opened = λ d. opened;
            retained = λ (not_excluded, r). absurd (cc);
            reported = λ v (not_excluded, known). absurd (cc);
          },
        )
    | inr x ↦ rw x (visit_skipped-Ends b visit p st (skip_of quote cond p) ok below k x refl)
  ]

  -- The loop over predecessors.
  abbrev pub Done : List Pointer → Frontier → Option Frontier → Type 0
  Done ps st r =
      (st' : Frontier) × (r ≡ some st')
      × Grows quote cond target st st'
      × ((q : Pointer) → Elem q ps → Elem (fqn_of q) st'.seen)

  visit_all-Done :
      (b : ℕ) (visit : Visit) (ps : List Pointer) (st : Frontier)
      → Visits b visit
      → All (Below root b) ps
      → ((q : Pointer) → Elem q ps → Behind cond target q)
      → Done ps st (visit_all quote cond visit ps st)
  unfolding visit_all
  visit_all-Done b visit [] st ok below k =
      (st, refl, Grows-refl quote cond target st, λ q i. absurd i)
  visit_all-Done b visit (p ∷ ps) st ok (below, belows) k =
      elim (Bool-cases (contains (fqn_of p) st.seen)) [
        | inl old ↦
            let (st', run, grows, seen) =
              visit_all-Done b visit ps st ok belows (λ q i. k q (inr i)) in
            (
              st',
              rw old run,
              grows,
              λ q i. elim i [
                | inl e ↦
                    subst (λ n. Elem (fqn_of n) st'.seen) e
                      (grows.seen_kept _ ((contains_iff (fqn_of p) st.seen).0 old))
                | inr i' ↦ seen q i'
              ],
            )
        | inr new ↦
            let (st1, run1, grows1, handled) =
              visit_new-Ends b visit p (see p st) ok below (k p (inl refl)) in
            let (whole, seen1) =
              Grows-see quote cond target st st1 p (k p (inl refl)) grows1 handled in
            let (st', run, grows, seen) =
              visit_all-Done b visit ps st1 ok belows (λ q i. k q (inr i)) in
            (
              st',
              rw (new, run1) run,
              Grows-trans quote cond target st st1 st' whole grows,
              λ q i. elim i [
                | inl e ↦ subst (λ n. Elem (fqn_of n) st'.seen) e (grows.seen_kept _ seen1)
                | inr i' ↦ seen q i'
              ],
            )
      ]

  -- With fuel for its rank a node is visited to the end.
  pub visit_node-Visits : (fuel : ℕ) → Visits fuel (visit_node quote cond fuel)
  unfolding visit_node
  visit_node-Visits zero p (below, placed) k st = absurd (omega arith)
  visit_node-Visits (suc fuel) p (below, placed) k st =
      visit_all-Done fuel (visit_node quote cond fuel) (preds p) st (visit_node-Visits fuel)
        (All-imp (Below root (rank p)) (Below root fuel) (preds p) (λ q (r, pl). (omega arith, pl))
          (preds-Below root p placed))
        k
