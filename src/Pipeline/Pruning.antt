-- ===== src/Pipeline/Pruning.antt =====
-- verifier/pipeline/evaluate.go: the pruning of `liveAncestorsOf`, which drops the nodes that another
-- retained node implies.
use mathlib.Core.Option.{some-injective}
use zero_trust_service.Common.{
  ◌≡◌, refl, sym, ap, subst, ◌∙◌, ◌↔◌, ◌⊎◌, inl, inr, ℕ, zero, suc, ◌+◌, ◌≤◌, Bool, true, false,
  Option, some, List, [], ◌∷◌, All, All-imp, Elem, arith, get_elem?,
}
use zero_trust_service.Pipeline.Graph.{GraphNode, Pointer}
use zero_trust_service.Pipeline.Rank.{rank, IsNode, Below}
use zero_trust_service.Pipeline.Live.{keep_unless, prune_from, prune_nodes}
use zero_trust_service.Pipeline.Precedes.{Precedes, precedes_via_iff}
use zero_trust_service.Pipeline.Covering.{
  All-Elem, Precedes-trans, Precedes-rank, Covered, Marks, Marks-of, covered_from_iff,
}

-- What the loop keeps of the rest of the list.
abbrev Keeps : List Pointer → List Pointer → Option (List Pointer) → Type 0
Keeps nodes rest r =
    (kept : List Pointer) × (r ≡ some kept)
    × ((p : Pointer) → Elem p kept ↔ (Elem p rest × ¬ Covered nodes p))

module _ (root : GraphNode) where
  module _ (nodes : List Pointer) (in_graph : All (IsNode root) nodes) where
    keep_one :
        (a : Pointer) (rest : List Pointer) (x : Bool) {c : Option Bool} {r : Option (List Pointer)}
        → c ≡ some x
        → ((x ≡ true) ↔ Covered nodes a)
        → Keeps nodes rest r
        → Keeps nodes (a ∷ rest) (keep_unless a c r)
    keep_one a rest true e iff (kept, run, keeps) = (
      kept,
      rw (e, run) refl,
      λ p. (
        λ i. let (j, alone) = (keeps p).0 i in (inr j, alone),
        λ (i, alone). elim i [
          | inl same ↦ absurd (alone (subst (Covered nodes) same (iff.0 refl)))
          | inr j ↦ (keeps p).1 (j, alone)
        ],
      ),
    )
    keep_one a rest false e iff (kept, run, keeps) = (
      a ∷ kept,
      rw (e, run) refl,
      λ p. (
        λ i. elim i [
          | inl same ↦ (inl same, λ c. let h = iff.1 (subst (Covered nodes) (sym same) c) in cc)
          | inr j ↦ let (k, alone) = (keeps p).0 j in (inr k, alone)
        ],
        λ (i, alone). elim i [ inl same ↦ inl same | inr j ↦ inr ((keeps p).1 (j, alone)) ],
      ),
    )

    prune_from-Keeps :
        (i : ℕ) (rest : List Pointer)
        → ((k : ℕ) → get_elem? rest k ≡ get_elem? nodes (k + i))
        → All (IsNode root) rest
        → Keeps nodes rest (prune_from nodes i rest)
    unfolding prune_from
    prune_from-Keeps i [] at us = ([], refl, λ p. (λ j. absurd j, λ (j, alone). absurd j))
    prune_from-Keeps i (a ∷ rest) at (u, us) =
        let (x, run, iff) = covered_from_iff root a i 0 nodes u in_graph (marks at) in
        keep_one a rest x run iff (
          prune_from-Keeps (suc i) rest
            (λ k.
              let e : suc k + i ≡ k + suc i = omega arith in at (suc k) ∙ ap (get_elem? nodes) e)
            us)
      where
        marks :
            ((k : ℕ) → get_elem? (a ∷ rest) k ≡ get_elem? nodes (k + i)) → Marks root a i 0 nodes
        marks at = Marks-of root a i 0 nodes (λ k e b g.
            let e' : k ≡ 0 + i = omega arith in
            some-injective _ _ (sym g ∙ ap (get_elem? nodes) e' ∙ sym (at 0)))

  -- Pruning keeps exactly the nodes that precede no other of them.
  pub prune_nodes_iff :
      (nodes : List Pointer)
      → All (IsNode root) nodes
      → (kept : List Pointer) × (prune_nodes true nodes ≡ some kept)
        × ((p : Pointer) → Elem p kept ↔ (Elem p nodes × ¬ Covered nodes p))
  unfolding prune_nodes
  prune_nodes_iff [] us = ([], refl, λ p. (λ i. absurd i, λ (i, alone). absurd i))
  prune_nodes_iff (a ∷ []) (u, us) = (
    a ∷ [],
    refl,
    λ p. (λ i. (i, λ (b, j, k). elim i [ inl e ↦ alone e j k | inr e ↦ absurd e ]), λ (i, _). i),
  )
    where
      alone : {p b : Pointer} → a ≡ p → Elem b (a ∷ []) → Precedes p b → ⊥
      alone {p} e (inl f) k =
          let q : Precedes a a = subst (λ n. Precedes n a) (sym e) (subst (Precedes p) (sym f) k) in
          omega (arith, Precedes-rank root u q)
      alone e (inr f) k = absurd f
  prune_nodes_iff (a ∷ b ∷ rest) us =
      prune_from-Keeps (a ∷ b ∷ rest) us 0 (a ∷ b ∷ rest)
        (λ k. let e : k ≡ k + 0 = omega arith in ap (get_elem? (a ∷ b ∷ rest)) e) us

  Covered-dec :
      (p : Pointer) (nodes : List Pointer)
      → IsNode root p
      → All (IsNode root) nodes
      → Covered nodes p ⊎ ¬ Covered nodes p
  Covered-dec p [] u us = inr (λ (b, i, k). absurd i)
  Covered-dec p (n ∷ nodes) u (v, us) =
      let (x, _, iff) = precedes_via_iff root p u n v in decide x iff (Covered-dec p nodes u us)
    where
      decide :
          (x : Bool)
          → ((x ≡ true) ↔ Precedes p n)
          → Covered nodes p ⊎ ¬ Covered nodes p
          → Covered (n ∷ nodes) p ⊎ ¬ Covered (n ∷ nodes) p
      decide true iff rest = inl (n, inl refl, iff.0 refl)
      decide false iff (inl (b, i, k)) = inl (b, inr i, k)
      decide false iff (inr alone) = inr (λ (b, i, k). elim i [
        | inl e ↦ let h = iff.1 (subst (Precedes p) (sym e) k) in cc
        | inr j ↦ alone (b, j, k)
      ])

  module _ (m : ℕ) (nodes kept : List Pointer) (below : All (Below root m) nodes)
      (keeps : (p : Pointer) → Elem p kept ↔ (Elem p nodes × ¬ Covered nodes p)) where
    nodes_in_graph : All (IsNode root) nodes
    nodes_in_graph = All-imp (Below root m) (IsNode root) nodes (λ p b. b.1) below

    kept_or_implied_within :
        (d : ℕ) (p : Pointer) → m ≤ rank p + d → Elem p nodes → Elem p kept ⊎ Covered kept p
    kept_or_implied_within zero p h i =
        let b = All-Elem (Below root m) nodes p below i in absurd (omega (arith, b.0))
    kept_or_implied_within (suc d) p h i =
        let u = All-Elem (Below root m) nodes p below i in
        elim (Covered-dec p nodes u.1 nodes_in_graph) [
          | inr alone ↦ inl ((keeps p).1 (i, alone))
          | inl (b, j, k) ↦
              let v = All-Elem (Below root m) nodes b below j in
              let less = Precedes-rank root v.1 k in
              elim (kept_or_implied_within d b (omega (arith, less)) j) [
                | inl stays ↦ inr (b, stays, k)
                | inr (c, stays, k') ↦ inr (c, stays, Precedes-trans k k')
              ]
        ]

    -- Pruning loses nothing: a node that is dropped precedes one that stays.
    pub kept_or_implied : (p : Pointer) → Elem p nodes → Elem p kept ⊎ Covered kept p
    kept_or_implied p i = kept_or_implied_within m p (omega arith) i
