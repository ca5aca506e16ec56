-- ===== src/Pipeline/Climbed.antt =====
-- verifier/pipeline/graph.go: `climb` against the order in which the units of a pipeline run.
use native.Mathlib.Decide.{dec_lt}
use zero_trust_service.Common.{
  ◌≡◌, refl, sym, ap, subst, ◌⊎◌, inl, inr, ℕ, zero, suc, ◌<◌, Bool, true, false, List, [], ◌∷◌,
  All, All-imp, arith,
}
use zero_trust_service.Pipeline.Graph.{
  GraphNode, Children, no_more, child_then, Pointer, info, children, is_rollback,
}
use zero_trust_service.Pipeline.Rank.{IsPlaced, IsChild, IsNode, drop_children}
use zero_trust_service.Pipeline.Covering.{All-Elem}
use zero_trust_service.Pipeline.Climb.{
  terminal_leaves, terminal_at, preds, one_step, preds-cons, preds-nil, preds-root,
}
use zero_trust_service.Pipeline.Positions.{
  IsForward, Inside, itself, below, Before, earlier, Inside-child, Before-Inside, Leaf,
  drop_children-before, IsForward-at,
}
use zero_trust_service.Pipeline.Terminals.{terminal_leaves-Inside, terminal_leaves-some, Reaches}
use zero_trust_service.Pipeline.Before.{terminal_leaves-Reaches}

-- A node outside the rollback of any stage.
abbrev pub OutsideRollback : Pointer → Type 0
OutsideRollback p = All (λ (n : GraphNode). is_rollback n ≡ false) p

terminal_at-drop :
    (i : ℕ) (all : Children) (up : Pointer) (e : GraphNode) (es : Children)
    → drop_children i all ≡ child_then e es
    → terminal_at i all up ≡ terminal_leaves e up
unfolding terminal_at drop_children
terminal_at-drop zero no_more up e es h = cc
terminal_at-drop (suc i) no_more up e es h = cc
terminal_at-drop zero (child_then c cs) up e es h =
    let same : c ≡ e = cc in ap (λ n. terminal_leaves n up) same
terminal_at-drop (suc i) (child_then c cs) up e es h = terminal_at-drop i cs up e es h

IsForward-of :
    (n parent : GraphNode) → is_rollback n ≡ false → IsChild n parent → IsForward n parent
IsForward-of n parent r (inl (s, e)) = absurd (let h = r in cc)
IsForward-of n parent r (inr f) = f

IsForward-eq :
    (c d n : GraphNode) → IsForward c n → IsForward d n → (info c).index ≡ (info d).index → c ≡ d
IsForward-eq c d n (r, (rest, f)) (s, (rest', g)) e = cc

-- The child before a child that is not the first.
previous :
    (n parent : GraphNode) (up : Pointer) (i : ℕ)
    → IsPlaced parent
    → IsForward n parent
    → (info n).index ≡ suc i
    → (e : GraphNode) × IsForward e parent
      × ((info e).index ≡ i)
      × IsPlaced e
      × (terminal_at i (children parent) (parent ∷ up) ≡ terminal_leaves e (parent ∷ up))
previous n parent up i placed (r, (rest, f)) at =
    let g = subst (λ j. drop_children j (children parent) ≡ child_then n rest) at f in
    let (e, h) = drop_children-before i (children parent) n rest g in
    let (fe, at_e, placed_e) = IsForward-at parent e i (child_then n rest) placed h in
    (e, fe, at_e, placed_e, terminal_at-drop i (children parent) (parent ∷ up) e _ h)

-- A node in a container has a container.
Inside-cons :
    {d p : GraphNode} {up x : Pointer}
    → Inside (d ∷ p ∷ up) x
    → (n : GraphNode) × ((m : GraphNode) × ((u : Pointer) × (x ≡ n ∷ m ∷ u)))
Inside-cons {d} {p} {up} itself = (d, (p, (up, refl)))
Inside-cons (below d' m up' i f) = (d', (m, (up', refl)))

Inside-last :
    {c up : Pointer} {n m : GraphNode}
    → Inside c (n ∷ m ∷ up)
    → (c ≡ n ∷ m ∷ up) ⊎ Inside c (m ∷ up)
Inside-last itself = inl refl
Inside-last (below d' m up' i f) = inr i

-- What stands before a node stands before its container, or in an earlier child of the container.
Before-cases :
    {x up : Pointer} {n parent : GraphNode}
    → Before x (n ∷ parent ∷ up)
    → Before x (parent ∷ up)
      ⊎ ((c : GraphNode) × ((info parent).concurrent ≡ false)
          × IsForward c parent
          × ((info c).index < (info n).index)
          × Inside (c ∷ parent ∷ up) x)
Before-cases {x} {up} {n} {parent} (earlier c d p u o fc fd less i j) = elim (Inside-last j) [
  | inr k ↦ inl (earlier c d p u o fc fd less i k)
  | inl e ↦
      let dn : d ≡ n = cc in
      let pp : p ≡ parent = cc in
      let uu : p ∷ u ≡ parent ∷ up = cc in
      inr (
        c,
        subst (λ q. (info q).concurrent ≡ false) pp o,
        subst (IsForward c) pp fc,
        subst (λ q. (info c).index < (info q).index) dn less,
        subst (λ q. Inside (c ∷ q) x) uu i,
      )
]

module _ (root : GraphNode) where
  -- Outside the rollbacks, each predecessor stands before the node.
  pub preds-Before :
      (b : Pointer) → IsNode root b → OutsideRollback b → All (λ a. Before a b) (preds b)
  preds-Before [] w o = rw preds-nil tt
  preds-Before (n ∷ []) w o = rw (preds-root n) tt
  preds-Before (n ∷ parent ∷ up) (p, under, (q, v, w)) (o, os) = rw (preds-cons n parent up) (
      by_case (is_rollback n) (info parent).concurrent (info n).index (preds (parent ∷ up)) o refl
        refl (preds-Before (parent ∷ up) (q, v, w) os))
    where
      f : IsForward n parent
      f = IsForward-of n parent o under

      by_case :
          (b c : Bool) (i : ℕ) (above : List Pointer)
          → b ≡ false
          → (info parent).concurrent ≡ c
          → (info n).index ≡ i
          → All (λ a. Before a (parent ∷ up)) above
          → All (λ a. Before a (n ∷ parent ∷ up)) (one_step b c i above parent up)
      by_case true c i above e conc at h = absurd (cc)
      by_case false true i above e conc at h =
          All-imp _ _ above (λ x k. Before-Inside k (below n parent up itself f)) h
      by_case false false zero above e conc at h =
          All-imp _ _ above (λ x k. Before-Inside k (below n parent up itself f)) h
      by_case false false (suc i) above e conc at h =
          let (m, fm, at_m, placed, run) = previous n parent up i q f at in
          subst (All (λ a. Before a (n ∷ parent ∷ up))) (sym run) (
            All-imp _ _ (terminal_leaves m (parent ∷ up))
              (λ x k. earlier m n parent up conc fm f (omega arith) k itself)
              (terminal_leaves-Inside m (parent ∷ up) placed))

  -- A leaf before a node outside the rollbacks is one of its predecessors, or stands before one.
  pub preds-Reaches :
      (x b : Pointer)
      → IsNode root b
      → OutsideRollback b
      → Leaf x
      → Before x b
      → Reaches x (preds b)
  preds-Reaches x [] w o leaf (earlier c d p up conc fc fd less i j) =
      let (n, (m, (u, e))) = Inside-cons j in absurd (cc)
  preds-Reaches x (n ∷ []) w o leaf (earlier c d p up conc fc fd less i j) =
      let (n', (m, (u, e))) = Inside-cons j in absurd (cc)
  preds-Reaches x (n ∷ parent ∷ up) (p, under, (q, v, w)) (o, os) leaf before =
      rw (preds-cons n parent up) (
        by_case (is_rollback n) (info parent).concurrent (info n).index (preds (parent ∷ up)) o refl
          refl (preds-Reaches x (parent ∷ up) (q, v, w) os leaf))
    where
      f : IsForward n parent
      f = IsForward-of n parent o under

      first : (c : GraphNode) → (info c).index < (info n).index → (info n).index ≡ 0 → ⊥
      first c less at = omega arith

      before_some :
          (m : GraphNode)
          → IsPlaced m
          → ((t : Pointer) → Inside (m ∷ parent ∷ up) t → Before x t)
          → Reaches x (terminal_leaves m (parent ∷ up))
      before_some m placed h =
          let (t, i) = terminal_leaves-some m (parent ∷ up) in
          inr (
            t,
            i,
            h t (
                All-Elem _ (terminal_leaves m (parent ∷ up)) t
                  (terminal_leaves-Inside m (parent ∷ up) placed) i),
          )

      by_case :
          (b c : Bool) (i : ℕ) (above : List Pointer)
          → b ≡ false
          → (info parent).concurrent ≡ c
          → (info n).index ≡ i
          → (Before x (parent ∷ up) → Reaches x above)
          → Reaches x (one_step b c i above parent up)
      by_case true c i above e conc at h = absurd (cc)
      by_case false true i above e conc at h = elim (Before-cases before) [
        | inl k ↦ h k
        | inr (c, ordered, fc, less, k) ↦ absurd (cc)
      ]
      by_case false false zero above e conc at h = elim (Before-cases before) [
        | inl k ↦ h k
        | inr (c, ordered, fc, less, k) ↦ absurd (first c less at)
      ]
      by_case false false (suc i) above e conc at h =
          let (m, fm, at_m, placed, run) = previous n parent up i q f at in
          subst (Reaches x) (sym run) (elim (Before-cases before) [
            | inl k ↦ before_some m placed (λ t j. Before-Inside k (Inside-child m parent up fm j))
            | inr (c, ordered, fc, less, k) ↦ in_earlier m fm at_m placed c fc less at k
          ])
        where
          in_earlier :
              (m : GraphNode)
              → IsForward m parent
              → (info m).index ≡ i
              → IsPlaced m
              → (c : GraphNode) → IsForward c parent
              → (info c).index < (info n).index
              → (info n).index ≡ suc i
              → Inside (c ∷ parent ∷ up) x
              → Reaches x (terminal_leaves m (parent ∷ up))
          in_earlier m fm at_m placed c fc less at k = elim (dec_lt (info c).index i) [
            | yes early ↦
                before_some m placed (λ t j. earlier c m parent up conc fc fm (omega arith) k j)
            | no same ↦
                let eq : (info c).index ≡ (info m).index = omega arith in
                let cm = IsForward-eq c m parent fc fm eq in
                terminal_leaves-Reaches m (parent ∷ up) x placed
                  (subst (λ q'. Inside (q' ∷ parent ∷ up) x) cm k) leaf
          ]

  -- The predecessors of a node outside the rollbacks are the units that run right before it. Each
  -- stands before it: both are in or below children of a container that is not concurrent, the
  -- predecessor in an earlier one. And none is missing: a step, or a unit without children, that
  -- stands before the node is a predecessor or stands before one. This is said of the units that have
  -- no step among their containers.
  pub preds_order :
      (b : Pointer)
      → IsNode root b
      → OutsideRollback b
      → All (λ a. Before a b) (preds b)
        × ((x : Pointer) → Leaf x → Before x b → Reaches x (preds b))
  preds_order b in_graph outside = (
    preds-Before b in_graph outside,
    λ x leaf before. preds-Reaches x b in_graph outside leaf before,
  )
