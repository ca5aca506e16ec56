-- ===== src/Pipeline/Descent.antt =====
-- verifier/pipeline/graph.go: the rank falls from a node to each of its predecessors.
use zero_trust_service.Common.{
  ◌≡◌, refl, sym, inr, ℕ, zero, suc, ◌+◌, ◌≤◌, ap, subst, Bool, true, false, List, [], ◌∷◌, All,
  arith, if◌then◌else◌, All-append, All-imp,
}
use zero_trust_service.Pipeline.Graph.{
  GraphNode, graph_node, Children, no_more, child_then, Pointer, info, children, is_step,
  is_rollback,
}
use zero_trust_service.Pipeline.Climb.{
  terminal_leaves, terminal_all, terminal_last, terminal_at, walk, walk_all, forward_leaves, preds,
  one_step, preds-cons, preds-nil, preds-root,
}
use zero_trust_service.Pipeline.Rank.{
  IsPlaced, ArePlaced, size, sizes, sizes_before, offset, rank, drop_children, IsChild, IsUnder,
  IsNode, Below,
}

pub drop_children-suc :
    (k : ℕ) (all : Children) (c : GraphNode) (cs : Children)
    → drop_children k all ≡ child_then c cs
    → (drop_children (suc k) all ≡ cs)
      × (sizes_before (suc k) all ≡ sizes_before k all + size c)
      × (sizes_before (suc k) all ≤ sizes all)
unfolding drop_children sizes_before sizes
drop_children-suc zero no_more c cs e = cc
drop_children-suc (suc k) no_more c cs e = cc
drop_children-suc zero (child_then d ds) c cs e = ground arith
drop_children-suc (suc k) (child_then d ds) c cs e =
    let (p, q, r) = drop_children-suc k ds c cs e in (p, omega (arith, q), omega (arith, r))

pub IsChild-at :
    (c n : GraphNode) (k : ℕ) (cs : Children)
    → drop_children k (children n) ≡ child_then c cs
    → (info c).index ≡ k
    → is_rollback c ≡ false
    → IsChild c n
IsChild-at c n k cs e i r =
    inr (r, (cs, subst (λ j. drop_children j (children n) ≡ child_then c cs) (sym i) e))

offset-child :
    (c n : GraphNode) (k : ℕ)
    → (info c).index ≡ k
    → is_rollback c ≡ false
    → offset c n ≡ sizes_before k (children n)
unfolding offset
offset-child c n k i r = rw r (ap (λ j. sizes_before j (children n)) i)

rank-child :
    (c n : GraphNode) (up : Pointer) (k : ℕ) (cs : Children)
    → drop_children k (children n) ≡ child_then c cs
    → (info c).index ≡ k
    → is_rollback c ≡ false
    → (rank (c ∷ n ∷ up) + size c ≡ rank (n ∷ up) + sizes_before (suc k) (children n))
      × (rank (c ∷ n ∷ up) + size c ≤ rank (n ∷ up) + sizes (children n))
unfolding rank offset
rank-child c n up k cs e i r =
    let (p, q, b) = drop_children-suc k (children n) c cs e in
    let o = offset-child c n k i r in (omega (arith, q, o), omega (arith, q, o, b))

All-if :
    {A : Type 0} (P : A → Type 0) (b : Bool) (xs ys : List A)
    → All P xs
    → All P ys
    → All P (if b then xs else ys)
All-if P true xs ys p q = p
All-if P false xs ys p q = q

Below-mono :
    (root : GraphNode) (a b : ℕ) (qs : List Pointer)
    → a ≤ b
    → All (Below root a) qs
    → All (Below root b) qs
Below-mono root a b qs h = All-imp (Below root a) (Below root b) qs (λ q (r, p). (omega arith, p))

mutual
  unfolding terminal_leaves IsPlaced size drop_children

  terminal_leaves-Below :
      (root : GraphNode) (n : GraphNode) (up : Pointer)
      → IsPlaced n
      → IsUnder root n up
      → IsNode root up
      → All (Below root (rank (n ∷ up) + size n)) (terminal_leaves n up)
  terminal_leaves-Below root (graph_node i no_more rb) up p v ps = ((omega arith, (p, v, ps)), tt)
  terminal_leaves-Below root (graph_node i (child_then c cs) rb) up p v ps =
      let n = graph_node i (child_then c cs) rb in
      All-if (Below root (rank (n ∷ up) + size n)) (is_step n) _ _ ((omega arith, (p, v, ps)), tt)
        (Below-mono root _ _ _ (omega arith) (
          All-if (Below root (rank (n ∷ up) + sizes (child_then c cs))) i.concurrent _ _
            (terminal_all-Below root (child_then c cs) n up 0 refl p.0 (p, v, ps))
            (terminal_last-Below root (child_then c cs) n up 0 refl p.0 (p, v, ps))))

  terminal_all-Below :
      (root : GraphNode) (cs : Children) (n : GraphNode) (up : Pointer) (k : ℕ)
      → drop_children k (children n) ≡ cs
      → ArePlaced k cs
      → IsNode root (n ∷ up)
      → All (Below root (rank (n ∷ up) + sizes (children n))) (terminal_all cs (n ∷ up))
  terminal_all-Below root no_more n up k e p ps = tt
  terminal_all-Below root (child_then c cs) n up k e (i, r, p, p') ps =
      All-append _ (terminal_leaves c (n ∷ up)) (terminal_all cs (n ∷ up))
        (Below-mono root _ _ _ (rank-child c n up k cs e i r).1
          (terminal_leaves-Below root c (n ∷ up) p (IsChild-at c n k cs e i r) ps))
        (terminal_all-Below root cs n up (suc k) (drop_children-suc k (children n) c cs e).0 p' ps)

  terminal_last-Below :
      (root : GraphNode) (cs : Children) (n : GraphNode) (up : Pointer) (k : ℕ)
      → drop_children k (children n) ≡ cs
      → ArePlaced k cs
      → IsNode root (n ∷ up)
      → All (Below root (rank (n ∷ up) + sizes (children n))) (terminal_last cs (n ∷ up))
  terminal_last-Below root no_more n up k e p ps = tt
  terminal_last-Below root (child_then c no_more) n up k e (i, r, p, p') ps =
      Below-mono root _ _ _ (rank-child c n up k no_more e i r).1
        (terminal_leaves-Below root c (n ∷ up) p (IsChild-at c n k no_more e i r) ps)
  terminal_last-Below root (child_then c (child_then d cs)) n up k e (i, r, p, p') ps =
      terminal_last-Below root (child_then d cs) n up (suc k)
        (drop_children-suc k (children n) c (child_then d cs) e).0 p' ps

mutual
  unfolding walk IsPlaced size drop_children

  walk-Below :
      (root : GraphNode) (n : GraphNode) (up : Pointer)
      → IsPlaced n
      → IsUnder root n up
      → IsNode root up
      → All (Below root (rank (n ∷ up) + size n)) (walk n up)
  walk-Below root (graph_node i cs rb) up p v ps =
      let n = graph_node i cs rb in
      All-if (Below root (rank (n ∷ up) + size n)) (is_rollback n) _ _ tt (
        All-if (Below root (rank (n ∷ up) + size n)) (is_step n) _ _ ((omega arith, (p, v, ps)), tt)
          (Below-mono root _ _ _ (omega arith) (walk_all-Below root cs n up 0 refl p.0 (p, v, ps))))

  walk_all-Below :
      (root : GraphNode) (cs : Children) (n : GraphNode) (up : Pointer) (k : ℕ)
      → drop_children k (children n) ≡ cs
      → ArePlaced k cs
      → IsNode root (n ∷ up)
      → All (Below root (rank (n ∷ up) + sizes (children n))) (walk_all cs (n ∷ up))
  walk_all-Below root no_more n up k e p ps = tt
  walk_all-Below root (child_then c cs) n up k e (i, r, p, p') ps =
      All-append _ (walk c (n ∷ up)) (walk_all cs (n ∷ up))
        (Below-mono root _ _ _ (rank-child c n up k cs e i r).1
          (walk-Below root c (n ∷ up) p (IsChild-at c n k cs e i r) ps))
        (walk_all-Below root cs n up (suc k) (drop_children-suc k (children n) c cs e).0 p' ps)

terminal_at-Below :
    (root : GraphNode) (j : ℕ) (cs : Children) (n : GraphNode) (up : Pointer) (k : ℕ)
    → drop_children k (children n) ≡ cs
    → ArePlaced k cs
    → IsNode root (n ∷ up)
    → All
        (Below root (rank (n ∷ up) + sizes_before (suc (j + k)) (children n)))
        (terminal_at j cs (n ∷ up))
unfolding terminal_at IsPlaced
terminal_at-Below root zero no_more n up k e p ps = tt
terminal_at-Below root (suc j) no_more n up k e p ps = tt
terminal_at-Below root zero (child_then c cs) n up k e (i, r, p, p') ps =
    let (h, _) = rank-child c n up k cs e i r in
    let z : k ≡ 0 + k = omega arith in
    let h' =
      subst (λ m. rank (c ∷ n ∷ up) + size c ≡ rank (n ∷ up) + sizes_before (suc m) (children n)) z
        h in
    Below-mono root _ _ _ (omega (arith, h'))
      (terminal_leaves-Below root c (n ∷ up) p (IsChild-at c n k cs e i r) ps)
terminal_at-Below root (suc j) (child_then c cs) n up k e (i, r, p, p') ps =
    let s : j + suc k ≡ suc j + k = omega arith in
    subst
      (λ m.
        All (Below root (rank (n ∷ up) + sizes_before (suc m) (children n)))
          (terminal_at j cs (n ∷ up)))
      s (terminal_at-Below root j cs n up (suc k) (drop_children-suc k (children n) c cs e).0 p' ps)

placed_children : (n : GraphNode) → IsPlaced n → ArePlaced 0 (children n)
unfolding IsPlaced
placed_children (graph_node i cs rb) p = p.0

-- Each predecessor of a node of a placed graph has a smaller rank, and is a node of it.
pub preds-Below :
    (root : GraphNode) (n : Pointer) → IsNode root n → All (Below root (rank n)) (preds n)
unfolding rank offset
preds-Below root [] ps = rw preds-nil tt
preds-Below root (n ∷ []) ps = rw (preds-root n) tt
preds-Below root (n ∷ parent ∷ up) (p, w, (q, v, ps)) = rw (preds-cons n parent up) (
    by_case (is_rollback n) (info parent).concurrent (info n).index (preds (parent ∷ up))
      (preds-Below root (parent ∷ up) (q, v, ps)))
  where
    by_case :
        (b c : Bool) (i : ℕ) (above : List Pointer)
        → All (Below root (rank (parent ∷ up))) above
        → All
            (Below root (
              rank (parent ∷ up)
              + (if b then sizes (children parent) else sizes_before i (children parent))))
            (one_step b c i above parent up)
    by_case true c i above h =
        unfold forward_leaves in
        (walk_all-Below root (children parent) parent up 0 (unfold drop_children in refl)
          (placed_children parent q) (q, v, ps))
    by_case false true i above h = Below-mono root _ _ above (omega arith) h
    by_case false false zero above h = Below-mono root _ _ above (omega arith) h
    by_case false false (suc i) above h =
        let e : i + 0 ≡ i = omega arith in
        subst
          (λ m.
            All (Below root (rank (parent ∷ up) + sizes_before (suc m) (children parent)))
              (terminal_at i (children parent) (parent ∷ up)))
          e
          (terminal_at-Below root i (children parent) parent up 0 (unfold drop_children in refl)
            (placed_children parent q) (q, v, ps))
