-- ===== src/Pipeline/Before.antt =====
-- verifier/pipeline/graph.go: the predecessors that `climb` finds, against the order of the units.
use zero_trust_service.Common.{
  ◌≡◌, refl, sym, ap, subst, ◌∙◌, inl, inr, ℕ, suc, ◌≤◌, Bool, true, false, List, ◌∷◌, arith,
  if◌then◌else◌,
}
use zero_trust_service.Pipeline.Graph.{
  GraphNode, graph_node, Children, no_more, child_then, Pointer, info, children, is_step,
}
use zero_trust_service.Pipeline.Rank.{IsPlaced, drop_children}
use zero_trust_service.Pipeline.Descent.{drop_children-suc}
use zero_trust_service.Pipeline.Covering.{All-Elem}
use zero_trust_service.Pipeline.Climb.{terminal_leaves, terminal_all, terminal_last}
use zero_trust_service.Pipeline.Positions.{
  IsForward, Inside, earlier, Inside-cases, Inside-no_step, Leaf, IsLast, IsForward-at,
}
use zero_trust_service.Pipeline.Terminals.{
  terminal_last-later, terminal_last-some, Reaches, Reaches-append, child-cases, no-child,
}

not-IsLast :
    (n : GraphNode) (up : Pointer) {c : GraphNode} {cs : Children}
    → is_step n ≡ false
    → children n ≡ child_then c cs
    → ¬ IsLast (n ∷ up)
not-IsLast n up s e (inl t) = cc
not-IsLast n up s e (inr t) = cc

Reaches-if :
    (x : Pointer) (b : Bool) (xs ys : List Pointer)
    → (b ≡ true → Reaches x xs)
    → (b ≡ false → Reaches x ys)
    → Reaches x (if b then xs else ys)
Reaches-if x true xs ys p q = p refl
Reaches-if x false xs ys p q = q refl

mutual
  unfolding terminal_leaves drop_children

  -- A leaf in a node is one of its last leaves, or stands before one of them.
  pub terminal_leaves-Reaches :
      (n : GraphNode) (up x : Pointer)
      → IsPlaced n
      → Inside (n ∷ up) x
      → Leaf x
      → Reaches x (terminal_leaves n up)
  terminal_leaves-Reaches (graph_node i no_more rb) up x p j leaf =
      let n = graph_node i no_more rb in
      elim (Inside-cases n up j) [
        | inl e ↦ inl (inl (sym e))
        | inr (d, f, k) ↦ absurd (no-child n d 0 refl f (omega arith))
      ]
  terminal_leaves-Reaches (graph_node i (child_then c cs) rb) up x p j leaf =
      let n = graph_node i (child_then c cs) rb in
      elim (Inside-cases n up j) [
        | inl e ↦
            Reaches-if x (is_step n) _ _ (λ s. inl (inl (sym e)))
              (λ s. absurd (not-IsLast n up s refl (subst IsLast e leaf.0)))
        | inr (d, f, k) ↦
            Reaches-if x (is_step n) _ _ (λ s. absurd (let no_step = Inside-no_step k leaf.1 in cc))
              (λ s.
                Reaches-if x i.concurrent _ _
                  (λ o.
                    terminal_all-Reaches (child_then c cs) n up 0 d x refl p f (omega arith) k leaf)
                  (λ o.
                    terminal_last-Reaches (child_then c cs) n up 0 d x refl p o f (omega arith) k
                      leaf))
      ]

  terminal_all-Reaches :
      (cs : Children) (n : GraphNode) (up : Pointer) (k : ℕ) (d : GraphNode) (x : Pointer)
      → drop_children k (children n) ≡ cs
      → IsPlaced n
      → IsForward d n
      → k ≤ (info d).index
      → Inside (d ∷ n ∷ up) x
      → Leaf x
      → Reaches x (terminal_all cs (n ∷ up))
  terminal_all-Reaches no_more n up k d x e p f less j leaf = absurd (no-child n d k e f less)
  terminal_all-Reaches (child_then c cs) n up k d x e p f less j leaf =
      let (_, _, q) = IsForward-at n c k cs p e in
      Reaches-append x (terminal_leaves c (n ∷ up)) (terminal_all cs (n ∷ up))
        (elim (child-cases n c d k cs e f less) [
          | inl same ↦ inl (
              terminal_leaves-Reaches c (n ∷ up) x q (subst (λ m. Inside (m ∷ n ∷ up) x) same j)
                leaf)
          | inr later ↦ inr (
              terminal_all-Reaches cs n up (suc k) d x (drop_children-suc k (children n) c cs e).0 p
                f later j leaf)
        ])

  terminal_last-Reaches :
      (cs : Children) (n : GraphNode) (up : Pointer) (k : ℕ) (d : GraphNode) (x : Pointer)
      → drop_children k (children n) ≡ cs
      → IsPlaced n
      → (info n).concurrent ≡ false
      → IsForward d n
      → k ≤ (info d).index
      → Inside (d ∷ n ∷ up) x
      → Leaf x
      → Reaches x (terminal_last cs (n ∷ up))
  terminal_last-Reaches no_more n up k d x e p o f less j leaf = absurd (no-child n d k e f less)
  terminal_last-Reaches (child_then c no_more) n up k d x e p o f less j leaf =
      let (_, _, q) = IsForward-at n c k no_more p e in
      elim (child-cases n c d k no_more e f less) [
        | inl same ↦
            terminal_leaves-Reaches c (n ∷ up) x q (subst (λ m. Inside (m ∷ n ∷ up) x) same j) leaf
        | inr later ↦
            absurd (no-child n d (suc k) (drop_children-suc k (children n) c no_more e).0 f later)
      ]
  terminal_last-Reaches (child_then c (child_then c' cs)) n up k d x e p o f less j leaf =
      let rest = (drop_children-suc k (children n) c (child_then c' cs) e).0 in
      elim (child-cases n c d k (child_then c' cs) e f less) [
        | inl same ↦
            let (_, at, _) = IsForward-at n c k (child_then c' cs) p e in
            let (t, i) = terminal_last-some (child_then c' cs) (n ∷ up) (c', (cs, refl)) in
            let (l, g, later, j') =
              All-Elem _ (terminal_last (child_then c' cs) (n ∷ up)) t
                (terminal_last-later (child_then c' cs) n up (suc k) rest p) i in
            let at_d : (info d).index ≡ k = ap (λ m. (info m).index) same ∙ at in
            inr (t, i, earlier d l n up o f g (omega arith) j j')
        | inr later ↦
            terminal_last-Reaches (child_then c' cs) n up (suc k) d x rest p o f later j leaf
      ]
