-- ===== src/Pipeline/Terminals.antt =====
-- verifier/pipeline/graph.go: the leaves that `terminalLeaves` finds in a placed node.
use native.Mathlib.Decide.{dec_lt}
use zero_trust_service.Common.{
  ◌≡◌, refl, sym, subst, ◌∙◌, ◌⊎◌, inl, inr, ℕ, suc, ◌+◌, ◌-◌, ◌≤◌, Bool, true, false, List, ◌∷◌,
  ◌++◌, All, All-append, All-imp, Elem, Elem-append, arith, if◌then◌else◌,
}
use zero_trust_service.Pipeline.Graph.{
  GraphNode, graph_node, Children, no_more, child_then, Pointer, info, children, is_step,
}
use zero_trust_service.Pipeline.Rank.{IsPlaced, drop_children}
use zero_trust_service.Pipeline.Descent.{drop_children-suc}
use zero_trust_service.Pipeline.Climb.{terminal_leaves, terminal_all, terminal_last}
use zero_trust_service.Pipeline.Positions.{
  IsForward, Inside, itself, Before, Inside-child, drop_children-end, IsForward-at,
}

All-if :
    {A : Type 0} (P : A → Type 0) (b : Bool) (xs ys : List A)
    → All P xs
    → All P ys
    → All P (if b then xs else ys)
All-if P true xs ys p q = p
All-if P false xs ys p q = q

mutual
  unfolding terminal_leaves drop_children

  pub terminal_leaves-Inside :
      (n : GraphNode) (up : Pointer) → IsPlaced n → All (Inside (n ∷ up)) (terminal_leaves n up)
  terminal_leaves-Inside (graph_node i no_more rb) up p = (itself, tt)
  terminal_leaves-Inside (graph_node i (child_then c cs) rb) up p =
      let n = graph_node i (child_then c cs) rb in
      All-if (Inside (n ∷ up)) (is_step n) _ _ (itself, tt)
        (All-if (Inside (n ∷ up)) i.concurrent _ _
          (terminal_all-Inside (child_then c cs) n up 0 refl p)
          (terminal_last-Inside (child_then c cs) n up 0 refl p))

  terminal_all-Inside :
      (cs : Children) (n : GraphNode) (up : Pointer) (k : ℕ)
      → drop_children k (children n) ≡ cs
      → IsPlaced n
      → All (Inside (n ∷ up)) (terminal_all cs (n ∷ up))
  terminal_all-Inside no_more n up k e p = tt
  terminal_all-Inside (child_then c cs) n up k e p =
      let (f, i, q) = IsForward-at n c k cs p e in
      All-append _ (terminal_leaves c (n ∷ up)) (terminal_all cs (n ∷ up))
        (All-imp (Inside (c ∷ n ∷ up)) (Inside (n ∷ up)) (terminal_leaves c (n ∷ up))
          (λ x. Inside-child c n up f) (terminal_leaves-Inside c (n ∷ up) q))
        (terminal_all-Inside cs n up (suc k) (drop_children-suc k (children n) c cs e).0 p)

  terminal_last-Inside :
      (cs : Children) (n : GraphNode) (up : Pointer) (k : ℕ)
      → drop_children k (children n) ≡ cs
      → IsPlaced n
      → All (Inside (n ∷ up)) (terminal_last cs (n ∷ up))
  terminal_last-Inside no_more n up k e p = tt
  terminal_last-Inside (child_then c no_more) n up k e p =
      let (f, i, q) = IsForward-at n c k no_more p e in
      All-imp (Inside (c ∷ n ∷ up)) (Inside (n ∷ up)) (terminal_leaves c (n ∷ up))
        (λ x. Inside-child c n up f) (terminal_leaves-Inside c (n ∷ up) q)
  terminal_last-Inside (child_then c (child_then d cs)) n up k e p =
      terminal_last-Inside (child_then d cs) n up (suc k)
        (drop_children-suc k (children n) c (child_then d cs) e).0 p

-- Some leaf is there.
abbrev pub Some-leaf : List Pointer → Type 0
Some-leaf ts = (t : Pointer) × Elem t ts

mutual
  unfolding terminal_leaves

  pub terminal_leaves-some : (n : GraphNode) (up : Pointer) → Some-leaf (terminal_leaves n up)
  terminal_leaves-some (graph_node i no_more rb) up = (_, inl refl)
  terminal_leaves-some (graph_node i (child_then c cs) rb) up =
      let n = graph_node i (child_then c cs) rb in
      if-some (is_step n) _ _ (n ∷ up, inl refl)
        (if-some i.concurrent _ _
          (let (t, j) = terminal_leaves-some c (n ∷ up) in
            (t, (Elem-append t (terminal_leaves c (n ∷ up)) (terminal_all cs (n ∷ up))).1 (inl j)))
          (terminal_last-some (child_then c cs) (n ∷ up) (c, (cs, refl))))
    where
      if-some :
          (b : Bool) (xs ys : List Pointer)
          → Some-leaf xs
          → Some-leaf ys
          → Some-leaf (if b then xs else ys)
      if-some true xs ys p q = p
      if-some false xs ys p q = q

  pub terminal_last-some :
      (cs : Children) (up : Pointer)
      → ((c : GraphNode) × ((rest : Children) × (cs ≡ child_then c rest)))
      → Some-leaf (terminal_last cs up)
  terminal_last-some no_more up (c, (rest, e)) = absurd (not_empty e)
    where
      not_empty : {d : GraphNode} {ds : Children} → no_more ≡ child_then d ds → ⊥
      not_empty h = cc
  terminal_last-some (child_then c no_more) up h = terminal_leaves-some c up
  terminal_last-some (child_then c (child_then d cs)) up h =
      terminal_last-some (child_then d cs) up (d, (cs, refl))

-- The leaves of the last child stand in or below a child from a position on.
pub terminal_last-later :
    (cs : Children) (n : GraphNode) (up : Pointer) (k : ℕ)
    → drop_children k (children n) ≡ cs
    → IsPlaced n
    → All
        (λ t. (l : GraphNode) × IsForward l n × (k ≤ (info l).index) × Inside (l ∷ n ∷ up) t)
        (terminal_last cs (n ∷ up))
unfolding terminal_last
terminal_last-later no_more n up k e p = tt
terminal_last-later (child_then c no_more) n up k e p =
    let (f, i, q) = IsForward-at n c k no_more p e in
    All-imp _ _ (terminal_leaves c (n ∷ up)) (λ x j. (c, f, omega arith, j))
      (terminal_leaves-Inside c (n ∷ up) q)
terminal_last-later (child_then c (child_then d cs)) n up k e p =
    All-imp _ _ (terminal_last (child_then d cs) (n ∷ up))
      (λ x (l, f, less, j). (l, f, omega arith, j))
      (terminal_last-later (child_then d cs) n up (suc k)
        (drop_children-suc k (children n) c (child_then d cs) e).0 p)

-- A leaf is one of those given, or stands before one of them.
abbrev pub Reaches : Pointer → List Pointer → Type 0
Reaches x ts = Elem x ts ⊎ ((t : Pointer) × Elem t ts × Before x t)

pub Reaches-append :
    (x : Pointer) (xs ys : List Pointer) → Reaches x xs ⊎ Reaches x ys → Reaches x (xs ++ ys)
Reaches-append x xs ys (inl (inl i)) = inl ((Elem-append x xs ys).1 (inl i))
Reaches-append x xs ys (inl (inr (t, i, b))) = inr (t, (Elem-append t xs ys).1 (inl i), b)
Reaches-append x xs ys (inr (inl i)) = inl ((Elem-append x xs ys).1 (inr i))
Reaches-append x xs ys (inr (inr (t, i, b))) = inr (t, (Elem-append t xs ys).1 (inr i), b)

-- A child at or behind a position is the one there, or stands behind it.
pub child-cases :
    (n c d : GraphNode) (k : ℕ) (cs : Children)
    → drop_children k (children n) ≡ child_then c cs
    → IsForward d n
    → k ≤ (info d).index
    → (d ≡ c) ⊎ (suc k ≤ (info d).index)
child-cases n c d k cs e (r, (rest, f)) less = elim (dec_lt k (info d).index) [
  | yes later ↦ inr (omega arith)
  | no here ↦
      let same : (info d).index ≡ k = omega arith in
      let g = subst (λ j. drop_children j (children n) ≡ child_then d rest) same f in
      inl (head (sym g ∙ e))
]
  where
    head : {a b : GraphNode} {as' bs : Children} → child_then a as' ≡ child_then b bs → a ≡ b
    head h = cc

pub no-child :
    (n d : GraphNode) (k : ℕ)
    → drop_children k (children n) ≡ no_more
    → IsForward d n
    → k ≤ (info d).index
    → ⊥
no-child n d k e (r, (rest, f)) less =
    let i = (info d).index in
    let z : (i - k) + k ≡ i = omega arith in
    let g =
      subst (λ j. drop_children j (children n) ≡ no_more) z
        (drop_children-end k (i - k) (children n) e) in
    differ (sym g ∙ f)
  where
    differ : {a : GraphNode} {as' : Children} → no_more ≡ child_then a as' → ⊥
    differ h = cc
