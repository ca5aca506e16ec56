-- ===== src/Pipeline/Positions.antt =====
-- verifier/pipeline/graph.go: the order in which the units of a pipeline run, by their positions.
use zero_trust_service.Common.{
  ◌≡◌, refl, sym, ap, subst, ◌∙◌, ◌⊎◌, inl, inr, ℕ, zero, suc, ◌+◌, ◌<◌, true, false, [], ◌∷◌, All,
  arith,
}
use zero_trust_service.Pipeline.Graph.{
  GraphNode, graph_node, Children, no_more, child_then, Pointer, info, children, is_step,
  is_rollback,
}
use zero_trust_service.Pipeline.Rank.{IsPlaced, ArePlaced, drop_children}

-- A node stands at its index among the children of another.
abbrev pub IsForward : GraphNode → GraphNode → Type 0
IsForward d n =
    (is_rollback d ≡ false)
    × ((rest : Children) × (drop_children (info d).index (children n) ≡ child_then d rest))

-- A pointer leads to a node or to one below it, through children.
pub data Inside (c : Pointer) : Pointer → Type 0 where
  itself : Inside c c
  below :
      (d n : GraphNode) (up : Pointer) → Inside c (n ∷ up) → IsForward d n → Inside c (d ∷ n ∷ up)

-- Two nodes are in or below two children of a container that is not concurrent, the first in the
-- earlier one.
pub data Before (a b : Pointer) : Type 0 where
  earlier :
      (c d p : GraphNode) (up : Pointer)
      → (info p).concurrent ≡ false
      → IsForward c p
      → IsForward d p
      → (info c).index < (info d).index
      → Inside (c ∷ p ∷ up) a
      → Inside (d ∷ p ∷ up) b
      → Before a b

pub Inside-trans : {a b c : Pointer} → Inside a b → Inside b c → Inside a c
Inside-trans i itself = i
Inside-trans i (below d n up j f) = below d n up (Inside-trans i j) f

pub Inside-child :
    (c n : GraphNode) (up : Pointer) {x : Pointer}
    → IsForward c n
    → Inside (c ∷ n ∷ up) x
    → Inside (n ∷ up) x
Inside-child c n up f i = Inside-trans (below c n up itself f) i

pub Before-Inside : {a b c : Pointer} → Before a b → Inside b c → Before a c
Before-Inside (earlier c d p up o f g less i j) k = earlier c d p up o f g less i (Inside-trans j k)

-- What leads below a node leads to it, or to or below one of its children.
pub Inside-cases :
    (n : GraphNode) (up : Pointer) {x : Pointer}
    → Inside (n ∷ up) x
    → (x ≡ n ∷ up) ⊎ ((d : GraphNode) × IsForward d n × Inside (d ∷ n ∷ up) x)
Inside-cases n up itself = inl refl
Inside-cases n up (below d m up' i f) = elim (Inside-cases n up i) [
  | inl e ↦ inr (step d m up' e f)
  | inr (d', f', i') ↦ inr (d', f', below d m up' i' f)
]
  where
    step :
        (d m : GraphNode) (up' : Pointer)
        → m ∷ up' ≡ n ∷ up
        → IsForward d m
        → (d' : GraphNode) × IsForward d' n × Inside (d' ∷ n ∷ up) (d ∷ m ∷ up')
    step d m up' e f =
        let mn : m ≡ n = cc in
        (d, subst (IsForward d) mn f, subst (λ u. Inside (d ∷ u) (d ∷ m ∷ up')) e itself)

-- The containers of a pointer's node, none of which is a step, and a node without children, or a step.
abbrev pub NoSteps : Pointer → Type 0
NoSteps up = All (λ (n : GraphNode). is_step n ≡ false) up

abbrev pub containers : Pointer → Pointer
containers [] = []
containers (n ∷ up) = up

abbrev pub IsLast : Pointer → Type 0
IsLast [] = ⊥
IsLast (n ∷ up) = (is_step n ≡ true) ⊎ (children n ≡ no_more)

abbrev pub Leaf : Pointer → Type 0
Leaf p = IsLast p × NoSteps (containers p)

pub Inside-no_step :
    {d n : GraphNode} {up x : Pointer}
    → Inside (d ∷ n ∷ up) x
    → NoSteps (containers x)
    → is_step n ≡ false
Inside-no_step itself h = h.0
Inside-no_step (below d' m up' i f) h = Inside-no_step i h.1

-- The children from a position on, by one step and in a placed node.
pub drop_children-IsPlaced :
    (k j : ℕ) (all : Children) (e : GraphNode) (es : Children)
    → ArePlaced j all
    → drop_children k all ≡ child_then e es
    → ((info e).index ≡ k + j) × (is_rollback e ≡ false) × IsPlaced e
unfolding drop_children ArePlaced
drop_children-IsPlaced zero j no_more e es p h = cc
drop_children-IsPlaced (suc k) j no_more e es p h = cc
drop_children-IsPlaced zero j (child_then c cs) e es (i, r, q, ps) h =
    let same : c ≡ e = cc in
    let z : 0 + j ≡ j = omega arith in
    subst (λ n. ((info n).index ≡ 0 + j) × (is_rollback n ≡ false) × IsPlaced n) same
      (i ∙ sym z, r, q)
drop_children-IsPlaced (suc k) j (child_then c cs) e es (i, r, q, ps) h =
    let (a, b, d) = drop_children-IsPlaced k (suc j) cs e es ps h in
    let z : k + suc j ≡ suc k + j = omega arith in (a ∙ z, b, d)

-- A child stands before each later one.
pub drop_children-before :
    (k : ℕ) (all : Children) (d : GraphNode) (rest : Children)
    → drop_children (suc k) all ≡ child_then d rest
    → (e : GraphNode) × (drop_children k all ≡ child_then e (child_then d rest))
unfolding drop_children
drop_children-before zero no_more d rest h = cc
drop_children-before (suc k) no_more d rest h = cc
drop_children-before zero (child_then c cs) d rest h = (c, ap (child_then c) h)
drop_children-before (suc k) (child_then c cs) d rest h = drop_children-before k cs d rest h

-- Nothing stands behind the end.
pub drop_children-end :
    (k m : ℕ) (all : Children) → drop_children k all ≡ no_more → drop_children (m + k) all ≡ no_more
unfolding drop_children
drop_children-end zero m no_more h = drop_none (m + 0)
  where
    drop_none : (j : ℕ) → drop_children j no_more ≡ no_more
    drop_none zero = refl
    drop_none (suc j) = refl
drop_children-end zero m (child_then c cs) h = cc
drop_children-end (suc k) m no_more h =
    let z : suc (m + k) ≡ m + suc k = omega arith in
    subst (λ j. drop_children j no_more ≡ no_more) z refl
drop_children-end (suc k) m (child_then c cs) h =
    let z : suc (m + k) ≡ m + suc k = omega arith in
    subst (λ j. drop_children j (child_then c cs) ≡ no_more) z (drop_children-end k m cs h)

pub IsForward-at :
    (n d : GraphNode) (k : ℕ) (rest : Children)
    → IsPlaced n
    → drop_children k (children n) ≡ child_then d rest
    → IsForward d n × ((info d).index ≡ k) × IsPlaced d
unfolding IsPlaced
IsForward-at (graph_node i cs rb) d k rest placed h =
    let (a, b, q) = drop_children-IsPlaced k 0 cs d rest placed.0 h in
    let z : k + 0 ≡ k = omega arith in
    let at : (info d).index ≡ k = a ∙ z in
    ((b, (rest, subst (λ j. drop_children j cs ≡ child_then d rest) (sym at) h)), at, q)
