-- ===== src/Pipeline/Nodes.antt =====
-- verifier/pipeline/graph.go: that the nodes of a graph are told apart by their ways from the root,
-- by which the comparison of pointers is modelled.
use zero_trust_service.Common.{
  ◌≡◌, refl, ap, inl, inr, ℕ, zero, suc, Bool, true, false, ◌&&◌, [], ◌∷◌, arith,
}
use zero_trust_service.Pipeline.Graph.{GraphNode, Pointer, info, is_rollback}
use zero_trust_service.Pipeline.Rank.{IsChild, IsNode}
use zero_trust_service.Pipeline.Instances.{same_bool, same_index, same_node}

and_true : (a b : Bool) → (a && b) ≡ true → (a ≡ true) × (b ≡ true)
and_true a b h = ground arith

same_bool-eq : (a b : Bool) → same_bool a b ≡ true → a ≡ b
same_bool-eq a b h = ground arith

pub same_index-eq : (i j : ℕ) → same_index i j ≡ true → i ≡ j
same_index-eq zero zero h = refl
same_index-eq zero (suc j) h = cc
same_index-eq (suc i) zero h = cc
same_index-eq (suc i) (suc j) h = ap suc (same_index-eq i j h)

IsChild-eq :
    (a b x y : GraphNode)
    → IsChild a x
    → IsChild b y
    → x ≡ y
    → is_rollback a ≡ is_rollback b
    → (info a).index ≡ (info b).index
    → a ≡ b
IsChild-eq a b x y (inl (r, e)) (inl (s, f)) xy kind i = cc
IsChild-eq a b x y (inl (r, e)) (inr (s, f)) xy kind i = cc
IsChild-eq a b x y (inr (r, e)) (inl (s, f)) xy kind i = cc
IsChild-eq a b x y (inr (r, (rest, e))) (inr (s, (rest', f))) xy kind i = cc

same_node-parts :
    (a b : GraphNode) (up up' : Pointer)
    → same_node (a ∷ up) (b ∷ up') ≡ true
    → (is_rollback a ≡ is_rollback b)
      × ((info a).index ≡ (info b).index)
      × (same_node up up' ≡ true)
unfolding same_node
same_node-parts a b up up' h =
    let (k, h1) =
      and_true (same_bool (is_rollback a) (is_rollback b))
        (same_index (info a).index (info b).index && same_node up up') h in
    let (i, h2) = and_true (same_index (info a).index (info b).index) (same_node up up') h1 in
    (same_bool-eq _ _ k, same_index-eq _ _ i, h2)

-- Pointers to nodes of one graph that agree in their ways from the root are equal.
pub same_node-eq :
    (root : GraphNode) (p q : Pointer)
    → IsNode root p
    → IsNode root q
    → same_node p q ≡ true
    → p ≡ q
same_node-eq root [] [] u v h = refl
same_node-eq root [] (b ∷ up') u v h = unfold same_node in (cc)
same_node-eq root (a ∷ up) [] u v h = unfold same_node in (cc)
same_node-eq root (a ∷ []) (b ∷ []) (_, u, _) (_, v, _) h = cc
same_node-eq root (a ∷ []) (b ∷ y ∷ up') u v h =
    let (_, _, h2) = same_node-parts a b [] (y ∷ up') h in unfold same_node in (cc)
same_node-eq root (a ∷ x ∷ up) (b ∷ []) u v h =
    let (_, _, h2) = same_node-parts a b (x ∷ up) [] h in unfold same_node in (cc)
same_node-eq root (a ∷ x ∷ up) (b ∷ y ∷ up') (_, c, u) (_, d, v) h =
    let (k, i, h2) = same_node-parts a b (x ∷ up) (y ∷ up') h in
    let e = same_node-eq root (x ∷ up) (y ∷ up') u v h2 in
    let xy : x ≡ y = cc in let ab = IsChild-eq a b x y c d xy k i in cc

same_bool_refl : (a : Bool) → same_bool a a ≡ true
same_bool_refl true = refl
same_bool_refl false = refl

same_index_refl : (i : ℕ) → same_index i i ≡ true
same_index_refl zero = refl
same_index_refl (suc i) = same_index_refl i

pub same_node_refl : (p : Pointer) → same_node p p ≡ true
unfolding same_node
same_node_refl [] = refl
same_node_refl (a ∷ up) =
    rw (same_bool_refl (is_rollback a), same_index_refl (info a).index) (same_node_refl up)
