-- ===== src/Pipeline/Named.antt =====
-- verifier/pipeline/graph.go: a predicate of the nodes that are registered holds of those that the
-- maps of a graph and `lookup` give.
use Prim.Native.String
use zero_trust_service.Common.Texts.{split, index_byte, cuts}
use zero_trust_service.Common.{
  String, Bool, true, false, Option, none, some, List, [], ◌∷◌, ◌++◌, All, All-append, ◌==◌, ◌||◌,
  if◌then◌else◌, is_some, lookup, insert, contains,
}
use zero_trust_service.Pipeline.Graph.{Pointer, fqn_of}
use zero_trust_service.Pipeline.Instances.{instance_fqns}
use zero_trust_service.Pipeline.Lookup.{
  PipelineGraph, Walk, strategy_of, is_positive, take_cut, strip, walk_segment, walk_segments,
  whole, or_walk, lookup_node,
}
use zero_trust_service.Pipeline.Assemble.{
  NodeMap, register_all, remove_key, index_instance, index_names, index_instances, names_or_nil,
}

-- The second result of a map, where there is one.
abbrev pub Given : (Pointer → Type 0) → Option Pointer → Type 0
Given P none = Unit
Given P (some n) = P n

module _ (P : Pointer → Type 0) where
  -- Each node of a map.
  abbrev pub Maps : NodeMap → Type 0
  Maps m = All (λ (e : String × Pointer). P e.1) m

  Given-if :
      (b : Bool) (x y : Option Pointer) → Given P x → Given P y → Given P (if b then x else y)
  Given-if true x y p q = p
  Given-if false x y p q = q

  Given-lookup : (key : String) (m : NodeMap) → Maps m → Given P (lookup key m)
  unfolding lookup
  Given-lookup key [] h = tt
  Given-lookup key ((k, n) ∷ m) (p, h) =
      Given-if (k == key) (some n) (lookup key m) p (Given-lookup key m h)

  Maps-if : (b : Bool) (m m' : NodeMap) → Maps m → Maps m' → Maps (if b then m else m')
  Maps-if true m m' h h' = h
  Maps-if false m m' h h' = h'

  Maps-insert : (key : String) (n : Pointer) (m : NodeMap) → P n → Maps m → Maps (insert key n m)
  unfolding insert
  Maps-insert key n [] p h = (p, tt)
  Maps-insert key n ((k, n') ∷ m) p (p', h) =
      Maps-if (k == key) ((key, n) ∷ m) ((k, n') ∷ insert key n m) (p, h)
        (p', Maps-insert key n m p h)

  Maps-remove : (key : String) (m : NodeMap) → Maps m → Maps (remove_key key m)
  unfolding remove_key
  Maps-remove key [] h = tt
  Maps-remove key ((k, n) ∷ m) (p, h) =
      All-append (λ (e : String × Pointer). P e.1) (if k == key then [] else (k, n) ∷ [])
        (remove_key key m) (Maps-if (k == key) [] ((k, n) ∷ []) tt (p, tt)) (Maps-remove key m h)

  pub Maps-register :
      (nodes : List Pointer) (m : NodeMap) (duplicates : List String)
      → All P nodes
      → Maps m
      → Maps (register_all nodes m duplicates).0
  unfolding register_all
  Maps-register [] m duplicates ps h = h
  Maps-register (n ∷ nodes) m duplicates (p, ps) h =
      Maps-register nodes (insert (fqn_of n) n m) _ ps (Maps-insert (fqn_of n) n m p h)

  module _ (by_fqn : NodeMap) where
    Maps-instance :
        (n : Pointer) (inst : String) (insts : NodeMap) (ambiguous : List String)
        → P n
        → Maps insts
        → Maps (index_instance by_fqn n inst insts ambiguous).0
    unfolding index_instance
    Maps-instance n inst insts ambiguous p h =
        pair_if (inst == fqn_of n || is_some (lookup inst by_fqn) || contains inst ambiguous)
          (insts, ambiguous) _ h
          (pair_if (is_some (lookup inst insts)) (remove_key inst insts, ambiguous ++ inst ∷ [])
            (insert inst n insts, ambiguous) (Maps-remove inst insts h)
            (Maps-insert inst n insts p h))
      where
        pair_if :
            (b : Bool) (x y : NodeMap × List String)
            → Maps x.0
            → Maps y.0
            → Maps (if b then x else y).0
        pair_if true x y u v = u
        pair_if false x y u v = v

    Maps-names :
        (n : Pointer) (names : List String) (insts : NodeMap) (ambiguous : List String)
        → P n
        → Maps insts
        → Maps (index_names by_fqn n names insts ambiguous).0
    unfolding index_names
    Maps-names n [] insts ambiguous p h = h
    Maps-names n (inst ∷ names) insts ambiguous p h =
        Maps-names n names _ _ p (Maps-instance n inst insts ambiguous p h)

    pub Maps-index :
        (nodes insts : NodeMap) (ambiguous : List String)
        → Maps nodes
        → Maps insts
        → Maps (index_instances by_fqn nodes insts ambiguous)
    unfolding index_instances
    Maps-index [] insts ambiguous h k = k
    Maps-index ((key, n) ∷ nodes) insts ambiguous (p, h) k =
        Maps-index nodes _ _ h (Maps-names n (names_or_nil (instance_fqns n)) insts ambiguous p k)

  module _ (g : PipelineGraph) (named : Maps g.by_fqn) (instances : Maps g.inst_by_fqn) where
    walk_if : (b : Bool) (x y : Walk g) → Given P x.1 → Given P y.1 → Given P (if b then x else y).1
    walk_if true x y u v = u
    walk_if false x y u v = v

    Given-take_cut :
        (prefix seg : String) (o : Option Pointer) (other : Walk g)
        → Given P o
        → Given P other.1
        → Given P (take_cut g prefix seg o other).1
    unfolding take_cut
    Given-take_cut prefix seg none other u v = v
    Given-take_cut prefix seg (some n) other u v =
        walk_if (strategy_of n) (String.◌++◌ prefix seg, some n) other u v

    Given-strip :
        (prefix : String) (segs : List String) (walk : Walk g)
        → Given P walk.1
        → Given P (strip g prefix segs walk).1
    unfolding strip
    Given-strip prefix [] walk h = h
    Given-strip prefix (seg ∷ segs) walk h =
        Given-take_cut prefix seg _ (strip g prefix segs walk)
          (Given-lookup (String.◌++◌ prefix seg) g.by_fqn named) (Given-strip prefix segs walk h)

    Given-segment :
        (prefix s : String) (last o : Option Pointer)
        → Given P last
        → Given P o
        → Given P (walk_segment g prefix s last o).1
    unfolding walk_segment
    Given-segment prefix s last none u v =
        walk_if (is_positive (index_byte b'_' s)) _ (String.◌++◌ prefix s, last)
          (Given-strip prefix (cuts b'_' s) (String.◌++◌ prefix s, last) u) u
    Given-segment prefix s last (some n) u v = v

    Given-segments :
        (segs : List String) (walk : Walk g)
        → Given P walk.1
        → Given P (walk_segments g segs walk).1
    unfolding walk_segments
    Given-segments [] walk h = h
    Given-segments (s ∷ segs) (cand, last) h =
        let prefix = if cand == "" then "" else String.◌++◌ cand "." in
        Given-segments segs _ (
          Given-segment prefix s last (lookup (String.◌++◌ prefix s) g.by_fqn) h
            (Given-lookup (String.◌++◌ prefix s) g.by_fqn named))

    Given-whole : (walk : Walk g) → Given P walk.1 → Given P (whole g walk)
    unfolding whole
    Given-whole (cand, none) h = tt
    Given-whole (cand, some n) h = Given-if (fqn_of n == cand) (some n) none h tt

    Given-or_walk :
        (fqn : String) (o o' : Option Pointer)
        → Given P o
        → Given P o'
        → Given P (or_walk g fqn o o')
    unfolding or_walk
    Given-or_walk fqn (some n) o' u v = u
    Given-or_walk fqn none (some n) u v = v
    Given-or_walk fqn none none u v = Given-whole _ (Given-segments (split b'.' fqn) ("", none) tt)

    -- A node that the lookup finds is one of the maps.
    pub lookup_node_named : (fqn : String) → Given P (lookup_node g fqn)
    unfolding lookup_node
    lookup_node_named fqn =
        Given-or_walk fqn (lookup fqn g.by_fqn) (lookup fqn g.inst_by_fqn)
          (Given-lookup fqn g.by_fqn named) (Given-lookup fqn g.inst_by_fqn instances)
