-- ===== src/Pipeline/Products.antt =====
-- verifier/pipeline/graph.go: the two ways in which the instances of a matrix get their indices.
use Prim.Native.String
use zero_trust_service.Common.{
  ◌≡◌, refl, ap, ap₂, ◌∙◌, ℕ, suc, String, List, [], ◌∷◌, ◌++◌, map, length,
}
use zero_trust_service.Pipeline.Suffixes.{
  index_suffix, range_from, extend_product, product_loop, product_suffixes, Axis, Combo,
  extend_combo, extend_combos, combos_loop, not_excluded, matches_any_exclude, matrix_combos,
}

abbrev index_piece : ℕ → String → String
index_piece i val = index_suffix i

abbrev names : List Combo → List String
names combos = map (λ (c : Combo). c.0) combos

abbrev lengths : List Axis → List ℕ
lengths axes = map (λ (a : Axis). length a.vals) axes

names-append : (xs ys : List Combo) → names (xs ++ ys) ≡ names xs ++ names ys
names-append [] ys = refl
names-append (x ∷ xs) ys = ap (λ s. x.0 ∷ s) (names-append xs ys)

names-extend_combo :
    (name : String) (i : ℕ) (vals : List String) (c : Combo)
    → names (extend_combo index_piece name i vals c) ≡ range_from c.0 i (length vals)
unfolding extend_combo range_from
names-extend_combo name i [] c = refl
names-extend_combo name i (val ∷ vals) (suffix, chosen) =
    ap (λ s. String.◌++◌ suffix (index_suffix i) ∷ s)
      (names-extend_combo name (suc i) vals (suffix, chosen))

names-extend_combos :
    (axis : Axis) (combos : List Combo)
    → names (extend_combos index_piece axis combos)
      ≡ extend_product (length axis.vals) (names combos)
unfolding extend_combos extend_product
names-extend_combos axis [] = refl
names-extend_combos axis (c ∷ combos) =
    names-append (extend_combo index_piece axis.name 0 axis.vals c)
      (extend_combos index_piece axis combos)
    ∙ ap₂ (λ (s t : List String). s ++ t) (names-extend_combo axis.name 0 axis.vals c)
        (names-extend_combos axis combos)

names-combos_loop :
    (axes : List Axis) (combos : List Combo)
    → names (combos_loop index_piece axes combos) ≡ product_loop (lengths axes) (names combos)
unfolding combos_loop product_loop
names-combos_loop [] combos = refl
names-combos_loop (axis ∷ axes) combos =
    names-combos_loop axes (extend_combos index_piece axis combos)
    ∙ ap (product_loop (lengths axes)) (names-extend_combos axis combos)

nothing_excluded : (combos : List Combo) → not_excluded index_piece [] combos ≡ names combos
unfolding not_excluded matches_any_exclude
nothing_excluded [] = refl
nothing_excluded (c ∷ combos) = ap (λ s. c.0 ∷ s) (nothing_excluded combos)

-- Where nothing is excluded, the count of the values of each axis is enough: the product of the
-- index ranges gives the same suffixes, in the same order, as the combinations of the values.
pub matrix_combos-product_suffixes :
    (axes : List Axis)
    → matrix_combos index_piece axes [] ≡ product_suffixes (map (λ (a : Axis). length a.vals) axes)
unfolding matrix_combos product_suffixes
matrix_combos-product_suffixes axes =
    nothing_excluded (combos_loop index_piece axes (("", []) ∷ []))
    ∙ names-combos_loop axes (("", []) ∷ [])
