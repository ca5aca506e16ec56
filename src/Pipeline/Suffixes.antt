-- ===== src/Pipeline/Suffixes.antt =====
-- verifier/pipeline/graph.go: the suffixes of the runtime instances of a matrix, a repetition or a
-- count.
use Prim.Native.String
use zero_trust_service.Common.{
  ℕ, zero, suc, String, Bool, true, false, Option, none, some, List, [], ◌∷◌, ◌++◌, ◌==◌, ◌&&◌,
  ◌||◌, if◌then◌else◌, lookup, insert, contains,
}
use zero_trust_service.Common.Texts.{itoa, only_alphanumeric, truncate, less}
use zero_trust_service.Pipeline.Model.{fanout_custom_names}
use zero_trust_service.Pipeline.Graph.{StrategySpec}

-- A spec that is not enumerable, with its cause.
abbrev pub spec_with_status : String → StrategySpec
spec_with_status status = record { known = false; suffixes = []; status = status; excluded = false }

abbrev pub spec_known : List String → StrategySpec
spec_known suffixes = record { known = true; suffixes = suffixes; status = ""; excluded = false }

-- `enumerated`.
unfoldable pub enumerated : List String → StrategySpec
enumerated [] = record { known = false; suffixes = []; status = ""; excluded = true }
enumerated (s ∷ suffixes) = spec_known (s ∷ suffixes)

-- The suffix of an index.
abbrev pub index_suffix : ℕ → String
index_suffix i = String.◌++◌ "_" (itoa i)

-- The loop `for i := range n`, from `i` on, of the suffixes behind `prefix`.
unfoldable pub range_from : String → ℕ → ℕ → List String
range_from prefix i zero = []
range_from prefix i (suc n) = String.◌++◌ prefix (index_suffix i) ∷ range_from prefix (suc i) n

-- `rangeSuffixes`.
unfoldable pub range_suffixes : ℕ → List String
unfolding range_from
range_suffixes n = range_from "" 0 n

unfoldable pub extend_product : ℕ → List String → List String
unfolding range_from
extend_product n [] = []
extend_product n (c ∷ combos) = range_from c 0 n ++ extend_product n combos

unfoldable pub product_loop : List ℕ → List String → List String
unfolding extend_product
product_loop [] combos = combos
product_loop (n ∷ lens) combos = product_loop lens (extend_product n combos)

-- `productSuffixes`.
unfoldable pub product_suffixes : List ℕ → List String
unfolding product_loop
product_suffixes lens = product_loop lens ("" ∷ [])

-- `mAxis`.
pub record Axis : Type 0 where
  pub name : String
  pub vals : List String

-- `combo`, with the map of its values.
abbrev pub Combo : Type 0
Combo = String × List (String × String)

abbrev pub value_of : String → List (String × String) → String
value_of key vals = elim (lookup key vals) [ none ↦ "" | some v ↦ v ]

matches_exclude : List (String × String) → List (String × String) → Bool
unfolding lookup
matches_exclude vals [] = true
matches_exclude vals ((k, v) ∷ exclude) = value_of k vals == v && matches_exclude vals exclude

-- `matchesAnyExclude`.
unfoldable pub matches_any_exclude : List (String × String) → List (List (String × String)) → Bool
unfolding matches_exclude
matches_any_exclude vals [] = false
matches_any_exclude vals (exclude ∷ excludes) =
    matches_exclude vals exclude || matches_any_exclude vals excludes

module _ (piece : ℕ → String → String) where
  unfoldable pub extend_combo : String → ℕ → List String → Combo → List Combo
  unfolding insert
  extend_combo name i [] c = []
  extend_combo name i (val ∷ vals) (suffix, chosen) =
      (String.◌++◌ suffix (piece i val), insert name val chosen)
      ∷ extend_combo name (suc i) vals (suffix, chosen)

  unfoldable pub extend_combos : Axis → List Combo → List Combo
  unfolding extend_combo
  extend_combos axis [] = []
  extend_combos axis (c ∷ combos) =
      extend_combo axis.name 0 axis.vals c ++ extend_combos axis combos

  unfoldable pub combos_loop : List Axis → List Combo → List Combo
  unfolding extend_combos
  combos_loop [] combos = combos
  combos_loop (axis ∷ axes) combos = combos_loop axes (extend_combos axis combos)

  unfoldable pub not_excluded : List (List (String × String)) → List Combo → List String
  unfolding matches_any_exclude
  not_excluded excludes [] = []
  not_excluded excludes (c ∷ combos) =
      (if matches_any_exclude c.1 excludes then [] else c.0 ∷ []) ++ not_excluded excludes combos

  -- `matrixCombos`.
  unfoldable pub matrix_combos : List Axis → List (List (String × String)) → List String
  unfolding combos_loop not_excluded
  matrix_combos axes excludes = not_excluded excludes (combos_loop axes (("", []) ∷ []))

-- `sort.Slice` by the names of the axes, which differ, being the keys of one mapping.
insert_axis : Axis → List Axis → List Axis
insert_axis a [] = a ∷ []
insert_axis a (b ∷ axes) = if less b.name a.name then b ∷ insert_axis a axes else a ∷ b ∷ axes

sort_axes : List Axis → List Axis
unfolding insert_axis
sort_axes [] = []
sort_axes (a ∷ axes) = insert_axis a (sort_axes axes)

abbrev pub max_matrix_suffix_len : ℕ
max_matrix_suffix_len = 127

-- The loop that caps the suffixes; none where two of them are equal.
unfoldable pub cap_suffixes : List String → List String → Option (List String)
unfolding truncate contains
cap_suffixes seen [] = some seen
cap_suffixes seen (s ∷ raw) =
    let capped = truncate max_matrix_suffix_len s in
    let rest = cap_suffixes (seen ++ capped ∷ []) raw in if contains capped seen then none else rest

unfoldable pub capped_spec : Option (List String) → StrategySpec
unfolding enumerated
capped_spec none = spec_with_status fanout_custom_names
capped_spec (some suffixes) = enumerated suffixes

-- The piece of a value in a name.
abbrev pub value_piece : ℕ → String → String
value_piece i val = String.◌++◌ "_" (only_alphanumeric val)

-- `matrixValueSuffixes`.
unfoldable pub matrix_value_suffixes : List Axis → List (List (String × String)) → StrategySpec
unfolding cap_suffixes capped_spec sort_axes matrix_combos only_alphanumeric
matrix_value_suffixes axes excludes =
    capped_spec (cap_suffixes [] (matrix_combos value_piece (sort_axes axes) excludes))
