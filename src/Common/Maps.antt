-- ===== src/Common/Maps.antt =====
-- Go maps with string keys, as association lists: a lookup finds the first entry, an assignment
-- overwrites it in place or adds one at the end. A `map[string]struct{}` is a list of its keys.
use Prim.Native.String
use Prim.Native.String.{String}
use mathlib.Core.Path.{◌≡◌, refl}
use mathlib.Core.Logic.{◌↔◌}
use mathlib.Core.Bool.{Bool, true, false, ◌||◌}
use mathlib.Core.List.{List, [], ◌∷◌, ◌++◌}
use mathlib.Core.Option.{Option, none, some}
use native.Mathlib.Omega.{arith}
use text.Mathlib.Text.{◌==◌}
use text.Mathlib.TextEquality.{eq_iff}
use zero_trust_service.Common.Tests.{if◌then◌else◌}
use zero_trust_service.Common.Lists.{Elem}

module _ {ℓ} {V : Type ℓ} where
  -- `m[key]`, with the second result of the comma-ok form as the option.
  unfoldable pub lookup : String → List (String × V) → Option V
  lookup key [] = none
  lookup key ((other, value) ∷ rest) = if other == key then some value else lookup key rest

  -- `m[key] = value`.
  unfoldable pub insert : String → V → List (String × V) → List (String × V)
  insert key value [] = (key, value) ∷ []
  insert key value (entry ∷ rest) =
      if entry.0 == key then (key, value) ∷ rest else entry ∷ insert key value rest

module _ {ℓ} {V : Type ℓ} where
  -- A read after a write finds the value written under its key, and else what was there.
  pub read_after_write :
      (written read : String) (new : V) (table : List (String × V))
      → lookup read (insert written new table)
        ≡ (if written == read then some new else lookup read table)
  unfolding insert lookup
  read_after_write written read new [] = refl
  read_after_write written read new ((at, old) ∷ table) =
      let tail = read_after_write written read new table in
      ground (tail, arith, eq_iff at read, eq_iff at written, eq_iff written read)

unfoldable pub contains : String → List String → Bool
contains k [] = false
contains k (j ∷ s) = j == k || contains k s

-- The loop `for _, k := range keys { set[k] = struct{}{} }`.
unfoldable pub add_all : List String → List String → List String
unfolding contains
add_all s [] = s
add_all s (k ∷ ks) = add_all (if contains k s then s else s ++ k ∷ []) ks

pub contains_iff : (k : String) (s : List String) → (contains k s ≡ true) ↔ Elem k s
unfolding contains
contains_iff k [] = ground arith
contains_iff k (j ∷ s) = ground (arith, eq_iff j k, contains_iff k s)

contains-append :
    (k : String) (s t : List String) → contains k (s ++ t) ≡ (contains k s || contains k t)
unfolding contains
contains-append k [] t = refl
contains-append k (j ∷ s) t = ground (arith, contains-append k s t)

pub add-contains :
    (k j : String) (s : List String)
    → contains k (if contains j s then s else s ++ j ∷ []) ≡ (contains k s || j == k)
unfolding contains
add-contains k j s =
    ground (arith, eq_iff j k, contains-append k s (j ∷ []), contains_iff k s, contains_iff j s)

-- A key is in the set exactly when it was there or is one of those added.
pub contains-add_all :
    (k : String) (s ks : List String) → contains k (add_all s ks) ≡ (contains k s || contains k ks)
unfolding add_all contains
contains-add_all k s [] = ground arith
contains-add_all k s (j ∷ ks) =
    ground
      (arith, add-contains k j s, contains-add_all k (if contains j s then s else s ++ j ∷ []) ks)

-- The set of the keys that a loop adds to an empty one.
pub Elem-add_all_iff :
    (k : String) (ks : List String) → (contains k (add_all [] ks) ≡ true) ↔ Elem k ks
unfolding contains
Elem-add_all_iff k ks = ground (arith, contains-add_all k [] ks, contains_iff k ks)

-- The pieces of a text, joined.
abbrev pub join : List String → String
join [] = ""
join (s ∷ rest) = String.◌++◌ s (join rest)
