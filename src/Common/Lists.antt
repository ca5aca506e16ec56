-- ===== src/Common/Lists.antt =====
-- Lists measured and indexed by native numbers, membership and quantification by recursion, and
-- the composition of a list of functions that loops over it from its last element to its first.
use Prim.Native.Nat.{ℕ, zero, suc}
use mathlib.Core.Path.{◌≡◌, refl}
use mathlib.Core.Logic.{◌⊎◌, ◌↔◌, inl, inr}
use mathlib.Core.List.{List, [], ◌∷◌, ◌++◌, reverse, reverse-cons, reverse-append, map}
use mathlib.Core.Option.{Option, none, some}

module _ {ℓ} {A : Type ℓ} where
  abbrev pub length : List A → ℕ
  length [] = 0
  length (x ∷ xs) = suc (length xs)

  abbrev pub get_elem? : List A → ℕ → Option A
  get_elem? [] i = none
  get_elem? (x ∷ xs) zero = some x
  get_elem? (x ∷ xs) (suc i) = get_elem? xs i

  -- A write out of bounds changes nothing.
  abbrev pub set : List A → ℕ → A → List A
  set [] i v = []
  set (x ∷ xs) zero v = v ∷ xs
  set (x ∷ xs) (suc i) v = x ∷ set xs i v

  pub get_elem?-append_last : (xs : List A) (a : A) → get_elem? (xs ++ a ∷ []) (length xs) ≡ some a
  get_elem?-append_last [] a = refl
  get_elem?-append_last (x ∷ xs) a = get_elem?-append_last xs a

  pub get_elem?-set_self :
      (xs : List A) (i : ℕ) (v w : A) → get_elem? xs i ≡ some w → get_elem? (set xs i v) i ≡ some v
  get_elem?-set_self [] i v w h = cc
  get_elem?-set_self (x ∷ xs) zero v w h = refl
  get_elem?-set_self (x ∷ xs) (suc i) v w h = get_elem?-set_self xs i v w h

-- Membership, computed to a sum.
abbrev pub Elem : {A : Type 0} → A → List A → Type 0
Elem a [] = ⊥
Elem a (x ∷ xs) = (x ≡ a) ⊎ Elem a xs

module _ {ℓ κ} {A : Type ℓ} (P : A → Type κ) where
  abbrev pub All : List A → Type κ
  All [] = Unit
  All (x ∷ xs) = P x × All xs

-- Some element satisfies the predicate.
module _ {ℓ} {A : Type ℓ} (P : A → Type 0) where
  abbrev pub Some : List A → Type 0
  Some [] = ⊥
  Some (x ∷ xs) = P x ⊎ Some xs

module _ {ℓ} {A : Type ℓ} where
  pub append-eq-nil_iff : (xs ys : List A) → (xs ++ ys ≡ []) ↔ ((xs ≡ []) × (ys ≡ []))
  append-eq-nil_iff [] ys = (λ h. (refl, h), λ h. h.1)
  append-eq-nil_iff (x ∷ xs) ys = (λ h. cc, λ (h, _). cc)

  pub map-eq-nil_iff : {B : Type 0} (f : A → B) (xs : List A) → (map f xs ≡ []) ↔ (xs ≡ [])
  map-eq-nil_iff f [] = (λ h. refl, λ h. refl)
  map-eq-nil_iff f (x ∷ xs) = (λ h. cc, λ h. cc)

  pub All-append : (P : A → Type 0) (xs ys : List A) → All P xs → All P ys → All P (xs ++ ys)
  All-append P [] ys h k = k
  All-append P (x ∷ xs) ys (p, h) k = (p, All-append P xs ys h k)

  pub All-map :
      {B : Type 0} (P : B → Type 0) (f : A → B) (xs : List A)
      → All (λ x. P (f x)) xs
      → All P (map f xs)
  All-map P f [] h = tt
  All-map P f (x ∷ xs) (p, h) = (p, All-map P f xs h)

  pub All-imp : (P Q : A → Type 0) (xs : List A) → ((x : A) → P x → Q x) → All P xs → All Q xs
  All-imp P Q [] f h = tt
  All-imp P Q (x ∷ xs) f (p, h) = (f x p, All-imp P Q xs f h)

  pub Some-imp : (P Q : A → Type 0) (xs : List A) → ((x : A) → P x → Q x) → Some P xs → Some Q xs
  Some-imp P Q [] f h = absurd h
  Some-imp P Q (x ∷ xs) f h = elim h [ inl p ↦ inl (f x p) | inr q ↦ inr (Some-imp P Q xs f q) ]

  -- The loop `for i := len(fs) - 1; i >= 0; i-- { a = fs[i](a) }` over the reversed list.
  pub compose_loop : A → List (A → A) → A
  compose_loop a [] = a
  compose_loop a (f ∷ fs) = compose_loop (f a) fs

  unfoldable pub compose : A → List (A → A) → A
  unfolding compose_loop
  compose a fs = compose_loop a (reverse fs)

  pub compose-nil : (a : A) → compose a [] ≡ a
  unfolding compose
  compose-nil a = refl

  compose_loop-append :
      (a : A) (fs gs : List (A → A))
      → compose_loop a (fs ++ gs) ≡ compose_loop (compose_loop a fs) gs
  unfolding compose_loop
  compose_loop-append a [] gs = refl
  compose_loop-append a (f ∷ fs) gs = compose_loop-append (f a) fs gs

  -- The first function of the list is applied last: it is the outermost.
  pub compose-cons : (a : A) (f : A → A) (fs : List (A → A)) → compose a (f ∷ fs) ≡ f (compose a fs)
  unfolding compose
  compose-cons a f fs = rw reverse-cons (compose_loop-append a (reverse fs) (f ∷ []))

  pub compose-append :
      (a : A) (fs gs : List (A → A)) → compose a (fs ++ gs) ≡ compose (compose a gs) fs
  unfolding compose
  compose-append a fs gs = rw reverse-append (compose_loop-append a (reverse gs) (reverse fs))

pub Elem-append :
    {A : Type 0} (a : A) (xs ys : List A) → Elem a (xs ++ ys) ↔ (Elem a xs ⊎ Elem a ys)
Elem-append a [] ys = (inr, λ h. elim h [ inl e ↦ absurd e | inr e ↦ e ])
Elem-append a (x ∷ xs) ys =
    let (to, from) = Elem-append a xs ys in
    (
      λ h. elim h [
        | inl e ↦ inl (inl e)
        | inr e ↦ elim (to e) [ inl f ↦ inl (inr f) | inr f ↦ inr f ]
      ],
      λ h. elim h [
        | inl e ↦ elim e [ inl f ↦ inl f | inr f ↦ inr (from (inl f)) ]
        | inr f ↦ inr (from (inr f))
      ],
    )
