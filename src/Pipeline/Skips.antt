-- ===== src/Pipeline/Skips.antt =====
-- verifier/pipeline/evaluate.go: `guardSkip`, which tells whether a node is skipped by one of its
-- guards. The node is given by its FQN and the `when` of itself and of each container, outwards.
use zero_trust_service.Common.{
  ◌≡◌, refl, ◌↔◌, ◌⊎◌, inl, inr, String, Bool, true, false, Option, none, some, List, [], ◌∷◌, All,
  Some,
}
use zero_trust_service.Fault.{Result, ok, err}
use zero_trust_service.Pipeline.Model.{When}
use zero_trust_service.Pipeline.Violations.{ConditionFunc, ConditionUnknownViolation}
use zero_trust_service.Pipeline.Gates.{new_condition_unknown_violation}

abbrev pub Skip : Type 0
Skip = Bool × Option ConditionUnknownViolation

-- `if firstUnknown == nil { firstUnknown = … }`.
abbrev pub first_of :
    Option ConditionUnknownViolation → ConditionUnknownViolation → Option ConditionUnknownViolation
first_of none u = some u
first_of (some first) u = some first

-- A guard, where there is one, has this result.
abbrev pub Gives : ConditionFunc → Result Bool → Option When → Type 0
Gives cond r none = ⊥
Gives cond r (some w) = cond w ≡ r

abbrev pub Passes : ConditionFunc → Option When → Type 0
Passes cond none = Unit
Passes cond (some w) = cond w ≡ ok true

module _ (quote : String → String) (fqn : String) where
  -- One turn of the loop for a guard, and the rest of the loop for each first unknown guard.
  unfoldable pub skip_turn :
      When
      → Result Bool
      → Option ConditionUnknownViolation
      → (Option ConditionUnknownViolation → Skip)
      → Skip
  skip_turn w (err e) first rest =
      rest (first_of first (new_condition_unknown_violation quote fqn w e))
  skip_turn w (ok true) first rest = rest first
  skip_turn w (ok false) first rest = (true, none)

  unfoldable pub skip_loop :
      ConditionFunc → List (Option When) → Option ConditionUnknownViolation → Skip
  unfolding skip_turn
  skip_loop cond [] first = (false, first)
  skip_loop cond (none ∷ guards) first = skip_loop cond guards first
  skip_loop cond (some w ∷ guards) first = skip_turn w (cond w) first (skip_loop cond guards)

  -- `guardSkip`.
  unfoldable pub guard_skip : List (Option When) → ConditionFunc → Skip
  unfolding skip_loop
  guard_skip guards cond = skip_loop cond guards none

  skip_turn-skipped_iff :
      {P : Type 0} (w : When) (r : Result Bool) (first : Option ConditionUnknownViolation)
      (rest : Option ConditionUnknownViolation → Skip)
      → ((f : Option ConditionUnknownViolation) → ((rest f).0 ≡ true) ↔ P)
      → ((skip_turn w r first rest).0 ≡ true) ↔ ((r ≡ ok false) ⊎ P)
  unfolding skip_turn
  skip_turn-skipped_iff w (err e) first rest ih =
      (λ h. inr ((ih _).0 h), λ h. elim h [ inl x ↦ cc | inr x ↦ (ih _).1 x ])
  skip_turn-skipped_iff w (ok true) first rest ih =
      (λ h. inr ((ih _).0 h), λ h. elim h [ inl x ↦ cc | inr x ↦ (ih _).1 x ])
  skip_turn-skipped_iff w (ok false) first rest ih = (λ h. inl refl, λ h. refl)

  skip_loop-skipped_iff :
      (cond : ConditionFunc) (guards : List (Option When))
      (first : Option ConditionUnknownViolation)
      → ((skip_loop cond guards first).0 ≡ true) ↔ Some (Gives cond (ok false)) guards
  unfolding skip_loop
  skip_loop-skipped_iff cond [] first = (λ h. cc, λ h. absurd h)
  skip_loop-skipped_iff cond (none ∷ guards) first =
      let (to, from) = skip_loop-skipped_iff cond guards first in
      (λ h. inr (to h), λ h. elim h [ inl x ↦ absurd x | inr x ↦ from x ])
  skip_loop-skipped_iff cond (some w ∷ guards) first =
      skip_turn-skipped_iff w (cond w) first (skip_loop cond guards)
        (λ f. skip_loop-skipped_iff cond guards f)

  -- A node is skipped exactly when some guard of it or of a container evaluates and does not hold,
  -- whatever the guards before and behind it gave.
  pub guard_skip-skipped_iff :
      (guards : List (Option When)) (cond : ConditionFunc)
      → ((guard_skip guards cond).0 ≡ true) ↔ Some (Gives cond (ok false)) guards
  unfolding guard_skip
  guard_skip-skipped_iff guards cond = skip_loop-skipped_iff cond guards none

  skip_turn-known :
      (w : When) (r : Result Bool) (u : ConditionUnknownViolation)
      (rest : Option ConditionUnknownViolation → Skip)
      → ((rest (some u)).1 ≡ none → (rest (some u)).0 ≡ true)
      → (skip_turn w r (some u) rest).1 ≡ none
      → (skip_turn w r (some u) rest).0 ≡ true
  unfolding skip_turn
  skip_turn-known w (err e) u rest ih h = ih h
  skip_turn-known w (ok true) u rest ih h = ih h
  skip_turn-known w (ok false) u rest ih h = refl

  -- Once a guard could not be evaluated, only a skip takes that back.
  skip_loop-known :
      (cond : ConditionFunc) (guards : List (Option When)) (u : ConditionUnknownViolation)
      → (skip_loop cond guards (some u)).1 ≡ none
      → (skip_loop cond guards (some u)).0 ≡ true
  unfolding skip_loop
  skip_loop-known cond [] u h = cc
  skip_loop-known cond (none ∷ guards) u h = skip_loop-known cond guards u h
  skip_loop-known cond (some w ∷ guards) u h =
      skip_turn-known w (cond w) u (skip_loop cond guards) (skip_loop-known cond guards u) h

  abbrev pub IsGated : Skip → Type 0
  IsGated s = (s.0 ≡ false) × (s.1 ≡ none)

  skip_turn-IsGated_iff :
      {P : Type 0} (w : When) (r : Result Bool) (rest : Option ConditionUnknownViolation → Skip)
      → ((u : ConditionUnknownViolation) → (rest (some u)).1 ≡ none → (rest (some u)).0 ≡ true)
      → (IsGated (rest none) ↔ P)
      → IsGated (skip_turn w r none rest) ↔ ((r ≡ ok true) × P)
  unfolding skip_turn
  skip_turn-IsGated_iff w (err e) rest known ih =
      (λ (h, k). absurd (let g = known _ k in cc), λ (h, _). cc)
  skip_turn-IsGated_iff w (ok true) rest known ih = (λ h. (refl, ih.0 h), λ (_, h). ih.1 h)
  skip_turn-IsGated_iff w (ok false) rest known ih = (λ (h, _). cc, λ (h, _). cc)

  skip_loop-IsGated_iff :
      (cond : ConditionFunc) (guards : List (Option When))
      → IsGated (skip_loop cond guards none) ↔ All (Passes cond) guards
  unfolding skip_loop
  skip_loop-IsGated_iff cond [] = (λ h. tt, λ h. (refl, refl))
  skip_loop-IsGated_iff cond (none ∷ guards) =
      let (to, from) = skip_loop-IsGated_iff cond guards in (λ h. (tt, to h), λ (_, h). from h)
  skip_loop-IsGated_iff cond (some w ∷ guards) =
      skip_turn-IsGated_iff w (cond w) (skip_loop cond guards) (skip_loop-known cond guards)
        (skip_loop-IsGated_iff cond guards)

  -- A node is neither skipped nor unknown exactly when each guard of it and of its containers
  -- evaluates and holds.
  pub guard_skip-IsGated_iff :
      (guards : List (Option When)) (cond : ConditionFunc)
      → IsGated (guard_skip guards cond) ↔ All (Passes cond) guards
  unfolding guard_skip
  guard_skip-IsGated_iff guards cond = skip_loop-IsGated_iff cond guards
