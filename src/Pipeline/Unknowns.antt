-- ===== src/Pipeline/Unknowns.antt =====
-- verifier/pipeline/evaluate.go: the nodes of which `guardSkip` cannot tell whether they are skipped.
use mathlib.Core.Option.{some-injective}
use zero_trust_service.Common.{
  ◌≡◌, sym, ap, ◌⊎◌, inl, inr, String, Bool, true, false, Option, none, some, List, [], ◌∷◌,
  Bool-cases, Option-cases,
}
use zero_trust_service.Fault.{Result, ok, err}
use zero_trust_service.Pipeline.Model.{When}
use zero_trust_service.Pipeline.Violations.{ConditionFunc, ConditionUnknownViolation}
use zero_trust_service.Pipeline.Gates.{new_condition_unknown_violation}
use zero_trust_service.Pipeline.Graph.{Pointer, guards_of, fqn_of, strategy_excluded}
use zero_trust_service.Pipeline.Skips.{Skip, skip_turn, skip_loop, guard_skip}
use zero_trust_service.Pipeline.Behind.{
  Dead, Runs, Unknown, skipped_sure, Dead-skipped, Dead-of_skipped, Runs-skip_iff,
}
use zero_trust_service.Pipeline.Live.{skip_of}

-- A violation that no policy has judged.
abbrev Fresh : Option ConditionUnknownViolation → Type 0
Fresh o = (v : ConditionUnknownViolation) → o ≡ some v → v.ignored ≡ false

module _ (quote : String → String) (cond : ConditionFunc) where
  skip_turn-Fresh :
      (fqn : String) (w : When) (r : Result Bool) (first : Option ConditionUnknownViolation)
      (rest : Option ConditionUnknownViolation → Skip)
      → ((f : Option ConditionUnknownViolation) → Fresh f → Fresh (rest f).1)
      → Fresh first
      → Fresh (skip_turn quote fqn w r first rest).1
  unfolding skip_turn new_condition_unknown_violation
  skip_turn-Fresh fqn w (err e) none rest ih h = ih _ (λ v eq. new_one (some-injective _ _ eq))
    where
      new_one :
          {v : ConditionUnknownViolation}
          → new_condition_unknown_violation quote fqn w e ≡ v
          → v.ignored ≡ false
      new_one eq = sym (ap (λ (u : ConditionUnknownViolation). u.ignored) eq)
  skip_turn-Fresh fqn w (err e) (some f) rest ih h = ih _ h
  skip_turn-Fresh fqn w (ok true) first rest ih h = ih _ h
  skip_turn-Fresh fqn w (ok false) first rest ih h = λ v eq. cc

  skip_loop-Fresh :
      (fqn : String) (guards : List (Option When)) (first : Option ConditionUnknownViolation)
      → Fresh first
      → Fresh (skip_loop quote fqn cond guards first).1
  unfolding skip_loop
  skip_loop-Fresh fqn [] first h = h
  skip_loop-Fresh fqn (none ∷ guards) first h = skip_loop-Fresh fqn guards first h
  skip_loop-Fresh fqn (some w ∷ guards) first h =
      skip_turn-Fresh fqn w (cond w) first (skip_loop quote fqn cond guards)
        (skip_loop-Fresh fqn guards) h

  pub Unknown-fresh :
      (p : Pointer) (u : ConditionUnknownViolation) → Unknown quote cond p u → u.ignored ≡ false
  unfolding guard_skip
  Unknown-fresh p u (_, e) = skip_loop-Fresh (fqn_of p) (guards_of p) none (λ v eq. cc) u e

  pub known-or-Unknown :
      (p : Pointer)
      → (Dead cond p ⊎ Runs cond p) ⊎ ((u : ConditionUnknownViolation) × Unknown quote cond p u)
  known-or-Unknown p = elim (Bool-cases (strategy_excluded p)) [
    | inl x ↦ inl (inl (inl x))
    | inr x ↦ elim (Bool-cases (skip_of quote cond p).0) [
      | inl s ↦ inl (inl (Dead-of_skipped quote cond p s))
      | inr s ↦ elim (Option-cases (skip_of quote cond p).1) [
        | inl e ↦ inl (inr ((Runs-skip_iff quote cond p).1 (x, s, e)))
        | inr (u, e) ↦ inr (u, (x, e))
      ]
    ]
  ]

  pub known-not-Unknown :
      (p : Pointer) (u : ConditionUnknownViolation)
      → Dead cond p ⊎ Runs cond p
      → ¬ Unknown quote cond p u
  known-not-Unknown p u (inl dead) (x, e) =
      let h = skipped_sure quote cond p (Dead-skipped quote cond p x dead) in cc
  known-not-Unknown p u (inr runs) (x, e) =
      let (_, _, h) = (Runs-skip_iff quote cond p).0 runs in cc
