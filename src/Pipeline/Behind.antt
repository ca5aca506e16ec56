-- ===== src/Pipeline/Behind.antt =====
-- verifier/pipeline/evaluate.go: which nodes gate a step, stated without the walk of
-- `liveAncestorsOf`: the direct predecessors, and in place of each that never runs its own.
use zero_trust_service.Common.{
  ◌≡◌, refl, ◌↔◌, ◌⊎◌, inl, inr, String, Bool, true, false, Option, none, some, List, [], ◌∷◌, All,
  Some, Elem,
}
use zero_trust_service.Fault.{Result, ok, err}
use zero_trust_service.Pipeline.Model.{When}
use zero_trust_service.Pipeline.Violations.{ConditionFunc, ConditionUnknownViolation}
use zero_trust_service.Pipeline.Graph.{Pointer, fqn_of, guards_of, strategy_excluded}
use zero_trust_service.Pipeline.Climb.{preds}
use zero_trust_service.Pipeline.Skips.{
  Skip, skip_turn, skip_loop, guard_skip, Gives, Passes, guard_skip-skipped_iff,
  guard_skip-IsGated_iff,
}
use zero_trust_service.Pipeline.Live.{skip_of}

-- A node that never runs: its strategy leaves no combination, or a guard of it or of a container
-- evaluates and does not hold.
abbrev pub Dead : ConditionFunc → Pointer → Type 0
Dead cond p = (strategy_excluded p ≡ true) ⊎ Some (Gives cond (ok false)) (guards_of p)

-- A node that runs: its strategy leaves a combination, and each guard evaluates and holds.
abbrev pub Runs : ConditionFunc → Pointer → Type 0
Runs cond p = (strategy_excluded p ≡ false) × All (Passes cond) (guards_of p)

-- The violation of a node of which it is not known whether it runs.
abbrev pub Unknown :
    (String → String) → ConditionFunc → Pointer → ConditionUnknownViolation → Type 0
Unknown quote cond p u = (strategy_excluded p ≡ false) × ((skip_of quote cond p).1 ≡ some u)

-- The nodes that a step waits for or that stand behind one that never runs.
pub data Behind (cond : ConditionFunc) (target : Pointer) : Pointer → Type 0 where
  direct : (p : Pointer) → Elem p (preds target) → Behind cond target p
  over :
      (p q : Pointer) → Behind cond target p → Dead cond p → Elem q (preds p) → Behind cond target q

module _ (quote : String → String) (cond : ConditionFunc) where
  skip_turn-sure :
      (fqn : String) (w : When) (r : Result Bool) (first : Option ConditionUnknownViolation)
      (rest : Option ConditionUnknownViolation → Skip)
      → ((f : Option ConditionUnknownViolation) → (rest f).0 ≡ true → (rest f).1 ≡ none)
      → (skip_turn quote fqn w r first rest).0 ≡ true
      → (skip_turn quote fqn w r first rest).1 ≡ none
  unfolding skip_turn
  skip_turn-sure fqn w (err e) first rest ih h = ih _ h
  skip_turn-sure fqn w (ok true) first rest ih h = ih _ h
  skip_turn-sure fqn w (ok false) first rest ih h = refl

  skip_loop-sure :
      (fqn : String) (guards : List (Option When)) (first : Option ConditionUnknownViolation)
      → (skip_loop quote fqn cond guards first).0 ≡ true
      → (skip_loop quote fqn cond guards first).1 ≡ none
  unfolding skip_loop
  skip_loop-sure fqn [] first h = cc
  skip_loop-sure fqn (none ∷ guards) first h = skip_loop-sure fqn guards first h
  skip_loop-sure fqn (some w ∷ guards) first h =
      skip_turn-sure fqn w (cond w) first (skip_loop quote fqn cond guards)
        (λ f. skip_loop-sure fqn guards f) h

  -- A skipped node has no unknown guard.
  pub skipped_sure :
      (p : Pointer) → (skip_of quote cond p).0 ≡ true → (skip_of quote cond p).1 ≡ none
  unfolding guard_skip
  skipped_sure p h = skip_loop-sure (fqn_of p) (guards_of p) none h

  pub Dead-skipped :
      (p : Pointer) → strategy_excluded p ≡ false → Dead cond p → (skip_of quote cond p).0 ≡ true
  Dead-skipped p e (inl x) = cc
  Dead-skipped p e (inr g) = (guard_skip-skipped_iff quote (fqn_of p) (guards_of p) cond).1 g

  pub Dead-of_skipped : (p : Pointer) → (skip_of quote cond p).0 ≡ true → Dead cond p
  Dead-of_skipped p h = inr ((guard_skip-skipped_iff quote (fqn_of p) (guards_of p) cond).0 h)

  pub Runs-skip_iff :
      (p : Pointer)
      → Runs cond p ↔ (
          (strategy_excluded p ≡ false)
          × ((skip_of quote cond p).0 ≡ false)
          × ((skip_of quote cond p).1 ≡ none))
  Runs-skip_iff p =
      let (to, from) = guard_skip-IsGated_iff quote (fqn_of p) (guards_of p) cond in
      (λ (e, h). let (a, b) = from h in (e, a, b), λ (e, a, b). (e, to (a, b)))
