-- ===== src/Pipeline/AndGate.antt =====
-- verifier/pipeline/evaluate.go: when the AND join of a step is satisfied.
use zero_trust_service.Common.{
  ◌≡◌, refl, ◌≢◌, ◌&&◌, not, ◌↔◌, ◌⊎◌, inl, inr, String, Bool, true, false, List, [], ◌∷◌, All,
  append-eq-nil_iff, map-eq-nil_iff, if◌then◌else◌,
}
use zero_trust_service.Fault.{Result, ok, err}
use zero_trust_service.Pipeline.Model.{Ancestor, join_and}
use zero_trust_service.Pipeline.Violations.{StepRanFunc, EvalOptions}
use zero_trust_service.Pipeline.Gates.{
  no_instances, effective_fqns, non_enumerable, judge_run_state_unknown,
}
use zero_trust_service.Pipeline.Ancestors.{
  Runs, add_run, look_up_runs, judge_missing, judge_and, ancestor_violations,
}

skip_iff :
    {A : Type 0} (excluded unknown : Bool) (v : A) (vs : List A)
    → ((if excluded then [] else if unknown then v ∷ [] else vs) ≡ [])
      ↔ ((excluded ≡ true) ⊎ ((unknown ≡ false) × (vs ≡ [])))
skip_iff true unknown v vs = (λ h. inl refl, λ h. refl)
skip_iff false true v vs = (λ h. cc, λ h. elim h [ inl x ↦ cc | inr x ↦ cc ])
skip_iff false false v vs = (λ h. inr (refl, h), λ h. elim h [ inl x ↦ cc | inr x ↦ x.1 ])

module _ (ran : StepRanFunc) where
  abbrev pub Completed : String → Type 0
  Completed f = ran f ≡ ok true

  -- Each instance of the ancestor has completed, or it does not fan out and has completed itself.
  abbrev pub AllRan : Ancestor → Type 0
  AllRan a =
      ((a.instances ≢ []) × All Completed a.instances)
      ⊎ ((a.expands ≡ false) × (a.instances ≡ []) × Completed a.fqn)

  AllRan-iff :
      (a : Ancestor) → ((non_enumerable a ≡ false) × All Completed (effective_fqns a)) ↔ AllRan a
  unfolding non_enumerable effective_fqns no_instances
  AllRan-iff a = by_case a.expands a.instances a.fqn
    where
      by_case :
          (e : Bool) (is : List String) (f : String)
          → (((e && no_instances is) ≡ false)
              × All Completed (if not (no_instances is) then is else f ∷ []))
            ↔ (((is ≢ []) × All Completed is) ⊎ ((e ≡ false) × (is ≡ []) × Completed f))
      by_case true [] f =
          (λ (h, _). cc, λ h. elim h [ inl (x, _) ↦ absurd (x refl) | inr (x, _, _) ↦ cc ])
      by_case false [] f = (
        λ (_, (h, _)). inr (refl, refl, h),
        λ h. elim h [ inl (x, _) ↦ absurd (x refl) | inr (_, _, h) ↦ (refl, (h, tt)) ],
      )
      by_case true (i ∷ is) f =
          (λ (_, h). inl (λ e. cc, h), λ h. elim h [ inl (_, h) ↦ (refl, h) | inr (x, _, _) ↦ cc ])
      by_case false (i ∷ is) f =
          (λ (_, h). inl (λ e. cc, h), λ h. elim h [ inl (_, h) ↦ (refl, h) | inr (_, x, _) ↦ cc ])

  Clean : Runs → Type 0
  Clean r = (r.unknowns ≡ []) × (r.missing ≡ [])

  add_run-Clean_iff :
      (f : String) (o : Result Bool) (r : Runs) → Clean (add_run f o r) ↔ ((o ≡ ok true) × Clean r)
  unfolding add_run Clean
  add_run-Clean_iff f (err e) r = (λ (h, _). cc, λ (h, _). cc)
  add_run-Clean_iff f (ok true) r = (λ h. (refl, h), λ h. h.1)
  add_run-Clean_iff f (ok false) r = (λ (_, h). cc, λ (h, _). cc)

  look_up_runs-Clean_iff : (fs : List String) → Clean (look_up_runs ran fs) ↔ All Completed fs
  unfolding look_up_runs Clean
  look_up_runs-Clean_iff [] = (λ h. tt, λ h. (refl, refl))
  look_up_runs-Clean_iff (f ∷ fs) =
      let (to, from) = add_run-Clean_iff f (ran f) (look_up_runs ran fs) in
      let (all, clean) = look_up_runs-Clean_iff fs in
      (λ h. let (p, q) = to h in (p, all q), λ (p, q). from (p, clean q))

  module _ (eo : EvalOptions) where
    pub judge_missing-eq-nil_iff :
        (fqn : String) (fs : List String) (j : _) → (judge_missing eo ran j fqn fs ≡ []) ↔ (fs ≡ [])
    unfolding judge_missing
    judge_missing-eq-nil_iff fqn [] j = (λ h. refl, λ h. refl)
    judge_missing-eq-nil_iff fqn (f ∷ fs) j = (λ h. cc, λ h. cc)

    judge_and-eq-nil_iff :
        (a : Ancestor) → (judge_and eo ran a ≡ []) ↔ ((a.excluded ≡ true) ⊎ AllRan a)
    unfolding judge_and Clean
    judge_and-eq-nil_iff a =
        let r = look_up_runs ran (effective_fqns a) in
        let (split, glue) = append-eq-nil_iff _ (judge_missing eo ran join_and a.fqn r.missing) in
        let (unknowns, unknowns') = map-eq-nil_iff (judge_run_state_unknown eo) r.unknowns in
        let (missing, missing') = judge_missing-eq-nil_iff a.fqn r.missing join_and in
        let (all, clean) = look_up_runs-Clean_iff (effective_fqns a) in
        let (to, from) = skip_iff a.excluded (non_enumerable a) _ _ in
        let (ran_all, parts) = AllRan-iff a in
        (
          λ h. elim (to h) [
            | inl x ↦ inl x
            | inr x ↦ let (p, q) = split x.1 in inr (ran_all (x.0, all (unknowns p, missing q)))
          ],
          λ h. elim h [
            | inl x ↦ from (inl x)
            | inr x ↦
                let (known, done) = parts x in
                let (p, q) = clean done in from (inr (known, glue (unknowns' p, missing' q)))
          ],
        )

    -- Under an AND join the ancestors give no violation exactly when each ancestor that is not
    -- excluded has instances that have all completed, or has none, does not fan out, and has completed
    -- itself.
    pub ancestor_violations-and-eq-nil_iff :
        (ancestors : List Ancestor)
        → (ancestor_violations eo ran join_and ancestors ≡ [])
          ↔ All (λ a. (a.excluded ≡ true) ⊎ AllRan a) ancestors
    unfolding ancestor_violations
    ancestor_violations-and-eq-nil_iff [] = (λ h. tt, λ h. refl)
    ancestor_violations-and-eq-nil_iff (a ∷ ancestors) =
        let (split, glue) = append-eq-nil_iff (judge_and eo ran a) _ in
        let (one, one') = judge_and-eq-nil_iff a in
        let (all, all') = ancestor_violations-and-eq-nil_iff ancestors in
        (λ h. let (p, q) = split h in (one p, all q), λ (p, q). glue (one' p, all' q))
