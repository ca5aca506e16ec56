-- ===== src/Pipeline/OrGate.antt =====
-- verifier/pipeline/evaluate.go: when the OR join of a step is satisfied.
use zero_trust_service.Common.{
  ℕ, zero, suc, ◌≡◌, ◌≢◌, refl, ◌↔◌, ◌⊎◌, inl, inr, String, Bool, true, false, List, [], ◌∷◌, ◌++◌,
  ◌||◌, ◌&&◌, All, Some, map, append-eq-nil_iff, map-eq-nil_iff, if◌then◌else◌, arith, not,
}
use zero_trust_service.Fault.{Result, ok, err}
use zero_trust_service.Pipeline.Model.{Ancestor, join_or}
use zero_trust_service.Pipeline.Violations.{StepRanFunc, EvalOptions, fanout_ancestor}
use zero_trust_service.Pipeline.Gates.{
  effective_fqns, non_enumerable, no_instances, judge_runtime_fanout, judge_run_state_unknown,
  new_runtime_fanout_violation,
}
use zero_trust_service.Pipeline.Ancestors.{
  Runs, add_run, look_up_runs, Candidates, add_candidate, collect_candidates, judge_missing,
  or_satisfied, judge_or, ancestor_violations,
}
use zero_trust_service.Pipeline.AndGate.{Completed, judge_missing-eq-nil_iff}

effective_fqns-ne-nil : (a : Ancestor) → effective_fqns a ≢ []
unfolding effective_fqns no_instances
effective_fqns-ne-nil a h = filled a.fqn a.instances h
  where
    filled : (f : String) (is : List String) → (if not (no_instances is) then is else f ∷ []) ≢ []
    filled f [] h = cc
    filled f (i ∷ is) h = cc

module _ (ran : StepRanFunc) where
  -- The ancestor is not excluded, and an instance of it has completed, or it has none, does not fan
  -- out, and has completed itself.
  abbrev pub Candidate : Ancestor → Type 0
  Candidate a =
      (a.excluded ≡ false)
      × (Some (Completed ran) a.instances
          ⊎ ((a.expands ≡ false) × (a.instances ≡ []) × Completed ran a.fqn))

  finished_iff :
      (a : Ancestor)
      → ((non_enumerable a ≡ false) × Some (Completed ran) (effective_fqns a)) ↔ (
          Some (Completed ran) a.instances
          ⊎ ((a.expands ≡ false) × (a.instances ≡ []) × Completed ran a.fqn))
  unfolding non_enumerable effective_fqns no_instances
  finished_iff a = by_case a.expands a.instances a.fqn
    where
      by_case :
          (e : Bool) (is : List String) (f : String)
          → (((e && no_instances is) ≡ false)
              × Some (Completed ran) (if not (no_instances is) then is else f ∷ []))
            ↔ (Some (Completed ran) is ⊎ ((e ≡ false) × (is ≡ []) × Completed ran f))
      by_case true [] f = (λ (h, _). cc, λ h. elim h [ inl x ↦ absurd x | inr (x, _, _) ↦ cc ])
      by_case false [] f = (
        λ (_, h). elim h [ inl k ↦ inr (refl, refl, k) | inr x ↦ absurd x ],
        λ h. elim h [ inl x ↦ absurd x | inr (_, _, k) ↦ (refl, inl k) ],
      )
      by_case true (i ∷ is) f =
          (λ (_, h). inl h, λ h. elim h [ inl k ↦ (refl, k) | inr (x, _, _) ↦ cc ])
      by_case false (i ∷ is) f =
          (λ (_, h). inl h, λ h. elim h [ inl k ↦ (refl, k) | inr (_, x, _) ↦ cc ])

  add_run-some_ran_iff :
      (f : String) (o : Result Bool) (r : Runs)
      → ((add_run f o r).some_ran ≡ true) ↔ ((o ≡ ok true) ⊎ (r.some_ran ≡ true))
  unfolding add_run
  add_run-some_ran_iff f (err e) r = (λ h. inr h, λ h. elim h [ inl x ↦ cc | inr x ↦ x ])
  add_run-some_ran_iff f (ok true) r = (λ h. inl refl, λ h. refl)
  add_run-some_ran_iff f (ok false) r = (λ h. inr h, λ h. elim h [ inl x ↦ cc | inr x ↦ x ])

  look_up_runs-some_ran_iff :
      (fs : List String) → ((look_up_runs ran fs).some_ran ≡ true) ↔ Some (Completed ran) fs
  unfolding look_up_runs
  look_up_runs-some_ran_iff [] = (λ h. cc, λ h. absurd h)
  look_up_runs-some_ran_iff (f ∷ fs) =
      let (to, from) = add_run-some_ran_iff f (ran f) (look_up_runs ran fs) in
      let (some, some') = look_up_runs-some_ran_iff fs in
      (
        λ h. elim (to h) [ inl x ↦ inl x | inr x ↦ inr (some x) ],
        λ h. elim h [ inl x ↦ from (inl x) | inr x ↦ from (inr (some' x)) ],
      )

  look_up_runs-eq-nil :
      (fs : List String)
      → (look_up_runs ran fs).known ≡ []
      → (look_up_runs ran fs).unknowns ≡ []
      → fs ≡ []
  unfolding look_up_runs add_run
  look_up_runs-eq-nil [] h k = refl
  look_up_runs-eq-nil (f ∷ fs) h k = absurd (found (ran f) h k)
    where
      found :
          (o : Result Bool)
          → (add_run f o (look_up_runs ran fs)).known ≡ []
          → (add_run f o (look_up_runs ran fs)).unknowns ≢ []
      found (err e) h k = cc
      found (ok true) h k = cc
      found (ok false) h k = cc

  collect_candidates-satisfied_iff :
      (ancestors : List Ancestor)
      → ((collect_candidates ran ancestors).satisfied ≡ true) ↔ Some Candidate ancestors
  unfolding collect_candidates add_candidate
  collect_candidates-satisfied_iff [] = (λ h. cc, λ h. absurd h)
  collect_candidates-satisfied_iff (a ∷ ancestors) = ground (
    arith,
    finished_iff a,
    look_up_runs-some_ran_iff (effective_fqns a),
    collect_candidates-satisfied_iff ancestors,
  )

  collect_candidates-live_iff :
      (ancestors : List Ancestor)
      → ((collect_candidates ran ancestors).live ≡ 0) ↔ All (λ a. a.excluded ≡ true) ancestors
  unfolding collect_candidates add_candidate
  collect_candidates-live_iff [] = (λ h. tt, λ h. refl)
  collect_candidates-live_iff (a ∷ ancestors) =
      ground (arith, collect_candidates-live_iff ancestors)

  -- Each ancestor that is not excluded left a trace: a fan-out, a failed lookup or a candidate.
  Traceless : Candidates → Type 0
  Traceless c = (c.fanouts ≡ []) × (c.unknowns ≡ []) × (c.candidates ≡ [])

  add_candidate-Traceless :
      (a : Ancestor) (r : Runs) (c : Candidates)
      → ((r.known ≡ []) → (r.unknowns ≡ []) → ⊥)
      → Traceless (add_candidate a r c)
      → (a.excluded ≡ true) × Traceless c
  unfolding Traceless add_candidate
  add_candidate-Traceless a r c traced h = cases a.excluded (non_enumerable a) h
    where
      pick : Bool → Bool → Candidates → Candidates → Candidates
      pick e n x y = if e then c else if n then x else y

      cases :
          (e n : Bool)
          → Traceless (
              pick e n
                (record c {
                  live = suc c.live;
                  fanouts = new_runtime_fanout_violation a.fqn a.status fanout_ancestor ∷ c.fanouts;
                })
                (record c {
                  satisfied = r.some_ran || c.satisfied;
                  live = suc c.live;
                  candidates = r.known ++ c.candidates;
                  unknowns = r.unknowns ++ c.unknowns;
                }))
          → (e ≡ true) × Traceless c
      cases true n h = (refl, h)
      cases false true (h, _, _) = cc
      cases false false (_, u, k) = absurd (
          traced ((append-eq-nil_iff r.known c.candidates).0 k).0
            ((append-eq-nil_iff r.unknowns c.unknowns).0 u).0)

  collect_candidates-Traceless :
      (ancestors : List Ancestor)
      → Traceless (collect_candidates ran ancestors)
      → All (λ a. a.excluded ≡ true) ancestors
  unfolding collect_candidates
  collect_candidates-Traceless [] h = tt
  collect_candidates-Traceless (a ∷ ancestors) h =
      let (e, rest) =
        add_candidate-Traceless a (look_up_runs ran (effective_fqns a)) _
          (λ k u. effective_fqns-ne-nil a (look_up_runs-eq-nil (effective_fqns a) k u)) h in
      (e, collect_candidates-Traceless ancestors rest)

  module _ (eo : EvalOptions) where
    judge_or-eq-nil_iff :
        (c : Candidates)
        → (judge_or eo ran c ≡ []) ↔ ((c.live ≡ 0) ⊎ ((c.satisfied ≡ true) ⊎ Traceless c))
    unfolding judge_or or_satisfied Traceless
    judge_or-eq-nil_iff c = split c.live c.satisfied
      where
        traces :
            (map (judge_runtime_fanout eo) c.fanouts
                ++ (map (judge_run_state_unknown eo) c.unknowns
                    ++ judge_missing eo ran join_or "" c.candidates)
              ≡ [])
            ↔ ((c.fanouts ≡ []) × (c.unknowns ≡ []) × (c.candidates ≡ []))
        traces =
            let (s1, g1) = append-eq-nil_iff (map (judge_runtime_fanout eo) c.fanouts) _ in
            let (s2, g2) = append-eq-nil_iff (map (judge_run_state_unknown eo) c.unknowns) _ in
            let (f, f') = map-eq-nil_iff (judge_runtime_fanout eo) c.fanouts in
            let (u, u') = map-eq-nil_iff (judge_run_state_unknown eo) c.unknowns in
            let (m, m') = judge_missing-eq-nil_iff ran eo "" c.candidates join_or in
            (
              λ h. let (p, q) = s1 h in let (q1, q2) = s2 q in (f p, u q1, m q2),
              λ (p, q1, q2). g1 (f' p, g2 (u' q1, m' q2)),
            )

        split :
            (n : ℕ) (b : Bool)
            → ((if (elim n [ zero ↦ true | suc k ↦ b ])
                  then []
                  else map (judge_runtime_fanout eo) c.fanouts
                    ++ (map (judge_run_state_unknown eo) c.unknowns
                        ++ judge_missing eo ran join_or "" c.candidates))
                ≡ [])
              ↔ ((n ≡ 0)
                  ⊎ ((b ≡ true) ⊎ ((c.fanouts ≡ []) × (c.unknowns ≡ []) × (c.candidates ≡ []))))
        split zero b = (λ h. inl refl, λ h. refl)
        split (suc n) true = (λ h. inr (inl refl), λ h. refl)
        split (suc n) false = (
          λ h. inr (inr (traces.0 h)),
          λ h. elim h [ inl x ↦ cc | inr x ↦ elim x [ inl y ↦ cc | inr y ↦ traces.1 y ] ],
        )

    -- Under an OR join the ancestors give no violation exactly when all of them are excluded, or some
    -- ancestor that is not excluded has an instance that has completed, or has none, does not fan out,
    -- and has completed itself.
    pub ancestor_violations-or-eq-nil_iff :
        (ancestors : List Ancestor)
        → (ancestor_violations eo ran join_or ancestors ≡ [])
          ↔ (All (λ a. a.excluded ≡ true) ancestors ⊎ Some Candidate ancestors)
    unfolding ancestor_violations
    ancestor_violations-or-eq-nil_iff ancestors =
        let (to, from) = judge_or-eq-nil_iff (collect_candidates ran ancestors) in
        let (live, dead) = collect_candidates-live_iff ancestors in
        let (some, some') = collect_candidates-satisfied_iff ancestors in
        (
          λ h. elim (to h) [
            | inl x ↦ inl (live x)
            | inr x ↦ elim x [
              | inl y ↦ inr (some y)
              | inr y ↦ inl (collect_candidates-Traceless ancestors y)
            ]
          ],
          λ h. elim h [ inl x ↦ from (inl (dead x)) | inr x ↦ from (inr (inl (some' x))) ],
        )
