-- ===== src/Service/Guards.antt =====
-- examples/zts/ordering/conditionchecker.go: when a guard holds, and what a recorded status changes.
use mathlib.Core.Option.{some-injective}
use zero_trust_service.Common.{
  ◌≡◌, refl, subst, sym, ap, ◌↔◌, ◌⊎◌, inl, inr, String, Bool, true, false, Option, none, some,
  ◌&&◌, ◌==◌, if◌then◌else◌, lookup, insert, arith, eq_iff, read_after_write, Bool-cases,
  Option-cases, ◌∙◌, List,
}
use zero_trust_service.Fault.{Result, ok, err}
use zero_trust_service.Pipeline.Model.{When}
use zero_trust_service.Service.Conditions.{
  ConditionEvaluator, ConditionChecker, map_or_new, mark_status, or_success, observed_status,
  unresolved_condition, by_evaluator, by_override, both_gates, status_gate, expr_gate, eval,
}

-- A gate that is known and open.
abbrev pub Open : Bool × Bool → Type 0
Open p = (p.0 ≡ true) × (p.1 ≡ true)

both_gates_iff :
    (a b x y : Bool) → (both_gates (a, b) (x, y) ≡ ok true) ↔ (Open (a, b) × Open (x, y))
unfolding both_gates
both_gates_iff a b x y = ground arith

-- The status that the map of the execution holds for an owner.
abbrev pub Recorded : ConditionChecker → String → String → String → Type 0
Recorded c plan owner s =
    (m : List (String × String)) × (lookup plan c.statuses ≡ some m) × (lookup owner m ≡ some s)

observed_status-Recorded :
    (c : ConditionChecker) (plan owner : String)
    → ((s : String) × Recorded c plan owner s × (observed_status c plan owner ≡ s))
      ⊎ ((((s : String) → ¬ Recorded c plan owner s)) × (observed_status c plan owner ≡ "Success"))
unfolding observed_status or_success lookup
observed_status-Recorded c plan owner = elim (Option-cases (lookup plan c.statuses)) [
  | inl e ↦ inr (λ s (m, f, g). cc, rw e refl)
  | inr (m, e) ↦ elim (Option-cases (lookup owner m)) [
    | inl f ↦ inr (
      λ s (m', e', g). absurd (
          let same = some-injective _ _ (sym e ∙ e') in
          let g' = subst (λ l. lookup owner l ≡ some s) (sym same) g in cc),
      rw (e, f) refl,
    )
    | inr (s, f) ↦ inl (s, (m, e, f), rw (e, f) refl)
  ]
]

Recorded-unique :
    (c : ConditionChecker) (plan owner s t : String)
    → Recorded c plan owner s
    → Recorded c plan owner t
    → s ≡ t
Recorded-unique c plan owner s t (m, e, f) (m', e', g) =
    let same = some-injective _ _ (sym e ∙ e') in
    some-injective _ _ (sym f ∙ subst (λ l. lookup owner l ≡ some t) (sym same) g)

module _ (trim lower : String → String) (equal_fold : String → String → Bool) where
  -- The status that the guard asks for is none or all, or the one recorded for its owner, or success
  -- where none is recorded.
  abbrev pub StatusHolds : ConditionChecker → String → When → Type 0
  StatusHolds c plan w =
      ((lower (trim w.status) ≡ "") ⊎ (lower (trim w.status) ≡ "all"))
      ⊎ (((s : String) × Recorded c plan w.owner_fqn s × (equal_fold s w.status ≡ true))
          ⊎ ((((s : String) → ¬ Recorded c plan w.owner_fqn s))
              × (equal_fold "Success" w.status ≡ true)))

  -- The expression is empty, overridden to run, or not overridden and known to hold by the evaluator.
  abbrev pub ExprHolds : ConditionChecker → String → When → Type 0
  ExprHolds c plan w =
      (trim w.expression ≡ "")
      ⊎ ((lookup (trim w.expression) c.overrides ≡ some true)
          ⊎ ((lookup (trim w.expression) c.overrides ≡ none)
              × ((f : ConditionEvaluator) × (c.evaluator ≡ some f)
                  × Open (f plan (trim w.expression) c.vars))))

  observed_iff :
      (c : ConditionChecker) (plan : String) (w : When)
      → (equal_fold (observed_status c plan w.owner_fqn) w.status ≡ true) ↔ (
          ((s : String) × Recorded c plan w.owner_fqn s × (equal_fold s w.status ≡ true))
          ⊎ ((((s : String) → ¬ Recorded c plan w.owner_fqn s))
              × (equal_fold "Success" w.status ≡ true)))
  observed_iff c plan w = elim (observed_status-Recorded c plan w.owner_fqn) [
    | inl (s, r, e) ↦ (
      λ h. inl (s, r, subst (λ t. equal_fold t w.status ≡ true) e h),
      λ h. elim h [
        | inl (t, r', k) ↦
            let same = Recorded-unique c plan w.owner_fqn s t r r' in
            subst (λ t. equal_fold t w.status ≡ true) (sym (e ∙ same)) k
        | inr (unset, k) ↦ absurd (unset s r)
      ],
    )
    | inr (unset, e) ↦ (
      λ h. inr (unset, subst (λ t. equal_fold t w.status ≡ true) e h),
      λ h. elim h [
        | inl (t, r', k) ↦ absurd (unset t r')
        | inr (_, k) ↦ subst (λ t. equal_fold t w.status ≡ true) (sym e) k
      ],
    )
  ]

  status_gate_iff :
      (c : ConditionChecker) (plan : String) (w : When)
      → Open (status_gate trim lower equal_fold c plan w) ↔ StatusHolds c plan w
  unfolding status_gate
  status_gate_iff c plan w = ground (
    arith,
    eq_iff (lower (trim w.status)) "",
    eq_iff (lower (trim w.status)) "all",
    observed_iff c plan w,
  )

  by_evaluator_iff :
      (c : ConditionChecker) (plan expr : String) (o : Option ConditionEvaluator)
      → Open (by_evaluator c plan expr o)
        ↔ ((f : ConditionEvaluator) × (o ≡ some f) × Open (f plan expr c.vars))
  unfolding by_evaluator
  by_evaluator_iff c plan expr none = (λ h. cc, λ (f, h, _). cc)
  by_evaluator_iff c plan expr (some f) = (
    λ h. (f, refl, h),
    λ (g, e, h). subst (λ k. Open (k plan expr c.vars)) (sym (some-injective _ _ e)) h,
  )

  by_override_iff :
      (c : ConditionChecker) (plan expr : String) (o : Option Bool)
      → Open (by_override c plan expr o) ↔ (
          (o ≡ some true)
          ⊎ ((o ≡ none)
              × ((f : ConditionEvaluator) × (c.evaluator ≡ some f) × Open (f plan expr c.vars))))
  unfolding by_override
  by_override_iff c plan expr (some b) =
      (λ (h, _). inl (ap some h), λ h. elim h [ inl e ↦ (some-injective _ _ e, refl) | inr e ↦ cc ])
  by_override_iff c plan expr none =
      let (to, from) = by_evaluator_iff c plan expr c.evaluator in
      (λ h. inr (refl, to h), λ h. elim h [ inl e ↦ cc | inr e ↦ from e.1 ])

  expr_gate_iff :
      (c : ConditionChecker) (plan : String) (w : When)
      → Open (expr_gate trim lower equal_fold c plan w) ↔ ExprHolds c plan w
  unfolding expr_gate
  expr_gate_iff c plan w =
      let (to, from) =
        by_override_iff c plan (trim w.expression) (lookup (trim w.expression) c.overrides) in
      elim (Bool-cases (trim w.expression == "")) [
        | inl t ↦ rw t (λ h. inl ((eq_iff (trim w.expression) "").0 t), λ h. (refl, refl))
        | inr f ↦ rw f (
          λ h. inr (to h),
          λ h. elim h [
            | inl e ↦ absurd (let g = (eq_iff (trim w.expression) "").1 e in cc)
            | inr e ↦ from e
          ],
        )
      ]

  -- A guard evaluates and holds exactly when it is no runtime input, its status is none or all or the
  -- one recorded for its owner, success where none is recorded, and its expression is empty,
  -- overridden to run, or not overridden and known to hold by the evaluator. In all other cases the
  -- guard does not let its step run.
  pub eval-eq-ok_iff :
      (c : ConditionChecker) (plan : String) (w : When)
      → (eval trim lower equal_fold c plan w ≡ ok true)
        ↔ ((w.runtime_input ≡ false) × StatusHolds c plan w × ExprHolds c plan w)
  unfolding eval
  eval-eq-ok_iff c plan w =
      let s = status_gate trim lower equal_fold c plan w in
      let e = expr_gate trim lower equal_fold c plan w in
      by_input w.runtime_input (both_gates_iff s.0 s.1 e.0 e.1) (status_gate_iff c plan w)
        (expr_gate_iff c plan w)
    where
      by_input :
          {P Q R T : Type 0} {r : Result Bool} (b : Bool)
          → ((r ≡ ok true) ↔ (P × Q))
          → (P ↔ R)
          → (Q ↔ T)
          → ((if b then err unresolved_condition else r) ≡ ok true) ↔ ((b ≡ false) × R × T)
      by_input true g p q = (λ h. cc, λ (h, _, _). cc)
      by_input false g p q =
          (λ h. let (x, y) = g.0 h in (refl, p.0 x, q.0 y), λ (_, x, y). g.1 (p.1 x, q.1 y))

-- After a status was recorded, it is the one observed for its owner in its execution; what is observed
-- for every other owner, and in every other execution, is unchanged.
pub observed_status-mark_status :
    (c : ConditionChecker) (plan owner status other_plan other : String)
    → observed_status (mark_status c plan owner status) other_plan other ≡ (
        if plan == other_plan && owner == other then status else observed_status c other_plan other)
unfolding observed_status mark_status or_success
observed_status-mark_status c plan owner status other_plan other =
    let before = map_or_new (lookup plan c.statuses) in
    let outer = read_after_write plan other_plan (insert owner status before) c.statuses in
    let inner = read_after_write owner other status before in
    elim (Bool-cases (plan == other_plan)) [
      | inl e ↦ elim (Bool-cases (owner == other)) [
        | inl f ↦ rw (outer, e, inner, f) refl
        | inr f ↦
            rw (outer, e, inner, f)
              (ap (λ q. or_success (lookup other (map_or_new (lookup q c.statuses))))
                ((eq_iff plan other_plan).0 e))
      ]
      | inr e ↦ rw (outer, e) refl
    ]
