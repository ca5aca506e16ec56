-- ===== src/Pipeline/Entries.antt =====
-- verifier/pipeline/graph.go: the nodes at the entry of a rollback, and the join of a step.
use mathlib.Core.Option.{some-injective}
use zero_trust_service.Common.{
  ◌≡◌, refl, sym, subst, ◌↔◌, ◌⊎◌, inl, inr, ℕ, zero, suc, Bool, true, false, Option, none, some,
  [], ◌∷◌, ◌&&◌, ◌||◌, arith, eq_iff, if◌then◌else◌,
}
use zero_trust_service.Pipeline.Model.{When}
use zero_trust_service.Pipeline.Graph.{
  GraphNode, Pointer, info, is_rollback, rollback_container, at_rollback_entry,
}
use zero_trust_service.Pipeline.Resolve.{guard_of, on_failure, in_pipeline_rollback, or_joined}
use zero_trust_service.Pipeline.Standing.{Entry, root, starts, SeparatePlan, OrJoined}

Entry-parent :
    {n parent : GraphNode} {up rb : Pointer}
    → Entry (n ∷ parent ∷ up) rb
    → (is_rollback n ≡ true)
      ⊎ ((is_rollback n ≡ false)
          × ((((info parent).concurrent ≡ true) ⊎ ((info n).index ≡ 0)) × Entry (parent ∷ up) rb))
Entry-parent (root h) = inl h
Entry-parent (starts h f e) = inr (h, (f, e))

at_rollback_entry_iff : (p : Pointer) → (at_rollback_entry p ≡ true) ↔ ((rb : Pointer) × Entry p rb)
unfolding at_rollback_entry
at_rollback_entry_iff [] = (λ h. cc, λ (rb, e). absurd (nothing e))
  where
    nothing : {rb : Pointer} → ¬ Entry [] rb
    nothing e = elim e [ ]
at_rollback_entry_iff (n ∷ []) = (λ h. (n ∷ [], root h), λ (rb, e). single e)
  where
    single : {rb : Pointer} → Entry (n ∷ []) rb → is_rollback n ≡ true
    single (root h) = h
at_rollback_entry_iff (n ∷ parent ∷ up) =
    one_entry (is_rollback n) (info parent).concurrent (info n).index
      (at_rollback_entry (parent ∷ up)) refl refl refl (at_rollback_entry_iff (parent ∷ up))
  where
    one_entry :
        (b c : Bool) (i : ℕ) (above : Bool)
        → is_rollback n ≡ b
        → (info parent).concurrent ≡ c
        → (info n).index ≡ i
        → ((above ≡ true) ↔ ((rb : Pointer) × Entry (parent ∷ up) rb))
        → ((b || ((if c then true else elim i [ zero ↦ true | suc j ↦ false ]) && above)) ≡ true)
          ↔ ((rb : Pointer) × Entry (n ∷ parent ∷ up) rb)
    one_entry true c i above eb ec ei ih = (λ h. (n ∷ parent ∷ up, root eb), λ h. refl)
    one_entry false true i above eb ec ei ih = (
      λ h. let (rb, e) = ih.0 h in (rb, starts eb (inl ec) e),
      λ (rb, e). elim (Entry-parent e) [ inl h ↦ cc | inr x ↦ ih.1 (rb, x.1.1) ],
    )
    one_entry false false zero above eb ec ei ih = (
      λ h. let (rb, e) = ih.0 h in (rb, starts eb (inr ei) e),
      λ (rb, e). elim (Entry-parent e) [ inl h ↦ cc | inr x ↦ ih.1 (rb, x.1.1) ],
    )
    one_entry false false (suc i) above eb ec ei ih = (
      λ h. cc,
      λ (rb, e). elim (Entry-parent e) [
        | inl h ↦ cc
        | inr x ↦ elim x.1.0 [ inl g ↦ cc | inr g ↦ cc ]
      ],
    )

rollback_container-Entry : {p rb : Pointer} → Entry p rb → rollback_container p ≡ rb
unfolding rollback_container
rollback_container-Entry (root h) = rw h refl
rollback_container-Entry (starts h f e) = rw h (rollback_container-Entry e)

pub SeparatePlan-iff :
    (p : Pointer)
    → ((at_rollback_entry p && in_pipeline_rollback (rollback_container p)) ≡ true) ↔ SeparatePlan p
SeparatePlan-iff p = (
  λ h.
      let (at, of_pipeline) = both h in
      let (rb, e) = (at_rollback_entry_iff p).0 at in
      let (n, stage, up, shape, flag) =
        staged rb
          (subst (λ q. in_pipeline_rollback q ≡ true) (rollback_container-Entry e) of_pipeline) in
      (n, stage, up, subst (Entry p) shape e, flag),
  λ (rb, stage, up, e, flag).
      rw ((at_rollback_entry_iff p).1 (rb ∷ stage ∷ up, e), rollback_container-Entry e)
        (unfold in_pipeline_rollback in flag),
)
  where
    both : {a b : Bool} → (a && b) ≡ true → (a ≡ true) × (b ≡ true)
    both h = ground (arith, h)

    staged :
        (rb : Pointer)
        → in_pipeline_rollback rb ≡ true
        → (n : GraphNode) × (stage : GraphNode) × (up : Pointer) × (rb ≡ n ∷ stage ∷ up)
          × ((info stage).pipeline_rollback ≡ true)
    staged [] h = unfold in_pipeline_rollback in absurd (cc)
    staged (n ∷ []) h = unfold in_pipeline_rollback in absurd (cc)
    staged (n ∷ stage ∷ up) h = (n, stage, up, refl, unfold in_pipeline_rollback in h)

pub or_joined_iff : (p : Pointer) → (or_joined p ≡ true) ↔ OrJoined p
unfolding or_joined
or_joined_iff p = ground (arith, by_guard (guard_of p), at_rollback_entry_iff p)
  where
    by_guard :
        (o : Option When)
        → (on_failure o ≡ true)
          ↔ ((w : When) × (o ≡ some w) × ((w.status ≡ "Failure") ⊎ (w.status ≡ "All")))
    by_guard none = unfold on_failure in (λ h. cc, λ (w, e, h). cc)
    by_guard (some v) =
        unfold on_failure in
        (
          λ h. (v, refl, ground (arith, h, eq_iff v.status "Failure", eq_iff v.status "All")),
          λ (w, e, h).
              let k =
                subst (λ (u : When). (u.status ≡ "Failure") ⊎ (u.status ≡ "All"))
                  (sym (some-injective _ _ e)) h in
              ground (arith, k, eq_iff v.status "Failure", eq_iff v.status "All"),
        )
