-- ===== src/Pipeline/Guarding.antt =====
-- verifier/pipeline/graph.go: the guards that `Resolve` gathers for a step.
use mathlib.Core.Option.{some-injective}
use zero_trust_service.Common.{
  ◌≡◌, refl, subst, ◌↔◌, ◌⊎◌, inl, inr, ℕ, zero, suc, Bool, true, false, Option, none, some, List,
  [], ◌∷◌, ◌++◌, All, if◌then◌else◌, All-append,
}
use zero_trust_service.Pipeline.Model.{When}
use zero_trust_service.Pipeline.Graph.{GraphNode, Pointer, info, children, is_rollback}
use zero_trust_service.Pipeline.Climb.{climb, terminal_at, with_guard}
use zero_trust_service.Pipeline.Resolve.{guard_of}
use zero_trust_service.Pipeline.Standing.{Above, entered, further}

module _ (P : When → Type 0) where
  with_guard_iff :
      (o : Option When) (conds : List When)
      → All P (with_guard o conds) ↔ (All P conds × ((w : When) → o ≡ some w → P w))
  with_guard_iff none conds = (λ h. (h, λ w e. absurd (cc)), λ h. h.0)
  with_guard_iff (some v) conds = (
    λ h. let (a, b) = split conds h in (a, λ w e. subst P (some-injective _ _ e) b),
    λ (a, h). All-append P conds (v ∷ []) a (h v refl, tt),
  )
    where
      split : (cs : List When) → All P (cs ++ v ∷ []) → All P cs × P v
      split [] (h, _) = (tt, h)
      split (c ∷ cs) (h, hs) = let (a, b) = split cs hs in ((h, a), b)

  -- The guards that the climb gathers, on whether the node is the root of a rollback, whether its
  -- parent is concurrent, and its index.
  one_climb :
      (n parent : GraphNode) (up : Pointer) (conds : List When) (b c : Bool) (i : ℕ)
      (above : List When → List Pointer × List When) (x : List Pointer) (y : ℕ → List Pointer)
      → is_rollback n ≡ b
      → (info parent).concurrent ≡ c
      → (info n).index ≡ i
      → ((cs : List When)
          → All P (above cs).1 ↔ (All P cs × ((w : When) → Above (parent ∷ up) w → P w)))
      → All P
          (if b
            then (x, conds)
            else if c
            then above (if c then conds else with_guard (info parent).guard conds)
            else elim i [
              | zero ↦ above (if c then conds else with_guard (info parent).guard conds)
              | suc j ↦ (y j, conds)
            ]).1
        ↔ (All P conds × ((w : When) → Above (n ∷ parent ∷ up) w → P w))
  one_climb n parent up conds true c i above x y eb ec ei ih =
      (λ h. (h, λ w a. elim a [ entered f _ _ _ ↦ cc | further f _ _ ↦ cc ]), λ h. h.0)
  one_climb n parent up conds false true i above x y eb ec ei ih = (
    λ h.
        let (k, rest) = (ih conds).0 h in
        (k, λ w a. elim a [ entered _ f _ _ ↦ cc | further _ _ r ↦ rest w r ]),
    λ (k, rest). (ih conds).1 (k, λ w r. rest w (further eb (inl ec) r)),
  )
  one_climb n parent up conds false false zero above x y eb ec ei ih = (
    λ h.
        let (k, rest) = (ih (with_guard (info parent).guard conds)).0 h in
        let (k', own) = (with_guard_iff (info parent).guard conds).0 k in
        (k', λ w a. elim a [ entered _ _ _ e ↦ own w e | further _ _ r ↦ rest w r ]),
    λ (k, rest). (ih (with_guard (info parent).guard conds)).1 (
      (with_guard_iff (info parent).guard conds).1 (k, λ w e. rest w (entered eb ec ei e)),
      λ w r. rest w (further eb (inr ei) r),
    ),
  )
  one_climb n parent up conds false false (suc i) above x y eb ec ei ih = (
    λ h. (
      h,
      λ w a. elim a [ entered _ _ f _ ↦ cc | further _ f _ ↦ elim f [ inl g ↦ cc | inr g ↦ cc ] ],
    ),
    λ h. h.0,
  )

  climb_iff :
      (p : Pointer) (conds : List When)
      → All P (climb p conds).1 ↔ (All P conds × ((w : When) → Above p w → P w))
  unfolding climb
  climb_iff [] conds = (λ h. (h, λ w a. absurd (nothing a)), λ h. h.0)
    where
      nothing : {w : When} → ¬ Above [] w
      nothing a = elim a [ ]
  climb_iff (n ∷ []) conds = (λ h. (h, λ w a. absurd (nothing a)), λ h. h.0)
    where
      nothing : {w : When} → ¬ Above (n ∷ []) w
      nothing a = elim a [ ]
  climb_iff (n ∷ parent ∷ up) conds =
      one_climb n parent up conds (is_rollback n) (info parent).concurrent (info n).index
        (climb (parent ∷ up)) _ (λ j. terminal_at j (children parent) (parent ∷ up)) refl refl refl
        (climb_iff (parent ∷ up))

  -- The guards that `Resolve` gives.
  pub conditions_iff :
      (p : Pointer)
      → All P (climb p (with_guard (guard_of p) [])).1
        ↔ ((w : When) → (guard_of p ≡ some w) ⊎ Above p w → P w)
  conditions_iff p =
      let (to, from) = climb_iff p (with_guard (guard_of p) []) in
      let (own, both) = with_guard_iff (guard_of p) [] in
      (
        λ h w k. elim k [ inl e ↦ (own (to h).0).1 w e | inr a ↦ (to h).1 w a ],
        λ h. from (both (tt, λ w e. h w (inl e)), λ w a. h w (inr a)),
      )
