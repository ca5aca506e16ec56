-- ===== src/Service/Built.antt =====
-- examples/zts/build.go: what `buildVerifiers` builds.
use mathlib.Core.Option.{some-injective}
use zero_trust_service.Common.{
  ℕ, suc, ◌≡◌, refl, ap, sym, subst, String, false, Option, List, [], ◌∷◌, length, Bool-cases,
  Option-cases, inl, inr, none, some, Bool, ◌≢◌, ◌↔◌,
}
use zero_trust_service.Fault.{Result, ok, err}
use zero_trust_service.Verifier.{Interface}
use zero_trust_service.Service.Build.{
  ValidatorDef, enabled_flag, is_enabled, ResolveFunc, WrapFunc, wrapped_by, add_verifier,
  build_verifier, build_from, build_verifiers,
}

module _ {W C : Type 0} (show : ℕ → String) (resolve_by : ResolveFunc W C)
    (wrap : Option (WrapFunc W)) where
  -- The verifiers of the definitions that are not disabled, in their order, each as the registry made
  -- it, and wrapped under its name where there is a wrapper.
  pub data Built : List (ValidatorDef C) → List (Interface W) → Type 0 where
    none_left : Built [] []
    disabled :
        {def : ValidatorDef C} {defs : List (ValidatorDef C)} {vs : List (Interface W)}
        → def.enabled ≡ some false
        → Built defs vs
        → Built (def ∷ defs) vs
    bare :
        {def : ValidatorDef C} {defs : List (ValidatorDef C)} {v : Interface W}
        {vs : List (Interface W)}
        → def.enabled ≢ some false
        → resolve_by def.type_name def.config ≡ ok v
        → wrap ≡ none
        → Built defs vs
        → Built (def ∷ defs) (v ∷ vs)
    wrapped_as :
        {def : ValidatorDef C} {defs : List (ValidatorDef C)} {v : Interface W}
        {vs : List (Interface W)} (f : WrapFunc W)
        → def.enabled ≢ some false
        → resolve_by def.type_name def.config ≡ ok v
        → wrap ≡ some f
        → Built defs vs
        → Built (def ∷ defs) (f def.type_name v ∷ vs)

  resolved :
      {def : ValidatorDef C} {defs : List (ValidatorDef C)} {v : Interface W}
      {vs : List (Interface W)}
      → def.enabled ≢ some false
      → resolve_by def.type_name def.config ≡ ok v
      → Built defs vs
      → Built (def ∷ defs) (wrapped_by wrap def.type_name v ∷ vs)
  unfolding wrapped_by
  resolved {def = def} {defs = defs} {v = v} {vs = vs} on found b =
      let as_wrapped : Option (WrapFunc W) → Type 0 =
        λ o. Built (def ∷ defs) (wrapped_by o def.type_name v ∷ vs) in
      elim (Option-cases wrap) [
        | inl e ↦ subst as_wrapped (sym e) (bare on found e b)
        | inr (f, e) ↦ subst as_wrapped (sym e) (wrapped_as f on found e b)
      ]

  enabled_iff : (def : ValidatorDef C) → (is_enabled def ≡ false) ↔ (def.enabled ≡ some false)
  unfolding is_enabled enabled_flag
  enabled_iff def = by_case def.enabled
    where
      by_case : (o : Option Bool) → (enabled_flag o ≡ false) ↔ (o ≡ some false)
      by_case none = (λ h. cc, λ h. cc)
      by_case (some b) = (λ h. ap some h, λ h. some-injective _ _ h)

  BuiltAs : List (ValidatorDef C) → Result (List (Interface W) × ℕ) → Type 0
  BuiltAs defs (err e) = Unit
  BuiltAs defs (ok (vs, n)) = Built defs vs × (n ≡ length vs)

  add_verifier-BuiltAs :
      (def : ValidatorDef C) (defs : List (ValidatorDef C)) (v : Interface W)
      (r : Result (List (Interface W) × ℕ))
      → def.enabled ≢ some false
      → resolve_by def.type_name def.config ≡ ok v
      → BuiltAs defs r
      → BuiltAs (def ∷ defs) (add_verifier (wrapped_by wrap def.type_name v) r)
  unfolding BuiltAs add_verifier
  add_verifier-BuiltAs def defs v (err e) on found h = tt
  add_verifier-BuiltAs def defs v (ok (vs, n)) on found (b, c) = (resolved on found b, ap suc c)

  build_verifier-BuiltAs :
      (scope : String) (i : ℕ) (def : ValidatorDef C) (defs : List (ValidatorDef C))
      (o : Result (Interface W)) (r : Result (List (Interface W) × ℕ))
      → def.enabled ≢ some false
      → resolve_by def.type_name def.config ≡ o
      → BuiltAs defs r
      → BuiltAs (def ∷ defs) (build_verifier show resolve_by wrap scope i def o r)
  unfolding build_verifier BuiltAs
  build_verifier-BuiltAs scope i def defs (err e) r on found h = tt
  build_verifier-BuiltAs scope i def defs (ok v) r on found h =
      add_verifier-BuiltAs def defs v r on found h

  skip-BuiltAs :
      (def : ValidatorDef C) (defs : List (ValidatorDef C)) (r : Result (List (Interface W) × ℕ))
      → def.enabled ≡ some false
      → BuiltAs defs r
      → BuiltAs (def ∷ defs) r
  unfolding BuiltAs
  skip-BuiltAs def defs (err e) off h = tt
  skip-BuiltAs def defs (ok (vs, n)) off (b, c) = (disabled off b, c)

  build_from-BuiltAs :
      (scope : String) (i : ℕ) (defs : List (ValidatorDef C))
      → BuiltAs defs (build_from show resolve_by wrap scope i defs)
  unfolding build_from BuiltAs
  build_from-BuiltAs scope i [] = (none_left, refl)
  build_from-BuiltAs scope i (def ∷ defs) =
      let h = build_from-BuiltAs scope (suc i) defs in
      elim (Bool-cases (is_enabled def)) [
        | inl e ↦ rw e (
            build_verifier-BuiltAs scope i def defs _ _
              (λ off. let k = (enabled_iff def).1 off in absurd (cc)) refl h)
        | inr e ↦ rw e (skip-BuiltAs def defs _ ((enabled_iff def).0 e) h)
      ]

  BuiltAs-ok :
      (defs : List (ValidatorDef C)) (r : Result (List (Interface W) × ℕ)) (vs : List (Interface W))
      (n : ℕ)
      → BuiltAs defs r
      → r ≡ ok (vs, n)
      → Built defs vs × (n ≡ length vs)
  unfolding BuiltAs
  BuiltAs-ok defs r vs n h e = rw e at h

  -- Where the verifiers of a scope could be built, they are those of the definitions that are not
  -- disabled, in their order, each as the registry made it, and wrapped under its name where there is
  -- a wrapper, and the count is their number.
  pub build_verifiers-Built :
      (scope : String) (defs : List (ValidatorDef C)) (vs : List (Interface W)) (n : ℕ)
      → build_verifiers show resolve_by wrap scope defs ≡ ok (vs, n)
      → Built defs vs × (n ≡ length vs)
  unfolding build_verifiers
  build_verifiers-Built scope defs vs n h =
      BuiltAs-ok defs _ vs n (build_from-BuiltAs scope 0 defs) h
