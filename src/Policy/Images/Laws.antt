-- ===== src/Policy/Images/Laws.antt =====
-- verifier/tasktype/image_allowlist.go: which requests the image allowlist lets through.
use text.Mathlib.Text.{starts_with}
use zero_trust_service.Common.{
  ◌≡◌, subst, sym, refl, ◌↔◌, inl, inr, String, true, false, some, List, [], ◌∷◌, arith, Elem,
  Bool-cases,
}
use zero_trust_service.Json.{Json}
use zero_trust_service.Fault.{Error, Result, ok}
use zero_trust_service.Types.{Bytes, VerifyRequest}
use zero_trust_service.Verifier.{Context}
use zero_trust_service.Policy.Images.{
  collect_image_names, extract_image_names, is_allowed, check_images, check_parameters, handle,
  package_parameters,
}
use zero_trust_service.Policy.Images.Named.{Names, collect_image_names_iff}

-- The image begins with one of the prefixes.
abbrev pub HasPrefix : List String → String → Type 0
HasPrefix prefixes n = (p : String) × Elem p prefixes × (starts_with n p ≡ true)

is_allowed_iff :
    (prefixes : List String) (n : String) → (is_allowed prefixes n ≡ true) ↔ HasPrefix prefixes n
unfolding is_allowed
is_allowed_iff [] n = (λ h. cc, λ (p, m, s). absurd m)
is_allowed_iff (q ∷ prefixes) n =
    let (to, from) = is_allowed_iff prefixes n in
    (
      λ h. elim (Bool-cases (starts_with n q)) [
        | inl e ↦ (q, inl refl, e)
        | inr e ↦ let (p, m, s) = to (rw e at h) in (p, inr m, s)
      ],
      λ (p, m, s). elim m [
        | inl e ↦
            let t : starts_with n q ≡ true = subst (λ r. starts_with n r ≡ true) (sym e) s in rw t
        | inr m' ↦ ground (arith, from (p, m', s))
      ],
    )

extract-eq-collect :
    (decode : Bytes → Result Json) (raw : Bytes) (v : Json)
    → decode raw ≡ ok v
    → extract_image_names decode raw ≡ collect_image_names v false
unfolding extract_image_names
extract-eq-collect decode raw v d = rw (d, extract_image_names)

module _ {W : Type 0} (decode : Bytes → Result Json) (quote : String → String)
    (show_list : List String → String) (prefixes : List String) where
  check_images_refuted :
      (images : List String) (w : W) (e : Error)
      → (check_images decode quote show_list prefixes images w).0 ≡ some e
      → (n : String) × Elem n images × (is_allowed prefixes n ≡ false)
  unfolding check_images
  check_images_refuted [] w e h = cc
  check_images_refuted (i ∷ images) w e h = elim (Bool-cases (is_allowed prefixes i)) [
    | inl t ↦ let (n, m, f) = check_images_refuted images w e (rw t at h) in (n, inr m, f)
    | inr f ↦ (i, inl refl, f)
  ]

  check_parameters_refuted :
      (raw : Bytes) (w : W) (v : Json) (e : Error)
      → decode raw ≡ ok v
      → (check_parameters decode quote show_list prefixes raw w).0 ≡ some e
      → (n : String) × Names false v n × (¬ HasPrefix prefixes n)
  unfolding check_parameters
  check_parameters_refuted [] w v e d h = cc
  check_parameters_refuted (b ∷ raw) w v e d h =
      let (n, m, f) =
        check_images_refuted (collect_image_names v false) w e
          (rw (extract-eq-collect decode (b ∷ raw) v d, check_parameters) at h) in
      (
        n,
        (collect_image_names_iff v false n).0 m,
        λ p. let t = (is_allowed_iff prefixes n).1 p in cc,
      )

  module _ (ctx : Context) (req : VerifyRequest) (w : W) (v : Json)
      (decoded : decode (package_parameters req.task_package) ≡ ok v) where
    -- If the allowlist denies a request whose task parameters decode to a value, then the value names
    -- an image that begins with none of the allowed prefixes.
    pub handle_refuted :
        (e : Error)
        → (handle decode quote show_list prefixes ctx req w).0 ≡ some e
        → (n : String) × Names false v n × (¬ HasPrefix prefixes n)
    unfolding handle
    handle_refuted e h = check_parameters_refuted _ w v e decoded h
