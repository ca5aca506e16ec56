-- ===== src/AuditReader/Matched.antt =====
-- audit/file/reader.go: which records a listing finds.
use zero_trust_service.Common.{
  ℕ, zero, suc, ◌+◌, ◌-◌, ◌/◌, ◌≤◌, ◌≡◌, ◌≢◌, refl, ◌↔◌, inl, inr, true, List, [], ◌∷◌, Elem,
  Elem-append, arith, Bool-cases, subst, sym, ap,
}
use zero_trust_service.Fault.{Result, ok, err}
use zero_trust_service.Types.{Bytes}
use zero_trust_service.State.{Record}
use zero_trust_service.AuditReader.{
  ListRequest, matches_verify_filters, nanoseconds_per_day, days_from, dates_to_scan, keep_record,
  keep_line, scan_verify_file, scan_result, scan_days,
}

days_from_iff :
    (day count d : ℕ) → Elem d (days_from day count) ↔ ((day ≤ d) × (suc d ≤ day + count))
unfolding days_from
days_from_iff day zero d = (λ h. absurd h, λ (a, b). omega arith)
days_from_iff day (suc count) d = ground (arith, days_from_iff (suc day) count d)

abbrev value_or : {A : Type 0} → A → Result A → A
value_or a (err e) = a
value_or a (ok b) = b

ok_injective : {A : Type 0} {a b : A} → ok a ≡ ok b → a ≡ b
ok_injective {a = a} h = ap (value_or a) h

module _ (decode : Bytes → Result Record) (req : ListRequest) where
  -- A line that decodes to the record, where the filters let the record through.
  abbrev pub IsLine : Bytes → Record → Type 0
  IsLine line r = (line ≢ []) × (decode line ≡ ok r) × (matches_verify_filters r req ≡ true)

  -- The file of the day can be read, and has a line for the record.
  abbrev pub IsStored : (ℕ → Result (List Bytes)) → ℕ → Record → Type 0
  IsStored read day r =
      (lines : List Bytes) × (read day ≡ ok lines)
      × ((line : Bytes) × Elem line lines × IsLine line r)

  keep_record_iff :
      (o : Result Record) (r : Record)
      → Elem r (keep_record decode req o) ↔ ((o ≡ ok r) × (matches_verify_filters r req ≡ true))
  unfolding keep_record
  keep_record_iff (err e) r = (λ h. absurd h, λ (h, _). cc)
  keep_record_iff (ok q) r = elim (Bool-cases (matches_verify_filters q req)) [
    | inl t ↦ rw t (
      λ h. elim h [
        | inl e ↦ (ap ok e, subst (λ k. matches_verify_filters k req ≡ true) e t)
        | inr n ↦ absurd n
      ],
      λ (h, _). inl (ok_injective h),
    )
    | inr f ↦ rw f (
      λ h. absurd h,
      λ (h, m).
          let m' : matches_verify_filters q req ≡ true =
            subst (λ k. matches_verify_filters k req ≡ true) (sym (ok_injective h)) m in
          absurd (let g = m' in cc),
    )
  ]

  keep_line_iff : (line : Bytes) (r : Record) → Elem r (keep_line decode req line) ↔ IsLine line r
  unfolding keep_line
  keep_line_iff [] r = (λ h. absurd h, λ (h, _, _). absurd (h refl))
  keep_line_iff (b ∷ line) r =
      let (to, from) = keep_record_iff (decode (b ∷ line)) r in
      (λ h. let (d, m) = to h in (λ e. cc, d, m), λ (_, h, g). from (h, g))

  scan_verify_file_iff :
      (lines : List Bytes) (r : Record)
      → Elem r (scan_verify_file decode req lines)
        ↔ ((line : Bytes) × Elem line lines × IsLine line r)
  unfolding scan_verify_file
  scan_verify_file_iff [] r = (λ h. absurd h, λ (_, h, _). absurd h)
  scan_verify_file_iff (l ∷ lines) r =
      let (split, glue) =
        Elem-append r (keep_line decode req l) (scan_verify_file decode req lines) in
      let (here, here') = keep_line_iff l r in
      let (there, there') = scan_verify_file_iff lines r in
      (
        λ h. elim (split h) [
          | inl x ↦ (l, inl refl, here x)
          | inr y ↦ let (k, m, p) = there y in (k, inr m, p)
        ],
        λ (k, m, p). elim m [
          | inl e ↦ glue (inl (here' (subst (λ j. IsLine j r) (sym e) p)))
          | inr n ↦ glue (inr (there' (k, n, p)))
        ],
      )

  scan_result_iff :
      (o : Result (List Bytes)) (r : Record)
      → Elem r (scan_result decode req o) ↔ (
          (lines : List Bytes) × (o ≡ ok lines)
          × ((line : Bytes) × Elem line lines × IsLine line r))
  unfolding scan_result
  scan_result_iff (err e) r = (λ h. absurd h, λ (_, h, _). cc)
  scan_result_iff (ok lines) r =
      let (to, from) = scan_verify_file_iff lines r in
      (
        λ h. (lines, refl, to h),
        λ (ls, e, x).
            from
              (subst (λ k. (line : Bytes) × Elem line k × IsLine line r) (sym (ok_injective e)) x),
      )

  scan_days_iff :
      (read : ℕ → Result (List Bytes)) (days : List ℕ) (r : Record)
      → Elem r (scan_days decode req read days) ↔ ((day : ℕ) × Elem day days × IsStored read day r)
  unfolding scan_days
  scan_days_iff read [] r = (λ h. absurd h, λ (_, h, _). absurd h)
  scan_days_iff read (d ∷ days) r =
      let (split, glue) =
        Elem-append r (scan_result decode req (read d)) (scan_days decode req read days) in
      let (here, here') = scan_result_iff (read d) r in
      let (there, there') = scan_days_iff read days r in
      (
        λ h. elim (split h) [
          | inl x ↦ (d, inl refl, here x)
          | inr y ↦ let (k, m, p) = there y in (k, inr m, p)
        ],
        λ (k, m, p). elim m [
          | inl e ↦ glue (inl (here' (subst (λ j. IsStored read j r) (sym e) p)))
          | inr n ↦ glue (inr (there' (k, n, p)))
        ],
      )

  -- The records that a listing finds before it cuts out a page are exactly those that stand in a
  -- readable file of a day between those of the two times, both included, on a line that is not empty
  -- and decodes, and that the filters let through.
  pub scan_days-dates_iff :
      (read : ℕ → Result (List Bytes)) (r : Record)
      → Elem r (scan_days decode req read (dates_to_scan req.from_time req.to_time)) ↔ (
          (day : ℕ) × ((req.from_time / nanoseconds_per_day ≤ day)
            × (day ≤ req.to_time / nanoseconds_per_day))
          × IsStored read day r)
  unfolding dates_to_scan
  scan_days-dates_iff read r =
      let first = req.from_time / nanoseconds_per_day in
      let last = req.to_time / nanoseconds_per_day in
      let (to, from) = scan_days_iff read (days_from first (suc last - first)) r in
      (
        λ h.
            let (day, m, stored) = to h in
            let (a, b) = (days_from_iff first (suc last - first) day).0 m in
            (day, (a, omega (arith, a, b)), stored),
        λ (day, (a, b), stored).
            from (
              day,
              (days_from_iff first (suc last - first) day).1 (a, omega (arith, a, b)),
              stored,
            ),
      )
