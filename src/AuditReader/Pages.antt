-- ===== src/AuditReader/Pages.antt =====
-- audit/file/reader.go: the pages of a listing.
use zero_trust_service.Common.{
  ℕ, zero, suc, ◌+◌, ◌-◌, ◌^◌, ◌<◌, ◌≤◌, ◌≡◌, refl, sym, ap, ◌∙◌, false, none, some, List, [], ◌∷◌,
  ◌++◌, if◌then◌else◌, arith, length, ltb, leb, Bool-cases, inl, inr,
}
use zero_trust_service.AuditReader.{paginate_range, take, drop, page}

abbrev pub smaller : ℕ → ℕ → ℕ
smaller a b = if ltb a b then a else b

leb_below : (a b : ℕ) → b < a → leb a b ≡ false
leb_below a b h = ground (arith, h)

module _ {A : Type 0} where
  take_all : (n : ℕ) (xs : List A) → length xs ≤ n → take n xs ≡ xs
  take_all zero [] h = refl
  take_all (suc n) [] h = refl
  take_all zero (x ∷ xs) h = absurd (omega (arith, h))
  take_all (suc n) (x ∷ xs) h = ap (λ l. x ∷ l) (take_all n xs (omega (arith, h)))

  drop_all : (n : ℕ) (xs : List A) → length xs ≤ n → drop n xs ≡ []
  drop_all zero [] h = refl
  drop_all (suc n) [] h = refl
  drop_all zero (x ∷ xs) h = absurd (omega (arith, h))
  drop_all (suc n) (x ∷ xs) h = drop_all n xs (omega (arith, h))

  length-drop : (n : ℕ) (xs : List A) → length (drop n xs) ≡ length xs - n
  length-drop zero xs = omega arith
  length-drop (suc n) [] = omega arith
  length-drop (suc n) (x ∷ xs) = omega (arith, length-drop n xs)

  take_nil : (n : ℕ) → ◌≡◌ {A = List A} (take n []) []
  take_nil zero = refl
  take_nil (suc n) = refl

  cut-eq-take :
      (xs : List A) (start limit : ℕ)
      → start + limit < 2 ^ 63
      → (if leb (2 ^ 63) (start + limit)
          then none
          else some (
              take
                ((if ltb (length xs) (start + limit) then length xs else start + limit) - start)
                (drop start xs)))
        ≡ some (take limit (drop start xs))
  cut-eq-take xs start limit h = elim (Bool-cases (ltb (length xs) (start + limit))) [
    | inl e ↦
        let lt : length xs < start + limit = ground (arith, e) in
        let rest = length-drop start xs in
        rw (leb_below (2 ^ 63) (start + limit) h, e)
          (ap some (
            take_all (length xs - start) (drop start xs) (omega (arith, rest))
            ∙ sym (take_all limit (drop start xs) (omega (arith, rest, lt)))))
    | inr e ↦
        let same : start + limit - start ≡ limit = omega arith in
        rw (leb_below (2 ^ 63) (start + limit) h, e) (ap (λ n. some (take n (drop start xs))) same)
  ]

  -- A page whose end does not overflow is what the records hold from the offset on, at most as many
  -- as the limit says.
  page-eq-take :
      (xs : List A) (offset limit : ℕ)
      → offset + limit < 2 ^ 63
      → page xs offset limit ≡ some (take limit (drop offset xs))
  unfolding page paginate_range
  page-eq-take xs offset limit h = elim (Bool-cases (ltb (length xs) offset)) [
    | inl e ↦
        let lt : length xs < offset = ground (arith, e) in
        rw e (
          cut-eq-take xs (length xs) limit (omega (arith, h, lt))
          ∙ ap (λ l. some (take limit l))
              (drop_all (length xs) xs (omega arith)
                ∙ sym (drop_all offset xs (omega (arith, lt)))))
    | inr e ↦ rw e (cut-eq-take xs offset limit h)
  ]

  take-append : (l m : ℕ) (xs : List A) → take l xs ++ take m (drop l xs) ≡ take (l + m) xs
  take-append zero m xs = let e : m ≡ 0 + m = omega arith in ap (λ n. take n xs) e
  take-append (suc l) m [] = take_nil m ∙ sym (take_nil (suc l + m))
  take-append (suc l) m (x ∷ xs) =
      let e : suc (l + m) ≡ suc l + m = omega arith in
      ap (λ k. x ∷ k) (take-append l m xs) ∙ ap (λ n. take n (x ∷ xs)) e

  drop-drop : (o l : ℕ) (xs : List A) → drop l (drop o xs) ≡ drop (o + l) xs
  drop-drop zero l xs = let e : l ≡ 0 + l = omega arith in ap (λ n. drop n xs) e
  drop-drop (suc o) l [] = drop_all l [] (omega arith) ∙ sym (drop_all (suc o + l) [] (omega arith))
  drop-drop (suc o) l (x ∷ xs) =
      let e : suc (o + l) ≡ suc o + l = omega arith in
      drop-drop o l xs ∙ ap (λ n. drop n (x ∷ xs)) e

  length-take : (n : ℕ) (xs : List A) → length (take n xs) ≡ smaller n (length xs)
  length-take zero xs = ground arith
  length-take (suc n) [] = ground arith
  length-take (suc n) (x ∷ xs) = ground (arith, length-take n xs)

  take-drop : (n : ℕ) (xs : List A) → take n xs ++ drop n xs ≡ xs
  take-drop zero xs = refl
  take-drop (suc n) [] = refl
  take-drop (suc n) (x ∷ xs) = ap (λ l. x ∷ l) (take-drop n xs)

  -- Where the end does not overflow, no page panics. The records that are listed are those before a
  -- page, the page, the page that starts where it ends, and those behind, in this order, so that no
  -- record is lost or repeated between two pages. There are as many before the page as the offset
  -- says and on each page as its limit says, or as many as are left; and the page of both limits
  -- is the two pages together.
  pub page_tiles :
      (xs : List A) (offset limit next : ℕ)
      → offset + (limit + next) < 2 ^ 63
      → (before here there behind : List A) × (page xs offset limit ≡ some here)
        × (page xs (offset + limit) next ≡ some there)
        × (page xs offset (limit + next) ≡ some (here ++ there))
        × (xs ≡ before ++ (here ++ (there ++ behind)))
        × (length before ≡ smaller offset (length xs))
        × (length here ≡ smaller limit (length xs - offset))
        × (length there ≡ smaller next (length xs - (offset + limit)))
  page_tiles xs offset limit next h = (
    take offset xs,
    take limit (drop offset xs),
    take next (drop (offset + limit) xs),
    drop next (drop (offset + limit) xs),
    page-eq-take xs offset limit (omega (arith, h)),
    page-eq-take xs (offset + limit) next (omega (arith, h)),
    page-eq-take xs offset (limit + next) h
        ∙ ap some (
            sym (take-append limit next (drop offset xs))
            ∙ ap (λ k. take limit (drop offset xs) ++ take next k) (drop-drop offset limit xs)),
    sym (
        ap (λ l. take offset xs ++ (take limit (drop offset xs) ++ l))
          (take-drop next (drop (offset + limit) xs) ∙ sym (drop-drop offset limit xs))
        ∙ ap (λ l. take offset xs ++ l) (take-drop limit (drop offset xs))
        ∙ take-drop offset xs),
    length-take offset xs,
    length-take limit (drop offset xs) ∙ ap (λ n. smaller limit n) (length-drop offset xs),
    length-take next (drop (offset + limit) xs)
        ∙ ap (λ n. smaller next n) (length-drop (offset + limit) xs),
  )
