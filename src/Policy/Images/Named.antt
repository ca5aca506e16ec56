-- ===== src/Policy/Images/Named.antt =====
-- verifier/tasktype/image_allowlist.go: which images a decoded value names, as a relation that
-- fixes no order, and the collected names as exactly those.
use zero_trust_service.Common.{
  ◌≡◌, subst, ◌≢◌, refl, ap, sym, ◌↔◌, inl, inr, String, Bool, true, false, Option, none, some, [],
  ◌==◌, ◌||◌, if◌then◌else◌, arith, eq_iff, Elem, Elem-append, lookup, Bool-cases,
}
use mathlib.Core.Option.{some-injective}
use zero_trust_service.Json.{
  Json, null, bool, number, str, arr, obj, Elems, nil, cons, Fields, end, field, fields, elems,
}
use zero_trust_service.Policy.Images.{
  string_name, own_name, step_image, collect_image_names, collect_details, collect_children,
  collect_items,
}

-- `Names inside v n`: the value `v`, found directly inside of an `imageDetails` entry or not, names
-- the image `n`.
pub data Names : Bool → Json → String → Type 0 where
  details :
      {b : Bool} {fs : Fields} {v : Json} {n : String}
      → lookup "imageDetails" (fields fs) ≡ some v
      → Names true v n
      → Names b (obj fs) n
  name :
      {fs : Fields} {n : String}
      → lookup "name" (fields fs) ≡ some (str n)
      → n ≢ ""
      → Names true (obj fs) n
  step :
      {b : Bool} {fs gs : Fields} {n : String}
      → lookup "stepInfo" (fields fs) ≡ some (obj gs)
      → lookup "image" (fields gs) ≡ some (str n)
      → n ≢ ""
      → Names b (obj fs) n
  child :
      {b : Bool} {fs : Fields} {k : String} {v : Json} {n : String}
      → Elem (k, v) (fields fs)
      → k ≢ "imageDetails"
      → k ≢ "stepInfo"
      → Names false v n
      → Names b (obj fs) n
  item :
      {b : Bool} {vs : Elems} {v : Json} {n : String}
      → Elem v (elems vs)
      → Names b v n
      → Names b (arr vs) n

string_name_iff :
    (o : Option Json) (n : String) → Elem n (string_name o) ↔ ((o ≡ some (str n)) × (n ≢ ""))
string_name_iff none n = ground arith
string_name_iff (some null) n = ground arith
string_name_iff (some (bool b)) n = ground arith
string_name_iff (some (number s)) n = ground arith
string_name_iff (some (str s)) n = ground (arith, eq_iff s "")
string_name_iff (some (arr vs)) n = ground arith
string_name_iff (some (obj fs)) n = ground arith

own_name_sound : (b : Bool) (fs : Fields) (n : String) → Elem n (own_name b fs) → Names b (obj fs) n
own_name_sound true fs n h =
    let (e, filled) = (string_name_iff (lookup "name" (fields fs)) n).0 h in name e filled
own_name_sound false fs n h = absurd h

step_of :
    (fs : Fields) (n : String) (o : Option Json)
    → lookup "stepInfo" (fields fs) ≡ o
    → Elem n (step_image o)
    → (b : Bool) → Names b (obj fs) n
step_of fs n (some (obj gs)) e h b =
    let (f, filled) = (string_name_iff (lookup "image" (fields gs)) n).0 h in step e f filled
step_of fs n none e h b = absurd h
step_of fs n (some null) e h b = absurd h
step_of fs n (some (bool x)) e h b = absurd h
step_of fs n (some (number s)) e h b = absurd h
step_of fs n (some (str s)) e h b = absurd h
step_of fs n (some (arr vs)) e h b = absurd h

mutual
  unfolding collect_image_names lookup

  sound : (v : Json) (b : Bool) (n : String) → Elem n (collect_image_names v b) → Names b v n
  sound null b n h = absurd h
  sound (bool x) b n h = absurd h
  sound (number x) b n h = absurd h
  sound (str x) b n h = absurd h
  sound (arr vs) b n h = let (v, m, r) = sound_items vs b n h in item m r
  sound (obj fs) b n h = elim ((Elem-append n (collect_details fs) _).0 h) [
    | inl h1 ↦ let (v, e, r) = sound_details fs n h1 in details e r
    | inr h2 ↦ elim ((Elem-append n (own_name b fs) _).0 h2) [
      | inl h3 ↦ own_name_sound b fs n h3
      | inr h4 ↦ elim ((Elem-append n (step_image (lookup "stepInfo" (fields fs))) _).0 h4) [
        | inl h5 ↦ step_of fs n _ refl h5 b
        | inr h6 ↦ let (k, v, m, p, q, r) = sound_children fs n h6 in child m p q r
      ]
    ]
  ]

  sound_details :
      (fs : Fields) (n : String)
      → Elem n (collect_details fs)
      → (v : Json) × (lookup "imageDetails" (fields fs) ≡ some v) × Names true v n
  sound_details end n h = absurd h
  sound_details (field k v fs) n h = elim (Bool-cases (k == "imageDetails")) [
    | inl e ↦ (v, rw e, sound v true n (rw e at h))
    | inr e ↦ let (u, f, r) = sound_details fs n (rw e at h) in (u, rw e f, r)
  ]

  sound_children :
      (fs : Fields) (n : String)
      → Elem n (collect_children fs)
      → (k : String) × (v : Json) × Elem (k, v) (fields fs)
        × (k ≢ "imageDetails")
        × (k ≢ "stepInfo")
        × Names false v n
  sound_children end n h = absurd h
  sound_children (field k v fs) n h = elim (Bool-cases (k == "imageDetails" || k == "stepInfo")) [
    | inl e ↦ let (j, u, m, p, q, r) = sound_children fs n (rw e at h) in (j, u, inr m, p, q, r)
    | inr e ↦ elim ((Elem-append n (collect_image_names v false) _).0 (rw e at h)) [
      | inl h1 ↦ (
        k,
        v,
        inl refl,
        ground (arith, eq_iff k "imageDetails"),
        ground (arith, eq_iff k "stepInfo"),
        sound v false n h1,
      )
      | inr h2 ↦ let (j, u, m, p, q, r) = sound_children fs n h2 in (j, u, inr m, p, q, r)
    ]
  ]

  sound_items :
      (vs : Elems) (b : Bool) (n : String)
      → Elem n (collect_items vs b)
      → (v : Json) × Elem v (elems vs) × Names b v n
  sound_items nil b n h = absurd h
  sound_items (cons v vs) b n h = elim ((Elem-append n (collect_image_names v b) _).0 h) [
    | inl h1 ↦ (v, inl refl, sound v b n h1)
    | inr h2 ↦ let (u, m, r) = sound_items vs b n h2 in (u, inr m, r)
  ]

-- The other way: an entry that a lookup finds, or a loop visits, is collected.
details_complete :
    (fs : Fields) (v : Json) (n : String)
    → lookup "imageDetails" (fields fs) ≡ some v
    → Elem n (collect_image_names v true)
    → Elem n (collect_details fs)
unfolding collect_image_names lookup
details_complete end v n e h = cc
details_complete (field k u fs) v n e h = elim (Bool-cases (k == "imageDetails")) [
  | inl t ↦
      let same : u ≡ v = some-injective u v (rw t at e) in
      rw t (subst (λ x. Elem n (collect_image_names x true)) (sym same) h)
  | inr t ↦ rw t (details_complete fs v n (rw t at e) h)
]

children_complete :
    (fs : Fields) (k : String) (v : Json) (n : String)
    → Elem (k, v) (fields fs)
    → k ≢ "imageDetails"
    → k ≢ "stepInfo"
    → Elem n (collect_image_names v false)
    → Elem n (collect_children fs)
unfolding collect_image_names
children_complete end k v n m p q h = absurd m
children_complete (field j u fs) k v n (inl e) p q h =
    let other : (j == "imageDetails" || j == "stepInfo") ≡ false =
      ground
        (arith, eq_iff j "imageDetails", eq_iff j "stepInfo", ap (λ (x : String × Json). x.0) e) in
    let same : u ≡ v = ap (λ (x : String × Json). x.1) e in
    rw other (
      (Elem-append n (collect_image_names u false) _).1
        (inl (subst (λ x. Elem n (collect_image_names x false)) (sym same) h)))
children_complete (field j u fs) k v n (inr m) p q h =
    (Elem-append n
        (if j == "imageDetails" || j == "stepInfo" then [] else collect_image_names u false) _).1
      (inr (children_complete fs k v n m p q h))

items_complete :
    (vs : Elems) (v : Json) (b : Bool) (n : String)
    → Elem v (elems vs)
    → Elem n (collect_image_names v b)
    → Elem n (collect_items vs b)
unfolding collect_image_names
items_complete nil v b n m h = absurd m
items_complete (cons u vs) v b n (inl e) h =
    (Elem-append n (collect_image_names u b) _).1
      (inl (subst (λ x. Elem n (collect_image_names x b)) (sym e) h))
items_complete (cons u vs) v b n (inr m) h =
    (Elem-append n (collect_image_names u b) _).1 (inr (items_complete vs v b n m h))

complete : {b : Bool} {v : Json} {n : String} → Names b v n → Elem n (collect_image_names v b)
unfolding collect_image_names
complete (details {fs} {v} {n} e r) =
    (Elem-append n (collect_details fs) _).1 (inl (details_complete fs v n e (complete r)))
complete (name {fs} {n} e filled) =
    (Elem-append n (collect_details fs) _).1
      (inr ((Elem-append n (own_name true fs) _).1 (inl ((string_name_iff _ n).1 (e, filled)))))
complete (step {b} {fs} {n} e f filled) = (Elem-append n (collect_details fs) _).1 (
    inr (
      (Elem-append n (own_name b fs) _).1 (
        inr (
          (Elem-append n (step_image (lookup "stepInfo" (fields fs))) _).1
            (inl (rw e ((string_name_iff _ n).1 (f, filled))))))))
complete (child {b} {fs} {k} {v} {n} m p q r) = (Elem-append n (collect_details fs) _).1 (
    inr (
      (Elem-append n (own_name b fs) _).1 (
        inr (
          (Elem-append n (step_image (lookup "stepInfo" (fields fs))) _).1
            (inr (children_complete fs k v n m p q (complete r)))))))
complete (item {b} {vs} {v} {n} m r) = items_complete vs v b n m (complete r)

pub collect_image_names_iff :
    (v : Json) (b : Bool) (n : String) → Elem n (collect_image_names v b) ↔ Names b v n
collect_image_names_iff v b n = (sound v b n, complete)
