-- ===== src/Pipeline/Covering.antt =====
-- verifier/pipeline/evaluate.go: `coveredByAnother`, which tells whether a retained node precedes
-- another.
use zero_trust_service.Common.{
  ◌≡◌, refl, sym, subst, ◌∙◌, ◌↔◌, inl, inr, ℕ, suc, ◌+◌, ◌<◌, Bool, true, false, some, List, [],
  ◌∷◌, All, Elem, arith, ◌||◌, Bool-cases, get_elem?,
}
use zero_trust_service.Pipeline.Graph.{GraphNode, Pointer}
use zero_trust_service.Pipeline.Climb.{preds}
use zero_trust_service.Pipeline.Rank.{rank, IsNode, Below}
use zero_trust_service.Pipeline.Descent.{preds-Below}
use zero_trust_service.Pipeline.Instances.{same_index}
use zero_trust_service.Pipeline.Nodes.{same_index-eq}
use zero_trust_service.Pipeline.Live.{or_else_covered, covered_from}
use zero_trust_service.Pipeline.Precedes.{Precedes, last, more, precedes_via_iff}

pub All-Elem : {A : Type 0} (P : A → Type 0) (xs : List A) (a : A) → All P xs → Elem a xs → P a
All-Elem P [] a h i = absurd i
All-Elem P (x ∷ xs) a (p, h) i = elim i [ inl e ↦ subst P e p | inr j ↦ All-Elem P xs a h j ]

pub Precedes-trans : {a b c : Pointer} → Precedes a b → Precedes b c → Precedes a c
Precedes-trans {b = b} k (last n waits i) = more n b waits i k
Precedes-trans k (more n p waits i k') = more n p waits i (Precedes-trans k k')

-- A chain leads to smaller ranks.
pub Precedes-rank :
    (root : GraphNode) {a n : Pointer} → IsNode root n → Precedes a n → rank a < rank n
Precedes-rank root {a} in_graph (last n waits i) =
    (All-Elem (Below root (rank n)) (preds n) a (preds-Below root n in_graph) i).0
Precedes-rank root in_graph (more n p waits i k) =
    let (less, in_graph_p) =
      All-Elem (Below root (rank n)) (preds n) p (preds-Below root n in_graph) i in
    omega (arith, Precedes-rank root in_graph_p k)

-- Another node of the list that a node precedes.
abbrev pub Covered : List Pointer → Pointer → Type 0
Covered nodes a = (b : Pointer) × Elem b nodes × Precedes a b

module _ (root : GraphNode) where
  -- The index `i` is that of `a`, in a list that starts at the index `j`.
  pub Marks : Pointer → ℕ → ℕ → List Pointer → Type 0
  Marks a i j [] = Unit
  Marks a i j (b ∷ bs) = (same_index j i ≡ true → b ≡ a) × Marks a i (suc j) bs

  pub Marks-of :
      (a : Pointer) (i j : ℕ) (bs : List Pointer)
      → ((k : ℕ) → j + k ≡ i → (b : Pointer) → get_elem? bs k ≡ some b → b ≡ a)
      → Marks a i j bs
  unfolding Marks
  Marks-of a i j [] h = tt
  Marks-of a i j (b ∷ bs) h = (
    λ s. let e = same_index-eq j i s in h 0 (omega arith) b refl,
    Marks-of a i (suc j) bs (λ k e. h (suc k) (omega arith)),
  )

  pub covered_from_iff :
      (a : Pointer) (i j : ℕ) (bs : List Pointer)
      → IsNode root a
      → All (IsNode root) bs
      → Marks a i j bs
      → (r : Bool) × (covered_from a i j bs ≡ some r) × ((r ≡ true) ↔ Covered bs a)
  unfolding Marks covered_from
  covered_from_iff a i j [] u us m = (false, refl, (λ e. cc, λ (b, k, c). absurd k))
  covered_from_iff a i j (b ∷ bs) u (v, us) (here, m) =
      let (r, run, iff) = covered_from_iff a i (suc j) bs u us m in
      elim (Bool-cases (same_index j i)) [
        | inl s ↦ (
          r,
          rw s run,
          (
            λ e. let (c, k, p) = iff.0 e in (c, inr k, p),
            λ (c, k, p). elim k [ inl e ↦ absurd (self (here s) e p) | inr k' ↦ iff.1 (c, k', p) ],
          ),
        )
        | inr s ↦
            let (x, found, iff_b) = precedes_via_iff root a u b v in
            (x || r, rw (s, found, run) (either x r), any_of x r iff_b iff)
      ]
    where
      either : (x r : Bool) → or_else_covered (some x) (some r) ≡ some (x || r)
      either true r = refl
      either false r = refl

      any_of :
          (x r : Bool)
          → ((x ≡ true) ↔ Precedes a b)
          → ((r ≡ true) ↔ Covered bs a)
          → ((x || r) ≡ true) ↔ Covered (b ∷ bs) a
      any_of true r f g = (λ e. (b, inl refl, f.0 refl), λ c. refl)
      any_of false r f g = (
        λ e. let (c, k, p) = g.0 e in (c, inr k, p),
        λ (c, k, p). elim k [
          | inl e ↦ absurd (let h = f.1 (subst (Precedes a) (sym e) p) in cc)
          | inr k' ↦ g.1 (c, k', p)
        ],
      )

      self : {c : Pointer} → b ≡ a → b ≡ c → Precedes a c → ⊥
      self e e' p =
          let q : Precedes a a = subst (Precedes a) (sym e' ∙ e) p in
          omega (arith, Precedes-rank root u q)
