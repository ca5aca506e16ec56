-- ===== src/Pipeline/Satisfied.antt =====
-- verifier/pipeline/evaluate.go: the join over the live ancestors of a step, by the nodes that they
-- stand for.
use zero_trust_service.Common.{
  ◌≡◌, refl, sym, subst, ◌↔◌, ◌⊎◌, inl, inr, String, true, false, List, [], ◌∷◌, All, Some, Elem,
  map,
}
use zero_trust_service.Pipeline.Model.{Ancestor, JoinType, join_and, join_or}
use zero_trust_service.Pipeline.Violations.{StepRanFunc}
use zero_trust_service.Pipeline.AndGate.{AllRan}
use zero_trust_service.Pipeline.OrGate.{Candidate}
use zero_trust_service.Pipeline.Verdicts.{Joined}
use zero_trust_service.Pipeline.Graph.{Pointer}
use zero_trust_service.Pipeline.Resolve.{live_ancestor}

-- What the join of a step asks of the nodes that it waits for.
abbrev pub Satisfied : StepRanFunc → JoinType → (Pointer → Type 0) → (Pointer → Ancestor) → Type 0
Satisfied ran join_and required ancestor = (p : Pointer) → required p → AllRan ran (ancestor p)
Satisfied ran join_or required ancestor =
    ((p : Pointer) → ¬ required p) ⊎ ((p : Pointer) × required p × Candidate ran (ancestor p))

module _ (ran : StepRanFunc) (target : Pointer) (raw : String) where
  All-live :
      (P : Ancestor → Type 0) (nodes : List Pointer)
      → All P (map (live_ancestor target raw) nodes)
        ↔ ((p : Pointer) → Elem p nodes → P (live_ancestor target raw p))
  All-live P [] = (λ h p i. absurd i, λ h. tt)
  All-live P (n ∷ nodes) =
      let (to, from) = All-live P nodes in
      (
        λ (h, hs) p i. elim i [
          | inl e ↦ subst (λ q. P (live_ancestor target raw q)) e h
          | inr j ↦ to hs p j
        ],
        λ h. (h n (inl refl), from (λ p i. h p (inr i))),
      )

  Some-live :
      (P : Ancestor → Type 0) (nodes : List Pointer)
      → Some P (map (live_ancestor target raw) nodes)
        ↔ ((p : Pointer) × Elem p nodes × P (live_ancestor target raw p))
  Some-live P [] = (λ h. absurd h, λ (p, i, h). absurd i)
  Some-live P (n ∷ nodes) =
      let (to, from) = Some-live P nodes in
      (
        λ s. elim s [ inl h ↦ (n, inl refl, h) | inr t ↦ let (p, i, h) = to t in (p, inr i, h) ],
        λ (p, i, h). elim i [
          | inl e ↦ inl (subst (λ q. P (live_ancestor target raw q)) (sym e) h)
          | inr j ↦ inr (from (p, j, h))
        ],
      )

  not_excluded_lem : (p : Pointer) → (live_ancestor target raw p).excluded ≡ false
  unfolding live_ancestor
  not_excluded_lem p = refl

  pub Joined-Satisfied_iff :
      (j : JoinType) (required : Pointer → Type 0) (nodes : List Pointer)
      → ((p : Pointer) → Elem p nodes ↔ required p)
      → Joined ran j (map (live_ancestor target raw) nodes)
        ↔ Satisfied ran j required (live_ancestor target raw)
  Joined-Satisfied_iff join_and required nodes iff =
      let (to, from) = All-live (λ a. (a.excluded ≡ true) ⊎ AllRan ran a) nodes in
      (
        λ h p r. elim (to h p ((iff p).1 r)) [
          | inl x ↦ absurd (let y = not_excluded_lem p in cc)
          | inr done ↦ done
        ],
        λ h. from (λ p i. inr (h p ((iff p).0 i))),
      )
  Joined-Satisfied_iff join_or required nodes iff =
      let (to, from) = All-live (λ a. a.excluded ≡ true) nodes in
      let (to', from') = Some-live (Candidate ran) nodes in
      (
        λ h. elim h [
          | inl xs ↦
              inl
                (λ p r. let x = to xs p ((iff p).1 r) in let y = not_excluded_lem p in absurd (cc))
          | inr s ↦ let (p, i, c) = to' s in inr (p, (iff p).0 i, c)
        ],
        λ h. elim h [
          | inl nobody ↦ inl (from (λ p i. absurd (nobody p ((iff p).0 i))))
          | inr (p, r, c) ↦ inr (from' (p, (iff p).1 r, c))
        ],
      )
