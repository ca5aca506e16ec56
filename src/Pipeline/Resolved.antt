-- ===== src/Pipeline/Resolved.antt =====
-- verifier/pipeline/graph.go: what `Resolve` answers for a node, by where the node stands.
use zero_trust_service.Common.{
  ◌≡◌, ◌≢◌, refl, ◌↔◌, ◌⊎◌, inl, inr, String, Bool, true, false, some, List, [], All, Some, ◌&&◌,
  if◌then◌else◌, arith,
}
use zero_trust_service.Pipeline.Model.{When, join_and, join_or}
use zero_trust_service.Pipeline.Violations.{StepRanFunc}
use zero_trust_service.Pipeline.Graph.{Pointer, fqn_of, has_strategy_in_chain, strategy_excluded}
use zero_trust_service.Pipeline.Instances.{ancestor_instances}
use zero_trust_service.Pipeline.Resolve.{
  guard_of, resolve_node, live_ancestor, instances_or_nil, or_joined,
}
use zero_trust_service.Pipeline.Standing.{
  Expands, Excludes, AllKnown, Above, SeparatePlan, OrJoined, has_strategy_in_chain_iff,
  strategy_excluded_iff,
}
use zero_trust_service.Pipeline.Guarding.{conditions_iff}
use zero_trust_service.Pipeline.Entries.{SeparatePlan-iff, or_joined_iff}
use zero_trust_service.Pipeline.Fanouts.{IsFine, status_unless-IsFine_iff}
use zero_trust_service.Pipeline.AndGate.{Completed, AllRan}
use zero_trust_service.Pipeline.OrGate.{Candidate}

false_iff : {P : Type 0} (b : Bool) → ((b ≡ true) ↔ P) → (b ≡ false) ↔ (¬ P)
false_iff true iff = (λ h. absurd (cc), λ h. absurd (h (iff.0 refl)))
false_iff false iff = (λ h p. let e = iff.1 p in absurd (cc), λ h. refl)

module _ (target : Pointer) (raw : String) where
  excluded_iff :
      ((has_strategy_in_chain target && strategy_excluded target) ≡ true)
      ↔ (Expands target × Excludes target)
  excluded_iff = ground (arith, has_strategy_in_chain_iff target, strategy_excluded_iff target)

  -- The strategies of the step leave a combination, and its fan-out is enumerable.
  pub resolve_node-own_iff :
      (((resolve_node target raw).excluded ≡ false) × IsFine (resolve_node target raw).status)
      ↔ ((¬ (Expands target × Excludes target)) × (Expands target → AllKnown target))
  unfolding resolve_node
  resolve_node-own_iff =
      let expands = has_strategy_in_chain target in
      let (to, from) = has_strategy_in_chain_iff target in
      by_case (expands && strategy_excluded target) (false_iff _ excluded_iff) (λ left.
        let (known, fine) = status_unless-IsFine_iff target expands (λ e x. left (to e, x)) in
        (λ f x. known f (from x), λ f. fine (λ e. f (to e))))
    where
      by_case :
          {P Q : Type 0} {status : String} (b : Bool)
          → ((b ≡ false) ↔ P)
          → (P → IsFine status ↔ Q)
          → ((b ≡ false) × IsFine (if b then "" else status)) ↔ (P × Q)
      by_case true p q = (λ (h, _). absurd (cc), λ (h, _). let e = p.1 h in absurd (cc))
      by_case false p q = (λ (h, f). (p.0 h, (q (p.0 h)).0 f), λ (h, f). (refl, (q h).1 f))

  pub resolve_node-conditions_iff :
      (P : When → Type 0)
      → All P (resolve_node target raw).conditions
        ↔ ((w : When) → (guard_of target ≡ some w) ⊎ Above target w → P w)
  unfolding resolve_node
  resolve_node-conditions_iff P = conditions_iff P target

  pub resolve_node-separate_iff :
      ((resolve_node target raw).separate_plan_rollback ≡ false) ↔ (¬ SeparatePlan target)
  unfolding resolve_node
  resolve_node-separate_iff = false_iff _ (SeparatePlan-iff target)

  pub resolve_node-join :
      (((resolve_node target raw).join ≡ join_or) × OrJoined target)
      ⊎ (((resolve_node target raw).join ≡ join_and) × (¬ OrJoined target))
  unfolding resolve_node
  resolve_node-join = by_case (or_joined target) (or_joined_iff target)
    where
      by_case :
          {P : Type 0} (b : Bool)
          → ((b ≡ true) ↔ P)
          → (((if b then join_or else join_and) ≡ join_or) × P)
            ⊎ (((if b then join_or else join_and) ≡ join_and) × (¬ P))
      by_case true iff = inl (refl, iff.0 refl)
      by_case false iff = inr (refl, (false_iff false iff).0 refl)

  -- The instances of an ancestor that the step waits for.
  abbrev pub instances_of : Pointer → List String
  instances_of p = instances_or_nil (ancestor_instances p target raw)

  module _ (ran : StepRanFunc) where
    -- Each instance of the node has completed, or no strategy stands on it or its containers and it
    -- has completed itself.
    abbrev pub EachRan : Pointer → Type 0
    EachRan p =
        ((instances_of p ≢ []) × All (Completed ran) (instances_of p))
        ⊎ ((¬ Expands p) × (instances_of p ≡ []) × Completed ran (fqn_of p))

    -- An instance of the node has completed, or no strategy stands on it or its containers and it has
    -- completed itself.
    abbrev pub OneRan : Pointer → Type 0
    OneRan p =
        Some (Completed ran) (instances_of p)
        ⊎ ((¬ Expands p) × (instances_of p ≡ []) × Completed ran (fqn_of p))

    pub EachRan-iff : (p : Pointer) → AllRan ran (live_ancestor target raw p) ↔ EachRan p
    unfolding live_ancestor
    EachRan-iff p =
        let (to, from) = false_iff _ (has_strategy_in_chain_iff p) in
        (
          λ h. elim h [ inl x ↦ inl x | inr (e, f, g) ↦ inr (to e, f, g) ],
          λ h. elim h [ inl x ↦ inl x | inr (e, f, g) ↦ inr (from e, f, g) ],
        )

    pub OneRan-iff : (p : Pointer) → Candidate ran (live_ancestor target raw p) ↔ OneRan p
    unfolding live_ancestor
    OneRan-iff p =
        let (to, from) = false_iff _ (has_strategy_in_chain_iff p) in
        (
          λ (_, h). elim h [ inl x ↦ inl x | inr (e, f, g) ↦ inr (to e, f, g) ],
          λ h. (refl, elim h [ inl x ↦ inl x | inr (e, f, g) ↦ inr (from e, f, g) ]),
        )
