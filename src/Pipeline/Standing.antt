-- ===== src/Pipeline/Standing.antt =====
-- verifier/pipeline/graph.go: what `Resolve` says of the node itself, stated without its walks: by the
-- strategies, the guards and the places of the node and its containers.
use mathlib.Core.Option.{some-injective}
use zero_trust_service.Common.{
  ◌≡◌, refl, ap, ◌∙◌, ◌↔◌, ◌⊎◌, true, false, Option, none, some, [], ◌∷◌, All, Some, arith,
}
use zero_trust_service.Pipeline.Model.{When}
use zero_trust_service.Pipeline.Graph.{
  StrategySpec, GraphNode, Pointer, info, is_rollback, is_excluded, has_strategy_in_chain,
  strategy_excluded,
}
use zero_trust_service.Pipeline.Resolve.{guard_of}

-- The node or a container declares a strategy.
abbrev pub Expands : Pointer → Type 0
Expands p = Some (λ n. (info n).strategy ≡ true) p

-- The strategy of the node or of a container excludes every combination.
abbrev pub Excludes : Pointer → Type 0
Excludes p = Some (λ n. (s : StrategySpec) × ((info n).strat ≡ some s) × (s.excluded ≡ true)) p

-- Each strategy of the node and its containers names its instances.
abbrev pub AllKnown : Pointer → Type 0
AllKnown p = All (λ n. (s : StrategySpec) → (info n).strat ≡ some s → s.known ≡ true) p

-- A guard above the node that runs first of what it guards: the node, and each container on the way up
-- to the guarded one, starts its parent. The guards of concurrent parents do not count.
pub data Above : Pointer → When → Type 0 where
  entered :
      {n parent : GraphNode} {up : Pointer} {w : When}
      → is_rollback n ≡ false
      → (info parent).concurrent ≡ false
      → (info n).index ≡ 0
      → (info parent).guard ≡ some w
      → Above (n ∷ parent ∷ up) w
  further :
      {n parent : GraphNode} {up : Pointer} {w : When}
      → is_rollback n ≡ false
      → ((info parent).concurrent ≡ true) ⊎ ((info n).index ≡ 0)
      → Above (parent ∷ up) w
      → Above (n ∷ parent ∷ up) w

-- The node stands at the entry of a rollback: it is the root of the rollback, or starts its parent,
-- which stands there.
pub data Entry : Pointer → Pointer → Type 0 where
  root : {n : GraphNode} {up : Pointer} → is_rollback n ≡ true → Entry (n ∷ up) (n ∷ up)
  starts :
      {n parent : GraphNode} {up rb : Pointer}
      → is_rollback n ≡ false
      → ((info parent).concurrent ≡ true) ⊎ ((info n).index ≡ 0)
      → Entry (parent ∷ up) rb
      → Entry (n ∷ parent ∷ up) rb

-- The rollback at whose entry the node stands is that of the whole pipeline, which runs in a plan of
-- its own.
abbrev pub SeparatePlan : Pointer → Type 0
SeparatePlan p =
    (rb : GraphNode) × (stage : GraphNode) × (up : Pointer) × Entry p (rb ∷ stage ∷ up)
    × ((info stage).pipeline_rollback ≡ true)

-- The node waits for any of its ancestors: its guard asks for a failure or for any status, or it
-- stands at the entry of a rollback.
abbrev pub OrJoined : Pointer → Type 0
OrJoined p =
    ((w : When) × (guard_of p ≡ some w) × ((w.status ≡ "Failure") ⊎ (w.status ≡ "All")))
    ⊎ ((rb : Pointer) × Entry p rb)

pub has_strategy_in_chain_iff : (p : Pointer) → (has_strategy_in_chain p ≡ true) ↔ Expands p
unfolding has_strategy_in_chain
has_strategy_in_chain_iff [] = (λ h. cc, λ h. absurd h)
has_strategy_in_chain_iff (n ∷ up) = ground (arith, has_strategy_in_chain_iff up)

pub strategy_excluded_iff : (p : Pointer) → (strategy_excluded p ≡ true) ↔ Excludes p
unfolding strategy_excluded is_excluded
strategy_excluded_iff [] = (λ h. cc, λ h. absurd h)
strategy_excluded_iff (n ∷ up) = ground (arith, by_spec (info n).strat, strategy_excluded_iff up)
  where
    by_spec :
        (o : Option StrategySpec)
        → (is_excluded o ≡ true) ↔ ((s : StrategySpec) × (o ≡ some s) × (s.excluded ≡ true))
    by_spec none = (λ h. cc, λ (s, e, h). cc)
    by_spec (some t) = (
      λ h. (t, refl, h),
      λ (s, e, h). ap (λ (x : StrategySpec). x.excluded) (some-injective _ _ e) ∙ h,
    )
