-- ===== src/Pipeline/Fanouts.antt =====
-- verifier/pipeline/graph.go: when the fan-out of a step is enumerable.
use zero_trust_service.Common.{
  ◌≡◌, ◌≢◌, refl, ◌↔◌, ◌⊎◌, inl, inr, String, Bool, true, false, Option, none, some, List, [], ◌∷◌,
  ◌||◌, ◌==◌, arith, eq_iff, if◌then◌else◌, Option-cases,
}
use zero_trust_service.Pipeline.Model.{FanoutStatus}
use zero_trust_service.Pipeline.Graph.{
  StrategySpec, Pointer, info, fqn_of, strategy_status, status_of, or_else,
}
use zero_trust_service.Pipeline.Instances.{
  Level, add_level, levels_below, same_node, fan_levels, instance_fqns,
}
use zero_trust_service.Pipeline.Resolve.{status_unless}
use zero_trust_service.Pipeline.Standing.{Excludes, AllKnown}

-- A status with which `EvaluateStep` finds no fault.
abbrev pub IsFine : FanoutStatus → Type 0
IsFine s = (s ≡ "enumerable") ⊎ (s ≡ "")

KnownSpec : Option StrategySpec → Type 0
KnownSpec o = (s : StrategySpec) → o ≡ some s → s.known ≡ true

add_level-KnownSpec :
    (o : Option StrategySpec) (fqn : String) (rest : Option (List Level)) (levels : List Level)
    → add_level o fqn rest ≡ some levels
    → KnownSpec o × ((l : List Level) × (rest ≡ some l))
unfolding add_level KnownSpec
add_level-KnownSpec none fqn rest levels h = (λ s e. absurd (cc), (levels, h))
add_level-KnownSpec (some t) fqn none levels h = absurd (cc)
add_level-KnownSpec (some t) fqn (some l) levels h =
    (λ s e. let k : t.known ≡ true = ground (arith, h) in cc, (l, refl))

levels_below-AllKnown :
    (p : Pointer) (levels : List Level) → levels_below [] p ≡ some levels → AllKnown p
unfolding levels_below same_node KnownSpec
levels_below-AllKnown [] levels h = tt
levels_below-AllKnown (n ∷ up) levels h =
    let (known, (l, rest)) = add_level-KnownSpec (info n).strat (info n).fqn _ levels h in
    (known, levels_below-AllKnown up l rest)

status_of-known :
    (o : Option StrategySpec) (rest : FanoutStatus)
    → KnownSpec o
    → or_else (status_of o) rest ≡ rest
unfolding KnownSpec or_else status_of
status_of-known none rest h = refl
status_of-known (some s) rest h = rw (h s refl) refl

-- The status of a strategy that is neither known nor excluded is never a fine one.
given_status :
    (known excluded fixed : Bool) (status rest : FanoutStatus)
    → excluded ≢ true
    → (IsFine status → fixed ≡ true)
    → IsFine (
        or_else
          (if known || excluded then none else if fixed then some "runtime_input" else some status)
          rest)
    → (known ≡ true) × IsFine rest
unfolding or_else
given_status true excluded fixed status rest h f k = (refl, k)
given_status false true fixed status rest h f k = absurd (h refl)
given_status false false true status rest h f k = elim k [
  | inl e ↦ absurd (cc)
  | inr e ↦ absurd (cc)
]
given_status false false false status rest h f k = let e = f k in absurd (cc)

status_of-IsFine :
    (o : Option StrategySpec) (rest : FanoutStatus)
    → ((s : StrategySpec) → o ≡ some s → s.excluded ≢ true)
    → IsFine (or_else (status_of o) rest)
    → KnownSpec o × IsFine rest
unfolding KnownSpec or_else status_of
status_of-IsFine none rest h k = (λ s e. absurd (cc), k)
status_of-IsFine (some t) rest h k =
    let (known, fine) =
      given_status t.known t.excluded (t.status == "enumerable" || t.status == "") t.status rest
        (h t refl) (λ f. ground (arith, f, eq_iff t.status "enumerable", eq_iff t.status "")) k in
    (λ s e. cc, fine)

AllKnown-strategy_status : (p : Pointer) → AllKnown p → strategy_status p ≡ "enumerable"
unfolding strategy_status KnownSpec
AllKnown-strategy_status [] h = refl
AllKnown-strategy_status (n ∷ up) (h, hs) =
    rw (status_of-known (info n).strat (strategy_status up) h) (AllKnown-strategy_status up hs)

strategy_status-AllKnown : (p : Pointer) → ¬ Excludes p → IsFine (strategy_status p) → AllKnown p
unfolding strategy_status KnownSpec
strategy_status-AllKnown [] h k = tt
strategy_status-AllKnown (n ∷ up) h k =
    let (known, rest) =
      status_of-IsFine (info n).strat (strategy_status up) (λ s e x. h (inl (s, e, x))) k in
    (known, strategy_status-AllKnown up (λ x. h (inr x)) rest)

instance_fqns-AllKnown : (p : Pointer) (is : List String) → instance_fqns p ≡ some is → AllKnown p
unfolding instance_fqns
instance_fqns-AllKnown p is h = elim (Option-cases (levels_below [] p)) [
  | inl e ↦ absurd (let k = unlisted (fqn_of p) e in cc)
  | inr (levels, e) ↦ levels_below-AllKnown p levels e
]
  where
    unlisted : {o : Option (List Level)} (f : String) → o ≡ none → fan_levels o f ≡ none
    unlisted f e = rw e (unfold fan_levels in refl)

-- A fan-out whose strategies leave a combination is enumerable exactly when each strategy names its
-- instances.
pub status_unless-IsFine_iff :
    (p : Pointer) (expands : Bool)
    → ((expands ≡ true) → ¬ Excludes p)
    → IsFine (status_unless expands (instance_fqns p) (strategy_status p))
      ↔ ((expands ≡ true) → AllKnown p)
status_unless-IsFine_iff p expands h = by_instances expands h (instance_fqns p) refl
  where
    by_instances :
        (e : Bool)
        → ((e ≡ true) → ¬ Excludes p)
        → (is : Option (List String)) → instance_fqns p ≡ is
        → IsFine (status_unless e is (strategy_status p)) ↔ ((e ≡ true) → AllKnown p)
    by_instances e k (some is) same = (λ f x. instance_fqns-AllKnown p is same, λ f. inr refl)
    by_instances true k none same =
        (λ f x. strategy_status-AllKnown p (k x) f, λ f. inl (AllKnown-strategy_status p (f refl)))
    by_instances false k none same = (λ f x. absurd (cc), λ f. inr refl)
