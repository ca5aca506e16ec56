-- ===== src/Service/Build.antt =====
-- examples/zts/build.go, registry.go and config/validators.go: the chain of verifiers, global, by
-- task type and custom. `C` is the type of a raw configuration, a `yaml.Node`; `show` is the verb `%d`
-- of package fmt and `quote` the verb `%q`. A map of the configuration lists its entries in the order
-- in which the loop visits them.

use zero_trust_service.Common.{
  ℕ, zero, suc, ◌+◌, pos, String, Bool, true, not, Option, none, some, List, [], ◌∷◌, ◌++◌,
  if◌then◌else◌, join, lookup, insert,
}
use zero_trust_service.Fault.{message, wrapped, Result, ok, err}
use zero_trust_service.State.{State, gauge, dim, emit}
use zero_trust_service.Verifier.{Interface, chain, dispatcher}

pub record ValidatorDef (C : Type 0) : Type 0 where
  pub type_name : String
  pub enabled : Option Bool
  pub config : C

pub record ValidatorsConfig (C : Type 0) : Type 0 where
  pub global : List (ValidatorDef C)
  pub by_task_type : List (String × List (ValidatorDef C))
  pub custom : List (ValidatorDef C)

-- `IsEnabled`: enabled unless the flag says otherwise.
unfoldable pub enabled_flag : Option Bool → Bool
enabled_flag none = true
enabled_flag (some b) = b

unfoldable pub is_enabled : {C : Type 0} → ValidatorDef C → Bool
unfolding enabled_flag
is_enabled v = enabled_flag v.enabled

-- The scope of the verifiers of a task type.
abbrev pub task_type_scope : String → String
task_type_scope type = join ("task_type[" ∷ type ∷ "]" ∷ [])

-- `Factory`, and `Registry` by its map of factories.
abbrev pub Factory : Type 0 → Type 0 → Type 0
Factory W C = C → Result (Interface W)

abbrev pub Registry : Type 0 → Type 0 → Type 0
Registry W C = List (String × Factory W C)

abbrev pub ResolveFunc : Type 0 → Type 0 → Type 0
ResolveFunc W C = String → C → Result (Interface W)

abbrev pub WrapFunc : Type 0 → Type 0
WrapFunc W = String → Interface W → Interface W

module _ {W C : Type 0} where
  unfoldable pub register : String → Factory W C → Registry W C → Registry W C
  register name f r = insert name f r

  resolve_found : (String → String) → String → Option (Factory W C) → C → Result (Interface W)
  resolve_found quote name none cfg =
      err (message (join ("unknown verifier type: " ∷ quote name ∷ [])))
  resolve_found quote name (some f) cfg = f cfg

  -- `Registry.Resolve`.
  unfoldable pub resolve : (String → String) → Registry W C → ResolveFunc W C
  unfolding resolve_found
  resolve quote r name cfg = resolve_found quote name (lookup name r) cfg

module _ {W : Type 0} where
  -- `if wrap != nil { v = wrap(def.Type, v) }`.
  unfoldable pub wrapped_by : Option (WrapFunc W) → String → Interface W → Interface W
  wrapped_by none name v = v
  wrapped_by (some wrap) name v = wrap name v

  unfoldable pub add_verifier :
      Interface W → Result (List (Interface W) × ℕ) → Result (List (Interface W) × ℕ)
  add_verifier v (err e) = err e
  add_verifier v (ok (vs, count)) = ok (v ∷ vs, suc count)

  unfoldable pub add_chain :
      String
      → Result (List (Interface W) × ℕ)
      → Result (List (String × Interface W) × ℕ)
      → Result (List (String × Interface W) × ℕ)
  add_chain type (err e) rest = err e
  add_chain type (ok (built, count)) (err e) = err e
  add_chain type (ok (built, zero)) (ok (chains, total)) = ok (chains, total)
  add_chain type (ok (built, suc n)) (ok (chains, total)) =
      ok ((type, chain built) ∷ chains, suc n + total)

  -- `if len(chains) > 0 { all = append(all, NewDispatcher(chains)) }`.
  unfoldable pub dispatched : List (String × Interface W) → List (Interface W)
  dispatched [] = []
  dispatched (c ∷ chains) = dispatcher (c ∷ chains) ∷ []

  -- The verifier that lets every request through, for an empty list.
  unfoldable pub chain_or_pass : List (Interface W) → Interface W
  chain_or_pass [] = λ ctx req w. (none, w)
  chain_or_pass (v ∷ vs) = chain (v ∷ vs)

module _ {W C : Type 0} (show : ℕ → String) (resolve_by : ResolveFunc W C)
    (wrap : Option (WrapFunc W)) where
  -- One turn of the loop of `buildVerifiers`: what the registry gave, and the rest of the loop.
  unfoldable pub build_verifier :
      String
      → ℕ
      → ValidatorDef C
      → Result (Interface W)
      → Result (List (Interface W) × ℕ)
      → Result (List (Interface W) × ℕ)
  unfolding add_verifier
  build_verifier scope i def (err e) rest =
      err (wrapped (join (scope ∷ " verifier #" ∷ show i ∷ " (" ∷ def.type_name ∷ "): " ∷ [])) e "")
  build_verifier scope i def (ok v) rest = add_verifier (wrapped_by wrap def.type_name v) rest

  unfoldable pub build_from : String → ℕ → List (ValidatorDef C) → Result (List (Interface W) × ℕ)
  unfolding build_verifier
  build_from scope i [] = ok ([], 0)
  build_from scope i (def ∷ defs) =
      let rest = build_from scope (suc i) defs in
      if not (is_enabled def)
      then rest
      else build_verifier scope i def (resolve_by def.type_name def.config) rest

  -- `buildVerifiers`.
  unfoldable pub build_verifiers : String → List (ValidatorDef C) → Result (List (Interface W) × ℕ)
  unfolding build_from
  build_verifiers scope defs = build_from scope 0 defs

  -- The loop of `BuildChain` over the task types. Its keys are distinct, so that each chain is a new
  -- entry of the map.
  unfoldable pub build_chains :
      List (String × List (ValidatorDef C)) → Result (List (String × Interface W) × ℕ)
  unfolding add_chain
  build_chains [] = ok ([], 0)
  build_chains ((type, defs) ∷ rest) =
      add_chain type (build_verifiers (task_type_scope type) defs) (build_chains rest)

-- The three gauges of `BuildChain`.
registered : {S : Type 0} → ℕ → ℕ → ℕ → State S → State S
registered global_count task_type_count custom_count s =
    emit (gauge "zts_verifiers_registered" (pos custom_count) (dim "scope" "custom" ∷ [])) (
      emit (gauge "zts_verifiers_registered" (pos task_type_count) (dim "scope" "task_type" ∷ []))
        (emit (gauge "zts_verifiers_registered" (pos global_count) (dim "scope" "global" ∷ [])) s))

-- `BuildChain` after the calls that build its three lists; the first error of them is returned.
unfoldable pub chain_of :
    {S : Type 0}
    → Result (List (Interface (State S)) × ℕ)
    → Result (List (String × Interface (State S)) × ℕ)
    → Result (List (Interface (State S)) × ℕ)
    → State S
    → Result (Interface (State S)) × State S
unfolding registered
chain_of (err e) by_type custom s = (err e, s)
chain_of (ok global) (err e) custom s = (err e, s)
chain_of (ok global) (ok by_type) (err e) s = (err e, s)
chain_of (ok (global, n)) (ok (chains, k)) (ok (custom, m)) s =
    (ok (chain_or_pass (global ++ (dispatched chains ++ custom))), registered n k m s)

-- `BuildChain`.
unfoldable pub build_chain :
    {S C : Type 0}
    → (ℕ → String)
    → ResolveFunc (State S) C
    → Option (WrapFunc (State S))
    → ValidatorsConfig C
    → State S
    → Result (Interface (State S)) × State S
unfolding chain_of
build_chain show resolve_by wrap cfg s =
    chain_of (build_verifiers show resolve_by wrap "global" cfg.global)
      (build_chains show resolve_by wrap cfg.by_task_type)
      (build_verifiers show resolve_by wrap "custom" cfg.custom) s
