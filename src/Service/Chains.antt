-- ===== src/Service/Chains.antt =====
-- examples/zts/build.go: the dispatcher that is built from the verifiers by task type, and the chain
-- that it runs for a type.
use zero_trust_service.Common.{
  ℕ, zero, suc, ◌≡◌, refl, ap, inl, inr, String, Bool, true, false, not, Option, none, some, List,
  [], ◌∷◌, ◌==◌, if◌then◌else◌, lookup, length, Bool-cases, eq_iff, eq_refl, subst,
}
use zero_trust_service.Fault.{Error, Result, ok, err}
use zero_trust_service.Types.{VerifyRequest, resolve_task_type}
use zero_trust_service.Verifier.{Context, Interface, and_then, chain, handle_found, dispatcher}
use zero_trust_service.Service.Build.{
  ValidatorDef, is_enabled, ResolveFunc, WrapFunc, task_type_scope, wrapped_by, add_verifier,
  add_chain, dispatched, chain_or_pass, build_verifier, build_from, build_verifiers, build_chains,
}

-- The value of a result that is no error, and an empty list of an error.
abbrev pub built_list : {A : Type 0} → Result (List A × ℕ) → List A
built_list (err e) = []
built_list (ok (vs, n)) = vs

-- The keys of a Go map are distinct.
abbrev pub Distinct : {V : Type 0} → List (String × V) → Type 0
Distinct [] = Unit
Distinct ((k, v) ∷ rest) = (lookup k rest ≡ none) × Distinct rest

module _ {W : Type 0} where
  Counted : Result (List (Interface W) × ℕ) → Type 0
  Counted (err e) = Unit
  Counted (ok (vs, n)) = n ≡ length vs

  add_verifier-Counted :
      (v : Interface W) (r : Result (List (Interface W) × ℕ))
      → Counted r
      → Counted (add_verifier v r)
  unfolding Counted add_verifier
  add_verifier-Counted v (err e) h = tt
  add_verifier-Counted v (ok (vs, n)) h = ap suc h

  pub chain_or_pass-eq-chain :
      (vs : List (Interface W)) (ctx : Context) (req : VerifyRequest) (w : W)
      → chain_or_pass vs ctx req w ≡ chain vs ctx req w
  unfolding chain_or_pass chain
  chain_or_pass-eq-chain [] ctx req w = refl
  chain_or_pass-eq-chain (v ∷ vs) ctx req w = refl

  and_then-pass : (r : Option Error × W) → and_then r (λ w. (none, w)) ≡ r
  and_then-pass (none, w) = refl
  and_then-pass (some e, w) = refl

  -- The dispatcher in the chain, also where it is left out.
  pub chain-dispatched :
      (table : List (String × Interface W)) (ctx : Context) (req : VerifyRequest) (w : W)
      → chain (dispatched table) ctx req w ≡ (
          if resolve_task_type req == ""
          then (none, w)
          else handle_found (lookup (resolve_task_type req) table) ctx req w)
  unfolding dispatched chain dispatcher lookup
  chain-dispatched [] ctx req w = pass (resolve_task_type req == "")
    where
      pass :
          (b : Bool)
          → (none, w)
            ≡ (if b then (none, w) else handle_found (lookup (resolve_task_type req) []) ctx req w)
      pass true = refl
      pass false = refl
  chain-dispatched (c ∷ table) ctx req w = and_then-pass _

module _ {W C : Type 0} (show : ℕ → String) (resolve_by : ResolveFunc W C)
    (wrap : Option (WrapFunc W)) where
  build_verifier-Counted :
      (scope : String) (i : ℕ) (def : ValidatorDef C) (o : Result (Interface W))
      (r : Result (List (Interface W) × ℕ))
      → Counted r
      → Counted (build_verifier show resolve_by wrap scope i def o r)
  unfolding build_verifier Counted
  build_verifier-Counted scope i def (err e) r h = tt
  build_verifier-Counted scope i def (ok v) r h =
      add_verifier-Counted (wrapped_by wrap def.type_name v) r h

  if-Counted :
      (b : Bool) (r t : Result (List (Interface W) × ℕ))
      → Counted r
      → Counted t
      → Counted (if b then r else t)
  if-Counted true r t h k = h
  if-Counted false r t h k = k

  build_from-Counted :
      (scope : String) (i : ℕ) (defs : List (ValidatorDef C))
      → Counted (build_from show resolve_by wrap scope i defs)
  unfolding build_from Counted
  build_from-Counted scope i [] = refl
  build_from-Counted scope i (def ∷ defs) =
      let h = build_from-Counted scope (suc i) defs in
      if-Counted (not (is_enabled def)) _ _ h
        (build_verifier-Counted scope i def (resolve_by def.type_name def.config) _ h)

  -- The verifiers that the configuration lists for a task type.
  abbrev pub built_for : String → Option (List (ValidatorDef C)) → List (Interface W)
  built_for type none = []
  built_for type (some defs) =
      built_list (build_verifiers show resolve_by wrap (task_type_scope type) defs)

  -- A task type that the configuration does not list has no chain.
  add_chain-lookup-eq-none :
      (key type : String) (r : Result (List (Interface W) × ℕ))
      (rest : Result (List (String × Interface W) × ℕ))
      → (key == type) ≡ false
      → lookup type (built_list rest) ≡ none
      → lookup type (built_list (add_chain key r rest)) ≡ none
  unfolding add_chain lookup
  add_chain-lookup-eq-none key type (err e) rest differs h = refl
  add_chain-lookup-eq-none key type (ok p) (err e) differs h = refl
  add_chain-lookup-eq-none key type (ok (vs, zero)) (ok (chains, n)) differs h = h
  add_chain-lookup-eq-none key type (ok (vs, suc k)) (ok (chains, n)) differs h = rw differs h

  build_chains-lookup-eq-none :
      (type : String) (entries : List (String × List (ValidatorDef C)))
      → lookup type entries ≡ none
      → lookup type (built_list (build_chains show resolve_by wrap entries)) ≡ none
  unfolding build_chains lookup
  build_chains-lookup-eq-none type [] h = refl
  build_chains-lookup-eq-none type ((key, defs) ∷ entries) h = elim (Bool-cases (key == type)) [
    | inl e ↦ absurd (let g = rw e at h in cc)
    | inr e ↦
        add_chain-lookup-eq-none key type _ (build_chains show resolve_by wrap entries) e
          (build_chains-lookup-eq-none type entries (rw e at h))
  ]

  -- The chain that the table has for a task type is the chain of its verifiers.
  abbrev pub Serves : (type : String) → List (String × Interface W) → List (Interface W) → Type 0
  Serves type table vs =
      (ctx : Context) (req : VerifyRequest) (w : W)
      → handle_found (lookup type table) ctx req w ≡ chain vs ctx req w

  add_chain-Serves_self :
      (key type : String) (r : Result (List (Interface W) × ℕ))
      (rest : Result (List (String × Interface W) × ℕ)) (t : List (String × Interface W) × ℕ)
      → add_chain key r rest ≡ ok t
      → (key == type) ≡ true
      → Counted r
      → lookup type (built_list rest) ≡ none
      → Serves type (built_list (add_chain key r rest)) (built_list r)
  unfolding add_chain Counted lookup chain handle_found
  add_chain-Serves_self key type (err e) rest t h same counted absent ctx req w = cc
  add_chain-Serves_self key type (ok p) (err e) t h same counted absent ctx req w = cc
  add_chain-Serves_self key type (ok ([], zero)) (ok (chains, n)) t h same counted absent ctx req
        w =
      rw absent refl
  add_chain-Serves_self key type (ok (v ∷ vs, zero)) (ok (chains, n)) t h same counted absent ctx
        req w =
      absurd (let e = counted in cc)
  add_chain-Serves_self key type (ok (vs, suc k)) (ok (chains, n)) t h same counted absent ctx req
        w =
      rw same refl

  add_chain-Serves_other :
      (key type : String) (r : Result (List (Interface W) × ℕ))
      (rest : Result (List (String × Interface W) × ℕ)) (t : List (String × Interface W) × ℕ)
      (vs : List (Interface W))
      → add_chain key r rest ≡ ok t
      → (key == type) ≡ false
      → ((u : List (String × Interface W) × ℕ) → rest ≡ ok u → Serves type (built_list rest) vs)
      → Serves type (built_list (add_chain key r rest)) vs
  unfolding add_chain lookup
  add_chain-Serves_other key type (err e) rest t vs h differs ih ctx req w = cc
  add_chain-Serves_other key type (ok p) (err e) t vs h differs ih ctx req w = cc
  add_chain-Serves_other key type (ok (us, zero)) (ok u) t vs h differs ih ctx req w =
      ih u refl ctx req w
  add_chain-Serves_other key type (ok (us, suc k)) (ok u) t vs h differs ih ctx req w =
      rw differs (ih u refl ctx req w)

  build_verifiers-Counted :
      (scope : String) (defs : List (ValidatorDef C))
      → Counted (build_verifiers show resolve_by wrap scope defs)
  unfolding build_verifiers
  build_verifiers-Counted scope defs = build_from-Counted scope 0 defs

  build_chains-Serves_first :
      (key : String) (defs : List (ValidatorDef C))
      (entries : List (String × List (ValidatorDef C))) (t : List (String × Interface W) × ℕ)
      → lookup key entries ≡ none
      → build_chains show resolve_by wrap ((key, defs) ∷ entries) ≡ ok t
      → Serves key
          (built_list (build_chains show resolve_by wrap ((key, defs) ∷ entries)))
          (built_for key (lookup key ((key, defs) ∷ entries)))
  unfolding build_chains lookup
  build_chains-Serves_first key defs entries t fresh h = rw (eq_refl key) (
      add_chain-Serves_self key key
        (build_verifiers show resolve_by wrap (task_type_scope key) defs)
        (build_chains show resolve_by wrap entries) t h (eq_refl key)
        (build_verifiers-Counted (task_type_scope key) defs)
        (build_chains-lookup-eq-none key entries fresh))

  Serves-nil : (type : String) → Serves type [] []
  unfolding lookup handle_found chain
  Serves-nil type ctx req w = refl

  pub build_chains-Serves :
      (type : String) (entries : List (String × List (ValidatorDef C)))
      (t : List (String × Interface W) × ℕ)
      → Distinct entries
      → build_chains show resolve_by wrap entries ≡ ok t
      → Serves type
          (built_list (build_chains show resolve_by wrap entries))
          (built_for type (lookup type entries))
  unfolding build_chains lookup
  build_chains-Serves type [] t distinct h = Serves-nil type
  build_chains-Serves type ((key, defs) ∷ entries) t (fresh, distinct) h =
      elim (Bool-cases (key == type)) [
        | inl e ↦
            subst
              (λ other.
                Serves other
                  (built_list (build_chains show resolve_by wrap ((key, defs) ∷ entries)))
                  (built_for other (lookup other ((key, defs) ∷ entries))))
              ((eq_iff key type).0 e) (build_chains-Serves_first key defs entries t fresh h)
        | inr e ↦ rw e (
            add_chain-Serves_other key type _ (build_chains show resolve_by wrap entries) t _ h e
              (λ u g. build_chains-Serves type entries u distinct g))
      ]
