-- ===== src/Service/Listed.antt =====
-- examples/zts/build.go: the chain that was built from a configuration against the verifiers that the
-- configuration lists for a request.
use zero_trust_service.Common.{
  ℕ, ◌≡◌, refl, sym, ◌∙◌, ap, fun_ext, String, Bool, true, false, Option, none, List, [], ◌++◌,
  ◌==◌, if◌then◌else◌, lookup,
}
use zero_trust_service.Fault.{Result, ok, err}
use zero_trust_service.Types.{VerifyRequest, resolve_task_type}
use zero_trust_service.State.{State}
use zero_trust_service.Verifier.{Context, Interface, and_then, chain, handle_found}
use zero_trust_service.Service.Chains.{
  Distinct, built_list, built_for, chain_or_pass-eq-chain, chain-dispatched, build_chains-Serves,
}
use zero_trust_service.Verifier.Chains.{chain-append}
use zero_trust_service.Service.Build.{
  ValidatorDef, ValidatorsConfig, ResolveFunc, WrapFunc, dispatched, chain_or_pass, build_verifiers,
  build_chains, chain_of, build_chain,
}

module _ {W C : Type 0} (show : ℕ → String) (resolve_by : ResolveFunc W C)
    (wrap : Option (WrapFunc W)) where
  -- The verifiers that a configuration lists for a request: the global ones, those of its task type,
  -- and the custom ones.
  abbrev pub listed : ValidatorsConfig C → VerifyRequest → List (Interface W)
  listed cfg req =
      built_list (build_verifiers show resolve_by wrap "global" cfg.global)
      ++ ((if resolve_task_type req == ""
            then []
            else built_for show resolve_by wrap (resolve_task_type req)
                (lookup (resolve_task_type req) cfg.by_task_type))
          ++ built_list (build_verifiers show resolve_by wrap "custom" cfg.custom))

chain-append_middle :
    {W : Type 0} (gs us vs cs : List (Interface W)) (ctx : Context) (req : VerifyRequest) (w : W)
    → ((t : W) → chain us ctx req t ≡ chain vs ctx req t)
    → chain (gs ++ (us ++ cs)) ctx req w ≡ chain (gs ++ (vs ++ cs)) ctx req w
chain-append_middle gs us vs cs ctx req w same = rw (
  chain-append gs (us ++ cs) ctx req w,
  chain-append gs (vs ++ cs) ctx req w,
  ap (and_then (chain gs ctx req w)) (
      fun_ext (λ t.
        chain-append us cs ctx req t
        ∙ ap (λ r. and_then r (chain cs ctx req)) (same t)
        ∙ sym (chain-append vs cs ctx req t))),
)

chain_of-eq-ok :
    {S : Type 0} (r1 : Result (List (Interface (State S)) × ℕ))
    (r2 : Result (List (String × Interface (State S)) × ℕ))
    (r3 : Result (List (Interface (State S)) × ℕ)) (s : State S) (v : Interface (State S))
    → (chain_of r1 r2 r3 s).0 ≡ ok v
    → (v ≡ chain_or_pass (built_list r1 ++ (dispatched (built_list r2) ++ built_list r3)))
      × (t : List (String × Interface (State S)) × ℕ) × (r2 ≡ ok t)
unfolding chain_of
chain_of-eq-ok (err e) r2 r3 s v h = cc
chain_of-eq-ok (ok p) (err e) r3 s v h = cc
chain_of-eq-ok (ok p) (ok t) (err e) s v h = cc
chain_of-eq-ok (ok (gs, n)) (ok (table, k)) (ok (cs, m)) s v h = (cc, (table, k), refl)

chain-typed :
    {W C : Type 0} (show : ℕ → String) (resolve_by : ResolveFunc W C) (wrap : Option (WrapFunc W))
    (entries : List (String × List (ValidatorDef C))) (t : List (String × Interface W) × ℕ)
    → Distinct entries
    → build_chains show resolve_by wrap entries ≡ ok t
    → (ctx : Context) (req : VerifyRequest) (w : W)
    → chain (dispatched (built_list (build_chains show resolve_by wrap entries))) ctx req w
      ≡ chain
          (if resolve_task_type req == ""
            then []
            else built_for show resolve_by wrap
                (resolve_task_type req)
                (lookup (resolve_task_type req) entries))
          ctx
          req
          w
unfolding chain
chain-typed show resolve_by wrap entries t distinct h ctx req w =
    chain-dispatched _ ctx req w ∙ by_type (resolve_task_type req == "")
  where
    by_type :
        (b : Bool)
        → (if b
            then (none, w)
            else handle_found
                (lookup
                  (resolve_task_type req)
                  (built_list (build_chains show resolve_by wrap entries)))
                ctx
                req
                w)
          ≡ chain
              (if b
                then []
                else built_for show resolve_by wrap
                    (resolve_task_type req)
                    (lookup (resolve_task_type req) entries))
              ctx
              req
              w
    by_type true = refl
    by_type false =
        build_chains-Serves show resolve_by wrap (resolve_task_type req) entries t distinct h ctx
          req w

-- Where the task types of the configuration are distinct, as the keys of a map are, the verifier that
-- is built from it runs each request through the chain of the global verifiers, those listed for the
-- request's task type, if it has one, and the custom ones, in this order.
pub build_chain-listed :
    {S C : Type 0} (show : ℕ → String) (resolve_by : ResolveFunc (State S) C)
    (wrap : Option (WrapFunc (State S))) (cfg : ValidatorsConfig C) (s : State S)
    (v : Interface (State S)) (ctx : Context) (req : VerifyRequest) (w : State S)
    → Distinct cfg.by_task_type
    → (build_chain show resolve_by wrap cfg s).0 ≡ ok v
    → v ctx req w ≡ chain (listed show resolve_by wrap cfg req) ctx req w
unfolding build_chain
build_chain-listed show resolve_by wrap cfg s v ctx req w distinct h =
    let (made, t, ready) = chain_of-eq-ok _ _ _ s v h in
    ap (λ u. u ctx req w) made
    ∙ chain_or_pass-eq-chain _ ctx req w
    ∙ chain-append_middle _ _ _ _ ctx req w
        (chain-typed show resolve_by wrap cfg.by_task_type t distinct ready ctx req)
