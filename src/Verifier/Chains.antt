-- ===== src/Verifier/Chains.antt =====
-- verifier/chain.go, verifier.go and handler.go: a chain against a description of its runs, the
-- order of middlewares, and the response that a handler gives for a verdict.
use zero_trust_service.Common.{
  ◌≡◌, refl, sym, ap, ◌∙◌, subst, fun_ext, ◌↔◌, true, String, Option, none, some, List, [], ◌∷◌,
  ◌++◌, arith, compose-cons, compose-append,
}
use zero_trust_service.Fault.{Error, error_text}
use zero_trust_service.Types.{VerifyRequest}
use zero_trust_service.Verifier.{Context, Interface, and_then, chain, wrap, to_handler}

module _ {W : Type 0} (ctx : Context) (req : VerifyRequest) where
  -- Every verifier allows the request, each in the state that the one before it left.
  pub data Passes : List (Interface W) → W → W → Type 0 where
    done : {w : W} → Passes [] w w
    pass :
        {v : Interface W} {vs : List (Interface W)} {w u t : W}
        → v ctx req w ≡ (none, u)
        → Passes vs u t
        → Passes (v ∷ vs) w t

  -- The first verifiers allow the request, the next one denies it, and the others do not run.
  pub data Stops (e : Error) : List (Interface W) → W → W → Type 0 where
    here :
        {v : Interface W} {vs : List (Interface W)} {w u : W}
        → v ctx req w ≡ (some e, u)
        → Stops e (v ∷ vs) w u
    later :
        {v : Interface W} {vs : List (Interface W)} {w u t : W}
        → v ctx req w ≡ (none, u)
        → Stops e vs u t
        → Stops e (v ∷ vs) w t

  chain-Passes :
      {vs : List (Interface W)} {w t : W} → Passes vs w t → chain vs ctx req w ≡ (none, t)
  unfolding chain
  chain-Passes done = refl
  chain-Passes (pass h p) = rw h (chain-Passes p)

  chain-Stops :
      {e : Error} {vs : List (Interface W)} {w t : W}
      → Stops e vs w t
      → chain vs ctx req w ≡ (some e, t)
  unfolding chain
  chain-Stops (here h) = rw h
  chain-Stops (later h s) = rw h (chain-Stops s)

  -- What a chain returned tells how it ran.
  abbrev Ran : Option Error → List (Interface W) → W → W → Type 0
  Ran none vs w t = Passes vs w t
  Ran (some e) vs w t = Stops e vs w t

  Ran-pass :
      (v : Interface W) (vs : List (Interface W)) {w u : W} (t : W) (o : Option Error)
      → v ctx req w ≡ (none, u)
      → Ran o vs u t
      → Ran o (v ∷ vs) w t
  Ran-pass v vs t none h r = pass h r
  Ran-pass v vs t (some e) h r = later h r

  Ran-and_then :
      (v : Interface W) (vs : List (Interface W)) (w : W) (r : Option Error × W)
      → v ctx req w ≡ r
      → ((u : W) → Ran (chain vs ctx req u).0 vs u (chain vs ctx req u).1)
      → Ran (and_then r (chain vs ctx req)).0 (v ∷ vs) w (and_then r (chain vs ctx req)).1
  Ran-and_then v vs w (some e, u) h ih = here h
  Ran-and_then v vs w (none, u) h ih =
      Ran-pass v vs (chain vs ctx req u).1 (chain vs ctx req u).0 h (ih u)

  chain-Ran :
      (vs : List (Interface W)) (w : W) → Ran (chain vs ctx req w).0 vs w (chain vs ctx req w).1
  unfolding chain
  chain-Ran [] w = done
  chain-Ran (v ∷ vs) w = Ran-and_then v vs w (v ctx req w) refl (chain-Ran vs)

  Ran-of :
      (vs : List (Interface W)) (w t : W) (o : Option Error)
      → chain vs ctx req w ≡ (o, t)
      → Ran o vs w t
  Ran-of vs w t o h = subst (λ (r : Option Error × W). Ran r.0 vs w r.1) h (chain-Ran vs w)

-- A chain allows a request exactly when each of its verifiers does, in order and each in the state
-- that the one before it left; the state it returns is the last one's.
pub chain-eq-none_iff :
    {W : Type 0} (vs : List (Interface W)) (ctx : Context) (req : VerifyRequest) (w t : W)
    → (chain vs ctx req w ≡ (none, t)) ↔ Passes ctx req vs w t
chain-eq-none_iff vs ctx req w t = (Ran-of ctx req vs w t none, chain-Passes ctx req)

-- A chain denies a request with an error exactly when some verifier returns that error after all
-- verifiers before it allowed the request; the state it returns is that verifier's, so that no
-- verifier behind it has run.
pub chain-eq-some_iff :
    {W : Type 0} (vs : List (Interface W)) (ctx : Context) (req : VerifyRequest) (e : Error)
    (w t : W)
    → (chain vs ctx req w ≡ (some e, t)) ↔ Stops ctx req e vs w t
chain-eq-some_iff vs ctx req e w t = (Ran-of ctx req vs w t (some e), chain-Stops ctx req)

abbrev text_of : Option Error → String
text_of none = ""
text_of (some e) = error_text e

module _ {W : Type 0} where
  and_then_assoc :
      (r : Option Error × W) (f g : W → Option Error × W)
      → and_then (and_then r f) g ≡ and_then r (λ w. and_then (f w) g)
  and_then_assoc (none, w) f g = refl
  and_then_assoc (some e, w) f g = refl

  -- A chain of two lists is the first chain, and then the second if the first one allowed.
  pub chain-append :
      (us vs : List (Interface W)) (ctx : Context) (req : VerifyRequest) (w : W)
      → chain (us ++ vs) ctx req w ≡ and_then (chain us ctx req w) (chain vs ctx req)
  unfolding chain
  chain-append [] vs ctx req w = refl
  chain-append (u ∷ us) vs ctx req w =
      ap (and_then (u ctx req w)) (fun_ext (λ t. chain-append us vs ctx req t))
      ∙ sym (and_then_assoc (u ctx req w) (chain us ctx req) (chain vs ctx req))

  -- The first middleware of the list is outermost, and wrapping by two lists in turn, the second
  -- list first, is wrapping by the lists joined.
  pub wrap_order :
      (v : Interface W) (mw : Interface W → Interface W)
      (mws nws : List (Interface W → Interface W))
      → (wrap v (mw ∷ mws) ≡ mw (wrap v mws)) × (wrap v (mws ++ nws) ≡ wrap (wrap v nws) mws)
  unfolding wrap
  wrap_order v mw mws nws = (compose-cons v mw mws, compose-append v mws nws)

  -- The handler of a verifier never returns an error of its own: it allows the request exactly when
  -- the verifier returned no error, the reason is the text of the error, empty if there is none, the
  -- response has no metadata, and the state is the verifier's.
  pub to_handler_verdict :
      (v : Interface W) (ctx : Context) (req : VerifyRequest) (w : W)
      → ((to_handler v ctx req w).0.1 ≡ none)
        × ((to_handler v ctx req w).1 ≡ (v ctx req w).1)
        × (((to_handler v ctx req w).0.0.allowed ≡ true) ↔ ((v ctx req w).0 ≡ none))
        × ((to_handler v ctx req w).0.0.reason ≡ text_of (v ctx req w).0)
        × ((to_handler v ctx req w).0.0.metadata ≡ none)
  unfolding to_handler
  to_handler_verdict v ctx req w =
      (ground arith, ground arith, ground arith, ground arith, ground arith)
