-- ===== src/Middleware/Transparent.antt =====
-- middleware/verify, options.go and verify.go: the middlewares do not change a verdict, so that the
-- client is told what the verifier decided.
use zero_trust_service.Common.{
  ◌≡◌, refl, ◌∙◌, ap, ◌↔◌, ℕ, String, true, Option, none, some, List, [], ◌∷◌, All, compose,
  compose-nil, compose-cons,
}
use zero_trust_service.Json.{Json}
use zero_trust_service.Fault.{Error, Result, ok}
use zero_trust_service.Types.{Bytes, VerifyRequest, VerifyResponse}
use zero_trust_service.State.{State, now, tick}
use zero_trust_service.Verifier.{Context, Interface, VerifyHandler, to_handler}
use zero_trust_service.Verifier.Chains.{to_handler_verdict}
use zero_trust_service.Instrumented.{with_tracker}
use zero_trust_service.Server.{
  stamp, verify_reply, VerifyMiddleware, Options, response_timing, composed_verify_handler, respond,
  handle_verify,
}
use zero_trust_service.Middleware.{
  count_missing, missing_fields, missing_metadata, logging, metrics, audit,
}

module _ {S : Type 0} where
  -- The middleware calls the next handler once, in a state with the same trackers and the same state
  -- of the verifiers, and returns its response and error.
  abbrev pub IsTransparent : VerifyMiddleware (State S) → Type 0
  IsTransparent mw =
      (next : VerifyHandler (State S)) (ctx : Context) (req : VerifyRequest) (s : State S)
      → (t : State S) × (t.trackers ≡ s.trackers)
        × (t.own ≡ s.own)
        × ((mw next ctx req s).0 ≡ (next ctx req t).0)

  logging-IsTransparent : IsTransparent logging
  unfolding logging
  logging-IsTransparent next ctx req s = (tick s, refl, refl, refl)

  metrics-IsTransparent : IsTransparent metrics
  unfolding metrics
  metrics-IsTransparent next ctx req s = (tick s, refl, refl, refl)

  count_missing-keeps :
      (fs : List String) (s : State S)
      → ((count_missing fs s).trackers ≡ s.trackers) × ((count_missing fs s).own ≡ s.own)
  unfolding count_missing
  count_missing-keeps [] s = (refl, refl)
  count_missing-keeps (f ∷ fs) s = count_missing-keeps fs _

  missing_metadata-IsTransparent : IsTransparent missing_metadata
  unfolding missing_metadata
  missing_metadata-IsTransparent next ctx req s =
      let (trackers, own) = count_missing-keeps (missing_fields req) s in
      (count_missing (missing_fields req) s, trackers, own, refl)

  audit-IsTransparent : (uuid : State S → String) → IsTransparent (audit uuid)
  unfolding audit
  audit-IsTransparent uuid next ctx req s = (tick s, refl, refl, refl)

  -- Each of the four verify middlewares calls the next handler in a state with the same trackers and
  -- the same state of the verifiers, and returns the response and the error that it got.
  pub middlewares-IsTransparent :
      (uuid : State S → String)
      → All IsTransparent (logging ∷ metrics ∷ missing_metadata ∷ audit uuid ∷ [])
  middlewares-IsTransparent uuid = (
    logging-IsTransparent,
    (metrics-IsTransparent, (missing_metadata-IsTransparent, (audit-IsTransparent uuid, tt))),
  )

  compose-IsTransparent :
      (mws : List (VerifyMiddleware (State S)))
      → All IsTransparent mws
      → IsTransparent (λ next. compose next mws)
  compose-IsTransparent [] h next ctx req s = (s, refl, refl, rw (compose-nil next))
  compose-IsTransparent (mw ∷ mws) (h, hs) next ctx req s =
      let (t, trackers, own, same) = h (compose next mws) ctx req s in
      let (u, trackers', own', same') = compose-IsTransparent mws hs next ctx req t in
      (u, trackers' ∙ trackers, own' ∙ own, rw (compose-cons next mw mws) (same ∙ same'))

  own-with_tracker : (ctx : Context) (s : State S) → (with_tracker ctx s).1.own ≡ s.own
  unfolding with_tracker
  own-with_tracker ctx s = refl

  -- A handler's response without error reaches the client with its verdict.
  timed_reply :
      (millis : ℕ → Json) (start : ℕ) (r : (VerifyResponse × Option Error) × State S)
      (p : VerifyResponse × Option Error)
      → r.0 ≡ p
      → p.1 ≡ none
      → (resp : VerifyResponse) × ((verify_reply (stamp millis start r)).0 ≡ respond resp)
        × (resp.allowed ≡ p.0.allowed)
  unfolding verify_reply stamp
  timed_reply millis start ((resp, none), s) p h e =
      (_, refl, ap (λ (q : VerifyResponse × Option Error). q.0.allowed) h)
  timed_reply millis start ((resp, some f), s) p h e =
      let clash = ap (λ (q : VerifyResponse × Option Error). q.1) h ∙ e in cc

  -- What the handler chain of the server is called with for a decoded request.
  abbrev pub request_context : Bytes → Context → State S → Context
  request_context raw ctx s = record ((with_tracker ctx s).0) { raw_payload = some raw }

  module _ (millis : ℕ → Json) (decode : Bytes → Result VerifyRequest) where
    -- Where the server's handler stands for a verifier and its middlewares are transparent, a body that
    -- decodes to a request is answered with a response, never an HTTP error, that allows the task
    -- exactly when the verifier returned no error for that request. The verifier was called with a
    -- context that holds the new tracker and the raw body, in a state whose trackers and own state
    -- are those with which the server began, with the new tracker added.
    pub handle_verify-decides :
        (v : Interface (State S)) (o : Options (State S)) (ctx : Context) (raw : Bytes)
        (req : VerifyRequest) (s : State S)
        → o.verify_handler ≡ to_handler v
        → All IsTransparent o.verify_middleware
        → decode raw ≡ ok req
        → (resp : VerifyResponse) × (t : State S) × ((handle_verify decode
              (composed_verify_handler millis o)
              ctx
              (ok raw)
              s).0
            ≡ respond resp)
          × (t.trackers ≡ (with_tracker ctx s).1.trackers)
          × (t.own ≡ s.own)
          × ((resp.allowed ≡ true) ↔ ((v (request_context raw ctx s) req t).0 ≡ none))
    unfolding handle_verify composed_verify_handler response_timing
    handle_verify-decides v o ctx raw req s made transparent decoded =
        let (ctx', s') = with_tracker ctx s in
        let ctx2 = request_context raw ctx s in
        let (t, trackers, own, same) =
          compose-IsTransparent o.verify_middleware transparent o.verify_handler ctx2 req
            (tick s') in
        let (no_error, _, allowed, _, _) = to_handler_verdict v ctx2 req t in
        let (resp, replied, kept) =
          timed_reply millis (now s')
            (compose o.verify_handler o.verify_middleware ctx2 req (tick s'))
            (to_handler v ctx2 req t).0
            (same ∙ ap (λ (h : VerifyHandler (State S)). (h ctx2 req t).0) made) no_error in
        (resp, t, rw decoded replied, trackers, own ∙ own-with_tracker ctx s, rw kept allowed)
