-- ===== src/Tests/Verifiers.antt =====
-- Chains, middlewares, handlers and trackers on the sample verifiers.
use zero_trust_service.Common.{ℕ, ◌≡◌, refl, ◌↔◌, ◌++◌, ◌+◌, String, none, some, List, [], ◌∷◌, All}
use zero_trust_service.Fault.{message}
use zero_trust_service.State.{State}
use zero_trust_service.Verifier.{Interface, Context, chain, wrap, and_then}
use zero_trust_service.Verifier.Chains.{
  Passes, Stops, chain-eq-none_iff, chain-eq-some_iff, chain-append, wrap_order,
}
use zero_trust_service.Instrumented.{fresh_tracker, tracker_from, instrument, record_result}
use zero_trust_service.Instrumented.Tracking.{
  Tracks, KeepsTrackers, instrument_all, chain-instrument-tracked,
}
use zero_trust_service.Instrumented.Emissions.{
  blocked, one_if_denied, KeepsEmitted, chain-instrument-blocked,
}
use zero_trust_service.Tests.Samples.{plain_context, shell_request, start, counts, denies}

-- The verifier behind the one that denies is not called.
chain_stops :
    chain (counts ∷ denies ∷ counts ∷ []) plain_context shell_request start
    ≡ (some (message "no"), record start { own = 2 })
unfolding chain
chain_stops = refl

chain-eq-none_iff_example :
    (chain (counts ∷ counts ∷ []) plain_context shell_request start
      ≡ (none, record start { own = 2 }))
    ↔ Passes plain_context shell_request (counts ∷ counts ∷ []) start (record start { own = 2 })
chain-eq-none_iff_example =
    chain-eq-none_iff (counts ∷ counts ∷ []) plain_context shell_request start
      (record start { own = 2 })

chain-eq-some_iff_example :
    (chain (counts ∷ denies ∷ []) plain_context shell_request start
      ≡ (some (message "no"), record start { own = 2 }))
    ↔ Stops plain_context shell_request
        (message "no")
        (counts ∷ denies ∷ [])
        start
        (record start { own = 2 })
chain-eq-some_iff_example =
    chain-eq-some_iff (counts ∷ denies ∷ []) plain_context shell_request (message "no") start
      (record start { own = 2 })

chain-append_example :
    chain ((counts ∷ []) ++ (denies ∷ [])) plain_context shell_request start
    ≡ and_then
        (chain (counts ∷ []) plain_context shell_request start)
        (chain (denies ∷ []) plain_context shell_request)
chain-append_example = chain-append (counts ∷ []) (denies ∷ []) plain_context shell_request start

-- A middleware that calls the next verifier twice.
abbrev twice : Interface (State ℕ) → Interface (State ℕ)
twice v ctx req s = and_then (v ctx req s) (v ctx req)

abbrev guarded : Interface (State ℕ) → Interface (State ℕ)
guarded v ctx req s = and_then (denies ctx req s) (v ctx req)

wrap_order_example :
    (wrap counts (twice ∷ guarded ∷ []) ≡ twice (wrap counts (guarded ∷ [])))
    × (wrap counts ((guarded ∷ []) ++ (twice ∷ []))
        ≡ wrap (wrap counts (twice ∷ [])) (guarded ∷ []))
wrap_order_example = wrap_order counts twice (guarded ∷ []) (twice ∷ [])

-- The context and the state after the server made the request's tracker.
abbrev tracked_context : Context
tracked_context = record plain_context { tracker = some 0 }

abbrev tracked_start : State ℕ
tracked_start = record start { trackers = fresh_tracker ∷ [] }

abbrev named : List (String × Interface (State ℕ))
named = ("first", counts) ∷ ("second", denies) ∷ ("third", counts) ∷ []

chain_tracked :
    (chain (instrument_all named) tracked_context shell_request tracked_start).1.trackers
    ≡ record { validators_run = "first" ∷ "second" ∷ []; failed_validator = "second" } ∷ []
unfolding chain instrument record_result
chain_tracked = refl

found_start : tracker_from tracked_context tracked_start ≡ some fresh_tracker
unfolding tracker_from
found_start = refl

named-KeepTrackers : All (λ (p : String × Interface (State ℕ)). KeepsTrackers p.1) named
named-KeepTrackers = ((λ ctx req s. refl), ((λ ctx req s. refl), ((λ ctx req s. refl), tt)))

named-KeepEmitted : All (λ (p : String × Interface (State ℕ)). KeepsEmitted p.1) named
named-KeepEmitted = ((λ ctx req s. refl), ((λ ctx req s. refl), ((λ ctx req s. refl), tt)))

chain-instrument-tracked_example :
    Tracks tracked_context
      ("first" ∷ "second" ∷ "third" ∷ [])
      fresh_tracker
      (chain (instrument_all named) tracked_context shell_request tracked_start)
chain-instrument-tracked_example =
    chain-instrument-tracked named tracked_context shell_request tracked_start fresh_tracker
      named-KeepTrackers found_start

chain-instrument-blocked_example :
    blocked (chain (instrument_all named) tracked_context shell_request tracked_start).1.emitted
    ≡ 0 + one_if_denied (chain (instrument_all named) tracked_context shell_request tracked_start).0
chain-instrument-blocked_example =
    chain-instrument-blocked named tracked_context shell_request tracked_start named-KeepEmitted
