-- ===== src/Instrumented/Emissions.antt =====
-- verifier/instrumented/instrumented.go: how often a chain of instrumented verifiers counts a task
-- as blocked.
use zero_trust_service.Common.{
  ℕ, ℤ, ◌+◌, ◌≡◌, ap, ◌∙◌, String, Bool, true, false, Option, none, some, List, [], ◌∷◌, ◌++◌,
  if◌then◌else◌, arith, All, is_some, ◌==◌,
}
use zero_trust_service.Fault.{Error}
use zero_trust_service.Types.{VerifyRequest}
use zero_trust_service.State.{State, Emission, counter, histogram, gauge, tick}
use zero_trust_service.Verifier.{Context, Interface, chain, and_then}
use zero_trust_service.Instrumented.{report, instrument}
use zero_trust_service.Instrumented.Tracking.{instrument_all}

-- The emissions that count a blocked task.
abbrev pub is_blocked : Emission → Bool
is_blocked (counter name value dims) = name == "zts_blocked_tasks_total"
is_blocked (histogram name value dims) = false
is_blocked (gauge name value dims) = false

abbrev pub blocked : List Emission → ℕ
blocked [] = 0
blocked (e ∷ es) = (if is_blocked e then 1 else 0) + blocked es

abbrev pub one_if_denied : Option Error → ℕ
one_if_denied e = if is_some e then 1 else 0

blocked-append : (xs ys : List Emission) → blocked (xs ++ ys) ≡ blocked xs + blocked ys
blocked-append [] ys = omega arith
blocked-append (x ∷ xs) ys = omega (arith, blocked-append xs ys)

module _ {S : Type 0} where
  -- The verifier emits no metrics of its own.
  abbrev pub KeepsEmitted : Interface (State S) → Type 0
  KeepsEmitted v =
      (ctx : Context) (req : VerifyRequest) (s : State S) → (v ctx req s).1.emitted ≡ s.emitted

  blocked-report :
      (name : String) (req : VerifyRequest) (d : ℤ) (failed : Bool) (s : State S)
      → blocked (report name req d failed s).emitted ≡ blocked s.emitted + (if failed then 1 else 0)
  unfolding report
  blocked-report name req d true s = omega (
    arith,
    blocked-append ((s.emitted ++ _ ∷ []) ++ _ ∷ []) (_ ∷ []),
    blocked-append (s.emitted ++ _ ∷ []) (_ ∷ []),
    blocked-append s.emitted (_ ∷ []),
  )
  blocked-report name req d false s =
      omega
        (arith, blocked-append (s.emitted ++ _ ∷ []) (_ ∷ []), blocked-append s.emitted (_ ∷ []))

  blocked-instrument :
      (name : String) (v : Interface (State S)) (ctx : Context) (req : VerifyRequest) (s : State S)
      → KeepsEmitted v
      → blocked (instrument name v ctx req s).1.emitted
        ≡ blocked s.emitted + one_if_denied (instrument name v ctx req s).0
  unfolding instrument
  blocked-instrument name v ctx req s keeps =
      blocked-report name req _ _ _
      ∙ ap (λ l. blocked l + one_if_denied (v ctx req (tick s)).0) (keeps ctx req (tick s))

  blocked-and_then :
      (n : ℕ) (r : Option Error × State S) (rest : State S → Option Error × State S)
      → blocked r.1.emitted ≡ n + one_if_denied r.0
      → ((s : State S) → blocked (rest s).1.emitted ≡ blocked s.emitted + one_if_denied (rest s).0)
      → blocked (and_then r rest).1.emitted ≡ n + one_if_denied (and_then r rest).0
  blocked-and_then n (some e, s) rest h ih = h
  blocked-and_then n (none, s) rest h ih = omega (arith, ih s)

  -- A chain of instrumented verifiers, none of which emits metrics by itself, counts one blocked
  -- task if it denies the request and none if it allows it.
  pub chain-instrument-blocked :
      (nvs : List (String × Interface (State S))) (ctx : Context) (req : VerifyRequest)
      (s : State S)
      → All (λ (p : String × Interface (State S)). KeepsEmitted p.1) nvs
      → blocked (chain (instrument_all nvs) ctx req s).1.emitted
        ≡ blocked s.emitted + one_if_denied (chain (instrument_all nvs) ctx req s).0
  unfolding chain
  chain-instrument-blocked [] ctx req s keeps = omega arith
  chain-instrument-blocked ((name, v) ∷ nvs) ctx req s (keep, keeps) =
      blocked-and_then (blocked s.emitted) (instrument name v ctx req s)
        (chain (instrument_all nvs) ctx req) (blocked-instrument name v ctx req s keep)
        (λ s'. chain-instrument-blocked nvs ctx req s' keeps)
