-- ===== src/Instrumented/Tracking.antt =====
-- verifier/instrumented/tracker.go and instrumented.go: what the tracker of a request holds after a
-- chain of instrumented verifiers has run.
use zero_trust_service.Common.{
  ◌≡◌, refl, String, Bool, true, false, Option, none, some, List, [], ◌∷◌, ◌++◌, ◌==◌,
  if◌then◌else◌, map, All, is_some, get_elem?-append_last, get_elem?-set_self, ℕ, ℤ, append_assoc,
  append-nil, ap, sym, ◌∙◌,
}
use zero_trust_service.Fault.{Error}
use zero_trust_service.Types.{VerifyRequest}
use zero_trust_service.State.{Tracker, State, tick}
use zero_trust_service.Verifier.{Context, Interface, chain, and_then}
use zero_trust_service.Instrumented.{
  fresh_tracker, record_result, with_tracker, found_tracker, tracker_from, record_at, report,
  instrument,
}

found_tracker-record_at :
    (ts : List Tracker) (p : Option ℕ) (name : String) (failed : Bool) (t : Tracker)
    → found_tracker ts p ≡ some t
    → found_tracker (record_at p name failed ts) p ≡ some (record_result t name failed)
unfolding found_tracker record_at
found_tracker-record_at ts none name failed t h = cc
found_tracker-record_at ts (some i) name failed t h =
    rw (h, record_at) (get_elem?-set_self ts i (record_result t name failed) t h)

-- What a run of the verifiers `names` that ended with the error `e` wrote into a tracker.
abbrev pub Verdict : Option Error → (run rest : List String) → (before after : String) → Type 0
Verdict none run rest before after = (rest ≡ []) × (after ≡ before)
Verdict (some e) run rest before after =
    (init : List String) × (last : String) × (run ≡ init ++ last ∷ [])
    × (after ≡ (if before == "" then last else before))

pub record Traced (names : List String) (e : Option Error) (t u : Tracker) : Type 0 where
  pub run : List String
  pub rest : List String
  pub split : names ≡ run ++ rest
  pub listed : u.validators_run ≡ t.validators_run ++ run
  pub verdict : Verdict e run rest t.failed_validator u.failed_validator

Traced-nil : (t : Tracker) → Traced [] none t t
Traced-nil t = record {
  run = [];
  rest = [];
  split = refl;
  listed = sym (append-nil _);
  verdict = (refl, refl);
}

Traced-stop :
    (name : String) (names : List String) (e : Error) (t : Tracker)
    → Traced (name ∷ names) (some e) t (record_result t name true)
unfolding record_result
Traced-stop name names e t = record {
  run = name ∷ [];
  rest = names;
  split = refl;
  listed = refl;
  verdict = ([], name, refl, refl);
}

Verdict-cons :
    (name : String) (e : Option Error) (run rest : List String) (before after : String)
    → Verdict e run rest before after
    → Verdict e (name ∷ run) rest before after
Verdict-cons name none run rest before after v = v
Verdict-cons name (some e) run rest before after (init, last, split, set_to) =
    (name ∷ init, last, ap (λ l. name ∷ l) split, set_to)

Traced-pass :
    (name : String) (names : List String) (e : Option Error) (t u : Tracker)
    → Traced names e (record_result t name false) u
    → Traced (name ∷ names) e t u
unfolding record_result
Traced-pass name names e t u r = record {
  run = name ∷ r.run;
  rest = r.rest;
  split = ap (λ l. name ∷ l) r.split;
  listed = r.listed ∙ append_assoc t.validators_run (name ∷ []) r.run;
  verdict = Verdict-cons name e r.run r.rest t.failed_validator u.failed_validator r.verdict;
}

module _ {S : Type 0} where
  -- The verifier leaves the heap of trackers alone.
  abbrev pub KeepsTrackers : Interface (State S) → Type 0
  KeepsTrackers v =
      (ctx : Context) (req : VerifyRequest) (s : State S) → (v ctx req s).1.trackers ≡ s.trackers

  abbrev pub instrument_all : List (String × Interface (State S)) → List (Interface (State S))
  instrument_all nvs = map (λ p. instrument p.0 p.1) nvs

  -- The tracker that the server makes for a request is found through the context, and is empty.
  pub tracker_from-with_tracker :
      (ctx : Context) (s : State S)
      → tracker_from (with_tracker ctx s).0 (with_tracker ctx s).1 ≡ some fresh_tracker
  unfolding tracker_from with_tracker
  tracker_from-with_tracker ctx s = get_elem?-append_last s.trackers fresh_tracker

  trackers-report :
      (name : String) (req : VerifyRequest) (d : ℤ) (failed : Bool) (s : State S)
      → (report name req d failed s).trackers ≡ s.trackers
  unfolding report
  trackers-report name req d true s = refl
  trackers-report name req d false s = refl

  trackers-instrument :
      (name : String) (v : Interface (State S)) (ctx : Context) (req : VerifyRequest) (s : State S)
      → KeepsTrackers v
      → (instrument name v ctx req s).1.trackers
        ≡ record_at ctx.tracker name (is_some (instrument name v ctx req s).0) s.trackers
  unfolding instrument
  trackers-instrument name v ctx req s keeps =
      trackers-report name req _ _ _
      ∙ ap (record_at ctx.tracker name (is_some (v ctx req (tick s)).0)) (keeps ctx req (tick s))

  -- One instrumented verifier that leaves the trackers alone records its name and verdict.
  tracker_from-instrument :
      (name : String) (v : Interface (State S)) (ctx : Context) (req : VerifyRequest) (s : State S)
      (t : Tracker)
      → KeepsTrackers v
      → tracker_from ctx s ≡ some t
      → tracker_from ctx (instrument name v ctx req s).1
        ≡ some (record_result t name (is_some (instrument name v ctx req s).0))
  unfolding tracker_from
  tracker_from-instrument name v ctx req s t keeps h =
      rw (trackers-instrument name v ctx req s keeps)
        (found_tracker-record_at s.trackers ctx.tracker name _ t h)

  -- A tracked run: the tracker is found again, and holds what a run of `names` writes into it.
  abbrev pub Tracks : Context → List String → Tracker → Option Error × State S → Type 0
  Tracks ctx names t (e, s) = (u : Tracker) × (tracker_from ctx s ≡ some u) × Traced names e t u

  Tracks-cons :
      (name : String) (names : List String) (ctx : Context) (t : Tracker)
      (r : Option Error × State S) (rest : State S → Option Error × State S)
      → tracker_from ctx r.1 ≡ some (record_result t name (is_some r.0))
      → ((s : State S) (u : Tracker) → tracker_from ctx s ≡ some u → Tracks ctx names u (rest s))
      → Tracks ctx (name ∷ names) t (and_then r rest)
  Tracks-cons name names ctx t (some e, s) rest h ih =
      (record_result t name true, h, Traced-stop name names e t)
  Tracks-cons name names ctx t (none, s) rest h ih =
      let (u, found, traced) = ih s (record_result t name false) h in
      (u, found, Traced-pass name names (rest s).0 t u traced)

  -- Of a chain of instrumented verifiers, none of which touches the trackers by itself, the tracker
  -- of the context records the names of those that ran, in order, behind what it held. If the chain
  -- allowed the request all of them ran and no failure is recorded. If it denied the request the
  -- last one that ran is recorded as the failed validator, unless one was recorded before.
  pub chain-instrument-tracked :
      (nvs : List (String × Interface (State S))) (ctx : Context) (req : VerifyRequest)
      (s : State S) (t : Tracker)
      → All (λ (p : String × Interface (State S)). KeepsTrackers p.1) nvs
      → tracker_from ctx s ≡ some t
      → Tracks ctx (map (λ p. p.0) nvs) t (chain (instrument_all nvs) ctx req s)
  unfolding chain
  chain-instrument-tracked [] ctx req s t keeps h = (t, h, Traced-nil t)
  chain-instrument-tracked ((name, v) ∷ nvs) ctx req s t (keep, keeps) h =
      Tracks-cons name (map (λ p. p.0) nvs) ctx t (instrument name v ctx req s)
        (chain (instrument_all nvs) ctx req) (tracker_from-instrument name v ctx req s t keep h)
        (λ s' u found. chain-instrument-tracked nvs ctx req s' u keeps found)
