-- ===== src/State.antt =====
-- The state outside of the code that a request touches: the heap of trackers (verifier/instrumented/
-- tracker.go), to which a context points by index, what the metrics emitter (metrics/metrics.go) and the audit writer (audit/audit.go) were given, in order,
-- and the wall clock as the sequence of its readings in nanoseconds. `own` is the state of verifiers
-- that the code does not fix.
use zero_trust_service.Common.{ℕ, ℤ, suc, String, Bool, List, [], ◌∷◌, ◌++◌}
use zero_trust_service.Types.{Bytes}

-- Tracker collects per-request validator results.
pub record Tracker : Type 0 where
  pub validators_run : List String
  pub failed_validator : String

pub record Dimension : Type 0 where
  pub key : String
  pub value : String

abbrev pub dim : String → String → Dimension
dim k v = record { key = k; value = v }

-- A call of the emitter. A duration is given in nanoseconds, not in seconds as a float.
pub data Emission : Type 0 where
  counter : String → ℤ → List Dimension → Emission
  histogram : String → ℤ → List Dimension → Emission
  gauge : String → ℤ → List Dimension → Emission

-- The records that the audit middlewares write. Times are in nanoseconds, a timestamp in
-- milliseconds.
pub record Record : Type 0 where
  pub id : String
  pub start_time : ℕ
  pub end_time : ℕ
  pub account_id : String
  pub task_id : String
  pub task_type : String
  pub delegate_id : String
  pub delegate_instance_id : String
  pub git_ops_agent_id : String
  pub allowed : Bool
  pub failed_validator : String
  pub reason : String
  pub error : String
  pub duration : ℤ
  pub validators_run : List String

pub record OutputRecord : Type 0 where
  pub id : String
  pub timestamp : ℤ
  pub account_id : String
  pub task_id : String
  pub task_type_name : String
  pub response_code : String
  pub git_ops_agent_id : String

-- A call of `Writer.WriteEvent` with its event kind, "verify" or "output", and the raw payload.
pub data Event : Type 0 where
  verify : Record → Bytes → Event
  output : OutputRecord → Bytes → Event

pub record State (S : Type 0) : Type 0 where
  pub trackers : List Tracker
  pub emitted : List Emission
  pub written : List Event
  pub clock : ℕ → ℕ
  pub readings : ℕ
  pub own : S

module _ {S : Type 0} where
  -- `time.Now()`: the next reading of the clock.
  abbrev pub now : State S → ℕ
  now s = s.clock s.readings

  abbrev pub tick : State S → State S
  tick s = record s { readings = suc s.readings }

  abbrev pub emit : Emission → State S → State S
  emit e s = record s { emitted = s.emitted ++ e ∷ [] }

  abbrev pub write_event : Event → State S → State S
  write_event e s = record s { written = s.written ++ e ∷ [] }
