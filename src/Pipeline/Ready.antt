-- ===== src/Pipeline/Ready.antt =====
-- verifier/pipeline/evaluate.go: the verdict of `EvaluateStep` against what the pipeline says of the
-- step, for a caller that gives the two callbacks and no policy.
use zero_trust_service.Common.{◌≡◌, ◌⊎◌, String, true, false, some}
use zero_trust_service.Fault.{ok}
use zero_trust_service.Pipeline.Violations.{StepRanFunc, ConditionFunc}
use zero_trust_service.Pipeline.Graph.{Pointer}
use zero_trust_service.Pipeline.Resolve.{guard_of}
use zero_trust_service.Pipeline.Standing.{
  Expands, Excludes, AllKnown, Above, SeparatePlan, OrJoined,
}
use zero_trust_service.Pipeline.Resolved.{EachRan, OneRan}
use zero_trust_service.Pipeline.Model.{When}
use zero_trust_service.Pipeline.Behind.{Dead, Runs, Behind}
use zero_trust_service.Pipeline.Live.{Live}
use zero_trust_service.Pipeline.Gate.{Required}
use zero_trust_service.Pipeline.Satisfied.{Satisfied}

-- What the join of a step asks of the nodes that it requires: where it waits for any, that none of
-- them is required or one has run; else that each has run.
abbrev pub Waits : StepRanFunc → ConditionFunc → Pointer → String → Type 0
Waits ran cond target raw =
    (OrJoined target
      × (((p : Pointer) → ¬ Required cond target false p)
          ⊎ ((p : Pointer) × Required cond target false p × OneRan target raw ran p)))
    ⊎ ((¬ OrJoined target)
        × ((p : Pointer) → Required cond target true p → EachRan target raw ran p))

-- What a step must fulfil to run, by the nodes of the graph.
pub record Ready (ran : StepRanFunc) (cond : ConditionFunc) (target : Pointer) (raw : String)
    : Type 0 where
  pub not_excluded : ¬ (Expands target × Excludes target)
  pub enumerable : Expands target → AllKnown target
  pub guards_hold : (w : When) → (guard_of target ≡ some w) ⊎ Above target w → cond w ≡ ok true
  pub same_plan : ¬ SeparatePlan target
  pub guards_known : (p : Pointer) → Behind cond target p → Dead cond p ⊎ Runs cond p
  pub joined : Waits ran cond target raw
