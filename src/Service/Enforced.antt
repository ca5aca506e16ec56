-- ===== src/Service/Enforced.antt =====
-- examples/zts/ordering/verifier.go: what the verifier answers and records for a step of a pipeline.
use zero_trust_service.Common.{
  ◌≡◌, refl, ◌⊎◌, inl, inr, String, Bool, true, false, Option, none, some, ◌&&◌, not, is_some,
  if◌then◌else◌, Bool-cases,
}
use zero_trust_service.Fault.{Error}
use zero_trust_service.Types.{VerifyRequest}
use zero_trust_service.Template.Types.{ResolvedPipeline}
use zero_trust_service.Pipeline.Evaluate.{Verdict}
use zero_trust_service.Pipeline.Errors.{PipelineError}
use zero_trust_service.Pipeline.Step.{Answer}
use zero_trust_service.Pipeline.Assemble.{Decoded, verify_step_order}
use zero_trust_service.Pipeline.Order.{verify_step_order_returns}
use zero_trust_service.Service.Store.{Store, mark_ran}
use zero_trust_service.Service.Ordering.{
  Ordering, Target, Outcome, order_target, is_node_not_found, order_options, order_failed,
  order_denied, order_answered, order_asked, order_of, verify_order,
}

-- Whether the answer is that the pipeline has no such step.
unfoldable pub is_unknown : Option PipelineError → Bool
unfolding is_node_not_found
is_unknown none = false
is_unknown (some e) = is_node_not_found e

module _ (quote trim lower : String → String) (equal_fold : String → String → Bool)
    (decode : String → Decoded) where
  -- The outcome for an answer: the step is recorded, or the store stays as it is.
  Outcomes : Ordering → Target → Store → Answer → Outcome → Type 0
  Outcomes o t store a r =
      ((a.1 ≡ none) × (a.0.allowed ≡ true) × (r ≡ (none, mark_ran store t.plan t.step a.0.fqn)))
      ⊎ ((a.0.allowed ≡ false) × (r.1 ≡ store) × (is_some r.0 ≡ (o.denies && not (is_unknown a.1))))

  failed_by_policy :
      (o : Ordering) (t : Target) (e : PipelineError)
      → is_some (order_failed quote trim lower equal_fold decode o t e)
        ≡ (o.denies && not (is_node_not_found e))
  unfolding order_failed
  failed_by_policy o t e = by_case _ (is_node_not_found e) o.denies
    where
      by_case :
          (x : Error) (b d : Bool)
          → is_some (if b then none else if d then some x else none) ≡ (d && not b)
      by_case x true true = refl
      by_case x true false = refl
      by_case x false true = refl
      by_case x false false = refl

  denied_by_policy :
      (o : Ordering) (t : Target) (v : Verdict)
      → is_some (order_denied quote trim lower equal_fold decode o t v) ≡ (o.denies && true)
  unfolding order_denied
  denied_by_policy o t v = by_case _ o.denies
    where
      by_case : (x : Error) (d : Bool) → is_some (if d then some x else none) ≡ (d && true)
      by_case x true = refl
      by_case x false = refl

  answered :
      (o : Ordering) (t : Target) (store : Store) (a : Answer)
      → (a.1 ≡ none) ⊎ (a.0.allowed ≡ false)
      → Outcomes o t store a (order_answered quote trim lower equal_fold decode o t store a)
  unfolding Outcomes order_answered is_unknown
  answered o t store (v, some e) (inl fine) = absurd cc
  answered o t store (v, some e) (inr shut) = inr (shut, refl, failed_by_policy o t e)
  answered o t store (v, none) fine = elim (Bool-cases v.allowed) [
    | inl fits ↦ inl (refl, fits, rw fits refl)
    | inr shut ↦ inr (shut, rw shut refl, rw shut (denied_by_policy o t v))
  ]

  module _ (o : Ordering) (request : VerifyRequest) (rp : Option ResolvedPipeline)
      (store : Store) where
    -- The verifier answers every request that names a step of a pipeline. Where the evaluation of the
    -- step allows it, the verifier records the instance and the logical step that the verdict names,
    -- and gives no error. Else the store stays as it is, and the verifier gives an error exactly if it
    -- is to deny and the evaluation did not find that the pipeline has no such step.
    pub verify_order_outcome :
        (t : Target)
        → order_target request rp ≡ some t
        → (a : Answer) × (r : Outcome) × (verify_step_order quote
              (decode t.yaml)
              t.step
              o.build_opts
              (order_options quote trim lower equal_fold decode o t.plan store)
            ≡ some a)
          × (verify_order quote trim lower equal_fold decode o request rp store ≡ some r)
          × (((a.1 ≡ none)
                × (a.0.allowed ≡ true)
                × (r ≡ (none, mark_ran store t.plan t.step a.0.fqn)))
              ⊎ ((a.0.allowed ≡ false)
                  × (r.1 ≡ store)
                  × (is_some r.0 ≡ (o.denies && not (is_unknown a.1)))))
    unfolding verify_order order_of order_asked Outcomes
    verify_order_outcome t target =
        let opts = order_options quote trim lower equal_fold decode o t.plan store in
        let (a, run, result) =
          verify_step_order_returns quote (decode t.yaml) t.step o.build_opts opts in
        (
          a,
          order_answered quote trim lower equal_fold decode o t store a,
          run,
          rw (target, run) refl,
          answered o t store a (elim result [ inl fine ↦ inl fine | inr shut ↦ inr shut.1 ]),
        )
