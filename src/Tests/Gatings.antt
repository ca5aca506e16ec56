-- ===== src/Tests/Gatings.antt =====
-- The theorems on the graph applied to the sample pipeline, whose guarded step is skipped.
use zero_trust_service.Common.{
  ◌≡◌, ◌≢◌, ◌==◌, eq_iff, refl, sym, ap, ◌∙◌, subst, ◌↔◌, ◌⊎◌, inl, inr, String, Bool, true, false,
  none, some, List, [], ◌∷◌, All, Elem, map, length,
}
use zero_trust_service.Common.Texts.{itoa}
use zero_trust_service.Fault.{ok}
use zero_trust_service.Pipeline.Violations.{
  StepRanFunc, ConditionFunc, ConditionUnknownViolation, with_ran, with_condition,
}
use zero_trust_service.Pipeline.Graph.{Pointer, fqn_of}
use zero_trust_service.Pipeline.Climb.{preds, climb, terminal_at, terminal_leaves}
use zero_trust_service.Pipeline.Rank.{rank, IsNode, Below}
use zero_trust_service.Pipeline.Descent.{preds-Below}
use zero_trust_service.Pipeline.Lookup.{lookup_node}
use zero_trust_service.Pipeline.Resolve.{live_ancestor}
use zero_trust_service.Pipeline.Behind.{Runs, Unknown, Behind, direct, over}
use zero_trust_service.Pipeline.Frontier.{Distinct}
use zero_trust_service.Pipeline.Live.{live_ancestors_of, precedes_via}
use zero_trust_service.Pipeline.Precedes.{Precedes, precedes_via_iff}
use zero_trust_service.Pipeline.Gate.{Required, live_ancestors_of_iff, live_ancestors_of_covers}
use zero_trust_service.Pipeline.Suffixes.{Axis, index_suffix, product_suffixes, matrix_combos}
use zero_trust_service.Pipeline.Products.{matrix_combos-product_suffixes}
use zero_trust_service.Pipeline.Positions.{Before, Leaf}
use zero_trust_service.Pipeline.Terminals.{Reaches}
use zero_trust_service.Pipeline.Climbed.{preds_order}
use zero_trust_service.Pipeline.Errors.{node_not_found}
use zero_trust_service.Pipeline.Step.{Answer, empty_verdict, evaluate_step}
use zero_trust_service.Pipeline.Ready.{Ready}
use zero_trust_service.Pipeline.Returns.{evaluate_step_returns}
use zero_trust_service.Pipeline.Built.{lookup_node-build_graph}
use zero_trust_service.Pipeline.Assemble.{verify_step_order}
use zero_trust_service.Pipeline.Order.{verify_step_order_returns}
use zero_trust_service.Tests.Samples.{quote}
use zero_trust_service.Tests.Graphs.{
  pipeline_yaml, build_p, lint_p, deploy_p, sample_graph, build_graph_sample,
}

abbrev deploy_fqn : String
deploy_fqn = "pipeline.stages.ci.spec.execution.steps.deploy"

-- The guard of the second step does not hold.
abbrev no_flag : ConditionFunc
no_flag w = ok false

abbrev all_ran : StepRanFunc
all_ran fqn = ok true

found_deploy : lookup_node sample_graph deploy_fqn ≡ some deploy_p
unfolding lookup_node
found_deploy = refl

found_build :
    lookup_node sample_graph "pipeline.stages.ci.spec.execution.steps.build" ≡ some build_p
unfolding lookup_node
found_build = refl

lookup_node-build_graph_example : IsNode sample_graph.root deploy_p
lookup_node-build_graph_example =
    lookup_node-build_graph pipeline_yaml [] sample_graph deploy_fqn deploy_p build_graph_sample
      found_deploy

build_in_graph : IsNode sample_graph.root build_p
build_in_graph =
    lookup_node-build_graph pipeline_yaml [] sample_graph
      "pipeline.stages.ci.spec.execution.steps.build" build_p build_graph_sample found_build

preds_deploy : preds deploy_p ≡ lint_p ∷ []
unfolding preds climb terminal_at terminal_leaves
preds_deploy = refl

preds_lint : preds lint_p ≡ build_p ∷ []
unfolding preds climb terminal_at terminal_leaves
preds_lint = refl

preds_build : preds build_p ≡ []
unfolding preds climb terminal_at terminal_leaves
preds_build = refl

Behind-deploy : {p : Pointer} → Behind no_flag deploy_p p → (lint_p ≡ p) ⊎ (build_p ≡ p)
Behind-deploy (direct p i) = elim (subst (Elem p) preds_deploy i) [
  | inl e ↦ inl e
  | inr none_left ↦ absurd none_left
]
Behind-deploy (over p q k d i) = elim (Behind-deploy k) [
  | inl e ↦ elim (subst (Elem q) preds_lint (subst (λ n. Elem q (preds n)) (sym e) i)) [
    | inl f ↦ inr f
    | inr none_left ↦ absurd none_left
  ]
  | inr e ↦ absurd (subst (Elem q) preds_build (subst (λ n. Elem q (preds n)) (sym e) i))
]

texts_differ : (s t : String) → (s == t) ≡ false → s ≢ t
texts_differ s t h e = let k = (eq_iff s t).1 e in cc

lint-ne-build : fqn_of lint_p ≢ fqn_of build_p
lint-ne-build = texts_differ (fqn_of lint_p) (fqn_of build_p) refl

Distinct-deploy : Distinct no_flag deploy_p
Distinct-deploy p q k l e = elim (Behind-deploy k) [
  | inl x ↦ elim (Behind-deploy l) [
    | inl y ↦ cc
    | inr y ↦ absurd (lint-ne-build (ap fqn_of x ∙ e ∙ sym (ap fqn_of y)))
  ]
  | inr x ↦ elim (Behind-deploy l) [
    | inl y ↦ absurd (lint-ne-build (ap fqn_of y ∙ sym e ∙ sym (ap fqn_of x)))
    | inr y ↦ cc
  ]
]

live_ancestors_of_iff_example :
    (nodes : List Pointer) × (unknowns : List ConditionUnknownViolation) × (live_ancestors_of quote
        deploy_p deploy_fqn no_flag true
      ≡ some (map (live_ancestor deploy_p deploy_fqn) nodes, unknowns))
    × ((p : Pointer) → Elem p nodes ↔ Required no_flag deploy_p true p)
    × ((u : ConditionUnknownViolation)
        → Elem u unknowns ↔ ((p : Pointer) × Behind no_flag deploy_p p × Unknown quote no_flag p u))
live_ancestors_of_iff_example =
    live_ancestors_of_iff sample_graph.root no_flag deploy_p lookup_node-build_graph_example quote
      deploy_fqn true Distinct-deploy

live_ancestors_of_covers_example :
    (nodes : List Pointer) × (unknowns : List ConditionUnknownViolation) × (live_ancestors_of quote
        deploy_p deploy_fqn no_flag true
      ≡ some (map (live_ancestor deploy_p deploy_fqn) nodes, unknowns))
    × ((p : Pointer)
        → Behind no_flag deploy_p p
        → Runs no_flag p
        → Elem p nodes ⊎ ((b : Pointer) × Elem b nodes × Precedes p b))
live_ancestors_of_covers_example =
    live_ancestors_of_covers sample_graph.root no_flag deploy_p lookup_node-build_graph_example
      quote deploy_fqn Distinct-deploy

preds-Below_example : All (Below sample_graph.root (rank deploy_p)) (preds deploy_p)
preds-Below_example = preds-Below sample_graph.root deploy_p lookup_node-build_graph_example

precedes_via_iff_example :
    (r : Bool) × (precedes_via build_p deploy_p ≡ some r) × ((r ≡ true) ↔ Precedes build_p deploy_p)
precedes_via_iff_example =
    precedes_via_iff sample_graph.root build_p build_in_graph deploy_p
      lookup_node-build_graph_example

evaluate_step_returns_example :
    (a : Answer) × (evaluate_step quote sample_graph deploy_fqn (with_condition (some no_flag) ∷ [])
      ≡ some a)
    × ((a.1 ≡ some node_not_found) ↔ (lookup_node sample_graph deploy_fqn ≡ none))
    × ((a.1 ≡ none) ⊎ (a ≡ (empty_verdict deploy_fqn, some node_not_found)))
evaluate_step_returns_example =
    evaluate_step_returns quote sample_graph deploy_fqn (with_condition (some no_flag) ∷ [])
      (λ target found.
        lookup_node-build_graph pipeline_yaml [] sample_graph deploy_fqn target build_graph_sample
          found)

verify_step_order_returns_example :
    (a : Answer) × (verify_step_order quote pipeline_yaml deploy_fqn []
        (with_ran (some all_ran) ∷ [])
      ≡ some a)
    × ((a.1 ≡ none) ⊎ ((a.0 ≡ empty_verdict deploy_fqn) × (a.0.allowed ≡ false)))
verify_step_order_returns_example =
    verify_step_order_returns quote pipeline_yaml deploy_fqn [] (with_ran (some all_ran) ∷ [])

abbrev region_axis : Axis
region_axis = record { name = "region"; vals = "us" ∷ "eu" ∷ [] }

abbrev tier_axis : Axis
tier_axis = record { name = "tier"; vals = "free" ∷ "paid" ∷ "trial" ∷ [] }

matrix_combos-product_suffixes_example :
    matrix_combos (λ i val. index_suffix i) (region_axis ∷ tier_axis ∷ []) []
    ≡ product_suffixes (map (λ (a : Axis). length a.vals) (region_axis ∷ tier_axis ∷ []))
matrix_combos-product_suffixes_example =
    matrix_combos-product_suffixes (region_axis ∷ tier_axis ∷ [])

six_instances :
    product_suffixes (2 ∷ 3 ∷ []) ≡ "_0_0" ∷ "_0_1" ∷ "_0_2" ∷ "_1_0" ∷ "_1_1" ∷ "_1_2" ∷ []
unfolding product_suffixes itoa
six_instances = refl

preds_order_example :
    All (λ a. Before a deploy_p) (preds deploy_p)
    × ((x : Pointer) → Leaf x → Before x deploy_p → Reaches x (preds deploy_p))
preds_order_example =
    preds_order sample_graph.root deploy_p lookup_node-build_graph_example
      (refl, (refl, (refl, tt)))
