-- ===== src/Pipeline/Resolve.antt =====
-- verifier/pipeline/graph.go: `Resolve`, the direct predecessors of a step and the guards under which
-- it runs, and `MatchesAncestor`.
use zero_trust_service.Common.{
  ◌≡◌, refl, String, Bool, true, false, Option, none, some, List, [], ◌∷◌, ◌==◌, ◌&&◌, ◌||◌,
  if◌then◌else◌, map,
}
use zero_trust_service.Pipeline.Model.{When, Ancestor, join_and, join_or, Resolution, FanoutStatus}
use zero_trust_service.Pipeline.Graph.{
  Pointer, info, fqn_of, has_strategy_in_chain, strategy_excluded, strategy_status,
  rollback_container, at_rollback_entry,
}
use zero_trust_service.Pipeline.Climb.{climb, with_guard}
use zero_trust_service.Pipeline.Instances.{instance_fqns, ancestor_instances}
use zero_trust_service.Pipeline.Lookup.{PipelineGraph, lookup_node}

abbrev pub when_status_failure : String
when_status_failure = "Failure"

abbrev pub when_status_all : String
when_status_all = "All"

abbrev pub type_of : Pointer → String
type_of [] = ""
type_of (n ∷ up) = (info n).step_type

abbrev pub guard_of : Pointer → Option When
guard_of [] = none
guard_of (n ∷ up) = (info n).guard

-- Whether a guard asks for a failure: `Status == WhenStatusFailure || Status == WhenStatusAll`.
unfoldable pub on_failure : Option When → Bool
on_failure none = false
on_failure (some w) = w.status == when_status_failure || w.status == when_status_all

-- `rb != nil && rb.parent != nil && rb.parent.pipelineRollback`.
unfoldable pub in_pipeline_rollback : Pointer → Bool
in_pipeline_rollback [] = false
in_pipeline_rollback (rb ∷ []) = false
in_pipeline_rollback (rb ∷ stage ∷ up) = (info stage).pipeline_rollback

-- `orJoined`, which is also how `Resolve` sets the join of a step.
unfoldable pub or_joined : Pointer → Bool
unfolding on_failure at_rollback_entry
or_joined node = on_failure (guard_of node) || at_rollback_entry node

-- The status of a fan-out whose instances are enumerated, or not: "" where it is not set.
abbrev pub status_unless : Bool → Option (List String) → FanoutStatus → FanoutStatus
status_unless expands (some instances) status = ""
status_unless true none status = status
status_unless false none status = ""

abbrev pub instances_or_nil : Option (List String) → List String
instances_or_nil none = []
instances_or_nil (some instances) = instances

-- An ancestor that the step waits for, with its instances or the reason why they are not known.
unfoldable pub live_ancestor : Pointer → String → Pointer → Ancestor
unfolding ancestor_instances has_strategy_in_chain strategy_status
live_ancestor target raw p =
    let expands = has_strategy_in_chain p in
    let instances = ancestor_instances p target raw in
    record {
      fqn = fqn_of p;
      type_name = type_of p;
      expands = expands;
      instances = instances_or_nil instances;
      status = status_unless expands instances (strategy_status p);
      excluded = false;
    }

-- The body of the loop of `Resolve` over the predecessors.
unfoldable pub resolve_ancestor : Pointer → String → Pointer → Ancestor
unfolding live_ancestor strategy_excluded has_strategy_in_chain
resolve_ancestor target raw p =
    if strategy_excluded p
    then record {
      fqn = fqn_of p;
      type_name = type_of p;
      expands = has_strategy_in_chain p;
      instances = [];
      status = "";
      excluded = true;
    }
    else live_ancestor target raw p

-- `Resolve` for the node that was found.
unfoldable pub resolve_node : Pointer → String → Resolution
unfolding or_joined resolve_ancestor climb has_strategy_in_chain strategy_excluded strategy_status
    instance_fqns at_rollback_entry rollback_container in_pipeline_rollback
resolve_node node raw =
    let expands = has_strategy_in_chain node in
    let excluded = expands && strategy_excluded node in
    let climbed = climb node (with_guard (guard_of node) []) in
    record {
      fqn = fqn_of node;
      found = true;
      type_name = type_of node;
      has_strategy = expands;
      status =
          if excluded
          then ""
          else status_unless expands (instance_fqns node) (strategy_status node);
      excluded = excluded;
      join = if or_joined node then join_or else join_and;
      ancestors = map (resolve_ancestor node raw) climbed.0;
      conditions = climbed.1;
      separate_plan_rollback =
          at_rollback_entry node && in_pipeline_rollback (rollback_container node);
    }

unresolved : String → Resolution
unresolved fqn = record {
  fqn = fqn;
  found = false;
  type_name = "";
  has_strategy = false;
  status = "";
  excluded = false;
  join = join_and;
  ancestors = [];
  conditions = [];
  separate_plan_rollback = false;
}

resolve_found : String → Option Pointer → Resolution
unfolding resolve_node unresolved
resolve_found fqn none = unresolved fqn
resolve_found fqn (some node) = resolve_node node fqn

-- `Resolve`, of a graph that is not nil.
unfoldable pub resolve : PipelineGraph → String → Resolution
unfolding resolve_found lookup_node
resolve g fqn = resolve_found fqn (lookup_node g fqn)

matches_found : Option Pointer → Ancestor → Bool
matches_found none a = false
matches_found (some n) a = fqn_of n == a.fqn

-- `MatchesAncestor`.
unfoldable pub matches_ancestor : PipelineGraph → String → Ancestor → Bool
unfolding matches_found lookup_node
matches_ancestor g pool_fqn a = matches_found (lookup_node g pool_fqn) a

pub resolve-found :
    (g : PipelineGraph) (fqn : String) (node : Pointer)
    → lookup_node g fqn ≡ some node
    → resolve g fqn ≡ resolve_node node fqn
unfolding resolve
resolve-found g fqn node e = rw e refl
