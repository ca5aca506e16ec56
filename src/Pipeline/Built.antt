-- ===== src/Pipeline/Built.antt =====
-- verifier/pipeline/graph.go: the nodes that a graph names are its own, through `BuildGraph` and
-- `lookup`.
use zero_trust_service.Common.{◌≡◌, subst, String, none, some, List, [], ◌∷◌}
use zero_trust_service.Pipeline.Graph.{GraphNode, graph_node, kind_pipeline, no_rollback, Pointer}
use zero_trust_service.Pipeline.Rank.{IsPlaced, IsNode}
use zero_trust_service.Pipeline.Lookup.{PipelineGraph, lookup_node}
use zero_trust_service.Pipeline.Assemble.{
  NodeMap, register_all, BuildResult, built, failed, graph_of, with_maps, check_build, Decoded,
  not_decoded, decoded, naming_of, registered, build_stages, build_graph,
}
use zero_trust_service.Pipeline.Strategies.{MatrixNaming}
use zero_trust_service.Pipeline.Build.{BuildErr, blank_info}
use zero_trust_service.Pipeline.Named.{Given, Maps, Maps-register, Maps-index, lookup_node_named}
use zero_trust_service.Pipeline.Placed.{build_stages-ArePlaced, registered_in_graph}

-- The graph that is built names only its own nodes.
abbrev NamesOwn : PipelineGraph → Type 0
NamesOwn g = Maps (IsNode g.root) g.by_fqn × Maps (IsNode g.root) g.inst_by_fqn

abbrev BuiltOwn : BuildResult → Type 0
BuiltOwn (failed e) = Unit
BuiltOwn (built g) = NamesOwn g

with_maps-BuiltOwn :
    (root : GraphNode) (by_fqn : NodeMap) (duplicates : List String)
    → Maps (IsNode root) by_fqn
    → BuiltOwn (with_maps root by_fqn duplicates)
unfolding with_maps graph_of
with_maps-BuiltOwn root by_fqn [] h = (h, Maps-index (IsNode root) by_fqn by_fqn [] [] h tt)
with_maps-BuiltOwn root by_fqn (d ∷ duplicates) h = tt

check_build-BuiltOwn :
    (root : GraphNode) (first : BuildErr) → IsPlaced root → BuiltOwn (check_build root first)
unfolding check_build
check_build-BuiltOwn root (some e) placed = tt
check_build-BuiltOwn root none placed =
    with_maps-BuiltOwn root (register_all (registered root []) [] []).0
      (register_all (registered root []) [] []).1
      (Maps-register (IsNode root) (registered root []) [] [] (registered_in_graph root placed) tt)

build_graph-BuiltOwn :
    (yaml : Decoded) (opts : List MatrixNaming) → BuiltOwn (build_graph yaml opts)
unfolding build_graph IsPlaced
build_graph-BuiltOwn (not_decoded text) opts = tt
build_graph-BuiltOwn (decoded none) opts = tt
build_graph-BuiltOwn (decoded (some stages)) opts =
    let (cs, first) = build_stages (naming_of opts) stages "pipeline.stages" 0 none in
    check_build-BuiltOwn (graph_node (blank_info kind_pipeline 0) cs no_rollback) first
      (build_stages-ArePlaced (naming_of opts) stages "pipeline.stages" 0 none, tt)

-- In every graph that is built, each FQN that the lookup resolves, logical or of a runtime instance,
-- resolves to a node of that graph: every node on the way to it from the root stands at its index
-- among the children of its container, or is the root of the rollback of a stage.
pub lookup_node-build_graph :
    (yaml : Decoded) (opts : List MatrixNaming) (g : PipelineGraph) (fqn : String)
    (target : Pointer)
    → build_graph yaml opts ≡ built g
    → lookup_node g fqn ≡ some target
    → IsNode g.root target
lookup_node-build_graph yaml opts g fqn target e found =
    let (named, instances) : NamesOwn g = subst BuiltOwn e (build_graph-BuiltOwn yaml opts) in
    subst (Given (IsNode g.root)) found (lookup_node_named (IsNode g.root) g named instances fqn)
