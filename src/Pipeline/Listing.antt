-- ===== src/Pipeline/Listing.antt =====
-- verifier/pipeline/graph.go: the views of a graph for display, `Tree` and `FQNs`.
use zero_trust_service.Common.{String, Option, none, some, List, [], map}
use zero_trust_service.Common.Texts.{sort_texts}
use zero_trust_service.Pipeline.Graph.{
  NodeKind, kind_pipeline, kind_stage, kind_step_group, kind_step, kind_parallel, kind_rollback,
  GraphNode, graph_node, Children, no_more, child_then,
}
use zero_trust_service.Pipeline.Lookup.{PipelineGraph}

pub record TreeLabel : Type 0 where
  pub kind : String
  pub id : String
  pub fqn : String
  pub type_name : String

-- `TreeNode`, with the fields that are no nodes in a record.
mutual
  pub data TreeNode : Type 0 where
    tree_node : TreeLabel → TreeNodes → TreeNode

  pub data TreeNodes : Type 0 where
    no_trees : TreeNodes
    tree_then : TreeNode → TreeNodes → TreeNodes

-- `nodeKind.String`.
unfoldable pub kind_name : NodeKind → String
kind_name kind_pipeline = "pipeline"
kind_name kind_stage = "stage"
kind_name kind_step_group = "stepGroup"
kind_name kind_step = "step"
kind_name kind_parallel = "parallel"
kind_name kind_rollback = "rollback"

-- `toTree`.
unfoldable mutual
  unfolding kind_name

  pub to_tree : GraphNode → TreeNode
  to_tree (graph_node i cs _) =
      tree_node
        (record { kind = kind_name i.kind; id = i.id; fqn = i.fqn; type_name = i.step_type })
        (to_trees cs)

  pub to_trees : Children → TreeNodes
  to_trees no_more = no_trees
  to_trees (child_then n cs) = tree_then (to_tree n) (to_trees cs)

-- `Tree`. A nil graph is `none`.
unfoldable pub tree : Option PipelineGraph → TreeNode
unfolding to_tree
tree none = tree_node (record { kind = ""; id = ""; fqn = ""; type_name = "" }) no_trees
tree (some g) = to_tree g.root

-- `FQNs`. A nil slice is the empty list.
unfoldable pub fqns : Option PipelineGraph → List String
unfolding sort_texts
fqns none = []
fqns (some g) = sort_texts (map (λ entry. entry.0) g.by_fqn)
