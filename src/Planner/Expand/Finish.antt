-- ===== src/Planner/Expand/Finish.antt =====
-- The second half of `expand_graph` of pebs/planner/graph.py: dependencies, gates, order and groups.
-- `levels[node.node_id]` finds each node of the order, so the default of `level_of` is not met.
pub mod Plan
pub mod Total
pub mod Scheduled
use pebs.Base.{
  ℕ, Bool, true, false, not, ◌&&◌, ◌||◌, Option, none, some, List, [], ◌∷◌, ◌++◌, Text, same,
  if◌then◌else◌, select, any, all, map, contains, union, sorted, each, amend, Result, ok, err,
}
use pebs.Planner.Contracts.{PlanNode, PlanEdge, PlannerError}
use pebs.Planner.Order.{and_then, topological_order}
use pebs.Planner.Levels.{parallel_levels, level_of}
use pebs.Planner.Topology.{apply_gate_topology, has_node}
use pebs.Planner.Expand.{Goal, Expansion, node_for, expand_loop, start_expansion}

-- `produced.get(artifact)`: the last node in the order of the dict that produces it.
unfoldable pub last_producer : Text → List PlanNode → Option Text
last_producer artifact [] = none
last_producer artifact (n ∷ nodes) = elim (last_producer artifact nodes) [
  | some id ↦ some id
  | none ↦ if contains artifact n.outputs then some n.node_id else none
]

unfoldable pub producers_for : List PlanNode → Text → List Text → List Text
producers_for nodes node_id [] = []
producers_for nodes node_id (input ∷ inputs) =
    let rest = producers_for nodes node_id inputs in
    elim (last_producer input nodes) [
      | some (c ∷ cs) ↦ if same (c ∷ cs) node_id then rest else (c ∷ cs) ∷ rest
      | _ ↦ rest
    ]

-- `sorted(set(deps))`
unfoldable pub planned_deps : List PlanNode → PlanNode → List Text
planned_deps nodes n = sorted (union (producers_for nodes n.node_id n.inputs) [])

abbrev pub is_optional : List PlanNode → Text → Bool
is_optional nodes id = elim (node_for id nodes) [ none ↦ false | some n ↦ n.optional ]

abbrev pub settled : List Text → List PlanNode → PlanNode → PlanNode
settled [] nodes n = record n { depends_on = [] }
settled (d ∷ ds) nodes n = record n {
  depends_on = d ∷ ds;
  optional = n.optional && all (is_optional nodes) (d ∷ ds);
}

-- One round of the loop over the nodes, which sees the rounds before it.
unfoldable pub settle_node : List PlanNode → PlanNode → List PlanNode → List PlanNode
settle_node planned n nodes =
    amend (λ m. m.node_id) n.node_id (settled (planned_deps planned n) nodes) nodes

unfoldable pub settle : List PlanNode → List PlanNode
settle nodes = each (settle_node nodes) nodes nodes

-- `node.parallel_group = levels[node.node_id]`
abbrev pub in_group : List (Text × ℕ) → PlanNode → PlanNode
in_group levels n = record n { parallel_group = level_of n.node_id levels }

unfoldable pub set_groups : List PlanNode → List PlanNode
set_groups ordered = map (in_group (parallel_levels ordered)) ordered

unfoldable pub expand_graph :
    ℕ → Goal → Result PlannerError (List PlanNode × List PlanEdge × List Text)
expand_graph rounds goal = and_then (expand_loop rounds goal (start_expansion goal.terminals)) (λ x.
    (and_then (topological_order (apply_gate_topology (settle x.nodes) goal.terminals)) (λ ordered.
      (ok (set_groups ordered, select (λ e. has_node e.to_node x.nodes) x.edges, sorted x.reuse)))))
