-- ===== src/Planner/Topology.antt =====
-- `apply_gate_topology` of pebs/planner/graph.py. The nodes are the values of the dict, in its
-- order; each stands at its own identifier. `each` is a loop that changes the nodes.
pub mod Grows
pub mod Obligations
pub mod Gating
use pebs.Base.{
  Bool, true, false, not, ◌&&◌, List, [], ◌∷◌, Text, same, if◌then◌else◌, select, map, contains,
  union, sorted, each, amend, any,
}
use pebs.Gates.{GateContract, gate_contracts}
use pebs.Planner.Contracts.{PlanNode}

abbrev pub has_node : Text → List PlanNode → Bool
has_node id nodes = any (λ n. same n.node_id id) nodes

abbrev pub is_filled : Text → Bool
is_filled [] = false
is_filled (c ∷ cs) = true

-- `target.depends_on = sorted(set(target.depends_on) | {source_id})`
unfoldable pub add_dependency : Text → PlanNode → PlanNode
add_dependency source_id n = record n { depends_on = sorted (union n.depends_on (source_id ∷ [])) }

-- `depend(target, source_id)`
unfoldable pub depend : Text → Text → List PlanNode → List PlanNode
depend target source_id nodes =
    if is_filled source_id && not (same source_id target) && has_node source_id nodes
    then amend (λ n. n.node_id) target (add_dependency source_id) nodes
    else nodes

-- `evaluators(gate_id)`
unfoldable pub evaluators : GateContract → List PlanNode → List PlanNode
evaluators gate nodes = select (λ n. contains gate.evaluator_step n.steps && not n.reused) nodes

-- `producers.get(observed, [])`. A node that repeats the output is listed again there, to no effect.
unfoldable pub producers_of : Text → List PlanNode → List Text
producers_of artifact nodes = map (λ n. n.node_id) (select (λ n. contains artifact n.outputs) nodes)

-- What one node declares about the gate.
unfoldable pub order_declared : GateContract → Text → PlanNode → List PlanNode → List PlanNode
order_declared gate evaluator n nodes =
    let after =
      if contains gate.gate_id n.gate_after then depend evaluator n.node_id nodes else nodes in
    if contains gate.gate_id n.gate_before then depend n.node_id evaluator after else after

-- What the gate observes, from the producers that the plan had at first.
unfoldable pub order_observed :
    List PlanNode → GateContract → Text → Text → List PlanNode → List PlanNode
order_observed planned gate evaluator observed nodes =
    if contains observed gate.produced_and_evaluated_in_same_step
    then nodes
    else each (depend evaluator) (producers_of observed planned) nodes

unfoldable pub order_evaluator :
    List PlanNode → GateContract → PlanNode → List PlanNode → List PlanNode
order_evaluator planned gate evaluator nodes =
    each (order_observed planned gate evaluator.node_id) gate.observed_artifacts_if_planned
      (each (order_declared gate evaluator.node_id) nodes nodes)

unfoldable pub order_gate : List PlanNode → List Text → GateContract → List PlanNode → List PlanNode
order_gate planned terminals gate nodes =
    if contains gate.scope terminals
    then each (order_evaluator planned gate) (evaluators gate nodes) nodes
    else nodes

unfoldable pub apply_gate_topology : List PlanNode → List Text → List PlanNode
apply_gate_topology nodes terminals = each (order_gate nodes terminals) gate_contracts nodes
