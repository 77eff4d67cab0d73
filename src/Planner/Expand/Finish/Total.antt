-- ===== src/Planner/Expand/Finish/Total.antt =====
-- `expand_graph` of pebs/planner/graph.py comes to an end where the registry can be ranked.
use pebs.Base.{
  ℕ, ◌<◌, ◌≢◌, sym, ◌∙◌, subst, List, Text, Distinct, err, Result-cases, inl, inr, arith,
}
use pebs.Planner.Contracts.{PlanNode, out_of_rounds}
use pebs.Planner.Order.{topological_order}
use pebs.Planner.Order.Steps.{ids}
use pebs.Planner.Order.Acyclic.{topological_order_total}
use pebs.Planner.Topology.{apply_gate_topology}
use pebs.Planner.Expand.{Goal, expand_loop, start_expansion}
use pebs.Planner.Expand.Ranked.{IsRanked, rounds_for}
use pebs.Planner.Expand.Ranked.Ends.{expand_loop-ends}
use pebs.Planner.Expand.Finish.{settle, expand_graph}
use pebs.Planner.Expand.Finish.Plan.{expand_loop-Distinct, ids-apply_gate_topology, ids-settled}

ordered-ends :
    (nodes : List PlanNode) → Distinct (ids nodes) → topological_order nodes ≢ err out_of_rounds
ordered-ends nodes d h = elim (topological_order_total nodes d) [
  | inl (ordered, e) ↦ ground arith
  | inr (x, e) ↦ ground arith
]

-- Where each artifact has a rank above the ranks of the at most `width` inputs of the skill that is
-- chosen for it, and more rounds are given than the terminals and the gates can cost, `expand_graph`
-- does not run out of rounds: it returns a plan or an error of the planner.
pub expand_graph-ends :
    (rounds : ℕ) (goal : Goal) (rank : Text → ℕ) (width : ℕ)
    → IsRanked goal rank width
    → rounds_for rank width (start_expansion goal.terminals) < rounds
    → expand_graph rounds goal ≢ err out_of_rounds
unfolding expand_graph
expand_graph-ends rounds goal rank width ranked enough h =
    elim (Result-cases (expand_loop rounds goal (start_expansion goal.terminals))) [
      | inr (e, failed) ↦
          expand_loop-ends goal rank width ranked rounds (start_expansion goal.terminals) enough
            (ground arith)
      | inl (x, looped) ↦
          let nodes = apply_gate_topology (settle x.nodes) goal.terminals in
          let d : Distinct (ids nodes) =
            subst Distinct
              (sym (ids-apply_gate_topology (settle x.nodes) goal.terminals ∙ ids-settled x.nodes))
              (expand_loop-Distinct rounds goal (start_expansion goal.terminals) x tt looped) in
          elim (Result-cases (topological_order nodes)) [
            | inl (ordered, e) ↦ absurd (ground arith)
            | inr (e, failed) ↦ ordered-ends nodes d (ground arith)
          ]
    ]
