-- ===== src/Planner/Validation/Evaluators.antt =====
-- pebs/planner/validation.py and `apply_gate_topology` of pebs/planner/graph.py take the same nodes for
-- the evaluators of a gate, and the same gates for applicable.
use native.Mathlib.Decide.{ℕ_discrete}
use pebs.Base.{◌≡◌, refl, some, List, Text, text_dec, All, All-member, Some, contains, arith}
use pebs.Gates.{GateContract, gate_contracts}
use pebs.Planner.Contracts.{PlanNode}
use pebs.Planner.Topology.{evaluators}
use pebs.Planner.Validation.{contract_of, gate_applicable, evaluator_nodes}

listed_contracts : All (λ g. contract_of g.gate_id gate_contracts ≡ some g) gate_contracts
unfolding contract_of gate_contracts text_dec ℕ_discrete
listed_contracts = (refl, (refl, (refl, (refl, (refl, (refl, (refl, (refl, tt))))))))

-- For each gate of the contracts, the validation's evaluator nodes are those that the gate topology
-- orders, and it applies exactly when its scope is a terminal output.
pub evaluator_nodes-evaluators :
    (g : GateContract) (nodes : List PlanNode) (terminals : List Text)
    → Some (λ k. k ≡ g) gate_contracts
    → (evaluator_nodes nodes g.gate_id ≡ evaluators g nodes)
      × (gate_applicable g.gate_id terminals ≡ contains g.scope terminals)
unfolding evaluator_nodes evaluators gate_applicable
evaluator_nodes-evaluators g nodes terminals m =
    let row =
      All-member (λ k. contract_of k.gate_id gate_contracts ≡ some k) gate_contracts g
        listed_contracts m in
    (ground (arith, row), ground (arith, row))
