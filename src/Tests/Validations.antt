-- ===== src/Tests/Validations.antt =====
-- A node that declares a precondition on the evidence index, which is reused.
use native.Mathlib.Decide.{ℕ_discrete}
use pebs.Base.{
  ◌≡◌, ◌↔◌, refl, false, some, [], ◌∷◌, codes, text_dec, any, contains, select, Some, inl,
}
use pebs.Evidence.Whitespace.{strip, lstrip, is_space}
use pebs.Gates.{GateContract, script_gate, gate_contracts}
use pebs.Planner.Contracts.{PlanNode, Precondition}
use pebs.Planner.Validation.{
  unreachable_input, is_unresolved, is_reachable, input_errors, all_input_errors,
  precondition_errors, contract_of, evaluator_nodes, gate_applicable,
}
use pebs.Planner.Topology.{evaluators}
use pebs.Planner.Validation.Evaluators.{evaluator_nodes-evaluators}
use pebs.Planner.Validation.Declared.{IsServed, precondition_errors_iff}

program : Unit {0}
unfolding text_dec ℕ_discrete any contains select strip lstrip is_space gate_contracts is_unresolved
    is_reachable input_errors all_input_errors precondition_errors contract_of evaluator_nodes
program = tt

abbrev declared : Precondition
declared = record {
  kind = codes "supported_claims";
  inputs = codes "evidence_index" ∷ [];
  usage_scope = some (codes "case" ∷ []);
}

abbrev author : PlanNode
author = record {
  node_id = codes "pck";
  title = codes "pck";
  skill = codes "pck";
  steps = codes "gates" ∷ [];
  inputs = codes "evidence_index" ∷ [];
  outputs = [];
  depends_on = [];
  optional = false;
  parallel_group = 0;
  gate_before = [];
  gate_after = [];
  preconditions = declared ∷ [];
  reason = [];
  reused = false;
  degraded = false;
}

served : precondition_errors (author ∷ []) (codes "evidence_index" ∷ []) author declared ≡ []
unfolding program
served = refl

unreachable :
    precondition_errors (author ∷ []) [] author declared
    ≡ unreachable_input (codes "evidence_index") ∷ []
unfolding program
unreachable = refl

evaluated : evaluator_nodes (author ∷ []) (codes "G7") ≡ author ∷ []
unfolding program
evaluated = refl

precondition_errors_iff_example :
    (precondition_errors (author ∷ []) (codes "evidence_index" ∷ []) author declared ≡ [])
    ↔ IsServed (author ∷ []) (codes "evidence_index" ∷ []) author declared
precondition_errors_iff_example =
    precondition_errors_iff (author ∷ []) (codes "evidence_index" ∷ []) author declared

abbrev first_gate : GateContract
first_gate =
    script_gate (codes "G1")
      (codes "requirements" ∷ codes "lesson_plan" ∷ codes "worksheet" ∷ codes "assessment" ∷ [])

first_gate-listed : Some (λ k. k ≡ first_gate) gate_contracts
unfolding program
first_gate-listed = inl refl

evaluator_nodes-evaluators_example :
    (evaluator_nodes (author ∷ []) (codes "G1") ≡ evaluators first_gate (author ∷ []))
    × (gate_applicable (codes "G1") (codes "script" ∷ [])
        ≡ contains (codes "script") (codes "script" ∷ []))
evaluator_nodes-evaluators_example =
    evaluator_nodes-evaluators first_gate (author ∷ []) (codes "script" ∷ []) first_gate-listed
