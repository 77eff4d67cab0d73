-- ===== src/Planner/Topology/Obligations.antt =====
-- The order that `apply_gate_topology` of pebs/planner/graph.py imposes.
use pebs.Base.{
  true, false, not, ◌&&◌, ◌≡◌, sym, subst, List, [], ◌∷◌, Text, arith, Some, contains, select, each,
  inl, inr, Bool-cases,
}
use pebs.Gates.{GateContract, gate_contracts}
use pebs.Planner.Contracts.{PlanNode}
use pebs.Planner.Topology.{
  depend, evaluators, producers_of, order_declared, order_observed, order_evaluator, order_gate,
  apply_gate_topology,
}
use pebs.Planner.Topology.Grows.{
  bare, deps_of, Grows, Grows-refl, Grows-trans, depend-Grows, each-Grows, each-adds, Grows-member,
}

pub order_declared-Grows :
    (gate : GateContract) (evaluator : Text) (n : PlanNode) (nodes : List PlanNode)
    → Grows nodes (order_declared gate evaluator n nodes)
unfolding order_declared
order_declared-Grows gate evaluator n nodes =
    elim (Bool-cases (contains gate.gate_id n.gate_after)) [
      | inl after ↦ elim (Bool-cases (contains gate.gate_id n.gate_before)) [
        | inl before ↦ rw after (
            rw before (
              Grows-trans (depend-Grows evaluator n.node_id nodes)
                (depend-Grows n.node_id evaluator (depend evaluator n.node_id nodes))))
        | inr free ↦ rw after (rw free (depend-Grows evaluator n.node_id nodes))
      ]
      | inr free_after ↦ elim (Bool-cases (contains gate.gate_id n.gate_before)) [
        | inl before ↦ rw free_after (rw before (depend-Grows n.node_id evaluator nodes))
        | inr free ↦ rw free_after (rw free (Grows-refl nodes))
      ]
    ]

pub order_observed-Grows :
    (planned : List PlanNode) (gate : GateContract) (evaluator observed : Text)
    (nodes : List PlanNode)
    → Grows nodes (order_observed planned gate evaluator observed nodes)
unfolding order_observed
order_observed-Grows planned gate evaluator observed nodes =
    elim (Bool-cases (contains observed gate.produced_and_evaluated_in_same_step)) [
      | inl same_step ↦ rw same_step (Grows-refl nodes)
      | inr apart ↦ rw apart (
          each-Grows (depend evaluator) (λ p ns. depend-Grows evaluator p ns)
            (producers_of observed planned) nodes)
    ]

order_evaluator-Grows :
    (planned : List PlanNode) (gate : GateContract) (e : PlanNode) (nodes : List PlanNode)
    → Grows nodes (order_evaluator planned gate e nodes)
unfolding order_evaluator
order_evaluator-Grows planned gate e nodes =
    Grows-trans
      (each-Grows (order_declared gate e.node_id) (order_declared-Grows gate e.node_id) nodes nodes)
      (each-Grows (order_observed planned gate e.node_id)
        (order_observed-Grows planned gate e.node_id) gate.observed_artifacts_if_planned
        (each (order_declared gate e.node_id) nodes nodes))

order_gate-Grows :
    (planned : List PlanNode) (terminals : List Text) (gate : GateContract) (nodes : List PlanNode)
    → Grows nodes (order_gate planned terminals gate nodes)
unfolding order_gate
order_gate-Grows planned terminals gate nodes = elim (Bool-cases (contains gate.scope terminals)) [
  | inl applies ↦ rw applies (
      each-Grows (order_evaluator planned gate) (order_evaluator-Grows planned gate)
        (evaluators gate nodes) nodes)
  | inr idle ↦ rw idle (Grows-refl nodes)
]

-- The nodes stay as they are but for dependencies that are added.
pub apply_gate_topology-Grows :
    (nodes : List PlanNode) (terminals : List Text)
    → Grows nodes (apply_gate_topology nodes terminals)
unfolding apply_gate_topology
apply_gate_topology-Grows nodes terminals =
    each-Grows (order_gate nodes terminals) (order_gate-Grows nodes terminals) gate_contracts nodes

abbrev pub IsIn : PlanNode → List PlanNode → Type 0
IsIn n = Some (λ m. bare m ≡ bare n)

-- A node that runs the step of a gate that applies.
pub record IsEvaluator (terminals : List Text) (gate : GateContract) (e : PlanNode) : Type 0 where
  pub listed : Some (λ g. g ≡ gate) gate_contracts
  pub applies : contains gate.scope terminals ≡ true
  pub runs : contains gate.evaluator_step e.steps ≡ true
  pub executes : e.reused ≡ false

evaluators-member :
    (gate : GateContract) (e : PlanNode) (nodes : List PlanNode)
    → contains gate.evaluator_step e.steps ≡ true
    → e.reused ≡ false
    → IsIn e nodes
    → IsIn e (evaluators gate nodes)
unfolding evaluators select
evaluators-member gate e [] r x m = absurd m
evaluators-member gate e (n ∷ nodes) r x m =
    elim (Bool-cases (contains gate.evaluator_step n.steps && not n.reused)) [
      | inl taken ↦ rw taken (elim m [
        | inl here ↦ inl here
        | inr there ↦ inr (evaluators-member gate e nodes r x there)
      ])
      | inr left ↦ rw left (elim m [
        | inl here ↦ absurd (ground arith)
        | inr there ↦ evaluators-member gate e nodes r x there
      ])
    ]

-- What one evaluator's round adds is there in the end.
pub applied :
    (nodes : List PlanNode) (terminals : List Text) (gate : GateContract) (e : PlanNode)
    (t x : Text)
    → IsEvaluator terminals gate e
    → IsIn e nodes
    → ((a : PlanNode) (later : List PlanNode)
        → bare a ≡ bare e
        → Grows nodes later
        → contains x (deps_of t (order_evaluator nodes gate a later)) ≡ true)
    → contains x (deps_of t (apply_gate_topology nodes terminals)) ≡ true
unfolding apply_gate_topology order_gate
applied nodes terminals gate e t x h m adds =
    each-adds (order_gate nodes terminals) t x (λ g. g ≡ gate) (order_gate-Grows nodes terminals)
      gate_contracts nodes nodes (Grows-refl nodes) h.listed
      (λ g later same_gate grown.
        subst (λ g. contains x (deps_of t (order_gate nodes terminals g later)) ≡ true)
          (sym same_gate) (in_gate later grown))
  where
    in_gate :
        (later : List PlanNode)
        → Grows nodes later
        → contains x (deps_of t (order_gate nodes terminals gate later)) ≡ true
    in_gate later grown = rw h.applies (
        each-adds (order_evaluator nodes gate) t x (λ a. bare a ≡ bare e)
          (order_evaluator-Grows nodes gate) (evaluators gate later) nodes later grown
          (evaluators-member gate e later h.runs h.executes
            (Grows-member e nodes later grown.same_nodes m))
          adds)
