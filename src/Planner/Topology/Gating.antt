-- ===== src/Planner/Topology/Gating.antt =====
-- Where `apply_gate_topology` of pebs/planner/graph.py puts the evaluators of gates.
use pebs.Base.{
  true, false, ◌≡◌, ◌∙◌, ap, List, [], ◌∷◌, Text, same, arith, Some, contains, select, each, inl,
  inr, Bool-cases,
}
use pebs.Gates.{GateContract}
use pebs.Planner.Contracts.{PlanNode}
use pebs.Planner.Topology.{
  depend, is_filled, has_node, producers_of, order_declared, order_observed, order_evaluator,
  apply_gate_topology,
}
use pebs.Planner.Topology.Grows.{
  bare, deps_of, Grows, Grows-refl, Grows-trans, depend-Grows, each-Grows, each-adds, Grows-member,
  has_node-member, depend-adds,
}
use pebs.Planner.Topology.Obligations.{
  IsIn, IsEvaluator, applied, apply_gate_topology-Grows, order_declared-Grows, order_observed-Grows,
}

-- One node depends on the other, where they are two and the other has a name.
abbrev pub DependsOn : List PlanNode → PlanNode → PlanNode → Type 0
DependsOn nodes t x =
    is_filled x.node_id ≡ true
    → same x.node_id t.node_id ≡ false
    → contains x.node_id (deps_of t.node_id nodes) ≡ true

order_declared-bare :
    (gate : GateContract) (a e k n : PlanNode) (more : List PlanNode)
    → bare a ≡ bare e
    → bare k ≡ bare n
    → order_declared gate a.node_id k more ≡ order_declared gate e.node_id n more
unfolding order_declared
order_declared-bare gate a e k n more as_e as_n = ground arith

producers-member :
    (o : Text) (p : PlanNode) (nodes : List PlanNode)
    → IsIn p nodes
    → contains o p.outputs ≡ true
    → Some (λ id. id ≡ p.node_id) (producers_of o nodes)
unfolding producers_of select
producers-member o p [] m h = absurd m
producers-member o p (n ∷ nodes) m h = elim (Bool-cases (contains o n.outputs)) [
  | inl taken ↦ rw taken (elim m [
    | inl as_p ↦ inl (ground arith)
    | inr there ↦ inr (producers-member o p nodes there h)
  ])
  | inr left ↦
      rw left (elim m [
        | inl as_p ↦ absurd (ground arith)
        | inr there ↦ producers-member o p nodes there h
      ])
]

module _ (nodes : List PlanNode) (gate : GateContract) (e a : PlanNode) (later : List PlanNode)
    (as_e : bare a ≡ bare e) (grown : Grows nodes later) (here : IsIn e nodes) where
  declared_kept :
      (t x : Text)
      → contains x (deps_of t (each (order_declared gate a.node_id) later later)) ≡ true
      → contains x (deps_of t (order_evaluator nodes gate a later)) ≡ true
  unfolding order_evaluator
  declared_kept t x h =
      (each-Grows (order_observed nodes gate a.node_id) (order_observed-Grows nodes gate a.node_id)
          gate.observed_artifacts_if_planned
          (each (order_declared gate a.node_id) later later)).keeps
        t x h

  known :
      (n : PlanNode) (more : List PlanNode)
      → IsIn n nodes
      → Grows later more
      → has_node n.node_id more ≡ true
  known n more m g =
      has_node-member n more (Grows-member n nodes more (g.same_nodes ∙ grown.same_nodes) m)

  declared-after :
      (n : PlanNode)
      → IsIn n nodes
      → contains gate.gate_id n.gate_after ≡ true
      → is_filled n.node_id ≡ true
      → same n.node_id e.node_id ≡ false
      → contains n.node_id (deps_of e.node_id (order_evaluator nodes gate a later)) ≡ true
  unfolding order_declared
  declared-after n m declares f apart = declared_kept e.node_id n.node_id (
      each-adds (order_declared gate a.node_id) e.node_id n.node_id (λ k. bare k ≡ bare n)
        (order_declared-Grows gate a.node_id) later later later (Grows-refl later)
        (Grows-member n nodes later grown.same_nodes m)
        (λ k more as_n g.
          (let now =
              depend-adds e.node_id n.node_id more f apart (known n more m g)
                (known e more here g) in
            let kept =
              (depend-Grows n.node_id e.node_id (depend e.node_id n.node_id more)).keeps e.node_id
                n.node_id now in
            rw (order_declared-bare gate a e k n more as_e as_n) (ground arith))))

  declared-before :
      (n : PlanNode)
      → IsIn n nodes
      → contains gate.gate_id n.gate_before ≡ true
      → is_filled e.node_id ≡ true
      → same e.node_id n.node_id ≡ false
      → contains e.node_id (deps_of n.node_id (order_evaluator nodes gate a later)) ≡ true
  unfolding order_declared
  declared-before n m declares f apart = declared_kept n.node_id e.node_id (
      each-adds (order_declared gate a.node_id) n.node_id e.node_id (λ k. bare k ≡ bare n)
        (order_declared-Grows gate a.node_id) later later later (Grows-refl later)
        (Grows-member n nodes later grown.same_nodes m)
        (λ k more as_n g.
          (let now =
              depend-adds n.node_id e.node_id more f apart (known e more here g)
                (known n more m g) in
            let g' = Grows-trans g (depend-Grows e.node_id n.node_id more) in
            let now' =
              depend-adds n.node_id e.node_id (depend e.node_id n.node_id more) f apart
                (known e _ here g') (known n _ m g') in
            rw (order_declared-bare gate a e k n more as_e as_n) (ground arith))))

  observed-after :
      (o : Text) (p : PlanNode)
      → Some (λ q. q ≡ o) gate.observed_artifacts_if_planned
      → contains o gate.produced_and_evaluated_in_same_step ≡ false
      → IsIn p nodes
      → contains o p.outputs ≡ true
      → is_filled p.node_id ≡ true
      → same p.node_id e.node_id ≡ false
      → contains p.node_id (deps_of e.node_id (order_evaluator nodes gate a later)) ≡ true
  unfolding order_evaluator order_observed
  observed-after o p watches apart m makes f differ =
      let as_id : a.node_id ≡ e.node_id = ap (λ n. n.node_id) as_e in
      let inner = each (order_declared gate a.node_id) later later in
      let first_grown =
        each-Grows (order_declared gate a.node_id) (order_declared-Grows gate a.node_id) later
          later in
      each-adds (order_observed nodes gate a.node_id) e.node_id p.node_id (λ q. q ≡ o)
        (order_observed-Grows nodes gate a.node_id) gate.observed_artifacts_if_planned later inner
        first_grown watches
        (λ q more is_o g.
          (rw is_o (
            rw apart (
              each-adds (depend a.node_id) e.node_id p.node_id (λ id. id ≡ p.node_id)
                (depend-Grows a.node_id) (producers_of o nodes) later more g
                (producers-member o p nodes m makes)
                (λ id most is_p g'.
                  (rw is_p (
                    rw as_id (
                      depend-adds e.node_id p.node_id most f differ (known p most m g')
                        (known e most here g')))))))))

-- The order around one evaluator: it depends on each node that declares its gate behind itself and on
-- each planned producer of what the gate observes, save what its own step produces; and each node
-- that declares the gate before itself depends on it. No node depends on itself or on an empty name
-- that did not before.
pub record IsGated (planned nodes : List PlanNode) (gate : GateContract) (e : PlanNode)
    : Type 0 where
  pub after :
      (n : PlanNode)
      → IsIn n planned
      → contains gate.gate_id n.gate_after ≡ true
      → DependsOn nodes e n
  pub before :
      (n : PlanNode)
      → IsIn n planned
      → contains gate.gate_id n.gate_before ≡ true
      → DependsOn nodes n e
  pub observes :
      (o : Text) (p : PlanNode)
      → Some (λ q. q ≡ o) gate.observed_artifacts_if_planned
      → contains o gate.produced_and_evaluated_in_same_step ≡ false
      → IsIn p planned
      → contains o p.outputs ≡ true
      → DependsOn nodes e p
  pub alone : (t : Text) → contains t (deps_of t nodes) ≡ contains t (deps_of t planned)
  pub named : (t : Text) → contains [] (deps_of t nodes) ≡ contains [] (deps_of t planned)

-- For each node of the plan that is not reused and runs the step of a gate whose scope is a terminal
-- output, the gate's order holds in the end: the node depends on those that declare the gate after
-- themselves and on the planned producers of what it observes, and those that declare it before
-- themselves depend on the node, each where the two are distinct and the one depended on has a name
-- that is not empty. No node depends on itself, or on an empty name, that did not do so in the plan.
pub apply_gate_topology-IsGated :
    (nodes : List PlanNode) (terminals : List Text) (gate : GateContract) (e : PlanNode)
    → IsEvaluator terminals gate e
    → IsIn e nodes
    → IsGated nodes (apply_gate_topology nodes terminals) gate e
apply_gate_topology-IsGated nodes terminals gate e h here = record {
  after = λ n m declares f apart.
      applied nodes terminals gate e e.node_id n.node_id h here (λ a later as_e grown.
        declared-after nodes gate e a later as_e grown here n m declares f apart);
  before = λ n m declares f apart.
      applied nodes terminals gate e n.node_id e.node_id h here (λ a later as_e grown.
        declared-before nodes gate e a later as_e grown here n m declares f apart);
  observes = λ o p watches outside m makes f apart.
      applied nodes terminals gate e e.node_id p.node_id h here (λ a later as_e grown.
        observed-after nodes gate e a later as_e grown here o p watches outside m makes f apart);
  alone = (apply_gate_topology-Grows nodes terminals).alone;
  named = (apply_gate_topology-Grows nodes terminals).named;
}
