-- ===== src/Planner/Expand/Finish/Scheduled.antt =====
-- In the plan that `expand_graph` of pebs/planner/graph.py returns, gates are evaluated at their time.
use pebs.Base.{
  All-member, ℕ, ◌<◌, true, false, ◌≡◌, refl, sym, ◌∙◌, subst, some, List, [], ◌∷◌, Text, same,
  arith, map, contains, Distinct, All, Some, row_for, ok, inl, inr, Option-cases,
}
use pebs.Gates.{GateContract}
use pebs.Planner.Contracts.{PlanNode, PlanEdge}
use pebs.Planner.Order.{by_id, topological_order}
use pebs.Planner.Order.Steps.{ids}
use pebs.Planner.Order.Sound.{IsOrderOf, topological_order-IsOrderOf, by_id-known}
use pebs.Planner.Levels.{parallel_levels}
use pebs.Planner.Levels.Behind.{Above, parallel_levels-Above}
use pebs.Planner.Topology.{apply_gate_topology, is_filled}
use pebs.Planner.Topology.Grows.{bare, deps_of, Grows-member}
use pebs.Planner.Topology.Obligations.{IsIn, IsEvaluator, apply_gate_topology-Grows}
use pebs.Planner.Topology.Gating.{IsGated, apply_gate_topology-IsGated}
use pebs.Planner.Expand.{Goal, node_for, expand_loop, start_expansion}
use pebs.Planner.Expand.Finish.{settle, in_group, set_groups, expand_graph}
use pebs.Planner.Expand.Finish.Plan.{
  and_then-ok, expand_loop-Distinct, ids-apply_gate_topology, ids-settled,
}

by_id-member :
    (id : Text) (nodes : List PlanNode) (n : PlanNode) → by_id id nodes ≡ some n → IsIn n nodes
unfolding by_id
by_id-member id [] n h = absurd (ground arith)
by_id-member id (x ∷ nodes) n h = elim (Option-cases (by_id id nodes)) [
  | inl missing ↦ inl (ground arith)
  | inr (m, later) ↦ inr (by_id-member id nodes n (ground arith))
]

node_for-by_id :
    (id : Text) (nodes : List PlanNode) → Distinct (ids nodes) → node_for id nodes ≡ by_id id nodes
unfolding by_id row_for
node_for-by_id id [] d = refl
node_for-by_id id (x ∷ nodes) d =
    ground (arith, node_for-by_id id nodes d.1, by_id-known id nodes, d.0)

map-member :
    {A B : Type 0} (f : A → B) (xs : List A) (b : B)
    → Some (λ y. y ≡ b) (map f xs)
    → (a : A) × Some (λ y. y ≡ a) xs × (f a ≡ b)
map-member f [] b m = absurd m
map-member f (x ∷ xs) b (inl e) = (x, inl refl, e)
map-member f (x ∷ xs) b (inr m) = let (a, there, e) = map-member f xs b m in (a, inr there, e)

ids-member :
    (xs : List PlanNode) (n : PlanNode) → Some (λ y. y ≡ n) xs → contains n.node_id (ids xs) ≡ true
unfolding contains
ids-member [] n m = absurd m
ids-member (x ∷ xs) n (inl e) = ground arith
ids-member (x ∷ xs) n (inr m) = ground (arith, ids-member xs n m)

IsEvaluator-in_group :
    (terminals : List Text) (gate : GateContract) (levels : List (Text × ℕ)) (n : PlanNode)
    → IsEvaluator terminals gate (in_group levels n)
    → IsEvaluator terminals gate n
IsEvaluator-in_group terminals gate levels n h = record {
  listed = h.listed;
  applies = h.applies;
  runs = h.runs;
  executes = h.executes;
}

-- One node is in a group before another's, where they are two and the first has a name.
abbrev pub IsBefore : PlanNode → PlanNode → Type 0
IsBefore p e =
    is_filled p.node_id ≡ true
    → same p.node_id e.node_id ≡ false
    → p.parallel_group < e.parallel_group

-- The time of an evaluator in a plan.
pub record IsScheduled (plan : List PlanNode) (gate : GateContract) (e : PlanNode) : Type 0 where
  pub after :
      (n : PlanNode)
      → Some (λ m. m ≡ n) plan
      → contains gate.gate_id n.gate_after ≡ true
      → IsBefore n e
  pub before :
      (n : PlanNode)
      → Some (λ m. m ≡ n) plan
      → contains gate.gate_id n.gate_before ≡ true
      → IsBefore e n
  pub observes :
      (o : Text) (p : PlanNode)
      → Some (λ q. q ≡ o) gate.observed_artifacts_if_planned
      → contains o gate.produced_and_evaluated_in_same_step ≡ false
      → Some (λ m. m ≡ p) plan
      → contains o p.outputs ≡ true
      → IsBefore p e

module _ (planned gated ordered : List PlanNode) (d : Distinct (ids gated))
    (order : IsOrderOf gated ordered) (same_nodes : map bare gated ≡ map bare planned)
    (above : All (Above gated (parallel_levels ordered)) ordered) where
  -- A node of the order stands in the plan as it was first, but for its dependencies.
  original : (n : PlanNode) → Some (λ m. m ≡ n) ordered → IsIn n planned
  original n m = Grows-member n gated planned (sym same_nodes) (
      by_id-member n.node_id gated n
        (All-member (λ k. by_id k.node_id gated ≡ some k) ordered n order.ours m))

  -- What depends is later.
  depends-later :
      (e p : PlanNode)
      → Some (λ m. m ≡ e) ordered
      → Some (λ m. m ≡ p) ordered
      → contains p.node_id (deps_of e.node_id gated) ≡ true
      → (in_group (parallel_levels ordered) p).parallel_group
        < (in_group (parallel_levels ordered) e).parallel_group
  depends-later e p at_e at_p h =
      let own : by_id e.node_id gated ≡ some e =
        All-member (λ k. by_id k.node_id gated ≡ some k) ordered e order.ours at_e in
      let found : node_for e.node_id gated ≡ some e = node_for-by_id e.node_id gated d ∙ own in
      let depends : contains p.node_id e.depends_on ≡ true = ground arith in
      All-member (Above gated (parallel_levels ordered)) ordered e above at_e p.node_id depends
        (by_id-known p.node_id gated ∙ sym (order.complete p.node_id) ∙ ids-member ordered p at_p)

  scheduled :
      (gate : GateContract) (e : PlanNode)
      → IsGated planned gated gate e
      → Some (λ m. m ≡ e) ordered
      → IsScheduled (set_groups ordered) gate (in_group (parallel_levels ordered) e)
  unfolding set_groups
  scheduled gate e gated_e at_e =
      let levels = parallel_levels ordered in
      record {
        after = λ n m declares f apart.
            (let (n0, at_n, as_n) = map-member (in_group levels) ordered n m in
              subst (λ k. k.parallel_group < (in_group levels e).parallel_group) as_n
                (depends-later e n0 at_e at_n (
                  gated_e.after n0 (original n0 at_n) (ground arith) (ground arith)
                    (ground arith))));
        before = λ n m declares f apart.
            (let (n0, at_n, as_n) = map-member (in_group levels) ordered n m in
              subst (λ k. (in_group levels e).parallel_group < k.parallel_group) as_n
                (depends-later n0 e at_n at_e (
                  gated_e.before n0 (original n0 at_n) (ground arith) (ground arith)
                    (ground arith))));
        observes = λ o n watches outside m makes f apart.
            (let (n0, at_n, as_n) = map-member (in_group levels) ordered n m in
              subst (λ k. k.parallel_group < (in_group levels e).parallel_group) as_n
                (depends-later e n0 at_e at_n (
                  gated_e.observes o n0 watches outside (original n0 at_n) (ground arith)
                    (ground arith) (ground arith))));
      }

-- In the plan that `expand_graph` returns, take a node that is not reused and runs the step of a gate
-- whose scope is a terminal output. It is in a later group than each node that declares the gate
-- behind itself and each one that produces what the gate observes (save what the step itself
-- produces), and in an earlier group than each node that declares the gate before itself. This is
-- so of any two nodes with different identifiers, the first of them not empty.
pub expand_graph-IsScheduled :
    (rounds : ℕ) (goal : Goal) (plan : List PlanNode) (edges : List PlanEdge) (reuse : List Text)
    (gate : GateContract) (e : PlanNode)
    → expand_graph rounds goal ≡ ok (plan, edges, reuse)
    → IsEvaluator goal.terminals gate e
    → Some (λ m. m ≡ e) plan
    → IsScheduled plan gate e
unfolding expand_graph set_groups
expand_graph-IsScheduled rounds goal plan edges reuse gate e h evaluates at_e =
    let (x, looped, rest) =
      and_then-ok (expand_loop rounds goal (start_expansion goal.terminals)) _ (plan, edges, reuse)
        h in
    let planned = settle x.nodes in
    let gated = apply_gate_topology planned goal.terminals in
    let (ordered, in_order, ends) =
      and_then-ok (topological_order gated) _ (plan, edges, reuse) rest in
    let same_ids : ids gated ≡ ids x.nodes =
      ids-apply_gate_topology planned goal.terminals ∙ ids-settled x.nodes in
    let d : Distinct (ids gated) =
      subst Distinct (sym same_ids)
        (expand_loop-Distinct rounds goal (start_expansion goal.terminals) x tt looped) in
    let order = topological_order-IsOrderOf gated ordered d in_order in
    let above = parallel_levels-Above gated ordered d in_order in
    let same_nodes = (apply_gate_topology-Grows planned goal.terminals).same_nodes in
    let returned : plan ≡ set_groups ordered = ground arith in
    let (e0, at_e0, as_e) =
      map-member (in_group (parallel_levels ordered)) ordered e
        (subst (λ p. Some (λ m. m ≡ e) p) returned at_e) in
    let evaluates0 : IsEvaluator goal.terminals gate e0 =
      IsEvaluator-in_group goal.terminals gate (parallel_levels ordered) e0
        (subst (IsEvaluator goal.terminals gate) (sym as_e) evaluates) in
    subst (λ p. IsScheduled p gate e) (sym returned)
      (subst (IsScheduled (set_groups ordered) gate) as_e (
        scheduled planned gated ordered d order same_nodes above gate e0
          (apply_gate_topology-IsGated planned goal.terminals gate e0 evaluates0
            (original planned gated ordered d order same_nodes above e0 at_e0))
          at_e0))
