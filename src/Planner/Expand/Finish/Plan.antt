-- ===== src/Planner/Expand/Finish/Plan.antt =====
-- The plan that `expand_graph` of pebs/planner/graph.py returns can be run group by group.
use pebs.Base.{
  ℕ, zero, suc, ◌<◌, true, false, ◌≡◌, refl, sym, ◌∙◌, ap, subst, none, some, List, [], ◌∷◌, ◌++◌,
  Text, arith, map, contains, Distinct, Distinct-snoc, map-snoc, All, each, amend, row_for, Result,
  ok, err, Option-cases, Bool-cases, inl, inr,
}
use pebs.Planner.Contracts.{PlanNode, PlanEdge, PlannerError}
use pebs.Planner.Order.{and_then, topological_order}
use pebs.Planner.Order.Steps.{ids, is_known}
use pebs.Planner.Order.Sound.{IsOrderOf, topological_order-IsOrderOf, by_id-known}
use pebs.Planner.Levels.{parallel_levels, level_of}
use pebs.Planner.Levels.Behind.{Above, parallel_levels-Above}
use pebs.Planner.Topology.{apply_gate_topology}
use pebs.Planner.Topology.Grows.{bare}
use pebs.Planner.Topology.Obligations.{apply_gate_topology-Grows}
use pebs.Planner.Expand.{
  Goal, Wanted, Chosen, Expansion, node_for, add_node, enqueue_gates, reuse_existing, produce,
  expand_one, expand_loop, start_expansion, reused_node, produced_node,
}
use pebs.Planner.Expand.Finish.{
  settled, settle_node, settle, planned_deps, in_group, set_groups, expand_graph,
}

ids-amend :
    (id : Text) (f : PlanNode → PlanNode) (nodes : List PlanNode)
    → ((n : PlanNode) → (f n).node_id ≡ n.node_id)
    → ids (amend (λ n. n.node_id) id f nodes) ≡ ids nodes
unfolding amend
ids-amend id f [] keeps = refl
ids-amend id f (n ∷ nodes) keeps = ground (arith, ids-amend id f nodes keeps, keeps n)

node_for-contains :
    (id : Text) (nodes : List PlanNode) → node_for id nodes ≡ none → contains id (ids nodes) ≡ false
unfolding row_for contains
node_for-contains id [] h = refl
node_for-contains id (n ∷ nodes) h = ground (arith, node_for-contains id nodes)

add_node-Distinct :
    (n : PlanNode) (nodes : List PlanNode)
    → Distinct (ids nodes)
    → Distinct (ids (add_node n nodes))
unfolding add_node
add_node-Distinct n nodes d = elim (Option-cases (node_for n.node_id nodes)) [
  | inl fresh ↦
      let added : ids (add_node n nodes) ≡ ids nodes ++ n.node_id ∷ [] =
        ground (arith, map-snoc (λ m. m.node_id) n nodes) in
      subst Distinct (sym added)
        (Distinct-snoc n.node_id (ids nodes) d (node_for-contains n.node_id nodes fresh))
  | inr (old, there) ↦
      let left : add_node n nodes ≡ nodes = ground arith in
      subst (λ xs. Distinct (ids xs)) (sym left) d
]

produce-Distinct :
    (goal : Goal) (w : Wanted) (c : Chosen) (x y : Expansion)
    → Distinct (ids x.nodes)
    → produce goal w c x ≡ ok y
    → Distinct (ids y.nodes)
unfolding produce
produce-Distinct goal w c x y d h =
    let nodes = add_node (produced_node goal.titles w.artifact c) x.nodes in
    let grown : Distinct (ids nodes) =
      add_node-Distinct (produced_node goal.titles w.artifact c) x.nodes d in
    elim (Bool-cases w.optional_chain) [
      | inl optional ↦
          let kept : y.nodes ≡ nodes = ground arith in
          subst (λ xs. Distinct (ids xs)) (sym kept) grown
      | inr needed ↦
          let changed : y.nodes
              ≡ amend (λ n. n.node_id) c.name (λ n. record n { optional = false }) nodes =
            ground arith in
          subst Distinct
            (sym (
              ap ids changed
              ∙ ids-amend c.name (λ n. record n { optional = false }) nodes (λ n. refl)))
            grown
    ]

reuse_existing-Distinct :
    (goal : Goal) (w : Wanted) (x : Expansion)
    → Distinct (ids x.nodes)
    → Distinct (ids (reuse_existing goal w x).nodes)
unfolding reuse_existing
reuse_existing-Distinct goal w x d = elim (Option-cases (goal.choose w.artifact)) [
  | inl unmade ↦
      let kept : (reuse_existing goal w x).nodes ≡ x.nodes = ground arith in
      subst (λ xs. Distinct (ids xs)) (sym kept) d
  | inr (c, made) ↦
      let added : (reuse_existing goal w x).nodes
          ≡ add_node (reused_node goal.titles w.artifact c) x.nodes =
        ground arith in
      subst (λ xs. Distinct (ids xs)) (sym added)
        (add_node-Distinct (reused_node goal.titles w.artifact c) x.nodes d)
]

expand_one-Distinct :
    (goal : Goal) (w : Wanted) (x y : Expansion)
    → Distinct (ids x.nodes)
    → expand_one goal w x ≡ ok y
    → Distinct (ids y.nodes)
unfolding expand_one
expand_one-Distinct goal w x y d h =
    elim (Bool-cases (contains w.artifact goal.exclude_artifacts)) [
      | inl excluded ↦
          let kept : y ≡ x = ground arith in subst (λ z. Distinct (ids z.nodes)) (sym kept) d
      | inr wanted ↦ elim (Bool-cases (contains w.artifact goal.existing_satisfied)) [
        | inl exists_already ↦
            let reused : y ≡ reuse_existing goal w x = ground arith in
            subst (λ z. Distinct (ids z.nodes)) (sym reused) (reuse_existing-Distinct goal w x d)
        | inr missing ↦ elim (Option-cases (goal.choose w.artifact)) [
          | inl unmade ↦ absurd (ground arith)
          | inr (c, made) ↦ produce-Distinct goal w c x y d (ground arith)
        ]
      ]
    ]

enqueue_gates-nodes : (x : Expansion) → (enqueue_gates x).nodes ≡ x.nodes
unfolding enqueue_gates
enqueue_gates-nodes x = ground arith

pub and_then-ok :
    {A B : Type 0} (r : Result PlannerError A) (f : A → Result PlannerError B) (b : B)
    → and_then r f ≡ ok b
    → (a : A) × (r ≡ ok a) × (f a ≡ ok b)
and_then-ok (ok a) f b h = (a, refl, h)
and_then-ok (err e) f b h = absurd (ground arith)

pub expand_loop-Distinct :
    (rounds : ℕ) (goal : Goal) (x y : Expansion)
    → Distinct (ids x.nodes)
    → expand_loop rounds goal x ≡ ok y
    → Distinct (ids y.nodes)
unfolding expand_loop
expand_loop-Distinct zero goal x y d h = absurd (ground arith)
expand_loop-Distinct (suc rounds) goal x y d h =
    let next = enqueue_gates x in
    let d' : Distinct (ids next.nodes) =
      subst (λ xs. Distinct (ids xs)) (sym (enqueue_gates-nodes x)) d in
    elim x.queue as (λ q. x.queue ≡ q → Distinct (ids y.nodes)) [
      | [] ↦ λ empty.
          (let stays : y ≡ x = ground arith in subst (λ z. Distinct (ids z.nodes)) (sym stays) d)
      | a ∷ q ↦ λ some_queue.
          elim next.queue as (λ r. next.queue ≡ r → Distinct (ids y.nodes)) [
            | [] ↦ λ empty.
                (let stays : y ≡ x = ground arith in
                  subst (λ z. Distinct (ids z.nodes)) (sym stays) d)
            | w ∷ rest ↦ λ first.
                let (z, one, later) =
                  and_then-ok (expand_one goal w (record next { queue = rest }))
                    (expand_loop rounds goal) y (ground arith) in
                expand_loop-Distinct rounds goal z y
                  (expand_one-Distinct goal w (record next { queue = rest }) z d' one) later
          ]
            refl
    ]
      refl

settled-node_id :
    (deps : List Text) (nodes : List PlanNode) (n : PlanNode)
    → (settled deps nodes n).node_id ≡ n.node_id
settled-node_id [] nodes n = refl
settled-node_id (d ∷ ds) nodes n = refl

ids-settle :
    (planned nodes done : List PlanNode) → ids (each (settle_node planned) nodes done) ≡ ids done
unfolding each settle_node
ids-settle planned [] done = refl
ids-settle planned (n ∷ nodes) done =
    ids-settle planned nodes (settle_node planned n done)
    ∙ ids-amend n.node_id (settled (planned_deps planned n) done) done
        (settled-node_id (planned_deps planned n) done)

ids-bare : (nodes : List PlanNode) → ids (map bare nodes) ≡ ids nodes
ids-bare [] = refl
ids-bare (n ∷ nodes) = ap (◌∷◌ n.node_id) (ids-bare nodes)

pub ids-apply_gate_topology :
    (nodes : List PlanNode) (terminals : List Text)
    → ids (apply_gate_topology nodes terminals) ≡ ids nodes
ids-apply_gate_topology nodes terminals =
    sym (ids-bare (apply_gate_topology nodes terminals))
    ∙ ap ids (apply_gate_topology-Grows nodes terminals).same_nodes
    ∙ ids-bare nodes

abbrev pub group_of : Text → List PlanNode → ℕ
group_of id plan = elim (node_for id plan) [ none ↦ 0 | some n ↦ n.parallel_group ]

pub ids-in_group :
    (levels : List (Text × ℕ)) (ordered : List PlanNode)
    → ids (map (in_group levels) ordered) ≡ ids ordered
ids-in_group levels [] = refl
ids-in_group levels (n ∷ ordered) = ap (◌∷◌ n.node_id) (ids-in_group levels ordered)

pub group_of-in_group :
    (id : Text) (levels : List (Text × ℕ)) (ordered : List PlanNode)
    → contains id (ids ordered) ≡ true
    → group_of id (map (in_group levels) ordered) ≡ level_of id levels
unfolding row_for contains
group_of-in_group id levels [] h = cc
group_of-in_group id levels (n ∷ ordered) h = ground (arith, group_of-in_group id levels ordered)

-- The dependencies of a node that are in the plan are in groups before its own.
abbrev pub Waits : List PlanNode → PlanNode → Type 0
Waits plan n =
    (dep : Text)
    → contains dep n.depends_on ≡ true
    → contains dep (ids plan) ≡ true
    → group_of dep plan < n.parallel_group

pub in_group-Waits :
    (nodes plan : List PlanNode) (levels : List (Text × ℕ)) (rest : List PlanNode)
    → ((id : Text) → contains id (ids plan) ≡ true → is_known nodes id ≡ true)
    → All (Above nodes levels) rest
    → All (Waits (map (in_group levels) plan)) (map (in_group levels) rest)
in_group-Waits nodes plan levels [] known h = tt
in_group-Waits nodes plan levels (n ∷ rest) known h = (
  λ dep m k.
      let k' : contains dep (ids plan) ≡ true =
        subst (λ xs. contains dep xs ≡ true) (ids-in_group levels plan) k in
      subst (λ g. g < level_of n.node_id levels) (sym (group_of-in_group dep levels plan k'))
        (h.0 dep m (known dep k')),
  in_group-Waits nodes plan levels rest known h.1,
)

pub ids-settled : (nodes : List PlanNode) → ids (settle nodes) ≡ ids nodes
unfolding settle
ids-settled nodes = ids-settle nodes nodes nodes

pub set_groups-Waits :
    (nodes ordered : List PlanNode)
    → IsOrderOf nodes ordered
    → All (Above nodes (parallel_levels ordered)) ordered
    → Distinct (ids (set_groups ordered)) × All (Waits (set_groups ordered)) (set_groups ordered)
unfolding set_groups
set_groups-Waits nodes ordered order above =
    let levels = parallel_levels ordered in
    (
      subst Distinct (sym (ids-in_group levels ordered)) order.distinct,
      in_group-Waits nodes ordered levels ordered
          (λ id m. by_id-known id nodes ∙ sym (order.complete id) ∙ m) above,
    )

-- The plan that `expand_graph` returns has no two nodes with one identifier, and each node is in a
-- later group than the nodes of the plan that it depends on.
pub expand_graph-Waits :
    (rounds : ℕ) (goal : Goal) (plan : List PlanNode) (edges : List PlanEdge) (reuse : List Text)
    → expand_graph rounds goal ≡ ok (plan, edges, reuse)
    → Distinct (ids plan) × All (Waits plan) plan
unfolding expand_graph
expand_graph-Waits rounds goal plan edges reuse h =
    let (x, looped, rest) =
      and_then-ok (expand_loop rounds goal (start_expansion goal.terminals)) _ (plan, edges, reuse)
        h in
    let nodes = apply_gate_topology (settle x.nodes) goal.terminals in
    let (ordered, in_order, ends) =
      and_then-ok (topological_order nodes) _ (plan, edges, reuse) rest in
    let same_ids : ids nodes ≡ ids x.nodes =
      ids-apply_gate_topology (settle x.nodes) goal.terminals ∙ ids-settled x.nodes in
    let d : Distinct (ids nodes) =
      subst Distinct (sym same_ids)
        (expand_loop-Distinct rounds goal (start_expansion goal.terminals) x tt looped) in
    let order = topological_order-IsOrderOf nodes ordered d in_order in
    let returned : plan ≡ set_groups ordered = ground arith in
    subst (λ p. Distinct (ids p) × All (Waits p) p) (sym returned)
      (set_groups-Waits nodes ordered order (parallel_levels-Above nodes ordered d in_order))
