-- ===== src/Planner/Levels/Behind.antt =====
-- The levels of pebs/planner/graph.py put each node above the nodes that it depends on, so the
-- batches of pebs/runtime/executor.py, run in the order of their levels, respect dependencies.
use pebs.Base.{
  ℕ, ◌+◌, ◌<◌, ◌≤◌, max, true, false, ◌≡◌, refl, List, [], ◌∷◌, Text, arith, contains, All,
  Distinct, ok,
}
use pebs.Planner.Contracts.{PlanNode}
use pebs.Planner.Order.{topological_order}
use pebs.Planner.Order.Steps.{ids, is_known, DepsBefore}
use pebs.Planner.Order.Sound.{topological_order-IsOrderOf}
use pebs.Planner.Levels.{level_of, raise_level, levels_from, parallel_levels}

raise_level-ge :
    (deps : List Text) (levels : List (Text × ℕ)) (level : ℕ)
    → level ≤ raise_level deps levels level
unfolding raise_level
raise_level-ge [] levels level = omega arith
raise_level-ge (dep ∷ deps) levels level =
    omega (arith, raise_level-ge deps levels (max level (level_of dep levels + 1)))

-- A node's level is above that of each of its dependencies.
raise_level-above :
    (deps : List Text) (levels : List (Text × ℕ)) (level : ℕ) (dep : Text)
    → contains dep deps ≡ true
    → level_of dep levels < raise_level deps levels level
unfolding raise_level contains
raise_level-above [] levels level dep m = cc
raise_level-above (d ∷ deps) levels level dep m = ground (
  arith,
  raise_level-above deps levels (max level (level_of d levels + 1)) dep,
  raise_level-ge deps levels (max level (level_of d levels + 1)),
)

-- The level of a node that does not come is final.
levels_from-kept :
    (id : Text) (ordered : List PlanNode) (levels : List (Text × ℕ))
    → contains id (ids ordered) ≡ false
    → level_of id (levels_from ordered levels) ≡ level_of id levels
unfolding levels_from level_of contains
levels_from-kept id [] levels h = refl
levels_from-kept id (n ∷ ordered) levels h =
    ground
      (arith, levels_from-kept id ordered ((n.node_id, raise_level n.depends_on levels 0) ∷ levels))

abbrev pub Above : List PlanNode → List (Text × ℕ) → PlanNode → Type 0
Above nodes levels n =
    (dep : Text)
    → contains dep n.depends_on ≡ true
    → is_known nodes dep ≡ true
    → level_of dep levels < level_of n.node_id levels

levels_from-Above :
    (nodes : List PlanNode) (seen : List Text) (ordered : List PlanNode) (levels : List (Text × ℕ))
    → DepsBefore nodes seen ordered
    → Distinct (ids ordered)
    → ((id : Text) → contains id seen ≡ true → contains id (ids ordered) ≡ false)
    → All (Above nodes (levels_from ordered levels)) ordered
unfolding levels_from
levels_from-Above nodes seen [] levels before d apart = tt
levels_from-Above nodes seen (n ∷ ordered) levels before d apart =
    let next = (n.node_id, raise_level n.depends_on levels 0) ∷ levels in
    (
      λ dep m k.
          let earlier = before.0 dep m k in
          let outside : contains dep (ids (n ∷ ordered)) ≡ false = apart dep earlier in
          unfold contains level_of in
          ground (
            arith,
            raise_level-above n.depends_on levels 0 dep m,
            levels_from-kept dep ordered next,
            levels_from-kept n.node_id ordered next d.0,
          ),
      levels_from-Above nodes (n.node_id ∷ seen) ordered next before.1 d.1
          (λ id m. unfold contains in ground (arith, apart id, d.0)),
    )

-- For nodes with distinct identifiers, in an order that `topological_order` returns every node has
-- a level above the levels of all nodes of the plan that it depends on.
pub parallel_levels-Above :
    (nodes ordered : List PlanNode)
    → Distinct (ids nodes)
    → topological_order nodes ≡ ok ordered
    → All (Above nodes (parallel_levels ordered)) ordered
unfolding parallel_levels contains
parallel_levels-Above nodes ordered d e =
    let order = topological_order-IsOrderOf nodes ordered d e in
    levels_from-Above nodes [] ordered [] order.before order.distinct (λ id m. cc)
