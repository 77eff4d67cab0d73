-- ===== src/Tests/Plans.antt =====
-- A plan of three nodes, given out of order, and one with a cycle.
use native.Mathlib.Decide.{ℕ_discrete}
use pebs.Base.{
  ℕ, false, ◌≡◌, refl, ◌⊎◌, List, [], ◌∷◌, Text, codes, ok, err, contains, text_dec, text_leb,
  Distinct, All, arith, same, if◌then◌else◌,
}
use pebs.Planner.Contracts.{PlanNode, dependency_cycle}
use pebs.Planner.Order.{
  mark_of, by_id, visit_deps, visit, insert_node, sort_nodes, visit_all, topological_order,
}
use pebs.Planner.Order.Steps.{ids}
use pebs.Planner.Order.Sound.{IsOrderOf, topological_order-IsOrderOf}
use pebs.Planner.Order.Acyclic.{topological_order_total, IsRanked, topological_order-acyclic}
use pebs.Planner.Levels.{level_of, raise_level, levels_from, parallel_levels}
use pebs.Planner.Levels.Behind.{Above, parallel_levels-Above}

abbrev pub node : Text → List Text → PlanNode
node node_id depends_on = record {
  node_id = node_id;
  title = [];
  skill = node_id;
  steps = [];
  inputs = [];
  outputs = [];
  depends_on = depends_on;
  optional = false;
  parallel_group = 0;
  gate_before = [];
  gate_after = [];
  preconditions = [];
  reason = [];
  reused = false;
  degraded = false;
}

abbrev writer : PlanNode
writer = node (codes "a") (codes "m" ∷ codes "z" ∷ codes "ghost" ∷ [])

abbrev middle : PlanNode
middle = node (codes "m") (codes "z" ∷ [])

abbrev source : PlanNode
source = node (codes "z") []

abbrev plan : List PlanNode
plan = writer ∷ middle ∷ source ∷ []

abbrev cyclic : List PlanNode
cyclic = node (codes "a") (codes "m" ∷ []) ∷ node (codes "m") (codes "a" ∷ []) ∷ []

program : Unit {0}
unfolding text_dec ℕ_discrete contains text_leb mark_of by_id visit_deps visit insert_node
    sort_nodes visit_all topological_order level_of raise_level levels_from parallel_levels
program = tt

plan-Distinct : Distinct (ids plan)
unfolding program
plan-Distinct = (refl, (refl, (refl, tt)))

plan-ordered : topological_order plan ≡ ok (source ∷ middle ∷ writer ∷ [])
unfolding program
plan-ordered = refl

cyclic-error : topological_order cyclic ≡ err (dependency_cycle (codes "a"))
unfolding program
cyclic-error = refl

plan-levels :
    parallel_levels (source ∷ middle ∷ writer ∷ [])
    ≡ (codes "a", 2) ∷ (codes "m", 1) ∷ (codes "z", 0) ∷ []
unfolding program
plan-levels = refl

topological_order-IsOrderOf_example : IsOrderOf plan (source ∷ middle ∷ writer ∷ [])
topological_order-IsOrderOf_example =
    topological_order-IsOrderOf plan (source ∷ middle ∷ writer ∷ []) plan-Distinct plan-ordered

topological_order_total_example :
    ((ordered : List PlanNode) × (topological_order plan ≡ ok ordered))
    ⊎ ((x : Text) × (topological_order plan ≡ err (dependency_cycle x)))
topological_order_total_example = topological_order_total plan plan-Distinct

-- The later letters of the alphabet first.
abbrev rank : Text → ℕ
rank [] = 0
rank (c ∷ cs) = if same (c ∷ cs) (codes "z") then 0 else if same (c ∷ cs) (codes "m") then 1 else 2

plan-IsRanked : IsRanked rank plan
unfolding by_id text_dec ℕ_discrete
plan-IsRanked = (
  ((λ k. omega arith), ((λ k. omega arith), ((λ k. cc), tt))),
  (((λ k. omega arith), tt), (tt, tt)),
)

topological_order-acyclic_example :
    (ordered : List PlanNode) × (topological_order plan ≡ ok ordered)
topological_order-acyclic_example = topological_order-acyclic plan rank plan-Distinct plan-IsRanked

parallel_levels-Above_example :
    All
      (Above plan (parallel_levels (source ∷ middle ∷ writer ∷ [])))
      (source ∷ middle ∷ writer ∷ [])
parallel_levels-Above_example =
    parallel_levels-Above plan (source ∷ middle ∷ writer ∷ []) plan-Distinct plan-ordered
