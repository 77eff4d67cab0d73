-- ===== src/Tests/Expansions.antt =====
-- A small registry: a script made from requirements and checked by the gates.
use native.Mathlib.Decide.{ℕ_discrete}
use pebs.Base.{
  ℕ, ◌<◌, ◌≤◌, ◌≢◌, err, arith, sym, subst, length, ◌+◌, ◌≡◌, refl, true, false, Option, none, some,
  List, [], ◌∷◌, codes, ok, Text, text_dec, same, row_for, amend, select, any, all, contains, union,
  insert_new, sorted, insert_sorted, text_leb, each, take, Distinct, All, inl, inr, if◌then◌else◌,
}
use pebs.Gates.{GateContract, gate_contracts, script_gate}
use pebs.Planner.Contracts.{PlanNode, PlanEdge, out_of_rounds}
use pebs.Planner.Order.{
  mark_of, by_id, visit, visit_deps, visit_all, sort_nodes, insert_node, topological_order,
}
use pebs.Planner.Order.Steps.{ids}
use pebs.Planner.Levels.{level_of, raise_level, levels_from, parallel_levels}
use pebs.Planner.Topology.{
  add_dependency, depend, evaluators, producers_of, order_declared, order_observed, order_evaluator,
  order_gate, apply_gate_topology,
}
use pebs.Planner.Topology.Obligations.{IsEvaluator}
use pebs.Planner.Topology.Gating.{IsGated, apply_gate_topology-IsGated}
use pebs.Planner.Expand.{
  Chosen, Goal, title_for, node_title, title_of, reused_node, produced_node, add_node, add_edge,
  enqueue_gates, reuse_existing, wanted_inputs, produce, expand_one, expand_loop, start_expansion,
}
use pebs.Planner.Expand.Finish.{
  last_producer, producers_for, planned_deps, settle_node, settle, set_groups, expand_graph,
}
use pebs.Planner.Expand.Finish.Scheduled.{IsScheduled, expand_graph-IsScheduled}
use pebs.Planner.Expand.Ranked.{IsRanked, rounds_for, cost}
use pebs.Planner.Expand.Finish.Total.{expand_graph-ends}
use pebs.Planner.Expand.Finish.Plan.{Waits, expand_graph-Waits}

program : Unit {0}
unfolding text_dec ℕ_discrete row_for amend select any all contains union insert_new sorted
    insert_sorted text_leb each take gate_contracts mark_of by_id visit visit_deps visit_all
    sort_nodes insert_node topological_order level_of raise_level levels_from parallel_levels
    add_dependency depend evaluators producers_of order_declared order_observed order_evaluator
    order_gate apply_gate_topology title_for node_title title_of reused_node produced_node add_node
    add_edge enqueue_gates reuse_existing wanted_inputs produce expand_one expand_loop last_producer
    producers_for planned_deps settle_node settle set_groups expand_graph
program = tt

abbrev writer : Chosen
writer = record {
  name = codes "w";
  skill = record {
    description = codes "writes";
    steps = [];
    requires = codes "requirements" ∷ [];
    optional_requires = [];
    produces = codes "script" ∷ [];
    gates_before = [];
    gates_after = codes "G1" ∷ [];
    preconditions = [];
  };
}

abbrev asker : Chosen
asker = record {
  name = codes "a";
  skill = record {
    description = codes "asks";
    steps = [];
    requires = [];
    optional_requires = [];
    produces = codes "requirements" ∷ [];
    gates_before = [];
    gates_after = [];
    preconditions = [];
  };
}

abbrev runner : Chosen
runner = record {
  name = codes "g";
  skill = record {
    description = codes "checks";
    steps = codes "gates" ∷ [];
    requires = codes "script" ∷ [];
    optional_requires = [];
    produces = codes "gate_result" ∷ [];
    gates_before = [];
    gates_after = [];
    preconditions = [];
  };
}

choose : Text → Option Chosen
choose a =
    if same a (codes "script")
    then some writer
    else if same a (codes "requirements")
    then some asker
    else if same a (codes "gate_result")
    then some runner
    else none

abbrev goal : Goal
goal = record {
  terminals = codes "script" ∷ [];
  choose = choose;
  existing_satisfied = [];
  include_optional = [];
  exclude_artifacts = [];
  titles = [];
}

abbrev blank : Chosen → PlanNode
blank c = produced_node [] (codes "x") c

abbrev asked : PlanNode
asked = record {
  node_id = codes "a";
  title = codes "asks";
  skill = codes "a";
  steps = [];
  inputs = [];
  outputs = codes "requirements" ∷ [];
  depends_on = [];
  optional = false;
  parallel_group = 0;
  gate_before = [];
  gate_after = [];
  preconditions = [];
  reason = codes "为产出 requirements";
  reused = false;
  degraded = false;
}

abbrev written : PlanNode
written = record {
  node_id = codes "w";
  title = codes "writes";
  skill = codes "w";
  steps = [];
  inputs = codes "requirements" ∷ [];
  outputs = codes "script" ∷ [];
  depends_on = codes "a" ∷ [];
  optional = false;
  parallel_group = 1;
  gate_before = [];
  gate_after = codes "G1" ∷ [];
  preconditions = [];
  reason = codes "为产出 script";
  reused = false;
  degraded = false;
}

abbrev checked : PlanNode
checked = record {
  node_id = codes "g";
  title = codes "g";
  skill = codes "g";
  steps = codes "gates" ∷ [];
  inputs = codes "script" ∷ [];
  outputs = codes "gate_result" ∷ [];
  depends_on = codes "a" ∷ codes "w" ∷ [];
  optional = false;
  parallel_group = 2;
  gate_before = [];
  gate_after = [];
  preconditions = [];
  reason = codes "为产出 gate_result";
  reused = false;
  degraded = false;
}

abbrev plan : List PlanNode
plan = asked ∷ written ∷ checked ∷ []

abbrev edges : List PlanEdge
edges =
    record { from_artifact = codes "requirements"; to_node = codes "w"; input = true }
    ∷ record { from_artifact = codes "script"; to_node = codes "g"; input = true }
    ∷ record { from_artifact = codes "requirements"; to_node = codes "w"; input = true }
    ∷ []

planned : expand_graph 9 goal ≡ ok (plan, edges, [])
unfolding program choose
planned = refl

expand_graph-Waits_example : Distinct (ids plan) × All (Waits plan) plan
expand_graph-Waits_example = expand_graph-Waits 9 goal plan edges [] planned

abbrev first_gate : GateContract
first_gate =
    script_gate (codes "G1")
      (codes "requirements" ∷ codes "lesson_plan" ∷ codes "worksheet" ∷ codes "assessment" ∷ [])

checked-IsEvaluator : IsEvaluator (codes "script" ∷ []) first_gate checked
unfolding program
checked-IsEvaluator = record { listed = inl refl; applies = refl; runs = refl; executes = refl }

apply_gate_topology-IsGated_example :
    IsGated plan (apply_gate_topology plan (codes "script" ∷ [])) first_gate checked
apply_gate_topology-IsGated_example =
    apply_gate_topology-IsGated plan (codes "script" ∷ []) first_gate checked checked-IsEvaluator
      (inr (inr (inl refl)))

rank : Text → ℕ
rank a = if same a (codes "gate_result") then 2 else if same a (codes "script") then 1 else 0

at :
    (P : Text → Chosen → Type 0) (a b : Text) (c d : Chosen)
    → a ≡ b
    → some d ≡ some c
    → P b d
    → P a c
at P a b c d e f p = let as_c : d ≡ c = cc in subst (λ x. P x c) (sym e) (subst (P b) as_c p)

chosen :
    (P : Text → Chosen → Type 0)
    → P (codes "script") writer
    → P (codes "requirements") asker
    → P (codes "gate_result") runner
    → (a : Text) (c : Chosen) → choose a ≡ some c
    → P a c
unfolding choose
chosen P s r g a c made = elim (text_dec a (codes "script")) [
  | yes e ↦ at P a (codes "script") c writer e (ground arith) s
  | no ns ↦ elim (text_dec a (codes "requirements")) [
    | yes e ↦ at P a (codes "requirements") c asker e (ground arith) r
    | no nr ↦ elim (text_dec a (codes "gate_result")) [
      | yes e ↦ at P a (codes "gate_result") c runner e (ground arith) g
      | no ng ↦ absurd (ground arith)
    ]
  ]
]

goal-IsRanked : IsRanked goal rank 1
unfolding program rank
goal-IsRanked = record {
  requires_lower =
      chosen (λ a c. All (λ r. rank r < rank a) c.skill.requires) (omega arith, tt) tt
        (omega arith, tt);
  optional_lower = chosen (λ a c. All (λ r. rank r < rank a) c.skill.optional_requires) tt tt tt;
  few =
      chosen (λ a c. length c.skill.requires + length c.skill.optional_requires ≤ 1) (omega arith)
        (omega arith) (omega arith);
}

-- The script costs 3 rounds and the gates 7.
enough : rounds_for rank 1 (start_expansion goal.terminals) ≡ 10
unfolding program rank cost
enough = refl

expand_graph-ends_example : expand_graph 11 goal ≢ err out_of_rounds
expand_graph-ends_example = expand_graph-ends 11 goal rank 1 goal-IsRanked (omega (arith, enough))

expand_graph-IsScheduled_example : IsScheduled plan first_gate checked
expand_graph-IsScheduled_example =
    expand_graph-IsScheduled 9 goal plan edges [] first_gate checked planned checked-IsEvaluator
      (inr (inr (inl refl)))
