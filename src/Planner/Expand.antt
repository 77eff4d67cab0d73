-- ===== src/Planner/Expand.antt =====
-- `expand_graph` of pebs/planner/graph.py. The arguments give the callback `choose`, bound to `prefer`
-- and `pinned`, and the titles of `pipeline.plan_steps()`. The dict of nodes is the list of its
-- values, each at its own identifier; `queue` is the list of what is still wanted.
pub mod Finish
pub mod Ranked
use pebs.Base.{
  ℕ, zero, suc, ◌+◌, Bool, true, false, not, ◌&&◌, ◌||◌, Option, none, some, List, [], ◌∷◌, ◌++◌,
  Text, codes, same, ltb, if◌then◌else◌, select, any, all, map, take, contains, insert_new, union,
  sorted, each, amend, row_for, length, Result, ok, err,
}
use pebs.Planner.Contracts.{
  PlanNode, PlanEdge, Precondition, PlannerError, no_producer, too_many_nodes, out_of_rounds,
}
use pebs.Planner.Order.{and_then}

-- What the planner reads of the registry's record of a skill.
pub record SkillRecord : Type 0 where
  pub description : Text
  pub steps : List Text
  pub requires : List Text
  pub optional_requires : List Text
  pub produces : List Text
  pub gates_before : List Text
  pub gates_after : List Text
  pub preconditions : List Precondition

pub record Chosen : Type 0 where
  pub name : Text
  pub skill : SkillRecord

-- The arguments of `expand_graph`.
pub record Goal : Type 0 where
  pub terminals : List Text
  pub choose : Text → Option Chosen
  pub existing_satisfied : List Text
  pub include_optional : List Text
  pub exclude_artifacts : List Text
  pub titles : List (Text × Text)

-- An element of `queue`.
pub record Wanted : Type 0 where
  pub artifact : Text
  pub required_by : Option Text
  pub optional_chain : Bool

pub record Expansion : Type 0 where
  pub nodes : List PlanNode
  pub reuse : List Text
  pub edges : List PlanEdge
  pub queue : List Wanted
  pub produced_outputs : List Text
  pub gates_enqueued : Bool

abbrev pub max_nodes : ℕ
max_nodes = 40

unfoldable pub title_for : Text → List (Text × Text) → Option Text
title_for step [] = none
title_for step ((s, title) ∷ titles) = if same s step then some title else title_for step titles

unfoldable pub node_title : List (Text × Text) → Text → List Text → Text
node_title titles skill_name [] = skill_name
node_title titles skill_name (step ∷ steps) = elim (title_for step titles) [
  | some title ↦ title
  | none ↦ node_title titles skill_name steps
]

-- The title of a node: that of its steps, or the start of the description.
unfoldable pub title_of : List (Text × Text) → Chosen → Text
title_of titles c = elim c.skill.steps [
  | step ∷ steps ↦ node_title titles c.name (step ∷ steps)
  | [] ↦ take 24 (elim c.skill.description [ [] ↦ c.name | d ∷ ds ↦ d ∷ ds ])
]

unfoldable pub reused_node : List (Text × Text) → Text → Chosen → PlanNode
reused_node titles artifact c = record {
  node_id = c.name;
  title = title_of titles c;
  skill = c.name;
  steps = c.skill.steps;
  inputs = c.skill.requires;
  outputs = c.skill.produces;
  depends_on = [];
  optional = false;
  parallel_group = 0;
  gate_before = [];
  gate_after = [];
  preconditions = [];
  reason = codes "复用已接受产物：" ++ artifact;
  reused = true;
  degraded = false;
}

unfoldable pub produced_node : List (Text × Text) → Text → Chosen → PlanNode
produced_node titles artifact c = record {
  node_id = c.name;
  title = title_of titles c;
  skill = c.name;
  steps = c.skill.steps;
  inputs = c.skill.requires ++ c.skill.optional_requires;
  outputs = c.skill.produces;
  depends_on = [];
  optional = true;
  parallel_group = 0;
  gate_before = c.skill.gates_before;
  gate_after = c.skill.gates_after;
  preconditions = c.skill.preconditions;
  reason = codes "为产出 " ++ artifact;
  reused = false;
  degraded = false;
}

abbrev pub node_for : Text → List PlanNode → Option PlanNode
node_for = row_for (λ n. n.node_id)

-- `nodes[node_id] = node` where the key is absent.
unfoldable pub add_node : PlanNode → List PlanNode → List PlanNode
add_node n nodes = elim (node_for n.node_id nodes) [ none ↦ nodes ++ n ∷ [] | some old ↦ nodes ]

-- `edges.append(…)` if something requires the artifact.
unfoldable pub add_edge : Wanted → List PlanEdge → List PlanEdge
add_edge w edges = elim w.required_by [
  | some (c ∷ cs) ↦
      edges ++ record { from_artifact = w.artifact; to_node = c ∷ cs; input = true } ∷ []
  | _ ↦ edges
]

-- The first lines of a round.
unfoldable pub enqueue_gates : Expansion → Expansion
enqueue_gates x =
    if not x.gates_enqueued && contains (codes "script") x.produced_outputs
    then record x {
      gates_enqueued = true;
      queue =
          x.queue
          ++ record { artifact = codes "gate_result"; required_by = none; optional_chain = false }
            ∷ [];
    }
    else x

-- The round of an artifact that exists.
unfoldable pub reuse_existing : Goal → Wanted → Expansion → Expansion
reuse_existing goal w x = record x {
  reuse = insert_new w.artifact x.reuse;
  nodes = elim (goal.choose w.artifact) [
    | none ↦ x.nodes
    | some c ↦ add_node (reused_node goal.titles w.artifact c) x.nodes
  ];
  edges = add_edge w x.edges;
}

-- What the inputs of a node put into the queue.
unfoldable pub wanted_inputs : Goal → Wanted → Chosen → List Wanted
wanted_inputs goal w c =
    map (λ a. record { artifact = a; required_by = some c.name; optional_chain = w.optional_chain })
      (select (λ a. not (contains a goal.exclude_artifacts)) c.skill.requires)
    ++ map (λ a. record { artifact = a; required_by = some c.name; optional_chain = true })
        (select
          (λ a.
            not (contains a goal.exclude_artifacts)
            && (contains a goal.include_optional || contains a goal.existing_satisfied))
          c.skill.optional_requires)

abbrev pub outputs_at : Text → List PlanNode → List Text
outputs_at id nodes = elim (node_for id nodes) [ none ↦ [] | some n ↦ n.outputs ]

-- The round of an artifact that is to be produced, where `choose` found a skill.
unfoldable pub produce : Goal → Wanted → Chosen → Expansion → Result PlannerError Expansion
produce goal w c x =
    let nodes = add_node (produced_node goal.titles w.artifact c) x.nodes in
    if ltb (length x.nodes) (length nodes) && ltb max_nodes (length nodes)
    then err too_many_nodes
    else ok (record x {
      nodes =
          if w.optional_chain
          then nodes
          else amend (λ n. n.node_id) c.name (λ n. record n { optional = false }) nodes;
      produced_outputs = union (outputs_at c.name nodes) x.produced_outputs;
      edges = add_edge w x.edges;
      queue = x.queue ++ wanted_inputs goal w c;
    })

-- A round, after the artifact is taken from the queue. Where `choose` finds none, the artifact does
-- not exist already, as the branch above it takes those.
unfoldable pub expand_one : Goal → Wanted → Expansion → Result PlannerError Expansion
expand_one goal w x =
    if contains w.artifact goal.exclude_artifacts
    then ok x
    else if contains w.artifact goal.existing_satisfied
    then ok (reuse_existing goal w x)
    else elim (goal.choose w.artifact) [
      | none ↦ err (no_producer w.artifact)
      | some c ↦ produce goal w c x
    ]

unfoldable pub expand_loop : ℕ → Goal → Expansion → Result PlannerError Expansion
expand_loop zero goal x = err out_of_rounds
expand_loop (suc rounds) goal x = elim x.queue [
  | [] ↦ ok x
  | _ ∷ _ ↦ elim (enqueue_gates x).queue [
    | [] ↦ ok x
    | w ∷ queue ↦
        and_then (expand_one goal w (record (enqueue_gates x) { queue = queue }))
          (expand_loop rounds goal)
  ]
]

abbrev pub start_expansion : List Text → Expansion
start_expansion terminals = record {
  nodes = [];
  reuse = [];
  edges = [];
  queue = map (λ a. record { artifact = a; required_by = none; optional_chain = false }) terminals;
  produced_outputs = [];
  gates_enqueued = false;
}
