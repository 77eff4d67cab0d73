-- ===== src/Planner/Order.antt =====
-- `topological_order` of pebs/planner/graph.py. `visit` calls itself at most once within itself for
-- each node of the plan, so one round more than there are nodes is enough.
pub mod Steps
pub mod Sound
pub mod Acyclic
use pebs.Base.{
  ℕ, zero, suc, Bool, true, false, Option, none, some, List, [], ◌∷◌, ◌++◌, Text, same, text_leb,
  if◌then◌else◌, length, Result, ok, err,
}
use pebs.Planner.Contracts.{PlanNode, PlannerError, dependency_cycle, out_of_rounds}

-- The values 1 and 2 of `visited`; an absent key is 0.
pub data Mark : Type 0 where
  visiting done : Mark

pub record Walk : Type 0 where
  pub visited : List (Text × Mark)
  pub ordered : List PlanNode

unfoldable pub mark_of : Text → List (Text × Mark) → Option Mark
mark_of id [] = none
mark_of id ((x, m) ∷ visited) = if same x id then some m else mark_of id visited

-- `{node.node_id: node for node in nodes}`: the last node with an identifier counts.
unfoldable pub by_id : Text → List PlanNode → Option PlanNode
by_id id [] = none
by_id id (n ∷ nodes) = elim (by_id id nodes) [
  | some m ↦ some m
  | none ↦ if same n.node_id id then some n else none
]

abbrev pub set_mark : PlanNode → Mark → Walk → Walk
set_mark n m w = record w { visited = (n.node_id, m) ∷ w.visited }

abbrev pub and_then {ℓ} : {A B E : Type ℓ} → Result E A → (A → Result E B) → Result E B
and_then (ok a) f = f a
and_then (err e) f = err e

-- `for dep in node.depends_on: if dep in by_id: visit(by_id[dep])`
unfoldable pub visit_deps :
    (PlanNode → Walk → Result PlannerError Walk)
    → List PlanNode
    → List Text
    → Walk
    → Result PlannerError Walk
visit_deps visit nodes [] w = ok w
visit_deps visit nodes (dep ∷ deps) w = elim (by_id dep nodes) [
  | none ↦ visit_deps visit nodes deps w
  | some n ↦ and_then (visit n w) (visit_deps visit nodes deps)
]

abbrev pub finish : PlanNode → Walk → Walk
finish n w = record { visited = (n.node_id, done) ∷ w.visited; ordered = w.ordered ++ n ∷ [] }

unfoldable pub visit : ℕ → List PlanNode → PlanNode → Walk → Result PlannerError Walk
unfolding visit_deps
visit zero nodes n w = err out_of_rounds
visit (suc rounds) nodes n w = elim (mark_of n.node_id w.visited) [
  | some visiting ↦ err (dependency_cycle n.node_id)
  | some done ↦ ok w
  | none ↦
      and_then (visit_deps (visit rounds nodes) nodes n.depends_on (set_mark n visiting w))
        (λ w'. ok (finish n w'))
]

unfoldable pub insert_node : PlanNode → List PlanNode → List PlanNode
insert_node n [] = n ∷ []
insert_node n (x ∷ xs) =
    let rest = insert_node n xs in if text_leb n.node_id x.node_id then n ∷ x ∷ xs else x ∷ rest

-- `sorted(nodes, key=lambda item: item.node_id)`
unfoldable pub sort_nodes : List PlanNode → List PlanNode
unfolding insert_node
sort_nodes [] = []
sort_nodes (n ∷ nodes) = insert_node n (sort_nodes nodes)

unfoldable pub visit_all : ℕ → List PlanNode → List PlanNode → Walk → Result PlannerError Walk
visit_all rounds nodes [] w = ok w
visit_all rounds nodes (n ∷ rest) w =
    and_then (visit rounds nodes n w) (visit_all rounds nodes rest)

abbrev pub start : Walk
start = record { visited = []; ordered = [] }

unfoldable pub topological_order : List PlanNode → Result PlannerError (List PlanNode)
topological_order nodes =
    and_then (visit_all (suc (length nodes)) nodes (sort_nodes nodes) start) (λ w. ok w.ordered)
