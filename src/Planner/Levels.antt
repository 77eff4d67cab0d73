-- ===== src/Planner/Levels.antt =====
-- `parallel_levels` of pebs/planner/graph.py. An assignment to the dict is put in front.
pub mod Behind
use pebs.Base.{ℕ, ◌+◌, max, List, [], ◌∷◌, Text, same, if◌then◌else◌}
use pebs.Planner.Contracts.{PlanNode}

-- `levels.get(dep, 0)`
unfoldable pub level_of : Text → List (Text × ℕ) → ℕ
level_of id [] = 0
level_of id ((x, level) ∷ levels) = if same x id then level else level_of id levels

-- The inner loop, from `level`.
unfoldable pub raise_level : List Text → List (Text × ℕ) → ℕ → ℕ
raise_level [] levels level = level
raise_level (dep ∷ deps) levels level =
    raise_level deps levels (max level (level_of dep levels + 1))

unfoldable pub levels_from : List PlanNode → List (Text × ℕ) → List (Text × ℕ)
unfolding raise_level
levels_from [] levels = levels
levels_from (n ∷ ordered) levels =
    levels_from ordered ((n.node_id, raise_level n.depends_on levels 0) ∷ levels)

unfoldable pub parallel_levels : List PlanNode → List (Text × ℕ)
parallel_levels ordered = levels_from ordered []
