-- ===== src/Planner/Contracts.antt =====
-- The data of pebs/planner/contracts.py and the errors of the planner.
use pebs.Base.{ℕ, Bool, Option, List, Text}

-- A declaration of `preconditions`: its kind, its inputs and its usage scope.
pub record Precondition : Type 0 where
  pub kind : Text
  pub inputs : List Text
  pub usage_scope : Option (List Text)

pub record PlanNode : Type 0 where
  pub node_id : Text
  pub title : Text
  pub skill : Text
  pub steps : List Text
  pub inputs : List Text
  pub outputs : List Text
  pub depends_on : List Text
  pub optional : Bool
  pub parallel_group : ℕ
  pub gate_before : List Text
  pub gate_after : List Text
  pub preconditions : List Precondition
  pub reason : Text
  pub reused : Bool
  pub degraded : Bool

pub record PlanEdge : Type 0 where
  pub from_artifact : Text
  pub to_node : Text
  pub input : Bool

-- PlannerError. `out_of_rounds` is no error of the program: it says that a bounded recursion
-- ended early, which never happens.
pub data PlannerError : Type 0 where
  dependency_cycle no_producer : Text → PlannerError
  too_many_nodes out_of_rounds : PlannerError
