-- ===== src/Planner.antt =====
-- pebs/planner: the nodes of a plan, their order, and their levels.
pub mod Contracts
pub mod Order
pub mod Levels
pub mod Topology
pub mod Expand
pub mod Validation
