-- ===== src/Tests.antt =====
-- Small inputs for the theorems, and what the program does on them.
pub mod Stores
pub mod StoreRuns
pub mod Plans
pub mod Evidences
pub mod Consumption
pub mod Expansions
pub mod Accesses
pub mod Recoveries
pub mod Validations
pub mod Hooking
pub mod Judging
pub mod Accessing
pub mod Policing
pub mod Running
pub mod Agents
pub mod Editing
pub mod Deciding
pub mod Readiness
