-- ===== src/Store.antt =====
-- pebs/store.py: the artifacts, revisions, change sets, runs and steps of a project.
pub mod Rows
pub mod Artifacts
pub mod Closure
pub mod Staleness
pub mod Files
pub mod Changesets
pub mod Runs
pub mod Listings
