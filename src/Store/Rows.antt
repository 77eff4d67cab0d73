-- ===== src/Store/Rows.antt =====
-- The tables of pebs/store.py (SCHEMA), a record for each, the errors of its methods, and the
-- state of a store: its tables and the files that `materialize` writes under `base_dir`.
-- `created_at` and the like hold the second that `now_iso` prints. `deps.mapping` is always ''.
use pebs.Base.{ℕ, Bool, Option, List, Text}

pub record Pointer : Type 0 where
  pub artifact_id : Text
  pub project_id : Text
  pub artifact_type : Text
  pub accepted_rev : Option Text
  pub stale : Bool
  pub locked : Bool

pub record Revision : Type 0 where
  pub revision_id : Text
  pub project_id : Text
  pub artifact_id : Text
  pub artifact_type : Text
  pub version : ℕ
  pub content : Text
  pub content_hash : Text
  pub produced_by : Text
  pub produced_by_run : Option Text
  pub rules_version : Option Text
  pub fixture : Bool
  pub note : Text
  pub created_at : ℕ

pub record Dep : Type 0 where
  pub downstream_rev : Text
  pub upstream_rev : Text

pub data ChangesetStatus : Type 0 where
  candidate conflict accepted rejected : ChangesetStatus

-- `{artifact_id: accepted_rev}`
abbrev pub Baseline : Type 0
Baseline = List (Text × Option Text)

pub record Changeset : Type 0 where
  pub changeset_id : Text
  pub project_id : Text
  pub run_id : Option Text
  pub reason : Text
  pub status : ChangesetStatus
  pub baseline : Baseline
  pub created_at : ℕ
  pub decided_at : Option ℕ

pub record Item : Type 0 where
  pub changeset_id : Text
  pub revision_id : Text
  pub artifact_id : Text

pub data RunStatus : Type 0 where
  running succeeded failed cancelled blocked interrupted : RunStatus

pub record Run : Type 0 where
  pub run_id : Text
  pub project_id : Text
  pub created_at : ℕ
  pub status : RunStatus
  pub environment : Text
  pub baseline : Baseline
  pub budget_model_calls : ℕ
  pub budget_research : ℕ
  pub budget_seconds : ℕ
  pub calls_used : ℕ
  pub research_used : ℕ
  pub ended_at : Option ℕ
  pub request : Text
  pub inputs : Text

pub data StepStatus : Type 0 where
  pending running succeeded failed blocked cancelled stale : StepStatus

pub record Step : Type 0 where
  pub run_id : Text
  pub step_id : Text
  pub title : Text
  pub status : StepStatus
  pub attempts : ℕ
  pub started_at : Option ℕ
  pub ended_at : Option ℕ
  pub error : Option Text
  pub note : Option Text
  pub input_revs : List Text
  pub output_revs : List Text
  pub model_calls : ℕ

-- A file under `base_dir`: the parts of its path, and its text.
abbrev pub File : Type 0
File = List Text × Text

pub record Store : Type 0 where
  pub project_id : Text
  pub pointers : List Pointer
  pub revisions : List Revision
  pub deps : List Dep
  pub changesets : List Changeset
  pub items : List Item
  pub runs : List Run
  pub steps : List Step
  pub files : List File

-- StoreError, ConflictError and BudgetExceeded, each with what its message names, and the error
-- of SQLite at a primary key that is taken.
pub data StoreError : Type 0 where
  revision_not_found changeset_not_found run_not_found : Text → StoreError
  artifact_locked : Text → StoreError
  not_candidate : Text → ChangesetStatus → StoreError
  changeset_empty : Text → StoreError
  baseline_conflict : Text → Option Text → Option Text → StoreError
  model_budget_exhausted research_budget_exhausted time_budget_exhausted : StoreError
  integrity_error : Text → StoreError
