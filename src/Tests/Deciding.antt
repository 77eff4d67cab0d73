-- ===== src/Tests/Deciding.antt =====
-- A patch that keeps an artifact locked, and what its decision does to the lock.
use native.Mathlib.Decide.{ℕ_discrete, dec_lt}
use pebs.Base.{
  ◌↔◌, true, false, ◌≡◌, refl, none, some, [], ◌∷◌, ◌++◌, codes, map, contains, row_for, amend,
  text_dec, maybe_dec, select, any, max_of, ref_id, decimal, digits_from, sorted, insert_new, union,
  each,
}
use pebs.Store.Rows.{Changeset, Run, RunStatus, Store}
use pebs.Store.Artifacts.{
  get_revision, accepted_revision, is_locked, set_locked, is_stale, accepted_rev_id,
  dependents_of_rev,
}
use pebs.Store.Closure.{push_dependents, collect, transitive_dependent_revisions}
use pebs.Store.Staleness.{
  revisions_of, note_revision, note_dependents, note_artifact, stale_targets, mark_all,
  mark_dependents_stale,
}
use pebs.Store.Files.{materialize, write_file, file_path}
use pebs.Store.Listings.{accepted_content}
use pebs.Store.Runs.{get_run}
use pebs.Store.Changesets.{
  baseline_get, read_revisions, get_changeset, check_items, set_changeset_status, spread_stale,
  apply_items, accept_changeset, accept_read, apply_and_close, reject_changeset,
}
use pebs.Engine.Changesets.{
  PatchReaders, plan_of_changeset, patch_locks, release_patch_locks, accept, reject,
}
use pebs.Engine.Changesets.Released.{IsPreserved, accept-locks}
use pebs.Tests.Stores.{pointer, revision, sample, moved_sample}

program : Unit {0}
unfolding text_dec maybe_dec row_for amend select any max_of contains ref_id decimal digits_from
    sorted insert_new union each get_revision accepted_revision is_locked set_locked is_stale
    accepted_rev_id dependents_of_rev push_dependents collect transitive_dependent_revisions
    revisions_of note_revision note_dependents note_artifact stale_targets mark_all
    mark_dependents_stale materialize write_file file_path accepted_content get_run baseline_get
    read_revisions get_changeset check_items set_changeset_status spread_stale apply_items
    accept_changeset accept_read apply_and_close reject_changeset plan_of_changeset patch_locks
    release_patch_locks accept reject ℕ_discrete dec_lt
program = tt

abbrev run : Run
run = record {
  run_id = codes "r";
  project_id = codes "p";
  created_at = 0;
  status = RunStatus.succeeded;
  environment = codes "production";
  baseline = [];
  budget_model_calls = 0;
  budget_research = 0;
  budget_seconds = 0;
  calls_used = 0;
  research_used = 0;
  ended_at = none;
  request = [];
  inputs = [];
}

-- The changesets are those of a patch, which holds `kept`.
abbrev patched : Store → Store
patched s = record s {
  pointers =
      s.pointers
      ++ pointer (codes "patch_plan") (codes "patch_plan@r1") false
        ∷ pointer (codes "kept") (codes "kept@r1") true
        ∷ [];
  revisions = s.revisions ++ revision (codes "patch_plan@r1") (codes "patch_plan") 1 ∷ [];
  changesets = map (λ (c : Changeset). record c { run_id = some (codes "r") }) s.changesets;
  runs = run ∷ [];
}

abbrev readers : PatchReaders
readers = record {
  patch_plan = λ t. some (codes "plan");
  plan_id = λ t. some (codes "plan");
  locked_artifacts = λ t. codes "kept" ∷ [];
}

abbrev before : Store
before = patched sample

abbrev after : Store
after = (accept readers (λ c s. []) 5 (codes "cs") before).1

kept_is_free : is_locked (codes "kept") after ≡ false
unfolding program
kept_is_free = refl

-- With another patch plan in the store, it stays locked.
abbrev other_readers : PatchReaders
other_readers = record readers { plan_id = λ t. some (codes "other") }

kept_by_another :
    is_locked (codes "kept") (accept other_readers (λ c s. []) 5 (codes "cs") before).1 ≡ true
unfolding program
kept_by_another = refl

accept-locks_example : (is_locked (codes "kept") after ≡ true) ↔ (
    (is_locked (codes "kept") (accept_changeset 5 (codes "cs") before).1 ≡ true)
    × ¬ IsPreserved readers (codes "cs") (accept_changeset 5 (codes "cs") before).1 (codes "kept"))
unfolding program
accept-locks_example =
    accept-locks readers (λ c s. []) 5 (codes "cs") before after (codes "plan" ∷ []) []
      (codes "kept") refl

-- A baseline conflict closes the changeset; no later decision takes the lock away.
abbrev stuck : Store
stuck = (accept readers (λ c s. []) 5 (codes "cs") (patched moved_sample)).1

kept_stays_locked : is_locked (codes "kept") (reject readers 6 (codes "cs") stuck).1 ≡ true
unfolding program
kept_stays_locked = refl
