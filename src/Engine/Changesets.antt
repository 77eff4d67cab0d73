-- ===== src/Engine/Changesets.antt =====
-- `accept` and `reject` of pebs/engine.py on the state of Store, with the locks that a patch holds until
-- then. What `_publish_formal` and `write_memory` do to files outside the store changes no table of it;
-- the paths that are published are an argument.
pub mod Released
pub mod Stuck
use pebs.Base.{
  ℕ, Bool, true, false, Option, none, some, List, [], ◌∷◌, Text, codes, same_maybe, if◌then◌else◌,
  each, Result, ok, err, pure, gets, modify, ◌>>=◌, ◌>>◌,
}
use pebs.Store.Rows.{
  Changeset, Run, Store, StoreError, artifact_locked, not_candidate, changeset_empty,
  baseline_conflict,
}
use pebs.Store.Artifacts.{StoreExec, set_locked}
use pebs.Store.Changesets.{get_changeset, accept_changeset, reject_changeset}
use pebs.Store.Listings.{accepted_content}
use pebs.Store.Runs.{get_run}

-- What is read of the JSON of a run's inputs (`patch_plan`, none where it is missing or empty) and of
-- the patch plan.
pub record PatchReaders : Type 0 where
  pub patch_plan : Text → Option Text
  pub plan_id : Text → Option Text
  pub locked_artifacts : Text → List Text

-- `run["inputs"].get("patch_plan")` of the changeset's run, none where there is no such run
unfoldable pub plan_of_changeset : PatchReaders → Text → Store → Option Text
plan_of_changeset readers changeset_id s = elim (get_changeset changeset_id s).0 [
  | err e ↦ none
  | ok (cs, read) ↦ elim cs.run_id [
    | none ↦ none
    | some [] ↦ none
    | some (c ∷ run_id) ↦ elim (get_run (c ∷ run_id) s).0 [
      | err e ↦ none
      | ok run ↦ readers.patch_plan run.inputs
    ]
  ]
]

-- The locks of the accepted patch plan, if it is this plan.
abbrev pub locks_of_plan : PatchReaders → Text → Option Text → List Text
locks_of_plan readers plan_id none = []
locks_of_plan readers plan_id (some content) =
    if same_maybe (readers.plan_id content) (some plan_id)
    then readers.locked_artifacts content
    else []

-- `_patch_locks`
unfoldable pub patch_locks : PatchReaders → Text → StoreExec (List Text)
unfolding plan_of_changeset
patch_locks readers changeset_id s = elim (plan_of_changeset readers changeset_id s) [
  | none ↦ (ok [], s)
  | some plan_id ↦
      (do
        content ← accepted_content (codes "patch_plan")
        pure (locks_of_plan readers plan_id content))
        s
]

abbrev pub unlock_all : List Text → Store → Store
unlock_all locks = each (λ a. set_locked a false) locks

-- `_release_patch_locks`
unfoldable pub release_patch_locks : PatchReaders → Text → StoreExec Unit
unfolding patch_locks
release_patch_locks readers changeset_id = do
  locks ← patch_locks readers changeset_id
  modify (unlock_all locks)

-- A ConflictError.
abbrev pub is_conflict : StoreError → Bool
is_conflict (artifact_locked a) = true
is_conflict (not_candidate c st) = true
is_conflict (changeset_empty c) = true
is_conflict (baseline_conflict a current expected) = true
is_conflict e = false

-- `{"ok": False, "reason": …}`, or what the store and the publication give back.
pub data Decision : Type 0 where
  declined : StoreError → Decision
  decided : List Text → List Text → Decision

abbrev pub decline : StoreError → StoreExec Decision
decline e s = if is_conflict e then (ok (declined e), s) else (err e, s)

unfoldable pub accept : PatchReaders → (Text → Store → List Text) → ℕ → Text → StoreExec Decision
unfolding release_patch_locks
accept readers publish now changeset_id s =
    let (result, t) = accept_changeset now changeset_id s in
    elim result [
      | err e ↦ decline e t
      | ok stale ↦
          (do
            release_patch_locks readers changeset_id
            published ← gets (publish changeset_id)
            pure (decided stale published))
            t
    ]

unfoldable pub reject : PatchReaders → ℕ → Text → StoreExec Decision
unfolding release_patch_locks
reject readers now changeset_id s =
    let (result, t) = reject_changeset now changeset_id s in
    elim result [
      | err e ↦ decline e t
      | ok _ ↦ (do release_patch_locks readers changeset_id; pure (decided [] [])) t
    ]
