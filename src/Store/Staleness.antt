-- ===== src/Store/Staleness.antt =====
-- `revisions_of` and `mark_dependents_stale` of pebs/store.py. The sets `changed`, `excluded` and
-- `affected` are lists of their members.
pub mod Marks
pub mod Targets
use pebs.Base.{
  true, not, none, some, List, [], ◌∷◌, Text, same, leb, if◌then◌else◌, select, contains, each,
  insert_new, sorted, map, amend,
}
use pebs.Store.Rows.{Pointer, Revision, Dep, Store}
use pebs.Store.Artifacts.{revision_for}
use pebs.Store.Closure.{transitive_dependent_revisions}

-- ORDER BY version
unfoldable pub insert_by_version : Revision → List Revision → List Revision
insert_by_version r [] = r ∷ []
insert_by_version r (x ∷ xs) =
    let rest = insert_by_version r xs in if leb r.version x.version then r ∷ x ∷ xs else x ∷ rest

unfoldable pub sort_by_version : List Revision → List Revision
unfolding insert_by_version
sort_by_version [] = []
sort_by_version (r ∷ rs) = insert_by_version r (sort_by_version rs)

unfoldable pub revisions_of : Text → List Revision → List Text
unfolding sort_by_version
revisions_of artifact_id revisions =
    map (λ r. r.revision_id)
      (sort_by_version (select (λ r. same r.artifact_id artifact_id) revisions))

module _ (revisions : List Revision) (deps : List Dep) (changed : List Text) where
  -- The body of the innermost loop.
  unfoldable pub note_revision : Text → List Text → List Text
  note_revision dep_rev affected = elim (revision_for dep_rev revisions) [
    | none ↦ affected
    | some row ↦
        if contains row.artifact_id changed then affected else insert_new row.artifact_id affected
  ]

  unfoldable pub note_dependents : Text → List Text → List Text
  unfolding note_revision
  note_dependents rev_id affected =
      each note_revision (transitive_dependent_revisions (rev_id ∷ []) deps) affected

  unfoldable pub note_artifact : Text → List Text → List Text
  unfolding note_dependents
  note_artifact artifact_id affected =
      each note_dependents (revisions_of artifact_id revisions) affected

unfoldable pub stale_targets : List Text → List Text → Store → List Text
stale_targets changed excluded s = sorted (
    select (λ a. not (contains a excluded))
      (each (note_artifact s.revisions s.deps changed) changed []))

-- `set_stale(artifact_id, True)` for each target
unfoldable pub mark_all : List Text → List Pointer → List Pointer
mark_all [] pointers = pointers
mark_all (a ∷ targets) pointers =
    mark_all targets (amend (λ p. p.artifact_id) a (λ p. record p { stale = true }) pointers)

unfoldable pub mark_dependents_stale : List Text → List Text → Store → List Text × Store
mark_dependents_stale changed excluded s =
    let targets = stale_targets changed excluded s in
    (targets, record s { pointers = mark_all targets s.pointers })
