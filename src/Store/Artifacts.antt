-- ===== src/Store/Artifacts.antt =====
-- The artifacts section of pebs/store.py: pointers, revisions and the dependencies of revisions.
pub mod Revisions
use pebs.Base.{
  ℕ, ◌+◌, Bool, true, false, ◌&&◌, Option, none, some, List, [], ◌∷◌, ◌++◌, Text, same,
  if◌then◌else◌, select, any, max_of, map, ref_id, row_for, amend, ok, err, Exec, pure, gets,
  modify, raise_if, ◌>>=◌, ◌>>◌,
}
use pebs.Store.Rows.{
  Pointer, Revision, Dep, Store, StoreError, revision_not_found, artifact_locked, integrity_error,
}

abbrev pub StoreExec : Type 0 → Type 0
StoreExec A = Exec Store StoreError A

abbrev pub pointer_for : Text → List Pointer → Option Pointer
pointer_for = row_for (λ p. p.artifact_id)

abbrev pub revision_for : Text → List Revision → Option Revision
revision_for = row_for (λ r. r.revision_id)

abbrev pub has_pointer : Text → List Pointer → Bool
has_pointer artifact_id pointers = elim (pointer_for artifact_id pointers) [
  | none ↦ false
  | some p ↦ true
]

abbrev pub blank_pointer : Text → Text → Text → Pointer
blank_pointer project_id artifact_id artifact_type = record {
  artifact_id = artifact_id;
  project_id = project_id;
  artifact_type = artifact_type;
  accepted_rev = none;
  stale = false;
  locked = false;
}

-- INSERT OR IGNORE
unfoldable pub ensure_pointer : Text → Text → Text → List Pointer → List Pointer
ensure_pointer project_id artifact_id artifact_type pointers =
    if has_pointer artifact_id pointers
    then pointers
    else pointers ++ blank_pointer project_id artifact_id artifact_type ∷ []

unfoldable pub ensure_artifact : Text → Text → Store → Store
ensure_artifact artifact_id artifact_type s = record s {
  pointers = ensure_pointer s.project_id artifact_id artifact_type s.pointers;
}

unfoldable pub is_locked : Text → Store → Bool
is_locked artifact_id s = elim (pointer_for artifact_id s.pointers) [
  | none ↦ false
  | some p ↦ p.locked
]

unfoldable pub is_stale : Text → Store → Bool
is_stale artifact_id s = elim (pointer_for artifact_id s.pointers) [
  | none ↦ false
  | some p ↦ p.stale
]

unfoldable pub accepted_rev_id : Text → Store → Option Text
accepted_rev_id artifact_id s = elim (pointer_for artifact_id s.pointers) [
  | none ↦ none
  | some p ↦ p.accepted_rev
]

abbrev pub amend_pointer : Text → (Pointer → Pointer) → Store → Store
amend_pointer artifact_id f s = record s {
  pointers = amend (λ p. p.artifact_id) artifact_id f s.pointers;
}

unfoldable pub set_locked : Text → Bool → Store → Store
set_locked artifact_id locked = amend_pointer artifact_id (λ p. record p { locked = locked })

unfoldable pub set_stale : Text → Bool → Store → Store
set_stale artifact_id stale = amend_pointer artifact_id (λ p. record p { stale = stale })

-- SELECT COALESCE(MAX(version), 0) … WHERE artifact_id = ? AND project_id = ?
unfoldable pub max_version : Text → Text → List Revision → ℕ
max_version artifact_id project_id revisions =
    max_of (λ r. r.version)
      (select (λ r. same r.artifact_id artifact_id && same r.project_id project_id) revisions)

-- INSERT OR IGNORE of one row of `deps`
unfoldable pub add_dep : Text → Text → List Dep → List Dep
add_dep downstream upstream deps =
    if any (λ d. same d.downstream_rev downstream && same d.upstream_rev upstream) deps
    then deps
    else deps ++ record { downstream_rev = downstream; upstream_rev = upstream } ∷ []

unfoldable pub add_deps : Text → List Text → List Dep → List Dep
add_deps downstream [] deps = deps
add_deps downstream (u ∷ us) deps = add_deps downstream us (add_dep downstream u deps)

-- The arguments of `add_revision`; `content` is what `canonical_json` prints.
pub record NewRevision : Type 0 where
  pub artifact_id : Text
  pub artifact_type : Text
  pub content : Text
  pub produced_by : Text
  pub run_id : Option Text
  pub rules_version : Option Text
  pub deps : List Text
  pub fixture : Bool
  pub note : Text

pub record RevisionInfo : Type 0 where
  pub revision_id : Text
  pub version : ℕ
  pub content_hash : Text

-- INSERT INTO revisions, which fails where the primary key is taken
unfoldable pub insert_revision : Revision → StoreExec Unit
insert_revision r s = elim (revision_for r.revision_id s.revisions) [
  | some old ↦ (err (integrity_error r.revision_id), s)
  | none ↦ (ok tt, record s { revisions = s.revisions ++ r ∷ [] })
]

abbrev pub new_row : (Text → Text) → ℕ → NewRevision → Store → Revision
new_row sha256 now new s =
    let version = max_version new.artifact_id s.project_id s.revisions + 1 in
    record {
      revision_id = ref_id b'r' new.artifact_id version;
      project_id = s.project_id;
      artifact_id = new.artifact_id;
      artifact_type = new.artifact_type;
      version = version;
      content = new.content;
      content_hash = sha256 new.content;
      produced_by = new.produced_by;
      produced_by_run = new.run_id;
      rules_version = new.rules_version;
      fixture = new.fixture;
      note = new.note;
      created_at = now;
    }

unfoldable pub add_revision : (Text → Text) → ℕ → NewRevision → StoreExec RevisionInfo
add_revision sha256 now new = do
  modify (ensure_artifact new.artifact_id new.artifact_type)
  locked ← gets (is_locked new.artifact_id)
  raise_if locked (artifact_locked new.artifact_id)
  row ← gets (new_row sha256 now new)
  insert_revision row
  modify (λ s. record s { deps = add_deps row.revision_id new.deps s.deps })
  pure (record {
    revision_id = row.revision_id;
    version = row.version;
    content_hash = row.content_hash;
  })

unfoldable pub get_revision : Text → StoreExec Revision
get_revision revision_id s = elim (revision_for revision_id s.revisions) [
  | none ↦ (err (revision_not_found revision_id), s)
  | some r ↦ (ok r, s)
]

unfoldable pub accepted_revision : Text → StoreExec (Option Revision)
unfolding get_revision
accepted_revision artifact_id s = elim (accepted_rev_id artifact_id s) [
  | none ↦ (ok none, s)
  | some [] ↦ (ok none, s)
  | some (c ∷ cs) ↦ (do r ← get_revision (c ∷ cs); pure (some r)) s
]

unfoldable pub set_accepted : Text → Text → StoreExec Unit
set_accepted artifact_id revision_id = do
  rev ← get_revision revision_id
  modify (ensure_artifact artifact_id rev.artifact_type)
  modify
      (amend_pointer artifact_id (λ p. record p { accepted_rev = some revision_id; stale = false }))

unfoldable pub dependents_of_rev : Text → List Dep → List Text
dependents_of_rev revision_id deps =
    map (λ d. d.downstream_rev) (select (λ d. same d.upstream_rev revision_id) deps)

unfoldable pub upstream_revs : Text → List Dep → List Text
upstream_revs revision_id deps =
    map (λ d. d.upstream_rev) (select (λ d. same d.downstream_rev revision_id) deps)
