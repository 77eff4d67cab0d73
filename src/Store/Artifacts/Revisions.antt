-- ===== src/Store/Artifacts/Revisions.antt =====
-- `add_revision` of pebs/store.py: fresh identifiers, and what a new revision leaves alone.
use pebs.Base.{
  Distinct, Distinct-snoc, map-snoc, ℕ, ◌+◌, ◌<◌, true, false, ◌≡◌, refl, none, some, List, [], ◌∷◌,
  ◌++◌, Text, map, ok, err, All, arith, same, if◌then◌else◌, row_for, row_for-append, ref_id,
  ref_id_injective, contains, select, max_of, All-append,
}
use pebs.Store.Rows.{Revision, Pointer, Store, artifact_locked}
use pebs.Store.Artifacts.{
  accepted_rev_id, is_locked, pointer_for, revision_for, max_version, ensure_pointer,
  ensure_artifact, new_row, add_deps, insert_revision, add_revision, NewRevision, RevisionInfo,
  blank_pointer,
}

-- The revision's identifier is made of its artifact and version.
abbrev pub IsNamed : Text → Revision → Type 0
IsNamed project_id r =
    (r.revision_id ≡ ref_id b'r' r.artifact_id r.version) × (r.project_id ≡ project_id)

pub record IsWellFormed (s : Store) : Type 0 where
  pub named : All (IsNamed s.project_id) s.revisions
  pub distinct : Distinct (map (λ r. r.revision_id) s.revisions)

-- No row has the identifier of a version above all versions of the artifact.
fresh_id :
    (project_id a : Text) (n : ℕ) (rows : List Revision)
    → All (IsNamed project_id) rows
    → max_version a project_id rows < n
    → contains (ref_id b'r' a n) (map (λ r. r.revision_id) rows) ≡ false
unfolding max_version max_of select contains
fresh_id project_id a n [] h k = refl
fresh_id project_id a n (r ∷ rows) h k =
    ground (arith, fresh_id project_id a n rows, ref_id_injective b'r' a r.artifact_id n r.version)

revision_for-none :
    (id : Text) (rows : List Revision)
    → contains id (map (λ r. r.revision_id) rows) ≡ false
    → revision_for id rows ≡ none
unfolding row_for contains
revision_for-none id [] h = refl
revision_for-none id (r ∷ rows) h = ground (arith, revision_for-none id rows)

-- Writing to a locked artifact is refused, and changes nothing.
add_revision-locked :
    (sha256 : Text → Text) (now : ℕ) (new : NewRevision) (s : Store)
    → is_locked new.artifact_id s ≡ true
    → add_revision sha256 now new s ≡ (err (artifact_locked new.artifact_id), s)
unfolding add_revision ensure_artifact ensure_pointer is_locked
add_revision-locked sha256 now new s h = ground arith

pub pointer-ensure_pointer :
    (project_id a b ty : Text) (pointers : List Pointer)
    → pointer_for b (ensure_pointer project_id a ty pointers) ≡ elim (pointer_for b pointers) [
      | some p ↦ some p
      | none ↦ if same a b then some (blank_pointer project_id a ty) else none
    ]
unfolding ensure_pointer row_for
pointer-ensure_pointer project_id a b ty pointers =
    ground
      (arith, row_for-append (λ p. p.artifact_id) b pointers (blank_pointer project_id a ty ∷ []))

-- What a store `t` holds after a new revision was written to `s`.
pub record IsWritten (sha256 : Text → Text) (new : NewRevision) (s t : Store) (info : RevisionInfo)
    : Type 0 where
  pub above : info.version ≡ max_version new.artifact_id s.project_id s.revisions + 1
  pub readable :
      (row : Revision) × (revision_for info.revision_id t.revisions ≡ some row)
      × (row.content ≡ new.content)
      × (row.content_hash ≡ sha256 new.content)
      × (t.revisions ≡ s.revisions ++ row ∷ [])
  pub unapproved : (b : Text) → accepted_rev_id b t ≡ accepted_rev_id b s
  pub well_formed : IsWellFormed t

module _ (sha256 : Text → Text) (now : ℕ) (new : NewRevision) (s : Store) where
  abbrev row : Revision
  row = new_row sha256 now new s

  abbrev info : RevisionInfo
  info = record {
    revision_id = row.revision_id;
    version = row.version;
    content_hash = row.content_hash;
  }

  abbrev written : Store
  written = record s {
    pointers = ensure_pointer s.project_id new.artifact_id new.artifact_type s.pointers;
    revisions = s.revisions ++ row ∷ [];
    deps = add_deps row.revision_id new.deps s.deps;
  }

  module _ (w : IsWellFormed s) where
    row-fresh : contains row.revision_id (map (λ r. r.revision_id) s.revisions) ≡ false
    row-fresh = fresh_id s.project_id new.artifact_id row.version s.revisions w.named (omega arith)

    add_revision-writes :
        is_locked new.artifact_id s ≡ false → add_revision sha256 now new s ≡ (ok info, written)
    unfolding add_revision insert_revision ensure_artifact is_locked
    add_revision-writes h = ground (
      arith,
      revision_for-none row.revision_id s.revisions row-fresh,
      pointer-ensure_pointer s.project_id new.artifact_id new.artifact_id new.artifact_type
          s.pointers,
    )

    written-IsWritten : IsWritten sha256 new s written info
    unfolding accepted_rev_id row_for
    written-IsWritten = record {
      above = refl;
      readable = (
        row,
        ground (
          arith,
          row_for-append (λ r. r.revision_id) row.revision_id s.revisions (row ∷ []),
          revision_for-none row.revision_id s.revisions row-fresh,
        ),
        refl,
        refl,
        refl,
      );
      unapproved = λ b. ground (
        arith,
        pointer-ensure_pointer s.project_id new.artifact_id b new.artifact_type s.pointers,
      );
      well_formed = record {
        named = All-append (IsNamed s.project_id) s.revisions (row ∷ []) w.named ((refl, refl), tt);
        distinct =
            rw (map-snoc (λ (r : Revision). r.revision_id) row s.revisions)
              (Distinct-snoc row.revision_id _ w.distinct row-fresh);
      };
    }

-- Writing to an unlocked artifact of a well-formed store succeeds: the version is one above the
-- artifact's greatest, the revision can be read back with its content and hash, all earlier rows
-- stay, no artifact points elsewhere than before, and the store stays well-formed.
pub add_revision-unlocked :
    (sha256 : Text → Text) (now : ℕ) (new : NewRevision) (s : Store)
    → IsWellFormed s
    → is_locked new.artifact_id s ≡ false
    → (info : RevisionInfo) × ((add_revision sha256 now new s).0 ≡ ok info)
      × IsWritten sha256 new s (add_revision sha256 now new s).1 info
add_revision-unlocked sha256 now new s w h =
    let writes = add_revision-writes sha256 now new s w h in
    (info sha256 now new s, rw writes, rw writes (written-IsWritten sha256 now new s w))
