-- ===== src/Store/Staleness/Targets.antt =====
-- Which artifacts `mark_dependents_stale` of pebs/store.py marks.
use pebs.Base.{
  true, false, not, ◌≡◌, ◌↔◌, ◌⊎◌, inl, inr, some, List, [], ◌∷◌, Text, arith, contains,
  contains-insert_new, contains-sorted, each, contains-each_iff, contains-select, Bool-cases,
  Option-cases,
}
use pebs.Store.Rows.{Revision, Dep, Store}
use pebs.Store.Artifacts.{is_stale, has_pointer, revision_for}
use pebs.Store.Closure.{transitive_dependent_revisions, Downstream}
use pebs.Store.Closure.Search.{transitive_dependent_revisions_iff}
use pebs.Store.Staleness.{
  revisions_of, note_revision, note_dependents, note_artifact, stale_targets, mark_dependents_stale,
}
use pebs.Store.Staleness.Marks.{pointer_for-mark_all}

module _ (revisions : List Revision) (deps : List Dep) (changed : List Text) (a : Text) where
  -- The revision belongs to the artifact, which is not among the changed ones.
  abbrev BelongsTo : Text → Type 0
  BelongsTo rev =
      (row : Revision) × (revision_for rev revisions ≡ some row)
      × (row.artifact_id ≡ a)
      × (contains a changed ≡ false)

  abbrev FromRevision : Text → Type 0
  FromRevision rev = (down : Text) × Downstream deps (rev ∷ []) down × BelongsTo down

  abbrev FromArtifact : Text → Type 0
  FromArtifact origin =
      (rev : Text) × (contains rev (revisions_of origin revisions) ≡ true) × FromRevision rev

  note_revision_iff :
      (rev : Text) (affected : List Text)
      → (contains a (note_revision revisions deps changed rev affected) ≡ true)
        ↔ ((contains a affected ≡ true) ⊎ BelongsTo rev)
  unfolding note_revision
  note_revision_iff rev affected = elim (Option-cases (revision_for rev revisions)) [
    | inl missing ↦ (
      λ h. inl (ground arith),
      λ h. elim h [ inl old ↦ ground arith | inr (row, e, n, out) ↦ cc ],
    )
    | inr (row, e) ↦
        let adds = contains-insert_new a row.artifact_id affected in
        (
          λ h. elim (Bool-cases (contains a affected)) [
            | inl old ↦ inl old
            | inr new ↦ inr (row, e, ground (arith, adds), ground (arith, adds))
          ],
          λ h. elim h [
            | inl old ↦ ground (arith, adds)
            | inr (row', e', named, outside) ↦ ground (arith, adds)
          ],
        )
  ]

  note_dependents_iff :
      (rev : Text) (affected : List Text)
      → (contains a (note_dependents revisions deps changed rev affected) ≡ true)
        ↔ ((contains a affected ≡ true) ⊎ FromRevision rev)
  unfolding note_dependents
  note_dependents_iff rev affected =
      let loop =
        contains-each_iff BelongsTo a (note_revision revisions deps changed) note_revision_iff
          (transitive_dependent_revisions (rev ∷ []) deps) affected in
      let reaches = transitive_dependent_revisions_iff deps (rev ∷ []) in
      (
        λ h. elim (loop.0 h) [
          | inl old ↦ inl old
          | inr (down, m, b) ↦ inr (down, (reaches down).0 m, b)
        ],
        λ h. elim h [
          | inl old ↦ loop.1 (inl old)
          | inr (down, d, b) ↦ loop.1 (inr (down, (reaches down).1 d, b))
        ],
      )

  note_artifact_iff :
      (origin : Text) (affected : List Text)
      → (contains a (note_artifact revisions deps changed origin affected) ≡ true)
        ↔ ((contains a affected ≡ true) ⊎ FromArtifact origin)
  unfolding note_artifact
  note_artifact_iff origin affected =
      contains-each_iff FromRevision a (note_dependents revisions deps changed) note_dependents_iff
        (revisions_of origin revisions) affected

-- A revision of the artifact is downstream of a revision of a changed artifact, and the artifact
-- is itself neither changed nor excluded.
abbrev pub IsAffected : List Text → List Text → Store → Text → Type 0
IsAffected changed excluded s a =
    (contains a excluded ≡ false)
    × ((origin : Text) × (contains origin changed ≡ true)
        × FromArtifact s.revisions s.deps changed a origin)

pub stale_targets_iff :
    (a : Text) (changed excluded : List Text) (s : Store)
    → (contains a (stale_targets changed excluded s) ≡ true) ↔ IsAffected changed excluded s a
unfolding stale_targets contains
stale_targets_iff a changed excluded s =
    let loop =
      contains-each_iff (FromArtifact s.revisions s.deps changed a) a
        (note_artifact s.revisions s.deps changed) (note_artifact_iff s.revisions s.deps changed a)
        changed [] in
    let found = each (note_artifact s.revisions s.deps changed) changed [] in
    let kept = contains-select a (λ b. not (contains b excluded)) found in
    rw contains-sorted (
      λ h. (
        ground (arith, kept),
        elim (loop.0 (ground (arith, kept))) [ inl none_yet ↦ cc | inr from ↦ from ],
      ),
      λ h. let m = loop.1 (inr h.1) in ground (arith, kept, h.0),
    )

-- After `mark_dependents_stale` exactly those artifacts are stale that were so before, and those
-- with a pointer that are neither excluded nor among the changed ones and of which a revision
-- depends, through one row of `deps` or more, on a revision of a changed artifact.
pub mark_dependents_stale_iff :
    (a : Text) (changed excluded : List Text) (s : Store)
    → (is_stale a (mark_dependents_stale changed excluded s).1 ≡ true) ↔ (
        (is_stale a s ≡ true)
        ⊎ ((has_pointer a s.pointers ≡ true) × IsAffected changed excluded s a))
unfolding mark_dependents_stale is_stale
mark_dependents_stale_iff a changed excluded s =
    let marks = pointer_for-mark_all a (stale_targets changed excluded s) s.pointers in
    let targets = stale_targets_iff a changed excluded s in
    (
      λ h. elim (Bool-cases (contains a (stale_targets changed excluded s))) [
        | inl hit ↦ inr (ground (arith, marks), targets.0 hit)
        | inr miss ↦ inl (ground (arith, marks))
      ],
      λ h. elim h [
        | inl old ↦ ground (arith, marks)
        | inr (there, affected) ↦ let hit = targets.1 affected in ground (arith, marks)
      ],
    )
