-- ===== src/Store/Changesets/Atomic.antt =====
-- `accept_changeset` of pebs/store.py is all or nothing.
use pebs.Base.{
  ℕ, false, ◌≡◌, refl, Option, some, List, [], ◌∷◌, Text, map, ok, err, All, arith, ◌>>=◌,
  Result-cases, inl, inr, row_for,
}
use pebs.Store.Rows.{Revision, Changeset, Item, Store, StoreError}
use pebs.Store.Artifacts.{accepted_rev_id, revision_for, get_revision, amend_pointer}
use pebs.Store.Files.{materialize, write_file, file_path}
use pebs.Store.Staleness.{mark_dependents_stale}
use pebs.Store.Changesets.{
  items_of, get_changeset, spread_stale, apply_items, accept_changeset, accept_read,
  apply_and_close,
}
use pebs.Store.Changesets.Guards.{
  SameData, HasRevision, check_items-SameData, check_items-ok, state-get_changeset,
  get_changeset-ok,
}

pub revisions-spread_stale :
    (i : Item) (old : Option Text) (targets marked : List Text) (s : Store)
    → (spread_stale i old targets marked s).1.revisions ≡ s.revisions
unfolding spread_stale mark_dependents_stale
revisions-spread_stale i old targets marked s = ground arith

-- The store after the item is accepted and its file is written.
abbrev pub after_write : Item → Revision → Store → Store
after_write i r s =
    record (amend_pointer i.artifact_id
      (λ p. record p { accepted_rev = some i.revision_id; stale = false }) s) {
        files = write_file (file_path r) r.content s.files;
      }

abbrev pub after_item : List Text → List Text → Item → Revision → Store → List Text × Store
after_item targets marked i r s =
    spread_stale i (accepted_rev_id i.artifact_id s) targets marked (after_write i r s)

pub apply_items-cons :
    (targets : List Text) (i : Item) (items : List Item) (marked : List Text) (s : Store)
    (r : Revision)
    → revision_for i.revision_id s.revisions ≡ some r
    → apply_items targets (i ∷ items) marked s
      ≡ apply_items targets items
          (after_item targets marked i r s).0
          (after_item targets marked i r s).1
unfolding apply_items materialize get_revision row_for spread_stale
apply_items-cons targets i items marked s r e = rw (e, ◌>>=◌)

-- With its revisions in the store, the second loop cannot fail.
pub apply_items-ok :
    (targets : List Text) (items : List Item) (marked : List Text) (s : Store)
    → All (HasRevision s.revisions) items
    → (out : List Text) × ((apply_items targets items marked s).0 ≡ ok out)
unfolding apply_items
apply_items-ok targets [] marked s h = (marked, refl)
apply_items-ok targets (i ∷ items) marked s h =
    let (r, e) = h.0 in
    let next = after_item targets marked i r s in
    rw (apply_items-cons targets i items marked s r e) (
      apply_items-ok targets items next.0 next.1 (
        rw
          (revisions-spread_stale i (accepted_rev_id i.artifact_id s) targets marked
            (after_write i r s))
          h.1))

accept_read-atomic :
    (now : ℕ) (changeset_id : Text) (cs : Changeset) (items : List Item) (s : Store)
    (e : StoreError)
    → All (HasRevision s.revisions) items
    → (accept_read now changeset_id cs items s).0 ≡ err e
    → SameData s (accept_read now changeset_id cs items s).1
unfolding accept_read apply_and_close
accept_read-atomic now changeset_id cs items s e known h =
    let (out, done) = apply_items-ok (map (λ i. i.artifact_id) items) items [] s known in
    ground (arith, check_items-SameData now cs items s, check_items-ok now cs items s)

-- Behind `get_changeset` the method works on the unchanged store.
pub accept_changeset-read :
    (now : ℕ) (changeset_id : Text) (s : Store) (cs : Changeset) (read : List (Item × Revision))
    → (get_changeset changeset_id s).0 ≡ ok (cs, read)
    → accept_changeset now changeset_id s
      ≡ accept_read now changeset_id cs (items_of changeset_id s.items) s
unfolding accept_changeset
accept_changeset-read now changeset_id s cs read h =
    ground (arith, state-get_changeset changeset_id s, get_changeset-ok changeset_id s cs read)

-- A changeset that is not accepted changes no pointer, no revision, no dependency and no file.
pub accept_changeset-atomic :
    (now : ℕ) (changeset_id : Text) (s : Store) (e : StoreError)
    → (accept_changeset now changeset_id s).0 ≡ err e
    → SameData s (accept_changeset now changeset_id s).1
unfolding accept_changeset
accept_changeset-atomic now changeset_id s e h =
    elim (Result-cases (get_changeset changeset_id s).0) [
      | inl ((cs, read), found) ↦
          let (row, same_items, known) = get_changeset-ok changeset_id s cs read found in
          let opened = accept_changeset-read now changeset_id s cs read found in
          rw opened (
            accept_read-atomic now changeset_id cs (items_of changeset_id s.items) s e known
              (rw opened at h))
      | inr (x, failed) ↦ ground (arith, state-get_changeset changeset_id s)
    ]
