-- ===== src/Store/Changesets/Guards.antt =====
-- What the first half of `accept_changeset` of pebs/store.py establishes: the reads leave the
-- store as it is, and the first loop passes only over unlocked artifacts at their baseline.
use pebs.Base.{
  ℕ, false, ◌≡◌, refl, some, List, [], ◌∷◌, Text, map, ok, All, arith, Result-cases, inl, inr,
}
use pebs.Store.Rows.{Revision, Changeset, Item, Store}
use pebs.Store.Artifacts.{is_locked, accepted_rev_id, revision_for, get_revision}
use pebs.Store.Changesets.{
  read_revisions, check_items, baseline_get, set_changeset_status, get_changeset, items_of,
  changeset_for,
}

-- A changeset's status is all that differs between the stores.
pub record SameData (s t : Store) : Type 0 where
  pub pointers : t.pointers ≡ s.pointers
  pub revisions : t.revisions ≡ s.revisions
  pub deps : t.deps ≡ s.deps
  pub items : t.items ≡ s.items
  pub files : t.files ≡ s.files

abbrev pub HasRevision : List Revision → Item → Type 0
HasRevision revisions i = (r : Revision) × (revision_for i.revision_id revisions ≡ some r)

pub state-read_revisions : (items : List Item) (s : Store) → (read_revisions items s).1 ≡ s
unfolding read_revisions get_revision
state-read_revisions [] s = refl
state-read_revisions (i ∷ items) s = ground (arith, state-read_revisions items s)

pub read_revisions-ok :
    (items : List Item) (s : Store) (read : List (Item × Revision))
    → (read_revisions items s).0 ≡ ok read
    → (map (λ p. p.0) read ≡ items) × All (HasRevision s.revisions) items
unfolding read_revisions get_revision
read_revisions-ok [] s read h = ground arith
read_revisions-ok (i ∷ items) s read h = elim (Result-cases (read_revisions items s).0) [
  | inl (rest, e) ↦ ground (arith, read_revisions-ok items s rest e)
  | inr (x, e) ↦ ground arith
]

-- The first loop passes: the artifact is unlocked, and still at its baseline.
abbrev pub IsAtBaseline : Changeset → Store → Item → Type 0
IsAtBaseline cs s i =
    (is_locked i.artifact_id s ≡ false)
    × (accepted_rev_id i.artifact_id s ≡ baseline_get i.artifact_id cs.baseline)

pub check_items-SameData :
    (now : ℕ) (cs : Changeset) (items : List Item) (s : Store)
    → SameData s (check_items now cs items s).1
unfolding check_items set_changeset_status
check_items-SameData now cs [] s = ground arith
check_items-SameData now cs (i ∷ items) s = ground (arith, check_items-SameData now cs items s)

pub check_items-ok :
    (now : ℕ) (cs : Changeset) (items : List Item) (s : Store)
    → (check_items now cs items s).0 ≡ ok tt
    → ((check_items now cs items s).1 ≡ s) × All (IsAtBaseline cs s) items
unfolding check_items
check_items-ok now cs [] s h = (refl, tt)
check_items-ok now cs (i ∷ items) s h = ground (arith, check_items-ok now cs items s)

pub state-get_changeset : (changeset_id : Text) (s : Store) → (get_changeset changeset_id s).1 ≡ s
unfolding get_changeset
state-get_changeset changeset_id s =
    ground (arith, state-read_revisions (items_of changeset_id s.items) s)

-- A changeset that is read has a row, and a revision for each of its items.
pub get_changeset-ok :
    (changeset_id : Text) (s : Store) (cs : Changeset) (read : List (Item × Revision))
    → (get_changeset changeset_id s).0 ≡ ok (cs, read)
    → (changeset_for changeset_id s.changesets ≡ some cs)
      × (map (λ p. p.0) read ≡ items_of changeset_id s.items)
      × All (HasRevision s.revisions) (items_of changeset_id s.items)
unfolding get_changeset
get_changeset-ok changeset_id s cs read h =
    elim (Result-cases (read_revisions (items_of changeset_id s.items) s).0) [
      | inl (rest, e) ↦ ground (arith, read_revisions-ok (items_of changeset_id s.items) s rest e)
      | inr (x, e) ↦ ground arith
    ]

read_revisions-total :
    (items : List Item) (s : Store)
    → All (HasRevision s.revisions) items
    → (read : List (Item × Revision)) × ((read_revisions items s).0 ≡ ok read)
unfolding read_revisions get_revision
read_revisions-total [] s h = ([], refl)
read_revisions-total (i ∷ items) s h =
    let (rev, e) = h.0 in
    let (rest, read) = read_revisions-total items s h.1 in
    ((i, rev) ∷ rest, ground (arith, state-read_revisions items s))

-- A changeset with a row and all of its revisions is read.
pub get_changeset-total :
    (changeset_id : Text) (s : Store) (cs : Changeset)
    → changeset_for changeset_id s.changesets ≡ some cs
    → All (HasRevision s.revisions) (items_of changeset_id s.items)
    → (read : List (Item × Revision)) × ((get_changeset changeset_id s).0 ≡ ok (cs, read))
unfolding get_changeset
get_changeset-total changeset_id s cs row known =
    let (read, e) = read_revisions-total (items_of changeset_id s.items) s known in
    (read, ground arith)

pub check_items-total :
    (now : ℕ) (cs : Changeset) (items : List Item) (s : Store)
    → All (IsAtBaseline cs s) items
    → check_items now cs items s ≡ (ok tt, s)
unfolding check_items
check_items-total now cs [] s h = refl
check_items-total now cs (i ∷ items) s h = ground (arith, check_items-total now cs items s)
