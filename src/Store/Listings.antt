-- ===== src/Store/Listings.antt =====
-- The methods of pebs/store.py that list rows. ORDER BY is an insertion sort that keeps the order of
-- rows that compare equal.
pub mod Sorted
use pebs.Base.{
  ℕ, Bool, true, false, not, ◌&&◌, ◌||◌, Option, none, some, List, [], ◌∷◌, ◌++◌, Text, same,
  same_maybe, text_leb, leb, if◌then◌else◌, select, any, map, length, row_for, pure, ◌>>=◌, ok, err,
}
use mathlib.Core.List.{reverse}
use pebs.Store.Rows.{Pointer, Revision, Changeset, ChangesetStatus, Item, Run, Store}
use pebs.Store.Artifacts.{StoreExec, accepted_revision}
use pebs.Store.Runs.{get_run}

unfoldable pub accepted_content : Text → StoreExec (Option Text)
accepted_content artifact_id = do
  rev ← accepted_revision artifact_id
  pure (elim rev [ none ↦ none | some r ↦ some r.content ])

pub record ArtifactRow : Type 0 where
  pub artifact_id : Text
  pub artifact_type : Text
  pub accepted_rev : Option Text
  pub stale : Bool
  pub locked : Bool
  pub revision_count : ℕ

abbrev pub artifact_row : List Revision → Pointer → ArtifactRow
artifact_row revisions p = record {
  artifact_id = p.artifact_id;
  artifact_type = p.artifact_type;
  accepted_rev = p.accepted_rev;
  stale = p.stale;
  locked = p.locked;
  revision_count = length (select (λ (r : Revision). same r.artifact_id p.artifact_id) revisions);
}

-- The order of (artifact_type, artifact_id).
unfoldable pub row_leb : ArtifactRow → ArtifactRow → Bool
row_leb a b =
    if same a.artifact_type b.artifact_type
    then text_leb a.artifact_id b.artifact_id
    else text_leb a.artifact_type b.artifact_type

unfoldable pub insert_by {ℓ} : {A : Type ℓ} → (A → A → Bool) → A → List A → List A
insert_by le a [] = a ∷ []
insert_by le a (x ∷ xs) = let rest = insert_by le a xs in if le a x then a ∷ x ∷ xs else x ∷ rest

unfoldable pub sort_by {ℓ} : {A : Type ℓ} → (A → A → Bool) → List A → List A
unfolding insert_by
sort_by le [] = []
sort_by le (x ∷ xs) = insert_by le x (sort_by le xs)

unfoldable pub list_artifacts : Store → List ArtifactRow
list_artifacts s = sort_by row_leb (
    map (artifact_row s.revisions)
      (select (λ (p : Pointer). same p.project_id s.project_id) s.pointers))

pub record ChangesetRow : Type 0 where
  pub changeset_id : Text
  pub status : ChangesetStatus
  pub reason : Text
  pub created_at : ℕ
  pub decided_at : Option ℕ
  pub item_count : ℕ

abbrev pub changeset_row : List Item → Changeset → ChangesetRow
changeset_row items c = record {
  changeset_id = c.changeset_id;
  status = c.status;
  reason = c.reason;
  created_at = c.created_at;
  decided_at = c.decided_at;
  item_count = length (select (λ (i : Item). same i.changeset_id c.changeset_id) items);
}

-- ORDER BY created_at DESC, rowid DESC
unfoldable pub list_changesets : Store → List ChangesetRow
list_changesets s =
    sort_by (λ (a b : ChangesetRow). leb b.created_at a.created_at)
      (reverse (
        map (changeset_row s.items)
          (select (λ (c : Changeset). same c.project_id s.project_id) s.changesets)))

-- ORDER BY rowid DESC LIMIT 1
unfoldable pub latest_run : Store → Option Run
latest_run s = elim (reverse (select (λ (r : Run). same r.project_id s.project_id) s.runs)) [
  | [] ↦ none
  | r ∷ rest ↦ row_for (λ (q : Run). q.run_id) r.run_id s.runs
]

-- The item's changeset is one of the run.
unfoldable pub is_item_of : Text → List Changeset → Item → Bool
is_item_of run_id changesets i =
    any (λ (c : Changeset). same c.changeset_id i.changeset_id && same_maybe c.run_id (some run_id))
      changesets

unfoldable pub run_changeset_items : Text → Store → List (Text × Text)
run_changeset_items run_id s =
    map (λ (i : Item). (i.revision_id, i.artifact_id))
      (select (is_item_of run_id s.changesets) s.items)
