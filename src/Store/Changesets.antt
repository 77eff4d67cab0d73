-- ===== src/Store/Changesets.antt =====
-- The changesets section of pebs/store.py. Identifiers that `uuid4` draws are arguments.
pub mod Guards
pub mod Atomic
pub mod Effects
pub mod Accept
use pebs.Base.{
  ℕ, Bool, true, false, not, ◌&&◌, Option, none, some, List, [], ◌∷◌, ◌++◌, Text, same, same_maybe,
  if◌then◌else◌, select, any, union, sorted, map, row_for, amend, ok, err, pure, raise, gets,
  modify, raise_if, ◌>>=◌, ◌>>◌,
}
use pebs.Store.Rows.{
  Revision, Baseline, Changeset, ChangesetStatus, candidate, conflict, accepted, rejected, Item,
  Store, changeset_not_found, artifact_locked, not_candidate, changeset_empty, baseline_conflict,
  integrity_error,
}
use pebs.Store.Artifacts.{StoreExec, is_locked, accepted_rev_id, amend_pointer, get_revision}
use pebs.Store.Staleness.{mark_dependents_stale}
use pebs.Store.Files.{materialize}

abbrev pub changeset_for : Text → List Changeset → Option Changeset
changeset_for = row_for (λ c. c.changeset_id)

-- `baseline.get(artifact_id)`
unfoldable pub baseline_get : Text → Baseline → Option Text
baseline_get artifact_id [] = none
baseline_get artifact_id ((a, rev) ∷ rest) =
    if same a artifact_id then rev else baseline_get artifact_id rest

unfoldable pub current_baseline : Store → Baseline
current_baseline s =
    map (λ p. (p.artifact_id, p.accepted_rev))
      (select (λ p. same p.project_id s.project_id) s.pointers)

unfoldable pub create_changeset : Text → ℕ → Option Text → Text → Baseline → StoreExec Text
create_changeset fresh now run_id reason baseline s = elim (changeset_for fresh s.changesets) [
  | some old ↦ (err (integrity_error fresh), s)
  | none ↦ (
    ok fresh,
    record s {
      changesets =
          s.changesets
          ++ record {
            changeset_id = fresh;
            project_id = s.project_id;
            run_id = run_id;
            reason = reason;
            status = candidate;
            baseline = baseline;
            created_at = now;
            decided_at = none;
          }
            ∷ [];
    },
  )
]

-- INSERT OR IGNORE, with the primary key (changeset_id, revision_id)
unfoldable pub insert_item : Item → List Item → List Item
insert_item item items =
    if any (λ i. same i.changeset_id item.changeset_id && same i.revision_id item.revision_id) items
    then items
    else items ++ item ∷ []

unfoldable pub add_changeset_item : Text → Text → Text → StoreExec Unit
add_changeset_item changeset_id revision_id artifact_id = do
  locked ← gets (is_locked artifact_id)
  raise_if locked (artifact_locked artifact_id)
  modify (λ s. record s {
    items =
        insert_item
          (record {
            changeset_id = changeset_id;
            revision_id = revision_id;
            artifact_id = artifact_id;
          })
          s.items;
  })

abbrev pub items_of : Text → List Item → List Item
items_of changeset_id = select (λ i. same i.changeset_id changeset_id)

-- `item["revision"] = self.get_revision(…)` for each item
unfoldable pub read_revisions : List Item → StoreExec (List (Item × Revision))
read_revisions [] = pure []
read_revisions (i ∷ is) = do
  rev ← get_revision i.revision_id
  rest ← read_revisions is
  pure ((i, rev) ∷ rest)

unfoldable pub get_changeset : Text → StoreExec (Changeset × List (Item × Revision))
unfolding read_revisions get_revision
get_changeset changeset_id s = elim (changeset_for changeset_id s.changesets) [
  | none ↦ (err (changeset_not_found changeset_id), s)
  | some cs ↦ (do items ← read_revisions (items_of changeset_id s.items); pure (cs, items)) s
]

unfoldable pub set_changeset_status : ℕ → Text → ChangesetStatus → Store → Store
set_changeset_status now changeset_id status s = record s {
  changesets =
      amend (λ c. c.changeset_id) changeset_id
        (λ c. record c { status = status; decided_at = some now }) s.changesets;
}

abbrev pub is_candidate : ChangesetStatus → Bool
is_candidate candidate = true
is_candidate _ = false

abbrev pub truthy : Option Text → Bool
truthy none = false
truthy (some []) = false
truthy (some (c ∷ cs)) = true

-- The first loop of `accept_changeset`.
unfoldable pub check_items : ℕ → Changeset → List Item → StoreExec Unit
check_items now cs [] = pure tt
check_items now cs (i ∷ is) = do
  locked ← gets (is_locked i.artifact_id)
  raise_if locked (artifact_locked i.artifact_id)
  current ← gets (accepted_rev_id i.artifact_id)
  let expected = baseline_get i.artifact_id cs.baseline
  if same_maybe current expected then check_items now cs is else do
    modify (set_changeset_status now cs.changeset_id conflict)
    raise (baseline_conflict i.artifact_id current expected)

-- The last lines of the second loop: what depended on the replaced revision becomes stale.
unfoldable pub spread_stale : Item → Option Text → List Text → List Text → Store → List Text × Store
spread_stale i old targets marked s =
    if truthy old && not (same_maybe old (some i.revision_id))
    then (let (more, s') = mark_dependents_stale (i.artifact_id ∷ []) targets s in
        (union more marked, s'))
    else (marked, s)

-- The second loop of `accept_changeset`.
unfoldable pub apply_items : List Text → List Item → List Text → StoreExec (List Text)
apply_items targets [] marked = pure marked
apply_items targets (i ∷ is) marked = do
  old ← gets (accepted_rev_id i.artifact_id)
  modify (
      amend_pointer i.artifact_id
        (λ p. record p { accepted_rev = some i.revision_id; stale = false }))
  materialize i.revision_id
  marked' ← λ s. (let (m, s') = spread_stale i old targets marked s in (ok m, s'))
  apply_items targets is marked'

-- The second loop and the lines after it.
unfoldable pub apply_and_close : ℕ → Text → List Item → StoreExec (List Text)
apply_and_close now changeset_id items = do
  stale ← apply_items (map (λ i. i.artifact_id) items) items []
  modify (set_changeset_status now changeset_id accepted)
  pure (sorted stale)

-- `accept_changeset` after its call of `get_changeset`.
unfoldable pub accept_read : ℕ → Text → Changeset → List Item → StoreExec (List Text)
accept_read now changeset_id cs items = do
  raise_if (not (is_candidate cs.status)) (not_candidate changeset_id cs.status)
  raise_if (elim items [ [] ↦ true | _ ∷ _ ↦ false ]) (changeset_empty changeset_id)
  check_items now cs items
  apply_and_close now changeset_id items

unfoldable pub accept_changeset : ℕ → Text → StoreExec (List Text)
accept_changeset now changeset_id = do
  (cs, read) ← get_changeset changeset_id
  accept_read now changeset_id cs (map (λ p. p.0) read)

unfoldable pub reject_changeset : ℕ → Text → StoreExec Unit
reject_changeset now changeset_id = do
  (cs, read) ← get_changeset changeset_id
  raise_if (not (is_candidate cs.status)) (not_candidate changeset_id cs.status)
  modify (set_changeset_status now changeset_id rejected)
