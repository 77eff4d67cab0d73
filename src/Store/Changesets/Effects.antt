-- ===== src/Store/Changesets/Effects.antt =====
-- What an accepted changeset of pebs/store.py does to the pointers.
use mathlib.Core.Option
use pebs.Base.{
  true, false, not, ◌≡◌, refl, Option, none, some, List, [], ◌∷◌, Text, All, arith, same,
  if◌then◌else◌, contains, each, row_for-amend, contains-sorted, contains-select, ◌∙◌,
}
use pebs.Store.Rows.{Revision, Pointer, Item, Store}
use pebs.Store.Artifacts.{pointer_for, accepted_rev_id, is_stale, has_pointer}
use pebs.Store.Staleness.{mark_dependents_stale, stale_targets, note_artifact}
use pebs.Store.Staleness.Marks.{pointer_for-mark_all}
use pebs.Store.Changesets.{spread_stale, apply_items}
use pebs.Store.Changesets.Guards.{HasRevision}
use pebs.Store.Changesets.Atomic.{after_write, after_item, apply_items-cons, revisions-spread_stale}

-- The revision that the last of the items proposes for an artifact.
unfoldable pub proposed : Text → List Item → Option Text
proposed a [] = none
proposed a (i ∷ items) = elim (proposed a items) [
  | some rev ↦ some rev
  | none ↦ if same i.artifact_id a then some i.revision_id else none
]

abbrev pub accepted_pointer : Item → Pointer → Pointer
accepted_pointer i p = record p { accepted_rev = some i.revision_id; stale = false }

pointer-after_write :
    (a : Text) (i : Item) (r : Revision) (s : Store)
    → pointer_for a (after_write i r s).pointers ≡ (
        if same i.artifact_id a
        then Option.map (accepted_pointer i) (pointer_for a s.pointers)
        else pointer_for a s.pointers)
pointer-after_write a i r s =
    row_for-amend (λ p. p.artifact_id) i.artifact_id a (accepted_pointer i) s.pointers (λ p. refl)

not-stale_targets :
    (a : Text) (changed excluded : List Text) (s : Store)
    → contains a excluded ≡ true
    → contains a (stale_targets changed excluded s) ≡ false
unfolding stale_targets
not-stale_targets a changed excluded s h =
    let found = each (note_artifact s.revisions s.deps changed) changed [] in
    rw (contains-sorted, contains-select a (λ b. not (contains b excluded)) found) (ground arith)

-- Spreading staleness keeps what is accepted, and leaves the artifacts of the changeset alone.
accepted-spread_stale :
    (a : Text) (i : Item) (old : Option Text) (targets marks : List Text) (s : Store)
    → accepted_rev_id a (spread_stale i old targets marks s).1 ≡ accepted_rev_id a s
unfolding spread_stale mark_dependents_stale accepted_rev_id
accepted-spread_stale a i old targets marks s =
    ground (arith, pointer_for-mark_all a (stale_targets (i.artifact_id ∷ []) targets s) s.pointers)

has_pointer-spread_stale :
    (a : Text) (i : Item) (old : Option Text) (targets marks : List Text) (s : Store)
    → has_pointer a (spread_stale i old targets marks s).1.pointers ≡ has_pointer a s.pointers
unfolding spread_stale mark_dependents_stale
has_pointer-spread_stale a i old targets marks s =
    ground (arith, pointer_for-mark_all a (stale_targets (i.artifact_id ∷ []) targets s) s.pointers)

stale-spread_stale :
    (a : Text) (i : Item) (old : Option Text) (targets marks : List Text) (s : Store)
    → contains a targets ≡ true
    → is_stale a (spread_stale i old targets marks s).1 ≡ is_stale a s
unfolding spread_stale mark_dependents_stale is_stale
stale-spread_stale a i old targets marks s h = ground (
  arith,
  pointer_for-mark_all a (stale_targets (i.artifact_id ∷ []) targets s) s.pointers,
  not-stale_targets a (i.artifact_id ∷ []) targets s,
)

module _ (a : Text) (targets marks : List Text) (i : Item) (r : Revision) (s : Store) where
  abbrev next : Store
  next = (after_item targets marks i r s).1

  accepted-after_item : accepted_rev_id a next ≡ (
      if same i.artifact_id a
      then (if has_pointer a s.pointers then some i.revision_id else none)
      else accepted_rev_id a s)
  accepted-after_item =
      accepted-spread_stale a i (accepted_rev_id i.artifact_id s) targets marks (after_write i r s)
      ∙ unfold accepted_rev_id in ground (arith, pointer-after_write a i r s)

  has_pointer-after_item : has_pointer a next.pointers ≡ has_pointer a s.pointers
  has_pointer-after_item =
      has_pointer-spread_stale a i (accepted_rev_id i.artifact_id s) targets marks
        (after_write i r s)
      ∙ ground (arith, pointer-after_write a i r s)

  stale-after_item :
      contains a targets ≡ true
      → is_stale a next ≡ (if same i.artifact_id a then false else is_stale a s)
  stale-after_item h =
      stale-spread_stale a i (accepted_rev_id i.artifact_id s) targets marks (after_write i r s) h
      ∙ unfold is_stale in ground (arith, pointer-after_write a i r s)

-- After the second loop an artifact of the changeset points at the revision that its last item
-- proposes, and every other artifact at what it had.
pub accepted-apply_items :
    (a : Text) (targets : List Text) (items : List Item) (marks : List Text) (s : Store)
    → All (HasRevision s.revisions) items
    → accepted_rev_id a (apply_items targets items marks s).1 ≡ elim (proposed a items) [
      | none ↦ accepted_rev_id a s
      | some rev ↦ if has_pointer a s.pointers then some rev else none
    ]
unfolding apply_items proposed
accepted-apply_items a targets [] marks s h = refl
accepted-apply_items a targets (i ∷ items) marks s h =
    let (r, e) = h.0 in
    let old = accepted_rev_id i.artifact_id s in
    let next = after_item targets marks i r s in
    let later : All (HasRevision next.1.revisions) items =
      rw (revisions-spread_stale i old targets marks (after_write i r s)) h.1 in
    rw (apply_items-cons targets i items marks s r e) (
      ground (
        arith,
        accepted-apply_items a targets items next.0 next.1 later,
        accepted-after_item a targets marks i r s,
        has_pointer-after_item a targets marks i r s,
      ))

-- An artifact of the changeset is not stale after the second loop.
pub stale-apply_items :
    (a : Text) (targets : List Text) (items : List Item) (marks : List Text) (s : Store)
    → All (HasRevision s.revisions) items
    → contains a targets ≡ true
    → is_stale a (apply_items targets items marks s).1
      ≡ elim (proposed a items) [ none ↦ is_stale a s | some rev ↦ false ]
unfolding apply_items proposed
stale-apply_items a targets [] marks s h m = refl
stale-apply_items a targets (i ∷ items) marks s h m =
    let (r, e) = h.0 in
    let old = accepted_rev_id i.artifact_id s in
    let next = after_item targets marks i r s in
    let later : All (HasRevision next.1.revisions) items =
      rw (revisions-spread_stale i old targets marks (after_write i r s)) h.1 in
    rw (apply_items-cons targets i items marks s r e) (
      ground (
        arith,
        stale-apply_items a targets items next.0 next.1 later m,
        stale-after_item a targets marks i r s m,
      ))
