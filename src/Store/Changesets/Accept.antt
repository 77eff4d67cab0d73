-- ===== src/Store/Changesets/Accept.antt =====
-- When `accept_changeset` of pebs/store.py succeeds, and what it has then done.
use mathlib.Core.Option
use pebs.Base.{
  ℕ, true, false, ◌≡◌, ◌≢◌, refl, Option, none, some, List, [], ◌∷◌, Text, map, Result, ok, err,
  All, arith, sorted, if◌then◌else◌, row_for-amend, Result-cases, Option-cases, inl, inr, contains,
}
use pebs.Store.Rows.{Changeset, Item, Store, StoreError, candidate, accepted}
use pebs.Store.Artifacts.{accepted_rev_id, is_stale, has_pointer}
use pebs.Store.Staleness.{mark_dependents_stale}
use pebs.Store.Changesets.{
  changeset_for, items_of, get_changeset, set_changeset_status, spread_stale, apply_items,
  accept_changeset, accept_read, apply_and_close,
}
use pebs.Store.Changesets.Guards.{
  HasRevision, IsAtBaseline, get_changeset-ok, check_items-ok, get_changeset-total,
  check_items-total,
}
use pebs.Store.Changesets.Atomic.{
  after_write, after_item, apply_items-cons, apply_items-ok, accept_changeset-read,
  revisions-spread_stale,
}
use pebs.Store.Changesets.Effects.{proposed, accepted-apply_items, stale-apply_items}

changesets-spread_stale :
    (i : Item) (old : Option Text) (targets marks : List Text) (s : Store)
    → (spread_stale i old targets marks s).1.changesets ≡ s.changesets
unfolding spread_stale mark_dependents_stale
changesets-spread_stale i old targets marks s = ground arith

changesets-apply_items :
    (targets : List Text) (items : List Item) (marks : List Text) (s : Store)
    → All (HasRevision s.revisions) items
    → (apply_items targets items marks s).1.changesets ≡ s.changesets
unfolding apply_items
changesets-apply_items targets [] marks s h = refl
changesets-apply_items targets (i ∷ items) marks s h =
    let (r, e) = h.0 in
    let old = accepted_rev_id i.artifact_id s in
    let next = after_item targets marks i r s in
    let later : All (HasRevision next.1.revisions) items =
      rw (revisions-spread_stale i old targets marks (after_write i r s)) h.1 in
    rw (apply_items-cons targets i items marks s r e) (
      ground (
        arith,
        changesets-apply_items targets items next.0 next.1 later,
        changesets-spread_stale i old targets marks (after_write i r s),
      ))

-- What a changeset must meet to be accepted.
pub record IsAcceptable (s : Store) (changeset_id : Text) (cs : Changeset) : Type 0 where
  pub row : changeset_for changeset_id s.changesets ≡ some cs
  pub open_still : cs.status ≡ candidate
  pub some_items : items_of changeset_id s.items ≢ []
  pub revisions_known : All (HasRevision s.revisions) (items_of changeset_id s.items)
  pub at_baseline : All (IsAtBaseline cs s) (items_of changeset_id s.items)

abbrev applied : Text → Store → Result StoreError (List Text) × Store
applied changeset_id s =
    let items = items_of changeset_id s.items in
    apply_items (map (λ i. i.artifact_id) items) items [] s

accept_read-ok :
    (now : ℕ) (changeset_id : Text) (cs : Changeset) (items : List Item) (s : Store)
    (stale : List Text)
    → (accept_read now changeset_id cs items s).0 ≡ ok stale
    → (cs.status ≡ candidate)
      × (items ≢ [])
      × All (IsAtBaseline cs s) items
      × ((accept_read now changeset_id cs items s).1
          ≡ set_changeset_status now changeset_id accepted
              (apply_items (map (λ i. i.artifact_id) items) items [] s).1)
unfolding accept_read apply_and_close
accept_read-ok now changeset_id cs items s stale h = ground (arith, check_items-ok now cs items s)

-- The pointers and the status after a changeset is accepted.
pub record IsAccepted (s t : Store) (changeset_id : Text) : Type 0 where
  pub points :
      (a : Text)
      → accepted_rev_id a t ≡ elim (proposed a (items_of changeset_id s.items)) [
        | none ↦ accepted_rev_id a s
        | some rev ↦ if has_pointer a s.pointers then some rev else none
      ]
  pub fresh :
      (a : Text)
      → contains a (map (λ i. i.artifact_id) (items_of changeset_id s.items)) ≡ true
      → is_stale a t ≡ false
  pub closed : Option.map (λ c. c.status) (changeset_for changeset_id t.changesets) ≡ some accepted

proposed-of_contains :
    (a : Text) (items : List Item)
    → contains a (map (λ i. i.artifact_id) items) ≡ true
    → (rev : Text) × (proposed a items ≡ some rev)
unfolding contains proposed
proposed-of_contains a [] h = cc
proposed-of_contains a (i ∷ items) h = elim (Option-cases (proposed a items)) [
  | inl missing ↦
      (i.revision_id, rw (missing, proposed) (ground (arith, proposed-of_contains a items)))
  | inr (rev, later) ↦ (rev, rw (later, proposed))
]

accepted-status :
    (now : ℕ) (changeset_id : Text) (cs : Changeset) (t : Store)
    → changeset_for changeset_id t.changesets ≡ some cs
    → Option.map
        (λ c. c.status)
        (changeset_for changeset_id (set_changeset_status now changeset_id accepted t).changesets)
      ≡ some accepted
unfolding set_changeset_status
accepted-status now changeset_id cs t h = ground (
  arith,
  row_for-amend (λ c. c.changeset_id) changeset_id changeset_id
      (λ c. record c { status = accepted; decided_at = some now }) t.changesets (λ c. refl),
)

applied-IsAccepted :
    (now : ℕ) (changeset_id : Text) (cs : Changeset) (s : Store)
    → changeset_for changeset_id s.changesets ≡ some cs
    → All (HasRevision s.revisions) (items_of changeset_id s.items)
    → IsAccepted s
        (set_changeset_status now changeset_id accepted (applied changeset_id s).1)
        changeset_id
applied-IsAccepted now changeset_id cs s row known =
    let items = items_of changeset_id s.items in
    let targets = map (λ i. i.artifact_id) items in
    record {
      points = λ a.
          unfold set_changeset_status accepted_rev_id in
          accepted-apply_items a targets items [] s known;
      fresh = λ a m.
          let (rev, e) = proposed-of_contains a items m in
          unfold set_changeset_status is_stale in
          ground (arith, stale-apply_items a targets items [] s known m);
      closed =
          accepted-status now changeset_id cs (applied changeset_id s).1
            (rw (changesets-apply_items targets items [] s known) row);
    }

pub accept_changeset-unread :
    (now : ℕ) (changeset_id : Text) (s : Store) (x : StoreError)
    → (get_changeset changeset_id s).0 ≡ err x
    → (accept_changeset now changeset_id s).0 ≡ err x
unfolding accept_changeset
accept_changeset-unread now changeset_id s x h = ground arith

-- A changeset is accepted only if it is a candidate, has items, and all of them are unlocked and
-- at their baseline. Each artifact of it that has a pointer then points at what its last item
-- proposes, and none of it is stale; every other artifact points where it did, and the changeset
-- is closed.
pub accept_changeset-ok :
    (now : ℕ) (changeset_id : Text) (s : Store) (stale : List Text)
    → (accept_changeset now changeset_id s).0 ≡ ok stale
    → ((cs : Changeset) × IsAcceptable s changeset_id cs)
      × IsAccepted s (accept_changeset now changeset_id s).1 changeset_id
accept_changeset-ok now changeset_id s stale h =
    elim (Result-cases (get_changeset changeset_id s).0) [
      | inl ((cs, read), found) ↦
          let (row, same_items, known) = get_changeset-ok changeset_id s cs read found in
          let opened = accept_changeset-read now changeset_id s cs read found in
          let (open_still, some_items, at_baseline, after) =
            accept_read-ok now changeset_id cs (items_of changeset_id s.items) s stale
              (rw opened at h) in
          (
            (
              cs,
              record {
                row = row;
                open_still = open_still;
                some_items = some_items;
                revisions_known = known;
                at_baseline = at_baseline;
              },
            ),
            rw (opened, after) (applied-IsAccepted now changeset_id cs s row known),
          )
      | inr (x, failed) ↦ ground (arith, accept_changeset-unread now changeset_id s x failed)
    ]

accept_read-total :
    (now : ℕ) (changeset_id : Text) (cs : Changeset) (i : Item) (items : List Item) (s : Store)
    → cs.status ≡ candidate
    → All (HasRevision s.revisions) (i ∷ items)
    → All (IsAtBaseline cs s) (i ∷ items)
    → (stale : List Text) × ((accept_read now changeset_id cs (i ∷ items) s).0 ≡ ok stale)
unfolding accept_read apply_and_close
accept_read-total now changeset_id cs i items s open_still known fits =
    let all_items = i ∷ items in
    let (out, done) = apply_items-ok (map (λ j. j.artifact_id) all_items) all_items [] s known in
    (sorted out, ground (arith, check_items-total now cs all_items s fits))

-- A changeset that is a candidate, has items, all of them with known revisions, unlocked and at
-- their baseline, is accepted: no error can arise half way.
pub accept_changeset-total :
    (now : ℕ) (changeset_id : Text) (s : Store) (cs : Changeset)
    → IsAcceptable s changeset_id cs
    → (stale : List Text) × ((accept_changeset now changeset_id s).0 ≡ ok stale)
accept_changeset-total now changeset_id s cs h =
    let (read, found) = get_changeset-total changeset_id s cs h.row h.revisions_known in
    rw (accept_changeset-read now changeset_id s cs read found)
      (go (items_of changeset_id s.items) h.some_items h.revisions_known h.at_baseline)
  where
    go :
        (items : List Item)
        → items ≢ []
        → All (HasRevision s.revisions) items
        → All (IsAtBaseline cs s) items
        → (stale : List Text) × ((accept_read now changeset_id cs items s).0 ≡ ok stale)
    go [] filled known fits = absurd (filled refl)
    go (i ∷ items) filled known fits =
        accept_read-total now changeset_id cs i items s h.open_still known fits
