-- ===== src/Agents/Writes.antt =====
-- What the writes behind `emit` of pebs/pipeline.py, the only ones that an agent can cause, change in
-- the store.
use pebs.Base.{
  any, ◌&&◌, same, Some, All-map, ℕ, Bool, true, ◌≡◌, refl, sym, ◌∙◌, subst, List, [], ◌∷◌, ◌++◌,
  Text, arith, All, All-append, append-nil, append_assoc, Bool-cases, Result-cases, Option-cases,
  inl, inr,
}
use pebs.Store.Rows.{Dep, Item, Revision, Store}
use pebs.Store.Artifacts.{
  add_dep, NewRevision, accepted_rev_id, revision_for, is_locked, ensure_artifact, insert_revision,
  add_revision, new_row, add_deps,
}
use pebs.Store.Artifacts.Revisions.{pointer-ensure_pointer}
use pebs.Store.Changesets.{add_changeset_item, insert_item}
use pebs.Hooks.{after_artifact_write}
use pebs.Pipeline.{Context, Emission, emit, new_revision}

-- From the first store to the second, for a run that writes into the changeset: rows of revisions are
-- added, all of types that satisfy `p`; rows of `deps`, each for one of the revisions added; and items
-- of this changeset. No artifact points elsewhere, and files, changesets, runs and steps are the same.
pub record Confined (p : Text → Bool) (changeset_id : Text) (s t : Store) : Type 0 where
  pub added : List Revision
  pub grows : t.revisions ≡ s.revisions ++ added
  pub declared : All (λ (r : Revision). p r.artifact_type ≡ true) added
  pub new_deps : List Dep
  pub grows_deps : t.deps ≡ s.deps ++ new_deps
  pub own_deps :
      All (λ (d : Dep). Some (λ (r : Revision). r.revision_id ≡ d.downstream_rev) added) new_deps
  pub new_items : List Item
  pub grows_items : t.items ≡ s.items ++ new_items
  pub own_items : All (λ (i : Item). i.changeset_id ≡ changeset_id) new_items
  pub unpublished : (a : Text) → accepted_rev_id a t ≡ accepted_rev_id a s
  pub same_files : t.files ≡ s.files
  pub same_changesets : t.changesets ≡ s.changesets
  pub same_runs : t.runs ≡ s.runs
  pub same_steps : t.steps ≡ s.steps

Some-left : {A : Type 0} (P : A → Type 0) (xs ys : List A) → Some P xs → Some P (xs ++ ys)
Some-left P [] ys m = absurd m
Some-left P (x ∷ xs) ys (inl m) = inl m
Some-left P (x ∷ xs) ys (inr m) = inr (Some-left P xs ys m)

Some-right : {A : Type 0} (P : A → Type 0) (xs ys : List A) → Some P ys → Some P (xs ++ ys)
Some-right P [] ys m = m
Some-right P (x ∷ xs) ys m = inr (Some-right P xs ys m)

-- The rows that `add_deps` adds are those of the revision.
add_deps-own :
    (id : Text) (us : List Text) (deps : List Dep)
    → (more : List Dep) × (add_deps id us deps ≡ deps ++ more)
      × All (λ (d : Dep). d.downstream_rev ≡ id) more
unfolding add_deps add_dep
add_deps-own id [] deps = ([], sym (append-nil deps), tt)
add_deps-own id (u ∷ us) deps =
    let (more, e, own) = add_deps-own id us (add_dep id u deps) in
    elim (Bool-cases (any (λ (d : Dep). same d.downstream_rev id && same d.upstream_rev u) deps)) [
      | inl there ↦ (more, ground (arith, e), own)
      | inr fresh ↦
          let d : Dep = record { downstream_rev = id; upstream_rev = u } in
          (d ∷ more, ground (arith, e, append_assoc deps (d ∷ []) more), (refl, own))
    ]

module _ (p : Text → Bool) (c : Text) where
  -- Nothing is added.
  still :
      (s t : Store)
      → t.revisions ≡ s.revisions
      → t.deps ≡ s.deps
      → t.items ≡ s.items
      → ((a : Text) → accepted_rev_id a t ≡ accepted_rev_id a s)
      → t.files ≡ s.files
      → t.changesets ≡ s.changesets
      → t.runs ≡ s.runs
      → t.steps ≡ s.steps
      → Confined p c s t
  still s t rs ds is ps fs cs us ss = record {
    added = [];
    grows = rs ∙ sym (append-nil s.revisions);
    declared = tt;
    new_deps = [];
    grows_deps = ds ∙ sym (append-nil s.deps);
    own_deps = tt;
    new_items = [];
    grows_items = is ∙ sym (append-nil s.items);
    own_items = tt;
    unpublished = ps;
    same_files = fs;
    same_changesets = cs;
    same_runs = us;
    same_steps = ss;
  }

  pub Confined-refl : (s : Store) → Confined p c s s
  Confined-refl s = still s s refl refl refl (λ a. refl) refl refl refl refl

  pub Confined-trans : (s t u : Store) → Confined p c s t → Confined p c t u → Confined p c s u
  Confined-trans s t u a b = record {
    added = a.added ++ b.added;
    grows = b.grows ∙ (rw a.grows (append_assoc s.revisions a.added b.added));
    declared = All-append _ a.added b.added a.declared b.declared;
    new_deps = a.new_deps ++ b.new_deps;
    grows_deps = b.grows_deps ∙ (rw a.grows_deps (append_assoc s.deps a.new_deps b.new_deps));
    own_deps =
        All-append _ a.new_deps b.new_deps
          (All-map a.new_deps (λ d. Some-left _ a.added b.added) a.own_deps)
          (All-map b.new_deps (λ d. Some-right _ a.added b.added) b.own_deps);
    new_items = a.new_items ++ b.new_items;
    grows_items = b.grows_items ∙ (rw a.grows_items (append_assoc s.items a.new_items b.new_items));
    own_items = All-append _ a.new_items b.new_items a.own_items b.own_items;
    unpublished = λ x. b.unpublished x ∙ a.unpublished x;
    same_files = b.same_files ∙ a.same_files;
    same_changesets = b.same_changesets ∙ a.same_changesets;
    same_runs = b.same_runs ∙ a.same_runs;
    same_steps = b.same_steps ∙ a.same_steps;
  }

  ensure_artifact-Confined : (a t : Text) (s : Store) → Confined p c s (ensure_artifact a t s)
  unfolding ensure_artifact accepted_rev_id
  ensure_artifact-Confined a t s =
      still s (ensure_artifact a t s) refl refl refl
        (λ b. ground (arith, pointer-ensure_pointer s.project_id a b t s.pointers)) refl refl refl
        refl

  insert-Confined :
      (s : Store) (row : Revision) (us : List Text)
      → p row.artifact_type ≡ true
      → Confined p c s (record s {
        revisions = s.revisions ++ row ∷ [];
        deps = add_deps row.revision_id us s.deps;
      })
  unfolding accepted_rev_id
  insert-Confined s row us h =
      let (more, e, own) = add_deps-own row.revision_id us s.deps in
      record {
        added = row ∷ [];
        grows = refl;
        declared = (h, tt);
        new_deps = more;
        grows_deps = e;
        own_deps = All-map more (λ d k. inl (sym k)) own;
        new_items = [];
        grows_items = sym (append-nil s.items);
        own_items = tt;
        unpublished = λ a. refl;
        same_files = refl;
        same_changesets = refl;
        same_runs = refl;
        same_steps = refl;
      }

  item-Confined :
      (s : Store) (i : Item)
      → i.changeset_id ≡ c
      → Confined p c s (record s { items = insert_item i s.items })
  unfolding accepted_rev_id insert_item
  item-Confined s i e =
      elim (Bool-cases (
        any (λ (j : Item). same j.changeset_id i.changeset_id && same j.revision_id i.revision_id)
          s.items)) [
            | inl there ↦
                still s (record s { items = insert_item i s.items }) refl refl (ground arith)
                  (λ a. refl) refl refl refl refl
            | inr fresh ↦ record {
              added = [];
              grows = sym (append-nil s.revisions);
              declared = tt;
              new_deps = [];
              grows_deps = sym (append-nil s.deps);
              own_deps = tt;
              new_items = i ∷ [];
              grows_items = ground arith;
              own_items = (e, tt);
              unpublished = λ a. refl;
              same_files = refl;
              same_changesets = refl;
              same_runs = refl;
              same_steps = refl;
            }
          ]

  add_revision-Confined :
      (sha256 : Text → Text) (now : ℕ) (new : NewRevision) (s : Store)
      → p new.artifact_type ≡ true
      → Confined p c s (add_revision sha256 now new s).1
  unfolding add_revision insert_revision
  add_revision-Confined sha256 now new s h =
      let s1 = ensure_artifact new.artifact_id new.artifact_type s in
      let row = new_row sha256 now new s1 in
      let first = ensure_artifact-Confined new.artifact_id new.artifact_type s in
      elim (Bool-cases (is_locked new.artifact_id s1)) [
        | inl locked ↦
            let lands : (add_revision sha256 now new s).1 ≡ s1 = ground arith in
            subst (Confined p c s) (sym lands) first
        | inr free ↦ elim (Option-cases (revision_for row.revision_id s1.revisions)) [
          | inr (old, taken) ↦
              let lands : (add_revision sha256 now new s).1 ≡ s1 = ground arith in
              subst (Confined p c s) (sym lands) first
          | inl fresh ↦
              let t = record s1 {
                revisions = s1.revisions ++ row ∷ [];
                deps = add_deps row.revision_id new.deps s1.deps;
              } in
              let lands : (add_revision sha256 now new s).1 ≡ t = ground arith in
              subst (Confined p c s) (sym lands)
                (Confined-trans s s1 t first (insert-Confined s1 row new.deps h))
        ]
      ]

  add_changeset_item-Confined :
      (r a : Text) (s : Store) → Confined p c s (add_changeset_item c r a s).1
  unfolding add_changeset_item
  add_changeset_item-Confined r a s = elim (Bool-cases (is_locked a s)) [
    | inl locked ↦
        let lands : (add_changeset_item c r a s).1 ≡ s = ground arith in
        subst (Confined p c s) (sym lands) (Confined-refl s)
    | inr free ↦
        let t = record s {
          items =
              insert_item (record { changeset_id = c; revision_id = r; artifact_id = a }) s.items;
        } in
        let lands : (add_changeset_item c r a s).1 ≡ t = ground arith in
        subst (Confined p c s) (sym lands)
          (item-Confined s (record { changeset_id = c; revision_id = r; artifact_id = a }) refl)
  ]

pub emit-Confined :
    (p : Text → Bool) (sha256 : Text → Text) (now : ℕ) (rules_version : Text) (e : Emission)
    (k : Context)
    → p e.artifact_type ≡ true
    → Confined p k.changeset_id k.store (emit sha256 now rules_version e k).1.store
unfolding emit
emit-Confined p sha256 now rules_version e k h =
    let c = k.changeset_id in
    let new = new_revision rules_version e k in
    let s1 = (add_revision sha256 now new k.store).1 in
    let first = add_revision-Confined p c sha256 now new k.store h in
    elim (Result-cases (add_revision sha256 now new k.store).0) [
      | inr (x, refused) ↦
          let lands : (emit sha256 now rules_version e k).1.store ≡ s1 = ground arith in
          subst (Confined p c k.store) (sym lands) first
      | inl (info, made) ↦
          let s2 = (add_changeset_item c info.revision_id e.artifact_id s1).1 in
          let both =
            Confined-trans p c k.store s1 s2 first
              (add_changeset_item-Confined p c info.revision_id e.artifact_id s1) in
          elim (Result-cases (add_changeset_item c info.revision_id e.artifact_id s1).0) [
            | inr (x, refused) ↦
                let lands : (emit sha256 now rules_version e k).1.store ≡ s2 = ground arith in
                subst (Confined p c k.store) (sym lands) both
            | inl (u, listed) ↦
                let lands : (emit sha256 now rules_version e k).1.store ≡ s2 =
                  elim (Result-cases (after_artifact_write sha256 info.revision_id s2)) [
                    | inl (digest, intact) ↦ ground arith
                    | inr (x, broken) ↦ ground arith
                  ] in
                subst (Confined p c k.store) (sym lands) both
          ]
    ]
