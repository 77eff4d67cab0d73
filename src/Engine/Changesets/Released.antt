-- ===== src/Engine/Changesets/Released.antt =====
-- What becomes of the locks of a patch when its changeset is decided.
use pebs.Base.{
  codes, ℕ, true, false, Option, none, some, ◌≢◌, ◌↔◌, ◌⊎◌, Option-cases, Bool-cases, not, ◌&&◌,
  ◌≡◌, refl, ◌∙◌, ap, List, [], ◌∷◌, Text, each, contains, ok, Result-cases, inl, inr, arith,
  row_for-amend,
}
use pebs.Store.Rows.{Changeset, Item, Revision, Run, Store}
use pebs.Store.Artifacts.{accepted_revision, get_revision, is_locked, set_locked}
use pebs.Store.Changesets.{get_changeset, accept_changeset}
use pebs.Store.Runs.{get_run}
use pebs.Store.Listings.{accepted_content}
use pebs.Engine.Changesets.{
  PatchReaders, plan_of_changeset, locks_of_plan, patch_locks, unlock_all, release_patch_locks,
  decided, accept,
}

is_locked-set_locked :
    (a b : Text) (s : Store)
    → is_locked a (set_locked b false s) ≡ (is_locked a s && not (contains a (b ∷ [])))
unfolding is_locked set_locked contains
is_locked-set_locked a b s = ground (
  arith,
  row_for-amend (λ p. p.artifact_id) b a (λ p. record p { locked = false }) s.pointers (λ p. refl),
)

is_locked-unlock_all :
    (a : Text) (locks : List Text) (s : Store)
    → is_locked a (unlock_all locks s) ≡ (is_locked a s && not (contains a locks))
unfolding each contains
is_locked-unlock_all a [] s = ground arith
is_locked-unlock_all a (b ∷ locks) s =
    ground (arith, is_locked-unlock_all a locks (set_locked b false s), is_locked-set_locked a b s)

store-patch_locks :
    (readers : PatchReaders) (changeset_id : Text) (s : Store)
    → (patch_locks readers changeset_id s).1 ≡ s
unfolding patch_locks accepted_content accepted_revision get_revision
store-patch_locks readers changeset_id s = ground arith

-- The changeset was made by a run that has the patch plan in its inputs.
pub record IsOfPlan (readers : PatchReaders) (changeset_id : Text) (s : Store) (plan_id : Text)
    : Type 0 where
  pub changeset : Changeset
  pub items : List (Item × Revision)
  pub read : (get_changeset changeset_id s).0 ≡ ok (changeset, items)
  pub run_id : Text
  pub has_run : changeset.run_id ≡ some run_id
  pub named : run_id ≢ []
  pub run : Run
  pub found : (get_run run_id s).0 ≡ ok run
  pub planned : readers.patch_plan run.inputs ≡ some plan_id

-- The changeset is one of a patch, whose plan is still the accepted one and names the artifact.
pub record IsPreserved (readers : PatchReaders) (changeset_id : Text) (s : Store) (a : Text)
    : Type 0 where
  pub plan_id : Text
  pub of_plan : IsOfPlan readers changeset_id s plan_id
  pub content : Text
  pub stored : (accepted_content (codes "patch_plan") s).0 ≡ ok (some content)
  pub same_plan : readers.plan_id content ≡ some plan_id
  pub named : contains a (readers.locked_artifacts content) ≡ true

run_id_cases :
    (o : Option Text)
    → ((run_id : Text) × (run_id ≢ []) × (o ≡ some run_id)) ⊎ ((o ≡ none) ⊎ (o ≡ some []))
run_id_cases none = inr (inl refl)
run_id_cases (some []) = inr (inr refl)
run_id_cases (some (c ∷ cs)) = inl (c ∷ cs, λ e. ground arith, refl)

plan_of_changeset-found :
    (readers : PatchReaders) (changeset_id : Text) (s : Store) (plan_id : Text)
    → plan_of_changeset readers changeset_id s ≡ some plan_id
    → IsOfPlan readers changeset_id s plan_id
unfolding plan_of_changeset
plan_of_changeset-found readers changeset_id s plan_id e =
    elim (Result-cases (get_changeset changeset_id s).0) [
      | inr (x, failed) ↦ absurd (ground arith)
      | inl ((cs, items), read) ↦ elim (run_id_cases cs.run_id) [
        | inr (inl unset) ↦ absurd (ground arith)
        | inr (inr empty) ↦ absurd (ground arith)
        | inl (run_id, named, has_run) ↦ elim (Result-cases (get_run run_id s).0) [
          | inr (x, failed) ↦ absurd (ground arith)
          | inl (run, found) ↦ record {
            changeset = cs;
            items = items;
            read = read;
            run_id = run_id;
            has_run = has_run;
            named = named;
            run = run;
            found = found;
            planned = ground arith;
          }
        ]
      ]
    ]

plan_of_changeset_known :
    (readers : PatchReaders) (changeset_id : Text) (s : Store) (plan_id : Text)
    → IsOfPlan readers changeset_id s plan_id
    → plan_of_changeset readers changeset_id s ≡ some plan_id
unfolding plan_of_changeset
plan_of_changeset_known readers changeset_id s plan_id h =
    ground (arith, h.read, h.has_run, h.named, h.found, h.planned)

locks_of_plan_iff :
    (readers : PatchReaders) (plan_id content a : Text)
    → (contains a (locks_of_plan readers plan_id (some content)) ≡ true) ↔ (
        (readers.plan_id content ≡ some plan_id)
        × (contains a (readers.locked_artifacts content) ≡ true))
unfolding contains
locks_of_plan_iff readers plan_id content a = ground arith

-- The locks that are read are those of the preserved artifacts.
patch_locks_iff :
    (readers : PatchReaders) (changeset_id : Text) (s : Store) (locks : List Text) (a : Text)
    → (patch_locks readers changeset_id s).0 ≡ ok locks
    → (contains a locks ≡ true) ↔ IsPreserved readers changeset_id s a
unfolding patch_locks contains
patch_locks_iff readers changeset_id s locks a e =
    elim (Option-cases (plan_of_changeset readers changeset_id s)) [
      | inl unplanned ↦ (
        λ h. absurd (ground arith),
        λ h.
            let k = plan_of_changeset_known readers changeset_id s h.plan_id h.of_plan in
            absurd (ground arith),
      )
      | inr (plan_id, planned) ↦ elim (Result-cases (accepted_content (codes "patch_plan") s).0) [
        | inr (x, failed) ↦ absurd (ground arith)
        | inl (stored, read) ↦
            let held : locks ≡ locks_of_plan readers plan_id stored = ground arith in
            (
              λ h. elim (Option-cases stored) [
                | inl missing ↦ absurd (ground arith)
                | inr (content, there) ↦
                    let (same_plan, named) =
                      (locks_of_plan_iff readers plan_id content a).0 (ground arith) in
                    record {
                      plan_id = plan_id;
                      of_plan = plan_of_changeset-found readers changeset_id s plan_id planned;
                      content = content;
                      stored = read ∙ ap ok there;
                      same_plan = same_plan;
                      named = named;
                    }
              ],
              λ h.
                  let k = plan_of_changeset_known readers changeset_id s h.plan_id h.of_plan in
                  let same_id : h.plan_id ≡ plan_id = ground arith in
                  let there : stored ≡ some h.content = let w = h.stored in ground arith in
                  let listed =
                    (locks_of_plan_iff readers plan_id h.content a).1
                      (h.same_plan ∙ ap some same_id, h.named) in
                  ground arith,
            )
      ]
    ]

-- A changeset that is accepted gives the locks of its patch free. The artifact is locked after it
-- exactly when it was locked after the store's own call and is not preserved by the patch: the
-- changeset's run has the identifier of a patch plan in its inputs, the patch plan in the store has this
-- identifier, and it names the artifact. The locks of another plan stay.
pub accept-locks :
    (readers : PatchReaders) (publish : Text → Store → List Text) (now : ℕ) (changeset_id : Text)
    (s t : Store) (stale published : List Text) (a : Text)
    → accept readers publish now changeset_id s ≡ (ok (decided stale published), t)
    → (is_locked a t ≡ true) ↔ (
        (is_locked a (accept_changeset now changeset_id s).1 ≡ true)
        × ¬ IsPreserved readers changeset_id (accept_changeset now changeset_id s).1 a)
unfolding accept release_patch_locks
accept-locks readers publish now changeset_id s t stale published a e =
    let m = (accept_changeset now changeset_id s).1 in
    elim (Result-cases (accept_changeset now changeset_id s).0) [
      | inr (x, refused) ↦ absurd (ground arith)
      | inl (found, taken) ↦ elim (Result-cases (patch_locks readers changeset_id m).0) [
        | inr (x, failed) ↦ absurd (ground arith)
        | inl (locks, held) ↦
            let same_store = store-patch_locks readers changeset_id m in
            let lands : t ≡ unlock_all locks m = ground (arith, same_store) in
            let left = ap (is_locked a) lands ∙ is_locked-unlock_all a locks m in
            let named = patch_locks_iff readers changeset_id m locks a held in
            (
              λ h. (ground arith, λ k. let c = named.1 k in absurd (ground arith)),
              λ (h, k). elim (Bool-cases (contains a locks)) [
                | inl c ↦ absurd (k (named.0 c))
                | inr c ↦ ground arith
              ],
            )
      ]
    ]
