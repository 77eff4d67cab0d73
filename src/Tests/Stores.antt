-- ===== src/Tests/Stores.antt =====
-- A project with a script, a plan made from its first revision, and a candidate for the script.
use mathlib.Core.Option
use native.Mathlib.Decide.{ℕ_discrete, dec_lt}
use pebs.Base.{
  ℕ, Bool, true, false, ◌≡◌, refl, ref_id_injective, ◌↔◌, ◌⊎◌, none, some, List, [], ◌∷◌, Text,
  codes, ok, err, contains, row_for, amend, text_dec, maybe_dec, select, any, max_of, ref_id,
  decimal, sorted, insert_new, union, each, arith,
}
use pebs.Store.Rows.{Pointer, Revision, Changeset, Store, candidate, baseline_conflict}
use pebs.Store.Artifacts.{
  NewRevision, RevisionInfo, has_pointer, revision_for, add_revision, add_deps, add_dep,
  ensure_artifact, ensure_pointer, insert_revision, get_revision, is_locked, is_stale,
  accepted_rev_id, max_version, dependents_of_rev,
}
use pebs.Store.Artifacts.Revisions.{IsWellFormed, IsWritten, add_revision-unlocked}
use pebs.Store.Closure.{push_dependents, collect, transitive_dependent_revisions, Downstream}
use pebs.Store.Closure.Search.{transitive_dependent_revisions_iff}
use pebs.Store.Staleness.{
  revisions_of, note_revision, note_dependents, note_artifact, stale_targets, mark_all,
  mark_dependents_stale,
}
use pebs.Store.Staleness.Targets.{IsAffected, mark_dependents_stale_iff}
use pebs.Store.Files.{materialize, write_file, file_path}
use pebs.Store.Changesets.{
  baseline_get, read_revisions, get_changeset, check_items, set_changeset_status, spread_stale,
  apply_items, accept_changeset, accept_read, apply_and_close,
}
use pebs.Store.Changesets.Guards.{SameData}
use pebs.Store.Changesets.Atomic.{accept_changeset-atomic}
use pebs.Store.Changesets.Effects.{proposed}
use pebs.Store.Changesets.Accept.{
  IsAcceptable, IsAccepted, accept_changeset-ok, accept_changeset-total,
}

abbrev pub pointer : Text → Text → Bool → Pointer
pointer artifact_id rev locked = record {
  artifact_id = artifact_id;
  project_id = codes "p";
  artifact_type = artifact_id;
  accepted_rev = some rev;
  stale = false;
  locked = locked;
}

abbrev pub revision : Text → Text → ℕ → Revision
revision rev_id artifact_id version = record {
  revision_id = rev_id;
  project_id = codes "p";
  artifact_id = artifact_id;
  artifact_type = artifact_id;
  version = version;
  content = codes "{}";
  content_hash = codes "{}";
  produced_by = [];
  produced_by_run = none;
  rules_version = none;
  fixture = false;
  note = [];
  created_at = 0;
}

abbrev pub project : Bool → Text → Store
project locked expected = record {
  project_id = codes "p";
  pointers =
      pointer (codes "script") (codes "script@r1") locked
      ∷ pointer (codes "plan") (codes "plan@r1") false
      ∷ [];
  revisions =
      revision (codes "script@r1") (codes "script") 1
      ∷ revision (codes "plan@r1") (codes "plan") 1
      ∷ revision (codes "script@r2") (codes "script") 2
      ∷ [];
  deps = record { downstream_rev = codes "plan@r1"; upstream_rev = codes "script@r1" } ∷ [];
  changesets =
      record {
        changeset_id = codes "cs";
        project_id = codes "p";
        run_id = none;
        reason = [];
        status = candidate;
        baseline = (codes "script", some expected) ∷ [];
        created_at = 0;
        decided_at = none;
      }
      ∷ [];
  items =
      record {
        changeset_id = codes "cs";
        revision_id = codes "script@r2";
        artifact_id = codes "script";
      }
      ∷ [];
  runs = [];
  steps = [];
  files = [];
}

abbrev pub sample : Store
sample = project false (codes "script@r1")

abbrev pub locked_sample : Store
locked_sample = project true (codes "script@r1")

abbrev pub moved_sample : Store
moved_sample = project false (codes "script@r0")

program : Unit {0}
unfolding text_dec maybe_dec row_for amend select any max_of contains ref_id decimal sorted
    insert_new union each add_revision add_deps add_dep ensure_artifact ensure_pointer
    insert_revision get_revision is_locked is_stale accepted_rev_id max_version dependents_of_rev
    push_dependents collect transitive_dependent_revisions revisions_of note_revision
    note_dependents note_artifact stale_targets mark_all mark_dependents_stale materialize
    write_file file_path baseline_get read_revisions get_changeset check_items set_changeset_status
    spread_stale apply_items accept_changeset accept_read apply_and_close ℕ_discrete dec_lt proposed
program = tt

accept-sample : (accept_changeset 5 (codes "cs") sample).0 ≡ ok (codes "plan" ∷ [])
unfolding program
accept-sample = refl

moved-conflict :
    (accept_changeset 5 (codes "cs") moved_sample).0
    ≡ err (baseline_conflict (codes "script") (some (codes "script@r1")) (some (codes "script@r0")))
unfolding program
moved-conflict = refl

accept_changeset-atomic_example :
    SameData moved_sample (accept_changeset 5 (codes "cs") moved_sample).1
accept_changeset-atomic_example =
    accept_changeset-atomic 5 (codes "cs") moved_sample
      (baseline_conflict (codes "script") (some (codes "script@r1")) (some (codes "script@r0")))
      moved-conflict

sample-IsAcceptable : IsAcceptable sample (codes "cs") (record {
  changeset_id = codes "cs";
  project_id = codes "p";
  run_id = none;
  reason = [];
  status = candidate;
  baseline = (codes "script", some (codes "script@r1")) ∷ [];
  created_at = 0;
  decided_at = none;
})
unfolding program
sample-IsAcceptable = record {
  row = refl;
  open_still = refl;
  some_items = λ e. cc;
  revisions_known = ((revision (codes "script@r2") (codes "script") 2, refl), tt);
  at_baseline = ((refl, refl), tt);
}

accept_changeset-total_example :
    (stale : List Text) × ((accept_changeset 5 (codes "cs") sample).0 ≡ ok stale)
accept_changeset-total_example = accept_changeset-total 5 (codes "cs") sample _ sample-IsAcceptable

accept_changeset-ok_example :
    ((cs : Changeset) × IsAcceptable sample (codes "cs") cs)
    × IsAccepted sample (accept_changeset 5 (codes "cs") sample).1 (codes "cs")
accept_changeset-ok_example =
    accept_changeset-ok 5 (codes "cs") sample (codes "plan" ∷ []) accept-sample

abbrev pub draft : NewRevision
draft = record {
  artifact_id = codes "script";
  artifact_type = codes "script";
  content = codes "[1]";
  produced_by = codes "script-writer";
  run_id = none;
  rules_version = none;
  deps = codes "plan@r1" ∷ [];
  fixture = false;
  note = [];
}

pub sample-IsWellFormed : IsWellFormed sample
unfolding program
sample-IsWellFormed = record {
  named = ((refl, refl), ((refl, refl), ((refl, refl), tt)));
  distinct = (refl, (refl, (refl, tt)));
}

pub sample-unlocked : is_locked (codes "script") sample ≡ false
unfolding program
sample-unlocked = refl

locked_sample-locked : is_locked (codes "script") locked_sample ≡ true
unfolding program
locked_sample-locked = refl

add_revision-unlocked_example :
    (info : RevisionInfo) × ((add_revision (λ t. t) 5 draft sample).0 ≡ ok info)
    × IsWritten (λ t. t) draft sample (add_revision (λ t. t) 5 draft sample).1 info
add_revision-unlocked_example =
    add_revision-unlocked (λ t. t) 5 draft sample sample-IsWellFormed sample-unlocked

-- The third revision of the script is numbered from the second.
draft-revision :
    Option.map
      (λ r. r.version)
      (revision_for (codes "script@r3") (add_revision (λ t. t) 5 draft sample).1.revisions)
    ≡ some 3
unfolding program
draft-revision = refl

transitive_dependent_revisions_iff_example :
    (contains
        (codes "plan@r1")
        (transitive_dependent_revisions (codes "script@r1" ∷ []) sample.deps)
      ≡ true)
    ↔ Downstream sample.deps (codes "script@r1" ∷ []) (codes "plan@r1")
transitive_dependent_revisions_iff_example =
    transitive_dependent_revisions_iff sample.deps (codes "script@r1" ∷ []) (codes "plan@r1")

mark_dependents_stale_iff_example :
    (is_stale (codes "plan") (mark_dependents_stale (codes "script" ∷ []) [] sample).1 ≡ true) ↔ (
      (is_stale (codes "plan") sample ≡ true)
      ⊎ ((has_pointer (codes "plan") sample.pointers ≡ true)
          × IsAffected (codes "script" ∷ []) [] sample (codes "plan")))
mark_dependents_stale_iff_example =
    mark_dependents_stale_iff (codes "plan") (codes "script" ∷ []) [] sample

plan-stale :
    is_stale (codes "plan") (mark_dependents_stale (codes "script" ∷ []) [] sample).1 ≡ true
unfolding program
plan-stale = refl

ref_id_injective_example : (codes "a" ≡ codes "a") × (◌≡◌ {A = ℕ} 3 3)
ref_id_injective_example = ref_id_injective b'r' (codes "a") (codes "a") 3 3 (omega arith) refl
