-- ===== src/Gates/Results/Listed.antt =====
-- Where the results that `latest_gate_results` of pebs/gates.py gives come from.
use pebs.Base.{
  ◌≡◌, subst, some, List, [], ◌∷◌, Text, codes, text_dec, arith, select, row_for, ok, Result-cases,
  Option-cases, inl, inr,
}
use pebs.Store.Rows.{Revision, Store}
use pebs.Store.Artifacts.{revision_for, get_revision}
use pebs.Store.Listings.{ArtifactRow, list_artifacts}
use pebs.Gates.Results.{
  GateResult, Documents, RevisionOverrides, rev_in_use, is_of_type, results_of_rows,
  latest_gate_results,
}

-- The result is read from the revision of the artifact that is in use.
pub record IsKept (docs : Documents) (overrides : RevisionOverrides) (s : Store) (key : Text)
    (r : GateResult) : Type 0 where
  pub revision_id : Text
  pub revision : Revision
  pub in_use : rev_in_use key overrides s ≡ some revision_id
  pub stored : revision_for revision_id s.revisions ≡ some revision
  pub read : docs.read_result revision.content ≡ r

get_revision-ok :
    (rev_id : Text) (s : Store) (rev : Revision)
    → (get_revision rev_id s).0 ≡ ok rev
    → revision_for rev_id s.revisions ≡ some rev
unfolding get_revision
get_revision-ok rev_id s rev h = ground arith

module _ (docs : Documents) (overrides : RevisionOverrides) (s : Store) (key k : Text)
    (r : GateResult) where
  rows-IsKept :
      (rows : List ArtifactRow) (results : List (Text × GateResult))
      → (results_of_rows docs overrides rows s).0 ≡ ok results
      → row_for (λ (p : Text × GateResult). p.0) key results ≡ some (k, r)
      → IsKept docs overrides s key r
  unfolding results_of_rows row_for
  rows-IsKept [] results e h = absurd (ground arith)
  rows-IsKept (a ∷ rows) results e h = elim (Option-cases (rev_in_use a.artifact_id overrides s)) [
    | inl unused ↦ rows-IsKept rows results (ground arith) h
    | inr (rev_id, in_use) ↦ elim (Result-cases (get_revision rev_id s).0) [
      | inr (x, missing) ↦ absurd (ground arith)
      | inl (rev, found) ↦ elim (Result-cases (results_of_rows docs overrides rows s).0) [
        | inr (x, failed) ↦ absurd (ground arith)
        | inl (rest, read) ↦
            let whole : results ≡ (a.artifact_id, docs.read_result rev.content) ∷ rest =
              ground arith in
            let found_in : row_for (λ (p : Text × GateResult). p.0) key
                  ((a.artifact_id, docs.read_result rev.content) ∷ rest)
                ≡ some (k, r) =
              subst
                (λ (l : List (Text × GateResult)).
                  row_for (λ (p : Text × GateResult). p.0) key l ≡ some (k, r))
                whole h in
            elim (text_dec a.artifact_id key) [
              | yes same_key ↦ record {
                revision_id = rev_id;
                revision = rev;
                in_use = rw (← same_key) in_use;
                stored = get_revision-ok rev_id s rev found;
                read = ground arith;
              }
              | no differ ↦ rows-IsKept rows rest read (ground arith)
            ]
      ]
    ]
  ]

  -- A result that is found under a key is the one that is kept at the artifact of that name.
  pub latest_gate_results-IsKept :
      (results : List (Text × GateResult))
      → (latest_gate_results docs overrides s).0 ≡ ok results
      → row_for (λ (p : Text × GateResult). p.0) key results ≡ some (k, r)
      → IsKept docs overrides s key r
  unfolding latest_gate_results
  latest_gate_results-IsKept results e h =
      rows-IsKept (select (is_of_type (codes "gate_result")) (list_artifacts s)) results e h
