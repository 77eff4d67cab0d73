-- ===== src/Gates/Results/Ready.antt =====
-- What `export_readiness` of pebs/gates.py has checked when it says that a formal export is ready.
use pebs.Base.{
  true, false, ◌≡◌, ◌≢◌, subst, Option, some, List, [], ◌∷◌, ◌++◌, Text, codes, text_dec, arith,
  select, contains, row_for, Some, ok, append_empty, Result-cases, Option-cases, List-cases, inl,
  inr, ◌⊎◌,
}
use pebs.Store.Rows.{Revision, Store}
use pebs.Store.Artifacts.{get_revision}
use pebs.Store.Listings.{ArtifactRow, list_artifacts}
use pebs.Gates.Results.Listed.{IsKept, latest_gate_results-IsKept}
use pebs.Gates.Results.{
  GateResult, pass, not_applicable, Documents, RevisionOverrides, Readiness, gate_order,
  gate_artifact_id, override_for, or_accepted, or_deliverable, wants_script, is_of_type,
  has_override, is_empty_reason, result_blockers, gate_report, gate_reports, script_report,
  script_reports, readiness, latest_gate_results, export_readiness, gate_applicability, gate_scope,
  late_blockers, fixture_blockers, no_accepted,
}

-- A result that lets an export pass: of this revision, by these rules, and PASS, or NOT_APPLICABLE
-- for a reason that is given.
pub record Passes (rules_version rev_id : Text) (r : GateResult) : Type 0 where
  pub of_revision : r.target_revision ≡ rev_id
  pub by_rules : r.rules_version ≡ rules_version
  pub passing :
      (r.status ≡ pass)
      ⊎ ((r.status ≡ not_applicable) × (is_empty_reason r.not_applicable_reason ≡ false))

result_blockers-Passes :
    (rules_version gate_id rev_id : Text) (r : GateResult)
    → result_blockers rules_version gate_id rev_id r ≡ []
    → Passes rules_version rev_id r
unfolding result_blockers
result_blockers-Passes rules_version gate_id rev_id r h = ground arith

not_fixture :
    (artifact_id : Text) (rev : Revision)
    → fixture_blockers artifact_id (ok rev) ≡ []
    → rev.fixture ≡ false
not_fixture artifact_id rev h = ground arith

module _ (rules_version : Text) (overrides : RevisionOverrides)
    (results : List (Text × GateResult)) where
  -- The results have one of the gate on the artifact that lets the revision pass.
  abbrev HasPassed : Text → Text → Text → Type 0
  HasPassed artifact_id rev_id gate_id =
      (k : Text) × (r : GateResult) × (row_for (λ (p : Text × GateResult). p.0)
          (gate_artifact_id gate_id artifact_id) results
        ≡ some (k, r))
      × Passes rules_version rev_id r

  gate_report-HasPassed :
      (artifact_id rev_id gate_id : Text)
      → (gate_report rules_version results artifact_id rev_id gate_id).0 ≡ []
      → HasPassed artifact_id rev_id gate_id
  unfolding gate_report
  gate_report-HasPassed artifact_id rev_id gate_id h =
      elim (Option-cases
        (row_for (λ (p : Text × GateResult). p.0) (gate_artifact_id gate_id artifact_id) results)) [
          | inl missing ↦ absurd (ground arith)
          | inr ((k, r), found) ↦
              (k, r, found, result_blockers-Passes rules_version gate_id rev_id r (ground arith))
        ]

  gate_reports-HasPassed :
      (artifact_id rev_id : Text) (gates : List Text)
      → (gate_reports rules_version results artifact_id rev_id gates).0 ≡ []
      → (g : Text) → contains g gates ≡ true
      → HasPassed artifact_id rev_id g
  unfolding gate_reports contains
  gate_reports-HasPassed artifact_id rev_id [] h g m = absurd (ground arith)
  gate_reports-HasPassed artifact_id rev_id (x ∷ gates) h g m =
      let (now, later) = append_empty _ _ h in
      elim (text_dec g x) [
        | yes e ↦ rw e (gate_report-HasPassed artifact_id rev_id x now)
        | no differ ↦ gate_reports-HasPassed artifact_id rev_id gates later g (ground arith)
      ]

  -- The script may be exported: its revision in use is not late, its content is no fixture, and each
  -- gate has passed it.
  record IsExportable (script : ArtifactRow) (s : Store) : Type 0 where
    rev_id : Text
    in_use :
        or_accepted (override_for script.artifact_id overrides) script.accepted_rev ≡ some rev_id
    fresh : script.stale ≡ true → has_override script.artifact_id overrides ≡ true
    genuine : (rev : Revision) → (get_revision rev_id s).0 ≡ ok rev → rev.fixture ≡ false
    passed : (g : Text) → contains g gate_order ≡ true → HasPassed script.artifact_id rev_id g

  not_late :
      (script : ArtifactRow)
      → late_blockers overrides script ≡ []
      → script.stale ≡ true
      → has_override script.artifact_id overrides ≡ true
  not_late script h stale = ground arith

  script_report-IsExportable :
      (script : ArtifactRow) (s : Store)
      → (script_report rules_version overrides results script s).0 ≡ []
      → IsExportable script s
  unfolding script_report
  script_report-IsExportable script s h =
      elim (Option-cases
        (or_accepted (override_for script.artifact_id overrides) script.accepted_rev)) [
          | inl unset ↦
              let all : late_blockers overrides script ++ no_accepted script.artifact_id ∷ [] ≡ [] =
                ground arith in
              absurd (
                ground (
                  arith,
                  append_empty (late_blockers overrides script)
                      (no_accepted script.artifact_id ∷ []) all,
                ))
          | inr (rev_id, in_use) ↦
              let rev = (get_revision rev_id s).0 in
              let gates = gate_reports rules_version results script.artifact_id rev_id gate_order in
              let all : late_blockers overrides script
                    ++ (fixture_blockers script.artifact_id rev ++ gates.0)
                  ≡ [] =
                ground arith in
              let (fresh, rest) =
                append_empty (late_blockers overrides script)
                  (fixture_blockers script.artifact_id rev ++ gates.0) all in
              let (genuine, passed) =
                append_empty (fixture_blockers script.artifact_id rev) gates.0 rest in
              record {
                rev_id = rev_id;
                in_use = in_use;
                fresh = not_late script fresh;
                genuine = λ r found.
                    not_fixture script.artifact_id r
                      (subst (λ x. fixture_blockers script.artifact_id x ≡ []) found genuine);
                passed = gate_reports-HasPassed script.artifact_id rev_id gate_order passed;
              }
        ]

  script_reports-IsExportable :
      (scripts : List ArtifactRow) (s : Store)
      → (script_reports rules_version overrides results scripts s).0 ≡ []
      → (a : ArtifactRow) → Some (λ b. b ≡ a) scripts
      → IsExportable a s
  unfolding script_reports
  script_reports-IsExportable [] s h a m = absurd m
  script_reports-IsExportable (b ∷ scripts) s h a (inl e) =
      rw (← e) (script_report-IsExportable b s (append_empty _ _ h).0)
  script_reports-IsExportable (b ∷ scripts) s h a (inr m) =
      script_reports-IsExportable scripts s (append_empty _ _ h).1 a m

  readiness-ready :
      (outputs : Option (List Text)) (s : Store)
      → (readiness rules_version overrides outputs results s).ready ≡ true
      → wants_script outputs ≡ true
      → let scripts = select (is_of_type (codes "script")) (list_artifacts s) in
        (scripts ≢ []) × ((a : ArtifactRow) → Some (λ b. b ≡ a) scripts → IsExportable a s)
  unfolding readiness gate_applicability gate_scope
  readiness-ready outputs s h wanted =
      elim (List-cases (select (is_of_type (codes "script")) (list_artifacts s))) [
        | inl absent ↦ absurd (ground arith)
        | inr (a, rows, present) ↦
            let all : (script_reports rules_version overrides results (a ∷ rows) s).0 ≡ [] =
              ground arith in
            rw present ((λ e. cc), script_reports-IsExportable (a ∷ rows) s all)
      ]

-- The script may be exported, by what the store keeps: its revision in use is not late, its content
-- is no fixture, and for each of the gates G1 to G7 the result that is in use passes that revision.
pub record MayBeExported (docs : Documents) (rules_version : Text) (overrides : RevisionOverrides)
    (s : Store) (script : ArtifactRow) : Type 0 where
  pub rev_id : Text
  pub in_use :
      or_accepted (override_for script.artifact_id overrides) script.accepted_rev ≡ some rev_id
  pub fresh : script.stale ≡ true → has_override script.artifact_id overrides ≡ true
  pub genuine : (rev : Revision) → (get_revision rev_id s).0 ≡ ok rev → rev.fixture ≡ false
  pub passed :
      (g : Text)
      → contains g gate_order ≡ true
      → (r : GateResult) × IsKept docs overrides s (gate_artifact_id g script.artifact_id) r
        × Passes rules_version rev_id r

-- If `export_readiness` says that the export is ready, and the outputs that are wanted, or those of
-- the requirements where none are named, have a script or are not known, then there is a script, and
-- each script may be exported.
pub export_readiness-ready :
    (docs : Documents) (rules_version : Text) (overrides : RevisionOverrides)
    (outputs : Option (List Text)) (s t : Store) (r : Readiness)
    → export_readiness docs rules_version overrides outputs s ≡ (ok r, t)
    → r.ready ≡ true
    → wants_script (or_deliverable docs s outputs) ≡ true
    → let scripts = select (is_of_type (codes "script")) (list_artifacts s) in
      (scripts ≢ [])
      × ((a : ArtifactRow)
          → Some (λ b. b ≡ a) scripts
          → MayBeExported docs rules_version overrides s a)
unfolding export_readiness
export_readiness-ready docs rules_version overrides outputs s t r e ready wanted =
    elim (Result-cases (latest_gate_results docs overrides s).0) [
      | inr (x, failed) ↦ absurd (ground arith)
      | inl (results, read) ↦
          let said : readiness rules_version overrides (or_deliverable docs s outputs) results s
              ≡ r =
            ground arith in
          let (some_script, each_script) =
            readiness-ready rules_version overrides results (or_deliverable docs s outputs) s
              (ground arith) wanted in
          (
            some_script,
            λ a m.
                let x = each_script a m in
                record {
                  rev_id = x.rev_id;
                  in_use = x.in_use;
                  fresh = x.fresh;
                  genuine = x.genuine;
                  passed = λ g listed.
                      let (k, result, found, passes) = x.passed g listed in
                      (
                        result,
                        latest_gate_results-IsKept docs overrides s _ k result results read found,
                        passes,
                      );
                },
          )
    ]
