-- ===== src/Tests/Readiness.antt =====
-- A store with a script and the results of its gates, and whether it may be exported.
use native.Mathlib.Decide.{ℕ_discrete}
use pebs.Base.{
  Bool, true, false, ◌≡◌, ◌≢◌, refl, none, some, Option, List, [], ◌∷◌, ◌++◌, Text, codes, text_dec,
  select, any, map, Some, Result, row_for, contains, text_leb, join, sorted, insert_sorted,
}
use pebs.Store.Rows.{Pointer, Revision, Store}
use pebs.Store.Artifacts.{accepted_rev_id, get_revision, accepted_revision}
use pebs.Store.Listings.{ArtifactRow, list_artifacts, accepted_content, sort_by, insert_by, row_leb}
use pebs.Gates.{gate_contracts}
use pebs.Gates.Results.{
  Documents, GateStatus, pass, not_applicable, gate_order, gate_scope, gate_applicability,
  gate_artifact_id, deliverable_outputs, override_for, rev_in_use, results_of_rows,
  latest_gate_results, result_blockers, gate_report, gate_reports, script_report, script_reports,
  readiness, export_readiness, is_of_type,
}
use pebs.Gates.Results.Ready.{MayBeExported, export_readiness-ready}

program : Unit {0}
unfolding text_dec ℕ_discrete select any row_for contains text_leb accepted_rev_id get_revision
    accepted_revision list_artifacts accepted_content sort_by insert_by row_leb gate_contracts
    gate_scope gate_applicability gate_artifact_id deliverable_outputs override_for rev_in_use
    results_of_rows latest_gate_results result_blockers gate_report gate_reports script_report
    script_reports readiness export_readiness join sorted insert_sorted
program = tt

abbrev pointer : Text → Text → Text → Pointer
pointer artifact_id artifact_type rev = record {
  artifact_id = artifact_id;
  project_id = codes "p";
  artifact_type = artifact_type;
  accepted_rev = some rev;
  stale = false;
  locked = false;
}

abbrev revision : Text → Text → Revision
revision revision_id artifact_id = record {
  revision_id = revision_id;
  project_id = codes "p";
  artifact_id = artifact_id;
  artifact_type = codes "script";
  version = 1;
  content = [];
  content_hash = [];
  produced_by = [];
  produced_by_run = none;
  rules_version = none;
  fixture = false;
  note = [];
  created_at = 0;
}

abbrev gate_pointer : Text → Pointer
gate_pointer g =
    pointer (codes "gate:" ++ (g ++ codes ":script:1")) (codes "gate_result") (codes "g")

abbrev store : Store
store = record {
  project_id = codes "p";
  pointers = pointer (codes "script:1") (codes "script") (codes "s") ∷ map gate_pointer gate_order;
  revisions = revision (codes "s") (codes "script:1") ∷ revision (codes "g") (codes "gate") ∷ [];
  deps = [];
  changesets = [];
  items = [];
  runs = [];
  steps = [];
  files = [];
}

abbrev docs_with : GateStatus → Documents
docs_with status = record {
  read_result = λ content. record {
    gate_id = [];
    target_artifact = codes "script:1";
    target_revision = codes "s";
    target_hash = [];
    dep_versions = [];
    rules_version = codes "v1";
    status = status;
    issues = [];
    run_id = [];
    not_applicable_reason = none;
  };
  write_result = λ r. [];
  outputs = λ content. [];
}

verdict : GateStatus → Text → Option (List Text) → Bool
unfolding program
verdict status rules outputs = elim (export_readiness (docs_with status) rules [] outputs store).0 [
  | Result.ok r ↦ r.ready
  | Result.err e ↦ false
]

ready_when_passed : verdict pass (codes "v1") none ≡ true
unfolding program verdict
ready_when_passed = refl

-- NOT_APPLICABLE without a reason, and results by other rules, block.
blocked_without_reason : verdict not_applicable (codes "v1") none ≡ false
unfolding program verdict
blocked_without_reason = refl

blocked_by_rules : verdict pass (codes "v2") none ≡ false
unfolding program verdict
blocked_by_rules = refl

-- Without a script among the outputs no gate of scripts is needed.
ready_without_script : verdict not_applicable (codes "v2") (some (codes "worksheet" ∷ [])) ≡ true
unfolding program verdict
ready_without_script = refl

export_readiness-ready_example :
    let scripts = select (is_of_type (codes "script")) (list_artifacts store) in
    (scripts ≢ [])
    × ((a : ArtifactRow)
        → Some (λ b. b ≡ a) scripts
        → MayBeExported (docs_with pass) (codes "v1") [] store a)
unfolding program
export_readiness-ready_example =
    export_readiness-ready (docs_with pass) (codes "v1") [] none store store
      (readiness (codes "v1") [] none
        (map (λ g. (gate_artifact_id g (codes "script:1"), (docs_with pass).read_result []))
          gate_order)
        store)
      refl refl refl
