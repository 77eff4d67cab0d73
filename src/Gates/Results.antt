-- ===== src/Gates/Results.antt =====
-- What pebs/gates.py does with the results of gates: which gates a deliverable needs, the results
-- that are kept in the store, and whether a formal export is ready. `Documents` reads the JSON of
-- contents.
pub mod Listed
pub mod Ready
use pebs.Base.{
  ℕ, Bool, true, false, not, ◌&&◌, ◌||◌, Option, none, some, List, [], ◌∷◌, ◌++◌, Text, same, codes,
  if◌then◌else◌, select, any, map, contains, sorted, join, row_for, Result, ok, err, pure, ◌>>=◌,
}
use pebs.Store.Rows.{Revision, Store, StoreError}
use pebs.Store.Artifacts.{
  StoreExec, NewRevision, RevisionInfo, accepted_rev_id, get_revision, add_revision,
}
use pebs.Store.Listings.{ArtifactRow, accepted_content, list_artifacts}
use pebs.Gates.{GateContract, gate_contracts}

pub data GateStatus : Type 0 where
  pass fail needs_review not_applicable : GateStatus

pub record Issue : Type 0 where
  pub location : Text
  pub reason : Text
  pub next_step : Text

-- What `make_result` builds, less the time and the version of the check.
pub record GateResult : Type 0 where
  pub gate_id : Text
  pub target_artifact : Text
  pub target_revision : Text
  pub target_hash : Text
  pub dep_versions : List (Text × Text)
  pub rules_version : Text
  pub status : GateStatus
  pub issues : List Issue
  pub run_id : Text
  pub not_applicable_reason : Option Text

-- What `json.loads` gives of a stored text, and what `json.dumps` writes: `outputs` is the list under
-- that key of the requirements, with no element where it is missing or is no list.
pub record Documents : Type 0 where
  pub read_result : Text → GateResult
  pub write_result : GateResult → Text
  pub outputs : Text → List Text

abbrev pub RevisionOverrides : Type 0
RevisionOverrides = List (Text × Text)

-- `GATE_ORDER`
abbrev pub gate_order : List Text
gate_order =
    codes "G1" ∷ codes "G2" ∷ codes "G3" ∷ codes "G4" ∷ codes "G5" ∷ codes "G6" ∷ codes "G7" ∷ []

-- `SCRIPT_OUTPUTS`
abbrev pub script_outputs : List Text
script_outputs = codes "script" ∷ codes "lesson_script" ∷ []

pub record Applicability : Type 0 where
  pub applicable : Bool
  pub reason : Text

abbrev pub non_empty : List Text → Option (List Text)
non_empty [] = none
non_empty (t ∷ ts) = some (t ∷ ts)

unfoldable pub deliverable_outputs : Documents → Store → Option (List Text)
deliverable_outputs docs s = elim (accepted_content (codes "requirements") s).0 [
  | err e ↦ none
  | ok none ↦ none
  | ok (some content) ↦ non_empty (docs.outputs content)
]

-- `GATE_SCOPE.get(gate_id)`
unfoldable pub gate_scope : Text → Option Text
gate_scope gate_id = elim (row_for (λ c. c.gate_id) gate_id gate_contracts) [
  | none ↦ none
  | some c ↦ some c.scope
]

-- `outputs & SCRIPT_OUTPUTS`, where None stands for a contract that was never published
abbrev pub wants_script : Option (List Text) → Bool
wants_script none = true
wants_script (some outputs) = any (λ o. contains o script_outputs) outputs

abbrev pub listed : Option (List Text) → Text
listed none = []
listed (some outputs) = join (codes "、") (sorted outputs)

abbrev pub is_script_scope : Option Text → Bool
is_script_scope none = false
is_script_scope (some scope) = same scope (codes "script")

unfoldable pub gate_applicability : Text → Option (List Text) → Applicability
unfolding gate_scope
gate_applicability gate_id outputs =
    if is_script_scope (gate_scope gate_id) && not (wants_script outputs)
    then record {
      applicable = false;
      reason =
          codes "当前正式交付契约（" ++ listed outputs ++ codes "）不包含课程脚本；脚本级 " ++ gate_id ++ codes " 不适用";
    }
    else record { applicable = true; reason = [] }

unfoldable pub gate_artifact_id : Text → Text → Text
gate_artifact_id gate_id target = codes "gate:" ++ gate_id ++ b':' ∷ target

-- `overrides.get(artifact_id)`; an empty text counts as none.
unfoldable pub override_for : Text → RevisionOverrides → Option Text
override_for artifact_id overrides = elim (row_for (λ o. o.0) artifact_id overrides) [
  | none ↦ none
  | some (a, []) ↦ none
  | some (a, c ∷ cs) ↦ some (c ∷ cs)
]

abbrev pub or_accepted : Option Text → Option Text → Option Text
or_accepted (some rev) accepted = some rev
or_accepted none none = none
or_accepted none (some []) = none
or_accepted none (some (c ∷ cs)) = some (c ∷ cs)

-- `overrides.get(artifact_id) or store.accepted_rev_id(artifact_id)`, none where that is empty
unfoldable pub rev_in_use : Text → RevisionOverrides → Store → Option Text
rev_in_use artifact_id overrides s =
    or_accepted (override_for artifact_id overrides) (accepted_rev_id artifact_id s)

abbrev pub is_of_type : Text → ArtifactRow → Bool
is_of_type t a = same a.artifact_type t

unfoldable pub write_gate_results :
    (Text → Text) → Documents → ℕ → Text → Text → List GateResult → StoreExec (List Text)
write_gate_results sha256 docs now rules_version run_id [] = pure []
write_gate_results sha256 docs now rules_version run_id (r ∷ rs) = do
  info ← add_revision sha256 now (record {
    artifact_id = gate_artifact_id r.gate_id r.target_artifact;
    artifact_type = codes "gate_result";
    content = docs.write_result r;
    produced_by = codes "gate-runner";
    run_id = some run_id;
    rules_version = some rules_version;
    deps = r.target_revision ∷ map (λ d. d.1) r.dep_versions;
    fixture = false;
    note = [];
  })
  written ← write_gate_results sha256 docs now rules_version run_id rs
  pure (info.revision_id ∷ written)

-- The dict is a list; an artifact has one pointer, so no key stands twice.
unfoldable pub results_of_rows :
    Documents → RevisionOverrides → List ArtifactRow → StoreExec (List (Text × GateResult))
results_of_rows docs overrides [] s = (ok [], s)
results_of_rows docs overrides (a ∷ rows) s =
    let rest = results_of_rows docs overrides rows s in
    elim (rev_in_use a.artifact_id overrides s) [
      | none ↦ rest
      | some rev_id ↦ elim (get_revision rev_id s).0 [
        | err e ↦ (err e, s)
        | ok rev ↦ elim rest.0 [
          | err e ↦ (err e, s)
          | ok results ↦ (ok ((a.artifact_id, docs.read_result rev.content) ∷ results), s)
        ]
      ]
    ]

unfoldable pub latest_gate_results :
    Documents → RevisionOverrides → StoreExec (List (Text × GateResult))
latest_gate_results docs overrides s =
    results_of_rows docs overrides (select (is_of_type (codes "gate_result")) (list_artifacts s)) s

-- An entry of `blocking`, with what its message names.
pub data Blocker : Type 0 where
  no_script : Blocker
  script_stale no_accepted from_fixture : Text → Blocker
  not_run : Text → Text → Blocker
  outdated : Text → Blocker
  not_passed : Text → GateStatus → Blocker
  no_reason : Text → Blocker

pub record GateEntry : Type 0 where
  pub gate_id : Text
  pub artifact_id : Option Text
  pub status : Option GateStatus
  pub current : Bool
  pub not_applicable_reason : Option Text

pub record Readiness : Type 0 where
  pub ready : Bool
  pub blocking : List Blocker
  pub summary : List GateEntry

abbrev pub is_empty_reason : Option Text → Bool
is_empty_reason none = true
is_empty_reason (some []) = true
is_empty_reason (some (c ∷ cs)) = false

abbrev pub is_current : Text → Text → GateResult → Bool
is_current rules_version rev_id r =
    same r.target_revision rev_id && same r.rules_version rules_version

-- What a result of the gate blocks.
unfoldable pub result_blockers : Text → Text → Text → GateResult → List Blocker
result_blockers rules_version gate_id rev_id r =
    if is_current rules_version rev_id r
    then elim r.status [
      | pass ↦ []
      | fail ↦ not_passed gate_id fail ∷ []
      | needs_review ↦ not_passed gate_id needs_review ∷ []
      | not_applicable ↦
          if is_empty_reason r.not_applicable_reason then no_reason gate_id ∷ [] else []
    ]
    else outdated gate_id ∷ []

unfoldable pub gate_report :
    Text → List (Text × GateResult) → Text → Text → Text → List Blocker × GateEntry
unfolding gate_artifact_id
gate_report rules_version results artifact_id rev_id gate_id =
    elim (row_for (λ p. p.0) (gate_artifact_id gate_id artifact_id) results) [
      | none ↦ (
        not_run gate_id artifact_id ∷ [],
        record {
          gate_id = gate_id;
          artifact_id = some artifact_id;
          status = none;
          current = false;
          not_applicable_reason = none;
        },
      )
      | some (key, r) ↦ (
        result_blockers rules_version gate_id rev_id r,
        record {
          gate_id = gate_id;
          artifact_id = some artifact_id;
          status = some r.status;
          current = is_current rules_version rev_id r;
          not_applicable_reason = none;
        },
      )
    ]

unfoldable pub gate_reports :
    Text → List (Text × GateResult) → Text → Text → List Text → List Blocker × List GateEntry
gate_reports rules_version results artifact_id rev_id [] = ([], [])
gate_reports rules_version results artifact_id rev_id (g ∷ gs) =
    let (blocking, entry) = gate_report rules_version results artifact_id rev_id g in
    let (more, entries) = gate_reports rules_version results artifact_id rev_id gs in
    (blocking ++ more, entry ∷ entries)

abbrev pub fixture_blockers : Text → Result StoreError Revision → List Blocker
fixture_blockers artifact_id (err e) = []
fixture_blockers artifact_id (ok rev) = if rev.fixture then from_fixture artifact_id ∷ [] else []

abbrev pub has_override : Text → RevisionOverrides → Bool
has_override artifact_id overrides = any (λ o. same o.0 artifact_id) overrides

abbrev pub late_blockers : RevisionOverrides → ArtifactRow → List Blocker
late_blockers overrides script =
    if script.stale && not (has_override script.artifact_id overrides)
    then script_stale script.artifact_id ∷ []
    else []

-- One round of the loop over the scripts.
unfoldable pub script_report :
    Text
    → RevisionOverrides
    → List (Text × GateResult)
    → ArtifactRow
    → Store
    → List Blocker × List GateEntry
script_report rules_version overrides results script s =
    let late = late_blockers overrides script in
    elim (or_accepted (override_for script.artifact_id overrides) script.accepted_rev) [
      | none ↦ (late ++ no_accepted script.artifact_id ∷ [], [])
      | some rev_id ↦
          let (blocking, entries) =
            gate_reports rules_version results script.artifact_id rev_id gate_order in
          (
            late ++ (fixture_blockers script.artifact_id (get_revision rev_id s).0 ++ blocking),
            entries,
          )
    ]

unfoldable pub script_reports :
    Text
    → RevisionOverrides
    → List (Text × GateResult)
    → List ArtifactRow
    → Store
    → List Blocker × List GateEntry
script_reports rules_version overrides results [] s = ([], [])
script_reports rules_version overrides results (a ∷ rows) s =
    let (blocking, entries) = script_report rules_version overrides results a s in
    let (more, others) = script_reports rules_version overrides results rows s in
    (blocking ++ more, entries ++ others)

abbrev pub inapplicable : Option (List Text) → Text → GateEntry
inapplicable outputs gate_id = record {
  gate_id = gate_id;
  artifact_id = none;
  status = some not_applicable;
  current = false;
  not_applicable_reason = some (gate_applicability gate_id outputs).reason;
}

abbrev pub is_nil {ℓ} : {A : Type ℓ} → List A → Bool
is_nil [] = true
is_nil (x ∷ xs) = false

abbrev pub or_deliverable : Documents → Store → Option (List Text) → Option (List Text)
or_deliverable docs s none = deliverable_outputs docs s
or_deliverable docs s (some outputs) = some outputs

abbrev pub judged : List Blocker → List GateEntry → Readiness
judged blocking summary = record { ready = is_nil blocking; blocking = blocking; summary = summary }

-- What is judged once the results are read.
unfoldable pub readiness :
    Text → RevisionOverrides → Option (List Text) → List (Text × GateResult) → Store → Readiness
readiness rules_version overrides outputs results s =
    if (gate_applicability (codes "G1") outputs).applicable
    then elim (select (is_of_type (codes "script")) (list_artifacts s)) [
      | [] ↦ judged (no_script ∷ []) []
      | a ∷ rows ↦
          let (blocking, summary) = script_reports rules_version overrides results (a ∷ rows) s in
          judged blocking summary
    ]
    else judged [] (map (inapplicable outputs) gate_order)

unfoldable pub export_readiness :
    Documents → Text → RevisionOverrides → Option (List Text) → StoreExec Readiness
unfolding deliverable_outputs
export_readiness docs rules_version overrides outputs s =
    elim (latest_gate_results docs overrides s).0 [
      | err e ↦ (err e, s)
      | ok results ↦
          (ok (readiness rules_version overrides (or_deliverable docs s outputs) results s), s)
    ]
