-- ===== src/Tests/Judging.antt =====
-- A script with a case and a claim, and what the gates on requirements and evidence say of it.
use native.Mathlib.Decide.{ℕ_discrete}
use pebs.Base.{
  take, true, false, ◌≡◌, ◌↔◌, refl, none, some, Option, List, [], ◌∷◌, Text, codes, text_dec,
  maybe_dec, decimal, digits_from, ref_id, select, any, contains, row_for, text_leb, join, All,
  Result, ok, err,
}
use pebs.Store.Rows.{Pointer, Revision, Store}
use pebs.Store.Artifacts.{accepted_rev_id, get_revision, accepted_revision}
use pebs.Store.Listings.{list_artifacts, accepted_content, sort_by, insert_by, row_leb}
use pebs.Evidence.Whitespace.{is_space, lstrip, strip, starts_with, is_inside}
use pebs.Evidence.Rows.{Claim, EvidenceStore, supported, disputed, verdict_name}
use pebs.Evidence.Claims.{find_claim, same_verdict, claim_status}
use pebs.Evidence.Support.{
  is_digit, read_digits, read_signed, int_of, split_ref, claim_of_ref, is_supported,
}
use pebs.Evidence.Support.Cited.{is_supported-ref_id}
use pebs.Gates.Results.{GateResult, GateStatus, pass, fail, override_for, rev_in_use}
use pebs.Gates.Documents.{
  LearningDesign, TeachingPlan, AssessmentItem, no_design, no_plan, Script, Requirements, no_script,
  no_requirements, Readers,
}
use pebs.Gates.Checks.{
  collected, GateContext, GateError, content_in_use, document_in_use, require_rev, make_result,
  documents_issues, all_script_text, script_units_of_kind,
}
use pebs.Gates.Checks.Evidenced.{
  ref_issues, unit_issues, case_ref_issues, fact_issues, case_issues, case_rows, g2_evidence,
  IsBacked, IsBackedCase, g2_evidence_iff,
}
use pebs.Gates.Checks.Required.{
  conflict_issues, word_issues, section_for, required_cases, case_count_issues, wanted_issues,
  section_issues, term_issues, g1_requirements,
}
use pebs.Gates.Checks.Required.Decided.{Meets, g1_requirements_iff}
use pebs.Gates.Checks.Taught.{
  RouterRules, put_goal, goal_table, strategy_for, allowed_strategies, goal_issues, design_issues,
  note_issues, target_issues, linked_issues, states, hypothesis_issues, no_items, document_of,
  g3_pedagogy,
}
use pebs.Gates.Checks.Taught.Decided.{Teaches, g3_pedagogy_iff}

program : Unit {0}
unfolding text_dec maybe_dec ℕ_discrete select any row_for contains text_leb join decimal
    digits_from ref_id accepted_rev_id get_revision accepted_revision list_artifacts
    accepted_content sort_by insert_by row_leb is_space lstrip strip starts_with is_inside
    verdict_name find_claim same_verdict claim_status is_digit read_digits read_signed int_of
    split_ref claim_of_ref is_supported override_for rev_in_use collected content_in_use
    document_in_use require_rev make_result all_script_text script_units_of_kind ref_issues
    unit_issues case_ref_issues fact_issues case_issues documents_issues g2_evidence conflict_issues
    word_issues section_for required_cases case_count_issues wanted_issues section_issues
    term_issues g1_requirements put_goal goal_table strategy_for allowed_strategies goal_issues
    design_issues note_issues target_issues linked_issues states hypothesis_issues g3_pedagogy take
program = tt

abbrev pointer : Text → Text → Text → Pointer
pointer artifact_id artifact_type rev = record {
  artifact_id = artifact_id;
  project_id = codes "p";
  artifact_type = artifact_type;
  accepted_rev = some rev;
  stale = false;
  locked = false;
}

abbrev revision : Text → Text → Text → Revision
revision revision_id artifact_id artifact_type = record {
  revision_id = revision_id;
  project_id = codes "p";
  artifact_id = artifact_id;
  artifact_type = artifact_type;
  version = 1;
  content = [];
  content_hash = codes "h";
  produced_by = [];
  produced_by_run = none;
  rules_version = none;
  fixture = false;
  note = [];
  created_at = 0;
}

abbrev pub store : Store
store = record {
  project_id = codes "p";
  pointers =
      pointer (codes "script:1") (codes "script") (codes "s")
      ∷ pointer (codes "case:1") (codes "case") (codes "c")
      ∷ pointer (codes "requirements") (codes "requirements") (codes "q")
      ∷ [];
  revisions =
      revision (codes "s") (codes "script:1") (codes "script")
      ∷ revision (codes "c") (codes "case:1") (codes "case")
      ∷ revision (codes "q") (codes "requirements") (codes "requirements")
      ∷ [];
  deps = [];
  changesets = [];
  items = [];
  runs = [];
  steps = [];
  files = [];
}

abbrev claim : Claim
claim = record {
  revision_id = codes "clm@v1";
  claim_id = codes "clm";
  project_id = codes "p";
  version = 1;
  text = [];
  claim_type = codes "causal";
  population = [];
  usage = [];
  status = supported;
  created_at = 0;
}

abbrev evidence : EvidenceStore
evidence = record {
  project_id = codes "p";
  claims = claim ∷ record claim { claim_id = codes "other"; status = disputed } ∷ [];
  sources = [];
  assessments = [];
  files = [];
}

abbrev pub context : GateContext
context = record { store = store; evidence = evidence; run_id = codes "r"; overrides = [] }

-- The same with a design and a plan for the section.
abbrev pub teaching_context : GateContext
teaching_context = record context {
  store = record store {
    pointers =
        pointer (codes "learning_design:1") (codes "learning_design") (codes "d")
        ∷ pointer (codes "teaching_plan:1") (codes "teaching_plan") (codes "t")
        ∷ store.pointers;
    revisions =
        revision (codes "d") (codes "learning_design:1") (codes "learning_design")
        ∷ revision (codes "t") (codes "teaching_plan:1") (codes "teaching_plan")
        ∷ store.revisions;
  };
}

abbrev pub readers : List Text → Readers
readers refs = record {
  read_design = λ t. record {
    goals = record { goal_id = codes "g"; knowledge_type = none } ∷ [];
    assessment_evidence = true;
    difficulties = record { basis = codes "model_hypothesis"; text = codes " guess " } ∷ [];
  };
  read_plan = λ t. record {
    strategies = record { goal_ref = some (codes "g"); strategy = some (codes "retrieval") } ∷ [];
    pck_notes = true;
    udl = none;
  };
  read_assessment =
      λ t. record { assessment_id = some (codes "a"); target_goal = some (codes "g") } ∷ [];
  read_script = λ t. record {
    section_id = some (codes "1");
    units =
        record {
          unit_id = some (codes "u");
          kind = codes "case";
          text = codes "memory";
          placeholder = false;
          claim_refs = refs;
        }
        ∷ [];
    word_count = record { method = some (codes "m"); count = some 1; in_range = true };
  };
  read_case = λ t. record {
    section_id = some (codes "1");
    claim_refs = codes "clm@v1" ∷ [];
    new_factual_claims = false;
    linked_goal = some (codes "g");
  };
  read_requirements = λ t. record {
    items = [];
    word_min = some 1;
    word_max = some 9;
    sections =
        record {
          section_id = some (codes "1");
          required_case_count = none;
          required_components = codes "case" ∷ [];
        }
        ∷ [];
    outputs = codes "script" ∷ [];
    terminology = codes "mem" ∷ [];
  };
}

abbrev pub status_of : Result GateError GateResult → Option GateStatus
status_of (ok r) = some r.status
status_of (err e) = none

backed :
    status_of (g2_evidence (readers (codes "clm@v1" ∷ [])) (codes "v") (codes "script:1") context)
    ≡ some pass
unfolding program
backed = refl

disputed_reference :
    status_of (g2_evidence (readers (codes "other@v1" ∷ [])) (codes "v") (codes "script:1") context)
    ≡ some fail
unfolding program
disputed_reference = refl

abbrev pub result : Text → List (Text × Text) → GateResult
result gate_id deps = record {
  gate_id = gate_id;
  target_artifact = codes "script:1";
  target_revision = codes "s";
  target_hash = codes "h";
  dep_versions = deps;
  rules_version = codes "v";
  status = pass;
  issues = [];
  run_id = codes "r";
  not_applicable_reason = none;
}

g2_evidence_iff_example :
    (require_rev (codes "script:1") context ≡ ok (codes "s", codes "h"))
    × (script : Script) × (document_in_use
          (readers (codes "clm@v1" ∷ [])).read_script
          no_script
          (codes "script:1")
          context
        ≡ ok script)
    × ((GateStatus.pass ≡ pass) ↔ (
        All (IsBacked evidence) script.units
        × All (IsBackedCase (readers (codes "clm@v1" ∷ [])) context script) (case_rows context)))
unfolding program
g2_evidence_iff_example =
    g2_evidence_iff (readers (codes "clm@v1" ∷ [])) (codes "v") (codes "script:1") context
      (result (codes "G2") []) refl

g1_requirements_iff_example :
    (require_rev (codes "script:1") context ≡ ok (codes "s", codes "h"))
    × (script : Script) × (reqs : Requirements) × (document_in_use
          (readers []).read_script
          no_script
          (codes "script:1")
          context
        ≡ ok script)
    × (document_in_use (readers []).read_requirements no_requirements (codes "requirements") context
        ≡ ok reqs)
    × ((GateStatus.pass ≡ pass) ↔ Meets (codes "m") reqs script context)
unfolding program
g1_requirements_iff_example =
    g1_requirements_iff (readers []) (codes "m") (codes "v") (codes "script:1") context
      (result (codes "G1") ((codes "requirements", codes "q") ∷ [])) refl

is_supported-ref_id_example :
    (is_supported (ref_id b'v' (codes "clm") 1) evidence ≡ true)
    ↔ ((claim_status (codes "clm") 1 evidence).0 ≡ ok supported)
unfolding program
is_supported-ref_id_example = is_supported-ref_id (codes "clm") 1 evidence refl

abbrev rules : RouterRules
rules = record {
  strategy_map = (codes "concept", codes "retrieval" ∷ []) ∷ [];
  fallback_strategy = codes "explicit-instruction";
}

taught :
    status_of (g3_pedagogy (readers []) rules (codes "v") (codes "script:1") teaching_context)
    ≡ some pass
unfolding program
taught = refl

-- No design, no plan: the gate does not pass.
untaught :
    status_of (g3_pedagogy (readers []) rules (codes "v") (codes "script:1") context) ≡ some fail
unfolding program
untaught = refl

g3_pedagogy_iff_example :
    (require_rev (codes "script:1") teaching_context ≡ ok (codes "s", codes "h"))
    × (script : Script) × (design : LearningDesign) × (plan : TeachingPlan) × (items : List
        AssessmentItem)
    × (document_in_use (readers []).read_script no_script (codes "script:1") teaching_context
        ≡ ok script)
    × (document_of
          (readers []).read_design
          no_design
          (codes "learning_design")
          script
          teaching_context
        ≡ ok design)
    × (document_of (readers []).read_plan no_plan (codes "teaching_plan") script teaching_context
        ≡ ok plan)
    × (document_of
          (readers []).read_assessment
          no_items
          (codes "assessment")
          script
          teaching_context
        ≡ ok items)
    × ((GateStatus.pass ≡ pass)
        ↔ Teaches (readers []) rules teaching_context script design plan items)
unfolding program
g3_pedagogy_iff_example =
    g3_pedagogy_iff (readers []) rules (codes "v") (codes "script:1") teaching_context
      (result (codes "G3")
        ((codes "learning_design", codes "d") ∷ (codes "teaching_plan", codes "t") ∷ []))
      refl
