-- ===== src/Gates.antt =====
-- pebs/gates.py. Here the gate contracts; the children have the results and the gates.
pub mod Results
pub mod Documents
pub mod Checks
use pebs.Base.{List, [], ◌∷◌, Text, codes}

-- What a gate evaluates, the step that evaluates it, the artifacts that it observes where they are
-- planned, and those that the step itself produces.
pub record GateContract : Type 0 where
  pub gate_id : Text
  pub scope : Text
  pub evaluator_step : Text
  pub observed_artifacts_if_planned : List Text
  pub produced_and_evaluated_in_same_step : List Text

abbrev pub script_gate : Text → List Text → GateContract
script_gate gate_id observed = record {
  gate_id = gate_id;
  scope = codes "script";
  evaluator_step = codes "gates";
  observed_artifacts_if_planned = observed;
  produced_and_evaluated_in_same_step = [];
}

-- `GATE_CONTRACTS`
unfoldable pub gate_contracts : List GateContract
gate_contracts =
    script_gate (codes "G1")
      (codes "requirements" ∷ codes "lesson_plan" ∷ codes "worksheet" ∷ codes "assessment" ∷ [])
    ∷ script_gate (codes "G2") (codes "case" ∷ [])
    ∷ script_gate (codes "G3")
        (codes "learning_design" ∷ codes "teaching_plan" ∷ codes "assessment" ∷ codes "case" ∷ [])
    ∷ script_gate (codes "G4") (codes "assessment" ∷ codes "case" ∷ [])
    ∷ script_gate (codes "G5") (codes "learning_design" ∷ codes "teaching_plan" ∷ [])
    ∷ script_gate (codes "G6") (
        codes "requirements"
        ∷ codes "media_plan"
        ∷ codes "diagrams"
        ∷ codes "load_review"
        ∷ codes "animation_decisions"
        ∷ codes "storyboard"
        ∷ [])
    ∷ script_gate (codes "G7") (codes "template_spec" ∷ [])
    ∷ record {
      gate_id = codes "G8";
      scope = codes "export_manifest";
      evaluator_step = codes "export";
      observed_artifacts_if_planned = codes "pptx_deck" ∷ [];
      produced_and_evaluated_in_same_step = codes "export_manifest" ∷ [];
    }
    ∷ []
