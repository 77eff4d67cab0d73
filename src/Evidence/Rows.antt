-- ===== src/Evidence/Rows.antt =====
-- The tables of pebs/evidence.py (EVIDENCE_SCHEMA), a record for each, the results of an assessment
-- and the errors. A `result` or `status` column holds a name of ASSESSMENT_RESULTS at all times:
-- each write checks it. `created_at` and the like hold the second that `now_iso` prints.
use pebs.Base.{ℕ, Bool, Option, none, some, List, [], ◌∷◌, Text, codes, same, if◌then◌else◌}
use pebs.Store.Rows.{File}

pub data Verdict : Type 0 where
  pending supported qualify_required unsupported disputed human_review_required : Verdict

unfoldable pub verdict_name : Verdict → Text
verdict_name pending = codes "PENDING"
verdict_name supported = codes "SUPPORTED"
verdict_name qualify_required = codes "QUALIFY_REQUIRED"
verdict_name unsupported = codes "UNSUPPORTED"
verdict_name disputed = codes "DISPUTED"
verdict_name human_review_required = codes "HUMAN_REVIEW_REQUIRED"

abbrev pub assessment_results : List Verdict
assessment_results =
    pending ∷ supported ∷ qualify_required ∷ unsupported ∷ disputed ∷ human_review_required ∷ []

unfoldable pub named : Text → List Verdict → Option Verdict
unfolding verdict_name
named name [] = none
named name (v ∷ vs) = if same name (verdict_name v) then some v else named name vs

-- `name in ASSESSMENT_RESULTS`, and which it is.
unfoldable pub verdict_of : Text → Option Verdict
unfolding named
verdict_of name = named name assessment_results

unfoldable pub claim_types : List Text
claim_types =
    codes "descriptive"
    ∷ codes "correlational"
    ∷ codes "predictive"
    ∷ codes "causal"
    ∷ codes "mechanistic"
    ∷ codes "theoretical"
    ∷ codes "speculative"
    ∷ []

unfoldable pub support_relations : List Text
support_relations =
    codes "direct"
    ∷ codes "indirect"
    ∷ codes "contextual"
    ∷ codes "contradictory"
    ∷ codes "insufficient"
    ∷ []

pub record Claim : Type 0 where
  pub revision_id : Text
  pub claim_id : Text
  pub project_id : Text
  pub version : ℕ
  pub text : Text
  pub claim_type : Text
  pub population : Text
  pub usage : Text
  pub status : Verdict
  pub created_at : ℕ

pub record Source : Type 0 where
  pub revision_id : Text
  pub source_id : Text
  pub project_id : Text
  pub version : ℕ
  pub source_type : Text
  pub title : Text
  pub identifiers : Text
  pub publish_date : Option Text
  pub publish_date_unknown : Bool
  pub fetched_at : ℕ
  pub content_level : Text
  pub snapshot_path : Option (List Text)
  pub sha256 : Option Text
  pub retrieval_note : Text

pub record Assessment : Type 0 where
  pub assessment_id : Text
  pub project_id : Text
  pub claim_rev : Text
  pub source_rev : Text
  pub quote : Text
  pub quote_location : Text
  pub support : Text
  pub design_note : Text
  pub scope : Text
  pub limitations : Text
  pub uncertainty : Text
  pub method : Text
  pub method_version : Text
  pub verified_at : ℕ
  pub result : Verdict
  pub note : Text

-- An `EvidenceStore`: its tables, and the snapshots under `base_dir`.
pub record EvidenceStore : Type 0 where
  pub project_id : Text
  pub claims : List Claim
  pub sources : List Source
  pub assessments : List Assessment
  pub files : List File

pub data EvidenceError : Type 0 where
  invalid_claim_type invalid_status invalid_support invalid_result : Text → EvidenceError
  claim_not_found source_not_found : Text → ℕ → EvidenceError
  quote_not_locatable : EvidenceError
  reviewer_missing basis_missing : EvidenceError
  unknown_decision : Text → EvidenceError
  source_and_quote_missing approval_refused : EvidenceError
  integrity_error : Text → EvidenceError
