-- ===== src/Evidence/Assessments.antt =====
-- The assessments section of pebs/evidence.py. The identifier that `uuid4` draws is an argument.
pub mod Fresh
pub mod Review
use pebs.Base.{
  ℕ, zero, suc, Bool, true, false, not, ◌&&◌, ◌||◌, Option, none, some, List, [], ◌∷◌, ◌++◌, Text,
  codes, same, if◌then◌else◌, contains, ref_id, row_for, ok, err, pure, raise, gets, modify,
  raise_if, ◌>>=◌, ◌>>◌,
}
use pebs.Evidence.Whitespace.{strip}
use pebs.Evidence.Rows.{
  Verdict, pending, supported, qualify_required, unsupported, disputed, human_review_required,
  verdict_name, verdict_of, support_relations, Assessment, Source, EvidenceStore, EvidenceError,
  invalid_support, invalid_result, quote_not_locatable, reviewer_missing, basis_missing,
  unknown_decision, source_and_quote_missing, approval_refused, integrity_error,
}
use pebs.Evidence.Claims.{EvidenceExec, recompute_claim_status}
use pebs.Evidence.Sources.{quote_present, get_source}

-- The arguments of `add_assessment`.
pub record NewAssessment : Type 0 where
  pub claim_id : Text
  pub claim_version : ℕ
  pub source_id : Text
  pub source_version : ℕ
  pub quote : Text
  pub quote_location : Text
  pub support : Text
  pub result : Text
  pub method : Text
  pub method_version : Text
  pub design_note : Text
  pub scope : Text
  pub limitations : Text
  pub uncertainty : Text
  pub note : Text

abbrev pub is_blank : Text → Bool
is_blank [] = true
is_blank (c ∷ cs) = false

abbrev pub assessment_row : Text → ℕ → NewAssessment → Verdict → EvidenceStore → Assessment
assessment_row fresh now new result s = record {
  assessment_id = fresh;
  project_id = s.project_id;
  claim_rev = ref_id b'v' new.claim_id new.claim_version;
  source_rev = ref_id b'v' new.source_id new.source_version;
  quote = new.quote;
  quote_location = new.quote_location;
  support = new.support;
  design_note = new.design_note;
  scope = new.scope;
  limitations = new.limitations;
  uncertainty = new.uncertainty;
  method = new.method;
  method_version = new.method_version;
  verified_at = now;
  result = result;
  note = new.note;
}

-- INSERT INTO assessments, which fails where the primary key is taken
unfoldable pub insert_assessment : Assessment → EvidenceExec Unit
insert_assessment a s = elim (row_for (λ b. b.assessment_id) a.assessment_id s.assessments) [
  | some old ↦ (err (integrity_error a.assessment_id), s)
  | none ↦ (ok tt, record s { assessments = s.assessments ++ a ∷ [] })
]

-- `result not in ASSESSMENT_RESULTS`
unfoldable pub checked_result : Text → EvidenceExec Verdict
checked_result result = elim (verdict_of result) [
  | none ↦ raise (invalid_result result)
  | some v ↦ pure v
]

unfoldable pub add_assessment : Text → ℕ → NewAssessment → EvidenceExec Assessment
add_assessment fresh now new = do
  raise_if (not (contains new.support support_relations)) (invalid_support new.support)
  result ← checked_result new.result
  found ← gets (quote_present (ref_id b'v' new.source_id new.source_version) new.quote)
  raise_if (not (is_blank new.quote) && not found) quote_not_locatable
  row ← gets (assessment_row fresh now new result)
  insert_assessment row
  recompute_claim_status new.claim_id new.claim_version
  pure row

-- `mapping.get(decision)`
unfoldable pub decided : Text → Option Verdict
decided decision =
    if same decision (codes "supported")
    then some supported
    else if same decision (codes "qualify")
    then some qualify_required
    else if same decision (codes "unsupported")
    then some unsupported
    else if same decision (codes "disputed")
    then some disputed
    else if same decision (codes "human_review")
    then some human_review_required
    else none

-- The arguments of `review_claim`.
pub record ClaimReview : Type 0 where
  pub claim_id : Text
  pub version : ℕ
  pub decision : Text
  pub reviewer : Text
  pub basis : Text
  pub source_id : Option Text
  pub source_version : Option ℕ
  pub quote : Text
  pub quote_location : Text

abbrev pub manual : ClaimReview → Text → ℕ → Text → Verdict → NewAssessment
manual review source_id source_version support result = record {
  claim_id = review.claim_id;
  claim_version = review.version;
  source_id = source_id;
  source_version = source_version;
  quote = strip review.quote;
  quote_location = review.quote_location;
  support = support;
  result = verdict_name result;
  method = codes "human-review";
  method_version = codes "manual-1.0";
  design_note = codes "人工复核：" ++ strip review.basis;
  scope = [];
  limitations = [];
  uncertainty = [];
  note = codes "reviewer=" ++ strip review.reviewer;
}

-- `source_id or "manual_review"`
abbrev pub or_manual_review : Option Text → Text
or_manual_review (some (c ∷ cs)) = c ∷ cs
or_manual_review _ = codes "manual_review"

-- `source_version or 1`
abbrev pub or_one : Option ℕ → ℕ
or_one (some (suc n)) = suc n
or_one _ = 1

abbrev pub review_support : Verdict → Text
review_support unsupported = codes "insufficient"
review_support _ = codes "contextual"

-- The branch of a review that turns the claim SUPPORTED.
unfoldable pub approve : Text → ℕ → ClaimReview → EvidenceExec Assessment
approve fresh now review = elim review.source_id [
  | some (c ∷ cs) ↦ do
    raise_if (is_blank (strip review.quote)) source_and_quote_missing
    source ← get_source (c ∷ cs) review.source_version
    found ← gets (quote_present source.revision_id review.quote)
    raise_if (not found) approval_refused
    add_assessment fresh now
        (manual review source.source_id source.version (codes "direct") supported)
  | _ ↦ raise source_and_quote_missing
]

unfoldable pub record_decision : Text → ℕ → ClaimReview → Verdict → EvidenceExec Assessment
record_decision fresh now review supported = approve fresh now review
record_decision fresh now review result = add_assessment fresh now (
    manual review (or_manual_review review.source_id) (or_one review.source_version)
      (review_support result) result)

unfoldable pub review_claim : Text → ℕ → ClaimReview → EvidenceExec Assessment
review_claim fresh now review = do
  raise_if (is_blank (strip review.reviewer)) reviewer_missing
  raise_if (is_blank (strip review.basis)) basis_missing
  elim (decided review.decision) [
    | none ↦ raise (unknown_decision review.decision)
    | some result ↦ record_decision fresh now review result
  ]
