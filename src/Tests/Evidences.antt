-- ===== src/Tests/Evidences.antt =====
-- A claim, a source with a snapshot, and a review that approves the claim.
use native.Mathlib.Decide.{ℕ_discrete}
use pebs.Base.{
  max_of, ◌≡◌, refl, true, false, none, some, [], ◌∷◌, codes, ok, row_for, amend, text_dec, select,
  any, all, contains, ref_id, decimal, digits_from,
}
use pebs.Evidence.Whitespace.{normalize, squeeze, lstrip, strip, starts_with, is_inside, is_space}
use pebs.Evidence.Rows.{
  Claim, Source, Assessment, EvidenceStore, pending, supported, claim_types, support_relations,
  verdict_name, verdict_of, named,
}
use pebs.Evidence.Claims.{
  derived_status, first_of, same_verdict, results_of, set_claim_status, recompute_claim_status,
}
use pebs.Evidence.Sources.{
  quote_present, source_text, read_file, find_source, get_source, latest_source,
}
use pebs.Evidence.Assessments.{
  NewAssessment, checked_result, insert_assessment, add_assessment, is_blank, ClaimReview, decided,
  approve, record_decision, review_claim,
}
use pebs.Evidence.Assessments.Fresh.{IsUpToDate}
use pebs.Evidence.Assessments.Review.{review_claim-IsUpToDate, review_claim-supported}

program : Unit {0}
unfolding text_dec ℕ_discrete row_for amend select any all contains ref_id decimal digits_from
    normalize squeeze lstrip strip starts_with is_inside is_space claim_types support_relations
    verdict_name verdict_of named derived_status first_of same_verdict results_of set_claim_status
    recompute_claim_status quote_present source_text read_file find_source get_source checked_result
    insert_assessment add_assessment decided approve record_decision review_claim IsUpToDate
    latest_source max_of
program = tt

abbrev claim : Claim
claim = record {
  revision_id = codes "c@v1";
  claim_id = codes "c";
  project_id = codes "p";
  version = 1;
  text = codes "sleep helps memory";
  claim_type = codes "causal";
  population = codes "adults";
  usage = codes "case";
  status = pending;
  created_at = 10;
}

abbrev source : Source
source = record {
  revision_id = codes "s@v1";
  source_id = codes "s";
  project_id = codes "p";
  version = 1;
  source_type = codes "paper";
  title = codes "Sleep";
  identifiers = codes "{}";
  publish_date = none;
  publish_date_unknown = true;
  fetched_at = 11;
  content_level = codes "full";
  snapshot_path = some (codes "snapshots" ∷ codes "s.v1.txt" ∷ []);
  sha256 = none;
  retrieval_note = [];
}

abbrev store : EvidenceStore
store = record {
  project_id = codes "p";
  claims = claim ∷ [];
  sources = source ∷ [];
  assessments = [];
  files = ((codes "snapshots" ∷ codes "s.v1.txt" ∷ [], codes "we saw  that sleep\n helps")) ∷ [];
}

abbrev review : ClaimReview
review = record {
  claim_id = codes "c";
  version = 1;
  decision = codes "supported";
  reviewer = codes " Ada ";
  basis = codes "read it";
  source_id = some (codes "s");
  source_version = none;
  quote = codes " sleep helps\t";
  quote_location = codes "p. 1";
}

-- The status after the review.
reviewed :
    results_of (codes "c@v1") ((review_claim (codes "a1") 20 review store).1).assessments
    ≡ supported ∷ []
unfolding program
reviewed = refl

mixed : derived_status (supported ∷ pending ∷ []) ≡ supported
unfolding program
mixed = refl

store-IsUpToDate : IsUpToDate store
unfolding program
store-IsUpToDate = (refl, tt)

abbrev new : NewAssessment
new = record {
  claim_id = codes "c";
  claim_version = 1;
  source_id = codes "s";
  source_version = 1;
  quote = codes "sleep helps";
  quote_location = [];
  support = codes "indirect";
  result = codes "UNSUPPORTED";
  method = codes "auto";
  method_version = codes "1";
  design_note = [];
  scope = [];
  limitations = [];
  uncertainty = [];
  note = [];
}

review_claim-IsUpToDate_example : IsUpToDate (review_claim (codes "a1") 20 review store).1
review_claim-IsUpToDate_example =
    review_claim-IsUpToDate (codes "a1") 20 review store store-IsUpToDate

abbrev recorded : Assessment
recorded = record {
  assessment_id = codes "a1";
  project_id = codes "p";
  claim_rev = codes "c@v1";
  source_rev = codes "s@v1";
  quote = codes "sleep helps";
  quote_location = codes "p. 1";
  support = codes "direct";
  design_note = codes "人工复核：read it";
  scope = [];
  limitations = [];
  uncertainty = [];
  method = codes "human-review";
  method_version = codes "manual-1.0";
  verified_at = 20;
  result = supported;
  note = codes "reviewer=Ada";
}

review-recorded : (review_claim (codes "a1") 20 review store).0 ≡ ok recorded
unfolding program
review-recorded = refl

review_claim-supported_example :
    (is_blank (strip review.reviewer) ≡ false)
    × (is_blank (strip review.basis) ≡ false)
    × (decided review.decision ≡ some supported)
    × (is_blank recorded.quote ≡ false)
    × (recorded.quote ≡ strip review.quote)
    × (quote_present recorded.source_rev recorded.quote store ≡ true)
    × ((r : Source) × (review.source_id ≡ some r.source_id)
        × (find_source r.source_id r.version store.sources ≡ some r)
        × (recorded.source_rev ≡ ref_id b'v' r.source_id r.version)
        × (quote_present r.revision_id review.quote store ≡ true))
review_claim-supported_example =
    review_claim-supported (codes "a1") 20 review store recorded review-recorded refl
