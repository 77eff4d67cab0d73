-- ===== src/Evidence/Assessments/Fresh.antt =====
-- `add_assessment` of pebs/evidence.py keeps the status of each claim up to date.
use native.Mathlib.Decide.{ℕ_discrete}
use pebs.Base.{
  ℕ, true, ◌||◌, ◌≡◌, refl, ◌⊎◌, inl, inr, none, some, List, [], ◌∷◌, ◌++◌, Text, text_dec, same,
  arith, if◌then◌else◌, select, row_for, amend, All, ref_id, contains, ok, err, Option-cases,
  Bool-cases, append-nil,
}
use pebs.Evidence.Rows.{
  Verdict, pending, supported, qualify_required, unsupported, disputed, human_review_required,
  verdict_name, verdict_of, named, Claim, Assessment, EvidenceStore, EvidenceError, invalid_support,
  invalid_result, quote_not_locatable, integrity_error, support_relations,
}
use pebs.Evidence.Claims.{derived_status, results_of, recompute_claim_status, set_claim_status}
use pebs.Evidence.Sources.{quote_present}
use pebs.Evidence.Assessments.{
  NewAssessment, is_blank, assessment_row, insert_assessment, checked_result, add_assessment,
}

pub verdict_of-verdict_name : (v : Verdict) → verdict_of (verdict_name v) ≡ some v
unfolding verdict_of verdict_name named text_dec ℕ_discrete
verdict_of-verdict_name pending = refl
verdict_of-verdict_name supported = refl
verdict_of-verdict_name qualify_required = refl
verdict_of-verdict_name unsupported = refl
verdict_of-verdict_name disputed = refl
verdict_of-verdict_name human_review_required = refl

abbrev pub status_for : Text → EvidenceStore → Verdict
status_for claim_rev s = derived_status (results_of claim_rev s.assessments)

abbrev pub refreshed : Text → EvidenceStore → EvidenceStore
refreshed claim_rev s = record s {
  claims =
      amend (λ c. c.revision_id) claim_rev (λ c. record c { status = status_for claim_rev s })
        s.claims;
}

recompute_claim_status_lem :
    (claim_id : Text) (version : ℕ) (s : EvidenceStore)
    → recompute_claim_status claim_id version s ≡ (
      ok (status_for (ref_id b'v' claim_id version) s),
      refreshed (ref_id b'v' claim_id version) s,
    )
unfolding recompute_claim_status set_claim_status
recompute_claim_status_lem claim_id version s =
    ground (arith, verdict_of-verdict_name (status_for (ref_id b'v' claim_id version) s))

abbrev pub with_assessment : Assessment → EvidenceStore → EvidenceStore
with_assessment a s = record s { assessments = s.assessments ++ a ∷ [] }

-- The conditions under which an assessment is recorded.
pub record IsRecordable (fresh : Text) (new : NewAssessment) (s : EvidenceStore) (result : Verdict)
    : Type 0 where
  pub known_support : contains new.support support_relations ≡ true
  pub known_result : verdict_of new.result ≡ some result
  pub located :
      (is_blank new.quote
        || quote_present (ref_id b'v' new.source_id new.source_version) new.quote s)
      ≡ true
  pub new_id : row_for (λ a. a.assessment_id) fresh s.assessments ≡ none

-- An assessment is refused, and then nothing changes; or its support and its result are known names,
-- its quote is empty or stands in the snapshot of the source, and its identifier is new. Then it is
-- the last row, and the claim version it is about has the status that all its results give.
pub add_assessment_lem :
    (fresh : Text) (now : ℕ) (new : NewAssessment) (s : EvidenceStore)
    → ((e : EvidenceError) × (add_assessment fresh now new s ≡ (err e, s)))
      ⊎ ((result : Verdict) × IsRecordable fresh new s result
          × (add_assessment fresh now new s ≡ (
            ok (assessment_row fresh now new result s),
            refreshed
                (ref_id b'v' new.claim_id new.claim_version)
                (with_assessment (assessment_row fresh now new result s) s),
          )))
unfolding add_assessment checked_result insert_assessment
add_assessment_lem fresh now new s = elim (Bool-cases (contains new.support support_relations)) [
  | inr strange ↦ inl (invalid_support new.support, ground arith)
  | inl known_support ↦ elim (Option-cases (verdict_of new.result)) [
    | inl strange ↦ inl (invalid_result new.result, ground arith)
    | inr (result, known_result) ↦
        elim (Bool-cases (
          is_blank new.quote
          || quote_present (ref_id b'v' new.source_id new.source_version) new.quote s)) [
            | inr missing ↦ inl (quote_not_locatable, ground arith)
            | inl located ↦
                elim (Option-cases (row_for (λ a. a.assessment_id) fresh s.assessments)) [
                  | inr (old, taken) ↦ inl (integrity_error fresh, ground arith)
                  | inl new_id ↦ inr (
                    result,
                    record {
                      known_support = known_support;
                      known_result = known_result;
                      located = located;
                      new_id = new_id;
                    },
                    ground (
                      arith,
                      recompute_claim_status_lem new.claim_id new.claim_version
                          (with_assessment (assessment_row fresh now new result s) s),
                    ),
                  )
                ]
          ]
  ]
]

results_of-snoc :
    (rev : Text) (a : Assessment) (as' : List Assessment)
    → results_of rev (as' ++ a ∷ [])
      ≡ results_of rev as' ++ (if same a.claim_rev rev then a.result ∷ [] else [])
unfolding results_of select
results_of-snoc rev a [] = ground arith
results_of-snoc rev a (b ∷ as') = ground (arith, results_of-snoc rev a as')

-- Every claim version has the status that its results give.
unfoldable pub IsUpToDate : EvidenceStore → Type 0
IsUpToDate s = All (λ c. c.status ≡ status_for c.revision_id s) s.claims

refreshed-All :
    (a : Assessment) (s : EvidenceStore) (claims : List Claim)
    → All (λ c. c.status ≡ status_for c.revision_id s) claims
    → All
        (λ c. c.status ≡ status_for c.revision_id (with_assessment a s))
        (amend
          (λ c. c.revision_id)
          a.claim_rev
          (λ c. record c { status = status_for a.claim_rev (with_assessment a s) })
          claims)
unfolding amend
refreshed-All a s [] h = tt
refreshed-All a s (c ∷ claims) h = (
  ground (
    arith,
    results_of-snoc c.revision_id a s.assessments,
    append-nil (results_of c.revision_id s.assessments),
  ),
  refreshed-All a s claims h.1,
)

-- If each claim version has the status that its results give, it has it after `add_assessment`
-- too, whatever the call answers.
pub add_assessment-IsUpToDate :
    (fresh : Text) (now : ℕ) (new : NewAssessment) (s : EvidenceStore)
    → IsUpToDate s
    → IsUpToDate (add_assessment fresh now new s).1
unfolding IsUpToDate
add_assessment-IsUpToDate fresh now new s h = elim (add_assessment_lem fresh now new s) [
  | inl (e, refused) ↦ rw refused h
  | inr (result, fits, done) ↦
      rw done (refreshed-All (assessment_row fresh now new result s) s s.claims h)
]
