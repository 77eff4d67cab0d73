-- ===== src/Evidence/Assessments/Review.antt =====
-- `review_claim` of pebs/evidence.py: what a human decision can and cannot do.
use pebs.Base.{
  ℕ, true, false, ◌≡◌, ◌≢◌, refl, sym, ap, ◌∙◌, ◌⊎◌, inl, inr, Option, none, some, List, [], ◌∷◌,
  Text, arith, codes, ref_id, Result, ok, err, Option-cases, Bool-cases,
}
use pebs.Evidence.Whitespace.{strip}
use pebs.Evidence.Rows.{
  Verdict, pending, supported, qualify_required, unsupported, disputed, human_review_required,
  verdict_name, verdict_of, Assessment, EvidenceStore, EvidenceError, source_and_quote_missing,
  source_not_found, approval_refused, reviewer_missing, basis_missing, unknown_decision, Source,
}
use pebs.Evidence.Sources.{quote_present, get_source, source_version_or_latest, find_source}
use pebs.Evidence.Assessments.{
  NewAssessment, is_blank, add_assessment, ClaimReview, decided, manual, review_support,
  or_manual_review, or_one, approve, record_decision, review_claim,
}
use pebs.Evidence.Assessments.Fresh.{
  IsUpToDate, add_assessment_lem, add_assessment-IsUpToDate, verdict_of-verdict_name,
}

find_source-id :
    (source_id : Text) (v : ℕ) (sources : List Source) (r : Source)
    → find_source source_id v sources ≡ some r
    → r.source_id ≡ source_id
unfolding find_source
find_source-id source_id v [] r h = cc
find_source-id source_id v (q ∷ sources) r h = ground (arith, find_source-id source_id v sources r)

find_source-version :
    (source_id : Text) (v : ℕ) (sources : List Source) (r : Source)
    → find_source source_id v sources ≡ some r
    → r.version ≡ v
unfolding find_source
find_source-version source_id v [] r h = cc
find_source-version source_id v (q ∷ sources) r h =
    ground (arith, find_source-version source_id v sources r)

-- A row that is found is what its own name and version find.
find_source_self :
    (source_id : Text) (v : ℕ) (sources : List Source) (r : Source)
    → find_source source_id v sources ≡ some r
    → find_source r.source_id r.version sources ≡ some r
find_source_self source_id v sources r h =
    ap (λ i. find_source i r.version sources) (find_source-id source_id v sources r h)
    ∙ ap (λ w. find_source source_id w sources) (find_source-version source_id v sources r h)
    ∙ h

-- A quote that is recorded stands in the snapshot of the source that the row names.
recorded-quote :
    (fresh : Text) (now : ℕ) (new : NewAssessment) (s : EvidenceStore) (row : Assessment)
    → is_blank new.quote ≡ false
    → (add_assessment fresh now new s).0 ≡ ok row
    → (row.quote ≡ new.quote) × (quote_present row.source_rev new.quote s ≡ true)
recorded-quote fresh now new s row filled h = elim (add_assessment_lem fresh now new s) [
  | inl (e, refused) ↦ absurd (ground arith)
  | inr (result, fits, done) ↦ (ground arith, ground (arith, fits.located))
]

recorded-source :
    (fresh : Text) (now : ℕ) (new : NewAssessment) (s : EvidenceStore) (row : Assessment)
    → (add_assessment fresh now new s).0 ≡ ok row
    → row.source_rev ≡ ref_id b'v' new.source_id new.source_version
recorded-source fresh now new s row h = elim (add_assessment_lem fresh now new s) [
  | inl (e, refused) ↦ absurd (ground arith)
  | inr (result, fits, done) ↦ ground arith
]

recorded-result :
    (fresh : Text) (now : ℕ) (new : NewAssessment) (s : EvidenceStore) (row : Assessment)
    (v : Verdict)
    → verdict_name v ≡ new.result
    → (add_assessment fresh now new s).0 ≡ ok row
    → row.result ≡ v
recorded-result fresh now new s row v named h = elim (add_assessment_lem fresh now new s) [
  | inl (e, refused) ↦ absurd (ground arith)
  | inr (result, fits, done) ↦
      let same_name : verdict_of (verdict_name v) ≡ some result =
        ap verdict_of named ∙ fits.known_result in
      ground (arith, verdict_of-verdict_name v)
]

module _ (fresh : Text) (now : ℕ) (review : ClaimReview) (s : EvidenceStore) where
  abbrev pub Refused : (EvidenceStore → Result EvidenceError Assessment × EvidenceStore) → Type 0
  Refused m = (e : EvidenceError) × (m s ≡ (err e, s))

  -- The run of an approval up to its call of `add_assessment`.
  pub record Approved (m : EvidenceStore → Result EvidenceError Assessment × EvidenceStore)
      : Type 0 where
    pub source : Source
    pub named : review.source_id ≡ some source.source_id
    pub known : find_source source.source_id source.version s.sources ≡ some source
    pub quoted : is_blank (strip review.quote) ≡ false
    pub found : quote_present source.revision_id review.quote s ≡ true
    pub records :
        m s
        ≡ add_assessment fresh now
            (manual review source.source_id source.version (codes "direct") supported)
            s

  pub record Decided (result : Verdict)
      (m : EvidenceStore → Result EvidenceError Assessment × EvidenceStore) : Type 0 where
    pub other : result ≢ supported
    pub records :
        m s
        ≡ add_assessment fresh now
            (manual review
              (or_manual_review review.source_id)
              (or_one review.source_version)
              (review_support result)
              result)
            s

  approve-named :
      (c : ℕ) (cs : Text)
      → review.source_id ≡ some (c ∷ cs)
      → Refused (approve fresh now review) ⊎ Approved (approve fresh now review)
  unfolding approve get_source
  approve-named c cs named =
      let v = source_version_or_latest (c ∷ cs) review.source_version s in
      elim (Bool-cases (is_blank (strip review.quote))) [
        | inl blank ↦ inl (source_and_quote_missing, ground arith)
        | inr quoted ↦ elim (Option-cases (find_source (c ∷ cs) v s.sources)) [
          | inl unknown ↦ inl (source_not_found (c ∷ cs) v, ground arith)
          | inr (source, known) ↦
              elim (Bool-cases (quote_present source.revision_id review.quote s)) [
                | inr missing ↦ inl (approval_refused, ground arith)
                | inl found ↦ inr (record {
                  source = source;
                  named = ground (arith, find_source-id (c ∷ cs) v s.sources source);
                  known = find_source_self (c ∷ cs) v s.sources source known;
                  quoted = quoted;
                  found = found;
                  records = ground arith;
                })
              ]
        ]
      ]

  approve-shape :
      (o : Option Text)
      → review.source_id ≡ o
      → Refused (approve fresh now review) ⊎ Approved (approve fresh now review)
  unfolding approve
  approve-shape none h = inl (source_and_quote_missing, ground arith)
  approve-shape (some []) h = inl (source_and_quote_missing, ground arith)
  approve-shape (some (c ∷ cs)) h = approve-named c cs h

  -- What a review comes to.
  pub record Outcome : Type 0 where
    pub result : Verdict
    pub reviewed : is_blank (strip review.reviewer) ≡ false
    pub based : is_blank (strip review.basis) ≡ false
    pub decision : decided review.decision ≡ some result
    pub how :
        ((result ≡ supported) × Approved (review_claim fresh now review))
        ⊎ Decided result (review_claim fresh now review)

  record_decision-shape :
      (result : Verdict)
      → Refused (record_decision fresh now review result)
        ⊎ (((result ≡ supported) × Approved (record_decision fresh now review result))
            ⊎ Decided result (record_decision fresh now review result))
  unfolding record_decision
  record_decision-shape supported = elim (approve-shape review.source_id refl) [
    | inl refused ↦ inl refused
    | inr approved ↦ inr (inl (refl, approved))
  ]
  record_decision-shape pending = inr (inr (record { other = λ e. cc; records = refl }))
  record_decision-shape qualify_required = inr (inr (record { other = λ e. cc; records = refl }))
  record_decision-shape unsupported = inr (inr (record { other = λ e. cc; records = refl }))
  record_decision-shape disputed = inr (inr (record { other = λ e. cc; records = refl }))
  record_decision-shape human_review_required =
      inr (inr (record { other = λ e. cc; records = refl }))

  pub review_claim-shape : Refused (review_claim fresh now review) ⊎ Outcome
  unfolding review_claim
  review_claim-shape = elim (Bool-cases (is_blank (strip review.reviewer))) [
    | inl blank ↦ inl (reviewer_missing, ground arith)
    | inr reviewed ↦ elim (Bool-cases (is_blank (strip review.basis))) [
      | inl blank ↦ inl (basis_missing, ground arith)
      | inr based ↦ elim (Option-cases (decided review.decision)) [
        | inl unknown ↦ inl (unknown_decision review.decision, ground arith)
        | inr (result, decision) ↦
            let runs : review_claim fresh now review s ≡ record_decision fresh now review result s =
              ground arith in
            elim (record_decision-shape result) [
              | inl (e, refused) ↦ inl (e, runs ∙ refused)
              | inr (inl (same_result, a)) ↦ inr (record {
                result = result;
                reviewed = reviewed;
                based = based;
                decision = decision;
                how = inl (
                  same_result,
                  record {
                    source = a.source;
                    named = a.named;
                    known = a.known;
                    quoted = a.quoted;
                    found = a.found;
                    records = runs ∙ a.records;
                  },
                );
              })
              | inr (inr d) ↦ inr (record {
                result = result;
                reviewed = reviewed;
                based = based;
                decision = decision;
                how = inr (record { other = d.other; records = runs ∙ d.records });
              })
            ]
      ]
    ]
  ]

-- If each claim version has the status that its results give, it has it after `review_claim` too,
-- whatever the call answers.
pub review_claim-IsUpToDate :
    (fresh : Text) (now : ℕ) (review : ClaimReview) (s : EvidenceStore)
    → IsUpToDate s
    → IsUpToDate (review_claim fresh now review s).1
review_claim-IsUpToDate fresh now review s h = elim (review_claim-shape fresh now review s) [
  | inl (e, refused) ↦ rw refused h
  | inr o ↦ elim o.how [
    | inl (is_supported, a) ↦ rw a.records (
        add_assessment-IsUpToDate fresh now
          (manual review a.source.source_id a.source.version (codes "direct") supported) s h)
    | inr d ↦ rw d.records (
        add_assessment-IsUpToDate fresh now
          (manual review (or_manual_review review.source_id) (or_one review.source_version)
            (review_support o.result) o.result)
          s h)
  ]
]

-- A review that records SUPPORTED names a reviewer and a basis, was asked to decide so, and names a
-- version of a source that is a row of the store. The assessment refers to this version, it records
-- the quote of the review, which is not blank, and the quote stands both in the snapshot of that row
-- and in the snapshot that the assessment's reference leads to.
pub review_claim-supported :
    (fresh : Text) (now : ℕ) (review : ClaimReview) (s : EvidenceStore) (row : Assessment)
    → (review_claim fresh now review s).0 ≡ ok row
    → row.result ≡ supported
    → (is_blank (strip review.reviewer) ≡ false)
      × (is_blank (strip review.basis) ≡ false)
      × (decided review.decision ≡ some supported)
      × (is_blank row.quote ≡ false)
      × (row.quote ≡ strip review.quote)
      × (quote_present row.source_rev row.quote s ≡ true)
      × ((source : Source) × (review.source_id ≡ some source.source_id)
          × (find_source source.source_id source.version s.sources ≡ some source)
          × (row.source_rev ≡ ref_id b'v' source.source_id source.version)
          × (quote_present source.revision_id review.quote s ≡ true))
review_claim-supported fresh now review s row h k = elim (review_claim-shape fresh now review s) [
  | inl (e, refused) ↦ absurd (ground arith)
  | inr o ↦ elim o.how [
    | inl (is_supported, a) ↦
        let new = manual review a.source.source_id a.source.version (codes "direct") supported in
        let made : (add_assessment fresh now new s).0 ≡ ok row =
          ap (λ r. r.0) (sym a.records) ∙ h in
        let (same_quote, located) = recorded-quote fresh now new s row a.quoted made in
        (
          o.reviewed,
          o.based,
          o.decision ∙ ap some is_supported,
          ap is_blank same_quote ∙ a.quoted,
          same_quote,
          ap (λ q. quote_present row.source_rev q s) same_quote ∙ located,
          (a.source, a.named, a.known, recorded-source fresh now new s row made, a.found),
        )
    | inr d ↦ absurd (
        d.other (
          sym (
            recorded-result fresh now
              (manual review (or_manual_review review.source_id) (or_one review.source_version)
                (review_support o.result) o.result)
              s row o.result refl (ap (λ r. r.0) (sym d.records) ∙ h))
          ∙ k))
  ]
]
