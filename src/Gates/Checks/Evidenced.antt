-- ===== src/Gates/Checks/Evidenced.antt =====
-- `g2_evidence` of pebs/gates.py.
use pebs.Base.{
  true, false, ◌≡◌, sym, ap, ◌∙◌, ◌↔◌, inl, inr, Option, none, some, List, [], ◌∷◌, ◌++◌, Text,
  maybe_dec, same_maybe, codes, select, if◌then◌else◌, Result, ok, All, Bool-cases, arith,
}
use pebs.Planner.Order.{and_then}
use pebs.Evidence.Rows.{EvidenceStore, verdict_name}
use pebs.Evidence.Support.{claim_of_ref, is_supported}
use pebs.Store.Listings.{ArtifactRow, list_artifacts}
use pebs.Gates.Results.{pass, Issue, GateResult, is_of_type}
use pebs.Gates.Documents.{ScriptUnit, Script, CaseDocument, no_script, no_case, Readers}
use pebs.Gates.Checks.{
  append_empty_iff, collected_empty_iff, and_then_ok, documents_issues, documents_issues_iff,
  concluded_iff, collected, GateContext, GateError, document_in_use, require_rev, or_text, verdict,
  make_result,
}

-- The status of the claim, or that there is none.
abbrev pub status_detail : Text → EvidenceStore → Text
status_detail ref e = elim (claim_of_ref ref e) [
  | none ↦ codes "未登记"
  | some c ↦ verdict_name c.status
]

unfoldable pub ref_issues : EvidenceStore → Option Text → Text → List Issue
ref_issues e unit_id ref =
    if is_supported ref e
    then []
    else record {
      location = or_text (codes "unit") unit_id;
      reason = codes "引用了未获支持的 Claim：" ++ ref ++ codes "（状态 " ++ status_detail ref e ++ codes "）";
      next_step = codes "改为待核验占位，或完成证据核验后重建";
    }
      ∷ []

unfoldable pub unit_issues : EvidenceStore → ScriptUnit → List Issue
unfolding ref_issues
unit_issues e u =
    (if u.placeholder
      then record {
        location = or_text (codes "unit") u.unit_id;
        reason = codes "存在待核验占位内容，事实性陈述尚未通过 Evidence Gate";
        next_step = codes "补充证据并重新核验后重建该单元";
      }
        ∷ []
      else [])
    ++ collected (ref_issues e u.unit_id) u.claim_refs

unfoldable pub case_ref_issues : EvidenceStore → Text → Text → List Issue
case_ref_issues e artifact_id ref =
    if is_supported ref e
    then []
    else record {
      location = artifact_id;
      reason = codes "案例引用了未获支持的 Claim：" ++ ref;
      next_step = codes "标注为虚构/教学假设，或完成核验";
    }
      ∷ []

unfoldable pub fact_issues : Text → CaseDocument → List Issue
fact_issues artifact_id c =
    if c.new_factual_claims
    then record {
      location = artifact_id;
      reason = codes "案例中存在新增事实性陈述，尚未通过 Evidence Gate";
      next_step = codes "登记为 PENDING Claim 并完成核验";
    }
      ∷ []
    else []

unfoldable pub case_issues : EvidenceStore → Script → Text → CaseDocument → List Issue
unfolding case_ref_issues fact_issues
case_issues e script artifact_id c =
    if same_maybe c.section_id script.section_id
    then collected (case_ref_issues e artifact_id) c.claim_refs ++ fact_issues artifact_id c
    else []

abbrev pub case_rows : GateContext → List ArtifactRow
case_rows ctx = select (is_of_type (codes "case")) (list_artifacts ctx.store)

-- The loop over the artifacts of type `case`.
abbrev pub cases_issues : Readers → GateContext → Script → Result GateError (List Issue)
cases_issues readers ctx script =
    documents_issues readers.read_case no_case (case_issues ctx.evidence script) ctx (case_rows ctx)

unfoldable pub g2_evidence : Readers → Text → Text → GateContext → Result GateError GateResult
unfolding require_rev document_in_use unit_issues case_issues documents_issues make_result
g2_evidence readers rules_version script_artifact ctx =
    and_then (require_rev script_artifact ctx) (λ target.
      and_then (document_in_use readers.read_script no_script script_artifact ctx) (λ script.
        and_then (cases_issues readers ctx script) (λ more.
          let issues = collected (unit_issues ctx.evidence) script.units ++ more in
          ok (
            make_result (codes "G2") script_artifact target (verdict issues) issues [] rules_version
              ctx.run_id))))

-- A unit with no placeholder, whose claims are all supported.
pub record IsBacked (e : EvidenceStore) (u : ScriptUnit) : Type 0 where
  pub settled : u.placeholder ≡ false
  pub supported : All (λ r. is_supported r e ≡ true) u.claim_refs

-- If the case is one of the section, its claims are supported and it states no new fact.
abbrev pub IsFine : EvidenceStore → Script → CaseDocument → Type 0
IsFine e script c =
    c.section_id ≡ script.section_id
    → All (λ r. is_supported r e ≡ true) c.claim_refs × (c.new_factual_claims ≡ false)

-- So it is of the case that the artifact holds.
abbrev pub IsBackedCase : Readers → GateContext → Script → ArtifactRow → Type 0
IsBackedCase readers ctx script a =
    (c : CaseDocument)
    → document_in_use readers.read_case no_case a.artifact_id ctx ≡ ok c
    → IsFine ctx.evidence script c

ref_issues_iff :
    (e : EvidenceStore) (unit_id : Option Text) (ref : Text)
    → (ref_issues e unit_id ref ≡ []) ↔ (is_supported ref e ≡ true)
unfolding ref_issues
ref_issues_iff e unit_id ref = ground arith

case_ref_issues_iff :
    (e : EvidenceStore) (artifact_id : Text) (ref : Text)
    → (case_ref_issues e artifact_id ref ≡ []) ↔ (is_supported ref e ≡ true)
unfolding case_ref_issues
case_ref_issues_iff e artifact_id ref = ground arith

unit_issues_iff : (e : EvidenceStore) (u : ScriptUnit) → (unit_issues e u ≡ []) ↔ IsBacked e u
unfolding unit_issues
unit_issues_iff e u =
    let refs =
      collected_empty_iff (ref_issues e u.unit_id) (λ r. is_supported r e ≡ true)
        (ref_issues_iff e u.unit_id) u.claim_refs in
    elim (Bool-cases u.placeholder) [
      | inl unsettled ↦ (λ h. absurd (ground arith), λ h. absurd (ground (arith, h.settled)))
      | inr settled ↦ (
        λ h. record { settled = settled; supported = refs.0 (ground arith) },
        λ h. ground (arith, refs.1 h.supported),
      )
    ]

fact_issues_iff :
    (a : Text) (c : CaseDocument) → (fact_issues a c ≡ []) ↔ (c.new_factual_claims ≡ false)
unfolding fact_issues
fact_issues_iff a c = ground arith

case_issues_iff :
    (e : EvidenceStore) (script : Script) (a : Text) (c : CaseDocument)
    → (case_issues e script a c ≡ []) ↔ IsFine e script c
unfolding case_issues
case_issues_iff e script a c =
    let refs =
      collected_empty_iff (case_ref_issues e a) (λ r. is_supported r e ≡ true)
        (case_ref_issues_iff e a) c.claim_refs in
    let facts = fact_issues_iff a c in
    let both = append_empty_iff (collected (case_ref_issues e a) c.claim_refs) (fact_issues a c) in
    elim (maybe_dec c.section_id script.section_id) [
      | no other ↦ (λ h k. absurd (other k), λ h. ground arith)
      | yes mine ↦
          let parts : case_issues e script a c
              ≡ collected (case_ref_issues e a) c.claim_refs ++ fact_issues a c =
            ground arith in
          (
            λ h k. let all = both.0 (sym parts ∙ h) in (refs.0 all.0, facts.0 all.1),
            λ h. parts ∙ both.1 (refs.1 (h mine).0, facts.1 (h mine).1),
          )
    ]

-- What a result of `g2_evidence` says: it is of the revision in use, and it is PASS exactly when no unit
-- of the script is a placeholder, each claim that a unit refers to is supported, and each case of the
-- section refers to supported claims only and states no new fact.
pub g2_evidence_iff :
    (readers : Readers) (rules_version script_artifact : Text) (ctx : GateContext) (r : GateResult)
    → g2_evidence readers rules_version script_artifact ctx ≡ ok r
    → (require_rev script_artifact ctx ≡ ok (r.target_revision, r.target_hash))
      × (script : Script) × (document_in_use readers.read_script no_script script_artifact ctx
          ≡ ok script)
      × ((r.status ≡ pass) ↔ (
          All (IsBacked ctx.evidence) script.units
          × All (IsBackedCase readers ctx script) (case_rows ctx)))
unfolding g2_evidence make_result
g2_evidence_iff readers rules_version script_artifact ctx r e =
    let (target, found, rest) = and_then_ok (require_rev script_artifact ctx) _ r e in
    let (script, read, rest2) =
      and_then_ok (document_in_use readers.read_script no_script script_artifact ctx) _ r rest in
    let (more, looked, done) = and_then_ok (cases_issues readers ctx script) _ r rest2 in
    let units = collected (unit_issues ctx.evidence) script.units in
    let both = append_empty_iff units more in
    let backed =
      collected_empty_iff (unit_issues ctx.evidence) (IsBacked ctx.evidence)
        (unit_issues_iff ctx.evidence) script.units in
    let cases =
      documents_issues_iff readers.read_case no_case (case_issues ctx.evidence script) ctx
        (IsFine ctx.evidence script) (case_issues_iff ctx.evidence script) (case_rows ctx) more
        looked in
    let (of_target, passes) =
      concluded_iff (codes "G2") script_artifact target (units ++ more) [] rules_version ctx.run_id
        r done in
    (
      found ∙ ap ok of_target,
      script,
      read,
      (
        λ h. let all = both.0 (passes.0 h) in (backed.0 all.0, cases.0 all.1),
        λ h. passes.1 (both.1 (backed.1 h.0, cases.1 h.1)),
      ),
    )
