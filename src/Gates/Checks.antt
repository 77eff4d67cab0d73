-- ===== src/Gates/Checks.antt =====
-- What the gates of pebs/gates.py share: the context of an evaluation, the issues that they find in
-- the documents of artifacts, and the result.
pub mod Evidenced
pub mod Required
pub mod Taught
pub mod Accessible
use pebs.Base.{
  ℕ, Bool, true, false, ◌&&◌, Option, none, some, List, [], ◌∷◌, ◌++◌, Text, same, codes, join, map,
  select, if◌then◌else◌, Result, ok, err, ◌≡◌, sym, ◌∙◌, subst, ◌↔◌, refl, All, arith,
}
use pebs.Planner.Order.{and_then}
use pebs.Store.Rows.{Revision, Store, StoreError}
use pebs.Store.Artifacts.{get_revision}
use pebs.Store.Listings.{ArtifactRow, accepted_content}
use pebs.Evidence.Rows.{EvidenceStore}
use pebs.Gates.Documents.{
  ScriptUnit, WordCount, Script, CaseDocument, Requirement, Section, Requirements, no_script,
  no_case, no_requirements, LearningGoal, Difficulty, LearningDesign, Strategy, TeachingPlan,
  AssessmentItem, no_design, no_plan, Readers,
}
use pebs.Gates.Results.{
  GateStatus, pass, fail, Issue, GateResult, RevisionOverrides, override_for, rev_in_use,
}

-- `f(x) for x in xs`, one after the other
unfoldable pub collected {ℓ κ} : {A : Type ℓ} {B : Type κ} → (A → List B) → List A → List B
collected f [] = []
collected f (x ∷ xs) = f x ++ collected f xs

pub append_empty_iff {ℓ} : {A : Type ℓ} (xs ys : List A) → (xs ++ ys ≡ []) ↔ ((xs ≡ []) × (ys ≡ []))
append_empty_iff [] ys = (λ h. (refl, h), λ h. h.1)
append_empty_iff (x ∷ xs) ys = (λ h. absurd (ground arith), λ h. absurd (ground (arith, h.0)))

pub collected_empty_iff {ℓ κ} :
    {A : Type ℓ} {B : Type κ} (f : A → List B) (P : A → Type 0)
    → ((x : A) → (f x ≡ []) ↔ P x)
    → (xs : List A) → (collected f xs ≡ []) ↔ All P xs
unfolding collected
collected_empty_iff f P step [] = (λ h. tt, λ h. refl)
collected_empty_iff f P step (x ∷ xs) =
    let both = append_empty_iff (f x) (collected f xs) in
    let later = collected_empty_iff f P step xs in
    (
      λ h. ((step x).0 (both.0 h).0, later.0 (both.0 h).1),
      λ h. both.1 ((step x).1 h.0, later.1 h.1),
    )

pub and_then_ok {ℓ} :
    {A B E : Type ℓ} (r : Result E A) (f : A → Result E B) (b : B)
    → and_then r f ≡ ok b
    → (a : A) × (r ≡ ok a) × (f a ≡ ok b)
and_then_ok (ok a) f b h = (a, refl, h)
and_then_ok (err e) f b h = absurd (ground arith)

pub record GateContext : Type 0 where
  pub store : Store
  pub evidence : EvidenceStore
  pub run_id : Text
  pub overrides : RevisionOverrides

pub data GateError : Type 0 where
  no_accepted_revision : Text → GateError
  of_store : StoreError → GateError

abbrev pub lift : {A : Type 0} → Result StoreError A → Result GateError A
lift (ok a) = ok a
lift (err e) = err (of_store e)

-- `GateContext.content`; `GateContext.accepted` calls it.
unfoldable pub content_in_use : Text → GateContext → Result GateError (Option Text)
content_in_use artifact_id ctx = elim (override_for artifact_id ctx.overrides) [
  | some rev_id ↦ and_then (lift (get_revision rev_id ctx.store).0) (λ r. ok (some r.content))
  | none ↦ lift (accepted_content artifact_id ctx.store).0
]

-- `ctx.accepted(artifact_id) or {}`, read as a document
unfoldable pub document_in_use :
    {A : Type 0} → (Text → A) → A → Text → GateContext → Result GateError A
unfolding content_in_use
document_in_use read missing artifact_id ctx =
    and_then (content_in_use artifact_id ctx)
      (λ found. ok (elim found [ none ↦ missing | some text ↦ read text ]))

-- The issues that a loop over artifacts finds in their documents.
unfoldable pub documents_issues :
    {A : Type 0}
    → (Text → A)
    → A
    → (Text → A → List Issue)
    → GateContext
    → List ArtifactRow
    → Result GateError (List Issue)
unfolding document_in_use
documents_issues read missing f ctx [] = ok []
documents_issues read missing f ctx (a ∷ rows) =
    and_then (document_in_use read missing a.artifact_id ctx) (λ d.
      and_then (documents_issues read missing f ctx rows) (λ more. ok (f a.artifact_id d ++ more)))

module _ {A : Type 0} (read : Text → A) (missing : A) (f : Text → A → List Issue)
    (ctx : GateContext) (P : A → Type 0)
    (step : (artifact_id : Text) (d : A) → (f artifact_id d ≡ []) ↔ P d) where
  -- A loop finds no issue exactly when the document of each artifact is as it should be.
  pub documents_issues_iff :
      (rows : List ArtifactRow) (issues : List Issue)
      → documents_issues read missing f ctx rows ≡ ok issues
      → (issues ≡ [])
        ↔ All
            (λ (a : ArtifactRow).
              (d : A) → document_in_use read missing a.artifact_id ctx ≡ ok d → P d)
            rows
  unfolding documents_issues
  documents_issues_iff [] issues e = ground arith
  documents_issues_iff (a ∷ rows) issues e =
      let (c, found, rest) =
        and_then_ok (document_in_use read missing a.artifact_id ctx) _ issues e in
      let (more, later, done) =
        and_then_ok (documents_issues read missing f ctx rows) _ issues rest in
      let here = f a.artifact_id c in
      let split : issues ≡ here ++ more = ground arith in
      let now = step a.artifact_id c in
      let remaining = documents_issues_iff rows more later in
      let both = append_empty_iff here more in
      (
        λ h.
            let all = both.0 (sym split ∙ h) in
            (
              λ d again.
                  let same_document : c ≡ d = ground arith in subst P same_document (now.0 all.0),
              remaining.0 all.1,
            ),
        λ h. split ∙ both.1 (now.1 (h.0 c found), remaining.1 h.1),
      )

-- `_require_rev`, with `_rev_info`
unfoldable pub require_rev : Text → GateContext → Result GateError (Text × Text)
require_rev artifact_id ctx = elim (rev_in_use artifact_id ctx.overrides ctx.store) [
  | none ↦ err (no_accepted_revision artifact_id)
  | some rev_id ↦
      and_then (lift (get_revision rev_id ctx.store).0) (λ r. ok (rev_id, r.content_hash))
]

-- `f"{value}"` of a text that may be None
abbrev pub shown : Option Text → Text
shown none = codes "None"
shown (some t) = t

abbrev pub or_text : Text → Option Text → Text
or_text default none = default
or_text default (some t) = t

-- `"FAIL" if issues else "PASS"`
abbrev pub verdict : List Issue → GateStatus
verdict [] = pass
verdict (i ∷ is) = fail

unfoldable pub make_result :
    Text
    → Text
    → Text × Text
    → GateStatus
    → List Issue
    → List (Text × Text)
    → Text
    → Text
    → GateResult
make_result gate_id target_artifact (rev_id, hash) status issues dep_versions rules_version run_id =
    record {
      gate_id = gate_id;
      target_artifact = target_artifact;
      target_revision = rev_id;
      target_hash = hash;
      dep_versions = dep_versions;
      rules_version = rules_version;
      status = status;
      issues = issues;
      run_id = run_id;
      not_applicable_reason = none;
    }

abbrev pub concluded :
    Text
    → Text
    → Text × Text
    → List Issue
    → List (Text × Text)
    → Text
    → Text
    → Result GateError GateResult
concluded gate_id artifact target issues deps rules_version run_id =
    ok (make_result gate_id artifact target (verdict issues) issues deps rules_version run_id)

-- A result that is made of issues is PASS where there is none, and it is of the target.
pub concluded_iff :
    (gate_id artifact : Text) (target : Text × Text) (issues : List Issue)
    (deps : List (Text × Text)) (rules_version run_id : Text) (r : GateResult)
    → concluded gate_id artifact target issues deps rules_version run_id ≡ ok r
    → (target ≡ (r.target_revision, r.target_hash)) × ((r.status ≡ pass) ↔ (issues ≡ []))
unfolding make_result
concluded_iff gate_id artifact (rev_id, hash) [] deps rules_version run_id r e =
    (ground arith, (λ h. refl, λ h. ground arith))
concluded_iff gate_id artifact (rev_id, hash) (i ∷ is) deps rules_version run_id r e =
    (ground arith, (λ h. absurd (ground arith), λ h. absurd (ground arith)))

-- `_all_script_text`
unfoldable pub all_script_text : Script → Text
all_script_text script = join (10 ∷ []) (map (λ (u : ScriptUnit). u.text) script.units)

-- `_script_units_of_kind`
unfoldable pub script_units_of_kind : Script → Text → List ScriptUnit
script_units_of_kind script kind = select (λ (u : ScriptUnit). same u.kind kind) script.units
