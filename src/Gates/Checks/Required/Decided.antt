-- ===== src/Gates/Checks/Required/Decided.antt =====
-- What a result of `g1_requirements` of pebs/gates.py says.
use pebs.Base.{join, map, true, ◌≡◌, ◌≢◌, ◌∙◌, ap, ◌↔◌, List, [], ◌∷◌, ◌++◌, Text, codes, ok, All}
use pebs.Evidence.Whitespace.{is_inside}
use pebs.Gates.Results.{pass, Issue, GateResult}
use pebs.Gates.Documents.{
  ScriptUnit, Script, Requirement, Requirements, no_script, no_requirements, Readers,
}
use pebs.Gates.Checks.{
  append_empty_iff, collected_empty_iff, and_then_ok, concluded_iff, collected, GateContext,
  document_in_use, require_rev, all_script_text,
}
use pebs.Gates.Checks.Required.{
  conflict_issues, word_issues, section_for, section_issues, term_issues, all_issues,
  g1_requirements,
}
use pebs.Gates.Checks.Required.Demands.{
  IsCounted, IsComplete, OfFirst, section_for_iff, word_issues_iff, term_issues_iff,
  section_issues_iff, conflict_issues_iff,
}

-- The texts of the script's units, on lines of their own.
abbrev pub text_of : Script → Text
text_of script = join (10 ∷ []) (map (λ (u : ScriptUnit). u.text) script.units)

-- What the requirements ask of a script.
pub record Meets (counting_method : Text) (reqs : Requirements) (script : Script)
    (ctx : GateContext) : Type 0 where
  pub settled : All (λ (i : Requirement). i.status ≢ codes "conflicted") reqs.items
  pub counted : IsCounted counting_method reqs script.word_count
  pub complete : OfFirst (IsComplete reqs script ctx) script.section_id reqs.sections
  pub worded : All (λ term. is_inside term (text_of script) ≡ true) reqs.terminology

module _ (counting_method script_artifact : Text) (reqs : Requirements) (script : Script)
    (ctx : GateContext) where
  all_issues_iff :
      (of_section : List Issue)
      → section_issues script_artifact reqs script (section_for script.section_id reqs.sections) ctx
        ≡ ok of_section
      → (all_issues counting_method script_artifact reqs script of_section ≡ [])
        ↔ Meets counting_method reqs script ctx
  unfolding all_script_text
  all_issues_iff of_section looked =
      let section = section_for script.section_id reqs.sections in
      let text = all_script_text script in
      let conflicts = collected conflict_issues reqs.items in
      let words = word_issues counting_method script_artifact reqs script.word_count in
      let terms = collected (term_issues script_artifact text) reqs.terminology in
      let settled =
        collected_empty_iff conflict_issues (λ i. i.status ≢ codes "conflicted") conflict_issues_iff
          reqs.items in
      let counted = word_issues_iff counting_method script_artifact reqs script.word_count in
      let complete = section_issues_iff script_artifact reqs script section ctx of_section looked in
      let first = section_for_iff (IsComplete reqs script ctx) script.section_id reqs.sections in
      let worded =
        collected_empty_iff (term_issues script_artifact text) (λ t. is_inside t text ≡ true)
          (term_issues_iff script_artifact text) reqs.terminology in
      let all = append_empty_iff (conflicts ++ words ++ of_section) terms in
      let three = append_empty_iff (conflicts ++ words) of_section in
      let two = append_empty_iff conflicts words in
      (
        λ h.
            let (h3, t) = all.0 h in
            let (h2, s) = three.0 h3 in
            let (c, w) = two.0 h2 in
            record {
              settled = settled.0 c;
              counted = counted.0 w;
              complete = first.0 (complete.0 s);
              worded = worded.0 t;
            },
        λ m. all.1 (
          three.1
              (two.1 (settled.1 m.settled, counted.1 m.counted), complete.1 (first.1 m.complete)),
          worded.1 m.worded,
        ),
      )

-- What a result of `g1_requirements` says: it is of the revision in use, and it is PASS exactly when the
-- script meets the requirements. None of them is in conflict. Where both word bounds are set, and not 0,
-- the script's record of its words was made by the method of the rules and is marked as in range; the
-- gate takes that mark and compares no count with the bounds. If a section of the requirements has the
-- script's identifier, the first one's wishes are met: the number of cases that it sets, or one where
-- it sets none or 0 and has the component, and a content for the assessment, the lesson plan and the
-- worksheet, each if it is wanted. And each term occurs in the script's text.
pub g1_requirements_iff :
    (readers : Readers) (counting_method rules_version script_artifact : Text) (ctx : GateContext)
    (r : GateResult)
    → g1_requirements readers counting_method rules_version script_artifact ctx ≡ ok r
    → (require_rev script_artifact ctx ≡ ok (r.target_revision, r.target_hash))
      × (script : Script) × (reqs : Requirements) × (document_in_use readers.read_script no_script
            script_artifact ctx
          ≡ ok script)
      × (document_in_use readers.read_requirements no_requirements (codes "requirements") ctx
          ≡ ok reqs)
      × ((r.status ≡ pass) ↔ Meets counting_method reqs script ctx)
unfolding g1_requirements
g1_requirements_iff readers counting_method rules_version script_artifact ctx r e =
    let (target, found, rest) = and_then_ok (require_rev script_artifact ctx) _ r e in
    let (script, read, rest2) =
      and_then_ok (document_in_use readers.read_script no_script script_artifact ctx) _ r rest in
    let (reqs, asked, rest3) =
      and_then_ok
        (document_in_use readers.read_requirements no_requirements (codes "requirements") ctx) _ r
        rest2 in
    let section = section_for script.section_id reqs.sections in
    let (of_section, looked, done) =
      and_then_ok (section_issues script_artifact reqs script section ctx) _ r rest3 in
    let (of_target, passes) =
      concluded_iff (codes "G1") script_artifact target
        (all_issues counting_method script_artifact reqs script of_section) _ rules_version
        ctx.run_id r done in
    let all = all_issues_iff counting_method script_artifact reqs script ctx of_section looked in
    (
      found ∙ ap ok of_target,
      script,
      reqs,
      read,
      asked,
      (λ h. all.0 (passes.0 h), λ m. passes.1 (all.1 m)),
    )
