-- ===== src/Gates/Checks/Required.antt =====
-- `g1_requirements` of pebs/gates.py. The method by which the rules count words is an argument; a
-- section of the requirements is no empty dict.
pub mod Demands
pub mod Decided
use pebs.Base.{
  ℕ, zero, suc, ◌≤◌, Bool, true, false, not, ◌&&◌, ◌||◌, ◌≡◌, ◌≢◌, refl, sym, ◌∙◌, ap, ◌↔◌, Option,
  none, some, List, [], ◌∷◌, ◌++◌, Text, same, same_maybe, codes, decimal, ltb, length, contains,
  if◌then◌else◌, Result, ok, All, Option-cases, inl, inr, arith,
}
use pebs.Planner.Order.{and_then}
use pebs.Evidence.Whitespace.{starts_with, is_inside}
use pebs.Gates.Results.{pass, Issue, GateResult, rev_in_use}
use pebs.Gates.Documents.{
  Script, Requirement, Section, Requirements, WordCount, no_script, no_requirements, Readers,
}
use pebs.Gates.Checks.{
  append_empty_iff, collected_empty_iff, and_then_ok, concluded, concluded_iff, collected,
  GateContext, GateError, content_in_use, document_in_use, require_rev, shown, or_text,
  all_script_text, script_units_of_kind, make_result,
}

unfoldable pub conflict_issues : Requirement → List Issue
conflict_issues item =
    if same item.status (codes "conflicted")
    then record {
      location = or_text (codes "requirements") item.req_id;
      reason = codes "存在未解决的要求冲突：" ++ item.text;
      next_step = codes "在工作台中解决冲突后重跑";
    }
      ∷ []
    else []

-- `f"{value}"` of a number that may be None
abbrev pub shown_number : Option ℕ → Text
shown_number none = codes "None"
shown_number (some n) = decimal n

-- Neither None nor 0.
abbrev pub is_set : Option ℕ → Bool
is_set none = false
is_set (some zero) = false
is_set (some (suc n)) = true

unfoldable pub word_issues : Text → Text → Requirements → WordCount → List Issue
word_issues counting_method script_artifact reqs wc =
    if is_set reqs.word_min && is_set reqs.word_max
    then if not (same_maybe wc.method (some counting_method))
      then record {
        location = script_artifact ++ codes ":word_count";
        reason = codes "字数统计口径为 " ++ shown wc.method ++ codes "，与当前规则版本不一致";
        next_step = codes "按 config/rules.yaml 重新统计";
      }
        ∷ []
      else if not wc.in_range
      then record {
        location = script_artifact ++ codes ":word_count";
        reason =
            codes "字数 "
            ++ shown_number wc.count
            ++ codes " 不在要求范围 "
            ++ shown_number reqs.word_min
            ++ codes "–"
            ++ shown_number reqs.word_max;
        next_step = codes "扩写或压缩教师讲解正文后重跑";
      }
        ∷ []
      else []
    else []

-- `next((s for s in sections if s.get("section_id") == script.get("section_id")), None)`
unfoldable pub section_for : Option Text → List Section → Option Section
section_for section_id [] = none
section_for section_id (s ∷ sections) =
    if same_maybe s.section_id section_id then some s else section_for section_id sections

unfoldable pub required_cases : Section → ℕ
required_cases s = elim s.required_case_count [
  | some (suc n) ↦ suc n
  | _ ↦ if contains (codes "case") s.required_components then 1 else 0
]

unfoldable pub case_count_issues : Text → Section → Script → List Issue
unfolding required_cases script_units_of_kind
case_count_issues script_artifact s script =
    let found = length (script_units_of_kind script (codes "case")) in
    if ltb found (required_cases s)
    then record {
      location = script_artifact ++ codes ":units";
      reason =
          codes "要求每节至少 "
          ++ decimal (required_cases s)
          ++ codes " 个案例，脚本中实际 "
          ++ decimal found
          ++ codes " 个";
      next_step = codes "补充案例单元";
    }
      ∷ []
    else []

-- If the artifact is wanted it must have a content.
unfoldable pub wanted_issues :
    Bool → Text → Text → Text → GateContext → Result GateError (List Issue)
wanted_issues false artifact_id reason next_step ctx = ok []
wanted_issues true artifact_id reason next_step ctx =
    and_then (content_in_use artifact_id ctx) (λ found. ok (elim found [
      | none ↦ record { location = artifact_id; reason = reason; next_step = next_step } ∷ []
      | some content ↦ []
    ]))

abbrev pub assessment_issues : Section → Text → GateContext → Result GateError (List Issue)
assessment_issues s section_id =
    wanted_issues (contains (codes "assessment") s.required_components)
      (codes "assessment:" ++ section_id) (codes "要求包含形成性评价，未找到对应评价产物") (codes "运行评价设计步骤")

abbrev pub lesson_plan_issues : Requirements → Text → GateContext → Result GateError (List Issue)
lesson_plan_issues reqs section_id =
    wanted_issues (contains (codes "lesson_plan") reqs.outputs) (codes "lesson_plan:" ++ section_id)
      (codes "要求输出教案，未找到对应教案产物") (codes "运行教案步骤")

abbrev pub worksheet_issues : Requirements → Text → GateContext → Result GateError (List Issue)
worksheet_issues reqs section_id =
    wanted_issues (contains (codes "worksheet") reqs.outputs) (codes "worksheet:" ++ section_id)
      (codes "要求输出学习单，未找到对应学习单产物") (codes "运行学习单步骤")

unfoldable pub section_issues :
    Text → Requirements → Script → Option Section → GateContext → Result GateError (List Issue)
unfolding case_count_issues wanted_issues
section_issues script_artifact reqs script none ctx = ok []
section_issues script_artifact reqs script (some s) ctx =
    and_then (assessment_issues s (shown script.section_id) ctx) (λ assessments.
      and_then (lesson_plan_issues reqs (shown script.section_id) ctx) (λ plans.
        and_then (worksheet_issues reqs (shown script.section_id) ctx) (λ sheets.
          ok (case_count_issues script_artifact s script ++ assessments ++ plans ++ sheets))))

abbrev pub is_empty : Text → Bool
is_empty [] = true
is_empty (c ∷ cs) = false

unfoldable pub term_issues : Text → Text → Text → List Issue
term_issues script_artifact text term =
    if is_empty term || is_inside term text
    then []
    else record {
      location = script_artifact ++ codes ":terminology";
      reason = codes "术语要求未满足：文本中未出现“" ++ term ++ codes "”";
      next_step = codes "按术语规则使用“" ++ term ++ codes "”改写";
    }
      ∷ []

-- The revision of the requirements, if there is one.
abbrev pub requirements_dep : Option Text → List (Text × Text)
requirements_dep none = []
requirements_dep (some rev_id) = (codes "requirements", rev_id) ∷ []

abbrev pub all_issues : Text → Text → Requirements → Script → List Issue → List Issue
all_issues counting_method script_artifact reqs script of_section =
    collected conflict_issues reqs.items
    ++ word_issues counting_method script_artifact reqs script.word_count
    ++ of_section
    ++ collected (term_issues script_artifact (all_script_text script)) reqs.terminology

unfoldable pub g1_requirements :
    Readers → Text → Text → Text → GateContext → Result GateError GateResult
unfolding require_rev document_in_use conflict_issues word_issues section_for section_issues
    all_script_text term_issues make_result
g1_requirements readers counting_method rules_version script_artifact ctx =
    and_then (require_rev script_artifact ctx) (λ target.
      and_then (document_in_use readers.read_script no_script script_artifact ctx) (λ script.
        and_then
          (document_in_use readers.read_requirements no_requirements (codes "requirements") ctx)
          (λ reqs.
            and_then
              (section_issues script_artifact reqs script
                (section_for script.section_id reqs.sections) ctx)
              (λ of_section.
                concluded (codes "G1") script_artifact target
                  (all_issues counting_method script_artifact reqs script of_section)
                  (requirements_dep (rev_in_use (codes "requirements") ctx.overrides ctx.store))
                  rules_version ctx.run_id))))
