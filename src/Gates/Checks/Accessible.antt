-- ===== src/Gates/Checks/Accessible.antt =====
-- `g5_udl` of pebs/gates.py. Whether one of `policies.REFERRAL_PATTERNS` is found in a text is an
-- argument.
pub mod Texts
pub mod Decided
use pebs.Base.{
  ℕ, ◌+◌, Bool, true, false, ◌||◌, ◌≡◌, ◌∙◌, ap, ◌↔◌, Option, none, some, List, [], ◌∷◌, ◌++◌, Text,
  codes, decimal, take, if◌then◌else◌, Result, ok, All, Bool-cases, inl, inr, arith,
}
use pebs.Planner.Order.{and_then}
use pebs.Gates.Results.{pass, Issue, GateResult, rev_in_use}
use pebs.Gates.Documents.{
  Json, string, object, array, other, Members, no_member, member, Elements, no_element, element,
  Script, LearningGoal, LearningDesign, TeachingPlan, UdlOption, Udl, no_script, no_design, no_plan,
  Readers,
}
use pebs.Gates.Checks.{
  append_empty_iff, collected_empty_iff, and_then_ok, concluded, concluded_iff, collected,
  GateContext, GateError, document_in_use, require_rev, shown, make_result,
}
use pebs.Gates.Checks.Taught.{is_goal, dep_on, document_of}

-- `_udl_strings`
unfoldable mutual
  pub udl_strings : Text → Json → List (Text × Text)
  udl_strings path (string t) = (path, t) ∷ []
  udl_strings path (object members) = member_strings path members
  udl_strings path (array elements) = element_strings path 0 elements
  udl_strings path other = []

  pub member_strings : Text → Members → List (Text × Text)
  member_strings path no_member = []
  member_strings path (member key value members) =
      udl_strings (path ++ codes "." ++ key) value ++ member_strings path members

  pub element_strings : Text → ℕ → Elements → List (Text × Text)
  element_strings path index no_element = []
  element_strings path index (element value elements) =
      udl_strings (path ++ codes "[" ++ decimal index ++ codes "]") value
      ++ element_strings path (index + 1) elements

abbrev pub udl_place : Text → Text
udl_place section_id = codes "teaching_plan:" ++ section_id ++ codes ":udl"

-- The issue, where the test does not hold.
abbrev pub issue_unless : Bool → Issue → List Issue
issue_unless true i = []
issue_unless false i = i ∷ []

unfoldable pub option_issues : Text → List LearningGoal → UdlOption → List Issue
option_issues section_id goals o =
    issue_unless o.core_demand_preserved (record {
      location = udl_place section_id;
      reason = codes "替代路径降低了核心认知要求（将更简单任务伪装成更无障碍任务）";
      next_step = codes "保持同一目标与核心认知要求";
    })
    ++ issue_unless (is_goal goals o.same_goal_ref) (record {
      location = udl_place section_id;
      reason = codes "替代路径未关联有效学习目标：" ++ shown o.same_goal_ref;
      next_step = codes "关联到有效目标";
    })
    ++ issue_unless (o.representation || o.action_expression || o.engagement) (record {
      location = udl_place section_id;
      reason = codes "替代路径未说明 UDL 维度（表征/行动表达/参与）";
      next_step = codes "补充 UDL 维度说明";
    })

unfoldable pub referral_issues : (Text → Bool) → Text → Text × Text → List Issue
referral_issues is_referral section_id (location, text) =
    if is_referral text
    then record {
      location = codes "teaching_plan:" ++ section_id ++ codes ":" ++ location;
      reason = codes "出现禁止的转介措辞：" ++ take 40 text;
      next_step = codes "改为课堂内可执行的支持，不依赖转介";
    }
      ∷ []
    else []

abbrev pub has_options : List UdlOption → Bool
has_options [] = false
has_options (o ∷ os) = true

unfoldable pub udl_issues : (Text → Bool) → Text → List LearningGoal → Option Udl → List Issue
unfolding udl_strings option_issues referral_issues
udl_issues is_referral section_id goals none =
    record {
      location = udl_place section_id;
      reason = codes "缺少 UDL 障碍与替代路径分析";
      next_step = codes "运行 UDL 检查步骤";
    }
    ∷ []
udl_issues is_referral section_id goals (some udl) =
    issue_unless udl.barriers (record {
      location = udl_place section_id ++ codes ".barriers";
      reason = codes "未列出学习障碍";
      next_step = codes "补充障碍分析";
    })
    ++ issue_unless (has_options udl.options) (record {
      location = udl_place section_id ++ codes ".options";
      reason = codes "未提供替代路径";
      next_step = codes "补充替代路径";
    })
    ++ collected (option_issues section_id goals) udl.options
    ++ collected (referral_issues is_referral section_id) (udl_strings (codes "udl") udl.value)

unfoldable pub g5_udl :
    Readers → (Text → Bool) → Text → Text → GateContext → Result GateError GateResult
unfolding require_rev document_in_use udl_issues make_result
g5_udl readers is_referral rules_version script_artifact ctx =
    and_then (require_rev script_artifact ctx) (λ target.
      and_then (document_in_use readers.read_script no_script script_artifact ctx) (λ script.
        and_then (document_of readers.read_design no_design (codes "learning_design") script ctx)
          (λ design.
            and_then (document_of readers.read_plan no_plan (codes "teaching_plan") script ctx)
              (λ plan.
                let section_id = shown script.section_id in
                let plan_id = codes "teaching_plan:" ++ section_id in
                concluded (codes "G5") script_artifact target
                  (udl_issues is_referral section_id design.goals plan.udl)
                  (dep_on (codes "teaching_plan") (rev_in_use plan_id ctx.overrides ctx.store))
                  rules_version ctx.run_id))))
