-- ===== src/Gates/Checks/Taught.antt =====
-- `g3_pedagogy` of pebs/gates.py. The maps of `config.ROUTER` are arguments; the names of strategies in
-- them have no quotes, so that a list prints them as they are.
pub mod Goals
pub mod Strategies
pub mod Decided
use pebs.Base.{
  Bool, true, false, not, ◌&&◌, ◌||◌, ◌≡◌, ◌≢◌, refl, sym, ◌∙◌, ap, subst, ◌↔◌, Option, none, some,
  List, [], ◌∷◌, ◌++◌, Text, same, same_maybe, maybe_dec, text_dec, codes, join, map, take, row_for,
  contains, any, if◌then◌else◌, Result, ok, err, All, Bool-cases, Option-cases, inl, inr, arith,
}
use pebs.Planner.Order.{and_then}
use pebs.Evidence.Whitespace.{strip, is_inside}
use pebs.Store.Listings.{ArtifactRow}
use pebs.Gates.Results.{pass, Issue, GateResult, rev_in_use}
use pebs.Gates.Documents.{
  ScriptUnit, Script, CaseDocument, LearningGoal, Difficulty, LearningDesign, Strategy,
  TeachingPlan, AssessmentItem, no_script, no_case, no_design, no_plan, Readers,
}
use pebs.Gates.Checks.{
  append_empty_iff, collected_empty_iff, and_then_ok, documents_issues, concluded, concluded_iff,
  collected, GateContext, GateError, document_in_use, require_rev, shown, make_result,
}
use pebs.Gates.Checks.Evidenced.{case_rows}

-- `goals[g["goal_id"]] = g`
unfoldable pub put_goal : LearningGoal → List LearningGoal → List LearningGoal
put_goal g [] = g ∷ []
put_goal g (h ∷ goals) =
    let rest = put_goal g goals in if same h.goal_id g.goal_id then g ∷ goals else h ∷ rest

-- `{g["goal_id"]: g for g in design.get("goals", [])}`
unfoldable pub goal_table : List LearningGoal → List LearningGoal → List LearningGoal
unfolding put_goal
goal_table table [] = table
goal_table table (g ∷ goals) = goal_table (put_goal g table) goals

abbrev pub goals_of : LearningDesign → List LearningGoal
goals_of design = goal_table [] design.goals

-- `target in goals`
abbrev pub is_goal : List LearningGoal → Option Text → Bool
is_goal goals none = false
is_goal goals (some target) = any (λ (g : LearningGoal). same g.goal_id target) goals

-- `{s.get("goal_ref"): s for s in strategies}.get(goal_id)`: the last strategy of the goal
unfoldable pub strategy_for : Text → List Strategy → Option Strategy
strategy_for goal_id [] = none
strategy_for goal_id (s ∷ strategies) = elim (strategy_for goal_id strategies) [
  | some later ↦ some later
  | none ↦ if same_maybe s.goal_ref (some goal_id) then some s else none
]

pub record RouterRules : Type 0 where
  pub strategy_map : List (Text × List Text)
  pub fallback_strategy : Text

-- `router.allowed_strategies`
unfoldable pub allowed_strategies : RouterRules → Text → List Text
allowed_strategies rules knowledge_type =
    elim (row_for (λ (p : Text × List Text). p.0) knowledge_type rules.strategy_map) [
      | none ↦ rules.fallback_strategy ∷ []
      | some p ↦ p.1
    ]

-- `router.allowed_strategies(goal.get("knowledge_type", "concept"))`
abbrev pub allowed_for : RouterRules → LearningGoal → List Text
allowed_for rules g = elim g.knowledge_type [
  | none ↦ allowed_strategies rules (codes "concept")
  | some t ↦ allowed_strategies rules t
]

abbrev pub is_allowed : Option Text → List Text → Bool
is_allowed none allowed = false
is_allowed (some name) allowed = contains name allowed

abbrev pub quoted : Text → Text
quoted t = codes "'" ++ t ++ codes "'"

abbrev pub shown_list : List Text → Text
shown_list ts = codes "[" ++ join (codes ", ") (map quoted ts) ++ codes "]"

unfoldable pub goal_issues : RouterRules → Text → TeachingPlan → LearningGoal → List Issue
unfolding strategy_for allowed_strategies
goal_issues rules section_id plan g = elim (strategy_for g.goal_id plan.strategies) [
  | none ↦
      record {
        location = codes "teaching_plan:" ++ section_id;
        reason = codes "目标 " ++ g.goal_id ++ codes " 没有对应教学策略";
        next_step = codes "补充策略设计";
      }
      ∷ []
  | some s ↦
      if is_allowed s.strategy (allowed_for rules g)
      then []
      else record {
        location = codes "teaching_plan:" ++ section_id ++ codes ":" ++ g.goal_id;
        reason =
            codes "策略 "
            ++ shown s.strategy
            ++ codes " 不在知识类型 "
            ++ shown g.knowledge_type
            ++ codes " 的候选集合 "
            ++ shown_list (allowed_for rules g);
        next_step = codes "改用候选策略或说明理由";
      }
        ∷ []
]

unfoldable pub design_issues : Text → LearningDesign → List Issue
design_issues section_id design =
    (elim (goals_of design) [
      | [] ↦
          record {
            location = codes "learning_design:" ++ section_id;
            reason = codes "缺少学习目标";
            next_step = codes "补全学习目标后重建";
          }
          ∷ []
      | _ ∷ _ ↦ []
    ])
    ++ (if design.assessment_evidence
        then []
        else record {
          location = codes "learning_design:" ++ section_id ++ codes ":assessment_evidence";
          reason = codes "缺少评价证据（目标—评价对应）";
          next_step = codes "补充评价证据";
        }
          ∷ [])

unfoldable pub note_issues : Text → TeachingPlan → List Issue
note_issues section_id plan =
    if plan.pck_notes
    then []
    else record {
      location = codes "teaching_plan:" ++ section_id;
      reason = codes "缺少 PCK 教学说明";
      next_step = codes "补充教学说明";
    }
      ∷ []

unfoldable pub target_issues : Text → List LearningGoal → AssessmentItem → List Issue
target_issues section_id goals item =
    if is_goal goals item.target_goal
    then []
    else record {
      location = codes "assessment:" ++ section_id ++ codes ":" ++ shown item.assessment_id;
      reason = codes "评价题目指向未知目标：" ++ shown item.target_goal;
      next_step = codes "关联到有效学习目标";
    }
      ∷ []

unfoldable pub linked_issues : Option Text → List LearningGoal → Text → CaseDocument → List Issue
linked_issues section_id goals artifact_id c =
    if same_maybe c.section_id section_id && not (is_goal goals c.linked_goal)
    then record {
      location = artifact_id;
      reason = codes "案例关联的目标不存在：" ++ shown c.linked_goal;
      next_step = codes "关联到有效学习目标";
    }
      ∷ []
    else []

-- The loop over the artifacts of type `case`.
abbrev pub linked_cases_issues :
    Readers → GateContext → Option Text → List LearningGoal → Result GateError (List Issue)
linked_cases_issues readers ctx section_id goals =
    documents_issues readers.read_case no_case (linked_issues section_id goals) ctx (case_rows ctx)

abbrev pub script_text : Script → Text
script_text script = join (codes " ") (map (λ (u : ScriptUnit). u.text) script.units)

abbrev pub is_filled : Text → Bool
is_filled [] = false
is_filled (c ∷ cs) = true

-- A hypothesis of the model that stands in the text.
unfoldable pub states : Text → Difficulty → Bool
states text d =
    same d.basis (codes "model_hypothesis")
    && is_filled (strip d.text)
    && is_inside (strip d.text) text

unfoldable pub hypothesis_issues : Text → Text → Difficulty → List Issue
unfolding states
hypothesis_issues section_id text d =
    if states text d
    then record {
      location = codes "script:" ++ section_id;
      reason = codes "模型假设进入正式教材事实部分：" ++ take 40 (strip d.text);
      next_step = codes "标注为教学假设或改为群体层面表述";
    }
      ∷ []
    else []

abbrev pub dep_on : Text → Option Text → List (Text × Text)
dep_on key none = []
dep_on key (some rev_id) = (key, rev_id) ∷ []

abbrev pub teaching_deps : Text → GateContext → List (Text × Text)
teaching_deps section_id ctx =
    let in_use =
      λ (key : Text). rev_in_use (key ++ codes ":" ++ section_id) ctx.overrides ctx.store in
    dep_on (codes "learning_design") (in_use (codes "learning_design"))
    ++ dep_on (codes "teaching_plan") (in_use (codes "teaching_plan"))
    ++ dep_on (codes "assessment") (in_use (codes "assessment"))

abbrev pub no_items : List AssessmentItem
no_items = []

abbrev pub document_of :
    {A : Type 0} → (Text → A) → A → Text → Script → GateContext → Result GateError A
document_of read missing kind script =
    document_in_use read missing (kind ++ codes ":" ++ shown script.section_id)

abbrev pub all_issues :
    RouterRules
    → Script
    → LearningDesign
    → TeachingPlan
    → List AssessmentItem
    → List Issue
    → List Issue
all_issues rules script design plan items linked =
    let section_id = shown script.section_id in
    design_issues section_id design
    ++ collected (goal_issues rules section_id plan) (goals_of design)
    ++ note_issues section_id plan
    ++ collected (target_issues section_id (goals_of design)) items
    ++ linked
    ++ collected (hypothesis_issues section_id (script_text script)) design.difficulties

unfoldable pub g3_pedagogy :
    Readers → RouterRules → Text → Text → GateContext → Result GateError GateResult
unfolding require_rev document_in_use goal_table goal_issues design_issues note_issues target_issues
    linked_issues documents_issues hypothesis_issues make_result
g3_pedagogy readers rules rules_version script_artifact ctx =
    and_then (require_rev script_artifact ctx) (λ target.
      and_then (document_in_use readers.read_script no_script script_artifact ctx) (λ script.
        and_then (document_of readers.read_design no_design (codes "learning_design") script ctx)
          (λ design.
            and_then (document_of readers.read_plan no_plan (codes "teaching_plan") script ctx)
              (λ plan.
                and_then
                  (document_of readers.read_assessment no_items (codes "assessment") script ctx)
                  (λ items.
                    and_then (linked_cases_issues readers ctx script.section_id (goals_of design))
                      (λ linked.
                        concluded (codes "G3") script_artifact target
                          (all_issues rules script design plan items linked)
                          (teaching_deps (shown script.section_id) ctx) rules_version
                          ctx.run_id))))))
