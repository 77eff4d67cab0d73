-- ===== src/Engine/Edits.antt =====
-- `edit_plan` of pebs/engine.py, on the steps of the plan that `current_plan` reads and `save_plan`
-- writes. A position is a natural number or none: a negative one is rejected as none is.
pub mod Sound
pub mod Moved
pub mod Kept
pub mod Plans
use pebs.Base.{
  ℕ, zero, suc, ◌+◌, Bool, true, false, not, ◌&&◌, ◌||◌, Option, none, some, List, [], ◌∷◌, Text,
  same, codes, ltb, if◌then◌else◌, any, map, select, contains, length, row_for, Result, ok, err,
}
use pebs.Engine.Dispatch.{PlanStep}

-- PlanEditRejected, with what its message names, and the KeyError of a dependency that is no step.
pub data EditError : Type 0 where
  unknown_step : Text → EditError
  is_needed : EditError
  bad_position : EditError
  before_dependency : Text → Text → EditError
  no_position : Text → EditError

-- The five operations; any other name is rejected.
pub data EditOp : Type 0 where
  disable enable lock unlock move : EditOp

-- The first step of the name is changed.
unfoldable pub change_first : Text → (PlanStep → PlanStep) → List PlanStep → List PlanStep
change_first step_id f [] = []
change_first step_id f (s ∷ steps) =
    let rest = change_first step_id f steps in
    if same s.step_id step_id then f s ∷ steps else s ∷ rest

-- `steps.remove(step)` of the first step of the name
unfoldable pub remove_first : Text → List PlanStep → List PlanStep
remove_first step_id [] = []
remove_first step_id (s ∷ steps) =
    let rest = remove_first step_id steps in if same s.step_id step_id then steps else s ∷ rest

-- `steps.insert(index, step)`
unfoldable pub insert_at : ℕ → PlanStep → List PlanStep → List PlanStep
insert_at zero step steps = step ∷ steps
insert_at (suc i) step [] = step ∷ []
insert_at (suc i) step (s ∷ steps) = s ∷ insert_at i step steps

-- `{s["step_id"]: i for i, s in enumerate(steps)}`, counted from `i`: the last place of a name
unfoldable pub position : Text → ℕ → List PlanStep → Option ℕ
position step_id i [] = none
position step_id i (s ∷ steps) = elim (position step_id (i + 1) steps) [
  | some k ↦ some k
  | none ↦ if same s.step_id step_id then some i else none
]

-- `position[dep] >= position[candidate]` is an error.
unfoldable pub check_deps : List PlanStep → Text → List Text → Result EditError Unit
unfolding position
check_deps steps candidate [] = ok tt
check_deps steps candidate (dep ∷ deps) =
    let rest = check_deps steps candidate deps in
    elim (position dep 0 steps) [
      | none ↦ err (no_position dep)
      | some i ↦ elim (position candidate 0 steps) [
        | none ↦ err (no_position candidate)
        | some j ↦ if ltb i j then rest else err (before_dependency candidate dep)
      ]
    ]

unfoldable pub check_order : List PlanStep → List PlanStep → Result EditError Unit
check_order steps [] = ok tt
check_order steps (c ∷ candidates) =
    let rest = check_order steps candidates in
    elim (check_deps steps c.step_id c.depends_on) [ err e ↦ err e | ok _ ↦ rest ]

-- A step that may not be disabled.
unfoldable pub is_required_now : PlanStep → List PlanStep → Bool
is_required_now step steps =
    contains step.kind (codes "gate" ∷ codes "export" ∷ [])
    || (step.required
        && any (λ (o : PlanStep). not o.disabled && contains step.step_id o.depends_on) steps)

unfoldable pub move_step : PlanStep → Option ℕ → List PlanStep → Result EditError (List PlanStep)
unfolding check_order
move_step step none steps = err bad_position
move_step step (some index) steps =
    if ltb index (length steps)
    then (let moved = insert_at index step (remove_first step.step_id steps) in
        elim (check_order moved moved) [ err e ↦ err e | ok _ ↦ ok moved ])
    else err bad_position

unfoldable pub apply_edit :
    EditOp → PlanStep → Option ℕ → List PlanStep → Result EditError (List PlanStep)
unfolding is_required_now move_step
apply_edit disable step index steps =
    if is_required_now step steps
    then err is_needed
    else ok (change_first step.step_id (λ s. record s { disabled = true }) steps)
apply_edit enable step index steps =
    ok (change_first step.step_id (λ s. record s { disabled = false }) steps)
apply_edit lock step index steps =
    ok (change_first step.step_id (λ s. record s { locked = true }) steps)
apply_edit unlock step index steps =
    ok (change_first step.step_id (λ s. record s { locked = false }) steps)
apply_edit move step index steps = move_step step index steps

unfoldable pub edit_plan :
    EditOp → Text → Option ℕ → List PlanStep → Result EditError (List PlanStep)
unfolding apply_edit
edit_plan op step_id index steps = elim (row_for (λ s. s.step_id) step_id steps) [
  | none ↦ err (unknown_step step_id)
  | some step ↦ apply_edit op step index steps
]

abbrev pub plan_kind : Text → Text
plan_kind step_id =
    if same step_id (codes "export")
    then codes "export"
    else if same step_id (codes "gates")
    then codes "gate"
    else codes "user_visible"

abbrev pub plan_step : Text × Text × List Text → PlanStep
plan_step (step_id, title, depends_on) = record {
  step_id = step_id;
  title = title;
  kind = plan_kind step_id;
  depends_on = depends_on;
  required = true;
  disabled = false;
  locked = false;
}

abbrev pub pptx_steps : List Text
pptx_steps = codes "evidence_assets" ∷ codes "slide_plan" ∷ codes "pptx" ∷ []

-- `spec`
abbrev pub plan_spec : List (Text × Text × List Text)
plan_spec =
    (codes "parse_inputs", codes "解析模板与材料", [])
    ∷ (codes "requirements", codes "整理课程要求", codes "parse_inputs" ∷ [])
    ∷ (codes "learning_design", codes "设计学习目标与理解难点", codes "requirements" ∷ [])
    ∷ (codes "claims", codes "提取待核验心理学结论", codes "learning_design" ∷ [])
    ∷ (codes "evidence", codes "核验结论（用户材料/研究来源）", codes "claims" ∷ [])
    ∷ (codes "teaching_plan", codes "教学设计（PCK/UDL）", codes "evidence" ∷ [])
    ∷ (codes "lesson_plans", codes "写教案", codes "teaching_plan" ∷ [])
    ∷ (codes "cases", codes "设计案例", codes "lesson_plans" ∷ [])
    ∷ (codes "assessments", codes "设计形成性评价", codes "cases" ∷ [])
    ∷ (codes "worksheets", codes "设计学习单", codes "assessments" ∷ [])
    ∷ (codes "evidence_topup", codes "补充核验新增事实", codes "worksheets" ∷ [])
    ∷ (codes "scripts", codes "生成课程脚本", codes "evidence_topup" ∷ [])
    ∷ (codes "media_plan", codes "媒体选型（Media Router）", codes "scripts" ∷ [])
    ∷ (codes "diagrams", codes "生成教学图示（SVG）", codes "media_plan" ∷ [])
    ∷ (codes "load_review", codes "认知负荷与双重编码检查", codes "diagrams" ∷ [])
    ∷ (codes "storyboard", codes "动画决策与教学分镜", codes "load_review" ∷ [])
    ∷ (codes "evidence_assets", codes "证据资产索引（Evidence Index）", codes "diagrams" ∷ [])
    ∷ (codes "slide_plan", codes "幻灯片沟通计划（Production Planning Table）", codes "evidence_assets" ∷ [])
    ∷ (codes "pptx", codes "生成可编辑 PPTX", codes "slide_plan" ∷ [])
    ∷ (codes "gates", codes "质量门禁 G1–G7", codes "storyboard" ∷ [])
    ∷ (codes "preview", codes "生成预览", codes "gates" ∷ [])
    ∷ (codes "export", codes "导出 DOCX/Markdown/PPTX", codes "preview" ∷ [])
    ∷ []

-- `pipeline.plan_steps()`; the argument is `RULES["m4"]["pptx"]`.
unfoldable pub plan_steps : Bool → List PlanStep
plan_steps true = map plan_step plan_spec
plan_steps false =
    map plan_step
      (select (λ (t : Text × Text × List Text). not (contains t.0 pptx_steps)) plan_spec)
