-- ===== src/Runtime/Records.antt =====
-- What pebs/runtime/executor.py records of a node: the artifacts that it read, the revisions that it
-- made, and how it ended.
use pebs.Base.{
  ℕ, Bool, true, false, not, ◌&&◌, Option, none, some, List, [], ◌∷◌, ◌++◌, Text, same, same_maybe,
  codes, decimal, ltb, ◌==◌, if◌then◌else◌, select, map, take, contains, length, sorted, row_for,
  join,
}
use pebs.Store.Rows.{StepStatus}
use pebs.Store.Runs.{StepChange}
use pebs.Planner.Contracts.{PlanNode}
use pebs.Engine.Dispatch.{to_error, to_note}

abbrev pub Outputs : Type 0
Outputs = List (Text × Text)

-- `outputs.get(artifact_id)`
unfoldable pub output_for : Text → Outputs → Option Text
output_for artifact_id outputs = elim (row_for (λ o. o.0) artifact_id outputs) [
  | none ↦ none
  | some (a, rev) ↦ some rev
]

-- `artifact_id in outputs`
unfoldable pub has_output : Outputs → Text → Bool
has_output outputs artifact_id = elim (output_for artifact_id outputs) [
  | none ↦ false
  | some rev ↦ true
]

-- `outputs[artifact_id] = rev`
unfoldable pub put_output : Text → Text → Outputs → Outputs
put_output artifact_id rev [] = (artifact_id, rev) ∷ []
put_output artifact_id rev ((a, r) ∷ outputs) =
    let rest = put_output artifact_id rev outputs in
    if same a artifact_id then (a, rev) ∷ outputs else (a, r) ∷ rest

-- `artifact_id.split(":", 1)[0]`
unfoldable pub type_part : Text → Text
type_part [] = []
type_part (c ∷ cs) = let rest = type_part cs in if c == b':' then [] else c ∷ rest

-- `_step_input_revs`; a node of a plan has no `optional_requires`, and keys do not stand twice.
unfoldable pub step_input_revs : PlanNode → Outputs → List Text
unfolding type_part
step_input_revs node before =
    sorted (select (λ a. contains (type_part a) node.inputs) (map (λ o. o.0) before))

unfoldable pub new_revs : Outputs → List Text → Outputs → List Text
new_revs before seen [] = seen
new_revs before seen ((a, rev) ∷ after) =
    new_revs before
      (if not (same_maybe (output_for a before) (some rev)) && not (contains rev seen)
        then seen ++ rev ∷ []
        else seen)
      after

-- `_step_output_revs`
unfoldable pub step_output_revs : Outputs → Outputs → List Text
unfolding new_revs output_for
step_output_revs before after = new_revs before [] after

-- What the handlers of the three runtimes return, and what the note is made of.
pub record NodeResult : Type 0 where
  pub notes : List Text
  pub included : List Text
  pub revisions : List Text
  pub schema_repairs : ℕ

-- What a node raises: StepBlocked and SkillRuntimeBlocked, ConflictError, StepFailed and
-- SkillExecutionFailed, IsolationViolation and AgentContractError, BudgetExceeded, CancelledRun, and
-- any other exception.
pub data Raised : Type 0 where
  step_blocked write_conflict step_failed contract_violation budget_exceeded unexpected :
      Text → Raised
  cancelled_run : Raised

pub data Ending : Type 0 where
  done : NodeResult → Ending
  raised : Raised → Ending

pub data RuntimeKind : Type 0 where
  builtin prompt_skill external_skill sandbox_skill : RuntimeKind
  unknown_runtime : Text → RuntimeKind

-- `str(record.get("runtime", "builtin"))`, where the record may lack the key
unfoldable pub runtime_kind : Option Text → RuntimeKind
runtime_kind none = builtin
runtime_kind (some t) =
    if same t (codes "builtin")
    then builtin
    else if same t (codes "prompt_skill")
    then prompt_skill
    else if same t (codes "external_skill")
    then external_skill
    else if same t (codes "sandbox_skill")
    then sandbox_skill
    else unknown_runtime t

abbrev pub or_text : Text → Text → Text
or_text [] d = d
or_text (c ∷ cs) d = c ∷ cs

abbrev pub repairs_note : ℕ → Text
repairs_note n =
    if ltb 0 n then codes "；" ++ (codes "Schema 修复 " ++ (decimal n ++ codes " 次")) else []

-- The note on an external skill.
unfoldable pub external_note : Text → NodeResult → Text
external_note name r =
    codes "外部 Skill 执行："
    ++ name
    ++ codes "；上下文仅含 "
    ++ or_text (join (codes "、") r.included) (codes "无")
    ++ codes "；产出 "
    ++ decimal (length r.revisions)
    ++ codes " 个产物"
    ++ repairs_note r.schema_repairs

unfoldable pub result_note : RuntimeKind → Text → NodeResult → Text
unfolding external_note
result_note builtin name r = join (codes "；") (take 8 r.notes)
result_note prompt_skill name r = external_note name r
result_note external_skill name r = external_note name r
result_note sandbox_skill name r =
    codes "沙箱 Skill 执行：" ++ name ++ codes "；产出 " ++ decimal (length r.revisions) ++ codes " 个产物"
result_note (unknown_runtime t) name r = []

abbrev pub non_empty_texts : List Text → List Text
non_empty_texts ts = select (λ (t : Text). ltb 0 (length t)) ts

-- The status and the message of each `except` clause.
unfoldable pub raised_change : Raised → StepChange
raised_change (step_blocked m) = to_error StepStatus.blocked m
raised_change (write_conflict m) = to_error StepStatus.blocked (codes "preserve 契约阻止写入：" ++ m)
raised_change (step_failed m) = to_error StepStatus.failed m
raised_change (contract_violation m) = to_error StepStatus.failed (codes "Subagent 契约违规：" ++ m)
raised_change (budget_exceeded m) = to_error StepStatus.blocked (codes "预算耗尽：" ++ m)
raised_change cancelled_run = to_error StepStatus.cancelled (codes "运行已取消")
raised_change (unexpected m) = to_error StepStatus.failed (codes "未预期错误：" ++ m)

unfoldable pub ending_change : RuntimeKind → Text → Text → Ending → StepChange
unfolding raised_change
ending_change kind name gate_note (done r) =
    to_note StepStatus.succeeded
      (join (codes "；") (non_empty_texts (gate_note ∷ result_note kind name r ∷ [])))
ending_change kind name gate_note (raised x) = raised_change x
