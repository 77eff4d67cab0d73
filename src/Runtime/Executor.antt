-- ===== src/Runtime/Executor.antt =====
-- `execute_node` and `execute_plan` of pebs/runtime/executor.py. The run of an agent is an argument:
-- what it does to the store, the outputs and the clock, and how it ends. The nodes of a batch are
-- taken one after the other.
pub mod Guarded
pub mod Resumable
pub mod Aborted
use pebs.Base.{
  ℕ, Bool, true, false, not, ◌&&◌, ◌||◌, Option, none, some, List, [], ◌∷◌, ◌++◌, Text, same, codes,
  ltb, ◌==◌, if◌then◌else◌, select, any, all, map, each, join, text_leb, row_for, Result, ok, err,
  Exec, pure, modify, ◌>>=◌, ◌>>◌,
}
use pebs.Store.Rows.{Run, Store, StoreError, StepStatus, run_not_found}
use pebs.Store.Artifacts.{accepted_rev_id}
use pebs.Store.Runs.{StepChange, run_for}
use pebs.Store.Listings.{sort_by}
use pebs.Planner.Contracts.{PlanNode}
use pebs.Gates.Results.{
  GateResult, GateStatus, fail, needs_review, pass, not_applicable, Documents, gate_artifact_id,
  latest_gate_results,
}
use pebs.Engine.Dispatch.{
  World, put_step, step_status, is_succeeded, is_run_cancelled, finish_run, start_step, to_status,
  to_note, to_error,
}
use pebs.Runtime.Records.{
  Outputs, Ending, done, raised, Raised, budget_exceeded, RuntimeKind, unknown_runtime, has_output,
  put_output, step_input_revs, step_output_revs, runtime_kind, ending_change,
}

-- A `_Runner`: the state that its nodes share, and `abort_reason`, set when the run is aborted.
pub record Runner : Type 0 where
  pub world : World
  pub abort_reason : Option Text

abbrev pub RunnerExec : Type 0 → Type 0
RunnerExec A = Exec Runner StoreError A

-- What `execute_node` reads of `registry.get(skill) or {}`.
pub record SkillRun : Type 0 where
  pub name : Text
  pub runtime : Option Text

-- The agents, the records of skills and the JSON of gate results.
pub record Machine : Type 0 where
  pub agent : PlanNode → World → Ending × World
  pub record_of : Text → SkillRun
  pub docs : Documents

abbrev pub put_node_step : Text → PlanNode → StepChange → Runner → Runner
put_node_step run_id node change r = record r {
  world = put_step run_id node.node_id change r.world;
}

abbrev pub abort_error : Text → StepChange
abort_error reason =
    to_error StepStatus.blocked (codes "预算耗尽：本次运行已中止后续步骤（" ++ (reason ++ codes "）"))

-- `skip_after_abort`: whether the node is passed over.
unfoldable pub skip_after_abort : Text → PlanNode → Runner → Bool × Runner
skip_after_abort run_id node r = elim r.abort_reason [
  | none ↦ (false, r)
  | some reason ↦ (true, put_node_step run_id node (abort_error reason) r)
]

-- `self.ctx.outputs[output] = accepted` for the outputs that have an accepted revision
unfoldable pub reuse_output : Store → Text → Outputs → Outputs
reuse_output s output outputs = elim (accepted_rev_id output s) [
  | none ↦ outputs
  | some [] ↦ outputs
  | some (c ∷ cs) ↦ put_output output (c ∷ cs) outputs
]

unfoldable pub is_reused : PlanNode → Outputs → Bool
is_reused node outputs = node.reused || all (has_output outputs) node.outputs

unfoldable pub reuse_node : Text → PlanNode → Runner → Runner
reuse_node run_id node r =
    put_node_step run_id node
      (to_note StepStatus.succeeded (codes "复用已接受产物：" ++ join (codes "、") node.outputs))
      (record r {
        world = record r.world {
          outputs = each (reuse_output r.world.store) node.outputs r.world.outputs;
        };
      })

unfoldable pub missing_deps : Text → PlanNode → Store → List Text
missing_deps run_id node s =
    select (λ dep. not (is_succeeded (step_status run_id dep s))) node.depends_on

abbrev pub is_open_status : GateStatus → Bool
is_open_status st = elim st [
  | pass ↦ false
  | fail ↦ true
  | needs_review ↦ true
  | not_applicable ↦ false
]

-- The result of the gate on the artifact is FAIL or NEEDS_REVIEW.
unfoldable pub is_refused : List (Text × GateResult) → Text → Text → Bool
is_refused results gate_id output =
    elim (row_for (λ p. p.0) (gate_artifact_id gate_id output) results) [
      | none ↦ false
      | some (key, r) ↦ is_open_status r.status
    ]

unfoldable pub failed_gates : List (Text × GateResult) → List Text → List Text → List Text
failed_gates results [] outputs = []
failed_gates results (g ∷ gs) outputs =
    map (λ o. g ++ b'@' ∷ o) (select (is_refused results g) outputs)
    ++ failed_gates results gs outputs

-- The gates before the node: what failed, and the note that is kept.
unfoldable pub check_gates_before :
    Documents → PlanNode → World → Result StoreError (List Text × Text)
check_gates_before docs node w = elim node.gate_before [
  | [] ↦ ok ([], [])
  | g ∷ gs ↦ elim (latest_gate_results docs w.outputs w.store).0 [
    | err e ↦ err e
    | ok results ↦
        ok (failed_gates results (g ∷ gs) node.inputs, codes "前置门禁：" ++ join (codes "、") (g ∷ gs))
  ]
]

-- `_finalize`: every final status is recorded with what was read and made.
abbrev pub with_revs : PlanNode → Outputs → Outputs → StepChange → StepChange
with_revs node before after change = record change {
  input_revs = some (step_input_revs node before);
  output_revs = some (step_output_revs before after);
}

-- `abort_run` where the budget is exceeded
abbrev pub aborted_by : Ending → Option Text → Option Text
aborted_by (raised (budget_exceeded m)) old = some m
aborted_by _ old = old

unfoldable pub end_node :
    Text → PlanNode → RuntimeKind → Text → Text → Outputs → Ending × World → Runner → Runner
end_node run_id node kind name gate_note before (ending, w) r = record {
  world =
      put_step run_id node.node_id
        (with_revs node before w.outputs (ending_change kind name gate_note ending)) w;
  abort_reason = aborted_by ending r.abort_reason;
}

-- The node is marked as running, and its agent is run.
unfoldable pub run_agent : Machine → Text → PlanNode → Text → Runner → Runner
run_agent machine run_id node gate_note r =
    let skill = machine.record_of node.skill in
    let started = start_step run_id node.node_id r.world in
    elim (runtime_kind skill.runtime) [
      | unknown_runtime t ↦
          put_node_step run_id node (to_error StepStatus.blocked (codes "未知 runtime 类型：" ++ t))
            (record r { world = started })
      | kind ↦
          end_node run_id node kind skill.name gate_note r.world.outputs
            (machine.agent node started) r
    ]

unfoldable pub pass_gates : Machine → Text → PlanNode → RunnerExec Unit
pass_gates machine run_id node r = elim (check_gates_before machine.docs node r.world) [
  | err e ↦ (err e, r)
  | ok ([], gate_note) ↦ (ok tt, run_agent machine run_id node gate_note r)
  | ok (f ∷ fs, gate_note) ↦ (
    ok tt,
    put_node_step run_id node
        (to_error StepStatus.blocked (codes "前置门禁未通过：" ++ join (codes "、") (f ∷ fs))) r,
  )
]

-- A node of a run that is neither cancelled nor aborted.
unfoldable pub take_node : Machine → Text → PlanNode → RunnerExec Unit
take_node machine run_id node r =
    if is_reused node r.world.outputs
    then (ok tt, reuse_node run_id node r)
    else elim (missing_deps run_id node r.world.store) [
      | [] ↦ pass_gates machine run_id node r
      | d ∷ ds ↦ (
        ok tt,
        put_node_step run_id node
            (to_error StepStatus.blocked (codes "依赖未成功：" ++ join (codes "、") (d ∷ ds))) r,
      )
    ]

unfoldable pub execute_node : Machine → Text → PlanNode → RunnerExec Unit
unfolding skip_after_abort
execute_node machine run_id node r = elim (run_for run_id r.world.store.runs) [
  | none ↦ (err (run_not_found run_id), r)
  | some run ↦
      if is_run_cancelled run.status
      then (ok tt, put_node_step run_id node (to_note StepStatus.cancelled (codes "运行已取消")) r)
      else elim r.abort_reason [
        | none ↦ take_node machine run_id node r
        | some reason ↦ (ok tt, (skip_after_abort run_id node r).1)
      ]
]

-- A node of a batch of several: it is not submitted once the run is aborted.
unfoldable pub submit_node : Machine → Text → PlanNode → RunnerExec Unit
unfolding skip_after_abort
submit_node machine run_id node r = elim r.abort_reason [
  | none ↦ execute_node machine run_id node r
  | some reason ↦ (ok tt, (skip_after_abort run_id node r).1)
]

-- All nodes of the batch are taken; then the first error is raised.
unfoldable pub submit_all : Machine → Text → List PlanNode → RunnerExec Unit
submit_all machine run_id [] r = (ok tt, r)
submit_all machine run_id (n ∷ ns) r =
    let (e, s) = submit_node machine run_id n r in
    let (f, t) = submit_all machine run_id ns s in (elim e [ err x ↦ err x | ok _ ↦ f ], t)

unfoldable pub execute_batch : Machine → Text → List PlanNode → RunnerExec Unit
execute_batch machine run_id [] r = (ok tt, r)
execute_batch machine run_id (n ∷ []) r = execute_node machine run_id n r
execute_batch machine run_id (n ∷ m ∷ ns) r = submit_all machine run_id (n ∷ m ∷ ns) r

unfoldable pub insert_level : ℕ → List ℕ → List ℕ
insert_level n [] = n ∷ []
insert_level n (m ∷ ms) =
    let rest = insert_level n ms in
    if n == m then m ∷ ms else if ltb n m then n ∷ m ∷ ms else m ∷ rest

-- `sorted(groups)`
unfoldable pub levels : List PlanNode → List ℕ
unfolding insert_level
levels [] = []
levels (n ∷ ns) = insert_level n.parallel_group (levels ns)

-- `sorted(groups[level], key=lambda item: item["node_id"])`
unfoldable pub batch_of : ℕ → List PlanNode → List PlanNode
batch_of level nodes =
    sort_by (λ (a b : PlanNode). text_leb a.node_id b.node_id)
      (select (λ (n : PlanNode). n.parallel_group == level) nodes)

unfoldable pub execute_levels : Machine → Text → List PlanNode → List ℕ → RunnerExec Unit
execute_levels machine run_id nodes [] = pure tt
execute_levels machine run_id nodes (l ∷ ls) = do
  execute_batch machine run_id (batch_of l nodes)
  execute_levels machine run_id nodes ls

abbrev pub finish_runner : Text → Runner → Runner
finish_runner run_id r = record r { world = finish_run run_id r.world }

unfoldable pub execute_plan : Machine → Text → List PlanNode → RunnerExec Unit
unfolding levels
execute_plan machine run_id nodes = do
  execute_levels machine run_id nodes (levels nodes)
  modify (finish_runner run_id)
