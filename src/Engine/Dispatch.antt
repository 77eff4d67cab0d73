-- ===== src/Engine/Dispatch.antt =====
-- The loop over the steps of a plan in pebs/engine.py (`_run_steps`), with the statuses of steps and
-- of the run that it leads to. The handlers of pebs/pipeline.py are an argument: what a step does to
-- the store, to the outputs of the run and to the clock, and how it ends.
pub mod Statuses
pub mod Guarded
pub mod Settled
pub mod Concluded
use pebs.Base.{
  ℕ, Bool, true, false, not, ◌&&◌, ◌||◌, Option, none, some, List, [], ◌∷◌, ◌++◌, Text, same, codes,
  if◌then◌else◌, select, any, map, take, contains, row_for, join, ok, err, Exec, pure, modify,
  ◌>>=◌, ◌>>◌,
}
use mathlib.Core.List.{reverse}
use pebs.Evidence.Whitespace.{is_inside}
use pebs.Store.Rows.{Run, RunStatus, Step, StepStatus, Store, StoreError, run_not_found}
use pebs.Store.Runs.{StepChange, run_for, get_steps, set_step, set_run_status}

-- A step of the static plan.
pub record PlanStep : Type 0 where
  pub step_id : Text
  pub title : Text
  pub kind : Text
  pub depends_on : List Text
  pub required : Bool
  pub disabled : Bool
  pub locked : Bool

-- The store, `ctx.outputs` in the order of its keys, and the clock.
pub record World : Type 0 where
  pub store : Store
  pub outputs : List (Text × Text)
  pub now : ℕ

-- How a handler ends: its notes, or what it raises. `unexpected` has the place of the last frame.
pub data StepOutcome : Type 0 where
  finished : List Text → StepOutcome
  step_blocked : Text → StepOutcome
  write_conflict : Text → StepOutcome
  step_failed : Text → StepOutcome
  budget_exceeded : Text → StepOutcome
  cancelled_run : StepOutcome
  unexpected : Text → Text → StepOutcome

-- `STEPS.get(step_id)`, applied: none where no handler has the name.
abbrev pub Handlers : Type 0
Handlers = Text → World → Option (StepOutcome × World)

abbrev pub WorldExec : Type 0 → Type 0
WorldExec A = Exec World StoreError A

-- The change of a step to a status, and no more.
abbrev pub to_status : StepStatus → StepChange
to_status status = record {
  status = some status;
  error = none;
  note = none;
  input_revs = none;
  output_revs = none;
  model_calls = none;
  bump_attempt = false;
}

abbrev pub to_error : StepStatus → Text → StepChange
to_error status message = record (to_status status) { error = some message }

abbrev pub to_note : StepStatus → Text → StepChange
to_note status message = record (to_status status) { note = some message }

unfoldable pub put_step : Text → Text → StepChange → World → World
put_step run_id step_id change w = record w { store = set_step w.now run_id step_id change w.store }

-- `_step_status`
unfoldable pub step_status : Text → Text → Store → StepStatus
step_status run_id step_id s = elim (select (λ st. same st.step_id step_id) (get_steps run_id s)) [
  | [] ↦ StepStatus.pending
  | st ∷ rest ↦ st.status
]

abbrev pub is_succeeded : StepStatus → Bool
is_succeeded st = elim st [ StepStatus.succeeded ↦ true | _ ↦ false ]

abbrev pub is_failed : StepStatus → Bool
is_failed st = elim st [ StepStatus.failed ↦ true | _ ↦ false ]

abbrev pub is_blocked : StepStatus → Bool
is_blocked st = elim st [ StepStatus.blocked ↦ true | _ ↦ false ]

abbrev pub is_cancelled : StepStatus → Bool
is_cancelled st = elim st [ StepStatus.cancelled ↦ true | _ ↦ false ]

abbrev pub is_open : StepStatus → Bool
is_open st = elim st [ StepStatus.pending ↦ true | StepStatus.running ↦ true | _ ↦ false ]

-- A status in which the loop leaves a step.
abbrev pub is_settled : StepStatus → Bool
is_settled st = elim st [
  | StepStatus.pending ↦ false
  | StepStatus.running ↦ false
  | StepStatus.stale ↦ false
  | _ ↦ true
]

-- `_compute_run_status`
unfoldable pub compute_run_status : List StepStatus → RunStatus
compute_run_status statuses =
    if any is_failed statuses
    then RunStatus.failed
    else if any is_blocked statuses
    then RunStatus.blocked
    else if any is_cancelled statuses && not (any is_open statuses)
    then RunStatus.cancelled
    else RunStatus.succeeded

abbrev pub statuses_of : Text → Store → List StepStatus
statuses_of run_id s = map (λ st. st.status) (get_steps run_id s)

-- `_finalize_run_status`
unfoldable pub finalize_run_status : ℕ → Text → Store → Store
finalize_run_status now run_id s =
    set_run_status now run_id (compute_run_status (statuses_of run_id s)) s

-- `"预算耗尽" in (step.get("error") or "")`
abbrev pub is_budget_error : Option Text → Bool
is_budget_error none = false
is_budget_error (some e) = is_inside (codes "预算耗尽") e

-- The steps that `resume` dispatches again.
unfoldable pub budget_blocked : Text → Store → List Text
budget_blocked run_id s =
    map (λ st. st.step_id)
      (select (λ (st : Step). is_blocked st.status && is_budget_error st.error)
        (get_steps run_id s))

abbrev pub is_run_cancelled : RunStatus → Bool
is_run_cancelled st = elim st [ RunStatus.cancelled ↦ true | _ ↦ false ]

-- `{s["step_id"]: s for s in steps}[p.step_id]`: of steps with one name the last.
unfoldable pub step_named : List PlanStep → PlanStep → PlanStep
step_named plan p = elim (row_for (λ q. q.step_id) p.step_id (reverse plan)) [
  | none ↦ p
  | some q ↦ q
]

-- `step_ids`, a set or None
abbrev pub is_selected : Option (List Text) → Text → Bool
is_selected none step_id = true
is_selected (some ids) step_id = contains step_id ids

unfoldable pub tracked : List PlanStep → Option (List Text) → List Text
tracked plan none = map (λ q. q.step_id) plan
tracked plan (some ids) = ids

unfoldable pub blocked_by : Text → List Text → List Text → Store → List Text
blocked_by run_id ids depends_on s =
    select (λ dep. contains dep ids && not (is_succeeded (step_status run_id dep s))) depends_on

-- `list(outputs.values())[-8:]`
unfoldable pub last_outputs : List (Text × Text) → List Text
last_outputs outputs = reverse (take 8 (reverse (map (λ o. o.1) outputs)))

-- What is recorded of a handler that has ended. True says that the loop goes on.
unfoldable pub record_outcome : Text → Text → StepOutcome → World → Bool × World
record_outcome run_id step_id (finished notes) w = (
  true,
  put_step run_id step_id
      (record (to_note StepStatus.succeeded (join (codes "；") (take 8 notes))) {
        output_revs = some (last_outputs w.outputs);
      })
      w,
)
record_outcome run_id step_id (step_blocked message) w =
    (true, put_step run_id step_id (to_error StepStatus.blocked message) w)
record_outcome run_id step_id (write_conflict message) w = (
  true,
  put_step run_id step_id (to_error StepStatus.blocked (codes "preserve 契约阻止写入：" ++ message)) w,
)
record_outcome run_id step_id (step_failed message) w =
    (true, put_step run_id step_id (to_error StepStatus.failed message) w)
record_outcome run_id step_id (budget_exceeded message) w =
    (false, put_step run_id step_id (to_error StepStatus.blocked (codes "预算耗尽：" ++ message)) w)
record_outcome run_id step_id cancelled_run w =
    (true, put_step run_id step_id (to_error StepStatus.cancelled (codes "运行已取消")) w)
record_outcome run_id step_id (unexpected message frame) w = (
  true,
  put_step run_id step_id
      (to_error StepStatus.failed (codes "未预期错误：" ++ message ++ codes "（" ++ frame ++ codes "）")) w,
)

-- The step is marked as running, with one attempt more.
unfoldable pub start_step : Text → Text → World → World
start_step run_id step_id =
    put_step run_id step_id (record (to_status StepStatus.running) { bump_attempt = true })

unfoldable pub attempt : Handlers → Text → Text → World → Bool × World
attempt handlers run_id step_id w =
    let started = start_step run_id step_id w in
    elim (handlers step_id started) [
      | none ↦ record_outcome run_id step_id (step_failed (codes "未实现步骤：" ++ step_id)) started
      | some (outcome, w') ↦ record_outcome run_id step_id outcome w'
    ]

-- One round of the loop.
unfoldable pub run_step :
    Handlers → Text → List PlanStep → Option (List Text) → PlanStep → WorldExec Bool
run_step handlers run_id plan ids p w =
    let step = step_named plan p in
    if not (is_selected ids p.step_id)
    then (ok true, w)
    else if step.disabled
    then (ok true, put_step run_id p.step_id (to_note StepStatus.cancelled (codes "用户禁用")) w)
    else elim (run_for run_id w.store.runs) [
      | none ↦ (err (run_not_found run_id), w)
      | some run ↦
          if is_run_cancelled run.status
          then (ok true, put_step run_id p.step_id (to_note StepStatus.cancelled (codes "运行已取消")) w)
          else elim (blocked_by run_id (tracked plan ids) step.depends_on w.store) [
            | [] ↦ let (go, w') = attempt handlers run_id p.step_id w in (ok go, w')
            | d ∷ ds ↦ (
              ok true,
              put_step run_id p.step_id
                  (to_error StepStatus.blocked (codes "依赖步骤未成功：" ++ join (codes "、") (d ∷ ds))) w,
            )
          ]
    ]

unfoldable pub run_loop :
    Handlers → Text → List PlanStep → Option (List Text) → List PlanStep → WorldExec Unit
run_loop handlers run_id plan ids [] = pure tt
run_loop handlers run_id plan ids (p ∷ ps) = do
  go ← run_step handlers run_id plan ids p
  let rest = run_loop handlers run_id plan ids ps
  if go then rest else pure tt

abbrev pub finish_run : Text → World → World
finish_run run_id w = record w { store = finalize_run_status w.now run_id w.store }

-- `_run_steps` on the steps of `current_plan()`
unfoldable pub run_steps : Handlers → Text → List PlanStep → Option (List Text) → WorldExec Unit
run_steps handlers run_id plan ids = do
  run_loop handlers run_id plan ids plan
  modify (finish_run run_id)
