-- ===== src/Engine.antt =====
-- pebs/engine.py. Here `_recover_interrupted`, which the engine calls when it starts: what a process that
-- was killed left as running is taken back.
pub mod Recovery
pub mod Steps
pub mod Dispatch
pub mod Edits
pub mod Changesets
use pebs.Base.{ℕ, Bool, true, false, none, some, List, Text, codes, if◌then◌else◌, each}
use pebs.Store.Rows.{Run, Step, StepStatus, RunStatus, Store}
use pebs.Store.Runs.{StepChange, interrupted_runs, get_steps, set_step, set_run_status}

abbrev pub is_running_step : Step → Bool
is_running_step st = elim st.status [ StepStatus.running ↦ true | _ ↦ false ]

abbrev pub blocked_by_restart : StepChange
blocked_by_restart = record {
  status = some StepStatus.blocked;
  error = some (codes "应用中途中止；重启后待恢复，需核对输入与已完成产物后重跑");
  note = none;
  input_revs = none;
  output_revs = none;
  model_calls = none;
  bump_attempt = false;
}

unfoldable pub recover_step : ℕ → Text → Step → Store → Store
recover_step now run_id st s =
    if is_running_step st then set_step now run_id st.step_id blocked_by_restart s else s

unfoldable pub recover_run : ℕ → Run → Store → Store
recover_run now run s =
    set_run_status now run.run_id RunStatus.interrupted
      (each (recover_step now run.run_id) (get_steps run.run_id s) s)

unfoldable pub recover_interrupted : ℕ → Store → Store
recover_interrupted now s = each (recover_run now) (interrupted_runs s) s
