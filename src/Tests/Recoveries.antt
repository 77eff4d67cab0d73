-- ===== src/Tests/Recoveries.antt =====
-- A store that a killed process left with a running run and a running step.
use native.Mathlib.Decide.{ℕ_discrete}
use pebs.Base.{
  ◌≡◌, refl, none, some, [], ◌∷◌, codes, text_dec, select, amend, any, each, All, Some, map,
}
use pebs.Store.Rows.{Run, Step, StepStatus, RunStatus, Store}
use pebs.Store.Runs.{
  interrupted_runs, get_steps, set_step, set_run_status, ensure_step, add_step, has_step,
  amend_steps, change_step, next_started,
}
use pebs.Engine.{recover_step, recover_run, recover_interrupted}
use pebs.Engine.Steps.{IsStill, recover_interrupted-IsStill}

program : Unit {0}
unfolding text_dec ℕ_discrete select amend any each interrupted_runs get_steps set_step
    set_run_status ensure_step add_step has_step amend_steps change_step next_started recover_step
    recover_run recover_interrupted
program = tt

abbrev run : Run
run = record {
  run_id = codes "r";
  project_id = codes "p";
  created_at = 100;
  status = RunStatus.running;
  environment = codes "production";
  baseline = [];
  budget_model_calls = 3;
  budget_research = 2;
  budget_seconds = 60;
  calls_used = 1;
  research_used = 0;
  ended_at = none;
  request = [];
  inputs = [];
}

abbrev step : Step
step = record {
  run_id = codes "r";
  step_id = codes "case";
  title = codes "case";
  status = StepStatus.running;
  attempts = 1;
  started_at = some 101;
  ended_at = none;
  error = none;
  note = none;
  input_revs = [];
  output_revs = [];
  model_calls = 0;
}

abbrev store : Store
store = record {
  project_id = codes "p";
  pointers = [];
  revisions = [];
  deps = [];
  changesets = [];
  items = [];
  runs = run ∷ [];
  steps = step ∷ record step { step_id = codes "script"; status = StepStatus.pending } ∷ [];
  files = [];
}

-- The running step is blocked, the other one stays pending.
recovered_steps :
    map (λ st. st.status) (recover_interrupted 200_000 store).steps
    ≡ StepStatus.blocked ∷ StepStatus.pending ∷ []
unfolding program
recovered_steps = refl

open-runs : interrupted_runs store ≡ run ∷ []
unfolding program
open-runs = refl

recover_interrupted-IsStill_example :
    (interrupted_runs (recover_interrupted 200_000 store) ≡ [])
    × ((r : Run)
        → Some (λ q. q ≡ r) (interrupted_runs store)
        → All (IsStill r.run_id) (recover_interrupted 200_000 store).steps)
recover_interrupted-IsStill_example = recover_interrupted-IsStill 200_000 store
