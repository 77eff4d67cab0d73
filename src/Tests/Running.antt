-- ===== src/Tests/Running.antt =====
-- A run with two steps of a plan, and what the loops of the engine and of the executor do on it.
use native.Mathlib.Decide.{ℕ_discrete}
use pebs.Base.{
  true, false, ◌&&◌, ◌≡◌, ◌⊎◌, refl, subst, none, some, List, [], ◌∷◌, codes, same, text_dec, arith,
  select, amend, any, all, each, contains, map, Some, inl, inr, ok, not, if◌then◌else◌, row_for,
  take, join,
}
use pebs.Store.Rows.{Run, RunStatus, StepStatus}
use pebs.Store.Runs.{
  get_steps, set_step, set_run_status, ensure_step, add_step, has_step, amend_steps, change_step,
  next_started,
}
use pebs.Planner.Contracts.{PlanNode}
use pebs.Gates.Results.{pass}
use pebs.Engine.Dispatch.{
  PlanStep, World, finished, step_failed, Handlers, put_step, step_status, statuses_of,
  compute_run_status, finalize_run_status, step_named, tracked, blocked_by, last_outputs,
  record_outcome, start_step, attempt, run_step, run_loop, run_steps, is_failed, is_blocked,
  is_cancelled, is_open, is_selected, budget_blocked,
}
use pebs.Engine.Dispatch.Guarded.{IsReady, run_steps-guarded}
use pebs.Engine.Dispatch.Settled.{KeepStatuses}
use pebs.Engine.Dispatch.Concluded.{run_steps-succeeded}
use pebs.Runtime.Records.{Ending, done, raised, Raised}
use pebs.Runtime.Executor.{Runner, Machine, execute_levels, execute_plan, is_reused}
use pebs.Runtime.Executor.Guarded
use pebs.Runtime.Executor.Guarded.{execute_plan-guarded}
use pebs.Runtime.Executor.Aborted.{execute_levels-resumable}

program : Unit {0}
unfolding text_dec ℕ_discrete select amend any each row_for take join get_steps set_step
    set_run_status ensure_step add_step has_step amend_steps change_step next_started put_step
    step_status compute_run_status finalize_run_status step_named tracked blocked_by last_outputs
    record_outcome start_step attempt run_step run_loop run_steps contains all
program = tt

abbrev run : Run
run = record {
  run_id = codes "r";
  project_id = codes "p";
  created_at = 100;
  status = RunStatus.running;
  environment = codes "production";
  baseline = [];
  budget_model_calls = 3;
  budget_research = 2;
  budget_seconds = 60;
  calls_used = 0;
  research_used = 0;
  ended_at = none;
  request = [];
  inputs = [];
}

abbrev world : World
world = record {
  store = record {
    project_id = codes "p";
    pointers = [];
    revisions = [];
    deps = [];
    changesets = [];
    items = [];
    runs = run ∷ [];
    steps = [];
    files = [];
  };
  outputs = [];
  now = 200_000;
}

abbrev case_step : PlanStep
case_step = record {
  step_id = codes "case";
  title = codes "case";
  kind = codes "author";
  depends_on = [];
  required = true;
  disabled = false;
  locked = false;
}

abbrev script_step : PlanStep
script_step = record case_step { step_id = codes "script"; depends_on = codes "case" ∷ [] }

abbrev plan : List PlanStep
plan = case_step ∷ script_step ∷ []

abbrev all_finish : Handlers
all_finish step_id w = some (finished (codes "done" ∷ []), w)

abbrev case_fails : Handlers
case_fails step_id w =
    if same step_id (codes "case")
    then some (step_failed (codes "no model"), w)
    else some (finished [], w)

statuses_after : Handlers → List StepStatus × List RunStatus
unfolding program
statuses_after handlers =
    let w = (run_steps handlers (codes "r") plan none world).1 in
    (map (λ st. st.status) w.store.steps, map (λ r. r.status) w.store.runs)

finished_run :
    statuses_after all_finish
    ≡ (StepStatus.succeeded ∷ StepStatus.succeeded ∷ [], RunStatus.succeeded ∷ [])
unfolding program statuses_after
finished_run = refl

-- The step that depends on the failed one is blocked.
failed_run :
    statuses_after case_fails ≡ (StepStatus.failed ∷ StepStatus.blocked ∷ [], RunStatus.failed ∷ [])
unfolding program statuses_after
failed_run = refl

-- A step that the user has disabled makes a run whose other steps all succeed a cancelled one.
disabled_step :
    map
      (λ (r : Run). r.status)
      (run_steps all_finish
        (codes "r")
        (case_step ∷ record script_step { disabled = true } ∷ [])
        none
        world).1.store.runs
    ≡ RunStatus.cancelled ∷ []
unfolding program
disabled_step = refl

all_finish-KeepStatuses : KeepStatuses all_finish
all_finish-KeepStatuses step_id w o w' e r i = let stays : w ≡ w' = ground arith in rw stays refl

run_steps-succeeded_example :
    let w' = (run_steps all_finish (codes "r") plan none world).1 in
    ((p : PlanStep)
      → Some (λ q. q ≡ p) plan
      → is_selected none p.step_id ≡ true
      → (step_status (codes "r") p.step_id w'.store ≡ StepStatus.succeeded)
        ⊎ (step_status (codes "r") p.step_id w'.store ≡ StepStatus.cancelled))
    × (any is_failed (statuses_of (codes "r") w'.store) ≡ false)
    × (any is_blocked (statuses_of (codes "r") w'.store) ≡ false)
    × ((any is_cancelled (statuses_of (codes "r") w'.store)
          && not (any is_open (statuses_of (codes "r") w'.store)))
        ≡ false)
unfolding program
run_steps-succeeded_example =
    run_steps-succeeded all_finish (codes "r") plan none world
      (run_steps all_finish (codes "r") plan none world).1
      (record run { status = RunStatus.succeeded; ended_at = some 200 }) all_finish-KeepStatuses
      refl refl refl

-- A disabled step is never ready, so it does not matter what its handler would do.
abbrev disabled_plan : List PlanStep
disabled_plan = record case_step { disabled = true } ∷ []

run_steps-guarded_example :
    run_steps all_finish (codes "r") disabled_plan none world
    ≡ run_steps case_fails (codes "r") disabled_plan none world
unfolding step_named row_for text_dec ℕ_discrete
run_steps-guarded_example =
    run_steps-guarded all_finish case_fails (codes "r") disabled_plan none
      (λ p v ready. absurd (never p v ready ready.planned)) world
  where
    never :
        (p : PlanStep) (v : World)
        → IsReady (codes "r") disabled_plan none p v
        → Some (λ q. q ≡ p) disabled_plan
        → ⊥
    never p v ready (inl e) =
        let off : (step_named disabled_plan p).disabled ≡ true =
          subst (λ (q : PlanStep). (step_named disabled_plan q).disabled ≡ true) e refl in
        cc
    never p v ready (inr m) = m

abbrev node : PlanNode
node = record {
  node_id = codes "n1";
  title = codes "n1";
  skill = codes "author";
  steps = codes "case" ∷ [];
  inputs = [];
  outputs = codes "case" ∷ [];
  depends_on = [];
  optional = false;
  parallel_group = 0;
  gate_before = [];
  gate_after = [];
  preconditions = [];
  reason = [];
  reused = false;
  degraded = false;
}

abbrev machine : Machine
machine = record {
  agent =
      λ n w. (done (record { notes = []; included = []; revisions = []; schema_repairs = 0 }), w);
  record_of = λ skill. record { name = skill; runtime = none };
  docs = record {
    read_result = λ content. record {
      gate_id = [];
      target_artifact = [];
      target_revision = [];
      target_hash = [];
      dep_versions = [];
      rules_version = [];
      status = pass;
      issues = [];
      run_id = [];
      not_applicable_reason = none;
    };
    write_result = λ r. [];
    outputs = λ content. [];
  };
}

-- Agents that end otherwise on nodes that are reused, which they are never given.
abbrev agent_for_fresh : PlanNode → World → Ending × World
agent_for_fresh n w = if n.reused then (raised (Raised.step_failed []), w) else machine.agent n w

agree_when_ready : Guarded.AgreeWhenReady machine (codes "r") agent_for_fresh
unfolding is_reused
agree_when_ready n r ready =
    let fresh : n.reused ≡ false = ground (arith, ready.to_make) in ground arith

execute_plan-guarded_example :
    execute_plan machine (codes "r") (node ∷ []) (record { world = world; abort_reason = none })
    ≡ execute_plan
        (record machine { agent = agent_for_fresh })
        (codes "r")
        (node ∷ [])
        (record { world = world; abort_reason = none })
execute_plan-guarded_example =
    execute_plan-guarded machine (codes "r") agent_for_fresh agree_when_ready (node ∷ [])
      (record { world = world; abort_reason = none })

abbrev aborted : Runner
aborted = record { world = world; abort_reason = some (codes "40/40") }

execute_levels-resumable_example :
    ((execute_levels machine (codes "r") (node ∷ []) (0 ∷ []) aborted).0 ≡ ok tt)
    × ((n : PlanNode)
        → Some (λ m. m ≡ n) (node ∷ [])
        → Some (λ l. l ≡ n.parallel_group) (0 ∷ [])
        → contains n.node_id (
            budget_blocked
              (codes "r")
              (execute_levels machine (codes "r") (node ∷ []) (0 ∷ []) aborted).1.world.store)
          ≡ true)
unfolding row_for text_dec
execute_levels-resumable_example =
    execute_levels-resumable machine (codes "r") (codes "40/40") (node ∷ []) (0 ∷ []) aborted
      (run, refl, refl, refl)
