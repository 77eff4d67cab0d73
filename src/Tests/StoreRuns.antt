-- ===== src/Tests/StoreRuns.antt =====
-- A run with a budget of 3 model calls, 2 research requests and 60 seconds.
use native.Mathlib.Decide.{ℕ_discrete}
use pebs.Base.{
  ◌+◌, ◌≤◌, ◌≡◌, refl, none, some, [], ◌∷◌, codes, ok, row_for, amend, text_dec, select, any, arith,
  pos,
}
use pebs.Store.Rows.{Run, Store, RunStatus}
use pebs.Store.Runs.{
  Budgets, run_for, get_run, budget_remaining, check_budget, set_budgets, bump_calls, ensure_step,
  add_step, has_step, amend_steps,
}
use pebs.Store.Runs.Budget.{IsWithin, none_yet, checked, called, Spends-IsWithin}

abbrev run : Run
run = record {
  run_id = codes "r";
  project_id = codes "p";
  created_at = 100;
  status = RunStatus.running;
  environment = codes "production";
  baseline = [];
  budget_model_calls = 3;
  budget_research = 2;
  budget_seconds = 60;
  calls_used = 1;
  research_used = 0;
  ended_at = none;
  request = [];
  inputs = [];
}

abbrev store : Store
store = record {
  project_id = codes "p";
  pointers = [];
  revisions = [];
  deps = [];
  changesets = [];
  items = [];
  runs = run ∷ [];
  steps = [];
  files = [];
}

program : Unit {0}
unfolding text_dec ℕ_discrete row_for amend select any get_run budget_remaining check_budget
    set_budgets bump_calls ensure_step add_step has_step amend_steps
program = tt

run-found : run_for (codes "r") store.runs ≡ some run
unfolding program
run-found = refl

-- Two calls are left, and 59 seconds of 60 a second after the start.
remaining :
    (budget_remaining 101_500 (codes "r") store).0
    ≡ ok (record { model_calls = pos 2; research_requests = pos 2; run_seconds = pos 59 })
unfolding program
remaining = refl

two_calls : (check_budget 101_500 (codes "r") 2 0 store).0 ≡ ok tt
unfolding program
two_calls = refl

store-IsWithin : IsWithin (codes "r") store
unfolding program
store-IsWithin = record { within = λ found e. ground arith }

-- Two calls are checked for, and one after the other is counted.
Spends-IsWithin_example :
    IsWithin
      (codes "r")
      (bump_calls (codes "r") 1 (codes "n") (bump_calls (codes "r") 1 (codes "n") store))
    × ((run : Run)
        → run_for
            (codes "r")
            (bump_calls (codes "r") 1 (codes "n") (bump_calls (codes "r") 1 (codes "n") store)).runs
          ≡ some run
        → (run.calls_used + 0 ≤ run.budget_model_calls)
          × (run.research_used + 0 ≤ run.budget_research))
Spends-IsWithin_example =
    Spends-IsWithin store-IsWithin
      (called 1 (codes "n") (called 1 (codes "n") (checked 101_500 2 0 none_yet two_calls)))

abbrev zero_research : Budgets
zero_research = record { model_calls = none; research_requests = some 0; run_seconds = none }
