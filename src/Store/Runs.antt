-- ===== src/Store/Runs.antt =====
-- The runs section of pebs/store.py: runs, their steps and their budgets. `now` is the clock in
-- milliseconds; `now_iso` keeps its whole seconds.
pub mod Budget
use pebs.Base.{
  ℕ, ◌+◌, ◌-◌, ◌*◌, ◌/◌, Bool, true, false, not, ◌&&◌, Option, none, some, List, [], ◌∷◌, ◌++◌,
  Text, same, codes, ltb, leb, if◌then◌else◌, select, any, map, row_for, amend, ok, err, Exec, pure,
  raise, gets, modify, raise_if, ◌>>=◌, ◌>>◌, ℤ, pos, sub_ℕ,
}
use mathlib.Core.Option
use pebs.Store.Rows.{
  Baseline, Run, RunStatus, running, cancelled, Step, StepStatus, Store, run_not_found,
  integrity_error, model_budget_exhausted, research_budget_exhausted, time_budget_exhausted,
}
use pebs.Store.Artifacts.{StoreExec}
use pebs.Store.Changesets.{current_baseline}

abbrev pub run_for : Text → List Run → Option Run
run_for = row_for (λ r. r.run_id)

-- A dict of budgets: `none` is a key left out; in `set_budgets` also one set to None.
pub record Budgets : Type 0 where
  pub model_calls : Option ℕ
  pub research_requests : Option ℕ
  pub run_seconds : Option ℕ

abbrev pub or_default : Option ℕ → ℕ → ℕ
or_default none d = d
or_default (some n) d = n

unfoldable pub create_run : Text → ℕ → Text → Text → Budgets → Text → StoreExec Text
create_run fresh now environment request budgets inputs s = elim (run_for fresh s.runs) [
  | some old ↦ (err (integrity_error fresh), s)
  | none ↦ (
    ok fresh,
    record s {
      runs =
          s.runs
          ++ record {
            run_id = fresh;
            project_id = s.project_id;
            created_at = now / 1000;
            status = running;
            environment = environment;
            baseline = current_baseline s;
            budget_model_calls = or_default budgets.model_calls 40;
            budget_research = or_default budgets.research_requests 20;
            budget_seconds = or_default budgets.run_seconds 1800;
            calls_used = 0;
            research_used = 0;
            ended_at = none;
            request = request;
            inputs = inputs;
          }
            ∷ [];
    },
  )
]

unfoldable pub get_run : Text → StoreExec Run
get_run run_id s = elim (run_for run_id s.runs) [
  | none ↦ (err (run_not_found run_id), s)
  | some r ↦ (ok r, s)
]

abbrev pub amend_run : Text → (Run → Run) → Store → Store
amend_run run_id f s = record s { runs = amend (λ r. r.run_id) run_id f s.runs }

unfoldable pub set_run_status : ℕ → Text → RunStatus → Store → Store
set_run_status now run_id status =
    amend_run run_id (λ r. record r { status = status; ended_at = some (now / 1000) })

unfoldable pub cancel_run : ℕ → Text → Store → Store
cancel_run now run_id =
    amend_run run_id (λ r. record r { status = cancelled; ended_at = some (now / 1000) })

abbrev pub is_running : RunStatus → Bool
is_running running = true
is_running _ = false

unfoldable pub interrupted_runs : Store → List Run
interrupted_runs s = select (λ r. same r.project_id s.project_id && is_running r.status) s.runs

-- WHERE run_id = ? AND step_id = ?
abbrev pub is_step : Text → Text → Step → Bool
is_step run_id step_id st = same st.run_id run_id && same st.step_id step_id

abbrev pub step_for : Text → Text → List Step → Option Step
step_for run_id step_id steps = elim (select (is_step run_id step_id) steps) [
  | [] ↦ none
  | st ∷ rest ↦ some st
]

abbrev pub blank_step : Text → Text → Text → Step
blank_step run_id step_id title = record {
  run_id = run_id;
  step_id = step_id;
  title = title;
  status = StepStatus.pending;
  attempts = 0;
  started_at = none;
  ended_at = none;
  error = none;
  note = none;
  input_revs = [];
  output_revs = [];
  model_calls = 0;
}

-- INSERT OR REPLACE: a row of the same step goes, and all other columns are the defaults.
unfoldable pub add_step : Text → Text → Text → StepStatus → Store → Store
add_step run_id step_id title status s = record s {
  steps =
      select (λ st. not (is_step run_id step_id st)) s.steps
      ++ record (blank_step run_id step_id title) { status = status } ∷ [];
}

unfoldable pub amend_steps : Text → Text → (Step → Step) → List Step → List Step
amend_steps run_id step_id f [] = []
amend_steps run_id step_id f (st ∷ steps) =
    (if is_step run_id step_id st then f st else st) ∷ amend_steps run_id step_id f steps

unfoldable pub has_step : Text → Text → List Step → Bool
has_step run_id step_id steps = any (is_step run_id step_id) steps

unfoldable pub ensure_step : Text → Text → Store → Store
unfolding has_step add_step
ensure_step run_id step_id s =
    if has_step run_id step_id s.steps
    then s
    else add_step run_id step_id step_id StepStatus.pending s

-- The keyword arguments of `set_step`.
pub record StepChange : Type 0 where
  pub status : Option StepStatus
  pub error : Option Text
  pub note : Option Text
  pub input_revs : Option (List Text)
  pub output_revs : Option (List Text)
  pub model_calls : Option ℕ
  pub bump_attempt : Bool

abbrev pub or_else {ℓ} : {A : Type ℓ} → Option A → A → A
or_else none d = d
or_else (some a) d = a

-- COALESCE(started_at, CASE WHEN ? = 'RUNNING' THEN ? ELSE started_at END)
unfoldable pub next_started : ℕ → Option StepStatus → Option ℕ → Option ℕ
next_started now status (some t) = some t
next_started now (some StepStatus.running) none = some (now / 1000)
next_started now _ none = none

abbrev pub is_final : Option StepStatus → Bool
is_final none = false
is_final (some StepStatus.pending) = false
is_final (some StepStatus.running) = false
is_final (some _) = true

unfoldable pub change_step : ℕ → StepChange → Step → Step
unfolding next_started
change_step now c st = record st {
  status = or_else c.status st.status;
  error = elim c.error [ none ↦ st.error | some e ↦ some e ];
  note = elim c.note [ none ↦ st.note | some n ↦ some n ];
  input_revs = or_else c.input_revs st.input_revs;
  output_revs = or_else c.output_revs st.output_revs;
  model_calls = or_else c.model_calls st.model_calls;
  started_at = next_started now c.status st.started_at;
  ended_at = if is_final c.status then some (now / 1000) else st.ended_at;
  attempts = st.attempts + (if c.bump_attempt then 1 else 0);
}

unfoldable pub set_step : ℕ → Text → Text → StepChange → Store → Store
unfolding ensure_step change_step amend_steps
set_step now run_id step_id change s =
    let ready = ensure_step run_id step_id s in
    record ready { steps = amend_steps run_id step_id (change_step now change) ready.steps }

unfoldable pub get_steps : Text → Store → List Step
get_steps run_id s = select (λ st. same st.run_id run_id) s.steps

unfoldable pub bump_calls : Text → ℕ → Text → Store → Store
unfolding ensure_step amend_steps
bump_calls run_id n [] s = amend_run run_id (λ r. record r { calls_used = r.calls_used + n }) s
bump_calls run_id n (c ∷ cs) s =
    let ready =
      ensure_step run_id (c ∷ cs)
        (amend_run run_id (λ r. record r { calls_used = r.calls_used + n }) s) in
    record ready {
      steps =
          amend_steps run_id (c ∷ cs) (λ st. record st { model_calls = st.model_calls + n })
            ready.steps;
    }

unfoldable pub bump_research : Text → ℕ → Store → Store
bump_research run_id n = amend_run run_id (λ r. record r { research_used = r.research_used + n })

pub record Remaining : Type 0 where
  pub model_calls : ℤ
  pub research_requests : ℤ
  pub run_seconds : ℤ

-- `int(time.time() - started)` is cut towards zero.
abbrev pub seconds_left : ℕ → Run → ℤ
seconds_left now run =
    let started = run.created_at * 1000 in
    if leb started now
    then sub_ℕ run.budget_seconds ((now - started) / 1000)
    else pos (run.budget_seconds + (started - now) / 1000)

unfoldable pub budget_remaining : ℕ → Text → StoreExec Remaining
unfolding get_run
budget_remaining now run_id = do
  run ← get_run run_id
  pure (record {
    model_calls = sub_ℕ run.budget_model_calls run.calls_used;
    research_requests = sub_ℕ run.budget_research run.research_used;
    run_seconds = seconds_left now run;
  })

unfoldable pub check_budget : ℕ → Text → ℕ → ℕ → StoreExec Unit
unfolding get_run
check_budget now run_id model_calls research = do
  run ← get_run run_id
  raise_if (ltb run.budget_model_calls (run.calls_used + model_calls)) model_budget_exhausted
  raise_if (ltb run.budget_research (run.research_used + research)) research_budget_exhausted
  raise_if (ltb (run.created_at * 1000 + run.budget_seconds * 1000) now) time_budget_exhausted

-- The new budgets are stored and returned.
unfoldable pub set_budgets : Text → Budgets → StoreExec Budgets
unfolding get_run
set_budgets run_id budgets = do
  run ← get_run run_id
  let model_calls = or_default budgets.model_calls run.budget_model_calls
  let research = or_default budgets.research_requests run.budget_research
  let seconds = or_default budgets.run_seconds run.budget_seconds
  modify (
      amend_run run_id (λ r. record r {
        budget_model_calls = model_calls;
        budget_research = research;
        budget_seconds = seconds;
      }))
  pure (record {
    model_calls = some model_calls;
    research_requests = some research;
    run_seconds = some seconds;
  })
