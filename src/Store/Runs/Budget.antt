-- ===== src/Store/Runs/Budget.antt =====
-- Budgets of runs in pebs/store.py: the check agrees with what is reported as remaining, and calls
-- that are made behind the check stay within the budget.
use pebs.Base.{
  ℕ, ◌+◌, ◌*◌, ◌≤◌, ◌≡◌, refl, ◌↔◌, some, [], ◌∷◌, Text, Option-cases, inl, inr, ok, arith, AtMost,
  sub_ℕ, amend, row_for-amend,
}
use pebs.Store.Rows.{Run, Store}
use pebs.Store.Runs.{
  run_for, Remaining, seconds_left, budget_remaining, check_budget, bump_calls, bump_research,
  ensure_step, add_step,
}

-- The limits of a run for the next request, at the time `now` in milliseconds.
pub record Fits (run : Run) (now model_calls research : ℕ) : Type 0 where
  pub calls : run.calls_used + model_calls ≤ run.budget_model_calls
  pub requests : run.research_used + research ≤ run.budget_research
  pub time : now ≤ run.created_at * 1000 + run.budget_seconds * 1000

-- For a run that is known, the check passes exactly when the request fits into what is left of
-- calls, requests and time, and it changes nothing.
check_budget_iff :
    (now : ℕ) (run_id : Text) (n m : ℕ) (s : Store) (run : Run)
    → run_for run_id s.runs ≡ some run
    → ((check_budget now run_id n m s).0 ≡ ok tt ↔ Fits run now n m)
      × ((check_budget now run_id n m s).1 ≡ s)
unfolding check_budget
check_budget_iff now run_id n m s run e = ((λ h. ground arith, λ h. ground arith), ground arith)

AtMost-sub_ℕ : (n a b : ℕ) → AtMost n (sub_ℕ a b) ↔ b + n ≤ a
AtMost-sub_ℕ n a b = (λ h. ground arith, λ h. ground arith)

AtMost-seconds_left :
    (now : ℕ) (run : Run)
    → (now ≤ run.created_at * 1000 + run.budget_seconds * 1000 → AtMost 0 (seconds_left now run))
      × (AtMost 1 (seconds_left now run) → now ≤ run.created_at * 1000 + run.budget_seconds * 1000)
AtMost-seconds_left now run = (λ h. ground arith, λ h. ground arith)

-- For a run that is known, the check agrees with what `budget_remaining` reports: if it passes, as
-- many calls and requests are left and the time is not over; if they are left and a second is, it
-- passes.
check_budget-remaining :
    (now : ℕ) (run_id : Text) (n m : ℕ) (s : Store) (rem : Remaining)
    → (budget_remaining now run_id s).0 ≡ ok rem
    → ((check_budget now run_id n m s).0 ≡ ok tt
        → AtMost n rem.model_calls × AtMost m rem.research_requests × AtMost 0 rem.run_seconds)
      × (AtMost n rem.model_calls
          → AtMost m rem.research_requests
          → AtMost 1 rem.run_seconds
          → (check_budget now run_id n m s).0 ≡ ok tt)
unfolding budget_remaining
check_budget-remaining now run_id n m s rem e = elim (Option-cases (run_for run_id s.runs)) [
  | inl missing ↦ absurd (ground arith)
  | inr (run, found) ↦
      let calls : rem.model_calls ≡ sub_ℕ run.budget_model_calls run.calls_used = ground arith in
      let requests : rem.research_requests ≡ sub_ℕ run.budget_research run.research_used =
        ground arith in
      let seconds : rem.run_seconds ≡ seconds_left now run = ground arith in
      let fits = (check_budget_iff now run_id n m s run found).0 in
      let time = AtMost-seconds_left now run in
      rw (calls, requests, seconds)
        (
          λ h.
              let f = fits.0 h in
              ((AtMost-sub_ℕ n _ _).1 f.calls, (AtMost-sub_ℕ m _ _).1 f.requests, time.0 f.time),
          λ a b c. fits.1 (record {
            calls = (AtMost-sub_ℕ n _ _).0 a;
            requests = (AtMost-sub_ℕ m _ _).0 b;
            time = time.1 c;
          }),
        )
]

-- A run within its budgets.
pub record IsWithin (run_id : Text) (s : Store) : Type 0 where
  pub within :
      (run : Run)
      → run_for run_id s.runs ≡ some run
      → (run.calls_used ≤ run.budget_model_calls) × (run.research_used ≤ run.budget_research)

-- What can happen to a run, with the calls and the requests that the last check still covers: a check
-- that passes covers what it asked for; each bump, of any size and in any number, uses some of that;
-- other statements change no row of `runs`.
pub data Spends (run_id : Text) (s : Store) : ℕ → ℕ → Store → Type 0 where
  none_yet : Spends run_id s 0 0 s
  checked :
      {calls requests : ℕ} {t : Store} (now n m : ℕ)
      → Spends run_id s calls requests t
      → (check_budget now run_id n m t).0 ≡ ok tt
      → Spends run_id s n m t
  called :
      {calls requests : ℕ} {t : Store} (n : ℕ) (step_id : Text)
      → Spends run_id s (n + calls) requests t
      → Spends run_id s calls requests (bump_calls run_id n step_id t)
  requested :
      {calls requests : ℕ} {t : Store} (n : ℕ)
      → Spends run_id s calls (n + requests) t
      → Spends run_id s calls requests (bump_research run_id n t)
  other :
      {calls requests : ℕ} {t u : Store}
      → Spends run_id s calls requests t
      → u.runs ≡ t.runs
      → Spends run_id s calls requests u

runs-bump_calls :
    (run_id : Text) (n : ℕ) (step_id : Text) (s : Store)
    → (bump_calls run_id n step_id s).runs
      ≡ amend (λ r. r.run_id) run_id (λ r. record r { calls_used = r.calls_used + n }) s.runs
unfolding bump_calls ensure_step add_step
runs-bump_calls run_id n [] s = refl
runs-bump_calls run_id n (c ∷ cs) s = ground arith

-- What was used and what is covered fit into the budgets.
abbrev Covers : Text → ℕ → ℕ → Store → Type 0
Covers run_id calls requests t =
    (run : Run)
    → run_for run_id t.runs ≡ some run
    → (run.calls_used + calls ≤ run.budget_model_calls)
      × (run.research_used + requests ≤ run.budget_research)

Spends-Covers :
    {run_id : Text} {s t : Store} {calls requests : ℕ}
    → IsWithin run_id s
    → Spends run_id s calls requests t
    → Covers run_id calls requests t
unfolding bump_research
Spends-Covers w none_yet run found = let h = w.within run found in ground arith
Spends-Covers {run_id} {s} {t} w (checked now n m before passed) run found =
    let fits = (check_budget_iff now run_id n m t run found).0.0 passed in
    (fits.calls, fits.requests)
Spends-Covers {run_id} w (called {calls} {requests} {t} n step_id before) run found =
    let amended =
      row_for-amend (λ r. r.run_id) run_id run_id (λ r. record r { calls_used = r.calls_used + n })
        t.runs (λ r. refl) in
    elim (Option-cases (run_for run_id t.runs)) [
      | inl missing ↦ ground (arith, amended, runs-bump_calls run_id n step_id t)
      | inr (old, e) ↦
          ground (arith, amended, runs-bump_calls run_id n step_id t, Spends-Covers w before old e)
    ]
Spends-Covers {run_id} w (requested {calls} {requests} {t} n before) run found =
    let amended =
      row_for-amend (λ r. r.run_id) run_id run_id
        (λ r. record r { research_used = r.research_used + n }) t.runs (λ r. refl) in
    elim (Option-cases (run_for run_id t.runs)) [
      | inl missing ↦ ground (arith, amended)
      | inr (old, e) ↦ ground (arith, amended, Spends-Covers w before old e)
    ]
Spends-Covers w (other before same_runs) run found =
    Spends-Covers w before run (rw same_runs at found)

-- A run that is within its budgets stays within them, and what the last check covers and is not used
-- yet still fits, through any sequence of checks and bumps in which the bumps behind a check sum up
-- to no more than the check asked for. Each bump may be smaller than the check.
pub Spends-IsWithin :
    {run_id : Text} {s t : Store} {calls requests : ℕ}
    → IsWithin run_id s
    → Spends run_id s calls requests t
    → IsWithin run_id t
      × ((run : Run)
          → run_for run_id t.runs ≡ some run
          → (run.calls_used + calls ≤ run.budget_model_calls)
            × (run.research_used + requests ≤ run.budget_research))
Spends-IsWithin w h = (
  record { within = λ run found. let c = Spends-Covers w h run found in ground arith },
  Spends-Covers w h,
)
