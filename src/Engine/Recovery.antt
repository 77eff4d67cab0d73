-- ===== src/Engine/Recovery.antt =====
-- After `_recover_interrupted` of pebs/engine.py nothing is running.
use pebs.Base.{
  ℕ, ◌/◌, Bool, true, not, ◌&&◌, ◌||◌, ◌≡◌, refl, sym, ◌∙◌, ap, subst, some, List, [], ◌∷◌, Text,
  same, arith, map, select, contains, each, amend, All, Bool-cases, inl, inr, Some,
}
use pebs.Store.Rows.{Run, Step, RunStatus, Store}
use pebs.Store.Runs.{
  StepChange, is_running, interrupted_runs, get_steps, set_step, set_run_status, ensure_step,
  add_step,
}
use pebs.Engine.{
  is_running_step, blocked_by_restart, recover_step, recover_run, recover_interrupted,
}

pub runs-set_step :
    (now : ℕ) (run_id step_id : Text) (c : StepChange) (s : Store)
    → (set_step now run_id step_id c s).runs ≡ s.runs
unfolding set_step ensure_step add_step
runs-set_step now run_id step_id c s = ground arith

project_id-set_step :
    (now : ℕ) (run_id step_id : Text) (c : StepChange) (s : Store)
    → (set_step now run_id step_id c s).project_id ≡ s.project_id
unfolding set_step ensure_step add_step
project_id-set_step now run_id step_id c s = ground arith

runs-recover_steps :
    (now : ℕ) (run_id : Text) (steps : List Step) (s : Store)
    → ((each (recover_step now run_id) steps s).runs ≡ s.runs)
      × ((each (recover_step now run_id) steps s).project_id ≡ s.project_id)
unfolding each recover_step
runs-recover_steps now run_id [] s = (refl, refl)
runs-recover_steps now run_id (st ∷ steps) s = elim (Bool-cases (is_running_step st)) [
  | inl running ↦
      let t = set_step now run_id st.step_id blocked_by_restart s in
      ground (
        arith,
        runs-recover_steps now run_id steps t,
        runs-set_step now run_id st.step_id blocked_by_restart s,
        project_id-set_step now run_id st.step_id blocked_by_restart s,
      )
  | inr idle ↦ ground (arith, runs-recover_steps now run_id steps s)
]

-- A run of the project that is running.
abbrev pub is_open : Text → Run → Bool
is_open project_id r = same r.project_id project_id && is_running r.status

abbrev pub run_ids : List Run → List Text
run_ids runs = map (λ r. r.run_id) runs

-- The run is not open, or is still to come in the loop.
abbrev IsPending : Text → List Run → Run → Type 0
IsPending project_id left r =
    (not (is_open project_id r) || contains r.run_id (run_ids left)) ≡ true

interrupt : ℕ → Run → Run
interrupt now r = record r { status = RunStatus.interrupted; ended_at = some (now / 1000) }

amend-IsPending :
    (now : ℕ) (project_id : Text) (l : Run) (left runs : List Run)
    → All (IsPending project_id (l ∷ left)) runs
    → All (IsPending project_id left) (amend (λ r. r.run_id) l.run_id (interrupt now) runs)
unfolding amend contains interrupt
amend-IsPending now project_id l left [] h = tt
amend-IsPending now project_id l left (r ∷ runs) h =
    (ground (arith, h.0), amend-IsPending now project_id l left runs h.1)

recover-IsPending :
    (now : ℕ) (left : List Run) (s : Store)
    → All (IsPending s.project_id left) s.runs
    → All (IsPending s.project_id []) (each (recover_run now) left s).runs
unfolding each recover_run set_run_status interrupt
recover-IsPending now [] s h = h
recover-IsPending now (l ∷ left) s h =
    let kept = runs-recover_steps now l.run_id (get_steps l.run_id s) s in
    let t = recover_run now l s in
    let same_project : t.project_id ≡ s.project_id = kept.1 in
    let changed : t.runs ≡ amend (λ r. r.run_id) l.run_id (interrupt now) s.runs =
      ap (amend (λ r. r.run_id) l.run_id (interrupt now)) kept.0 in
    let next : All (IsPending t.project_id left) t.runs =
      subst (λ p. All (IsPending p left) t.runs) (sym same_project)
        (subst (All (IsPending s.project_id left)) (sym changed)
          (amend-IsPending now s.project_id l left s.runs h)) in
    subst (λ p. All (IsPending p []) (each (recover_run now) left t).runs) same_project
      (recover-IsPending now left t next)

module _ {A : Type 0} (key : A → Text) where
  pub contains-selected :
      (p : A → Bool) (xs : List A) (x : A)
      → Some (λ y. y ≡ x) xs
      → p x ≡ true
      → contains (key x) (map key (select p xs)) ≡ true
  unfolding contains select
  contains-selected p [] x m o = absurd m
  contains-selected p (y ∷ xs) x (inl e) o =
      let o' : p y ≡ true = subst (λ k. p k ≡ true) (sym e) o in
      let id : key x ≡ key y = ap key (sym e) in rw o' (ground arith)
  contains-selected p (y ∷ xs) x (inr m) o = elim (Bool-cases (p y)) [
    | inl taken ↦ rw taken (ground (arith, contains-selected p xs x m o))
    | inr left ↦ rw left (contains-selected p xs x m o)
  ]

select-IsPending :
    (project_id : Text) (all_runs runs : List Run)
    → ((r : Run)
        → Some (λ q. q ≡ r) runs
        → is_open project_id r ≡ true
        → contains r.run_id (run_ids (select (is_open project_id) all_runs)) ≡ true)
    → All (IsPending project_id (select (is_open project_id) all_runs)) runs
select-IsPending project_id all_runs [] h = tt
select-IsPending project_id all_runs (r ∷ runs) h =
    (ground (arith, h r (inl refl)), select-IsPending project_id all_runs runs (λ q m. h q (inr m)))

none-open :
    (project_id : Text) (runs : List Run)
    → All (IsPending project_id []) runs
    → select (is_open project_id) runs ≡ []
unfolding contains select
none-open project_id [] h = refl
none-open project_id (r ∷ runs) h = ground (arith, none-open project_id runs h.1, h.0)

project_id-recover :
    (now : ℕ) (left : List Run) (s : Store)
    → (each (recover_run now) left s).project_id ≡ s.project_id
unfolding each recover_run set_run_status
project_id-recover now [] s = refl
project_id-recover now (l ∷ left) s =
    project_id-recover now left (recover_run now l s)
    ∙ (runs-recover_steps now l.run_id (get_steps l.run_id s) s).1

-- After `_recover_interrupted` no run of the project is running.
pub recover_interrupted-runs :
    (now : ℕ) (s : Store) → interrupted_runs (recover_interrupted now s) ≡ []
unfolding recover_interrupted interrupted_runs
recover_interrupted-runs now s =
    let left = select (is_open s.project_id) s.runs in
    let after = each (recover_run now) left s in
    subst (λ p. select (is_open p) after.runs ≡ []) (sym (project_id-recover now left s))
      (none-open s.project_id after.runs (
        recover-IsPending now left s (
          select-IsPending s.project_id s.runs s.runs
            (λ r m o. contains-selected (λ q. q.run_id) (is_open s.project_id) s.runs r m o))))
