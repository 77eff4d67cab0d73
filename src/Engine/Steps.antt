-- ===== src/Engine/Steps.antt =====
-- After `_recover_interrupted` of pebs/engine.py no step of a run that was running is running.
use pebs.Base.{
  ℕ, Bool, true, false, not, ◌&&◌, ◌||◌, ◌≡◌, refl, sym, subst, List, [], ◌∷◌, Text, same, arith,
  map, select, contains, each, All, All-append, Bool-cases, inl, inr, Some,
}
use pebs.Store.Rows.{Run, Step, Store}
use pebs.Store.Runs.{
  interrupted_runs, get_steps, set_step, set_run_status, ensure_step, add_step, amend_steps,
  change_step, has_step, is_step,
}
use pebs.Engine.Recovery.{contains-selected, recover_interrupted-runs}
use pebs.Engine.{
  is_running_step, blocked_by_restart, recover_step, recover_run, recover_interrupted,
}

-- The step of the run is not running.
abbrev pub IsStill : Text → Step → Type 0
IsStill run_id st = (not (same st.run_id run_id && is_running_step st)) ≡ true

change-IsStill :
    (now : ℕ) (run_id : Text) (st : Step) → IsStill run_id (change_step now blocked_by_restart st)
unfolding change_step
change-IsStill now run_id st = ground arith

amend_steps-IsStill :
    (now : ℕ) (run_id : Text) (r step_id : Text) (steps : List Step)
    → All (IsStill run_id) steps
    → All (IsStill run_id) (amend_steps r step_id (change_step now blocked_by_restart) steps)
unfolding amend_steps
amend_steps-IsStill now run_id r step_id [] h = tt
amend_steps-IsStill now run_id r step_id (st ∷ steps) h = (
  elim (Bool-cases (is_step r step_id st)) [
    | inl hit ↦ rw hit (change-IsStill now run_id st)
    | inr miss ↦ rw miss h.0
  ],
  amend_steps-IsStill now run_id r step_id steps h.1,
)

All-select :
    {A : Type 0} (P : A → Type 0) (p : A → Bool) (xs : List A) → All P xs → All P (select p xs)
unfolding select
All-select P p [] h = tt
All-select P p (x ∷ xs) h = elim (Bool-cases (p x)) [
  | inl taken ↦ rw taken (h.0, All-select P p xs h.1)
  | inr left ↦ rw left (All-select P p xs h.1)
]

member-select :
    {A : Type 0} (p : A → Bool) (xs : List A) (x : A)
    → Some (λ y. y ≡ x) xs
    → p x ≡ true
    → Some (λ y. y ≡ x) (select p xs)
unfolding select
member-select p [] x m o = absurd m
member-select p (y ∷ xs) x (inl e) o =
    let o' : p y ≡ true = subst (λ k. p k ≡ true) (sym e) o in rw o' (inl e)
member-select p (y ∷ xs) x (inr m) o = elim (Bool-cases (p y)) [
  | inl taken ↦ rw taken (inr (member-select p xs x m o))
  | inr left ↦ rw left (member-select p xs x m o)
]

ensure_step-IsStill :
    (run_id r step_id : Text) (s : Store)
    → All (IsStill run_id) s.steps
    → All (IsStill run_id) (ensure_step r step_id s).steps
unfolding ensure_step add_step
ensure_step-IsStill run_id r step_id s h = elim (Bool-cases (has_step r step_id s.steps)) [
  | inl there ↦ rw there h
  | inr fresh ↦
      rw fresh (
        All-append (IsStill run_id) _ _ (All-select (IsStill run_id) _ s.steps h)
          (ground arith, tt))
]

set_step-IsStill :
    (now : ℕ) (run_id r step_id : Text) (s : Store)
    → All (IsStill run_id) s.steps
    → All (IsStill run_id) (set_step now r step_id blocked_by_restart s).steps
unfolding set_step
set_step-IsStill now run_id r step_id s h =
    amend_steps-IsStill now run_id r step_id (ensure_step r step_id s).steps
      (ensure_step-IsStill run_id r step_id s h)

recover_step-IsStill :
    (now : ℕ) (run_id r : Text) (st : Step) (s : Store)
    → All (IsStill run_id) s.steps
    → All (IsStill run_id) (recover_step now r st s).steps
unfolding recover_step
recover_step-IsStill now run_id r st s h = elim (Bool-cases (is_running_step st)) [
  | inl running ↦
      let sets : recover_step now r st s ≡ set_step now r st.step_id blocked_by_restart s =
        ground arith in
      subst (λ t. All (IsStill run_id) t.steps) (sym sets)
        (set_step-IsStill now run_id r st.step_id s h)
  | inr idle ↦
      let stays : recover_step now r st s ≡ s = ground arith in
      subst (λ t. All (IsStill run_id) t.steps) (sym stays) h
]

recover_steps-IsStill :
    (now : ℕ) (run_id r : Text) (steps : List Step) (s : Store)
    → All (IsStill run_id) s.steps
    → All (IsStill run_id) (each (recover_step now r) steps s).steps
unfolding each
recover_steps-IsStill now run_id r [] s h = h
recover_steps-IsStill now run_id r (st ∷ steps) s h =
    recover_steps-IsStill now run_id r steps (recover_step now r st s)
      (recover_step-IsStill now run_id r st s h)

recover_runs-IsStill :
    (now : ℕ) (run_id : Text) (left : List Run) (s : Store)
    → All (IsStill run_id) s.steps
    → All (IsStill run_id) (each (recover_run now) left s).steps
unfolding each recover_run set_run_status
recover_runs-IsStill now run_id [] s h = h
recover_runs-IsStill now run_id (l ∷ left) s h =
    recover_runs-IsStill now run_id left (recover_run now l s)
      (recover_steps-IsStill now run_id l.run_id (get_steps l.run_id s) s h)

-- A running step of the run is still to come in the loop.
abbrev IsDue : Text → List Step → Step → Type 0
IsDue run_id left st =
    (not (same st.run_id run_id && is_running_step st)
      || contains st.step_id (map (λ k. k.step_id) (select is_running_step left)))
    ≡ true

amend_steps-IsDue :
    (now : ℕ) (run_id : Text) (l : Step) (left steps : List Step)
    → is_running_step l ≡ true
    → All (IsDue run_id (l ∷ left)) steps
    → All
        (IsDue run_id left)
        (amend_steps run_id l.step_id (change_step now blocked_by_restart) steps)
unfolding amend_steps select contains change_step
amend_steps-IsDue now run_id l left [] r h = tt
amend_steps-IsDue now run_id l left (st ∷ steps) r h =
    (ground (arith, h.0), amend_steps-IsDue now run_id l left steps r h.1)

ensure_step-IsDue :
    (run_id step_id : Text) (left : List Step) (s : Store)
    → All (IsDue run_id left) s.steps
    → All (IsDue run_id left) (ensure_step run_id step_id s).steps
unfolding ensure_step add_step
ensure_step-IsDue run_id step_id left s h = elim (Bool-cases (has_step run_id step_id s.steps)) [
  | inl there ↦ rw there h
  | inr fresh ↦ rw fresh (
      All-append (IsDue run_id left) _ _ (All-select (IsDue run_id left) _ s.steps h)
        (ground arith, tt))
]

skip-IsDue :
    (run_id : Text) (l : Step) (left steps : List Step)
    → is_running_step l ≡ false
    → All (IsDue run_id (l ∷ left)) steps
    → All (IsDue run_id left) steps
unfolding select
skip-IsDue run_id l left [] r h = tt
skip-IsDue run_id l left (st ∷ steps) r h =
    (ground (arith, h.0), skip-IsDue run_id l left steps r h.1)

recover_step-IsDue :
    (now : ℕ) (run_id : Text) (l : Step) (left : List Step) (s : Store)
    → All (IsDue run_id (l ∷ left)) s.steps
    → All (IsDue run_id left) (recover_step now run_id l s).steps
unfolding recover_step set_step
recover_step-IsDue now run_id l left s h = elim (Bool-cases (is_running_step l)) [
  | inl running ↦
      let changed : (recover_step now run_id l s).steps
          ≡ amend_steps run_id l.step_id (change_step now blocked_by_restart)
              (ensure_step run_id l.step_id s).steps =
        ground arith in
      subst (All (IsDue run_id left)) (sym changed) (
        amend_steps-IsDue now run_id l left (ensure_step run_id l.step_id s).steps running
          (ensure_step-IsDue run_id l.step_id (l ∷ left) s h))
  | inr idle ↦
      let stays : recover_step now run_id l s ≡ s = ground arith in
      subst (λ t. All (IsDue run_id left) t.steps) (sym stays)
        (skip-IsDue run_id l left s.steps idle h)
]

recover_steps-IsDue :
    (now : ℕ) (run_id : Text) (left : List Step) (s : Store)
    → All (IsDue run_id left) s.steps
    → All (IsDue run_id []) (each (recover_step now run_id) left s).steps
unfolding each
recover_steps-IsDue now run_id [] s h = h
recover_steps-IsDue now run_id (l ∷ left) s h =
    recover_steps-IsDue now run_id left (recover_step now run_id l s)
      (recover_step-IsDue now run_id l left s h)

all-IsDue :
    (run_id : Text) (all_steps steps : List Step)
    → ((st : Step) → Some (λ k. k ≡ st) steps → Some (λ k. k ≡ st) all_steps)
    → All (IsDue run_id (select (λ st. same st.run_id run_id) all_steps)) steps
all-IsDue run_id all_steps [] within = tt
all-IsDue run_id all_steps (st ∷ steps) within = (
  elim (Bool-cases (same st.run_id run_id)) [
    | inr other ↦ ground arith
    | inl ours ↦ elim (Bool-cases (is_running_step st)) [
      | inr idle ↦ ground arith
      | inl running ↦ ground (
        arith,
        contains-selected (λ k. k.step_id) is_running_step
            (select (λ k. same k.run_id run_id) all_steps) st
            (member-select (λ k. same k.run_id run_id) all_steps st (within st (inl refl)) ours)
            running,
      )
    ]
  ],
  all-IsDue run_id all_steps steps (λ k m. within k (inr m)),
)

none-IsDue :
    (run_id : Text) (steps : List Step) → All (IsDue run_id []) steps → All (IsStill run_id) steps
unfolding select contains
none-IsDue run_id [] h = tt
none-IsDue run_id (st ∷ steps) h = (ground (arith, h.0), none-IsDue run_id steps h.1)

recover_run-IsStill :
    (now : ℕ) (run : Run) (s : Store) → All (IsStill run.run_id) (recover_run now run s).steps
unfolding recover_run set_run_status get_steps
recover_run-IsStill now run s = none-IsDue run.run_id _ (
    recover_steps-IsDue now run.run_id (get_steps run.run_id s) s
      (all-IsDue run.run_id s.steps s.steps (λ k m. m)))

recovered :
    (now : ℕ) (run : Run) (left : List Run) (s : Store)
    → Some (λ r. r ≡ run) left
    → All (IsStill run.run_id) (each (recover_run now) left s).steps
unfolding each
recovered now run [] s m = absurd m
recovered now run (l ∷ left) s (inl e) =
    subst (λ r. All (IsStill r.run_id) (each (recover_run now) left (recover_run now l s)).steps) e
      (recover_runs-IsStill now l.run_id left (recover_run now l s) (recover_run-IsStill now l s))
recovered now run (l ∷ left) s (inr m) = recovered now run left (recover_run now l s) m

-- After `_recover_interrupted` no run of the project is running, and for each run that was, no step of
-- it is running.
pub recover_interrupted-IsStill :
    (now : ℕ) (s : Store)
    → (interrupted_runs (recover_interrupted now s) ≡ [])
      × ((run : Run)
          → Some (λ r. r ≡ run) (interrupted_runs s)
          → All (IsStill run.run_id) (recover_interrupted now s).steps)
unfolding recover_interrupted
recover_interrupted-IsStill now s =
    (recover_interrupted-runs now s, λ run m. recovered now run (interrupted_runs s) s m)
