-- ===== src/Engine/Dispatch/Statuses.antt =====
-- The status that `_step_status` of pebs/engine.py reads, behind a write of `set_step`.
use pebs.Base.{
  ℕ, Bool, true, false, not, ◌&&◌, ◌≡◌, refl, Option, none, some, List, [], ◌∷◌, ◌++◌, Text, same,
  arith, select, any, Bool-cases, inl, inr, if◌then◌else◌,
}
use mathlib.Core.Option
use pebs.Store.Rows.{Step, StepStatus, Store}
use pebs.Store.Runs.{
  StepChange, get_steps, set_step, ensure_step, add_step, amend_steps, change_step, has_step,
  is_step, or_else, blank_step,
}
use pebs.Engine.Dispatch.{World, put_step, step_status}

-- The status of the first row of the step.
status_in : Text → Text → List Step → Option StepStatus
status_in r i [] = none
status_in r i (st ∷ steps) = if is_step r i st then some st.status else status_in r i steps

first_status : List Step → StepStatus
first_status [] = StepStatus.pending
first_status (st ∷ steps) = st.status

first_status-select :
    (r i : Text) (steps : List Step)
    → first_status (select (λ st. same st.step_id i) (select (λ st. same st.run_id r) steps))
      ≡ or_else (status_in r i steps) StepStatus.pending
unfolding first_status select status_in
first_status-select r i [] = refl
first_status-select r i (st ∷ steps) = ground (arith, first_status-select r i steps)

step_status-status_in :
    (r i : Text) (s : Store)
    → step_status r i s ≡ or_else (status_in r i s.steps) StepStatus.pending
unfolding step_status get_steps first_status
step_status-status_in r i s = ground (arith, first_status-select r i s.steps)

status_in-append :
    (r i : Text) (xs ys : List Step)
    → status_in r i (xs ++ ys)
      ≡ elim (status_in r i xs) [ none ↦ status_in r i ys | some st ↦ some st ]
unfolding status_in
status_in-append r i [] ys = refl
status_in-append r i (x ∷ xs) ys = ground (arith, status_in-append r i xs ys)

status_in-has_step :
    (r i : Text) (steps : List Step)
    → has_step r i steps ≡ elim (status_in r i steps) [ none ↦ false | some st ↦ true ]
unfolding status_in has_step any
status_in-has_step r i [] = refl
status_in-has_step r i (st ∷ steps) = ground (arith, status_in-has_step r i steps)

module _ (run_id step_id r i : Text) where
  -- The write is to the step that is read.
  abbrev is_hit : Bool
  is_hit = same run_id r && same step_id i

  status_in-amend_steps :
      (now : ℕ) (c : StepChange) (steps : List Step)
      → status_in r i (amend_steps run_id step_id (change_step now c) steps) ≡ (
          if is_hit
          then Option.map (λ st. or_else c.status st) (status_in r i steps)
          else status_in r i steps)
  unfolding status_in amend_steps change_step
  status_in-amend_steps now c [] = ground arith
  status_in-amend_steps now c (st ∷ steps) = ground (arith, status_in-amend_steps now c steps)

  -- The rows that INSERT OR REPLACE leaves, where there is none of the step.
  status_in-select :
      (steps : List Step)
      → has_step run_id step_id steps ≡ false
      → status_in r i (select (λ st. not (is_step run_id step_id st)) steps) ≡ status_in r i steps
  unfolding status_in select has_step any
  status_in-select [] h = refl
  status_in-select (st ∷ steps) h = ground (arith, status_in-select steps)

  status_in-ensure_step :
      (s : Store)
      → status_in r i (ensure_step run_id step_id s).steps ≡ (
          if is_hit
          then some (or_else (status_in r i s.steps) StepStatus.pending)
          else status_in r i s.steps)
  unfolding ensure_step add_step status_in
  status_in-ensure_step s = elim (Bool-cases (has_step run_id step_id s.steps)) [
    | inl there ↦ rw there (ground (arith, status_in-has_step run_id step_id s.steps))
    | inr missing ↦ ground (
      arith,
      status_in-has_step run_id step_id s.steps,
      status_in-select s.steps missing,
      status_in-append r i (select (λ st. not (is_step run_id step_id st)) s.steps)
          (blank_step run_id step_id step_id ∷ []),
    )
  ]

  -- A write that sets a status is read back at the step, and nowhere else.
  pub step_status-put_step :
      (c : StepChange) (w : World)
      → step_status r i (put_step run_id step_id c w).store
        ≡ (if is_hit then or_else c.status (step_status r i w.store) else step_status r i w.store)
  unfolding put_step set_step
  step_status-put_step c w =
      let s = ensure_step run_id step_id w.store in
      ground (
        arith,
        step_status-status_in r i (put_step run_id step_id c w).store,
        step_status-status_in r i w.store,
        status_in-amend_steps w.now c s.steps,
        status_in-ensure_step w.store,
      )

-- The same for a step of the run that is read, where the write sets the status `st`.
pub step_status-put_own :
    (run_id step_id i : Text) (c : StepChange) (st : StepStatus) (w : World)
    → c.status ≡ some st
    → step_status run_id i (put_step run_id step_id c w).store
      ≡ (if same step_id i then st else step_status run_id i w.store)
step_status-put_own run_id step_id i c st w e =
    ground (arith, step_status-put_step run_id step_id run_id i c w)
