-- ===== src/Runtime/Executor/Resumable.antt =====
-- What `execute_plan` of pebs/runtime/executor.py records once the run is aborted, as `resume` of
-- pebs/engine.py looks for it.
use pebs.Base.{
  ℕ, Bool, true, false, not, ◌&&◌, ◌||◌, ◌≡◌, refl, some, List, [], ◌∷◌, ◌++◌, Text, same, arith,
  select, any, contains, map, Bool-cases, inl, inr,
}
use pebs.Evidence.Whitespace.{is_inside, starts_with}
use pebs.Store.Rows.{Step, Store, StepStatus}
use pebs.Store.Runs.{
  is_step, has_step, amend_steps, change_step, ensure_step, add_step, set_step, get_steps,
  blank_step,
}
use pebs.Engine.Dispatch.{World, put_step, is_blocked, is_budget_error, budget_blocked, to_error}
use pebs.Runtime.Executor.{abort_error}

-- The row is one that `resume` takes.
abbrev is_resumed : Text → Step → Bool
is_resumed run_id st = same st.run_id run_id && (is_blocked st.status && is_budget_error st.error)

resumed_in : Text → Text → List Step → Bool
resumed_in run_id i steps = any (λ st. same i st.step_id && is_resumed run_id st) steps

contains-rows :
    (run_id i : Text) (steps : List Step)
    → contains i (
        map
          (λ (st : Step). st.step_id)
          (select
            (λ (st : Step). is_blocked st.status && is_budget_error st.error)
            (select (λ (st : Step). same st.run_id run_id) steps)))
      ≡ resumed_in run_id i steps
unfolding contains select resumed_in any
contains-rows run_id i [] = refl
contains-rows run_id i (st ∷ steps) = ground (arith, contains-rows run_id i steps)

contains-budget_blocked :
    (run_id i : Text) (s : Store)
    → contains i (budget_blocked run_id s) ≡ resumed_in run_id i s.steps
unfolding budget_blocked get_steps
contains-budget_blocked run_id i s = contains-rows run_id i s.steps

pub resumed-abort_error : (reason : Text) → is_budget_error (abort_error reason).error ≡ true
unfolding is_inside starts_with
resumed-abort_error reason = refl

resumed_in-append :
    (run_id i : Text) (xs ys : List Step)
    → resumed_in run_id i (xs ++ ys) ≡ (resumed_in run_id i xs || resumed_in run_id i ys)
unfolding resumed_in any
resumed_in-append run_id i [] ys = refl
resumed_in-append run_id i (x ∷ xs) ys = ground (arith, resumed_in-append run_id i xs ys)

has_step-append :
    (run_id i : Text) (xs ys : List Step)
    → has_step run_id i (xs ++ ys) ≡ (has_step run_id i xs || has_step run_id i ys)
unfolding has_step any
has_step-append run_id i [] ys = refl
has_step-append run_id i (x ∷ xs) ys = ground (arith, has_step-append run_id i xs ys)

has-blank_step : (run_id i : Text) → has_step run_id i (blank_step run_id i i ∷ []) ≡ true
unfolding has_step any
has-blank_step run_id i = ground arith

resumed-blank_step :
    (run_id r step_id i : Text) → resumed_in run_id i (blank_step r step_id step_id ∷ []) ≡ false
unfolding resumed_in any
resumed-blank_step run_id r step_id i = ground arith

or_taken :
    (x y h q rest : Bool) → y ≡ x → (x || ((x && h) || rest)) ≡ ((x && true) || ((y && q) || rest))
or_taken x y h q rest e = ground arith

or_swap : (a b rest : Bool) → (a || (b || rest)) ≡ (b || (a || rest))
or_swap a b rest = ground arith

module _ (run_id step_id i message : Text) (budget : is_budget_error (some message) ≡ true) where
  resumed_row-hit :
      (now : ℕ) (st : Step)
      → is_step run_id step_id st ≡ true
      → (same i (change_step now (to_error StepStatus.blocked message) st).step_id
          && is_resumed run_id (change_step now (to_error StepStatus.blocked message) st))
        ≡ same i step_id
  unfolding change_step
  resumed_row-hit now st hit = ground arith

  same_step-hit :
      (st : Step) → is_step run_id step_id st ≡ true → same i st.step_id ≡ same i step_id
  same_step-hit st hit = ground arith

  resumed_in-amend_steps :
      (now : ℕ) (steps : List Step)
      → resumed_in run_id i
          (amend_steps run_id step_id (change_step now (to_error StepStatus.blocked message)) steps)
        ≡ ((same i step_id && has_step run_id step_id steps) || resumed_in run_id i steps)
  unfolding resumed_in any amend_steps has_step
  resumed_in-amend_steps now [] = ground arith
  resumed_in-amend_steps now (st ∷ steps) = elim (Bool-cases (is_step run_id step_id st)) [
    | inl hit ↦ rw hit (
        rw (resumed_row-hit now st hit) (
          rw (resumed_in-amend_steps now steps) (
            or_taken (same i step_id) (same i st.step_id) (has_step run_id step_id steps)
              (is_resumed run_id st) (resumed_in run_id i steps) (same_step-hit st hit))))
    | inr miss ↦ rw miss (
        rw (resumed_in-amend_steps now steps) (
          or_swap (same i st.step_id && is_resumed run_id st)
            (same i step_id && has_step run_id step_id steps) (resumed_in run_id i steps)))
  ]

  resumed_in-select :
      (steps : List Step)
      → has_step run_id step_id steps ≡ false
      → resumed_in run_id i (select (λ st. not (is_step run_id step_id st)) steps)
        ≡ resumed_in run_id i steps
  unfolding resumed_in any select has_step
  resumed_in-select [] h = refl
  resumed_in-select (st ∷ steps) h = ground (arith, resumed_in-select steps)

  has-ensure_step :
      (s : Store) → has_step run_id step_id (ensure_step run_id step_id s).steps ≡ true
  unfolding ensure_step add_step
  has-ensure_step s = elim (Bool-cases (has_step run_id step_id s.steps)) [
    | inl there ↦ rw there there
    | inr missing ↦ ground (
      arith,
      has_step-append run_id step_id (select (λ st. not (is_step run_id step_id st)) s.steps)
          (blank_step run_id step_id step_id ∷ []),
      has-blank_step run_id step_id,
    )
  ]

  resumed_in-ensure_step :
      (s : Store)
      → resumed_in run_id i (ensure_step run_id step_id s).steps ≡ resumed_in run_id i s.steps
  unfolding ensure_step add_step
  resumed_in-ensure_step s = elim (Bool-cases (has_step run_id step_id s.steps)) [
    | inl there ↦ rw there refl
    | inr missing ↦ ground (
      arith,
      resumed_in-append run_id i (select (λ st. not (is_step run_id step_id st)) s.steps)
          (blank_step run_id step_id step_id ∷ []),
      resumed_in-select s.steps missing,
      resumed-blank_step run_id run_id step_id i,
    )
  ]

  -- A step that is passed over is one that `resume` takes, and the others stay what they were.
  pub contains-put_step :
      (w : World)
      → contains i (
          budget_blocked run_id
            (put_step run_id step_id (to_error StepStatus.blocked message) w).store)
        ≡ (same i step_id || contains i (budget_blocked run_id w.store))
  unfolding put_step set_step
  contains-put_step w = ground (
    arith,
    contains-budget_blocked run_id i
        (put_step run_id step_id (to_error StepStatus.blocked message) w).store,
    contains-budget_blocked run_id i w.store,
    resumed_in-amend_steps w.now (ensure_step run_id step_id w.store).steps,
    has-ensure_step w.store,
    resumed_in-ensure_step w.store,
  )
