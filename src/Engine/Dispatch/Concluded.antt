-- ===== src/Engine/Dispatch/Concluded.antt =====
-- What a run that `_run_steps` of pebs/engine.py calls succeeded has done.
use pebs.Base.{
  ℕ, ◌/◌, Bool, true, false, not, ◌&&◌, ◌≡◌, refl, ◌∙◌, sym, subst, Option, some, List, [], ◌∷◌,
  Text, same, arith, any, map, select, Some, ok, row_for-amend, >>=_ok, inl, inr, ◌⊎◌, Bool-cases,
}
use pebs.Store.Rows.{Run, RunStatus, Step, StepStatus, Store}
use pebs.Store.Runs.{run_for, set_run_status, get_steps}
use pebs.Engine.Dispatch.Settled.{KeepStatuses, run_loop-IsThrough}
use pebs.Engine.Dispatch.{
  PlanStep, World, Handlers, step_status, statuses_of, is_open, is_settled, is_blocked, is_failed,
  is_cancelled, is_selected, run_loop, run_steps, finish_run, finalize_run_status,
  compute_run_status,
}

any-first :
    (p : StepStatus → Bool) (i : Text) (steps : List Step)
    → p (elim (select (λ (st : Step). same st.step_id i) steps) [
      | [] ↦ StepStatus.pending
      | st ∷ rest ↦ st.status
    ])
      ≡ true
    → p StepStatus.pending ≡ false
    → any p (map (λ st. st.status) steps) ≡ true
unfolding any select
any-first p i [] h n = cc
any-first p i (st ∷ steps) h n = elim (Bool-cases (same st.step_id i)) [
  | inl hit ↦ ground arith
  | inr miss ↦ ground (arith, any-first p i steps)
]

-- The status of a step is one of the statuses of the run, unless it is the default.
any-step_status :
    (p : StepStatus → Bool) (run_id i : Text) (s : Store)
    → p (step_status run_id i s) ≡ true
    → p StepStatus.pending ≡ false
    → any p (statuses_of run_id s) ≡ true
unfolding step_status
any-step_status p run_id i s h n = any-first p i (get_steps run_id s) h n

-- What the status of a run that has succeeded says of the statuses of its steps.
succeeded-statuses :
    (statuses : List StepStatus)
    → compute_run_status statuses ≡ RunStatus.succeeded
    → (any is_failed statuses ≡ false)
      × (any is_blocked statuses ≡ false)
      × ((any is_cancelled statuses && not (any is_open statuses)) ≡ false)
unfolding compute_run_status
succeeded-statuses statuses h = ground arith

finalized :
    (now : ℕ) (run_id : Text) (s : Store) (r : Run)
    → run_for run_id (finalize_run_status now run_id s).runs ≡ some r
    → r.status ≡ compute_run_status (statuses_of run_id s)
unfolding finalize_run_status set_run_status
finalized now run_id s r h =
    let status = compute_run_status (statuses_of run_id s) in
    ground (
      arith,
      row_for-amend (λ r. r.run_id) run_id run_id
          (λ r. record r { status = status; ended_at = some (now / 1000) }) s.runs (λ r. refl),
    )

succeeded-step :
    (run_id i : Text) (s : Store)
    → compute_run_status (statuses_of run_id s) ≡ RunStatus.succeeded
    → is_settled (step_status run_id i s) ≡ true
    → (step_status run_id i s ≡ StepStatus.succeeded)
      ⊎ (step_status run_id i s ≡ StepStatus.cancelled)
succeeded-step run_id i s h closed =
    let said = succeeded-statuses (statuses_of run_id s) h in
    ground (arith, any-step_status is_failed run_id i s, any-step_status is_blocked run_id i s)

-- If `_run_steps` returns and the run is SUCCEEDED then, then each step of the plan that was selected
-- is SUCCEEDED or CANCELLED, none of the run's steps is FAILED or BLOCKED, and if one is CANCELLED,
-- another one is still PENDING or RUNNING. This is so if no handler writes the status of a step.
pub run_steps-succeeded :
    (handlers : Handlers) (run_id : Text) (plan : List PlanStep) (ids : Option (List Text))
    (w w' : World) (r : Run)
    → KeepStatuses handlers
    → run_steps handlers run_id plan ids w ≡ (ok tt, w')
    → run_for run_id w'.store.runs ≡ some r
    → r.status ≡ RunStatus.succeeded
    → ((p : PlanStep)
        → Some (λ q. q ≡ p) plan
        → is_selected ids p.step_id ≡ true
        → (step_status run_id p.step_id w'.store ≡ StepStatus.succeeded)
          ⊎ (step_status run_id p.step_id w'.store ≡ StepStatus.cancelled))
      × (any is_failed (statuses_of run_id w'.store) ≡ false)
      × (any is_blocked (statuses_of run_id w'.store) ≡ false)
      × ((any is_cancelled (statuses_of run_id w'.store)
            && not (any is_open (statuses_of run_id w'.store)))
          ≡ false)
unfolding run_steps step_status get_steps finalize_run_status set_run_status
run_steps-succeeded handlers run_id plan ids w w' r keep e known h =
    let (u, v, looped, last) = >>=_ok (run_loop handlers run_id plan ids plan) _ w tt w' e in
    let lands : finish_run run_id v ≡ w' = cc in
    let status : compute_run_status (statuses_of run_id v.store) ≡ RunStatus.succeeded =
      sym (
        finalized v.now run_id v.store r
          (subst (λ (x : World). run_for run_id x.store.runs ≡ some r) (sym lands) known))
      ∙ h in
    let said = succeeded-statuses (statuses_of run_id v.store) status in
    rw (← lands) (
      λ p m selected. elim (run_loop-IsThrough handlers keep run_id plan ids plan w v looped) [
        | inl settled ↦ succeeded-step run_id p.step_id v.store status (settled p m selected)
        | inr (i, blocked) ↦
            absurd (ground (arith, any-step_status is_blocked run_id i v.store, said))
      ],
      said.0,
      said.1,
      said.2,
    )
