-- ===== src/Engine/Dispatch/Guarded.antt =====
-- When `_run_steps` of pebs/engine.py calls a handler.
use pebs.Base.{
  Bool, true, false, ◌≡◌, refl, Option, some, List, [], ◌∷◌, Text, text_dec, arith, select,
  contains, Some, Bool-cases, Option-cases, List-cases, >>=_agree, inl, inr, if◌then◌else◌, pure,
}
use pebs.Store.Rows.{Run, StepStatus, Store}
use pebs.Store.Runs.{run_for}
use pebs.Engine.Dispatch.{
  PlanStep, World, WorldExec, Handlers, step_status, is_succeeded, is_run_cancelled, step_named,
  is_selected, tracked, blocked_by, start_step, attempt, run_step, run_loop, run_steps,
}

-- The step is one of the plan and of those to run, it is not disabled, the run is known and not
-- cancelled, and each step that it depends on and that is tracked has succeeded.
pub record IsReady (run_id : Text) (plan : List PlanStep) (ids : Option (List Text)) (p : PlanStep)
    (w : World) : Type 0 where
  pub planned : Some (λ q. q ≡ p) plan
  pub selected : is_selected ids p.step_id ≡ true
  pub enabled : (step_named plan p).disabled ≡ false
  pub going :
      (r : Run) × (run_for run_id w.store.runs ≡ some r) × (is_run_cancelled r.status ≡ false)
  pub satisfied :
      (dep : Text)
      → contains dep (step_named plan p).depends_on ≡ true
      → contains dep (tracked plan ids) ≡ true
      → step_status run_id dep w.store ≡ StepStatus.succeeded

is_succeeded-eq : (st : StepStatus) → is_succeeded st ≡ true → st ≡ StepStatus.succeeded
is_succeeded-eq st h = ground arith

blocked_by-nil :
    (run_id : Text) (ids depends_on : List Text) (s : Store) (dep : Text)
    → blocked_by run_id ids depends_on s ≡ []
    → contains dep depends_on ≡ true
    → contains dep ids ≡ true
    → step_status run_id dep s ≡ StepStatus.succeeded
unfolding blocked_by select contains
blocked_by-nil run_id ids [] s dep h m t = cc
blocked_by-nil run_id ids (d ∷ ds) s dep h m t = elim (text_dec dep d) [
  | yes e ↦ rw e (is_succeeded-eq (step_status run_id d s) (ground (arith, e)))
  | no differ ↦ blocked_by-nil run_id ids ds s dep (ground arith) (ground arith) t
]

if_agree :
    (go : Bool) (m n : WorldExec Unit) (t : World)
    → m t ≡ n t
    → (if go then m else pure tt) t ≡ (if go then n else pure tt) t
if_agree true m n t e = e
if_agree false m n t e = refl

-- Two tables of handlers that agree wherever a step is ready.
abbrev pub AgreeWhenReady : Text → List PlanStep → Option (List Text) → Handlers → Handlers → Type 0
AgreeWhenReady run_id plan ids h k =
    (p : PlanStep) (v : World)
    → IsReady run_id plan ids p v
    → h p.step_id (start_step run_id p.step_id v) ≡ k p.step_id (start_step run_id p.step_id v)

module _ (h k : Handlers) (run_id : Text) (plan : List PlanStep) (ids : Option (List Text))
    (agree : AgreeWhenReady run_id plan ids h k) where
  run_step-guarded :
      (p : PlanStep) (w : World)
      → Some (λ q. q ≡ p) plan
      → run_step h run_id plan ids p w ≡ run_step k run_id plan ids p w
  unfolding run_step attempt
  run_step-guarded p w planned = elim (Bool-cases (is_selected ids p.step_id)) [
    | inr other ↦ ground arith
    | inl selected ↦ elim (Bool-cases (step_named plan p).disabled) [
      | inl off ↦ ground arith
      | inr enabled ↦ elim (Option-cases (run_for run_id w.store.runs)) [
        | inl unknown ↦ ground arith
        | inr (r, known) ↦ elim (Bool-cases (is_run_cancelled r.status)) [
          | inl over ↦ ground arith
          | inr going ↦
              elim (List-cases
                (blocked_by run_id (tracked plan ids) (step_named plan p).depends_on w.store)) [
                  | inr (d, ds, waiting) ↦ ground arith
                  | inl free ↦ ground (
                    arith,
                    agree p w (record {
                      planned = planned;
                      selected = selected;
                      enabled = enabled;
                      going = (r, known, going);
                      satisfied = λ dep m t.
                          blocked_by-nil run_id (tracked plan ids) (step_named plan p).depends_on
                            w.store dep free m t;
                    }),
                  )
                ]
        ]
      ]
    ]
  ]

  run_loop-guarded :
      (ps : List PlanStep) (w : World)
      → ((q : PlanStep) → Some (λ r. r ≡ q) ps → Some (λ r. r ≡ q) plan)
      → run_loop h run_id plan ids ps w ≡ run_loop k run_id plan ids ps w
  unfolding run_loop
  run_loop-guarded [] w within = refl
  run_loop-guarded (p ∷ ps) w within =
      >>=_agree (run_step h run_id plan ids p) (run_step k run_id plan ids p) _ _ w
        (run_step-guarded p w (within p (inl refl)))
        λ go t.
          if_agree go (run_loop h run_id plan ids ps) (run_loop k run_id plan ids ps) t
            (run_loop-guarded ps t (λ q m. within q (inr m)))

  -- A handler is called only for a step that is ready: tables of handlers that agree on ready steps,
  -- and differ in whatever else they do, lead `_run_steps` to the same result.
  pub run_steps-guarded :
      (w : World) → run_steps h run_id plan ids w ≡ run_steps k run_id plan ids w
  unfolding run_steps
  run_steps-guarded w =
      >>=_agree (run_loop h run_id plan ids plan) (run_loop k run_id plan ids plan) _ _ w
        (run_loop-guarded plan w (λ q m. m)) (λ a t. refl)
