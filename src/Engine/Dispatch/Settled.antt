-- ===== src/Engine/Dispatch/Settled.antt =====
-- What `_run_steps` of pebs/engine.py leaves of the steps, and what the status of the run says then.
use pebs.Base.{
  Bool, true, false, ◌≡◌, refl, ◌∙◌, subst, Option, some, List, [], ◌∷◌, Text, same, codes, join,
  ◌++◌, arith, Some, ok, Bool-cases, Option-cases, >>=_ok, List-cases, inl, inr, ◌⊎◌, if◌then◌else◌,
}
use pebs.Store.Rows.{StepStatus}
use pebs.Store.Runs.{StepChange, run_for}
use pebs.Engine.Dispatch.Statuses.{step_status-put_own}
use pebs.Engine.Dispatch.{
  PlanStep, World, Handlers, StepOutcome, finished, step_blocked, write_conflict, step_failed,
  budget_exceeded, cancelled_run, unexpected, step_status, is_settled, is_blocked, is_run_cancelled,
  step_named, is_selected, tracked, blocked_by, start_step, record_outcome, attempt, run_step,
  run_loop, to_status, put_step, to_note, to_error,
}

-- A handler writes no status of a step: what it records of steps are calls of models.
abbrev pub KeepStatuses : Handlers → Type 0
KeepStatuses handlers =
    (step_id : Text) (w : World) (o : StepOutcome) (w' : World)
    → handlers step_id w ≡ some (o, w')
    → (r i : Text) → step_status r i w'.store ≡ step_status r i w.store

-- The status of one step of the run is written, a final one, and it is BLOCKED where the loop ends.
record Wrote (run_id step_id : Text) (w : World) (go : Bool) (w' : World) : Type 0 where
  status : StepStatus
  closed : is_settled status ≡ true
  broken : go ≡ false → status ≡ StepStatus.blocked
  read_back :
      (i : Text)
      → step_status run_id i w'.store
        ≡ (if same step_id i then status else step_status run_id i w.store)

module _ (run_id step_id : Text) where
  outcome_status : StepOutcome → StepStatus
  outcome_status (finished notes) = StepStatus.succeeded
  outcome_status (step_blocked m) = StepStatus.blocked
  outcome_status (write_conflict m) = StepStatus.blocked
  outcome_status (step_failed m) = StepStatus.failed
  outcome_status (budget_exceeded m) = StepStatus.blocked
  outcome_status cancelled_run = StepStatus.cancelled
  outcome_status (unexpected m f) = StepStatus.failed

  closed-outcome_status : (o : StepOutcome) → is_settled (outcome_status o) ≡ true
  unfolding outcome_status
  closed-outcome_status o = ground arith

  record_outcome-broken :
      (o : StepOutcome) (w : World)
      → (record_outcome run_id step_id o w).0 ≡ false
      → outcome_status o ≡ StepStatus.blocked
  unfolding record_outcome outcome_status
  record_outcome-broken o w h = ground arith

  step_status-record_outcome :
      (o : StepOutcome) (w : World) (i : Text)
      → step_status run_id i (record_outcome run_id step_id o w).1.store
        ≡ (if same step_id i then outcome_status o else step_status run_id i w.store)
  unfolding record_outcome outcome_status
  step_status-record_outcome (finished notes) w i =
      step_status-put_own run_id step_id i _ StepStatus.succeeded w refl
  step_status-record_outcome o w i =
      step_status-put_own run_id step_id i _ (outcome_status o) w refl

  record_outcome-Wrote :
      (o : StepOutcome) (v w : World)
      → ((i : Text)
          → same step_id i ≡ false
          → step_status run_id i v.store ≡ step_status run_id i w.store)
      → Wrote run_id step_id w
          (record_outcome run_id step_id o v).0
          (record_outcome run_id step_id o v).1
  record_outcome-Wrote o v w others = record {
    status = outcome_status o;
    closed = closed-outcome_status o;
    broken = record_outcome-broken o v;
    read_back = λ i. ground (arith, step_status-record_outcome o v i, others i);
  }

  start_step-others :
      (i : Text) (w : World)
      → same step_id i ≡ false
      → step_status run_id i (start_step run_id step_id w).store ≡ step_status run_id i w.store
  unfolding start_step
  start_step-others i w h = ground (
    arith,
    step_status-put_own run_id step_id i
        (record (to_status StepStatus.running) { bump_attempt = true }) StepStatus.running w refl,
  )

  put_step-Wrote :
      (c : StepChange) (st : StepStatus) (w : World)
      → c.status ≡ some st
      → is_settled st ≡ true
      → Wrote run_id step_id w true (put_step run_id step_id c w)
  put_step-Wrote c st w e h = record {
    status = st;
    closed = h;
    broken = λ n. cc;
    read_back = λ i. step_status-put_own run_id step_id i c st w e;
  }

  attempt-Wrote :
      (handlers : Handlers) (w : World)
      → KeepStatuses handlers
      → Wrote run_id step_id w
          (attempt handlers run_id step_id w).0
          (attempt handlers run_id step_id w).1
  unfolding attempt
  attempt-Wrote handlers w keep =
      elim (Option-cases (handlers step_id (start_step run_id step_id w))) [
        | inl unknown ↦
            rw (unknown, attempt)
              (record_outcome-Wrote _ (start_step run_id step_id w) w (λ i. start_step-others i w))
        | inr ((o, v), ran) ↦
            rw (ran, attempt)
              (record_outcome-Wrote o v w λ i other.
                keep step_id (start_step run_id step_id w) o v ran run_id i
                ∙ start_step-others i w other)
      ]

module _ (handlers : Handlers) (keep : KeepStatuses handlers) (run_id : Text) (plan : List PlanStep)
    (ids : Option (List Text)) where
  -- A round passes over a step that is not selected, and writes a final status of any other one.
  run_step-Wrote :
      (p : PlanStep) (w : World) (go : Bool) (w' : World)
      → run_step handlers run_id plan ids p w ≡ (ok go, w')
      → is_selected ids p.step_id ≡ true
      → Wrote run_id p.step_id w go w'
  unfolding run_step
  run_step-Wrote p w go w' e selected = elim (Bool-cases (step_named plan p).disabled) [
    | inl off ↦
        given true _
          (put_step-Wrote run_id p.step_id (to_note StepStatus.cancelled (codes "用户禁用"))
            StepStatus.cancelled w refl refl)
          (ground arith)
    | inr enabled ↦ elim (Option-cases (run_for run_id w.store.runs)) [
      | inl unknown ↦ absurd (ground arith)
      | inr (r, known) ↦ elim (Bool-cases (is_run_cancelled r.status)) [
        | inl over ↦
            given true _
              (put_step-Wrote run_id p.step_id (to_note StepStatus.cancelled (codes "运行已取消"))
                StepStatus.cancelled w refl refl)
              (ground arith)
        | inr going ↦
            elim (List-cases
              (blocked_by run_id (tracked plan ids) (step_named plan p).depends_on w.store)) [
                | inr (d, ds, waiting) ↦
                    given true _
                      (put_step-Wrote run_id p.step_id
                        (to_error StepStatus.blocked
                          (codes "依赖步骤未成功：" ++ join (codes "、") (d ∷ ds)))
                        StepStatus.blocked w refl refl)
                      (ground arith)
                | inl free ↦
                    given _ _ (attempt-Wrote run_id p.step_id handlers w keep) (ground arith)
              ]
      ]
    ]
  ]
    where
      given :
          (g : Bool) (v : World)
          → Wrote run_id p.step_id w g v
          → run_step handlers run_id plan ids p w ≡ (ok g, v)
          → Wrote run_id p.step_id w go w'
      given g v wrote lands =
          let same_go : g ≡ go = cc in
          let same_world : v ≡ w' = cc in
          subst (λ (x : World). Wrote run_id p.step_id w go x) same_world
            (subst (λ (x : Bool). Wrote run_id p.step_id w x v) same_go wrote)

  run_step-passes :
      (p : PlanStep) (w : World)
      → is_selected ids p.step_id ≡ false
      → run_step handlers run_id plan ids p w ≡ (ok true, w)
  unfolding run_step
  run_step-passes p w other = ground arith

  -- In the end each of the selected steps is closed, or the loop was left with one that is blocked.
  abbrev pub IsThrough : List PlanStep → World → Type 0
  IsThrough ps w =
      ((p : PlanStep)
        → Some (λ q. q ≡ p) ps
        → is_selected ids p.step_id ≡ true
        → is_settled (step_status run_id p.step_id w.store) ≡ true)
      ⊎ ((i : Text) × (is_blocked (step_status run_id i w.store) ≡ true))

  run_loop-keeps :
      (ps : List PlanStep) (w w' : World) (i : Text)
      → run_loop handlers run_id plan ids ps w ≡ (ok tt, w')
      → is_settled (step_status run_id i w.store) ≡ true
      → is_settled (step_status run_id i w'.store) ≡ true
  unfolding run_loop
  run_loop-keeps [] w w' i e closed = let stays : w ≡ w' = cc in rw (← stays) closed
  run_loop-keeps (p ∷ ps) w w' i e closed =
      let (go, v, first, rest) = >>=_ok (run_step handlers run_id plan ids p) _ w tt w' e in
      let closed_now : is_settled (step_status run_id i v.store) ≡ true =
        elim (Bool-cases (is_selected ids p.step_id)) [
          | inr other ↦ let stays : w ≡ v = cc (run_step-passes p w other) in rw (← stays) closed
          | inl selected ↦
              let wrote = run_step-Wrote p w go v first selected in
              ground (arith, wrote.read_back i, wrote.closed)
        ] in
      elim (Bool-cases go) [
        | inl on ↦ run_loop-keeps ps v w' i (ground arith) closed_now
        | inr off ↦ let stays : v ≡ w' = ground arith in rw (← stays) closed_now
      ]

  pub run_loop-IsThrough :
      (ps : List PlanStep) (w w' : World)
      → run_loop handlers run_id plan ids ps w ≡ (ok tt, w')
      → IsThrough ps w'
  unfolding run_loop
  run_loop-IsThrough [] w w' e = inl (λ p m. absurd m)
  run_loop-IsThrough (p ∷ ps) w w' e =
      let (go, v, first, rest) = >>=_ok (run_step handlers run_id plan ids p) _ w tt w' e in
      elim (Bool-cases go) [
        | inr off ↦ elim (Bool-cases (is_selected ids p.step_id)) [
          | inr other ↦ absurd (ground (arith, run_step-passes p w other))
          | inl selected ↦
              let wrote = run_step-Wrote p w go v first selected in
              let stays : v ≡ w' = ground arith in
              rw (← stays)
                (inr (p.step_id, ground (arith, wrote.read_back p.step_id, wrote.broken)))
        ]
        | inl on ↦
            let through : run_loop handlers run_id plan ids ps v ≡ (ok tt, w') = ground arith in
            elim (run_loop-IsThrough ps v w' through) [
              | inr broken ↦ inr broken
              | inl closed ↦ inl λ q m. elim m [
                | inr later ↦ closed q later
                | inl same_step ↦ λ selected.
                    let wrote = run_step-Wrote p w go v first (rw same_step selected) in
                    rw (← same_step) (
                      run_loop-keeps ps v w' p.step_id through
                        (ground (arith, wrote.read_back p.step_id, wrote.closed)))
              ]
            ]
      ]
