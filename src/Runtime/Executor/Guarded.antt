-- ===== src/Runtime/Executor/Guarded.antt =====
-- When `execute_plan` of pebs/runtime/executor.py runs an agent.
use pebs.Base.{
  ℕ, Bool, true, false, not, ◌≡◌, refl, subst, none, some, List, [], ◌∷◌, ◌++◌, Text, text_dec,
  arith, select, contains, map, ok, append_empty, >>=_agree, Bool-cases, Option-cases, Result-cases,
  List-cases, inl, inr,
}
use pebs.Store.Rows.{Run, Store, StepStatus}
use pebs.Store.Runs.{run_for}
use pebs.Planner.Contracts.{PlanNode}
use pebs.Gates.Results.{GateResult, Documents, latest_gate_results}
use pebs.Engine.Dispatch.{World, step_status, is_succeeded, is_run_cancelled, start_step}
use pebs.Runtime.Records.{Ending}
use pebs.Runtime.Executor.{
  Runner, Machine, is_reused, missing_deps, is_refused, failed_gates, check_gates_before, run_agent,
  pass_gates, take_node, execute_node, submit_node, submit_all, execute_batch, batch_of,
  execute_levels, levels, execute_plan,
}

-- The run is known and neither cancelled nor aborted, the node is not reused and some output of it is
-- missing, each step that it depends on has succeeded, and for no gate before it and no input of it
-- the result in use is FAIL or NEEDS_REVIEW.
pub record IsReady (docs : Documents) (run_id : Text) (node : PlanNode) (r : Runner) : Type 0 where
  pub going :
      (run : Run) × (run_for run_id r.world.store.runs ≡ some run)
      × (is_run_cancelled run.status ≡ false)
  pub not_aborted : r.abort_reason ≡ none
  pub to_make : is_reused node r.world.outputs ≡ false
  pub satisfied :
      (dep : Text)
      → contains dep node.depends_on ≡ true
      → step_status run_id dep r.world.store ≡ StepStatus.succeeded
  pub gates_passed :
      (gate_id input : Text)
      → contains gate_id node.gate_before ≡ true
      → contains input node.inputs ≡ true
      → (results : List (Text × GateResult)) × ((latest_gate_results docs r.world.outputs
            r.world.store).0
          ≡ ok results)
        × (is_refused results gate_id input ≡ false)

is_succeeded-eq : (st : StepStatus) → is_succeeded st ≡ true → st ≡ StepStatus.succeeded
is_succeeded-eq st h = ground arith

select-nil :
    (p : Text → Bool) (xs : List Text) (x : Text)
    → select p xs ≡ []
    → contains x xs ≡ true
    → p x ≡ false
unfolding select contains
select-nil p [] x h m = cc
select-nil p (y ∷ xs) x h m = elim (text_dec x y) [
  | yes e ↦ rw e (ground arith)
  | no differ ↦ select-nil p xs x (ground arith) (ground arith)
]

map-nil : (f : Text → Text) (xs : List Text) → map f xs ≡ [] → xs ≡ []
map-nil f [] h = refl
map-nil f (x ∷ xs) h = cc

failed_gates-nil :
    (results : List (Text × GateResult)) (gates outputs : List Text) (g o : Text)
    → failed_gates results gates outputs ≡ []
    → contains g gates ≡ true
    → contains o outputs ≡ true
    → is_refused results g o ≡ false
unfolding failed_gates contains
failed_gates-nil results [] outputs g o h m n = cc
failed_gates-nil results (x ∷ gates) outputs g o h m n =
    let (now, later) =
      append_empty (map (λ t. x ++ b'@' ∷ t) (select (is_refused results x) outputs))
        (failed_gates results gates outputs) h in
    elim (text_dec g x) [
      | yes e ↦ rw e (select-nil (is_refused results x) outputs o (map-nil _ _ now) n)
      | no differ ↦ failed_gates-nil results gates outputs g o later (ground arith) n
    ]

missing_deps-nil :
    (run_id : Text) (node : PlanNode) (s : Store) (dep : Text)
    → missing_deps run_id node s ≡ []
    → contains dep node.depends_on ≡ true
    → step_status run_id dep s ≡ StepStatus.succeeded
unfolding missing_deps
missing_deps-nil run_id node s dep h m =
    let found =
      select-nil (λ d. not (is_succeeded (step_status run_id d s))) node.depends_on dep h m in
    is_succeeded-eq (step_status run_id dep s) (ground arith)

check_gates_before-passed :
    (docs : Documents) (node : PlanNode) (w : World) (note g o : Text)
    → check_gates_before docs node w ≡ ok ([], note)
    → contains g node.gate_before ≡ true
    → contains o node.inputs ≡ true
    → (results : List (Text × GateResult)) × ((latest_gate_results docs w.outputs w.store).0
        ≡ ok results)
      × (is_refused results g o ≡ false)
unfolding check_gates_before contains
check_gates_before-passed docs node w note g o h m n = elim (List-cases node.gate_before) [
  | inl free ↦ absurd (ground arith)
  | inr (x, xs, gated) ↦ elim (Result-cases (latest_gate_results docs w.outputs w.store).0) [
    | inr (e, failed) ↦ absurd (ground arith)
    | inl (results, read) ↦ (
      results,
      read,
      failed_gates-nil results (x ∷ xs) node.inputs g o (ground arith)
          (subst (λ l. contains g l ≡ true) gated m) n,
    )
  ]
]

-- Another machine with the same records and gate results, whose agents do the same on ready nodes.
abbrev pub AgreeWhenReady : Machine → Text → (PlanNode → World → Ending × World) → Type 0
AgreeWhenReady machine run_id agent =
    (node : PlanNode) (r : Runner)
    → IsReady machine.docs run_id node r
    → machine.agent node (start_step run_id node.node_id r.world)
      ≡ agent node (start_step run_id node.node_id r.world)

module _ (machine : Machine) (run_id : Text) (agent : PlanNode → World → Ending × World)
    (agree : AgreeWhenReady machine run_id agent) where
  abbrev other : Machine
  other = record machine { agent = agent }

  run_agent-guarded :
      (node : PlanNode) (note : Text) (r : Runner)
      → IsReady machine.docs run_id node r
      → run_agent machine run_id node note r ≡ run_agent other run_id node note r
  unfolding run_agent
  run_agent-guarded node note r ready = ground (arith, agree node r ready)

  take_node-guarded :
      (node : PlanNode) (r : Runner) (run : Run)
      → run_for run_id r.world.store.runs ≡ some run
      → is_run_cancelled run.status ≡ false
      → r.abort_reason ≡ none
      → take_node machine run_id node r ≡ take_node other run_id node r
  unfolding take_node pass_gates
  take_node-guarded node r run known going not_aborted =
      elim (Bool-cases (is_reused node r.world.outputs)) [
        | inl reused ↦ rw reused refl
        | inr to_make ↦ elim (List-cases (missing_deps run_id node r.world.store)) [
          | inr (d, ds, missing) ↦ ground arith
          | inl free ↦ elim (Result-cases (check_gates_before machine.docs node r.world)) [
            | inr (e, failed) ↦ ground arith
            | inl ((f ∷ fs, note), refused) ↦ ground arith
            | inl (([], note), passed) ↦ ground (
              arith,
              run_agent-guarded node note r (record {
                going = (run, known, going);
                not_aborted = not_aborted;
                to_make = to_make;
                satisfied = λ dep m. missing_deps-nil run_id node r.world.store dep free m;
                gates_passed = λ g o m n.
                    check_gates_before-passed machine.docs node r.world note g o passed m n;
              }),
            )
          ]
        ]
      ]

  execute_node-guarded :
      (node : PlanNode) (r : Runner)
      → execute_node machine run_id node r ≡ execute_node other run_id node r
  unfolding execute_node
  execute_node-guarded node r = elim (Option-cases (run_for run_id r.world.store.runs)) [
    | inl unknown ↦ ground arith
    | inr (run, known) ↦ elim (Bool-cases (is_run_cancelled run.status)) [
      | inl cancelled ↦ ground arith
      | inr going ↦ elim (Option-cases r.abort_reason) [
        | inr (reason, aborted) ↦ ground arith
        | inl none_yet ↦ ground (arith, take_node-guarded node r run known going none_yet)
      ]
    ]
  ]

  submit_node-guarded :
      (node : PlanNode) (r : Runner)
      → submit_node machine run_id node r ≡ submit_node other run_id node r
  unfolding submit_node
  submit_node-guarded node r = ground (arith, execute_node-guarded node r)

  submit_all-guarded :
      (nodes : List PlanNode) (r : Runner)
      → submit_all machine run_id nodes r ≡ submit_all other run_id nodes r
  unfolding submit_all
  submit_all-guarded [] r = refl
  submit_all-guarded (n ∷ ns) r =
      ground
        (arith, submit_node-guarded n r, submit_all-guarded ns (submit_node machine run_id n r).1)

  execute_batch-guarded :
      (nodes : List PlanNode) (r : Runner)
      → execute_batch machine run_id nodes r ≡ execute_batch other run_id nodes r
  unfolding execute_batch
  execute_batch-guarded [] r = refl
  execute_batch-guarded (n ∷ []) r = execute_node-guarded n r
  execute_batch-guarded (n ∷ m ∷ ns) r = submit_all-guarded (n ∷ m ∷ ns) r

  execute_levels-guarded :
      (nodes : List PlanNode) (ls : List ℕ) (r : Runner)
      → execute_levels machine run_id nodes ls r ≡ execute_levels other run_id nodes ls r
  unfolding execute_levels
  execute_levels-guarded nodes [] r = refl
  execute_levels-guarded nodes (l ∷ ls) r =
      >>=_agree (execute_batch machine run_id (batch_of l nodes))
        (execute_batch other run_id (batch_of l nodes)) _ _ r
        (execute_batch-guarded (batch_of l nodes) r) (λ a t. execute_levels-guarded nodes ls t)

  -- An agent is run only on a node that is ready: agents that agree on ready nodes, and differ in
  -- whatever else they do, lead `execute_plan` to the same result.
  pub execute_plan-guarded :
      (nodes : List PlanNode) (r : Runner)
      → execute_plan machine run_id nodes r ≡ execute_plan other run_id nodes r
  unfolding execute_plan
  execute_plan-guarded nodes r =
      >>=_agree (execute_levels machine run_id nodes (levels nodes))
        (execute_levels other run_id nodes (levels nodes)) _ _ r
        (execute_levels-guarded nodes (levels nodes) r) (λ a t. refl)
