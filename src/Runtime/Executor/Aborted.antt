-- ===== src/Runtime/Executor/Aborted.antt =====
-- A run that is aborted runs nothing more, and `resume` of pebs/engine.py finds what was left.
use pebs.Base.{
  ℕ, true, false, ◌||◌, ◌==◌, ◌≡◌, refl, ◌∙◌, some, List, [], ◌∷◌, Text, arith, contains, map, each,
  Some, ok, inl, inr,
}
use pebs.Store.Rows.{Run}
use pebs.Store.Runs.{run_for}
use pebs.Store.Listings.Sorted.{contains-sort_by}
use pebs.Planner.Contracts.{PlanNode}
use pebs.Engine.Recovery.{runs-set_step, contains-selected}
use pebs.Engine.Dispatch.{put_step, budget_blocked, is_run_cancelled}
use pebs.Runtime.Executor.Resumable.{contains-put_step, resumed-abort_error}
use pebs.Runtime.Executor.{
  Runner, Machine, abort_error, put_node_step, skip_after_abort, execute_node, submit_node,
  submit_all, execute_batch, batch_of, execute_levels,
}

-- The run is known, it is not cancelled, and it was aborted for the reason.
abbrev pub IsAborted : Text → Text → Runner → Type 0
IsAborted run_id reason r =
    (run : Run) × (run_for run_id r.world.store.runs ≡ some run)
    × (is_run_cancelled run.status ≡ false)
    × (r.abort_reason ≡ some reason)

module _ (machine : Machine) (run_id reason : Text) where
  skip : PlanNode → Runner → Runner
  skip n r = put_node_step run_id n (abort_error reason) r

  skip-IsAborted :
      (n : PlanNode) (r : Runner) → IsAborted run_id reason r → IsAborted run_id reason (skip n r)
  unfolding skip put_step
  skip-IsAborted n r (run, known, going, aborted) = (
    run,
    rw (runs-set_step r.world.now run_id n.node_id (abort_error reason) r.world.store) known,
    going,
    aborted,
  )

  skips-IsAborted :
      (ns : List PlanNode) (r : Runner)
      → IsAborted run_id reason r
      → IsAborted run_id reason (each skip ns r)
  unfolding each
  skips-IsAborted [] r a = a
  skips-IsAborted (n ∷ ns) r a = skips-IsAborted ns (skip n r) (skip-IsAborted n r a)

  execute_node-skip :
      (n : PlanNode) (r : Runner)
      → IsAborted run_id reason r
      → execute_node machine run_id n r ≡ (ok tt, skip n r)
  unfolding execute_node skip_after_abort skip
  execute_node-skip n r (run, known, going, aborted) = ground arith

  submit_node-skip :
      (n : PlanNode) (r : Runner)
      → IsAborted run_id reason r
      → submit_node machine run_id n r ≡ (ok tt, skip n r)
  unfolding submit_node skip_after_abort skip
  submit_node-skip n r (run, known, going, aborted) = ground arith

  submit_all-skip :
      (ns : List PlanNode) (r : Runner)
      → IsAborted run_id reason r
      → submit_all machine run_id ns r ≡ (ok tt, each skip ns r)
  unfolding submit_all each
  submit_all-skip [] r a = refl
  submit_all-skip (n ∷ ns) r a =
      ground (arith, submit_node-skip n r a, submit_all-skip ns (skip n r) (skip-IsAborted n r a))

  execute_batch-skip :
      (ns : List PlanNode) (r : Runner)
      → IsAborted run_id reason r
      → execute_batch machine run_id ns r ≡ (ok tt, each skip ns r)
  unfolding execute_batch each
  execute_batch-skip [] r a = refl
  execute_batch-skip (n ∷ []) r a = execute_node-skip n r a
  execute_batch-skip (n ∷ m ∷ ns) r a = submit_all-skip (n ∷ m ∷ ns) r a

  contains-skips :
      (i : Text) (ns : List PlanNode) (r : Runner)
      → contains i (budget_blocked run_id (each skip ns r).world.store) ≡ (
          contains i (map (λ (n : PlanNode). n.node_id) ns)
          || contains i (budget_blocked run_id r.world.store))
  unfolding each contains skip
  contains-skips i [] r = refl
  contains-skips i (n ∷ ns) r = ground (
    arith,
    contains-skips i ns (skip n r),
    contains-put_step run_id n.node_id i _ (resumed-abort_error reason) r.world,
  )

  abbrev levels_skipped : List PlanNode → List ℕ → Runner → Runner
  levels_skipped nodes ls r = each (λ l s. each skip (batch_of l nodes) s) ls r

  execute_levels-skip :
      (nodes : List PlanNode) (ls : List ℕ) (r : Runner)
      → IsAborted run_id reason r
      → execute_levels machine run_id nodes ls r ≡ (ok tt, levels_skipped nodes ls r)
  unfolding execute_levels each
  execute_levels-skip nodes [] r a = refl
  execute_levels-skip nodes (l ∷ ls) r a =
      let rest =
        execute_levels-skip nodes ls (each skip (batch_of l nodes) r)
          (skips-IsAborted (batch_of l nodes) r a) in
      rw (execute_batch-skip (batch_of l nodes) r a) rest

  levels_skipped-keeps :
      (i : Text) (nodes : List PlanNode) (ls : List ℕ) (r : Runner)
      → contains i (budget_blocked run_id r.world.store) ≡ true
      → contains i (budget_blocked run_id (levels_skipped nodes ls r).world.store) ≡ true
  unfolding each
  levels_skipped-keeps i nodes [] r h = h
  levels_skipped-keeps i nodes (l ∷ ls) r h =
      levels_skipped-keeps i nodes ls (each skip (batch_of l nodes) r)
        (ground (arith, contains-skips i (batch_of l nodes) r))

  batch_of-member :
      (nodes : List PlanNode) (n : PlanNode)
      → Some (λ m. m ≡ n) nodes
      → contains n.node_id (map (λ (m : PlanNode). m.node_id) (batch_of n.parallel_group nodes))
        ≡ true
  unfolding batch_of
  batch_of-member nodes n h =
      contains-sort_by (λ m. m.node_id) _ n.node_id _
      ∙ contains-selected (λ (m : PlanNode). m.node_id)
          (λ (m : PlanNode). m.parallel_group == n.parallel_group) nodes n h (ground arith)

  levels_skipped-resumable :
      (nodes : List PlanNode) (ls : List ℕ) (r : Runner) (n : PlanNode)
      → Some (λ m. m ≡ n) nodes
      → Some (λ l. l ≡ n.parallel_group) ls
      → contains n.node_id (budget_blocked run_id (levels_skipped nodes ls r).world.store) ≡ true
  unfolding each
  levels_skipped-resumable nodes [] r n h m = absurd m
  levels_skipped-resumable nodes (l ∷ ls) r n h (inl e) =
      levels_skipped-keeps n.node_id nodes ls (each skip (batch_of l nodes) r)
        (ground (arith, contains-skips n.node_id (batch_of l nodes) r, batch_of-member nodes n h))
  levels_skipped-resumable nodes (l ∷ ls) r n h (inr m) =
      levels_skipped-resumable nodes ls (each skip (batch_of l nodes) r) n h m

  -- From a run that is aborted and not cancelled the levels that are left run through without an
  -- error, and each node of these levels is among the steps that `resume` dispatches again.
  pub execute_levels-resumable :
      (nodes : List PlanNode) (ls : List ℕ) (r : Runner)
      → IsAborted run_id reason r
      → ((execute_levels machine run_id nodes ls r).0 ≡ ok tt)
        × ((n : PlanNode)
            → Some (λ m. m ≡ n) nodes
            → Some (λ l. l ≡ n.parallel_group) ls
            → contains n.node_id
                (budget_blocked run_id (execute_levels machine run_id nodes ls r).1.world.store)
              ≡ true)
  execute_levels-resumable nodes ls r a =
      rw (execute_levels-skip nodes ls r a) (refl, levels_skipped-resumable nodes ls r)
