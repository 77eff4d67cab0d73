-- ===== src/Planner/Expand/Ranked/Ends.antt =====
-- The loop of `expand_graph` of pebs/planner/graph.py uses up what its rounds cost.
use pebs.Base.{
  ℕ, zero, suc, ◌+◌, ◌≤◌, ◌<◌, true, false, not, ◌&&◌, ◌≡◌, ◌≢◌, refl, ap, subst, none, some, [],
  ◌∷◌, ◌++◌, Text, codes, arith, contains, length, All, All-append, All-map, ok, err, Option-cases,
  Result-cases, Bool-cases, inl, inr,
}
use pebs.Planner.Contracts.{out_of_rounds}
use pebs.Planner.Expand.{
  Goal, Wanted, Chosen, Expansion, enqueue_gates, reuse_existing, wanted_inputs, produce,
  expand_one, expand_loop,
}
use pebs.Planner.Expand.Ranked.{
  IsRanked, cost, cost-positive, queue_cost, gates_cost, rounds_for, queue_cost-append,
  queue_cost-times, le_trans, length-picked, append-le, none-below, All-select, All-of-map,
}

module _ (goal : Goal) (rank : Text → ℕ) (width : ℕ) (ranked : IsRanked goal rank width) where
  wanted-lower :
      (w : Wanted) (c : Chosen)
      → goal.choose w.artifact ≡ some c
      → All (λ v. rank v.artifact < rank w.artifact) (wanted_inputs goal w c)
  unfolding wanted_inputs
  wanted-lower w c made =
      All-append _ _ _
        (All-of-map _ _ _
          (All-select _ _ c.skill.requires (ranked.requires_lower w.artifact c made)))
        (All-of-map _ _ _
          (All-select _ _ c.skill.optional_requires (ranked.optional_lower w.artifact c made)))

  length-wanted_inputs :
      (w : Wanted) (c : Chosen)
      → goal.choose w.artifact ≡ some c
      → length (wanted_inputs goal w c) ≤ width
  unfolding wanted_inputs
  length-wanted_inputs w c made =
      let both =
        append-le _ _ (length c.skill.requires) (length c.skill.optional_requires)
          (length-picked _ _ c.skill.requires) (length-picked _ _ c.skill.optional_requires) in
      le_trans both (ranked.few w.artifact c made)

  wanted-cost :
      (w : Wanted) (c : Chosen) (r : ℕ)
      → goal.choose w.artifact ≡ some c
      → rank w.artifact ≡ r
      → queue_cost rank width (wanted_inputs goal w c) < cost width r
  wanted-cost w c zero made e =
      let low : All (λ v. rank v.artifact < 0) (wanted_inputs goal w c) =
        subst (λ n. All (λ v. rank v.artifact < n) (wanted_inputs goal w c)) e
          (wanted-lower w c made) in
      rw (none-below (λ v. rank v.artifact) (wanted_inputs goal w c) low)
        (omega (arith, cost-positive width zero))
  wanted-cost w c (suc r) made e =
      let low : All (λ v. rank v.artifact < suc r) (wanted_inputs goal w c) =
        subst (λ n. All (λ v. rank v.artifact < n) (wanted_inputs goal w c)) e
          (wanted-lower w c made) in
      unfold cost in
      omega (
        arith,
        queue_cost-times rank width (wanted_inputs goal w c) r width
            (All-map (wanted_inputs goal w c) (λ v h. omega (arith, h)) low)
            (length-wanted_inputs w c made),
      )

  -- A round takes at least one off what is left to do.
  expand_one-cost :
      (w : Wanted) (x y : Expansion)
      → expand_one goal w x ≡ ok y
      → (queue_cost rank width y.queue
          < cost width (rank w.artifact) + queue_cost rank width x.queue)
        × (y.gates_enqueued ≡ x.gates_enqueued)
  unfolding expand_one reuse_existing produce
  expand_one-cost w x y h = elim (Bool-cases (contains w.artifact goal.exclude_artifacts)) [
    | inl excluded ↦
        let kept : y ≡ x = ground arith in
        (
          omega (
            arith,
            cost-positive width (rank w.artifact),
            ap (λ z. queue_cost rank width z.queue) kept,
          ),
          ap (λ z. z.gates_enqueued) kept,
        )
    | inr wanted ↦ elim (Bool-cases (contains w.artifact goal.existing_satisfied)) [
      | inl exists_already ↦
          let kept : y ≡ reuse_existing goal w x = ground arith in
          (
            omega (
              arith,
              cost-positive width (rank w.artifact),
              ap (λ z. queue_cost rank width z.queue) kept,
            ),
            ap (λ z. z.gates_enqueued) kept,
          )
      | inr missing ↦ elim (Option-cases (goal.choose w.artifact)) [
        | inl unmade ↦ absurd (ground arith)
        | inr (c, made) ↦
            let grown : y.queue ≡ x.queue ++ wanted_inputs goal w c = ground arith in
            (
              omega (
                arith,
                ap (queue_cost rank width) grown,
                queue_cost-append rank width x.queue (wanted_inputs goal w c),
                wanted-cost w c (rank w.artifact) made refl,
              ),
              ground arith,
            )
      ]
    ]
  ]

  expand_one-ends : (w : Wanted) (x : Expansion) → expand_one goal w x ≢ err out_of_rounds
  unfolding expand_one produce
  expand_one-ends w x h = ground arith

  enqueue_gates-cost :
      (x : Expansion) → rounds_for rank width (enqueue_gates x) ≡ rounds_for rank width x
  unfolding enqueue_gates
  enqueue_gates-cost x =
      elim (Bool-cases (not x.gates_enqueued && contains (codes "script") x.produced_outputs)) [
        | inl now ↦
            let gates : Wanted = record {
              artifact = codes "gate_result";
              required_by = none;
              optional_chain = false;
            } in
            let queued : (enqueue_gates x).queue ≡ x.queue ++ gates ∷ [] = ground arith in
            let on : (enqueue_gates x).gates_enqueued ≡ true = ground arith in
            let off : x.gates_enqueued ≡ false = ground arith in
            omega (
              arith,
              ap (queue_cost rank width) queued,
              queue_cost-append rank width x.queue (gates ∷ []),
              ap (gates_cost rank width) on,
              ap (gates_cost rank width) off,
            )
        | inr idle ↦
            let stays : enqueue_gates x ≡ x = ground arith in ap (rounds_for rank width) stays
      ]

  -- Enough rounds for what is left to do, and the loop does not run out of them.
  pub expand_loop-ends :
      (rounds : ℕ) (x : Expansion)
      → rounds_for rank width x < rounds
      → expand_loop rounds goal x ≢ err out_of_rounds
  unfolding expand_loop
  expand_loop-ends zero x enough h = omega (arith, enough)
  expand_loop-ends (suc rounds) x enough h =
      let next = enqueue_gates x in
      elim x.queue as (λ q. x.queue ≡ q → ⊥) [
        | [] ↦ λ empty. ground arith
        | a ∷ q ↦ λ some_queue.
            elim next.queue as (λ r. next.queue ≡ r → ⊥) [
              | [] ↦ λ empty. ground arith
              | w ∷ rest ↦ λ first.
                  elim (Result-cases (expand_one goal w (record next { queue = rest }))) [
                    | inr (e, failed) ↦
                        expand_one-ends w (record next { queue = rest }) (ground arith)
                    | inl (y, done) ↦
                        let step = expand_one-cost w (record next { queue = rest }) y done in
                        expand_loop-ends rounds y
                          (omega (
                            arith,
                            step.0,
                            ap (gates_cost rank width) step.1,
                            enqueue_gates-cost x,
                            ap (queue_cost rank width) first,
                          ))
                          (ground arith)
                  ]
            ]
              refl
      ]
        refl
