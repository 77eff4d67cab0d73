-- ===== src/Planner/Order/Acyclic.antt =====
-- `topological_order` of pebs/planner/graph.py ends, and fails on cyclic plans only.
use pebs.Base.{
  ℕ, zero, suc, ◌+◌, ◌<◌, ◌≤◌, true, ◌≡◌, ◌≢◌, refl, sym, subst, ◌⊎◌, none, some, List, [], ◌∷◌,
  Text, arith, Result, ok, err, contains, All, Distinct, Option-cases, Result-cases, inl, inr,
  length, text_dec,
}
use pebs.Planner.Contracts.{PlanNode, PlannerError, dependency_cycle}
use pebs.Planner.Order.{
  Mark, visiting, Walk, mark_of, by_id, set_mark, finish, visit_deps, visit, visit_all, start,
  topological_order, sort_nodes,
}
use pebs.Planner.Order.Steps.{ids, is_known, node_id-by_id, Inv, Extends, set_mark-Inv}
use pebs.Planner.Order.Sound.{visit-Walks, start-Inv, All-sort_nodes, by_id-own}

-- The nodes that are not visited yet.
unmarked : Walk → List PlanNode → ℕ
unmarked w [] = 0
unmarked w (n ∷ rest) =
    elim (mark_of n.node_id w.visited) [ none ↦ 1 | some m ↦ 0 ] + unmarked w rest

unmarked-Extends :
    (w w' : Walk) (rest : List PlanNode) → Extends w w' → unmarked w' rest ≤ unmarked w rest
unfolding unmarked
unmarked-Extends w w' [] ext = omega arith
unmarked-Extends w w' (n ∷ rest) ext = elim (Option-cases (mark_of n.node_id w.visited)) [
  | inl e ↦ ground (arith, unmarked-Extends w w' rest ext)
  | inr (m, e) ↦ ground (arith, unmarked-Extends w w' rest ext, ext.keeps n.node_id m e)
]

unmarked-le_set :
    (n : PlanNode) (w : Walk) (rest : List PlanNode)
    → unmarked (set_mark n visiting w) rest ≤ unmarked w rest
unfolding unmarked mark_of
unmarked-le_set n w [] = omega arith
unmarked-le_set n w (x ∷ rest) = ground (arith, unmarked-le_set n w rest)

unmarked-lt_set :
    (n : PlanNode) (w : Walk) (rest : List PlanNode)
    → mark_of n.node_id w.visited ≡ none
    → by_id n.node_id rest ≡ some n
    → unmarked (set_mark n visiting w) rest < unmarked w rest
unfolding unmarked mark_of by_id
unmarked-lt_set n w [] fresh own = cc
unmarked-lt_set n w (x ∷ rest) fresh own =
    ground (arith, unmarked-lt_set n w rest, unmarked-le_set n w rest)

-- A result, or the error of a cycle.
abbrev Ended : {A : Type 0} → Result PlannerError A → Type 0
Ended {A} r = ((a : A) × (r ≡ ok a)) ⊎ ((x : Text) × (r ≡ err (dependency_cycle x)))

module _ (nodes : List PlanNode) where
  abbrev Ends : ℕ → Type 0
  Ends rounds =
      (n : PlanNode) (w : Walk)
      → by_id n.node_id nodes ≡ some n
      → Inv nodes w
      → unmarked w nodes < rounds
      → Ended (visit rounds nodes n w)

  own_of : (dep : Text) (n : PlanNode) → by_id dep nodes ≡ some n → by_id n.node_id nodes ≡ some n
  own_of dep n e = subst (λ id. by_id id nodes ≡ some n) (sym (node_id-by_id dep nodes n e)) e

  visit_deps-Ended :
      (rounds : ℕ)
      → Ends rounds
      → (deps : List Text) (w : Walk) → Inv nodes w
      → unmarked w nodes < rounds
      → Ended (visit_deps (visit rounds nodes) nodes deps w)
  unfolding visit_deps
  visit_deps-Ended rounds ends [] w inv enough = inl (w, refl)
  visit_deps-Ended rounds ends (dep ∷ deps) w inv enough = elim (Option-cases (by_id dep nodes)) [
    | inl unknown ↦ ground (arith, visit_deps-Ended rounds ends deps w inv enough)
    | inr (n, known) ↦ elim (ends n w (own_of dep n known) inv enough) [
      | inl (u, step) ↦
          let now = visit-Walks nodes rounds n w u (own_of dep n known) inv step in
          let later =
            visit_deps-Ended rounds ends deps u now.inv
              (omega (arith, unmarked-Extends w u nodes now.extends)) in
          ground arith
      | inr (x, cyclic) ↦ inr (x, ground arith)
    ]
  ]

  visit-Ends : (rounds : ℕ) → Ends rounds
  visit-Ends zero n w own inv enough = absurd (omega arith)
  visit-Ends (suc rounds) n w own inv enough = elim (Option-cases (mark_of n.node_id w.visited)) [
    | inl fresh ↦
        let below =
          visit_deps-Ended rounds (visit-Ends rounds) n.depends_on (set_mark n visiting w)
            (set_mark-Inv nodes n w fresh inv)
            (omega (arith, unmarked-lt_set n w nodes fresh own)) in
        elim below [
          | inl (u, e) ↦ inl (finish n u, unfold visit in ground arith)
          | inr (x, e) ↦ inr (x, unfold visit in ground arith)
        ]
    | inr (Mark.visiting, open_now) ↦ inr (n.node_id, unfold visit in ground arith)
    | inr (Mark.done, closed) ↦ inl (w, unfold visit in ground arith)
  ]

  visit_all-Ended :
      (rounds : ℕ) (rest : List PlanNode) (w : Walk)
      → All (λ n. by_id n.node_id nodes ≡ some n) rest
      → Inv nodes w
      → unmarked w nodes < rounds
      → Ended (visit_all rounds nodes rest w)
  unfolding visit_all
  visit_all-Ended rounds [] w own inv enough = inl (w, refl)
  visit_all-Ended rounds (n ∷ rest) w own inv enough =
      elim (visit-Ends rounds n w own.0 inv enough) [
        | inl (u, step) ↦
            let now = visit-Walks nodes rounds n w u own.0 inv step in
            let later =
              visit_all-Ended rounds rest u own.1 now.inv
                (omega (arith, unmarked-Extends w u nodes now.extends)) in
            elim later [ inl (v, e) ↦ inl (v, ground arith) | inr (x, e) ↦ inr (x, ground arith) ]
        | inr (x, cyclic) ↦ inr (x, ground arith)
      ]

unmarked-start : (nodes : List PlanNode) → unmarked start nodes ≡ length nodes
unfolding unmarked mark_of
unmarked-start [] = refl
unmarked-start (n ∷ nodes) = omega (arith, unmarked-start nodes)

-- For nodes with distinct identifiers the walk never runs out of rounds: it returns an order or
-- reports a cycle.
pub topological_order_total :
    (nodes : List PlanNode)
    → Distinct (ids nodes)
    → ((ordered : List PlanNode) × (topological_order nodes ≡ ok ordered))
      ⊎ ((x : Text) × (topological_order nodes ≡ err (dependency_cycle x)))
unfolding topological_order
topological_order_total nodes d =
    let own = All-sort_nodes (λ n. by_id n.node_id nodes ≡ some n) nodes (by_id-own nodes d) in
    elim (visit_all-Ended nodes (suc (length nodes)) (sort_nodes nodes) start own (start-Inv nodes)
      (omega (arith, unmarked-start nodes))) [
        | inl (w, e) ↦ inl (w.ordered, ground arith)
        | inr (x, e) ↦ inr (x, ground arith)
      ]

-- `rank` puts each node of the plan above the nodes that it depends on: there is no cycle.
abbrev pub IsRanked : (Text → ℕ) → List PlanNode → Type 0
IsRanked rank nodes =
    All (λ n. All (λ dep. is_known nodes dep ≡ true → rank dep < rank n.node_id) n.depends_on) nodes

All-by_id :
    (P : PlanNode → Type 0) (id : Text) (nodes : List PlanNode) (n : PlanNode)
    → All P nodes
    → by_id id nodes ≡ some n
    → P n
unfolding by_id
All-by_id P id [] n h e = cc
All-by_id P id (x ∷ nodes) n h e = elim (Option-cases (by_id id nodes)) [
  | inl absent ↦ let here : x ≡ n = ground arith in subst P here h.0
  | inr (m, later) ↦ All-by_id P id nodes n h.1 (ground arith)
]

All-contains :
    (P : Text → Type 0) (d : Text) (xs : List Text) → All P xs → contains d xs ≡ true → P d
unfolding contains
All-contains P d [] h m = cc
All-contains P d (x ∷ xs) h m = elim (text_dec d x) [
  | yes e ↦ subst P (sym e) h.0
  | no differ ↦ All-contains P d xs h.1 (ground arith)
]

ranked_at :
    (rank : Text → ℕ) (nodes : List PlanNode) (n : PlanNode) (dep : Text)
    → IsRanked rank nodes
    → by_id n.node_id nodes ≡ some n
    → contains dep n.depends_on ≡ true
    → is_known nodes dep ≡ true
    → rank dep < rank n.node_id
ranked_at rank nodes n dep h own m =
    All-contains (λ d. is_known nodes d ≡ true → rank d < rank n.node_id) dep n.depends_on
      (All-by_id (λ k. All (λ d. is_known nodes d ≡ true → rank d < rank k.node_id) k.depends_on)
        n.node_id nodes n h own)
      m

module _ (nodes : List PlanNode) (rank : Text → ℕ) (ranked : IsRanked rank nodes) (x : Text) where
  -- Whatever is being visited ranks above `bound`.
  abbrev OpenAbove : ℕ → Walk → Type 0
  OpenAbove bound w = (y : Text) → mark_of y w.visited ≡ some visiting → bound < rank y

  abbrev NoCycle : ℕ → Type 0
  NoCycle rounds =
      (n : PlanNode) (w : Walk)
      → by_id n.node_id nodes ≡ some n
      → Inv nodes w
      → OpenAbove (rank n.node_id) w
      → visit rounds nodes n w ≢ err (dependency_cycle x)

  visit_deps-NoCycle :
      (rounds : ℕ)
      → NoCycle rounds
      → (deps : List Text) (w : Walk) → Inv nodes w
      → ((dep : Text)
          → contains dep deps ≡ true
          → is_known nodes dep ≡ true
          → OpenAbove (rank dep) w)
      → visit_deps (visit rounds nodes) nodes deps w ≢ err (dependency_cycle x)
  unfolding visit_deps contains
  visit_deps-NoCycle rounds none_below [] w inv above h = cc
  visit_deps-NoCycle rounds none_below (dep ∷ deps) w inv above h =
      elim (Option-cases (by_id dep nodes)) [
        | inl unknown ↦
            visit_deps-NoCycle rounds none_below deps w inv (λ d m k. above d (ground arith) k)
              (ground arith)
        | inr (n, known) ↦
            let here = node_id-by_id dep nodes n known in
            let own = own_of nodes dep n known in
            elim (Result-cases (visit rounds nodes n w)) [
              | inl (u, step) ↦
                  let now = visit-Walks nodes rounds n w u own inv step in
                  visit_deps-NoCycle rounds none_below deps u now.inv
                    (λ d m k y open_now. above d (ground arith) k y (now.extends.closes y open_now))
                    (ground arith)
              | inr (e, failed) ↦
                  none_below n w own inv
                    (λ y open_now.
                      ground (arith, above dep (ground arith) (ground arith) y open_now))
                    (ground arith)
            ]
      ]

  visit-NoCycle : (rounds : ℕ) → NoCycle rounds
  visit-NoCycle zero n w own inv above h = unfold visit in cc
  visit-NoCycle (suc rounds) n w own inv above h =
      elim (Option-cases (mark_of n.node_id w.visited)) [
        | inl fresh ↦
            visit_deps-NoCycle rounds (visit-NoCycle rounds) n.depends_on (set_mark n visiting w)
              (set_mark-Inv nodes n w fresh inv)
              (λ dep m k y open_now.
                let low = ranked_at rank nodes n dep ranked own m k in
                elim (text_dec n.node_id y) [
                  | yes same_node ↦ ground arith
                  | no other ↦ let up = above y (unfold mark_of in ground arith) in omega arith
                ])
              (elim (Result-cases
                (visit_deps (visit rounds nodes) nodes n.depends_on (set_mark n visiting w))) [
                  | inl (u, e) ↦ absurd (unfold visit in ground arith)
                  | inr (e, failed) ↦ unfold visit in ground arith
                ])
        | inr (Mark.visiting, open_now) ↦ let low = above n.node_id open_now in omega arith
        | inr (Mark.done, closed) ↦ unfold visit in ground arith
      ]

  visit_all-NoCycle :
      (rounds : ℕ) (rest : List PlanNode) (w : Walk)
      → All (λ n. by_id n.node_id nodes ≡ some n) rest
      → Inv nodes w
      → ((y : Text) → mark_of y w.visited ≢ some visiting)
      → visit_all rounds nodes rest w ≢ err (dependency_cycle x)
  unfolding visit_all
  visit_all-NoCycle rounds [] w own inv closed h = cc
  visit_all-NoCycle rounds (n ∷ rest) w own inv closed h =
      elim (Result-cases (visit rounds nodes n w)) [
        | inl (u, step) ↦
            let now = visit-Walks nodes rounds n w u own.0 inv step in
            visit_all-NoCycle rounds rest u own.1 now.inv
              (λ y open_now. closed y (now.extends.closes y open_now)) (ground arith)
        | inr (e, failed) ↦
            visit-NoCycle rounds n w own.0 inv (λ y open_now. absurd (closed y open_now))
              (ground arith)
      ]

-- A plan with distinct identifiers whose dependencies can be ranked, so one without a cycle, gets
-- an order.
pub topological_order-acyclic :
    (nodes : List PlanNode) (rank : Text → ℕ)
    → Distinct (ids nodes)
    → IsRanked rank nodes
    → (ordered : List PlanNode) × (topological_order nodes ≡ ok ordered)
topological_order-acyclic nodes rank d ranked =
    let own = All-sort_nodes (λ n. by_id n.node_id nodes ≡ some n) nodes (by_id-own nodes d) in
    elim (topological_order_total nodes d) [
      | inl ordered ↦ ordered
      | inr (x, e) ↦ absurd (
          visit_all-NoCycle nodes rank ranked x (suc (length nodes)) (sort_nodes nodes) start own
            (start-Inv nodes) (λ y. unfold mark_of in λ h. cc) (walk_failed nodes x e))
    ]
  where
    walk_failed :
        (nodes : List PlanNode) (x : Text)
        → topological_order nodes ≡ err (dependency_cycle x)
        → visit_all (suc (length nodes)) nodes (sort_nodes nodes) start ≡ err (dependency_cycle x)
    walk_failed nodes x e = unfold topological_order in ground arith
