-- ===== src/Planner/Order/Sound.antt =====
-- What `topological_order` of pebs/planner/graph.py returns is an order of the plan's nodes.
use pebs.Base.{
  ℕ, zero, suc, true, ◌≡◌, refl, sym, subst, none, some, List, [], ◌∷◌, Text, same, arith, Result,
  ok, contains, All, All-map, Distinct, Option-cases, Result-cases, inl, inr, length, text_leb,
  Bool-cases, ◌||◌,
}
use pebs.Planner.Contracts.{PlanNode, PlannerError}
use pebs.Planner.Order.{
  Mark, visiting, done, Walk, mark_of, by_id, set_mark, finish, visit_deps, visit, visit_all, start,
  topological_order, sort_nodes, insert_node,
}
use pebs.Planner.Order.Steps.{
  ids, is_known, DepsBefore, node_id-by_id, Inv, Extends, Extends-refl, Extends-trans, set_mark-Inv,
  finish-Inv,
}

module _ (nodes : List PlanNode) where
  pub record Visited (n : PlanNode) (w w' : Walk) : Type 0 where
    pub inv : Inv nodes w'
    pub extends : Extends w w'
    pub done_now : mark_of n.node_id w'.visited ≡ some done

  abbrev pub Walks : (PlanNode → Walk → Result PlannerError Walk) → Type 0
  Walks go =
      (n : PlanNode) (w w' : Walk)
      → by_id n.node_id nodes ≡ some n
      → Inv nodes w
      → go n w ≡ ok w'
      → Visited n w w'

  record AllVisited (deps : List Text) (w w' : Walk) : Type 0 where
    pub inv : Inv nodes w'
    pub extends : Extends w w'
    pub done_now :
        (dep : Text)
        → contains dep deps ≡ true
        → is_known nodes dep ≡ true
        → mark_of dep w'.visited ≡ some done

  visit_deps-AllVisited :
      (go : PlanNode → Walk → Result PlannerError Walk)
      → Walks go
      → (deps : List Text) (w w' : Walk) → Inv nodes w
      → visit_deps go nodes deps w ≡ ok w'
      → AllVisited deps w w'
  unfolding visit_deps contains
  visit_deps-AllVisited go walks [] w w' inv h = record {
    inv = ground arith;
    extends = record { keeps = λ x m k. ground arith; closes = λ x k. ground arith };
    done_now = λ dep m. cc;
  }
  visit_deps-AllVisited go walks (dep ∷ deps) w w' inv h = elim (Option-cases (by_id dep nodes)) [
    | inl unknown ↦
        let later = visit_deps-AllVisited go walks deps w w' inv (ground arith) in
        record {
          inv = later.inv;
          extends = later.extends;
          done_now = λ d m k. ground (arith, later.done_now d);
        }
    | inr (n, known) ↦ elim (Result-cases (go n w)) [
      | inl (u, step) ↦
          let here = node_id-by_id dep nodes n known in
          let now = walks n w u (subst (λ id. by_id id nodes ≡ some n) (sym here) known) inv step in
          let later = visit_deps-AllVisited go walks deps u w' now.inv (ground arith) in
          record {
            inv = later.inv;
            extends = Extends-trans now.extends later.extends;
            done_now =
                λ d m k. ground (arith, later.done_now d, later.extends.keeps d done, now.done_now);
          }
      | inr (e, failed) ↦ absurd (ground arith)
    ]
  ]

  visit-unmarked :
      (rounds : ℕ) (n : PlanNode) (w w' : Walk)
      → mark_of n.node_id w.visited ≡ none
      → visit (suc rounds) nodes n w ≡ ok w'
      → (u : Walk) × (visit_deps (visit rounds nodes) nodes n.depends_on (set_mark n visiting w)
          ≡ ok u)
        × (w' ≡ finish n u)
  unfolding visit
  visit-unmarked rounds n w w' fresh h =
      elim (Result-cases
        (visit_deps (visit rounds nodes) nodes n.depends_on (set_mark n visiting w))) [
          | inl (u, e) ↦ (u, e, ground arith)
          | inr (e, failed) ↦ absurd (ground arith)
        ]

  finish-Extends :
      (n : PlanNode) (w u : Walk)
      → mark_of n.node_id w.visited ≡ none
      → Extends (set_mark n visiting w) u
      → Extends w (finish n u)
  unfolding mark_of
  finish-Extends n w u fresh later = record {
    keeps = λ x m h. ground (arith, later.keeps x m);
    closes = λ x h. ground (arith, later.closes x);
  }

  pub visit-Walks : (rounds : ℕ) → Walks (visit rounds nodes)
  visit-Walks zero n w w' own inv h = unfold visit in cc
  visit-Walks (suc rounds) n w w' own inv h = elim (Option-cases (mark_of n.node_id w.visited)) [
    | inl fresh ↦
        let (u, below, ends) = visit-unmarked rounds n w w' fresh h in
        let deps =
          visit_deps-AllVisited (visit rounds nodes) (visit-Walks rounds) n.depends_on
            (set_mark n visiting w) u (set_mark-Inv nodes n w fresh inv) below in
        let still : mark_of n.node_id u.visited ≡ some visiting =
          deps.extends.keeps n.node_id visiting (unfold mark_of in ground arith) in
        rw ends (record {
          inv = finish-Inv nodes n u still own deps.done_now deps.inv;
          extends = finish-Extends n w u fresh deps.extends;
          done_now = unfold mark_of in ground arith;
        })
    | inr (Mark.visiting, open_now) ↦ absurd (unfold visit in ground arith)
    | inr (Mark.done, closed) ↦
        let same_walk : w' ≡ w = unfold visit in ground arith in
        rw same_walk (record { inv = inv; extends = Extends-refl w; done_now = closed })
  ]

  record AllDone (rest : List PlanNode) (w w' : Walk) : Type 0 where
    pub inv : Inv nodes w'
    pub extends : Extends w w'
    pub done_now : All (λ n. mark_of n.node_id w'.visited ≡ some done) rest

  visit_all-AllDone :
      (rounds : ℕ) (rest : List PlanNode) (w w' : Walk)
      → All (λ n. by_id n.node_id nodes ≡ some n) rest
      → Inv nodes w
      → visit_all rounds nodes rest w ≡ ok w'
      → AllDone rest w w'
  unfolding visit_all
  visit_all-AllDone rounds [] w w' own inv h =
      let same_walk : w' ≡ w = ground arith in
      rw same_walk (record { inv = inv; extends = Extends-refl w; done_now = tt })
  visit_all-AllDone rounds (n ∷ rest) w w' own inv h =
      elim (Result-cases (visit rounds nodes n w)) [
        | inl (u, step) ↦
            let now = visit-Walks rounds n w u own.0 inv step in
            let later = visit_all-AllDone rounds rest u w' own.1 now.inv (ground arith) in
            record {
              inv = later.inv;
              extends = Extends-trans now.extends later.extends;
              done_now = (later.extends.keeps n.node_id done now.done_now, later.done_now);
            }
        | inr (e, failed) ↦ absurd (ground arith)
      ]

pub start-Inv : (nodes : List PlanNode) → Inv nodes start
unfolding mark_of contains
start-Inv nodes = record { listed = λ x. (λ h. cc, λ h. cc); before = tt; ours = tt; distinct = tt }

All-insert_node :
    (P : PlanNode → Type 0) (n : PlanNode) (xs : List PlanNode)
    → P n
    → All P xs
    → All P (insert_node n xs)
unfolding insert_node
All-insert_node P n [] p h = (p, tt)
All-insert_node P n (x ∷ xs) p h = elim (Bool-cases (text_leb n.node_id x.node_id)) [
  | inl low ↦ rw low (p, h)
  | inr high ↦ rw high (h.0, All-insert_node P n xs p h.1)
]

pub All-sort_nodes : (P : PlanNode → Type 0) (xs : List PlanNode) → All P xs → All P (sort_nodes xs)
unfolding sort_nodes
All-sort_nodes P [] h = tt
All-sort_nodes P (x ∷ xs) h = All-insert_node P x (sort_nodes xs) h.0 (All-sort_nodes P xs h.1)

contains-insert_node :
    (a : Text) (n : PlanNode) (xs : List PlanNode)
    → contains a (ids (insert_node n xs)) ≡ (same a n.node_id || contains a (ids xs))
unfolding insert_node contains
contains-insert_node a n [] = refl
contains-insert_node a n (x ∷ xs) = ground (arith, contains-insert_node a n xs)

pub contains-sort_nodes :
    (a : Text) (xs : List PlanNode) → contains a (ids (sort_nodes xs)) ≡ contains a (ids xs)
unfolding sort_nodes contains
contains-sort_nodes a [] = refl
contains-sort_nodes a (x ∷ xs) =
    ground (arith, contains-insert_node a x (sort_nodes xs), contains-sort_nodes a xs)

pub by_id-known : (id : Text) (nodes : List PlanNode) → is_known nodes id ≡ contains id (ids nodes)
unfolding by_id contains
by_id-known id [] = refl
by_id-known id (n ∷ nodes) = ground (arith, by_id-known id nodes)

pub by_id-own :
    (nodes : List PlanNode) → Distinct (ids nodes) → All (λ n. by_id n.node_id nodes ≡ some n) nodes
unfolding by_id
by_id-own [] d = tt
by_id-own (x ∷ nodes) d = (
  ground (arith, by_id-known x.node_id nodes),
  All-map nodes (λ n h. ground arith) (by_id-own nodes d.1),
)

mark-contains :
    (a : Text) (xs : List PlanNode) (w : Walk)
    → All (λ n. mark_of n.node_id w.visited ≡ some done) xs
    → contains a (ids xs) ≡ true
    → mark_of a w.visited ≡ some done
unfolding contains
mark-contains a [] w h m = cc
mark-contains a (x ∷ xs) w h m = ground (arith, mark-contains a xs w)

own-contains :
    (a : Text) (nodes xs : List PlanNode)
    → All (λ n. by_id n.node_id nodes ≡ some n) xs
    → contains a (ids xs) ≡ true
    → contains a (ids nodes) ≡ true
unfolding contains
own-contains a nodes [] h m = cc
own-contains a nodes (x ∷ xs) h m = ground (arith, own-contains a nodes xs, by_id-known a nodes)

-- An order of the plan: every node once and as it was given, behind the nodes it depends on.
pub record IsOrderOf (nodes ordered : List PlanNode) : Type 0 where
  pub before : DepsBefore nodes [] ordered
  pub ours : All (λ n. by_id n.node_id nodes ≡ some n) ordered
  pub distinct : Distinct (ids ordered)
  pub complete : (id : Text) → contains id (ids ordered) ≡ contains id (ids nodes)

-- For nodes with distinct identifiers, what `topological_order` returns holds every node of the plan
-- once, as it was given, and each one behind those of its dependencies that are nodes of the plan.
pub topological_order-IsOrderOf :
    (nodes ordered : List PlanNode)
    → Distinct (ids nodes)
    → topological_order nodes ≡ ok ordered
    → IsOrderOf nodes ordered
unfolding topological_order
topological_order-IsOrderOf nodes ordered d h =
    elim (Result-cases (visit_all (suc (length nodes)) nodes (sort_nodes nodes) start)) [
      | inl (w, e) ↦
          let all =
            visit_all-AllDone nodes (suc (length nodes)) (sort_nodes nodes) start w
              (All-sort_nodes (λ n. by_id n.node_id nodes ≡ some n) nodes (by_id-own nodes d))
              (start-Inv nodes) e in
          let returned : ordered ≡ w.ordered = ground arith in
          rw returned (record {
            before = all.inv.before;
            ours = all.inv.ours;
            distinct = all.inv.distinct;
            complete = λ id. ground (
              arith,
              own-contains id nodes w.ordered all.inv.ours,
              contains-sort_nodes id nodes,
              mark-contains id (sort_nodes nodes) w all.done_now,
              (all.inv.listed id).0,
            );
          })
      | inr (x, failed) ↦ absurd (ground arith)
    ]
