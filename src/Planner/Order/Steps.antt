-- ===== src/Planner/Order/Steps.antt =====
-- The invariant of the walk in `topological_order` of pebs/planner/graph.py.
use pebs.Base.{
  Bool, true, false, ◌≡◌, ◌↔◌, none, some, List, [], ◌∷◌, ◌++◌, map, Text, arith, contains,
  contains-append, All, All-append, Distinct, Distinct-snoc, map-snoc,
}
use pebs.Planner.Contracts.{PlanNode}
use pebs.Planner.Order.{Mark, visiting, done, Walk, mark_of, by_id, set_mark, finish}

abbrev pub ids : List PlanNode → List Text
ids nodes = map (λ n. n.node_id) nodes

abbrev pub is_known : List PlanNode → Text → Bool
is_known nodes id = elim (by_id id nodes) [ none ↦ false | some n ↦ true ]

-- Each node stands behind the nodes of the plan that it depends on.
abbrev pub DepsBefore : List PlanNode → List Text → List PlanNode → Type 0
DepsBefore nodes seen [] = Unit
DepsBefore nodes seen (n ∷ rest) =
    ((dep : Text)
      → contains dep n.depends_on ≡ true
      → is_known nodes dep ≡ true
      → contains dep seen ≡ true)
    × DepsBefore nodes (n.node_id ∷ seen) rest

pub node_id-by_id :
    (id : Text) (nodes : List PlanNode) (n : PlanNode) → by_id id nodes ≡ some n → n.node_id ≡ id
unfolding by_id
node_id-by_id id [] n h = cc
node_id-by_id id (x ∷ nodes) n h = ground (arith, node_id-by_id id nodes n)

DepsBefore-snoc :
    (nodes : List PlanNode) (seen : List Text) (xs : List PlanNode) (n : PlanNode)
    → DepsBefore nodes seen xs
    → ((dep : Text)
        → contains dep n.depends_on ≡ true
        → is_known nodes dep ≡ true
        → contains dep (seen ++ ids xs) ≡ true)
    → DepsBefore nodes seen (xs ++ n ∷ [])
unfolding contains
DepsBefore-snoc nodes seen [] n h k =
    (λ dep m kn. ground (arith, k dep, contains-append dep seen []), tt)
DepsBefore-snoc nodes seen (x ∷ xs) n h k = (
  h.0,
  DepsBefore-snoc nodes (x.node_id ∷ seen) xs n h.1 (λ dep m kn. ground (
    arith,
    k dep m kn,
    contains-append dep seen (ids (x ∷ xs)),
    contains-append dep (x.node_id ∷ seen) (ids xs),
  )),
)

module _ (nodes : List PlanNode) where
  pub record Inv (w : Walk) : Type 0 where
    pub listed :
        (x : Text) → (mark_of x w.visited ≡ some done) ↔ (contains x (ids w.ordered) ≡ true)
    pub before : DepsBefore nodes [] w.ordered
    pub ours : All (λ n. by_id n.node_id nodes ≡ some n) w.ordered
    pub distinct : Distinct (ids w.ordered)

-- Marks are not taken back, and every mark that is added becomes 2.
pub record Extends (w w' : Walk) : Type 0 where
  pub keeps : (x : Text) (m : Mark) → mark_of x w.visited ≡ some m → mark_of x w'.visited ≡ some m
  pub closes :
      (x : Text) → mark_of x w'.visited ≡ some visiting → mark_of x w.visited ≡ some visiting

pub Extends-refl : (w : Walk) → Extends w w
Extends-refl w = record { keeps = λ x m h. h; closes = λ x h. h }

pub Extends-trans : {u v w : Walk} → Extends u v → Extends v w → Extends u w
Extends-trans a b = record {
  keeps = λ x m h. b.keeps x m (a.keeps x m h);
  closes = λ x h. a.closes x (b.closes x h);
}

module _ (nodes : List PlanNode) (n : PlanNode) (w : Walk) where
  pub set_mark-Inv :
      mark_of n.node_id w.visited ≡ none → Inv nodes w → Inv nodes (set_mark n visiting w)
  unfolding mark_of
  set_mark-Inv fresh inv = record {
    listed = λ x. (λ h. ground (arith, (inv.listed x).0), λ h. ground (arith, (inv.listed x).1));
    before = inv.before;
    ours = inv.ours;
    distinct = inv.distinct;
  }

  pub finish-Inv :
      mark_of n.node_id w.visited ≡ some visiting
      → by_id n.node_id nodes ≡ some n
      → ((dep : Text)
          → contains dep n.depends_on ≡ true
          → is_known nodes dep ≡ true
          → mark_of dep w.visited ≡ some done)
      → Inv nodes w
      → Inv nodes (finish n w)
  unfolding mark_of contains
  finish-Inv open_now own deps inv =
      let outside : contains n.node_id (ids w.ordered) ≡ false =
        ground (arith, (inv.listed n.node_id).1) in
      record {
        listed = λ x.
            let snoc = map-snoc (λ (m : PlanNode). m.node_id) n w.ordered in
            let splits = contains-append x (ids w.ordered) (n.node_id ∷ []) in
            (
              λ h. rw (snoc, splits) (ground (arith, (inv.listed x).0)),
              λ h. ground (arith, (inv.listed x).1, rw (snoc, splits) at h),
            );
        before =
            DepsBefore-snoc nodes [] w.ordered n inv.before
              (λ dep m kn. (inv.listed dep).0 (deps dep m kn));
        ours =
            All-append (λ m. by_id m.node_id nodes ≡ some m) w.ordered (n ∷ []) inv.ours (own, tt);
        distinct =
            rw (map-snoc (λ (m : PlanNode). m.node_id) n w.ordered)
              (Distinct-snoc n.node_id _ inv.distinct outside);
      }
