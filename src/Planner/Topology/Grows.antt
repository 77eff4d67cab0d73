-- ===== src/Planner/Topology/Grows.antt =====
-- What the loops of `apply_gate_topology` of pebs/planner/graph.py keep: they only add dependencies.
use pebs.Base.{
  true, false, ◌&&◌, ◌≡◌, refl, ◌∙◌, none, some, List, [], ◌∷◌, Text, same, arith, Some, map,
  contains, union, each, amend, any, row_for, contains-sorted, contains-union, inl, inr,
}
use pebs.Planner.Contracts.{PlanNode}
use pebs.Planner.Topology.{add_dependency, depend, is_filled, has_node}

-- A node but for its dependencies.
abbrev pub bare : PlanNode → PlanNode
bare n = record n { depends_on = [] }

abbrev pub deps_of : Text → List PlanNode → List Text
deps_of id nodes = elim (row_for (λ n. n.node_id) id nodes) [ none ↦ [] | some n ↦ n.depends_on ]

-- The nodes are the same but for dependencies that are added, none of them on the node itself or on
-- an empty name.
pub record Grows (nodes nodes' : List PlanNode) : Type 0 where
  pub same_nodes : map bare nodes' ≡ map bare nodes
  pub keeps :
      (t x : Text) → contains x (deps_of t nodes) ≡ true → contains x (deps_of t nodes') ≡ true
  pub alone : (t : Text) → contains t (deps_of t nodes') ≡ contains t (deps_of t nodes)
  pub named : (t : Text) → contains [] (deps_of t nodes') ≡ contains [] (deps_of t nodes)

pub Grows-refl : (nodes : List PlanNode) → Grows nodes nodes
Grows-refl nodes = record {
  same_nodes = refl;
  keeps = λ t x h. h;
  alone = λ t. refl;
  named = λ t. refl;
}

pub Grows-trans : {a b c : List PlanNode} → Grows a b → Grows b c → Grows a c
Grows-trans g h = record {
  same_nodes = h.same_nodes ∙ g.same_nodes;
  keeps = λ t x k. h.keeps t x (g.keeps t x k);
  alone = λ t. h.alone t ∙ g.alone t;
  named = λ t. h.named t ∙ g.named t;
}

bare-amend :
    (target source : Text) (nodes : List PlanNode)
    → map bare (amend (λ n. n.node_id) target (add_dependency source) nodes) ≡ map bare nodes
unfolding amend add_dependency
bare-amend target source [] = refl
bare-amend target source (n ∷ nodes) = ground (arith, bare-amend target source nodes)

deps_of-amend :
    (target source t x : Text) (nodes : List PlanNode)
    → contains x (deps_of t nodes) ≡ true
    → contains x (deps_of t (amend (λ n. n.node_id) target (add_dependency source) nodes)) ≡ true
unfolding add_dependency amend row_for
deps_of-amend target source t x [] h = h
deps_of-amend target source t x (n ∷ nodes) h = ground (
  arith,
  deps_of-amend target source t x nodes,
  contains-sorted x (union n.depends_on (source ∷ [])),
  contains-union x n.depends_on (source ∷ []),
)

-- Of a node nothing but the source is added to its dependencies, and only to those of the target.
deps_of-other :
    (target source t x : Text) (nodes : List PlanNode)
    → (same x source && same t target) ≡ false
    → contains x (deps_of t (amend (λ n. n.node_id) target (add_dependency source) nodes))
      ≡ contains x (deps_of t nodes)
unfolding add_dependency amend row_for contains
deps_of-other target source t x [] h = refl
deps_of-other target source t x (n ∷ nodes) h = ground (
  arith,
  deps_of-other target source t x nodes,
  contains-sorted x (union n.depends_on (source ∷ [])),
  contains-union x n.depends_on (source ∷ []),
)

pub depend-Grows :
    (target source : Text) (nodes : List PlanNode) → Grows nodes (depend target source nodes)
unfolding depend
depend-Grows target source nodes = record {
  same_nodes = ground (arith, bare-amend target source nodes);
  keeps = λ t x h. ground (arith, deps_of-amend target source t x nodes);
  alone = λ t. ground (arith, deps_of-other target source t t nodes);
  named = λ t. ground (arith, deps_of-other target source t [] nodes);
}

pub each-Grows :
    {A : Type 0} (step : A → List PlanNode → List PlanNode)
    → ((a : A) (nodes : List PlanNode) → Grows nodes (step a nodes))
    → (xs : List A) (nodes : List PlanNode) → Grows nodes (each step xs nodes)
unfolding each
each-Grows step grows [] nodes = Grows-refl nodes
each-Grows step grows (x ∷ xs) nodes =
    Grows-trans (grows x nodes) (each-Grows step grows xs (step x nodes))

-- What the round of one element adds is there after the loop.
pub each-adds :
    {A : Type 0} (step : A → List PlanNode → List PlanNode) (t x : Text) (P : A → Type 0)
    → ((a : A) (nodes : List PlanNode) → Grows nodes (step a nodes))
    → (xs : List A) (start nodes : List PlanNode) → Grows start nodes
    → Some P xs
    → ((a : A) (later : List PlanNode)
        → P a
        → Grows start later
        → contains x (deps_of t (step a later)) ≡ true)
    → contains x (deps_of t (each step xs nodes)) ≡ true
unfolding each
each-adds step t x P grows [] start nodes g m adds = absurd m
each-adds step t x P grows (a ∷ xs) start nodes g (inl p) adds =
    (each-Grows step grows xs (step a nodes)).keeps t x (adds a nodes p g)
each-adds step t x P grows (a ∷ xs) start nodes g (inr m) adds =
    each-adds step t x P grows xs start (step a nodes) (Grows-trans g (grows a nodes)) m adds

-- Membership up to dependencies is kept.
pub Grows-member :
    (n : PlanNode) (nodes nodes' : List PlanNode)
    → map bare nodes' ≡ map bare nodes
    → Some (λ m. bare m ≡ bare n) nodes
    → Some (λ m. bare m ≡ bare n) nodes'
Grows-member n [] nodes' e m = absurd m
Grows-member n (x ∷ nodes) [] e m = absurd (ground arith)
Grows-member n (x ∷ nodes) (y ∷ nodes') e (inl m) = inl (ground arith)
Grows-member n (x ∷ nodes) (y ∷ nodes') e (inr m) =
    inr (Grows-member n nodes nodes' (ground arith) m)

pub has_node-member :
    (n : PlanNode) (nodes : List PlanNode)
    → Some (λ m. bare m ≡ bare n) nodes
    → has_node n.node_id nodes ≡ true
unfolding any
has_node-member n [] m = absurd m
has_node-member n (x ∷ nodes) (inl m) = ground arith
has_node-member n (x ∷ nodes) (inr m) = ground (arith, has_node-member n nodes m)

contains_self : (x : Text) → contains x (x ∷ []) ≡ true
unfolding contains
contains_self x = ground arith

amend-adds :
    (target source : Text) (nodes : List PlanNode)
    → has_node target nodes ≡ true
    → contains source (deps_of target (amend (λ n. n.node_id) target (add_dependency source) nodes))
      ≡ true
unfolding add_dependency amend row_for any
amend-adds target source [] h = absurd (ground arith)
amend-adds target source (n ∷ nodes) h = ground (
  arith,
  amend-adds target source nodes,
  contains-sorted source (union n.depends_on (source ∷ [])),
  contains-union source n.depends_on (source ∷ []),
  contains_self source,
)

-- `depend` adds the dependency.
pub depend-adds :
    (target source : Text) (nodes : List PlanNode)
    → is_filled source ≡ true
    → same source target ≡ false
    → has_node source nodes ≡ true
    → has_node target nodes ≡ true
    → contains source (deps_of target (depend target source nodes)) ≡ true
unfolding depend
depend-adds target source nodes f d s t = ground (arith, amend-adds target source nodes)
