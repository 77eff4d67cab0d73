-- ===== src/Planner/Expand/Ranked.antt =====
-- The loop of `expand_graph` of pebs/planner/graph.py ends where the artifacts can be ranked, each above
-- what the skill that makes it requires. It has no memory of what it has expanded, so on a registry
-- with a cycle of requirements it does not end.
pub mod Ends
use pebs.Base.{
  ℕ, zero, suc, ◌+◌, ◌≤◌, ◌<◌, Bool, true, false, not, ◌&&◌, ◌≡◌, ◌≢◌, refl, ap, subst, none, some,
  List, [], ◌∷◌, ◌++◌, Text, codes, arith, map, select, contains, length, length-append, All,
  All-append, All-map, ok, err, Option-cases, Result-cases, Bool-cases, inl, inr,
}
use pebs.Planner.Contracts.{out_of_rounds}
use pebs.Planner.Expand.{
  Goal, Wanted, Chosen, Expansion, enqueue_gates, reuse_existing, wanted_inputs, produce,
  expand_one, expand_loop,
}

-- The inputs of every chosen skill are of smaller rank than the artifact, and at most `width`.
pub record IsRanked (goal : Goal) (rank : Text → ℕ) (width : ℕ) : Type 0 where
  pub requires_lower :
      (a : Text) (c : Chosen) → goal.choose a ≡ some c → All (λ r. rank r < rank a) c.skill.requires
  pub optional_lower :
      (a : Text) (c : Chosen)
      → goal.choose a ≡ some c
      → All (λ r. rank r < rank a) c.skill.optional_requires
  pub few :
      (a : Text) (c : Chosen)
      → goal.choose a ≡ some c
      → length c.skill.requires + length c.skill.optional_requires ≤ width

abbrev pub times : ℕ → ℕ → ℕ
times zero c = 0
times (suc b) c = c + times b c

-- The rounds that an artifact of a rank can lead to.
unfoldable pub cost : ℕ → ℕ → ℕ
cost width zero = 1
cost width (suc n) = 1 + (cost width n + times width (cost width n))

cost-positive : (width n : ℕ) → 1 ≤ cost width n
unfolding cost
cost-positive width zero = omega arith
cost-positive width (suc n) = omega arith

le_trans : {a b c : ℕ} → a ≤ b → b ≤ c → a ≤ c
le_trans h k = omega arith

times-le : (b c d : ℕ) → c ≤ d → times b c ≤ times b d
times-le zero c d h = omega arith
times-le (suc b) c d h = omega (arith, times-le b c d h)

cost-le : (width n m : ℕ) → n ≤ m → cost width n ≤ cost width m
unfolding cost
cost-le width zero m h = cost-positive width m
cost-le width (suc n) zero h = absurd (omega arith)
cost-le width (suc n) (suc m) h = omega (
  arith,
  cost-le width n m (omega arith),
  times-le width (cost width n) (cost width m) (cost-le width n m (omega arith)),
)

module _ (rank : Text → ℕ) (width : ℕ) where
  abbrev pub queue_cost : List Wanted → ℕ
  queue_cost [] = 0
  queue_cost (w ∷ ws) = cost width (rank w.artifact) + queue_cost ws

  abbrev pub gates_cost : Bool → ℕ
  gates_cost true = 0
  gates_cost false = cost width (rank (codes "gate_result"))

  -- The rounds that are enough for a state of the loop.
  abbrev pub rounds_for : Expansion → ℕ
  rounds_for x = queue_cost x.queue + gates_cost x.gates_enqueued

  queue_cost-append : (xs ys : List Wanted) → queue_cost (xs ++ ys) ≡ queue_cost xs + queue_cost ys
  queue_cost-append [] ys = omega arith
  queue_cost-append (x ∷ xs) ys = omega (arith, queue_cost-append xs ys)

  queue_cost-times :
      (ws : List Wanted) (n b : ℕ)
      → All (λ w. rank w.artifact ≤ n) ws
      → length ws ≤ b
      → queue_cost ws ≤ times b (cost width n)
  queue_cost-times [] n b low few = omega arith
  queue_cost-times (w ∷ ws) n zero low few = absurd (omega arith)
  queue_cost-times (w ∷ ws) n (suc b) low few =
      omega (
        arith,
        queue_cost-times ws n b low.1 (omega arith),
        cost-le width (rank w.artifact) n low.0,
      )

module _ {A : Type 0} where
  length-select : (p : A → Bool) (xs : List A) → length (select p xs) ≤ length xs
  unfolding select
  length-select p [] = omega arith
  length-select p (x ∷ xs) = ground (arith, length-select p xs)

  length-map : {B : Type 0} (f : A → B) (xs : List A) → length (map f xs) ≡ length xs
  length-map f [] = refl
  length-map f (x ∷ xs) = ap suc (length-map f xs)

  length-picked :
      {B : Type 0} (f : A → B) (p : A → Bool) (xs : List A)
      → length (map f (select p xs)) ≤ length xs
  length-picked f p xs = omega (arith, length-map f (select p xs), length-select p xs)

  append-le : (xs ys : List A) (a b : ℕ) → length xs ≤ a → length ys ≤ b → length (xs ++ ys) ≤ a + b
  append-le xs ys a b h k = omega (arith, length-append xs ys)

  none-below : (f : A → ℕ) (xs : List A) → All (λ x. f x < 0) xs → xs ≡ []
  none-below f [] h = refl
  none-below f (x ∷ xs) h = absurd (omega (arith, h.0))

  All-select : (P : A → Type 0) (p : A → Bool) (xs : List A) → All P xs → All P (select p xs)
  unfolding select
  All-select P p [] h = tt
  All-select P p (x ∷ xs) h = elim (Bool-cases (p x)) [
    | inl taken ↦ rw taken (h.0, All-select P p xs h.1)
    | inr left ↦ rw left (All-select P p xs h.1)
  ]

  All-of-map :
      {B : Type 0} (P : B → Type 0) (f : A → B) (xs : List A)
      → All (λ x. P (f x)) xs
      → All P (map f xs)
  All-of-map P f [] h = tt
  All-of-map P f (x ∷ xs) h = (h.0, All-of-map P f xs h.1)
