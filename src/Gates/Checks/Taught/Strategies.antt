-- ===== src/Gates/Checks/Taught/Strategies.antt =====
-- The strategy that `g3_pedagogy` of pebs/gates.py takes for a goal, and whether it is allowed.
use pebs.Base.{
  true, false, ◌≡◌, ◌≢◌, refl, ◌↔◌, ◌⊎◌, none, some, List, [], ◌∷◌, Text, maybe_dec, codes,
  contains, row_for, All, Bool-cases, Option-cases, inl, inr, arith,
}
use pebs.Evidence.Whitespace.{strip, is_inside}
use pebs.Gates.Documents.{LearningGoal, Difficulty, Strategy, TeachingPlan}
use pebs.Gates.Checks.Taught.{
  strategy_for, RouterRules, allowed_strategies, allowed_for, is_allowed, is_filled, states,
}

-- The strategy is of the goal, and none of those behind it is.
abbrev pub IsLastFor : Text → Strategy → List Strategy → Type 0
IsLastFor goal_id s [] = ⊥
IsLastFor goal_id s (x ∷ xs) =
    IsLastFor goal_id s xs
    ⊎ ((x ≡ s) × (x.goal_ref ≡ some goal_id) × All (λ (y : Strategy). y.goal_ref ≢ some goal_id) xs)

strategy_for-none :
    (goal_id : Text) (xs : List Strategy)
    → (strategy_for goal_id xs ≡ none) ↔ All (λ (y : Strategy). y.goal_ref ≢ some goal_id) xs
unfolding strategy_for
strategy_for-none goal_id [] = (λ h. tt, λ h. refl)
strategy_for-none goal_id (x ∷ xs) =
    let later = strategy_for-none goal_id xs in
    elim (Option-cases (strategy_for goal_id xs)) [
      | inr (s, found) ↦ (λ h. absurd (ground arith), λ h. absurd (ground (arith, later.1 h.1)))
      | inl missing ↦ elim (maybe_dec x.goal_ref (some goal_id)) [
        | yes e ↦ (λ h. absurd (ground arith), λ h. absurd (h.0 e))
        | no differ ↦ (λ h. (differ, later.0 missing), λ h. ground arith)
      ]
    ]

pub strategy_for_iff :
    (goal_id : Text) (s : Strategy) (xs : List Strategy)
    → (strategy_for goal_id xs ≡ some s) ↔ IsLastFor goal_id s xs
unfolding strategy_for
strategy_for_iff goal_id s [] = (λ h. absurd (ground arith), λ h. absurd h)
strategy_for_iff goal_id s (x ∷ xs) =
    let later = strategy_for_iff goal_id s xs in
    let absent = strategy_for-none goal_id xs in
    elim (Option-cases (strategy_for goal_id xs)) [
      | inr (t, found) ↦ (
        λ h. inl (later.0 (ground arith)),
        λ h. elim h [
          | inl deep ↦ ground (arith, later.1 deep)
          | inr (e, mine, nothing) ↦ absurd (ground (arith, absent.1 nothing))
        ],
      )
      | inl missing ↦ elim (maybe_dec x.goal_ref (some goal_id)) [
        | yes e ↦ (
          λ h. inr (ground arith, e, absent.0 missing),
          λ h. elim h [
            | inl deep ↦ absurd (ground (arith, later.1 deep))
            | inr (same_one, mine, nothing) ↦ ground arith
          ],
        )
        | no differ ↦ (
          λ h. absurd (ground arith),
          λ h. elim h [
            | inl deep ↦ absurd (ground (arith, later.1 deep))
            | inr (same_one, mine, nothing) ↦ absurd (differ mine)
          ],
        )
      ]
    ]

-- The kind of knowledge of a goal.
abbrev pub kind_of : LearningGoal → Text
kind_of g = elim g.knowledge_type [ none ↦ codes "concept" | some t ↦ t ]

-- The map lists the strategy for the kind, or has no entry for it and the strategy is the fallback.
abbrev pub Allows : RouterRules → Text → Text → Type 0
Allows rules kind name = elim (row_for (λ (p : Text × List Text). p.0) kind rules.strategy_map) [
  | none ↦ name ≡ rules.fallback_strategy
  | some p ↦ contains name p.1 ≡ true
]

contains_iff : (a b : Text) → (contains a (b ∷ []) ≡ true) ↔ (a ≡ b)
unfolding contains
contains_iff a b = ground arith

allowed_iff :
    (rules : RouterRules) (kind name : Text)
    → (contains name (allowed_strategies rules kind) ≡ true) ↔ Allows rules kind name
unfolding allowed_strategies
allowed_iff rules kind name =
    elim (Option-cases (row_for (λ (p : Text × List Text). p.0) kind rules.strategy_map)) [
      | inl missing ↦
          rw (missing, allowed_strategies, Allows) (contains_iff name rules.fallback_strategy)
      | inr (p, found) ↦ rw (found, allowed_strategies, Allows) (λ h. h, λ h. h)
    ]

-- The last strategy of the goal is named, and the kind of the goal allows it.
abbrev pub IsPlanned : RouterRules → TeachingPlan → LearningGoal → Type 0
IsPlanned rules plan g =
    (s : Strategy) × (name : Text) × IsLastFor g.goal_id s plan.strategies
    × (s.strategy ≡ some name)
    × Allows rules (kind_of g) name

allowed_for_lem :
    (rules : RouterRules) (g : LearningGoal)
    → allowed_for rules g ≡ allowed_strategies rules (kind_of g)
allowed_for_lem rules g = elim (Option-cases g.knowledge_type) [
  | inl missing ↦ ground arith
  | inr (t, given) ↦ ground arith
]

pub planned_iff :
    (rules : RouterRules) (plan : TeachingPlan) (g : LearningGoal)
    → ((s : Strategy) × (strategy_for g.goal_id plan.strategies ≡ some s)
        × (is_allowed s.strategy (allowed_for rules g) ≡ true))
      ↔ IsPlanned rules plan g
planned_iff rules plan g = (
  λ (s, found, allowed). elim (Option-cases s.strategy) [
    | inl unnamed ↦ absurd (ground arith)
    | inr (name, named) ↦
        let listed : contains name (allowed_strategies rules (kind_of g)) ≡ true =
          ground (arith, allowed_for_lem rules g) in
        (
          s,
          name,
          (strategy_for_iff g.goal_id s plan.strategies).0 found,
          named,
          (allowed_iff rules (kind_of g) name).0 listed,
        )
  ],
  λ (s, name, last, named, allows).
      let listed = (allowed_iff rules (kind_of g) name).1 allows in
      (
        s,
        (strategy_for_iff g.goal_id s plan.strategies).1 last,
        ground (arith, allowed_for_lem rules g),
      ),
)

-- If the difficulty is a hypothesis of the model and has a text, the text does not stand there.
abbrev pub IsUnstated : Text → Difficulty → Type 0
IsUnstated text d =
    d.basis ≡ codes "model_hypothesis" → strip d.text ≢ [] → is_inside (strip d.text) text ≡ false

filled_iff : (t : Text) → (is_filled t ≡ true) ↔ (t ≢ [])
filled_iff [] = (λ h. absurd (ground arith), λ h. absurd (h refl))
filled_iff (c ∷ cs) = (λ h e. ground arith, λ h. refl)

pub IsUnstated-iff : (text : Text) (d : Difficulty) → (states text d ≡ false) ↔ IsUnstated text d
unfolding states
IsUnstated-iff text d =
    let filled = filled_iff (strip d.text) in
    (
      λ h basis has_text. let f = filled.1 has_text in ground arith,
      λ h. elim (Bool-cases (states text d)) [
        | inr unstated ↦ unstated
        | inl stated ↦
            let f : is_filled (strip d.text) ≡ true = ground arith in
            let basis : d.basis ≡ codes "model_hypothesis" = ground arith in
            let k = h basis (filled.0 f) in ground arith
      ],
    )
