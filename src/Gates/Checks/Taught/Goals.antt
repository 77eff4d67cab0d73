-- ===== src/Gates/Checks/Taught/Goals.antt =====
-- The goals of a learning design, as `g3_pedagogy` of pebs/gates.py keeps them in a dict.
use pebs.Base.{
  true, ◌||◌, ◌≡◌, ◌≢◌, refl, sym, ◌↔◌, ◌⊎◌, Option, none, some, List, [], ◌∷◌, Text, same,
  text_dec, any, All, Some, All-map, inl, inr, arith,
}
use pebs.Gates.Documents.{LearningGoal}
use pebs.Gates.Checks.Taught.{put_goal, goal_table, is_goal}

-- One of the goals has the name.
abbrev pub HasGoal : List LearningGoal → Text → Type 0
HasGoal goals id = Some (λ (g : LearningGoal). g.goal_id ≡ id) goals

-- A goal is named, and it is one of the goals.
abbrev pub IsAim : List LearningGoal → Option Text → Type 0
IsAim goals target = (id : Text) × (target ≡ some id) × HasGoal goals id

any_iff :
    (id : Text) (goals : List LearningGoal)
    → (any (λ (g : LearningGoal). same g.goal_id id) goals ≡ true) ↔ HasGoal goals id
unfolding any
any_iff id [] = (λ h. absurd (ground arith), λ h. absurd h)
any_iff id (g ∷ goals) = elim (text_dec g.goal_id id) [
  | yes e ↦ (λ h. inl e, λ h. ground arith)
  | no differ ↦ (
    λ h. inr ((any_iff id goals).0 (ground arith)),
    λ h. elim h [
      | inl e ↦ absurd (differ e)
      | inr later ↦ ground (arith, (any_iff id goals).1 later)
    ],
  )
]

pub is_goal_iff :
    (goals : List LearningGoal) (target : Option Text)
    → (is_goal goals target ≡ true) ↔ IsAim goals target
is_goal_iff goals none = (λ h. absurd (ground arith), λ (id, named, m). absurd (ground arith))
is_goal_iff goals (some t) = (
  λ h. (t, refl, (any_iff t goals).0 h),
  λ (id, named, m). let e : t ≡ id = ground arith in (any_iff t goals).1 (rw e m),
)

any-put_goal :
    (id : Text) (g : LearningGoal) (table : List LearningGoal)
    → any (λ (h : LearningGoal). same h.goal_id id) (put_goal g table)
      ≡ (same g.goal_id id || any (λ (h : LearningGoal). same h.goal_id id) table)
unfolding any put_goal
any-put_goal id g [] = refl
any-put_goal id g (h ∷ table) = ground (arith, any-put_goal id g table)

any-goal_table :
    (id : Text) (table goals : List LearningGoal)
    → any (λ (h : LearningGoal). same h.goal_id id) (goal_table table goals) ≡ (
        any (λ (h : LearningGoal). same h.goal_id id) table
        || any (λ (h : LearningGoal). same h.goal_id id) goals)
unfolding any goal_table
any-goal_table id table [] = ground arith
any-goal_table id table (g ∷ goals) =
    ground (arith, any-goal_table id (put_goal g table) goals, any-put_goal id g table)

-- The dict has the names of the list.
pub goal_table-IsAim_iff :
    (goals : List LearningGoal) (target : Option Text)
    → (is_goal (goal_table [] goals) target ≡ true) ↔ IsAim goals target
unfolding any
goal_table-IsAim_iff goals none =
    (λ h. absurd (ground arith), λ (id, named, m). absurd (ground arith))
goal_table-IsAim_iff goals (some t) =
    let both = is_goal_iff goals (some t) in
    let same_names = any-goal_table t [] goals in
    (λ h. both.0 (ground (arith, same_names)), λ a. let k = both.1 a in ground (arith, same_names))

goal_table_filled : (table goals : List LearningGoal) → table ≢ [] → goal_table table goals ≢ []
unfolding goal_table put_goal
goal_table_filled table [] h = h
goal_table_filled [] (g ∷ goals) h = absurd (h refl)
goal_table_filled (t ∷ table) (g ∷ goals) h =
    goal_table_filled (put_goal g (t ∷ table)) goals (λ e. ground arith)

-- It is empty where the list is.
pub goal_table_empty_iff : (goals : List LearningGoal) → (goal_table [] goals ≢ []) ↔ (goals ≢ [])
unfolding goal_table put_goal
goal_table_empty_iff [] = (λ h. h, λ h. h)
goal_table_empty_iff (g ∷ goals) =
    (λ h e. ground arith, λ h. goal_table_filled (g ∷ []) goals (λ e. ground arith))

-- The property holds for each goal that no later goal of its name replaces.
abbrev pub EachLast : (LearningGoal → Type 0) → List LearningGoal → Type 0
EachLast P [] = Unit
EachLast P (g ∷ goals) = (¬ (HasGoal goals g.goal_id) → P g) × EachLast P goals

-- No name stands twice.
abbrev IsTable : List LearningGoal → Type 0
IsTable [] = Unit
IsTable (h ∷ table) = All (λ (t : LearningGoal). t.goal_id ≢ h.goal_id) table × IsTable table

-- No later goal has the name, or the property holds.
abbrev Kept : (LearningGoal → Type 0) → List LearningGoal → LearningGoal → Type 0
Kept P goals t = ¬ (HasGoal goals t.goal_id) → P t

put_goal_cases :
    (g t : LearningGoal) (table : List LearningGoal)
    → ((t.goal_id ≡ g.goal_id) × (put_goal g (t ∷ table) ≡ g ∷ table))
      ⊎ ((t.goal_id ≢ g.goal_id) × (put_goal g (t ∷ table) ≡ t ∷ put_goal g table))
unfolding put_goal
put_goal_cases g t table = elim (text_dec t.goal_id g.goal_id) [
  | yes e ↦ inl (e, ground arith)
  | no apart ↦ inr (apart, ground arith)
]

All-put_goal :
    (id : Text) (g : LearningGoal) (table : List LearningGoal)
    → g.goal_id ≢ id
    → All (λ (t : LearningGoal). t.goal_id ≢ id) table
    → All (λ (t : LearningGoal). t.goal_id ≢ id) (put_goal g table)
unfolding put_goal
All-put_goal id g [] differ h = (differ, tt)
All-put_goal id g (t ∷ table) differ h = elim (put_goal_cases g t table) [
  | inl (e, put) ↦ rw put (differ, h.1)
  | inr (apart, put) ↦ rw put (h.0, All-put_goal id g table differ h.1)
]

put_goal-IsTable :
    (g : LearningGoal) (table : List LearningGoal) → IsTable table → IsTable (put_goal g table)
unfolding put_goal
put_goal-IsTable g [] h = (tt, tt)
put_goal-IsTable g (t ∷ table) h = elim (put_goal_cases g t table) [
  | inl (e, put) ↦ rw put (rw e at h.0, h.1)
  | inr (apart, put) ↦
      rw put (All-put_goal t.goal_id g table (λ k. apart (sym k)) h.0, put_goal-IsTable g table h.1)
]

module _ (P : LearningGoal → Type 0) (goals : List LearningGoal) (g : LearningGoal) where
  Kept-not_named :
      (table : List LearningGoal)
      → All (λ (t : LearningGoal). t.goal_id ≢ g.goal_id) table
      → All (Kept P goals) table ↔ All (Kept P (g ∷ goals)) table
  Kept-not_named [] h = (λ k. tt, λ k. tt)
  Kept-not_named (t ∷ table) h =
      let rest = Kept-not_named table h.1 in
      (
        λ k. (λ none_later. k.0 (λ m. none_later (inr m)), rest.0 k.1),
        λ k. (
          λ none_later. k.0 (λ m. elim m [ inl e ↦ h.0 (sym e) | inr later ↦ none_later later ]),
          rest.1 k.1,
        ),
      )

  Kept-put_goal :
      (table : List LearningGoal)
      → IsTable table
      → All (Kept P goals) (put_goal g table) ↔ (Kept P goals g × All (Kept P (g ∷ goals)) table)
  unfolding put_goal
  Kept-put_goal [] h = (λ k. k, λ k. k)
  Kept-put_goal (t ∷ table) h = elim (put_goal_cases g t table) [
    | inl (e, put) ↦
        let apart : All (λ (u : LearningGoal). u.goal_id ≢ g.goal_id) table = rw e at h.0 in
        let rest = Kept-not_named table apart in
        rw put (
          λ k. (k.0, (λ none_later. absurd (none_later (inl (sym e))), rest.0 k.1)),
          λ k. (k.0, rest.1 k.1.1),
        )
    | inr (differ, put) ↦
        let rest = Kept-put_goal table h.1 in
        rw put (
          λ k.
              let (mine, more) = rest.0 k.1 in
              (mine, (λ none_later. k.0 (λ m. none_later (inr m)), more)),
          λ k. (
            λ none_later.
                k.1.0 (λ m. elim m [ inl e ↦ differ (sym e) | inr later ↦ none_later later ]),
            rest.1 (k.0, k.1.1),
          ),
        )
  ]

table_iff :
    (P : LearningGoal → Type 0) (table goals : List LearningGoal)
    → IsTable table
    → All P (goal_table table goals) ↔ (All (Kept P goals) table × EachLast P goals)
unfolding goal_table
table_iff P table [] h = (
  λ k. (All-map table (λ t p none_later. p) k, tt),
  λ k. All-map table (λ t p. p (λ m. absurd m)) k.0,
)
table_iff P table (g ∷ goals) h =
    let later = table_iff P (put_goal g table) goals (put_goal-IsTable g table h) in
    let put = Kept-put_goal P goals g table h in
    (
      λ k. let (a, b) = later.0 k in let (mine, rest) = put.0 a in (rest, (mine, b)),
      λ k. later.1 (put.1 (k.1.0, k.0), k.1.1),
    )

-- What holds of each entry of the dict holds of each goal that is not replaced.
pub goal_table_iff :
    (P : LearningGoal → Type 0) (goals : List LearningGoal)
    → All P (goal_table [] goals) ↔ EachLast P goals
goal_table_iff P goals =
    let both = table_iff P [] goals tt in (λ h. (both.0 h).1, λ h. both.1 (tt, h))
