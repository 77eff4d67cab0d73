-- ===== src/Engine/Edits/Kept.antt =====
-- What every edit of a plan by `edit_plan` of pebs/engine.py keeps.
use mathlib.Core.List.{Perm}
use mathlib.Core.List.Perm
use pebs.Base.{
  ℕ, true, false, ◌≡◌, refl, sym, subst, inl, inr, Option, some, List, [], ◌∷◌, ◌++◌, Text, same,
  arith, All, Bool-cases, Option-cases, ok, row_for, key-row_for,
}
use pebs.Engine.Dispatch.{PlanStep}
use pebs.Engine.Edits.Sound.{ids, OrderedFrom, IsGuarded, IsSound}
use pebs.Engine.Edits.Moved.{move_step-kept}
use pebs.Engine.Edits.{
  EditOp, disable, enable, lock, unlock, move, change_first, is_required_now, apply_edit, edit_plan,
}

-- `change_first`, where names and dependencies stay
module _ (f : PlanStep → PlanStep) (same_id : (s : PlanStep) → (f s).step_id ≡ s.step_id)
    (same_deps : (s : PlanStep) → (f s).depends_on ≡ s.depends_on) (step_id : Text) where
  ids-change_first : (steps : List PlanStep) → ids (change_first step_id f steps) ≡ ids steps
  unfolding change_first
  ids-change_first [] = refl
  ids-change_first (s ∷ steps) = ground (arith, ids-change_first steps, same_id s)

  ordered-change_first :
      (seen : List Text) (steps : List PlanStep)
      → OrderedFrom seen steps
      → OrderedFrom seen (change_first step_id f steps)
  unfolding change_first
  ordered-change_first seen [] h = tt
  ordered-change_first seen (s ∷ steps) h = elim (Bool-cases (same s.step_id step_id)) [
    | inl hit ↦ rw hit (rw (same_id s, same_deps s) h)
    | inr miss ↦ rw miss (h.0, ordered-change_first (seen ++ s.step_id ∷ []) steps h.1)
  ]

  IsGuarded-change_first :
      (steps : List PlanStep)
      → ((s : PlanStep)
          → same s.step_id step_id ≡ true
          → row_for (λ (t : PlanStep). t.step_id) step_id steps ≡ some s
          → IsGuarded (f s))
      → All IsGuarded steps
      → All IsGuarded (change_first step_id f steps)
  unfolding change_first row_for
  IsGuarded-change_first [] safe h = tt
  IsGuarded-change_first (s ∷ steps) safe h = elim (Bool-cases (same s.step_id step_id)) [
    | inl hit ↦ rw hit (safe s hit (rw hit refl), h.1)
    | inr miss ↦ rw miss (h.0, IsGuarded-change_first steps (λ t e r. safe t e (rw miss r)) h.1)
  ]

row_for-All :
    (a : Text) (s : PlanStep) (steps : List PlanStep)
    → row_for (λ (t : PlanStep). t.step_id) a steps ≡ some s
    → All IsGuarded steps
    → IsGuarded s
unfolding row_for
row_for-All a s [] h g = absurd (ground arith)
row_for-All a s (x ∷ steps) h g = elim (Bool-cases (same x.step_id a)) [
  | inl hit ↦ let e : x ≡ s = ground arith in rw (← e) g.0
  | inr miss ↦ row_for-All a s steps (ground arith) g.1
]

module _ (step : PlanStep) (steps : List PlanStep)
    (found : row_for (λ (t : PlanStep). t.step_id) step.step_id steps ≡ some step)
    (sound : IsSound steps) where
  -- The change of one step, where its name and its dependencies stay, and it stays guarded.
  change-kept :
      (f : PlanStep → PlanStep)
      → ((s : PlanStep) → (f s).step_id ≡ s.step_id)
      → ((s : PlanStep) → (f s).depends_on ≡ s.depends_on)
      → IsGuarded (f step)
      → IsSound (change_first step.step_id f steps)
        × Perm (ids (change_first step.step_id f steps)) (ids steps)
  change-kept f same_id same_deps guarded = (
    record {
      distinct = rw (ids-change_first f same_id same_deps step.step_id steps) sound.distinct;
      ordered = ordered-change_first f same_id same_deps step.step_id [] steps sound.ordered;
      guarded =
          IsGuarded-change_first f same_id same_deps step.step_id steps
            (λ s hit first. let e : step ≡ s = ground arith in rw (← e) guarded) sound.guarded;
    },
    rw (ids-change_first f same_id same_deps step.step_id steps) Perm.rfl,
  )

  IsGuarded-found : IsGuarded step
  IsGuarded-found = row_for-All step.step_id step steps found sound.guarded

  apply_edit-kept :
      (op : EditOp) (index : Option ℕ) (edited : List PlanStep)
      → apply_edit op step index steps ≡ ok edited
      → IsSound edited × Perm (ids edited) (ids steps)
  unfolding apply_edit is_required_now
  apply_edit-kept disable index edited e = elim (Bool-cases (is_required_now step steps)) [
    | inl needed ↦ absurd (ground arith)
    | inr free ↦
        let lands : change_first step.step_id (λ s. record s { disabled = true }) steps ≡ edited =
          ground arith in
        rw (← lands)
          (change-kept (λ s. record s { disabled = true }) (λ s. refl) (λ s. refl) (not-gate free))
  ]
    where
      not-gate : is_required_now step steps ≡ false → IsGuarded (record step { disabled = true })
      not-gate free = ground arith
  apply_edit-kept enable index edited e =
      let lands : change_first step.step_id (λ s. record s { disabled = false }) steps ≡ edited =
        ground arith in
      rw (← lands) (change-kept (λ s. record s { disabled = false }) (λ s. refl) (λ s. refl) refl)
  apply_edit-kept lock index edited e =
      let lands : change_first step.step_id (λ s. record s { locked = true }) steps ≡ edited =
        ground arith in
      rw (← lands)
        (change-kept (λ s. record s { locked = true }) (λ s. refl) (λ s. refl) IsGuarded-found)
  apply_edit-kept unlock index edited e =
      let lands : change_first step.step_id (λ s. record s { locked = false }) steps ≡ edited =
        ground arith in
      rw (← lands)
        (change-kept (λ s. record s { locked = false }) (λ s. refl) (λ s. refl) IsGuarded-found)
  apply_edit-kept move index edited e =
      let (distinct, ordered, guarded, perm) =
        move_step-kept step index steps edited found sound.distinct sound.guarded IsGuarded-found
          e in
      (record { distinct = distinct; ordered = ordered; guarded = guarded }, perm)

-- A sound plan stays sound under each edit that is not rejected, and keeps its names.
pub edit_plan-kept :
    (op : EditOp) (step_id : Text) (index : Option ℕ) (steps edited : List PlanStep)
    → IsSound steps
    → edit_plan op step_id index steps ≡ ok edited
    → IsSound edited × Perm (ids edited) (ids steps)
unfolding edit_plan
edit_plan-kept op step_id index steps edited sound e =
    elim (Option-cases (row_for (λ (s : PlanStep). s.step_id) step_id steps)) [
      | inl unknown ↦ absurd (ground arith)
      | inr (step, found) ↦
          let own = key-row_for (λ (s : PlanStep). s.step_id) step_id steps step found in
          apply_edit-kept step steps
            (subst (λ t. row_for (λ (s : PlanStep). s.step_id) t steps ≡ some step) (sym own) found)
            sound op index edited (ground arith)
    ]
