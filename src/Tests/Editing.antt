-- ===== src/Tests/Editing.antt =====
-- Edits of the static plan.
use native.Mathlib.Decide.{ℕ_discrete}
use mathlib.Core.List.{Perm}
use pebs.Base.{
  ℕ, true, false, ◌≡◌, refl, none, some, Option, List, [], ◌∷◌, Text, codes, text_dec, contains,
  select, any, row_for, ok, err, Result, map,
}
use pebs.Engine.Dispatch.{PlanStep}
use pebs.Engine.Edits.Sound.{ids, IsSound}
use pebs.Engine.Edits.Plans.{unedited, then_edit, Edited-IsSound}
use pebs.Engine.Edits.{
  EditOp, EditError, disable, enable, move, before_dependency, is_needed, edit_plan, plan_steps,
  apply_edit, change_first, remove_first, insert_at, position, check_deps, check_order,
  is_required_now, move_step,
}

program : Unit {0}
unfolding text_dec ℕ_discrete contains select any row_for edit_plan plan_steps apply_edit
    change_first remove_first insert_at position check_deps check_order is_required_now move_step
program = tt

abbrev plan_after : Result EditError (List PlanStep) → List PlanStep
plan_after (ok plan) = plan
plan_after (err e) = []

abbrev edit : EditOp → Text → Option ℕ → List PlanStep → List PlanStep
edit op step_id index plan = plan_after (edit_plan op step_id index plan)

-- The gates cannot be disabled, and a step cannot be moved before one that it depends on.
gates_stay : edit_plan disable (codes "gates") none (plan_steps true) ≡ err is_needed
unfolding program
gates_stay = refl

no_move_forward :
    edit_plan move (codes "claims") (some 1) (plan_steps true)
    ≡ err (before_dependency (codes "claims") (codes "learning_design"))
unfolding program
no_move_forward = refl

abbrev without_deck : List PlanStep
without_deck = edit disable (codes "pptx") none (plan_steps true)

abbrev without_slides : List PlanStep
without_slides = edit disable (codes "slide_plan") none without_deck

-- `enable` does not look at what the step depends on: the deck is wanted again, and the required
-- step that it depends on stays disabled.
enabled_behind_disabled :
    map
      (λ (s : PlanStep). s.disabled)
      (select
        (λ (s : PlanStep). contains s.step_id (codes "slide_plan" ∷ codes "pptx" ∷ []))
        (edit enable (codes "pptx") none without_slides))
    ≡ true ∷ false ∷ []
unfolding program
enabled_behind_disabled = refl

Edited-IsSound_example : IsSound without_slides × Perm (ids without_slides) (ids (plan_steps true))
unfolding program
Edited-IsSound_example = Edited-IsSound true (
    then_edit disable (codes "slide_plan") none
      (then_edit disable (codes "pptx") none unedited refl) refl)
