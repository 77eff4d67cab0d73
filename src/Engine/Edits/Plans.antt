-- ===== src/Engine/Edits/Plans.antt =====
-- The plans that edits of the static plan of pebs/pipeline.py lead to.
use native.Mathlib.Decide.{ℕ_discrete}
use mathlib.Core.List.{Perm}
use mathlib.Core.List.Perm
use pebs.Base.{
  ℕ, Bool, true, false, ◌≡◌, Option, List, [], Text, text_dec, contains, select, Distinct, All, ok,
  arith,
}
use pebs.Engine.Dispatch.{PlanStep}
use pebs.Engine.Edits.Sound.{ids, IsSound, OrderedFrom, IsGuarded}
use pebs.Engine.Edits.Kept.{edit_plan-kept}
use pebs.Engine.Edits.{EditOp, edit_plan, plan_steps}

-- The plan is reached from the first one by edits that were not rejected.
pub data Edited (first : List PlanStep) : List PlanStep → Type 0 where
  unedited : Edited first first
  then_edit :
      {plan next : List PlanStep} (op : EditOp) (step_id : Text) (index : Option ℕ)
      → Edited first plan
      → edit_plan op step_id index plan ≡ ok next
      → Edited first next

plan_steps-Distinct : (pptx : Bool) → Distinct (ids (plan_steps pptx))
unfolding plan_steps select contains text_dec ℕ_discrete
plan_steps-Distinct true = ground arith
plan_steps-Distinct false = ground arith

plan_steps-OrderedFrom : (pptx : Bool) → OrderedFrom [] (plan_steps pptx)
unfolding plan_steps select contains text_dec ℕ_discrete
plan_steps-OrderedFrom true = ground arith
plan_steps-OrderedFrom false = ground arith

plan_steps-IsGuarded : (pptx : Bool) → All IsGuarded (plan_steps pptx)
unfolding plan_steps select contains text_dec ℕ_discrete
plan_steps-IsGuarded true = ground arith
plan_steps-IsGuarded false = ground arith

-- Whatever edits are made of the static plan, with or without the steps for a deck: no name stands
-- twice, each step stands behind those it depends on, no gate and no export is disabled, and the
-- names are those of the static plan.
pub Edited-IsSound :
    (pptx : Bool) {plan : List PlanStep}
    → Edited (plan_steps pptx) plan
    → IsSound plan × Perm (ids plan) (ids (plan_steps pptx))
Edited-IsSound pptx unedited = (
  record {
    distinct = plan_steps-Distinct pptx;
    ordered = plan_steps-OrderedFrom pptx;
    guarded = plan_steps-IsGuarded pptx;
  },
  Perm.rfl,
)
Edited-IsSound pptx (then_edit op step_id index before e) =
    let (sound, names) = Edited-IsSound pptx before in
    let (sound', kept) = edit_plan-kept op step_id index _ _ sound e in
    (sound', Perm.trans kept names)
