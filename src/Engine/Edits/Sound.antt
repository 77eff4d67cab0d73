-- ===== src/Engine/Edits/Sound.antt =====
-- What a plan keeps under the edits of `edit_plan` of pebs/engine.py.
use pebs.Base.{
  true, false, ◌&&◌, ◌≡◌, List, [], ◌∷◌, ◌++◌, Text, codes, map, contains, All, Distinct,
}
use pebs.Engine.Dispatch.{PlanStep}

abbrev pub ids : List PlanStep → List Text
ids steps = map (λ (s : PlanStep). s.step_id) steps

-- Each step stands behind the steps that it depends on, those in `seen` included.
abbrev pub OrderedFrom : List Text → List PlanStep → Type 0
OrderedFrom seen [] = Unit
OrderedFrom seen (s ∷ steps) =
    All (λ d. contains d seen ≡ true) s.depends_on × OrderedFrom (seen ++ s.step_id ∷ []) steps

-- Gates and exports are not disabled.
abbrev pub IsGuarded : PlanStep → Type 0
IsGuarded s = (s.disabled && contains s.kind (codes "gate" ∷ codes "export" ∷ [])) ≡ false

-- No name stands twice, each step stands behind those it depends on, and no gate is disabled.
pub record IsSound (steps : List PlanStep) : Type 0 where
  pub distinct : Distinct (ids steps)
  pub ordered : OrderedFrom [] steps
  pub guarded : All IsGuarded steps
