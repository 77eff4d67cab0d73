-- ===== src/InputBudget/Decided.antt =====
-- What `enforce` of pebs/input_budget.py lets through.
use pebs.Base.{
  ◌≤◌, ◌≡◌, ◌≢◌, refl, sym, ◌↔◌, ◌⊎◌, inl, inr, List, [], ◌∷◌, codes, text_dec, arith, ok,
}
use pebs.InputBudget.{Limits, Measurement, exceeded, Report, exceed_decision, enforce}

pub record IsWithinLimits (m : Measurement) (rules : Limits) : Type 0 where
  pub material : m.material_chars ≤ rules.max_material_chars
  pub template : m.template_chars ≤ rules.max_template_chars
  pub files : m.files ≤ rules.max_files
  pub sections : m.sections ≤ rules.max_sections

exceeded_iff : (m : Measurement) (rules : Limits) → (exceeded m rules ≡ []) ↔ IsWithinLimits m rules
unfolding exceeded
exceeded_iff m rules = (
  λ h. record {
    material = ground arith;
    template = ground arith;
    files = ground arith;
    sections = ground arith;
  },
  λ w. ground (arith, w.material, w.template, w.files, w.sections),
)

List-cases : {A : Type 0} (xs : List A) → (xs ≡ []) ⊎ ((x : A) × (rest : List A) × (xs ≡ x ∷ rest))
List-cases [] = inl refl
List-cases (x ∷ xs) = inr (x, xs, refl)

-- A report of input that is let through holds the measurement that was given and the problems that
-- were found. Either the input is within all limits and accepted, or there are problems and the
-- decision is what `on_exceed` says, which is not "reject".
pub enforce-ok :
    (m : Measurement) (rules : Limits) (report : Report)
    → enforce m rules ≡ ok report
    → (report.measurement ≡ m)
      × (report.problems ≡ exceeded m rules)
      × ((IsWithinLimits m rules × (report.decision ≡ codes "accept"))
          ⊎ ((exceed_decision rules ≢ codes "reject")
              × (report.problems ≢ [])
              × (report.decision ≡ exceed_decision rules)))
unfolding enforce
enforce-ok m rules report h = elim (List-cases (exceeded m rules)) [
  | inl clear ↦
      let accepted : report
          ≡ record { measurement = m; limits = rules; problems = []; decision = codes "accept" } =
        ground arith in
      rw accepted (refl, sym clear, inl ((exceeded_iff m rules).0 clear, refl))
  | inr (p, ps, found) ↦ elim (text_dec (exceed_decision rules) (codes "reject")) [
    | yes rejects ↦ absurd (ground arith)
    | no other ↦
        let reported : report ≡ record {
          measurement = m;
          limits = rules;
          problems = p ∷ ps;
          decision = exceed_decision rules;
        } =
          ground arith in
        rw reported (refl, sym found, inr (other, λ e. ground arith, refl))
  ]
]
