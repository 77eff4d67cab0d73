-- ===== src/InputBudget.antt =====
-- pebs/input_budget.py. The section `input_budget` of the rules is an argument; a problem says what is
-- too large and the limit.
pub mod Decided
use pebs.Base.{
  ℕ, ◌+◌, Bool, true, false, Option, none, some, List, [], ◌∷◌, ◌++◌, Text, codes, ltb,
  if◌then◌else◌, length, map, Result, ok, err, same,
}

-- The keys of `DEFAULTS`.
pub record Limits : Type 0 where
  pub max_material_chars : ℕ
  pub max_template_chars : ℕ
  pub max_sections : ℕ
  pub max_files : ℕ
  pub on_exceed : Text

unfoldable pub defaults : Limits
defaults = record {
  max_material_chars = 120000;
  max_template_chars = 60000;
  max_sections = 40;
  max_files = 20;
  on_exceed = codes "reject";
}

-- What the rules set of the keys.
pub record Overrides : Type 0 where
  pub max_material_chars : Option ℕ
  pub max_template_chars : Option ℕ
  pub max_sections : Option ℕ
  pub max_files : Option ℕ
  pub on_exceed : Option Text

abbrev pub or_else : {A : Type 0} → Option A → A → A
or_else none d = d
or_else (some a) d = a

unfoldable pub budget : Overrides → Limits
unfolding defaults
budget o = record {
  max_material_chars = or_else o.max_material_chars defaults.max_material_chars;
  max_template_chars = or_else o.max_template_chars defaults.max_template_chars;
  max_sections = or_else o.max_sections defaults.max_sections;
  max_files = or_else o.max_files defaults.max_files;
  on_exceed = or_else o.on_exceed defaults.on_exceed;
}

-- A file; a missing key is the empty text.
pub record Material : Type 0 where
  pub name : Text
  pub path : Text
  pub text : Text

pub record TemplateSpec : Type 0 where
  pub raw_text : Text
  pub section_headings : List Text
  pub columns : List Text

pub record Measurement : Type 0 where
  pub material_chars : ℕ
  pub template_chars : ℕ
  pub files : ℕ
  pub sections : ℕ
  pub per_file_chars : List (Text × ℕ)

unfoldable pub total_chars : List Material → ℕ
total_chars [] = 0
total_chars (m ∷ ms) = length m.text + total_chars ms

-- `"\n".join(items)`
unfoldable pub join_lines : List Text → Text
join_lines [] = []
join_lines (t ∷ ts) = let rest = join_lines ts in elim ts [ [] ↦ t | _ ∷ _ ↦ t ++ b'\n' ∷ rest ]

unfoldable pub template_text : Option TemplateSpec → Text
template_text none = []
template_text (some spec) = elim spec.raw_text [
  | c ∷ cs ↦ c ∷ cs
  | [] ↦ join_lines (spec.section_headings ++ spec.columns)
]

abbrev pub shown_name : Material → Text
shown_name m = elim m.name [ [] ↦ m.path | c ∷ cs ↦ c ∷ cs ]

-- Of the sections only the number counts.
unfoldable pub measure : List Material → Option TemplateSpec → ℕ → Measurement
measure materials template_spec sections = record {
  material_chars = total_chars materials;
  template_chars = length (template_text template_spec);
  files = length materials;
  sections = sections;
  per_file_chars = map (λ m. (shown_name m, length m.text)) materials;
}

pub data BudgetProblem : Type 0 where
  material_too_long template_too_long too_many_files too_many_sections : ℕ → ℕ → BudgetProblem

abbrev pub over : ℕ → ℕ → (ℕ → ℕ → BudgetProblem) → List BudgetProblem
over size limit problem = if ltb limit size then problem size limit ∷ [] else []

unfoldable pub exceeded : Measurement → Limits → List BudgetProblem
exceeded m rules =
    over m.material_chars rules.max_material_chars material_too_long
    ++ (over m.template_chars rules.max_template_chars template_too_long
        ++ (over m.files rules.max_files too_many_files
            ++ over m.sections rules.max_sections too_many_sections))

pub record Report : Type 0 where
  pub measurement : Measurement
  pub limits : Limits
  pub problems : List BudgetProblem
  pub decision : Text

-- `str(rules.get("on_exceed") or "reject")`
abbrev pub exceed_decision : Limits → Text
exceed_decision rules = elim rules.on_exceed [ [] ↦ codes "reject" | c ∷ cs ↦ c ∷ cs ]

-- InputBudgetExceeded, with its problems
unfoldable pub enforce : Measurement → Limits → Result (List BudgetProblem) Report
enforce m rules = elim (exceeded m rules) [
  | [] ↦ ok (record { measurement = m; limits = rules; problems = []; decision = codes "accept" })
  | p ∷ ps ↦
      if same (exceed_decision rules) (codes "reject")
      then err (p ∷ ps)
      else ok (record {
        measurement = m;
        limits = rules;
        problems = p ∷ ps;
        decision = exceed_decision rules;
      })
]
