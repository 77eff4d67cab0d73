-- ===== src/Gates/Checks/Required/Demands.antt =====
-- What the requirements ask of a script and of its section, and the issues of `g1_requirements` of
-- pebs/gates.py.
use pebs.Base.{
  ℕ, zero, suc, ◌⊎◌, maybe_dec, same, select, Bool-cases, if◌then◌else◌, ◌≤◌, Bool, true, false,
  ◌≡◌, ◌≢◌, refl, sym, ◌∙◌, ap, ◌↔◌, Option, none, some, List, [], ◌∷◌, ◌++◌, Text, codes, length,
  contains, ok, Option-cases, inl, inr, arith,
}
use pebs.Evidence.Whitespace.{starts_with, is_inside}
use pebs.Gates.Results.{Issue}
use pebs.Gates.Documents.{ScriptUnit, Script, Requirement, Section, Requirements, WordCount}
use pebs.Gates.Checks.{
  append_empty_iff, and_then_ok, GateContext, content_in_use, shown, script_units_of_kind,
}
use pebs.Gates.Checks.Required.{
  conflict_issues, is_set, word_issues, section_for, required_cases, case_count_issues,
  wanted_issues, assessment_issues, lesson_plan_issues, worksheet_issues, section_issues,
  term_issues,
}

-- Where the requirements set both bounds, the script's record of its words was made by the method of the
-- rules, and says that they lie within the bounds.
abbrev pub IsCounted : Text → Requirements → WordCount → Type 0
IsCounted counting_method reqs wc =
    (lo hi : ℕ)
    → reqs.word_min ≡ some (suc lo)
    → reqs.word_max ≡ some (suc hi)
    → (wc.method ≡ some counting_method) × (wc.in_range ≡ true)

-- The artifact has a content, if it is wanted.
abbrev pub IsThere : Bool → Text → GateContext → Type 0
IsThere wanted artifact_id ctx =
    wanted ≡ true → (content : Text) × (content_in_use artifact_id ctx ≡ ok (some content))

-- How many units of the script are cases.
abbrev pub cases_in : Script → ℕ
cases_in script = length (select (λ (u : ScriptUnit). same u.kind (codes "case")) script.units)

-- As many cases as the section asks for; where it gives no number but has the component, one.
pub record HasCases (s : Section) (script : Script) : Type 0 where
  pub as_many : (n : ℕ) → s.required_case_count ≡ some (suc n) → suc n ≤ cases_in script
  pub one :
      ((n : ℕ) → s.required_case_count ≢ some (suc n))
      → contains (codes "case") s.required_components ≡ true
      → 1 ≤ cases_in script

-- What a section of the requirements asks of a script.
abbrev pub IsComplete : Requirements → Script → GateContext → Section → Type 0
IsComplete reqs script ctx s =
    HasCases s script
    × IsThere (contains (codes "assessment") s.required_components)
        (codes "assessment:" ++ shown script.section_id) ctx
    × IsThere (contains (codes "lesson_plan") reqs.outputs)
        (codes "lesson_plan:" ++ shown script.section_id) ctx
    × IsThere (contains (codes "worksheet") reqs.outputs)
        (codes "worksheet:" ++ shown script.section_id) ctx

-- The first section with the identifier, if there is one, has the property.
abbrev pub OfFirst : (Section → Type 0) → Option Text → List Section → Type 0
OfFirst P section_id [] = Unit
OfFirst P section_id (s ∷ sections) =
    (s.section_id ≡ section_id → P s) × (s.section_id ≢ section_id → OfFirst P section_id sections)

-- The property of a section that may not be there.
abbrev pub IfThere : (Section → Type 0) → Option Section → Type 0
IfThere P none = Unit
IfThere P (some s) = P s

pub section_for_iff :
    (P : Section → Type 0) (section_id : Option Text) (sections : List Section)
    → IfThere P (section_for section_id sections) ↔ OfFirst P section_id sections
unfolding section_for
section_for_iff P section_id [] = (λ h. h, λ h. h)
section_for_iff P section_id (s ∷ sections) = elim (maybe_dec s.section_id section_id) [
  | yes e ↦
      let first : section_for section_id (s ∷ sections) ≡ some s = ground arith in
      rw first (λ h. (λ k. h, λ k. absurd (k e)), λ h. h.0 e)
  | no apart ↦
      let later : section_for section_id (s ∷ sections) ≡ section_for section_id sections =
        ground arith in
      let rest = section_for_iff P section_id sections in
      rw later (λ h. (λ k. absurd (apart k), λ k. rest.0 h), λ h. rest.1 (h.1 apart))
]

pub conflict_issues_iff :
    (i : Requirement) → (conflict_issues i ≡ []) ↔ (i.status ≢ codes "conflicted")
unfolding conflict_issues
conflict_issues_iff i = ground arith

set_cases :
    (o : Option ℕ)
    → ((n : ℕ) × (o ≡ some (suc n))) ⊎ (((n : ℕ) → o ≢ some (suc n)) × (is_set o ≡ false))
set_cases none = inr (λ n e. absurd (ground arith), refl)
set_cases (some zero) = inr (λ n e. absurd (ground arith), refl)
set_cases (some (suc n)) = inl (n, refl)

pub word_issues_iff :
    (counting_method artifact : Text) (reqs : Requirements) (wc : WordCount)
    → (word_issues counting_method artifact reqs wc ≡ []) ↔ IsCounted counting_method reqs wc
unfolding word_issues
word_issues_iff counting_method artifact reqs wc = elim (set_cases reqs.word_min) [
  | inr (unset, off) ↦ (λ h lo hi l u. absurd (unset lo l), λ h. ground arith)
  | inl (lo, low) ↦ elim (set_cases reqs.word_max) [
    | inr (unset, off) ↦ (λ h lo hi l u. absurd (unset hi u), λ h. ground arith)
    | inl (hi, high) ↦ (
      λ h lo2 hi2 l u. ground arith,
      λ h. let (counted, within) = h lo hi low high in ground arith,
    )
  ]
]

required_cases_of :
    (s : Section)
    → ((n : ℕ) × (s.required_case_count ≡ some (suc n)) × (required_cases s ≡ suc n))
      ⊎ (((n : ℕ) → s.required_case_count ≢ some (suc n))
          × (required_cases s
              ≡ (if contains (codes "case") s.required_components then suc zero else zero)))
unfolding required_cases
required_cases_of s = elim (set_cases s.required_case_count) [
  | inl (n, e) ↦ inl (n, e, ground arith)
  | inr (unset, off) ↦ inr (unset, ground arith)
]

required_cases_iff :
    (s : Section) (script : Script) → (required_cases s ≤ cases_in script) ↔ HasCases s script
unfolding required_cases
required_cases_iff s script = elim (required_cases_of s) [
  | inl (n, e, found) ↦ (
    λ h. record {
      as_many = λ m k.
          let same_count : suc m ≡ suc n = ground (arith, e, k) in ground (arith, e, h, same_count);
      one = λ k. absurd (k n e);
    },
    λ h. let k = h.as_many n e in ground (arith, e, k),
  )
  | inr (unset, found) ↦ (
    λ h. record { as_many = λ m k. absurd (unset m k); one = λ k wanted. ground (arith, found, h) },
    λ h. elim (Bool-cases (contains (codes "case") s.required_components)) [
      | inl wanted ↦ let k = h.one unset wanted in ground (arith, found, k)
      | inr unwanted ↦ ground (arith, found)
    ],
  )
]

case_count_issues_iff :
    (artifact : Text) (s : Section) (script : Script)
    → (case_count_issues artifact s script ≡ []) ↔ HasCases s script
unfolding case_count_issues script_units_of_kind
case_count_issues_iff artifact s script =
    let enough = required_cases_iff s script in
    (λ h. enough.0 (ground arith), λ h. let k = enough.1 h in ground arith)

is_inside_empty : (text : Text) → is_inside [] text ≡ true
unfolding is_inside starts_with
is_inside_empty [] = refl
is_inside_empty (c ∷ cs) = refl

pub term_issues_iff :
    (artifact text term : Text)
    → (term_issues artifact text term ≡ []) ↔ (is_inside term text ≡ true)
unfolding term_issues
term_issues_iff artifact text [] = (λ h. is_inside_empty text, λ h. refl)
term_issues_iff artifact text (c ∷ cs) = ground arith

wanted_issues_iff :
    (wanted : Bool) (artifact_id reason next_step : Text) (ctx : GateContext) (issues : List Issue)
    → wanted_issues wanted artifact_id reason next_step ctx ≡ ok issues
    → (issues ≡ []) ↔ IsThere wanted artifact_id ctx
unfolding wanted_issues
wanted_issues_iff false artifact_id reason next_step ctx issues e =
    (λ h k. absurd (ground arith), λ h. ground arith)
wanted_issues_iff true artifact_id reason next_step ctx issues e =
    let (found, looked, made) = and_then_ok (content_in_use artifact_id ctx) _ issues e in
    elim (Option-cases found) [
      | inl missing ↦
          (λ h. absurd (ground arith), λ h. let (content, there) = h refl in absurd (ground arith))
      | inr (content, there) ↦ (λ h k. (content, looked ∙ ap ok there), λ h. ground arith)
    ]

pub section_issues_iff :
    (artifact : Text) (reqs : Requirements) (script : Script) (s : Option Section)
    (ctx : GateContext) (issues : List Issue)
    → section_issues artifact reqs script s ctx ≡ ok issues
    → (issues ≡ []) ↔ IfThere (IsComplete reqs script ctx) s
unfolding section_issues
section_issues_iff artifact reqs script none ctx issues e = (λ h. tt, λ h. ground arith)
section_issues_iff artifact reqs script (some s) ctx issues e =
    let section_id = shown script.section_id in
    let (as1, a, rest) = and_then_ok (assessment_issues s section_id ctx) _ issues e in
    let (ls1, l, rest2) = and_then_ok (lesson_plan_issues reqs section_id ctx) _ issues rest in
    let (ws1, w, done) = and_then_ok (worksheet_issues reqs section_id ctx) _ issues rest2 in
    let cs1 = case_count_issues artifact s script in
    let parts : issues ≡ cs1 ++ as1 ++ ls1 ++ ws1 = ground arith in
    let counted = case_count_issues_iff artifact s script in
    let assessed = wanted_issues_iff _ _ _ _ ctx as1 a in
    let planned = wanted_issues_iff _ _ _ _ ctx ls1 l in
    let sheeted = wanted_issues_iff _ _ _ _ ctx ws1 w in
    let all = append_empty_iff (cs1 ++ as1 ++ ls1) ws1 in
    let three = append_empty_iff (cs1 ++ as1) ls1 in
    let two = append_empty_iff cs1 as1 in
    (
      λ h.
          let (h3, z) = all.0 (sym parts ∙ h) in
          let (h2, y) = three.0 h3 in
          let (c, x) = two.0 h2 in (counted.0 c, assessed.0 x, planned.0 y, sheeted.0 z),
      λ (c, x, y, z).
          parts ∙ all.1 (three.1 (two.1 (counted.1 c, assessed.1 x), planned.1 y), sheeted.1 z),
    )
