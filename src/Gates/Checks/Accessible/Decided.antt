-- ===== src/Gates/Checks/Accessible/Decided.antt =====
-- What a result of `g5_udl` of pebs/gates.py says.
use pebs.Base.{
  ◌≢◌, refl, Bool, true, false, ◌||◌, ◌≡◌, ◌∙◌, ap, ◌↔◌, Option, none, some, List, [], ◌∷◌, Text,
  codes, ok, All, Bool-cases, inl, inr, arith,
}
use pebs.Gates.Results.{pass, Issue, GateResult}
use pebs.Gates.Documents.{
  Script, LearningGoal, LearningDesign, TeachingPlan, UdlOption, Udl, no_script, no_design, no_plan,
  Readers,
}
use pebs.Gates.Checks.{
  append_empty_iff, collected_empty_iff, and_then_ok, concluded_iff, collected, GateContext,
  document_in_use, require_rev, shown,
}
use pebs.Gates.Checks.Taught.{is_goal, document_of}
use pebs.Gates.Checks.Taught.Goals.{IsAim, is_goal_iff}
use pebs.Gates.Checks.Accessible.{
  issue_unless, option_issues, referral_issues, has_options, udl_strings, udl_issues, g5_udl,
}
use pebs.Gates.Checks.Accessible.Texts.{IsTextOf, udl_strings_iff}

-- Another way to the same goal, that demands as much.
pub record IsFair (goals : List LearningGoal) (o : UdlOption) : Type 0 where
  pub preserved : o.core_demand_preserved ≡ true
  pub same_goal : IsAim goals o.same_goal_ref
  pub named : (o.representation || o.action_expression || o.engagement) ≡ true

-- Barriers are looked at and fair options are offered, and no text refers a learner elsewhere.
pub record IsAccessible (is_referral : Text → Bool) (goals : List LearningGoal) (udl : Udl)
    : Type 0 where
  pub barriers : udl.barriers ≡ true
  pub offered : udl.options ≢ []
  pub fair : All (IsFair goals) udl.options
  pub kept_in_class : (t : Text) → IsTextOf t udl.value → is_referral t ≡ false

-- The plan has such an analysis.
abbrev pub HasAccess : (Text → Bool) → List LearningGoal → Option Udl → Type 0
HasAccess is_referral goals none = ⊥
HasAccess is_referral goals (some udl) = IsAccessible is_referral goals udl

issue_unless_iff : (b : Bool) (i : Issue) → (issue_unless b i ≡ []) ↔ (b ≡ true)
issue_unless_iff true i = ground arith
issue_unless_iff false i = ground arith

has_options_iff : (options : List UdlOption) → (has_options options ≡ true) ↔ (options ≢ [])
has_options_iff [] = (λ h. absurd (ground arith), λ h. absurd (h refl))
has_options_iff (o ∷ options) = (λ h e. ground arith, λ h. refl)

option_issues_iff :
    (section_id : Text) (goals : List LearningGoal) (o : UdlOption)
    → (option_issues section_id goals o ≡ []) ↔ IsFair goals o
unfolding option_issues
option_issues_iff section_id goals o = elim (Bool-cases o.core_demand_preserved) [
  | inr lowered ↦ (λ h. absurd (ground arith), λ f. absurd (ground (arith, f.preserved)))
  | inl preserved ↦ elim (Bool-cases (is_goal goals o.same_goal_ref)) [
    | inr elsewhere ↦ (
      λ h. absurd (ground arith),
      λ f. let k = (is_goal_iff goals o.same_goal_ref).1 f.same_goal in absurd (ground arith),
    )
    | inl same_goal ↦ elim (Bool-cases (o.representation || o.action_expression || o.engagement)) [
      | inr unnamed ↦ (λ h. absurd (ground arith), λ f. absurd (ground (arith, f.named)))
      | inl named ↦ (
        λ h. record {
          preserved = preserved;
          same_goal = (is_goal_iff goals o.same_goal_ref).0 same_goal;
          named = named;
        },
        λ f. ground arith,
      )
    ]
  ]
]

referral_issues_iff :
    (is_referral : Text → Bool) (section_id : Text) (p : Text × Text)
    → (referral_issues is_referral section_id p ≡ []) ↔ (is_referral p.1 ≡ false)
unfolding referral_issues
referral_issues_iff is_referral section_id p = elim (Bool-cases (is_referral p.1)) [
  | inl found ↦ (λ h. absurd (ground arith), λ h. absurd (ground arith))
  | inr clean ↦ (λ h. clean, λ h. ground arith)
]

udl_issues_iff :
    (is_referral : Text → Bool) (section_id : Text) (goals : List LearningGoal) (o : Option Udl)
    → (udl_issues is_referral section_id goals o ≡ []) ↔ HasAccess is_referral goals o
unfolding udl_issues
udl_issues_iff is_referral section_id goals none = (λ h. absurd (ground arith), λ a. absurd a)
udl_issues_iff is_referral section_id goals (some udl) =
    let strings = udl_strings (codes "udl") udl.value in
    let all4 = append_empty_iff _ (collected (referral_issues is_referral section_id) strings) in
    let all3 = append_empty_iff _ (collected (option_issues section_id goals) udl.options) in
    let fair =
      collected_empty_iff (option_issues section_id goals) (IsFair goals)
        (option_issues_iff section_id goals) udl.options in
    let kept =
      collected_empty_iff (referral_issues is_referral section_id)
        (λ (p : Text × Text). is_referral p.1 ≡ false) (referral_issues_iff is_referral section_id)
        strings in
    let listed = issue_unless_iff udl.barriers _ in
    let offered = issue_unless_iff (has_options udl.options) _ in
    let some_options = has_options_iff udl.options in
    let texts = udl_strings_iff (λ t. is_referral t ≡ false) (codes "udl") udl.value in
    let all2 = append_empty_iff _ _ in
    (
      λ h.
          let (h3, h4) = all4.0 h in
          let (h2, h5) = all3.0 h3 in
          let (b, o) = all2.0 h2 in
          record {
            barriers = listed.0 b;
            offered = some_options.0 (offered.0 o);
            fair = fair.0 h5;
            kept_in_class = texts.0 (kept.0 h4);
          },
      λ a. all4.1 (
        all3.1 (all2.1 (listed.1 a.barriers, offered.1 (some_options.1 a.offered)), fair.1 a.fair),
        kept.1 (texts.1 a.kept_in_class),
      ),
    )

-- What a result of `g5_udl` says: it is of the revision in use, and it is PASS exactly when the teaching
-- plan of the section has an analysis with barriers and at least one option, each option keeps the
-- demand, names a goal of the learning design and one of the dimensions, and no text that stands
-- anywhere in the analysis, in its objects and its lists, is a referral.
pub g5_udl_iff :
    (readers : Readers) (is_referral : Text → Bool) (rules_version script_artifact : Text)
    (ctx : GateContext) (r : GateResult)
    → g5_udl readers is_referral rules_version script_artifact ctx ≡ ok r
    → (require_rev script_artifact ctx ≡ ok (r.target_revision, r.target_hash))
      × (script : Script) × (design : LearningDesign) × (plan : TeachingPlan) × (document_in_use
            readers.read_script no_script script_artifact ctx
          ≡ ok script)
      × (document_of readers.read_design no_design (codes "learning_design") script ctx ≡ ok design)
      × (document_of readers.read_plan no_plan (codes "teaching_plan") script ctx ≡ ok plan)
      × ((r.status ≡ pass) ↔ HasAccess is_referral design.goals plan.udl)
unfolding g5_udl
g5_udl_iff readers is_referral rules_version script_artifact ctx r e =
    let (target, found, e2) = and_then_ok (require_rev script_artifact ctx) _ r e in
    let (script, read, e3) =
      and_then_ok (document_in_use readers.read_script no_script script_artifact ctx) _ r e2 in
    let (design, designed, e4) =
      and_then_ok (document_of readers.read_design no_design (codes "learning_design") script ctx) _
        r e3 in
    let (plan, planned, done) =
      and_then_ok (document_of readers.read_plan no_plan (codes "teaching_plan") script ctx) _ r
        e4 in
    let section_id = shown script.section_id in
    let (of_target, passes) =
      concluded_iff (codes "G5") script_artifact target
        (udl_issues is_referral section_id design.goals plan.udl) _ rules_version ctx.run_id r
        done in
    let decided = udl_issues_iff is_referral section_id design.goals plan.udl in
    (
      found ∙ ap ok of_target,
      script,
      design,
      plan,
      read,
      designed,
      planned,
      (λ h. decided.0 (passes.0 h), λ a. passes.1 (decided.1 a)),
    )
