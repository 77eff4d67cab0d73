-- ===== src/Tests/Accessing.antt =====
-- A teaching plan with an analysis of barriers, and what the gate on it says.
use native.Mathlib.Decide.{ℕ_discrete}
use pebs.Base.{
  Bool, true, false, ◌≡◌, ◌↔◌, refl, some, [], ◌∷◌, Text, codes, text_dec, ok, decimal, digits_from,
  take, row_for, any,
}
use pebs.Evidence.Whitespace.{is_inside, starts_with}
use pebs.Store.Artifacts.{get_revision, accepted_revision, accepted_rev_id}
use pebs.Store.Listings.{accepted_content}
use pebs.Gates.Documents.{
  string, object, array, member, no_member, element, no_element, Udl, Script, LearningDesign,
  TeachingPlan, no_script, no_design, no_plan, Readers,
}
use pebs.Gates.Results.{GateStatus, pass, fail, override_for, rev_in_use}
use pebs.Gates.Checks.{collected, content_in_use, document_in_use, require_rev, make_result}
use pebs.Gates.Checks.Taught.{document_of}
use pebs.Gates.Checks.Accessible.{
  udl_strings, member_strings, element_strings, option_issues, referral_issues, udl_issues, g5_udl,
}
use pebs.Gates.Checks.Accessible.Decided.{HasAccess, g5_udl_iff}
use pebs.Tests.Judging.{readers, teaching_context, result, status_of}

program : Unit {0}
unfolding text_dec ℕ_discrete decimal digits_from take row_for any is_inside starts_with
    get_revision accepted_revision accepted_rev_id accepted_content override_for rev_in_use
    collected content_in_use document_in_use require_rev make_result udl_strings member_strings
    element_strings option_issues referral_issues udl_issues g5_udl
program = tt

abbrev udl_with : Text → Udl
udl_with support = record {
  value = object (member (codes "options") (array (element (string support) no_element)) no_member);
  barriers = true;
  options =
      record {
        core_demand_preserved = true;
        same_goal_ref = some (codes "g");
        representation = true;
        action_expression = false;
        engagement = false;
      }
      ∷ [];
}

abbrev plan_readers : Text → Readers
plan_readers support = record (readers []) {
  read_plan = λ t. record { strategies = []; pck_notes = true; udl = some (udl_with support) };
}

-- Stands for the patterns of referrals.
abbrev is_referral : Text → Bool
is_referral text = is_inside (codes "see a doctor") text

supported_in_class :
    status_of (
      g5_udl
        (plan_readers (codes "pairs"))
        is_referral
        (codes "v")
        (codes "script:1")
        teaching_context)
    ≡ some pass
unfolding program
supported_in_class = refl

referred :
    status_of (
      g5_udl
        (plan_readers (codes "see a doctor"))
        is_referral
        (codes "v")
        (codes "script:1")
        teaching_context)
    ≡ some fail
unfolding program
referred = refl

g5_udl_iff_example :
    (require_rev (codes "script:1") teaching_context ≡ ok (codes "s", codes "h"))
    × (script : Script) × (design : LearningDesign) × (plan : TeachingPlan) × (document_in_use
          (plan_readers (codes "pairs")).read_script
          no_script
          (codes "script:1")
          teaching_context
        ≡ ok script)
    × (document_of
          (plan_readers (codes "pairs")).read_design
          no_design
          (codes "learning_design")
          script
          teaching_context
        ≡ ok design)
    × (document_of
          (plan_readers (codes "pairs")).read_plan
          no_plan
          (codes "teaching_plan")
          script
          teaching_context
        ≡ ok plan)
    × ((GateStatus.pass ≡ pass) ↔ HasAccess is_referral design.goals plan.udl)
unfolding program
g5_udl_iff_example =
    g5_udl_iff (plan_readers (codes "pairs")) is_referral (codes "v") (codes "script:1")
      teaching_context (result (codes "G5") ((codes "teaching_plan", codes "t") ∷ [])) refl
