-- ===== src/Tests/Policing.antt =====
-- A policy that disables a family of skills, and one that requires evidence.
use native.Mathlib.Decide.{ℕ_discrete}
use pebs.Base.{
  ◌≡◌, ◌↔◌, refl, true, false, none, some, List, [], ◌∷◌, codes, Text, text_dec, maybe_dec,
  contains,
}
use pebs.Access.{is_prefix}
use pebs.Policies.{
  Policy, PolicyView, enabled_against_policy, exact_policy, prefix_policy, policy_for,
  disabled_errors, check_skill_record,
}
use pebs.Policies.Obeyed.{IsObedient, check_skill_record_iff}

program : Unit {0}
unfolding text_dec maybe_dec ℕ_discrete contains is_prefix exact_policy prefix_policy policy_for
    disabled_errors check_skill_record
program = tt

abbrev policies : List (Text × Policy)
policies =
    ((
      codes "video",
      record { status = some (codes "DISABLED"); requires_supported_evidence = false },
    ))
    ∷ ((codes "pck", record { status = none; requires_supported_evidence = true }))
    ∷ []

abbrev clip : PolicyView
clip = record {
  name = codes "video-clip";
  status = some (codes "DISABLED");
  enabled_by_default = true;
  precondition_kinds = [];
}

refused : check_skill_record policies clip ≡ enabled_against_policy (codes "video-clip") ∷ []
unfolding program
refused = refl

check_skill_record_iff_example :
    (check_skill_record policies clip ≡ [])
    ↔ IsObedient (policy_for policies (codes "video-clip")) clip
check_skill_record_iff_example = check_skill_record_iff policies clip
