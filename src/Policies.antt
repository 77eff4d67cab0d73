-- ===== src/Policies.antt =====
-- The checks of pebs/policies.py on the records of skills and on providers. The contents of
-- patch_policies.json and providers.json are arguments; a policy that is missing is `no_policy`.
pub mod Obeyed
use pebs.Base.{
  Bool, true, false, not, ◌&&◌, ◌||◌, Option, none, some, List, [], ◌∷◌, ◌++◌, Text, codes, same,
  same_maybe, if◌then◌else◌, any, contains,
}
use pebs.Access.{is_prefix}

pub record Policy : Type 0 where
  pub status : Option Text
  pub requires_supported_evidence : Bool

abbrev pub no_policy : Policy
no_policy = record { status = none; requires_supported_evidence = false }

unfoldable pub exact_policy : Text → List (Text × Policy) → Option Policy
exact_policy skill_name [] = none
exact_policy skill_name ((name, policy) ∷ policies) =
    if same name skill_name then some policy else exact_policy skill_name policies

unfoldable pub prefix_policy : Text → List (Text × Policy) → Policy
prefix_policy skill_name [] = no_policy
prefix_policy skill_name ((name, policy) ∷ policies) =
    if is_prefix name skill_name then policy else prefix_policy skill_name policies

unfoldable pub policy_for : List (Text × Policy) → Text → Policy
policy_for policies skill_name = elim (exact_policy skill_name policies) [
  | some policy ↦ policy
  | none ↦ prefix_policy skill_name policies
]

-- What the check reads of the record of a skill.
pub record PolicyView : Type 0 where
  pub name : Text
  pub status : Option Text
  pub enabled_by_default : Bool
  pub precondition_kinds : List Text

pub data PolicyError : Type 0 where
  not_disabled enabled_against_policy evidence_not_declared : Text → PolicyError

abbrev pub must_be_disabled : Policy → Bool
must_be_disabled policy = same_maybe policy.status (some (codes "DISABLED"))

-- `record.get("status") in ("DISABLED", "REFERENCE_ONLY")`
abbrev pub is_retired : PolicyView → Bool
is_retired r =
    same_maybe r.status (some (codes "DISABLED"))
    || same_maybe r.status (some (codes "REFERENCE_ONLY"))

unfoldable pub disabled_errors : PolicyView → List PolicyError
disabled_errors r =
    (if is_retired r then [] else not_disabled r.name ∷ [])
    ++ (if r.enabled_by_default then enabled_against_policy r.name ∷ [] else [])

unfoldable pub check_skill_record : List (Text × Policy) → PolicyView → List PolicyError
check_skill_record policies r =
    let policy = policy_for policies r.name in
    (if must_be_disabled policy then disabled_errors r else [])
    ++ (if policy.requires_supported_evidence
          && not (contains (codes "supported_claims") r.precondition_kinds)
        then evidence_not_declared r.name ∷ []
        else [])

-- `providers` gives the `initial_allowlist` of each provider.
unfoldable pub allowlist_of : Text → List (Text × List Text) → List Text
allowlist_of provider [] = []
allowlist_of provider ((name, allowed) ∷ providers) =
    if same name provider then allowed else allowlist_of provider providers

unfoldable pub external_provider_allowed : List (Text × List Text) → Text → Text → Bool
external_provider_allowed providers skill_name provider =
    any (λ allowed. same skill_name allowed || is_prefix allowed skill_name)
      (allowlist_of provider providers)
