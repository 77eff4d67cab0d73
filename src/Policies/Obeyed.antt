-- ===== src/Policies/Obeyed.antt =====
-- When `check_skill_record` of pebs/policies.py has no error.
use pebs.Base.{true, not, ◌||◌, ◌≡◌, ◌↔◌, List, [], Text, codes, contains, arith}
use pebs.Policies.{
  Policy, policy_for, PolicyView, must_be_disabled, is_retired, disabled_errors, check_skill_record,
}

-- A record that obeys its policy.
pub record IsObedient (policy : Policy) (r : PolicyView) : Type 0 where
  pub retired : (not (must_be_disabled policy) || is_retired r) ≡ true
  pub off : (not (must_be_disabled policy) || not r.enabled_by_default) ≡ true
  pub declares :
      (not policy.requires_supported_evidence
        || contains (codes "supported_claims") r.precondition_kinds)
      ≡ true

-- The check of a record has no error exactly when it obeys the policy of its skill: where the policy
-- disables it, its status is DISABLED or REFERENCE_ONLY and it is not enabled by default; where the
-- policy requires supported evidence, it declares the precondition on supported claims.
pub check_skill_record_iff :
    (policies : List (Text × Policy)) (r : PolicyView)
    → (check_skill_record policies r ≡ []) ↔ IsObedient (policy_for policies r.name) r
unfolding check_skill_record disabled_errors
check_skill_record_iff policies r = (
  λ h. record { retired = ground arith; off = ground arith; declares = ground arith },
  λ o. ground (arith, o.retired, o.off, o.declares),
)
