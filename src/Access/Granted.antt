-- ===== src/Access/Granted.antt =====
-- What `skill` and `provider` of pebs/permissions.py grant.
use pebs.Base.{
  true, false, not, ◌||◌, ◌≡◌, refl, ◌↔◌, ◌⊎◌, inl, inr, Option, none, some, [], ◌∷◌, Text, arith,
  contains, ok, Option-cases, Result-cases,
}
use pebs.Access.{
  SkillEntry, Registry, PermissionManager, is_denied, canonical_name, entry_of, is_approved,
  is_enabled, needs_sandbox, check_record, skill, providers_of, check_provider, provider,
}

-- What a skill must meet to be granted under a name, and the record that is granted.
pub record IsGranted (pm : PermissionManager) (reg : Registry) (name : Text) (r : SkillEntry)
    : Type 0 where
  pub not_denied : is_denied name reg ≡ false
  pub allowed : contains (canonical_name name reg) pm.allowed_skills ≡ true
  pub registered : entry_of (canonical_name name reg) pm reg ≡ some r
  pub approved : is_approved r ≡ true
  pub enabled : is_enabled r ≡ true
  pub sandboxed : (not (needs_sandbox r) || reg.has_sandbox) ≡ true

-- A skill is granted under a name exactly when the name is not denied and the skill that it names is
-- on the allowlist, registered with the record that is returned, approved and enabled, and a sandbox
-- is there if its policy needs one.
pub skill_iff :
    (pm : PermissionManager) (reg : Registry) (name : Text) (r : SkillEntry)
    → (skill pm reg name ≡ ok r) ↔ IsGranted pm reg name r
unfolding skill check_record
skill_iff pm reg name r = (
  λ h. elim (Option-cases (entry_of (canonical_name name reg) pm reg)) [
    | inl unknown ↦ absurd (ground arith)
    | inr (q, known) ↦
        let as_q : q ≡ r = ground arith in
        record {
          not_denied = ground arith;
          allowed = ground arith;
          registered = ground arith;
          approved = ground arith;
          enabled = ground arith;
          sandboxed = ground arith;
        }
  ],
  λ g. ground (arith, g.not_denied, g.allowed, g.registered, g.approved, g.enabled, g.sandboxed),
)

check_provider_iff :
    (p : Option Text) (r : SkillEntry)
    → (check_provider p r ≡ ok tt) ↔ (
        (p ≡ none)
        ⊎ ((p ≡ some []) ⊎ ((q : Text) × (p ≡ some q) × (contains q (providers_of r) ≡ true))))
check_provider_iff none r = (λ h. inl refl, λ h. refl)
check_provider_iff (some []) r = (λ h. inr (inl refl), λ h. refl)
check_provider_iff (some (c ∷ cs)) r = (
  λ h. inr (inr (c ∷ cs, refl, ground arith)),
  λ h. elim h [
    | inl e ↦ absurd (ground arith)
    | inr (inl e) ↦ absurd (ground arith)
    | inr (inr (q, e, m)) ↦ ground arith
  ],
)

-- A call of a provider for a skill passes exactly when the skill is granted and the provider is left
-- out, empty, or one of those that the skill's record lists.
provider_iff :
    (pm : PermissionManager) (reg : Registry) (name : Text) (p : Option Text)
    → (provider pm reg name p ≡ ok tt) ↔ (
        (r : SkillEntry) × IsGranted pm reg name r
        × ((p ≡ none)
            ⊎ ((p ≡ some []) ⊎ ((q : Text) × (p ≡ some q) × (contains q (providers_of r) ≡ true)))))
unfolding provider
provider_iff pm reg name p = (
  λ h. elim (Result-cases (skill pm reg name)) [
    | inl (r, granted) ↦
        (r, (skill_iff pm reg name r).0 granted, (check_provider_iff p r).0 (ground arith))
    | inr (e, refused) ↦ absurd (ground arith)
  ],
  λ (r, granted, listed).
      ground (arith, (skill_iff pm reg name r).1 granted, (check_provider_iff p r).1 listed),
)
