-- ===== src/Preconditions/Supported.antt =====
-- When `check_supported_claims` of pebs/preconditions.py finds no problem.
use pebs.Base.{
  append_empty, Some, ℕ, Bool, true, false, ◌≡◌, ◌≢◌, refl, ◌↔◌, inl, inr, Option, none, some, List,
  [], ◌∷◌, Text, codes, text_dec, arith, if◌then◌else◌, All, pos, negsuc, Option-cases, Bool-cases,
}
use pebs.Planner.Contracts.{Precondition}
use pebs.Evidence.Whitespace.{strip}
use pebs.Evidence.Rows.{
  Verdict, pending, supported, qualify_required, unsupported, disputed, human_review_required,
  Claim, EvidenceStore,
}
use pebs.Evidence.Claims.{find_claim, latest_version, same_verdict}
use pebs.Preconditions.{
  Entry, not_a_dict, entry, Problem, filled, placeholder, is_in_scope, check_text, check_consumed,
  check_claim, check_entry, check_entries, scope_of, conclude, check_supported_claims,
  declared_scope, evaluate, block_reason,
}

-- A claim that may be consumed: SUPPORTED, the latest, for a named population, no placeholder.
pub record IsConsumable (s : EvidenceStore) (claim_id : Text) (version : ℕ) (c : Claim)
    : Type 0 where
  pub is_supported : c.status ≡ supported
  pub is_latest : latest_version claim_id s.claims ≡ version
  pub for_population : strip c.population ≢ []
  pub is_verified : strip c.usage ≢ placeholder

module _ (scope : Option (List Text)) (s : EvidenceStore) where
  -- An entry names a claim version of the store with a usage, and if it is in scope it may be consumed.
  pub record IsFit (e : Entry) : Type 0 where
    pub claim_id : Text
    pub version : ℕ
    pub claim : Claim
    pub names : e ≡ entry claim_id (some (pos version))
    pub named : claim_id ≢ []
    pub known : find_claim claim_id version s.claims ≡ some claim
    pub used : strip claim.usage ≢ []
    pub consumable :
        is_in_scope scope (strip claim.usage) ≡ true → IsConsumable s claim_id version claim

  same_verdict-supported : (v : Verdict) → same_verdict v supported ≡ true → v ≡ supported
  unfolding same_verdict
  same_verdict-supported supported h = refl
  same_verdict-supported pending h = cc
  same_verdict-supported qualify_required h = cc
  same_verdict-supported unsupported h = cc
  same_verdict-supported disputed h = cc
  same_verdict-supported human_review_required h = cc

  filled-nil : (t : Text) → filled t ≡ true → t ≢ []
  filled-nil [] h e = cc
  filled-nil (c ∷ cs) h e = cc

  filled_text : (t : Text) → t ≢ [] → filled t ≡ true
  filled_text [] h = absurd (h refl)
  filled_text (c ∷ cs) h = refl

  check_consumed-clear :
      (claim_id : Text) (version : ℕ) (c : Claim)
      → check_consumed s claim_id version c ≡ []
      → IsConsumable s claim_id version c
  unfolding check_consumed check_text
  check_consumed-clear claim_id version c h = record {
    is_supported = same_verdict-supported c.status (ground arith);
    is_latest = ground arith;
    for_population = filled-nil (strip c.population) (ground arith);
    is_verified = λ e. ground arith;
  }

  consumable-clear :
      (claim_id : Text) (version : ℕ) (c : Claim)
      → IsConsumable s claim_id version c
      → check_consumed s claim_id version c ≡ []
  unfolding check_consumed check_text same_verdict
  consumable-clear claim_id version c h = ground (
    arith,
    h.is_supported,
    h.is_latest,
    filled_text (strip c.population) h.for_population,
    h.is_verified,
  )

  check_claim-IsFit :
      (c : ℕ) (cs : Text) (version : ℕ)
      → (check_claim scope s (c ∷ cs) version).0 ≡ []
      → IsFit (entry (c ∷ cs) (some (pos version)))
  unfolding check_claim
  check_claim-IsFit c cs version h = elim (Option-cases (find_claim (c ∷ cs) version s.claims)) [
    | inl unknown ↦ absurd (ground arith)
    | inr (claim, known) ↦ record {
      claim_id = c ∷ cs;
      version = version;
      claim = claim;
      names = refl;
      named = λ e. cc;
      known = known;
      used = filled-nil (strip claim.usage) (ground arith);
      consumable = λ inside. check_consumed-clear (c ∷ cs) version claim (ground arith);
    }
  ]

  check_entry-IsFit : (e : Entry) → (check_entry scope s e).0 ≡ [] → IsFit e
  unfolding check_entry
  check_entry-IsFit not_a_dict h = absurd (ground arith)
  check_entry-IsFit (entry [] v) h = absurd (ground arith)
  check_entry-IsFit (entry (c ∷ cs) none) h = absurd (ground arith)
  check_entry-IsFit (entry (c ∷ cs) (some (negsuc n))) h = absurd (ground arith)
  check_entry-IsFit (entry (c ∷ cs) (some (pos n))) h = check_claim-IsFit c cs n h

  runs-fit :
      (e : Entry) (h : IsFit e)
      → check_entry scope s e ≡ (
          if is_in_scope scope (strip h.claim.usage)
          then (check_consumed s h.claim_id h.version h.claim, true)
          else ([], false))
  unfolding check_entry check_claim
  runs-fit e h = rw h.names (go h.claim_id h.named h.known)
    where
      go :
          (claim_id : Text)
          → claim_id ≢ []
          → find_claim claim_id h.version s.claims ≡ some h.claim
          → check_entry scope s (entry claim_id (some (pos h.version))) ≡ (
              if is_in_scope scope (strip h.claim.usage)
              then (check_consumed s claim_id h.version h.claim, true)
              else ([], false))
      go [] named known = absurd (named refl)
      go (c ∷ cs) named known = ground (arith, filled_text (strip h.claim.usage) h.used)

  fit-clear : (e : Entry) → IsFit e → (check_entry scope s e).0 ≡ []
  fit-clear e h = elim (Bool-cases (is_in_scope scope (strip h.claim.usage))) [
    | inr outside ↦ ground (arith, runs-fit e h)
    | inl inside ↦
        ground
          (arith, runs-fit e h, consumable-clear h.claim_id h.version h.claim (h.consumable inside))
  ]

  -- An entry that is fit and in scope.
  abbrev pub IsConsumed : Entry → Type 0
  IsConsumed e = (h : IsFit e) × (is_in_scope scope (strip h.claim.usage) ≡ true)

  check_entries-clear :
      (es : List Entry)
      → (check_entries scope s es).0 ≡ []
      → All IsFit es × ((check_entries scope s es).1 ≡ true → Some IsConsumed es)
  unfolding check_entries
  check_entries-clear [] h = (tt, λ k. cc)
  check_entries-clear (e ∷ es) h =
      let here : IsFit e = check_entry-IsFit e (ground arith) in
      let later = check_entries-clear es (ground arith) in
      (
        (here, later.0),
        λ k. elim (Bool-cases (is_in_scope scope (strip here.claim.usage))) [
          | inl inside ↦ inl (here, inside)
          | inr outside ↦ inr (later.1 (ground (arith, runs-fit e here)))
        ],
      )

  clear_entries : (es : List Entry) → All IsFit es → (check_entries scope s es).0 ≡ []
  unfolding check_entries
  clear_entries [] h = refl
  clear_entries (e ∷ es) h = ground (arith, fit-clear e h.0, clear_entries es h.1)

  consumed_entries : (es : List Entry) → Some IsConsumed es → (check_entries scope s es).1 ≡ true
  unfolding check_entries
  consumed_entries [] h = absurd h
  consumed_entries (e ∷ es) (inl (h, inside)) = ground (arith, runs-fit e h)
  consumed_entries (e ∷ es) (inr later) = ground (arith, consumed_entries es later)

conclude_iff : (r : List Problem × Bool) → (conclude r ≡ []) ↔ (r.0 ≡ []) × (r.1 ≡ true)
unfolding conclude
conclude_iff ([], false) = (λ h. absurd (ground arith), λ h. absurd (ground arith))
conclude_iff ([], true) = (λ h. (refl, refl), λ h. refl)
conclude_iff (p ∷ ps, b) = (λ h. absurd (ground arith), λ h. absurd (ground arith))

-- The check finds no problem in an index that lists claims exactly when each entry names a claim
-- version of the store that declares a usage and, if its usage is in scope, is SUPPORTED, the latest
-- version, for a named population and no placeholder, and when some entry is in scope.
pub check_supported_claims_iff :
    (s : EvidenceStore) (e : Entry) (es : List Entry) (usage_scope : List Text)
    → (check_supported_claims s (some (e ∷ es)) usage_scope ≡ [])
      ↔ All (IsFit (scope_of usage_scope) s) (e ∷ es)
        × Some (IsConsumed (scope_of usage_scope) s) (e ∷ es)
unfolding check_supported_claims
check_supported_claims_iff s e es usage_scope =
    let scope = scope_of usage_scope in
    let both = conclude_iff (check_entries scope s (e ∷ es)) in
    (
      λ h.
          (let clear = check_entries-clear scope s (e ∷ es) (both.0 h).0 in
            (clear.0, clear.1 (both.0 h).1)),
      λ h. both.1 (clear_entries scope s (e ∷ es) h.0, consumed_entries scope s (e ∷ es) h.1),
    )

-- A precondition that is implemented and whose check finds no problem.
abbrev pub IsMet : EvidenceStore → Option (List Entry) → Precondition → Type 0
IsMet s entries p =
    (p.kind ≡ codes "supported_claims") × (check_supported_claims s entries (declared_scope p) ≡ [])

evaluate_iff :
    (s : EvidenceStore) (entries : Option (List Entry)) (ps : List Precondition)
    → (evaluate s entries ps ≡ []) ↔ All (IsMet s entries) ps
unfolding evaluate
evaluate_iff s entries [] = (λ h. tt, λ h. refl)
evaluate_iff s entries (p ∷ ps) = (
  λ h. elim (text_dec p.kind (codes "supported_claims")) [
    | yes e ↦
        let both =
          append_empty (check_supported_claims s entries (declared_scope p)) (evaluate s entries ps)
            (ground arith) in
        ((e, both.0), (evaluate_iff s entries ps).0 both.1)
    | no other ↦ absurd (ground arith)
  ],
  λ h. ground (arith, (evaluate_iff s entries ps).1 h.1),
)

-- A node is not blocked exactly when each of its preconditions is one that is implemented and whose
-- check finds no problem.
block_reason_iff :
    (s : EvidenceStore) (entries : Option (List Entry)) (preconditions : List Precondition)
    → (block_reason s entries preconditions ≡ none) ↔ All (IsMet s entries) preconditions
unfolding block_reason
block_reason_iff s entries preconditions =
    let both = evaluate_iff s entries preconditions in
    (λ h. both.0 (ground arith), λ h. ground (arith, both.1 h))
