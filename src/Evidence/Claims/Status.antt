-- ===== src/Evidence/Claims/Status.antt =====
-- The status that `recompute_claim_status` of pebs/evidence.py derives from the results.
use pebs.Base.{ℕ, leb, not, Bool, true, ◌||◌, ◌≡◌, refl, ◌↔◌, List, [], ◌∷◌, arith, any, all}
use pebs.Evidence.Rows.{
  Verdict, pending, supported, qualify_required, unsupported, disputed, human_review_required,
}
use pebs.Evidence.Claims.{same_verdict, first_of, severity, derived_status}

-- What each result says alone.
abbrev is_open_or_supported : Verdict → Bool
is_open_or_supported v = same_verdict v supported || same_verdict v pending

-- The position in `_SEVERITY`.
rank : Verdict → ℕ
rank disputed = 0
rank unsupported = 1
rank human_review_required = 2
rank qualify_required = 3
rank supported = 4
rank pending = 5

no_worse :
    (xs : List Verdict)
    → all is_open_or_supported xs
      ≡ not (
          any (same_verdict disputed) xs
          || any (same_verdict unsupported) xs
          || any (same_verdict human_review_required) xs
          || any (same_verdict qualify_required) xs)
unfolding all any same_verdict
no_worse [] = refl
no_worse (x ∷ xs) = ground (arith, no_worse xs)

all_supported :
    (xs : List Verdict)
    → all (same_verdict supported) xs ≡ true
    → all is_open_or_supported xs ≡ true
unfolding all same_verdict
all_supported [] h = refl
all_supported (x ∷ xs) h = ground (arith, all_supported xs)

supported_head :
    (r : Verdict) (rs : List Verdict)
    → all (same_verdict supported) (r ∷ rs) ≡ true
    → any (same_verdict supported) (r ∷ rs) ≡ true
unfolding all any
supported_head r rs h = ground arith

at_least :
    (n : ℕ) (xs : List Verdict)
    → ((v : Verdict) → any (same_verdict v) xs ≡ true → leb n (rank v) ≡ true)
    → all (λ x. leb n (rank x)) xs ≡ true
unfolding all any same_verdict
at_least n [] h = refl
at_least n (x ∷ xs) h = ground (arith, at_least n xs, h x)

-- The status is SUPPORTED exactly when some result is SUPPORTED and no result is worse than PENDING.
derived_status-supported_iff :
    (results : List Verdict)
    → (derived_status results ≡ supported)
      ↔ (any (same_verdict supported) results ≡ true) × (all is_open_or_supported results ≡ true)
unfolding derived_status first_of
derived_status-supported_iff [] =
    (λ h. absurd (ground arith), λ h. absurd (unfold any in ground arith))
derived_status-supported_iff (r ∷ rs) =
    ground (arith, no_worse (r ∷ rs), all_supported (r ∷ rs), supported_head r rs)

first_of-derived_status :
    (r : Verdict) (rs : List Verdict) → derived_status (r ∷ rs) ≡ first_of severity (r ∷ rs)
unfolding derived_status first_of
first_of-derived_status r rs =
    ground (arith, no_worse (r ∷ rs), all_supported (r ∷ rs), supported_head r rs)

rank-first_of :
    (v : Verdict) (xs : List Verdict)
    → any (same_verdict v) xs ≡ true
    → leb (rank (first_of severity xs)) (rank v) ≡ true
unfolding first_of rank
rank-first_of pending xs h = ground arith
rank-first_of supported xs h = ground arith
rank-first_of qualify_required xs h = ground arith
rank-first_of unsupported xs h = ground arith
rank-first_of disputed xs h = ground arith
rank-first_of human_review_required xs h = ground arith

first_of-occurs :
    (v : Verdict) (xs : List Verdict)
    → any (same_verdict v) xs ≡ true
    → any (same_verdict (first_of severity xs)) xs ≡ true
unfolding first_of
first_of-occurs pending xs h = ground arith
first_of-occurs supported xs h = ground arith
first_of-occurs qualify_required xs h = ground arith
first_of-occurs unsupported xs h = ground arith
first_of-occurs disputed xs h = ground arith
first_of-occurs human_review_required xs h = ground arith

same_verdict_refl : (v : Verdict) → same_verdict v v ≡ true
unfolding same_verdict
same_verdict_refl pending = refl
same_verdict_refl supported = refl
same_verdict_refl qualify_required = refl
same_verdict_refl unsupported = refl
same_verdict_refl disputed = refl
same_verdict_refl human_review_required = refl

-- The status that is derived from one result or more is the worst of them, in the order of
-- `_SEVERITY`: it is one of them, and none of them stands before it.
derived_status-rank :
    (r : Verdict) (rs : List Verdict)
    → (any (same_verdict (derived_status (r ∷ rs))) (r ∷ rs) ≡ true)
      × (all (λ x. leb (rank (derived_status (r ∷ rs))) (rank x)) (r ∷ rs) ≡ true)
derived_status-rank r rs =
    let here : any (same_verdict r) (r ∷ rs) ≡ true =
      unfold any in ground (arith, same_verdict_refl r) in
    rw (first_of-derived_status r rs) (
      first_of-occurs r (r ∷ rs) here,
      at_least (rank (first_of severity (r ∷ rs))) (r ∷ rs) (λ v h. rank-first_of v (r ∷ rs) h),
    )
