-- ===== src/Evidence/Claims.antt =====
-- The claims section of pebs/evidence.py. The slug of a text is cut from what the argument `sha1`
-- gives as the hexadecimal digest of the text.
pub mod Status
use pebs.Base.{
  take, ℕ, zero, suc, ◌+◌, Bool, true, false, not, ◌&&◌, Option, none, some, List, [], ◌∷◌, ◌++◌,
  Text, codes, same, ◌==◌, if◌then◌else◌, select, any, all, max_of, map, ref_id, contains, amend,
  row_for, ok, err, Exec, pure, raise, gets, modify, raise_if, ◌>>=◌, ◌>>◌,
}
use pebs.Evidence.Whitespace.{normalize}
use pebs.Evidence.Rows.{
  Verdict, pending, supported, qualify_required, unsupported, disputed, human_review_required,
  verdict_name, verdict_of, claim_types, Claim, Assessment, EvidenceStore, EvidenceError,
  invalid_claim_type, invalid_status, claim_not_found, integrity_error,
}

abbrev pub EvidenceExec : Type 0 → Type 0
EvidenceExec A = Exec EvidenceStore EvidenceError A

unfoldable pub slug : (Text → Text) → Text → Text
slug sha1 text = take 10 (sha1 (normalize text))

unfoldable pub latest_version : Text → List Claim → ℕ
latest_version claim_id claims =
    max_of (λ c. c.version) (select (λ c. same c.claim_id claim_id) claims)

-- INSERT INTO claims, which fails where the primary key is taken
unfoldable pub insert_claim : Claim → EvidenceExec Unit
insert_claim c s = elim (row_for (λ d. d.revision_id) c.revision_id s.claims) [
  | some old ↦ (err (integrity_error c.revision_id), s)
  | none ↦ (ok tt, record s { claims = s.claims ++ c ∷ [] })
]

-- `claim_id or ("clm_" + _slug(text))`
abbrev pub chosen_id : (Text → Text) → Text → Option Text → Text
chosen_id sha1 text (some (c ∷ cs)) = c ∷ cs
chosen_id sha1 text _ = codes "clm_" ++ slug sha1 text

abbrev pub claim_row : ℕ → Text → Text → Text → Text → Text → EvidenceStore → Claim
claim_row now claim_id text claim_type population usage s =
    let version = latest_version claim_id s.claims + 1 in
    record {
      revision_id = ref_id b'v' claim_id version;
      claim_id = claim_id;
      project_id = s.project_id;
      version = version;
      text = text;
      claim_type = claim_type;
      population = population;
      usage = usage;
      status = pending;
      created_at = now;
    }

unfoldable pub add_claim :
    (Text → Text) → ℕ → Text → Text → Text → Text → Option Text → EvidenceExec Claim
add_claim sha1 now text claim_type population usage claim_id = do
  raise_if (not (contains claim_type claim_types)) (invalid_claim_type claim_type)
  row ← gets (claim_row now (chosen_id sha1 text claim_id) text claim_type population usage)
  insert_claim row
  pure row

-- The first row of SELECT * FROM claims WHERE claim_id = ? AND version = ?
unfoldable pub find_claim : Text → ℕ → List Claim → Option Claim
find_claim claim_id version [] = none
find_claim claim_id version (c ∷ cs) =
    if same c.claim_id claim_id && c.version == version
    then some c
    else find_claim claim_id version cs

abbrev pub version_or_latest : Text → Option ℕ → EvidenceStore → ℕ
version_or_latest claim_id none s = latest_version claim_id s.claims
version_or_latest claim_id (some v) s = v

unfoldable pub get_claim : Text → Option ℕ → EvidenceExec Claim
get_claim claim_id version s =
    let v = version_or_latest claim_id version s in
    elim (find_claim claim_id v s.claims) [
      | none ↦ (err (claim_not_found claim_id v), s)
      | some c ↦ (ok c, s)
    ]

unfoldable pub set_claim_status : Text → Text → EvidenceExec Unit
set_claim_status claim_rev status s = elim (verdict_of status) [
  | none ↦ (err (invalid_status status), s)
  | some v ↦ (
    ok tt,
    record s {
      claims = amend (λ c. c.revision_id) claim_rev (λ c. record c { status = v }) s.claims;
    },
  )
]

unfoldable pub same_verdict : Verdict → Verdict → Bool
same_verdict pending pending = true
same_verdict supported supported = true
same_verdict qualify_required qualify_required = true
same_verdict unsupported unsupported = true
same_verdict disputed disputed = true
same_verdict human_review_required human_review_required = true
same_verdict _ _ = false

-- `_SEVERITY`
abbrev pub severity : List Verdict
severity =
    disputed ∷ unsupported ∷ human_review_required ∷ qualify_required ∷ supported ∷ pending ∷ []

-- `next((s for s in _SEVERITY if s in results), "PENDING")`
unfoldable pub first_of : List Verdict → List Verdict → Verdict
unfolding same_verdict
first_of [] results = pending
first_of (v ∷ vs) results = if any (same_verdict v) results then v else first_of vs results

unfoldable pub derived_status : List Verdict → Verdict
unfolding first_of
derived_status [] = pending
derived_status (r ∷ rs) =
    if all (same_verdict supported) (r ∷ rs) then supported else first_of severity (r ∷ rs)

unfoldable pub results_of : Text → List Assessment → List Verdict
results_of claim_rev assessments =
    map (λ a. a.result) (select (λ a. same a.claim_rev claim_rev) assessments)

unfoldable pub recompute_claim_status : Text → ℕ → EvidenceExec Verdict
recompute_claim_status claim_id version = do
  status ← gets (λ s. derived_status (results_of (ref_id b'v' claim_id version) s.assessments))
  set_claim_status (ref_id b'v' claim_id version) (verdict_name status)
  pure status

unfoldable pub claim_status : Text → ℕ → EvidenceExec Verdict
claim_status claim_id version s = elim (find_claim claim_id version s.claims) [
  | none ↦ (err (claim_not_found claim_id version), s)
  | some c ↦ (ok c.status, s)
]
