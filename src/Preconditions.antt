-- ===== src/Preconditions.antt =====
-- pebs/preconditions.py: what must hold before a skill may author. A problem is a constructor with
-- what its message names.
pub mod Supported
use pebs.Base.{
  ℕ, zero, suc, Bool, true, false, not, ◌&&◌, ◌||◌, Option, none, some, List, [], ◌∷◌, ◌++◌, Text,
  codes, same, ◌==◌, if◌then◌else◌, any, select, map, contains, ℤ, pos, negsuc,
}
use pebs.Planner.Contracts.{Precondition}
use pebs.Evidence.Whitespace.{strip}
use pebs.Evidence.Rows.{Verdict, supported, Claim, EvidenceStore}
use pebs.Evidence.Claims.{find_claim, latest_version, same_verdict}

-- An element of `evidence_index["claims"]`: not a dict, or a dict whose `version` may be no int.
pub data Entry : Type 0 where
  not_a_dict : Entry
  entry : Text → Option ℤ → Entry

pub data Problem : Type 0 where
  index_empty not_a_dict_entry incomplete_entry : Problem
  unknown_claim : Text → ℤ → Problem
  usage_missing : Text → ℕ → Problem
  not_supported : Text → ℕ → Verdict → Problem
  superseded population_missing placeholder_usage : Text → ℕ → Problem
  nothing_consumable : Problem
  unknown_precondition : Text → Problem

-- [/、,，;；|]
unfoldable pub is_separator : ℕ → Bool
is_separator c = any (◌==◌ c) (codes "/、,，;；|")

abbrev pub cons_head : ℕ → List Text → List Text
cons_head c [] = (c ∷ []) ∷ []
cons_head c (t ∷ ts) = (c ∷ t) ∷ ts

-- `re.split`
unfoldable pub split : Text → List Text
unfolding is_separator
split [] = [] ∷ []
split (c ∷ cs) = let rest = split cs in if is_separator c then [] ∷ rest else cons_head c rest

abbrev pub filled : Text → Bool
filled [] = false
filled (c ∷ cs) = true

unfoldable pub usage_tokens : Text → List Text
unfolding split
usage_tokens usage = select filled (map strip (split usage))

unfoldable pub placeholder : Text
placeholder = codes "脚本待核验"

-- `scope is None`, or the tokens of the usage meet it.
unfoldable pub is_in_scope : Option (List Text) → Text → Bool
is_in_scope none usage = true
is_in_scope (some scope) usage = any (λ t. contains t scope) (usage_tokens usage)

-- The last checks of the loop, on a claim whose status and version are right.
unfoldable pub check_text : Text → ℕ → Claim → List Problem
check_text claim_id version c =
    (if filled (strip c.population) then [] else population_missing claim_id version ∷ [])
    ++ (if same (strip c.usage) placeholder then placeholder_usage claim_id version ∷ [] else [])

-- The checks on a claim that is consumed.
unfoldable pub check_consumed : EvidenceStore → Text → ℕ → Claim → List Problem
check_consumed s claim_id version c =
    if not (same_verdict c.status supported)
    then not_supported claim_id version c.status ∷ []
    else if not (latest_version claim_id s.claims == version)
    then superseded claim_id version ∷ []
    else check_text claim_id version c

-- One round of the loop: its problems, and whether the claim is consumed.
unfoldable pub check_claim : Option (List Text) → EvidenceStore → Text → ℕ → List Problem × Bool
check_claim scope s claim_id version = elim (find_claim claim_id version s.claims) [
  | none ↦ (unknown_claim claim_id (pos version) ∷ [], false)
  | some c ↦
      if not (filled (strip c.usage))
      then (usage_missing claim_id version ∷ [], false)
      else if is_in_scope scope (strip c.usage)
      then (check_consumed s claim_id version c, true)
      else ([], false)
]

unfoldable pub check_entry : Option (List Text) → EvidenceStore → Entry → List Problem × Bool
check_entry scope s not_a_dict = (not_a_dict_entry ∷ [], false)
check_entry scope s (entry [] version) = (incomplete_entry ∷ [], false)
check_entry scope s (entry (c ∷ cs) none) = (incomplete_entry ∷ [], false)
check_entry scope s (entry (c ∷ cs) (some (negsuc n))) =
    (unknown_claim (c ∷ cs) (negsuc n) ∷ [], false)
check_entry scope s (entry (c ∷ cs) (some (pos n))) = check_claim scope s (c ∷ cs) n

-- The loop.
unfoldable pub check_entries : Option (List Text) → EvidenceStore → List Entry → List Problem × Bool
check_entries scope s [] = ([], false)
check_entries scope s (e ∷ es) =
    let (problems, consumed) = check_entry scope s e in
    let (more, later) = check_entries scope s es in (problems ++ more, consumed || later)

-- `{str(item) for item in usage_scope} if usage_scope else None`
abbrev pub scope_of : List Text → Option (List Text)
scope_of [] = none
scope_of (t ∷ ts) = some (t ∷ ts)

unfoldable pub conclude : List Problem × Bool → List Problem
conclude ([], false) = nothing_consumable ∷ []
conclude ([], true) = []
conclude (p ∷ ps, consumed) = p ∷ ps

-- `entries` is none where the index has no list of claims.
unfoldable pub check_supported_claims :
    EvidenceStore → Option (List Entry) → List Text → List Problem
check_supported_claims s none usage_scope = index_empty ∷ []
check_supported_claims s (some []) usage_scope = index_empty ∷ []
check_supported_claims s (some (e ∷ es)) usage_scope =
    conclude (check_entries (scope_of usage_scope) s (e ∷ es))

-- `list(precondition.get("usage_scope") or [])`
abbrev pub declared_scope : Precondition → List Text
declared_scope p = elim p.usage_scope [ none ↦ [] | some scope ↦ scope ]

unfoldable pub evaluate : EvidenceStore → Option (List Entry) → List Precondition → List Problem
evaluate s entries [] = []
evaluate s entries (p ∷ ps) =
    (if same p.kind (codes "supported_claims")
      then check_supported_claims s entries (declared_scope p)
      else unknown_precondition p.kind ∷ [])
    ++ evaluate s entries ps

abbrev pub first : ℕ → List Problem → List Problem
first zero ps = []
first (suc n) [] = []
first (suc n) (p ∷ ps) = p ∷ first n ps

-- The problems that the reason lists, if it is not None.
unfoldable pub block_reason :
    EvidenceStore → Option (List Entry) → List Precondition → Option (List Problem)
block_reason s entries preconditions = elim (evaluate s entries preconditions) [
  | [] ↦ none
  | p ∷ ps ↦ some (first 5 (p ∷ ps))
]
