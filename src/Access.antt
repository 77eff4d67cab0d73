-- ===== src/Access.antt =====
-- pebs/permissions.py, with `is_denied`, `resolve_alias` and `get` of pebs/registry.py. The files of
-- the registry are a record; a record of a skill is never empty. Whether a sandbox adapter is
-- available is an argument.
pub mod Granted
use pebs.Base.{
  ℕ, zero, suc, Bool, true, false, not, ◌&&◌, ◌||◌, Option, none, some, List, [], ◌∷◌, ◌++◌, Text,
  codes, same, same_maybe, ◌==◌, if◌then◌else◌, any, contains, Result, ok, err,
}
use pebs.Planner.Order.{and_then}
use mathlib.Core.List.{reverse}

-- What permissions read of the record of a skill.
pub record SkillEntry : Type 0 where
  pub aliases : List Text
  pub status : Option Text
  pub review_status : Option Text
  pub enabled_by_default : Option Bool
  pub execution_policy : Option Text
  pub provider : List Text
  pub allowed_providers : List Text

-- skills.json, denylist.json and the answer of `sandbox.available` at the time of a call.
pub record Registry : Type 0 where
  pub skills : List (Text × SkillEntry)
  pub denied_skills : List Text
  pub denied_prefixes : List Text
  pub has_sandbox : Bool

-- A `PermissionManager`: skills.json and allowlist.json at the time it was made.
pub record PermissionManager : Type 0 where
  pub skills : List (Text × SkillEntry)
  pub allowed_skills : List Text
  pub allowed_tools : List Text
  pub network_hosts : List Text

pub data PermissionDenied : Type 0 where
  denylisted not_allowed not_registered not_approved disabled no_sandbox : Text → PermissionDenied
  provider_not_allowed tool_not_allowed external_action_denied host_not_allowed :
      Text → PermissionDenied

unfoldable pub get : Text → List (Text × SkillEntry) → Option SkillEntry
get name [] = none
get name ((n, r) ∷ skills) = if same n name then some r else get name skills

unfoldable pub resolve_alias : Text → List (Text × SkillEntry) → Option Text
resolve_alias name [] = none
resolve_alias name ((n, r) ∷ skills) =
    if same n name || contains name r.aliases then some n else resolve_alias name skills

unfoldable pub is_prefix : Text → Text → Bool
is_prefix [] text = true
is_prefix (p ∷ ps) [] = false
is_prefix (p ∷ ps) (c ∷ cs) = p == c && is_prefix ps cs

unfoldable pub is_denied : Text → Registry → Bool
is_denied name reg =
    contains name reg.denied_skills || any (λ prefix. is_prefix prefix name) reg.denied_prefixes

-- `registry.resolve_alias(name) or name`
unfoldable pub canonical_name : Text → Registry → Text
canonical_name name reg = elim (resolve_alias name reg.skills) [ some (c ∷ cs) ↦ c ∷ cs | _ ↦ name ]

-- `self.skills.get(canonical) or registry.get(canonical)`
unfoldable pub entry_of : Text → PermissionManager → Registry → Option SkillEntry
entry_of canonical pm reg = elim (get canonical pm.skills) [
  | some r ↦ some r
  | none ↦ get canonical reg.skills
]

unfoldable pub is_approved : SkillEntry → Bool
is_approved r =
    same_maybe r.status (some (codes "APPROVED"))
    || same_maybe r.status (some (codes "PATCHED"))
    || same_maybe r.review_status (some (codes "APPROVED"))

unfoldable pub is_enabled : SkillEntry → Bool
is_enabled r = elim r.enabled_by_default [ none ↦ true | some b ↦ b ]

-- `policy not in ("NO_CODE", "TRUSTED_RUNNER", None)`
unfoldable pub needs_sandbox : SkillEntry → Bool
needs_sandbox r = elim r.execution_policy [
  | none ↦ false
  | some policy ↦ not (same policy (codes "NO_CODE") || same policy (codes "TRUSTED_RUNNER"))
]

-- The checks on the record.
unfoldable pub check_record : Text → Registry → SkillEntry → Result PermissionDenied SkillEntry
check_record canonical reg r =
    if not (is_approved r)
    then err (not_approved canonical)
    else if not (is_enabled r)
    then err (disabled canonical)
    else if needs_sandbox r && not reg.has_sandbox
    then err (no_sandbox canonical)
    else ok r

unfoldable pub skill : PermissionManager → Registry → Text → Result PermissionDenied SkillEntry
skill pm reg name =
    let canonical = canonical_name name reg in
    if is_denied name reg
    then err (denylisted name)
    else if not (contains canonical pm.allowed_skills)
    then err (not_allowed canonical)
    else elim (entry_of canonical pm reg) [
      | none ↦ err (not_registered canonical)
      | some r ↦ check_record canonical reg r
    ]

-- `record.get("provider") or record.get("allowed_providers") or []`
abbrev pub providers_of : SkillEntry → List Text
providers_of r = elim r.provider [ [] ↦ r.allowed_providers | p ∷ ps ↦ p ∷ ps ]

abbrev pub check_provider : Option Text → SkillEntry → Result PermissionDenied Unit
check_provider none r = ok tt
check_provider (some []) r = ok tt
check_provider (some (c ∷ cs)) r =
    if contains (c ∷ cs) (providers_of r) then ok tt else err (provider_not_allowed (c ∷ cs))

unfoldable pub provider :
    PermissionManager → Registry → Text → Option Text → Result PermissionDenied Unit
provider pm reg skill_name provider_name =
    and_then (skill pm reg skill_name) (check_provider provider_name)

unfoldable pub tool : PermissionManager → Text → Result PermissionDenied Unit
tool pm tool_name =
    if contains tool_name pm.allowed_tools then ok tt else err (tool_not_allowed tool_name)

unfoldable pub external_action : Text → Result PermissionDenied Unit
external_action action = err (external_action_denied action)

-- `url.split("/")[2]`, from a number of slashes that are still to pass.
unfoldable pub after_slashes : ℕ → Text → Text
after_slashes zero [] = []
after_slashes zero (c ∷ cs) = let rest = after_slashes zero cs in if c == b'/' then [] else c ∷ rest
after_slashes (suc n) [] = []
after_slashes (suc n) (c ∷ cs) =
    let passed = after_slashes n cs in
    let still = after_slashes (suc n) cs in if c == b'/' then passed else still

unfoldable pub is_in : Text → Text → Bool
is_in part [] = is_prefix part []
is_in part (c ∷ cs) = is_prefix part (c ∷ cs) || is_in part cs

unfoldable pub host_of : Text → Text
host_of url = if is_in (codes "://") url then after_slashes 2 url else url

-- `host.endswith(a)`
abbrev pub ends_with : Text → Text → Bool
ends_with host a = is_prefix (reverse a) (reverse host)

unfoldable pub network_target : PermissionManager → Text → Result PermissionDenied Unit
network_target pm url =
    if any (ends_with (host_of url)) pm.network_hosts
    then ok tt
    else err (host_not_allowed (host_of url))
