-- ===== src/Tests/Accesses.antt =====
-- A registry of two skills, and an input that is over a limit.
use native.Mathlib.Decide.{ℕ_discrete}
use pebs.Base.{
  false, ◌≡◌, ◌≢◌, ◌↔◌, ◌⊎◌, refl, none, some, [], ◌∷◌, codes, ok, err, text_dec, maybe_dec, any,
  contains,
}
use pebs.Access.{
  SkillEntry, Registry, PermissionManager, denylisted, get, resolve_alias, is_prefix, is_denied,
  canonical_name, entry_of, is_approved, is_enabled, needs_sandbox, check_record, skill, provider,
  host_of, after_slashes, is_in, network_target,
}
use pebs.Access.Granted.{IsGranted, skill_iff}
use pebs.InputBudget.{
  Measurement, Limits, Report, defaults, exceeded, enforce, exceed_decision, material_too_long,
}
use pebs.InputBudget.Decided.{IsWithinLimits, enforce-ok}

program : Unit {0}
unfolding text_dec maybe_dec ℕ_discrete any contains get resolve_alias is_prefix is_denied
    canonical_name entry_of is_approved is_enabled needs_sandbox check_record skill provider host_of
    after_slashes is_in network_target defaults exceeded enforce
program = tt

abbrev pub writer : SkillEntry
writer = record {
  aliases = codes "w" ∷ [];
  status = some (codes "APPROVED");
  review_status = none;
  enabled_by_default = none;
  execution_policy = none;
  provider = codes "fake" ∷ [];
  allowed_providers = [];
}

abbrev pub registry : Registry
registry = record {
  skills = ((codes "writer", writer)) ∷ [];
  denied_skills = codes "evil" ∷ [];
  denied_prefixes = codes "x-" ∷ [];
  has_sandbox = false;
}

abbrev pub manager : PermissionManager
manager = record {
  skills = ((codes "writer", writer)) ∷ [];
  allowed_skills = codes "writer" ∷ [];
  allowed_tools = [];
  network_hosts = codes "crossref.org" ∷ [];
}

granted : skill manager registry (codes "w") ≡ ok writer
unfolding program
granted = refl

denied : skill manager registry (codes "x-w") ≡ err (denylisted (codes "x-w"))
unfolding program
denied = refl

-- The end of the host counts, wherever a label begins.
reached : network_target manager (codes "https://notcrossref.org/works") ≡ ok tt
unfolding program
reached = refl

skill_iff_example :
    (skill manager registry (codes "w") ≡ ok writer) ↔ IsGranted manager registry (codes "w") writer
skill_iff_example = skill_iff manager registry (codes "w") writer

abbrev long : Measurement
long = record {
  material_chars = 120001;
  template_chars = 0;
  files = 1;
  sections = 3;
  per_file_chars = [];
}

abbrev strict : Limits
strict = record {
  max_material_chars = 120000;
  max_template_chars = 60000;
  max_sections = 40;
  max_files = 20;
  on_exceed = codes "reject";
}

abbrev lenient : Limits
lenient = record strict { on_exceed = codes "chunk" }

abbrev report : Report
report = record {
  measurement = long;
  limits = lenient;
  problems = material_too_long 120001 120000 ∷ [];
  decision = codes "chunk";
}

chunked : enforce long lenient ≡ ok report
unfolding program
chunked = refl

enforce-ok_example :
    (report.measurement ≡ long)
    × (report.problems ≡ exceeded long lenient)
    × ((IsWithinLimits long lenient × (report.decision ≡ codes "accept"))
        ⊎ ((exceed_decision lenient ≢ codes "reject")
            × (report.problems ≢ [])
            × (report.decision ≡ exceed_decision lenient)))
enforce-ok_example = enforce-ok long lenient report chunked
