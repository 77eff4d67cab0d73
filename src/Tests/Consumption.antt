-- ===== src/Tests/Consumption.antt =====
-- An index with one claim that may be consumed, and nodes that declare preconditions.
use native.Mathlib.Decide.{ℕ_discrete}
use pebs.Base.{
  Some, ◌≡◌, ◌↔◌, refl, none, some, List, [], ◌∷◌, codes, Text, text_dec, select, any, contains,
  max_of, pos, All,
}
use pebs.Planner.Contracts.{Precondition}
use pebs.Evidence.Whitespace.{strip, lstrip, is_space}
use pebs.Evidence.Rows.{Claim, EvidenceStore, supported, pending}
use pebs.Evidence.Claims.{find_claim, latest_version, same_verdict}
use pebs.Preconditions.{
  Entry, entry, superseded, split, is_separator, usage_tokens, placeholder, is_in_scope, check_text,
  check_consumed, check_claim, check_entry, check_entries, scope_of, conclude,
  check_supported_claims, evaluate, block_reason,
}
use pebs.Preconditions.Supported.{IsFit, IsConsumed, check_supported_claims_iff}

abbrev claim : Claim
claim = record {
  revision_id = codes "c@v1";
  claim_id = codes "c";
  project_id = codes "p";
  version = 1;
  text = codes "sleep helps memory";
  claim_type = codes "causal";
  population = codes "adults";
  usage = codes "讲解/案例";
  status = supported;
  created_at = 10;
}

abbrev store : EvidenceStore
store = record {
  project_id = codes "p";
  claims = claim ∷ [];
  sources = [];
  assessments = [];
  files = [];
}

-- The same with a second version, which is pending.
abbrev newer : EvidenceStore
newer = record store {
  claims = claim ∷ record claim { revision_id = codes "c@v2"; version = 2; status = pending } ∷ [];
}

abbrev index : List Entry
index = entry (codes "c") (some (pos 1)) ∷ []

abbrev scope : List Text
scope = codes "案例" ∷ []

program : Unit {0}
unfolding text_dec ℕ_discrete select any contains max_of strip lstrip is_space find_claim
    latest_version same_verdict split is_separator usage_tokens placeholder is_in_scope check_text
    check_consumed check_claim check_entry check_entries conclude check_supported_claims evaluate
    block_reason
program = tt

clear : check_supported_claims store (some index) scope ≡ []
unfolding program
clear = refl

outdated : check_supported_claims newer (some index) scope ≡ superseded (codes "c") 1 ∷ []
unfolding program
outdated = refl

check_supported_claims_iff_example :
    (check_supported_claims store (some index) scope ≡ [])
    ↔ All (IsFit (scope_of scope) store) index × Some (IsConsumed (scope_of scope) store) index
check_supported_claims_iff_example =
    check_supported_claims_iff store (entry (codes "c") (some (pos 1))) [] scope

abbrev declared : List Precondition
declared =
    record {
      kind = codes "supported_claims";
      inputs = codes "evidence_index" ∷ [];
      usage_scope = some scope;
    }
    ∷ []

unblocked : block_reason store (some index) declared ≡ none
unfolding program
unblocked = refl
