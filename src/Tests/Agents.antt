-- ===== src/Tests/Agents.antt =====
-- An agent that writes what it declares, and one that does not.
use native.Mathlib.Decide.{ℕ_discrete}
use pebs.Base.{
  false, ◌≡◌, refl, some, List, [], ◌∷◌, Text, codes, text_dec, contains, select, any, max_of,
  row_for, ref_id, decimal, digits_from,
}
use pebs.Store.Artifacts.{
  add_revision, ensure_artifact, ensure_pointer, is_locked, insert_revision, add_dep, add_deps,
  max_version, get_revision,
}
use pebs.Store.Changesets.{add_changeset_item, insert_item}
use pebs.Hooks.{after_artifact_write}
use pebs.Pipeline.{Emission, emit}
use pebs.Runtime.Records.{put_output, type_part}
use pebs.Agents.{
  AgentRecord, AgentContract, Restricted, Action, write, get_attr, act, act_all, for_skill,
  contract_for, reads_strictly, guard_read, guard_write, restricted_rev, restricted_emit,
  get_attribute,
}
use pebs.Agents.Writes.{Confined}
use pebs.Agents.Confined.{act_all-Confined}

program : Unit {0}
unfolding text_dec ℕ_discrete contains select any max_of row_for ref_id decimal digits_from
    add_revision ensure_artifact ensure_pointer is_locked insert_revision add_dep add_deps
    max_version get_revision add_changeset_item insert_item after_artifact_write emit put_output
    type_part act act_all for_skill contract_for reads_strictly guard_read guard_write
    restricted_rev restricted_emit get_attribute
program = tt

abbrev case_writer : AgentRecord
case_writer = record {
  agent = [];
  domain = codes "pedagogy";
  runtime = some (codes "prompt_skill");
  requires = codes "learning_design" ∷ [];
  optional_requires = [];
  emits = [];
  produces = codes "case" ∷ [];
}

abbrev contract : AgentContract
contract = contract_for (for_skill case_writer) case_writer (reads_strictly case_writer)

abbrev start : Restricted
start = record {
  inner = record {
    store = record {
      project_id = codes "p";
      pointers = [];
      revisions = [];
      deps = [];
      changesets = [];
      items = [];
      runs = [];
      steps = [];
      files = [];
    };
    outputs = [];
    run_id = codes "r";
    changeset_id = codes "c";
    environment = codes "production";
  };
  produced = [];
}

abbrev emission : Text → Text → Emission
emission artifact_id artifact_type = record {
  artifact_id = artifact_id;
  artifact_type = artifact_type;
  content = codes "{}";
  produced_by = codes "case-writer";
  deps = [];
}

-- The case is written; the script, which is not declared, is not.
abbrev actions : List Action
actions =
    write 100 (emission (codes "case:1") (codes "case"))
    ∷ write 100 (emission (codes "script:1") (codes "script"))
    ∷ get_attr (codes "store") false
    ∷ []

written : (act_all contract (λ t. t) (codes "v1") actions start).produced ≡ codes "case:1@r1" ∷ []
unfolding program
written = refl

act_all-Confined_example :
    Confined
      (λ t. contains t contract.outputs)
      (codes "c")
      start.inner.store
      (act_all contract (λ t. t) (codes "v1") actions start).inner.store
act_all-Confined_example = act_all-Confined contract (λ t. t) (codes "v1") actions start
