-- ===== src/Agents.antt =====
-- pebs/agents: the agents and their contracts, and `RestrictedContext`, through which an agent reads
-- and writes the artifacts of a run.
pub mod Writes
pub mod Confined
use pebs.Base.{
  ℕ, Bool, true, false, not, ◌&&◌, ◌||◌, Option, none, some, List, [], ◌∷◌, ◌++◌, Text, same, codes,
  if◌then◌else◌, select, contains, row_for, ok, err, Exec, pure, gets, modify, raise_if, ◌>>=◌,
  ◌>>◌,
}
use pebs.Store.Artifacts.{RevisionInfo}
use pebs.Runtime.Records.{Outputs, type_part}
use pebs.Pipeline.{
  Context, ContextError, isolation_violation, contract_error, ContextExec, Emission, rev, content,
  artifact_ids_of_type, content_by_type, emit,
}

-- A subclass of `Subagent`.
pub record AgentClass : Type 0 where
  pub name : Text
  pub domain : Text
  pub default_inputs : List Text
  pub default_produces : List Text

abbrev pub research_agent : AgentClass
research_agent = record {
  name = codes "research-agent";
  domain = codes "research";
  default_inputs = codes "claims_set" ∷ codes "materials" ∷ codes "project_rules" ∷ [];
  default_produces = codes "evidence_index" ∷ [];
}

abbrev pub curriculum_agent : AgentClass
curriculum_agent = record {
  name = codes "curriculum-agent";
  domain = codes "curriculum";
  default_inputs =
      codes "template_spec"
      ∷ codes "materials"
      ∷ codes "learning_design"
      ∷ codes "requirements"
      ∷ [];
  default_produces = codes "requirements" ∷ codes "learning_design" ∷ codes "template_spec" ∷ [];
}

abbrev pub pedagogy_agent : AgentClass
pedagogy_agent = record {
  name = codes "pedagogy-agent";
  domain = codes "pedagogy";
  default_inputs =
      codes "learning_design"
      ∷ codes "evidence_index"
      ∷ codes "claims_set"
      ∷ codes "requirements"
      ∷ codes "teaching_plan"
      ∷ [];
  default_produces =
      codes "teaching_plan"
      ∷ codes "lesson_plan"
      ∷ codes "case"
      ∷ codes "assessment"
      ∷ codes "worksheet"
      ∷ codes "script"
      ∷ [];
}

abbrev pub media_agent : AgentClass
media_agent = record {
  name = codes "media-agent";
  domain = codes "media";
  default_inputs =
      codes "teaching_plan" ∷ codes "script" ∷ codes "media_plan" ∷ codes "storyboard" ∷ [];
  default_produces =
      codes "media_plan"
      ∷ codes "diagrams"
      ∷ codes "load_review"
      ∷ codes "animation_decisions"
      ∷ codes "storyboard"
      ∷ [];
}

abbrev pub qa_agent : AgentClass
qa_agent = record {
  name = codes "qa-agent";
  domain = codes "qa";
  default_inputs =
      codes "script"
      ∷ codes "requirements"
      ∷ codes "evidence_index"
      ∷ codes "gate_result"
      ∷ codes "presentation_plan"
      ∷ [];
  default_produces =
      codes "gate_result"
      ∷ codes "evidence_assets"
      ∷ codes "slide_plan"
      ∷ codes "pptx_deck"
      ∷ codes "preview"
      ∷ codes "export_manifest"
      ∷ [];
}

abbrev pub agent_classes : List AgentClass
agent_classes = research_agent ∷ curriculum_agent ∷ pedagogy_agent ∷ media_agent ∷ qa_agent ∷ []

-- `_DOMAIN_ALIASES`
abbrev pub domain_alias : Text → Text
domain_alias domain =
    if same domain (codes "education")
    then codes "curriculum-agent"
    else if same domain (codes "psychology")
    then codes "research-agent"
    else if same domain (codes "presentation")
    then codes "qa-agent"
    else []

-- What the agents read of the record of a skill; a key that is left out is an empty list or text.
pub record AgentRecord : Type 0 where
  pub agent : Text
  pub domain : Text
  pub runtime : Option Text
  pub requires : List Text
  pub optional_requires : List Text
  pub emits : List Text
  pub produces : List Text

unfoldable pub for_skill : AgentRecord → AgentClass
for_skill r = elim (row_for (λ a. a.name) r.agent agent_classes) [
  | some a ↦ a
  | none ↦ elim (row_for (λ a. a.domain) r.domain agent_classes) [
    | some a ↦ a
    | none ↦ elim (row_for (λ a. a.name) (domain_alias r.domain) agent_classes) [
      | some a ↦ a
      | none ↦ curriculum_agent
    ]
  ]
]

pub record AgentContract : Type 0 where
  pub agent : Text
  pub inputs : List Text
  pub outputs : List Text
  pub strict_reads : Bool

-- `xs or ys`
abbrev pub or_list : List Text → List Text → List Text
or_list [] ys = ys
or_list (x ∷ xs) ys = x ∷ xs

unfoldable pub contract_for : AgentClass → AgentRecord → Bool → AgentContract
contract_for a r strict_reads =
    let required = or_list r.requires a.default_inputs in
    record {
      agent = a.name;
      inputs = required ++ select (λ i. not (contains i required)) r.optional_requires;
      outputs = or_list r.emits (or_list r.produces a.default_produces);
      strict_reads = strict_reads;
    }

-- `str(record.get("runtime", "builtin")) != "builtin"`, by which `run_node` sets `strict_reads`
unfoldable pub reads_strictly : AgentRecord → Bool
reads_strictly r = elim r.runtime [ none ↦ false | some t ↦ not (same t (codes "builtin")) ]

-- A `RestrictedContext`, less its contract: the context inside, and the revisions produced.
pub record Restricted : Type 0 where
  pub inner : Context
  pub produced : List Text

abbrev pub RestrictedExec : Type 0 → Type 0
RestrictedExec A = Exec Restricted ContextError A

abbrev pub inside : {A : Type 0} → ContextExec A → RestrictedExec A
inside m r = let (a, c) = m r.inner in (a, record r { inner = c })

module _ (k : AgentContract) where
  unfoldable pub guard_read : Text → RestrictedExec Unit
  guard_read t =
      raise_if (k.strict_reads && not (contains t k.inputs)) (isolation_violation k.agent t)

  unfoldable pub guard_write : Text → RestrictedExec Unit
  guard_write t = raise_if (not (contains t k.outputs)) (contract_error k.agent t)

  unfoldable pub restricted_rev : Text → RestrictedExec (Option Text)
  unfolding guard_read
  restricted_rev artifact_id = do
    guard_read (type_part artifact_id)
    gets (λ r. rev artifact_id r.inner)

  unfoldable pub restricted_content : Text → RestrictedExec (Option Text)
  unfolding guard_read
  restricted_content artifact_id = do
    guard_read (type_part artifact_id)
    inside (content artifact_id)

  unfoldable pub restricted_ids : Text → RestrictedExec (List Text)
  unfolding guard_read
  restricted_ids artifact_type = do
    guard_read artifact_type
    gets (λ r. artifact_ids_of_type artifact_type r.inner)

  unfoldable pub restricted_by_type : Text → RestrictedExec (Option Text)
  unfolding guard_read
  restricted_by_type artifact_type = do
    guard_read artifact_type
    inside (content_by_type artifact_type)

  unfoldable pub restricted_emit : (Text → Text) → ℕ → Text → Emission → RestrictedExec RevisionInfo
  unfolding guard_write
  restricted_emit sha256 now rules_version e = do
    guard_write e.artifact_type
    info ← inside (emit sha256 now rules_version e)
    modify (λ (r : Restricted). record r { produced = r.produced ++ info.revision_id ∷ [] })
    pure info

  -- The outputs that the agent sees.
  unfoldable pub restricted_outputs : Restricted → Outputs
  restricted_outputs r =
      select
        (λ (o : Text × Text).
          contains (type_part o.0) k.inputs || contains (type_part o.0) k.outputs)
        r.inner.outputs

-- `BLOCKED_ATTRS`
abbrev pub blocked_attrs : List Text
blocked_attrs =
    codes "store"
    ∷ codes "evidence"
    ∷ codes "hooks"
    ∷ codes "permissions"
    ∷ codes "research"
    ∷ codes "llm"
    ∷ codes "providers"
    ∷ codes "registry"
    ∷ []

-- `__getattr__`, where the attribute is callable or not
unfoldable pub get_attribute : AgentContract → Text → Bool → RestrictedExec Unit
get_attribute k item callable =
    raise_if (k.strict_reads && (contains item blocked_attrs || callable))
      (isolation_violation k.agent item)

-- What an agent may do with its context.
pub data Action : Type 0 where
  read_rev read_content list_ids read_by_type : Text → Action
  write : ℕ → Emission → Action
  get_attr : Text → Bool → Action

-- The context behind an action, whether it raises or not.
unfoldable pub act : AgentContract → (Text → Text) → Text → Action → Restricted → Restricted
act k sha256 rules_version (read_rev a) r = (restricted_rev k a r).1
act k sha256 rules_version (read_content a) r = (restricted_content k a r).1
act k sha256 rules_version (list_ids t) r = (restricted_ids k t r).1
act k sha256 rules_version (read_by_type t) r = (restricted_by_type k t r).1
act k sha256 rules_version (write now e) r = (restricted_emit k sha256 now rules_version e r).1
act k sha256 rules_version (get_attr item callable) r = (get_attribute k item callable r).1

unfoldable pub act_all :
    AgentContract → (Text → Text) → Text → List Action → Restricted → Restricted
act_all k sha256 rules_version [] r = r
act_all k sha256 rules_version (a ∷ actions) r =
    act_all k sha256 rules_version actions (act k sha256 rules_version a r)
