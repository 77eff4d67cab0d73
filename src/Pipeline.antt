-- ===== src/Pipeline.antt =====
-- `PipelineContext` of pebs/pipeline.py: what the steps of a run read of the artifacts and how they
-- write them. The clock of a write, the digest and the version of the rules are arguments.
use pebs.Base.{
  ℕ, Bool, true, false, ◌&&◌, Option, none, some, List, [], ◌∷◌, Text, same, codes, select, map,
  each, insert_new, sorted, ok, err, Exec, pure, modify, ◌>>=◌, ◌>>◌,
}
use pebs.Store.Rows.{Store, StoreError}
use pebs.Store.Artifacts.{
  StoreExec, NewRevision, RevisionInfo, accepted_rev_id, add_revision, get_revision,
}
use pebs.Store.Changesets.{add_changeset_item}
use pebs.Store.Listings.{ArtifactRow, accepted_content, list_artifacts}
use pebs.Hooks.{HookFailure, after_artifact_write}
use pebs.Runtime.Records.{Outputs, output_for, put_output}

-- The fields of `PipelineContext` that these methods use.
pub record Context : Type 0 where
  pub store : Store
  pub outputs : Outputs
  pub run_id : Text
  pub changeset_id : Text
  pub environment : Text

-- What a call on a context raises: the errors of the store and of the hooks, and those of a context
-- that is narrowed to a contract (pebs/agents/base.py), with the agent and the type that it named.
pub data ContextError : Type 0 where
  of_store : StoreError → ContextError
  of_hook : HookFailure → ContextError
  isolation_violation contract_error : Text → Text → ContextError

abbrev pub ContextExec : Type 0 → Type 0
ContextExec A = Exec Context ContextError A

abbrev pub in_store : {A : Type 0} → StoreExec A → ContextExec A
in_store m c =
    let (r, s) = m c.store in
    (elim r [ ok a ↦ ok a | err e ↦ err (of_store e) ], record c { store = s })

-- `outputs.get(artifact_id)`, none where it is empty
abbrev pub output_in_use : Text → Outputs → Option Text
output_in_use artifact_id outputs = elim (output_for artifact_id outputs) [
  | none ↦ none
  | some [] ↦ none
  | some (c ∷ cs) ↦ some (c ∷ cs)
]

unfoldable pub rev : Text → Context → Option Text
rev artifact_id c = elim (output_in_use artifact_id c.outputs) [
  | some r ↦ some r
  | none ↦ accepted_rev_id artifact_id c.store
]

abbrev pub revision_content : Text → StoreExec (Option Text)
revision_content rev_id = do r ← get_revision rev_id; pure (some r.content)

unfoldable pub content : Text → ContextExec (Option Text)
content artifact_id c = elim (output_in_use artifact_id c.outputs) [
  | some rev_id ↦ in_store (revision_content rev_id) c
  | none ↦ in_store (accepted_content artifact_id) c
]

-- The output is a revision of the type.
unfoldable pub is_output_of_type : Text → Store → Text × Text → Bool
is_output_of_type artifact_type s o = elim (get_revision o.1 s).0 [
  | err e ↦ false
  | ok r ↦ same r.artifact_type artifact_type
]

abbrev pub has_accepted : ArtifactRow → Bool
has_accepted a = elim a.accepted_rev [ none ↦ false | some [] ↦ false | some (c ∷ cs) ↦ true ]

unfoldable pub artifact_ids_of_type : Text → Context → List Text
unfolding is_output_of_type
artifact_ids_of_type artifact_type c =
    let written = map (λ o. o.0) (select (is_output_of_type artifact_type c.store) c.outputs) in
    let accepted =
      map (λ (a : ArtifactRow). a.artifact_id)
        (select (λ (a : ArtifactRow). same a.artifact_type artifact_type && has_accepted a)
          (list_artifacts c.store)) in
    sorted (each insert_new accepted (each insert_new written []))

-- `content_by_type`: the first content that is there
unfoldable pub first_content : List Text → ContextExec (Option Text)
first_content [] = pure none
first_content (a ∷ ids) = do
  found ← content a
  let rest = first_content ids
  elim found [ some t ↦ pure (some t) | none ↦ rest ]

unfoldable pub content_by_type : Text → ContextExec (Option Text)
unfolding first_content
content_by_type artifact_type c = first_content (artifact_ids_of_type artifact_type c) c

-- The arguments of `emit`
pub record Emission : Type 0 where
  pub artifact_id : Text
  pub artifact_type : Text
  pub content : Text
  pub produced_by : Text
  pub deps : List Text

abbrev pub new_revision : Text → Emission → Context → NewRevision
new_revision rules_version e c = record {
  artifact_id = e.artifact_id;
  artifact_type = e.artifact_type;
  content = e.content;
  produced_by = e.produced_by;
  run_id = some c.run_id;
  rules_version = some rules_version;
  deps = e.deps;
  fixture = same c.environment (codes "test_fixture");
  note = [];
}

abbrev pub check_written : (Text → Text) → Text → ContextExec Text
check_written sha256 revision_id c = elim (after_artifact_write sha256 revision_id c.store) [
  | err e ↦ (err (of_hook e), c)
  | ok digest ↦ (ok digest, c)
]

unfoldable pub emit : (Text → Text) → ℕ → Text → Emission → ContextExec RevisionInfo
emit sha256 now rules_version e c =
    (do
      info ← in_store (add_revision sha256 now (new_revision rules_version e c))
      in_store (add_changeset_item c.changeset_id info.revision_id e.artifact_id)
      check_written sha256 info.revision_id
      modify (λ (k : Context). record k {
        outputs = put_output e.artifact_id info.revision_id k.outputs;
      })
      pure info)
      c
