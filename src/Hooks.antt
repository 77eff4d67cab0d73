-- ===== src/Hooks.antt =====
-- pebs/hooks.py, on the permissions of Access and the state of Store. Whether a text fits a schema
-- (`schemas.validate`) is an argument. The content of a revision is its canonical JSON text, which
-- `canonical_json` prints again.
pub mod Passed
use pebs.Base.{
  Bool, true, false, not, ◌&&◌, Option, none, some, List, [], ◌∷◌, Text, codes, same, same_maybe,
  if◌then◌else◌, Result, ok, err,
}
use pebs.Store.Rows.{Revision, Store, StoreError}
use pebs.Store.Artifacts.{get_revision}
use pebs.Access.{SkillEntry, Registry, PermissionManager, PermissionDenied, skill}

pub data HookFailure : Type 0 where
  denied : PermissionDenied → HookFailure
  input_schema_failed output_schema_failed evidence_not_cleared : HookFailure
  no_authorization hash_mismatch : Text → HookFailure
  unknown_revision : StoreError → HookFailure
  export_blocked : List Text → HookFailure

-- `input_schema and inputs is not None`, and the inputs do not fit it.
unfoldable pub misfits : (Text → Text → Bool) → Option Text → Option Text → Bool
misfits fits (some (c ∷ cs)) (some value) = not (fits value (c ∷ cs))
misfits fits _ _ = false

abbrev pub is_false : Option Bool → Bool
is_false (some false) = true
is_false _ = false

unfoldable pub before_skill :
    (Text → Text → Bool)
    → PermissionManager
    → Registry
    → Text
    → Option Text
    → Option Text
    → Bool
    → Option Bool
    → Result HookFailure SkillEntry
before_skill fits pm reg name inputs input_schema requires_evidence_gate evidence_gate_cleared =
    elim (skill pm reg name) [
      | err e ↦ err (denied e)
      | ok r ↦
          if misfits fits input_schema inputs
          then err input_schema_failed
          else if requires_evidence_gate && is_false evidence_gate_cleared
          then err evidence_not_cleared
          else ok r
    ]

-- Whether the output was validated is returned.
unfoldable pub after_skill :
    (Text → Text → Bool)
    → PermissionManager
    → Registry
    → Text
    → Text
    → Option Text
    → Result HookFailure Bool
after_skill fits pm reg name output output_schema = elim (skill pm reg name) [
  | err e ↦ err (denied e)
  | ok r ↦
      if misfits fits output_schema (some output)
      then err output_schema_failed
      else ok (elim output_schema [ some (c ∷ cs) ↦ true | _ ↦ false ])
]

unfoldable pub before_external_action : Text → Option Text → Result HookFailure Unit
before_external_action action authorization =
    if same_maybe authorization (some (codes "trusted"))
    then ok tt
    else err (no_authorization action)

-- The digest of the content is returned.
unfoldable pub after_artifact_write : (Text → Text) → Text → Store → Result HookFailure Text
after_artifact_write sha256 revision_id s = elim (get_revision revision_id s).0 [
  | err e ↦ err (unknown_revision e)
  | ok rev ↦
      if same (sha256 rev.content) rev.content_hash
      then ok (sha256 rev.content)
      else err (hash_mismatch revision_id)
]

unfoldable pub before_final_export : Bool → List Text → Result HookFailure Unit
before_final_export ready blocking = if ready then ok tt else err (export_blocked blocking)
