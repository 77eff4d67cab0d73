-- ===== src/Hooks/Passed.antt =====
-- What the hooks of pebs/hooks.py let pass.
use pebs.Base.{ℕ, Bool, false, ◌&&◌, ◌≡◌, ◌↔◌, Option, Text, arith, ok, Result-cases, inl, inr}
use pebs.Store.Rows.{Store}
use pebs.Store.Artifacts.{NewRevision, RevisionInfo, add_revision, get_revision, is_locked}
use pebs.Store.Artifacts.Revisions.{IsWellFormed, add_revision-unlocked}
use pebs.Access.{SkillEntry, Registry, PermissionManager, skill}
use pebs.Access.Granted.{IsGranted, skill_iff}
use pebs.Hooks.{misfits, is_false, before_skill, after_artifact_write}

-- A skill may start exactly when it is granted, its inputs fit the schema that is given for them, and
-- no evidence gate that it requires is known to be open.
before_skill_iff :
    (fits : Text → Text → Bool) (pm : PermissionManager) (reg : Registry) (name : Text)
    (inputs schema : Option Text) (requires : Bool) (cleared : Option Bool) (r : SkillEntry)
    → (before_skill fits pm reg name inputs schema requires cleared ≡ ok r)
      ↔ IsGranted pm reg name r
        × (misfits fits schema inputs ≡ false)
        × ((requires && is_false cleared) ≡ false)
unfolding before_skill
before_skill_iff fits pm reg name inputs schema requires cleared r = (
  λ h. elim (Result-cases (skill pm reg name)) [
    | inl (q, granted) ↦
        let as_r : q ≡ r = ground arith in
        ((skill_iff pm reg name r).0 (ground arith), ground arith, ground arith)
    | inr (e, refused) ↦ absurd (ground arith)
  ],
  λ (granted, fit, clear). ground (arith, (skill_iff pm reg name r).1 granted),
)

-- After a revision is written to an unlocked artifact of a well-formed store, the hook on it passes
-- and returns the digest of what was written.
pub after_artifact_write-add_revision :
    (sha256 : Text → Text) (now : ℕ) (new : NewRevision) (s : Store)
    → IsWellFormed s
    → is_locked new.artifact_id s ≡ false
    → (info : RevisionInfo) × ((add_revision sha256 now new s).0 ≡ ok info)
      × (after_artifact_write sha256 info.revision_id (add_revision sha256 now new s).1
          ≡ ok (sha256 new.content))
unfolding after_artifact_write get_revision
after_artifact_write-add_revision sha256 now new s w h =
    let (info, answered, written) = add_revision-unlocked sha256 now new s w h in
    let (row, found, content, hash, appended) = written.readable in (info, answered, ground arith)
