-- ===== src/Tests/Hooking.antt =====
-- The hooks on the store and the registry of the other tests.
use pebs.Base.{◌≡◌, ok}
use pebs.Store.Artifacts.{RevisionInfo, add_revision}
use pebs.Hooks.{after_artifact_write}
use pebs.Hooks.Passed.{after_artifact_write-add_revision}
use pebs.Tests.Stores.{draft, sample, sample-IsWellFormed, sample-unlocked}

after_artifact_write-add_revision_example :
    (info : RevisionInfo) × ((add_revision (λ t. t) 5 draft sample).0 ≡ ok info)
    × (after_artifact_write (λ t. t) info.revision_id (add_revision (λ t. t) 5 draft sample).1
        ≡ ok draft.content)
after_artifact_write-add_revision_example =
    after_artifact_write-add_revision (λ t. t) 5 draft sample sample-IsWellFormed sample-unlocked
