-- ===== src/Engine/Changesets/Stuck.antt =====
-- What becomes of a changeset that meets a baseline conflict when it is accepted.
use pebs.Store.Rows.{Store}
