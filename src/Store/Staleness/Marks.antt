-- ===== src/Store/Staleness/Marks.antt =====
-- What marking artifacts stale does to each pointer.
use mathlib.Core.Option
use pebs.Base.{
  true, ◌≡◌, refl, List, [], ◌∷◌, Text, arith, if◌then◌else◌, contains, amend, row_for-amend,
}
use pebs.Store.Rows.{Pointer}
use pebs.Store.Artifacts.{pointer_for}
use pebs.Store.Staleness.{mark_all}

abbrev pub marked : Pointer → Pointer
marked p = record p { stale = true }

pub pointer_for-mark_all :
    (a : Text) (targets : List Text) (pointers : List Pointer)
    → pointer_for a (mark_all targets pointers) ≡ (
        if contains a targets
        then Option.map marked (pointer_for a pointers)
        else pointer_for a pointers)
unfolding mark_all contains
pointer_for-mark_all a [] pointers = refl
pointer_for-mark_all a (t ∷ targets) pointers = ground (
  arith,
  pointer_for-mark_all a targets (amend (λ p. p.artifact_id) t marked pointers),
  row_for-amend (λ p. p.artifact_id) t a marked pointers (λ p. refl),
)
