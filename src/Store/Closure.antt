-- ===== src/Store/Closure.antt =====
-- `transitive_dependent_revisions` of pebs/store.py and, for the specification, the relation that
-- it searches. The end of the Python list `queue`, where it is pushed and popped, is the head here.
-- Each revision is pushed at most once for a row of `deps` that has it downstream, so as many
-- rounds as there are rows and first entries are enough.
pub mod Search
use pebs.Base.{
  ℕ, zero, suc, ◌+◌, ◌≡◌, true, Option, none, some, List, [], ◌∷◌, ◌++◌, Text, if◌then◌else◌,
  length, contains, sorted,
}
use pebs.Store.Rows.{Dep, Store}
use pebs.Store.Artifacts.{dependents_of_rev}
use mathlib.Core.List.{reverse}

-- The inner loop: the set `seen` and the stack after the dependents of one revision.
unfoldable pub push_dependents : List Text → List Text → List Text → List Text × List Text
push_dependents [] seen stack = (seen, stack)
push_dependents (d ∷ ds) seen stack =
    push_dependents ds (if contains d seen then seen else d ∷ seen)
      (if contains d seen then stack else d ∷ stack)

unfoldable pub collect : ℕ → List Dep → List Text → List Text → Option (List Text)
collect rounds deps seen [] = some seen
collect zero deps seen (rev ∷ stack) = none
collect (suc rounds) deps seen (rev ∷ stack) =
    let next = push_dependents (dependents_of_rev rev deps) seen stack in
    collect rounds deps next.0 next.1

unfoldable pub transitive_dependent_revisions : List Text → List Dep → List Text
transitive_dependent_revisions revision_ids deps =
    elim (collect (length deps + length revision_ids) deps [] (reverse revision_ids)) [
      | none ↦ []
      | some seen ↦ sorted seen
    ]

-- A row of `deps` from `up` to `down`.
abbrev pub DependsOn : List Dep → Text → Text → Type 0
DependsOn deps up down = contains down (dependents_of_rev up deps) ≡ true

-- The revisions that depend on one of `roots`, through one row of `deps` or more.
pub data Downstream (deps : List Dep) (roots : List Text) : Text → Type 0 where
  direct :
      (up : Text) {down : Text}
      → contains up roots ≡ true
      → DependsOn deps up down
      → Downstream deps roots down
  further :
      (up : Text) {down : Text}
      → Downstream deps roots up
      → DependsOn deps up down
      → Downstream deps roots down
