-- ===== src/Store/Closure/Search.antt =====
-- The search of pebs/store.py for dependent revisions: sound, complete, and within its rounds.
use mathlib.Core.List.{reverse, reverse-cons}
use pebs.Base.{
  ℕ, zero, suc, ◌+◌, ◌≤◌, ◌≡◌, refl, ◌↔◌, ◌⊎◌, inl, inr, true, false, ◌||◌, some, List, [], ◌∷◌,
  Text, arith, length, contains, select, if◌then◌else◌, Bool-cases, contains-sorted,
  contains-append, length-append, map,
}
use pebs.Store.Rows.{Dep}
use pebs.Store.Artifacts.{dependents_of_rev}
use pebs.Store.Closure.{
  push_dependents, collect, transitive_dependent_revisions, DependsOn, Downstream, direct, further,
}

unseen : List Text → List Dep → ℕ
unseen seen [] = 0
unseen seen (d ∷ ds) = (if contains d.downstream_rev seen then 0 else 1) + unseen seen ds

unseen-cons-le :
    (x : Text) (seen : List Text) (ds : List Dep) → unseen (x ∷ seen) ds ≤ unseen seen ds
unfolding unseen contains
unseen-cons-le x seen [] = omega arith
unseen-cons-le x seen (d ∷ ds) = ground (arith, unseen-cons-le x seen ds)

unseen-cons-lt :
    (x : Text) (seen : List Text) (ds : List Dep)
    → contains x (map (λ d. d.downstream_rev) ds) ≡ true
    → contains x seen ≡ false
    → suc (unseen (x ∷ seen) ds) ≤ unseen seen ds
unfolding unseen contains
unseen-cons-lt x seen [] h k = cc
unseen-cons-lt x seen (d ∷ ds) h k =
    ground (arith, unseen-cons-lt x seen ds, unseen-cons-le x seen ds)

-- Every dependent is the downstream end of a row.
dependents-downstream :
    (up x : Text) (deps : List Dep)
    → DependsOn deps up x
    → contains x (map (λ d. d.downstream_rev) deps) ≡ true
unfolding dependents_of_rev contains select
dependents-downstream up x [] h = cc
dependents-downstream up x (d ∷ deps) h = ground (arith, dependents-downstream up x deps)

contains-seen :
    (x : Text) (ds seen stack : List Text)
    → contains x (push_dependents ds seen stack).0 ≡ (contains x ds || contains x seen)
unfolding push_dependents contains
contains-seen x [] seen stack = refl
contains-seen x (d ∷ ds) seen stack = ground (
  arith,
  contains-seen x ds (if contains d seen then seen else d ∷ seen)
      (if contains d seen then stack else d ∷ stack),
)

contains-stack :
    (x : Text) (ds seen stack : List Text)
    → contains x (push_dependents ds seen stack).1 ≡ true
    → (contains x ds || contains x stack) ≡ true
unfolding push_dependents contains
contains-stack x [] seen stack h = h
contains-stack x (d ∷ ds) seen stack h = ground (
  arith,
  contains-stack x ds (if contains d seen then seen else d ∷ seen)
      (if contains d seen then stack else d ∷ stack),
)

-- What was on the stack stays there.
stack-kept :
    (x : Text) (ds seen stack : List Text)
    → contains x stack ≡ true
    → contains x (push_dependents ds seen stack).1 ≡ true
unfolding push_dependents contains
stack-kept x [] seen stack h = h
stack-kept x (d ∷ ds) seen stack h = ground (
  arith,
  stack-kept x ds (if contains d seen then seen else d ∷ seen)
      (if contains d seen then stack else d ∷ stack),
)

-- A revision that is seen for the first time is pushed.
stack-new :
    (x : Text) (ds seen stack : List Text)
    → contains x ds ≡ true
    → contains x seen ≡ false
    → contains x (push_dependents ds seen stack).1 ≡ true
unfolding push_dependents contains
stack-new x [] seen stack h k = cc
stack-new x (d ∷ ds) seen stack h k = ground (
  arith,
  stack-new x ds (if contains d seen then seen else d ∷ seen)
      (if contains d seen then stack else d ∷ stack),
  stack-kept x ds (d ∷ seen) (d ∷ stack),
)

measure-push :
    (deps : List Dep) (ds seen stack : List Text)
    → ((x : Text) → contains x ds ≡ true → contains x (map (λ d. d.downstream_rev) deps) ≡ true)
    → length (push_dependents ds seen stack).1 + unseen (push_dependents ds seen stack).0 deps
      ≤ length stack + unseen seen deps
unfolding push_dependents contains
measure-push deps [] seen stack known = omega arith
measure-push deps (d ∷ ds) seen stack known =
    let later : (x : Text)
        → contains x ds ≡ true
        → contains x (map (λ e. e.downstream_rev) deps) ≡ true =
      λ x h. known x (ground arith) in
    ground (
      arith,
      measure-push deps ds seen stack later,
      measure-push deps ds (d ∷ seen) (d ∷ stack) later,
      unseen-cons-lt d seen deps (known d (ground arith)),
    )

length-reverse : (xs : List Text) → length (reverse xs) ≡ length xs
length-reverse [] = refl
length-reverse (x ∷ xs) =
    rw reverse-cons (omega (arith, length-append (reverse xs) (x ∷ []), length-reverse xs))

contains-reverse : (a : Text) (xs : List Text) → contains a (reverse xs) ≡ contains a xs
unfolding contains
contains-reverse a [] = refl
contains-reverse a (x ∷ xs) =
    rw reverse-cons (ground (arith, contains-append a (reverse xs) (x ∷ []), contains-reverse a xs))

-- `seen` has only revisions downstream of the roots, and the stack only these and roots.
record IsSound (deps : List Dep) (roots seen stack : List Text) : Type 0 where
  seen_below : (x : Text) → contains x seen ≡ true → Downstream deps roots x
  stack_below :
      (x : Text) → contains x stack ≡ true → (contains x roots ≡ true) ⊎ Downstream deps roots x

-- A root or a seen revision waits on the stack, or has all of its dependents in `seen`.
abbrev IsClosed : List Dep → List Text → List Text → List Text → Type 0
IsClosed deps roots seen stack =
    (x y : Text)
    → (contains x roots || contains x seen) ≡ true
    → contains x stack ≡ false
    → DependsOn deps x y
    → contains y seen ≡ true

module _ (deps : List Dep) (roots : List Text) where
  round-IsSound :
      (rev : Text) (seen stack : List Text)
      → IsSound deps roots seen (rev ∷ stack)
      → let next = push_dependents (dependents_of_rev rev deps) seen stack in
        IsSound deps roots next.0 next.1
  unfolding contains
  round-IsSound rev seen stack h =
      let found = dependents_of_rev rev deps in
      let below : (x : Text) → contains x found ≡ true → Downstream deps roots x = λ x m.
        elim (h.stack_below rev (ground arith)) [
          | inl root ↦ direct rev root m
          | inr up ↦ further rev up m
        ] in
      record {
        seen_below = λ x m. elim (Bool-cases (contains x found)) [
          | inl new ↦ below x new
          | inr old ↦ h.seen_below x (ground (arith, contains-seen x found seen stack))
        ];
        stack_below = λ x m. elim (Bool-cases (contains x found)) [
          | inl new ↦ inr (below x new)
          | inr old ↦ h.stack_below x (ground (arith, contains-stack x found seen stack))
        ];
      }

  round-IsClosed :
      (rev : Text) (seen stack : List Text)
      → IsClosed deps roots seen (rev ∷ stack)
      → let next = push_dependents (dependents_of_rev rev deps) seen stack in
        IsClosed deps roots next.0 next.1
  unfolding contains
  round-IsClosed rev seen stack h x y known gone edge =
      let found = dependents_of_rev rev deps in
      ground (
        arith,
        h x y,
        contains-seen x found seen stack,
        contains-seen y found seen stack,
        stack-kept x found seen stack,
        stack-new x found seen stack,
      )

  collect_lem :
      (rounds : ℕ) (seen stack : List Text)
      → IsSound deps roots seen stack
      → IsClosed deps roots seen stack
      → length stack + unseen seen deps ≤ rounds
      → (found : List Text) × (collect rounds deps seen stack ≡ some found)
        × IsSound deps roots found []
        × IsClosed deps roots found []
  unfolding collect
  collect_lem rounds seen [] sound closed enough = (seen, refl, sound, closed)
  collect_lem zero seen (rev ∷ stack) sound closed enough = absurd (omega arith)
  collect_lem (suc rounds) seen (rev ∷ stack) sound closed enough =
      let next = push_dependents (dependents_of_rev rev deps) seen stack in
      collect_lem rounds next.0 next.1 (round-IsSound rev seen stack sound)
        (round-IsClosed rev seen stack closed)
        (omega (
          arith,
          measure-push deps (dependents_of_rev rev deps) seen stack
              (λ x. dependents-downstream rev x deps),
        ))

  unseen-nil : (ds : List Dep) → unseen [] ds ≡ length ds
  unfolding unseen contains
  unseen-nil [] = refl
  unseen-nil (d ∷ ds) = omega (arith, unseen-nil ds)

  -- The search ends within its rounds.
  collect_total :
      (found : List Text) × (collect (length deps + length roots) deps [] (reverse roots)
        ≡ some found)
      × IsSound deps roots found []
      × IsClosed deps roots found []
  unfolding contains
  collect_total =
      collect_lem (length deps + length roots) [] (reverse roots)
        (record {
          seen_below = λ x m. cc;
          stack_below = λ x m. inl (rw (contains-reverse x roots) at m);
        })
        (λ x y known gone edge. ground (arith, contains-reverse x roots))
        (omega (arith, unseen-nil deps, length-reverse roots))

  found_complete :
      (found : List Text)
      → IsClosed deps roots found []
      → {x : Text} → Downstream deps roots x
      → contains x found ≡ true
  unfolding contains
  found_complete found closed (direct up root edge) = closed up _ (ground arith) refl edge
  found_complete found closed (further up d edge) =
      closed up _ (ground (arith, found_complete found closed d)) refl edge

-- `transitive_dependent_revisions` returns the revisions downstream of the given ones, through one
-- row of `deps` or more, and no others.
pub transitive_dependent_revisions_iff :
    (deps : List Dep) (roots : List Text) (x : Text)
    → (contains x (transitive_dependent_revisions roots deps) ≡ true) ↔ Downstream deps roots x
unfolding transitive_dependent_revisions
transitive_dependent_revisions_iff deps roots x =
    let (found, e, sound, closed) = collect_total deps roots in
    rw (e, transitive_dependent_revisions, contains-sorted)
      (sound.seen_below x, found_complete deps roots found closed)
