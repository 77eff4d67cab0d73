-- ===== src/Engine/Edits/Moved.antt =====
-- What the move of a step in `edit_plan` of pebs/engine.py keeps.
use mathlib.Core.List.{Perm}
use mathlib.Core.List.Perm
use pebs.Base.{
  ℕ, zero, suc, ◌+◌, ◌<◌, ◌≤◌, true, false, not, ◌&&◌, ◌||◌, ◌≡◌, refl, sym, subst, ap, inl, inr,
  Option, none, some, List, [], ◌∷◌, ◌++◌, Text, same, text_dec, ltb, arith, length, map-snoc,
  contains, All, Distinct, append_assoc, Bool-cases, Option-cases, Result-cases, ok, row_for,
}
use pebs.Engine.Dispatch.{PlanStep}
use pebs.Engine.Edits.Sound.{ids, OrderedFrom, IsGuarded}
use pebs.Engine.Edits.{remove_first, insert_at, position, check_deps, check_order, move_step}

position_bound : (a : Text) (i k : ℕ) (xs : List PlanStep) → position a i xs ≡ some k → i ≤ k
unfolding position
position_bound a i k [] h = absurd (ground arith)
position_bound a i k (x ∷ xs) h = elim (Option-cases (position a (i + 1) xs)) [
  | inr (j, later) ↦ ground (arith, position_bound a (i + 1) j xs later)
  | inl here ↦ ground arith
]

-- A place before the end of a part is that of a name of the part.
position_before :
    (a : Text) (i k : ℕ) (xs ys : List PlanStep)
    → position a i (xs ++ ys) ≡ some k
    → k < i + length xs
    → contains a (ids xs) ≡ true
unfolding position contains
position_before a i k [] ys h l = absurd (omega (arith, position_bound a i k ys h))
position_before a i k (x ∷ xs) ys h l = elim (Option-cases (position a (i + 1) (xs ++ ys))) [
  | inr (j, later) ↦ ground (arith, position_before a (i + 1) j xs ys later)
  | inl here ↦ ground arith
]

position-missing :
    (a : Text) (i : ℕ) (xs : List PlanStep) → contains a (ids xs) ≡ false → position a i xs ≡ none
unfolding position contains
position-missing a i [] h = refl
position-missing a i (x ∷ xs) h = ground (arith, position-missing a (i + 1) xs)

position_last :
    (i : ℕ) (xs : List PlanStep) (c : PlanStep) (ys : List PlanStep)
    → contains c.step_id (ids ys) ≡ false
    → position c.step_id i (xs ++ c ∷ ys) ≡ some (i + length xs)
unfolding position
position_last i [] c ys h = ground (arith, position-missing c.step_id (i + 1) ys h)
position_last i (x ∷ xs) c ys h = ground (arith, position_last (i + 1) xs c ys h)

check_deps-before :
    (xs : List PlanStep) (c : PlanStep) (ys : List PlanStep) (deps : List Text)
    → contains c.step_id (ids ys) ≡ false
    → check_deps (xs ++ c ∷ ys) c.step_id deps ≡ ok tt
    → All (λ d. contains d (ids xs) ≡ true) deps
unfolding check_deps
check_deps-before xs c ys [] fresh h = tt
check_deps-before xs c ys (d ∷ deps) fresh h = elim (Option-cases (position d 0 (xs ++ c ∷ ys))) [
  | inl missing ↦ absurd (ground arith)
  | inr (i, found) ↦
      let at = position_last 0 xs c ys fresh in
      elim (Bool-cases (ltb i (length xs))) [
        | inr late ↦ absurd (ground arith)
        | inl early ↦ (
          position_before d 0 i xs (c ∷ ys) found (ground arith),
          check_deps-before xs c ys deps fresh (ground arith),
        )
      ]
]

Distinct-after :
    (xs : List Text) (a : Text) (ys : List Text) → Distinct (xs ++ a ∷ ys) → contains a ys ≡ false
Distinct-after [] a ys d = d.0
Distinct-after (x ∷ xs) a ys d = Distinct-after xs a ys d.1

ids-append : (xs ys : List PlanStep) → ids (xs ++ ys) ≡ ids xs ++ ids ys
ids-append [] ys = refl
ids-append (x ∷ xs) ys = ap (◌∷◌ x.step_id) (ids-append xs ys)

check_order-OrderedFrom :
    (xs ys : List PlanStep)
    → Distinct (ids (xs ++ ys))
    → check_order (xs ++ ys) ys ≡ ok tt
    → OrderedFrom (ids xs) ys
unfolding check_order
check_order-OrderedFrom xs [] d h = tt
check_order-OrderedFrom xs (c ∷ ys) d h =
    elim (Result-cases (check_deps (xs ++ c ∷ ys) c.step_id c.depends_on)) [
      | inr (e, failed) ↦ absurd (ground arith)
      | inl (tt, passed) ↦
          let fresh =
            Distinct-after (ids xs) c.step_id (ids ys)
              (subst Distinct (ids-append xs (c ∷ ys)) d) in
          let regroup : (xs ++ c ∷ []) ++ ys ≡ xs ++ c ∷ ys = append_assoc xs (c ∷ []) ys in
          let rest : check_order (xs ++ c ∷ ys) ys ≡ ok tt = ground arith in
          (
            check_deps-before xs c ys c.depends_on fresh passed,
            subst (λ (l : List Text). OrderedFrom l ys)
                (map-snoc (λ (s : PlanStep). s.step_id) c xs)
                (check_order-OrderedFrom (xs ++ c ∷ []) ys
                  (subst (λ (l : List PlanStep). Distinct (ids l)) (sym regroup) d)
                  (subst (λ (l : List PlanStep). check_order l ys ≡ ok tt) (sym regroup) rest)),
          )
    ]

insert_at-perm :
    (i : ℕ) (s : PlanStep) (xs : List PlanStep) → Perm (ids (insert_at i s xs)) (s.step_id ∷ ids xs)
unfolding insert_at
insert_at-perm zero s xs = Perm.rfl
insert_at-perm (suc i) s [] = Perm.rfl
insert_at-perm (suc i) s (x ∷ xs) =
    Perm.trans (Perm.cons x.step_id (insert_at-perm i s xs)) (Perm.swap s.step_id x.step_id _)

contains-insert_at :
    (a : Text) (i : ℕ) (s : PlanStep) (xs : List PlanStep)
    → contains a (ids (insert_at i s xs)) ≡ (same a s.step_id || contains a (ids xs))
unfolding insert_at contains
contains-insert_at a zero s xs = refl
contains-insert_at a (suc i) s [] = refl
contains-insert_at a (suc i) s (x ∷ xs) = ground (arith, contains-insert_at a i s xs)

insert_at-Distinct :
    (i : ℕ) (s : PlanStep) (xs : List PlanStep)
    → contains s.step_id (ids xs) ≡ false
    → Distinct (ids xs)
    → Distinct (ids (insert_at i s xs))
unfolding insert_at contains
insert_at-Distinct zero s xs h d = (h, d)
insert_at-Distinct (suc i) s [] h d = (refl, tt)
insert_at-Distinct (suc i) s (x ∷ xs) h d = (
  ground (arith, contains-insert_at x.step_id i s xs),
  insert_at-Distinct i s xs (ground arith) d.1,
)

insert_at-All :
    (P : PlanStep → Type 0) (i : ℕ) (s : PlanStep) (xs : List PlanStep)
    → P s
    → All P xs
    → All P (insert_at i s xs)
unfolding insert_at
insert_at-All P zero s xs p h = (p, h)
insert_at-All P (suc i) s [] p h = (p, tt)
insert_at-All P (suc i) s (x ∷ xs) p h = (h.0, insert_at-All P i s xs p h.1)

remove_first-perm :
    (a : Text) (s : PlanStep) (xs : List PlanStep)
    → row_for (λ (t : PlanStep). t.step_id) a xs ≡ some s
    → Perm (ids xs) (s.step_id ∷ ids (remove_first a xs))
unfolding remove_first row_for
remove_first-perm a s [] h = absurd (ground arith)
remove_first-perm a s (x ∷ xs) h = elim (Bool-cases (same x.step_id a)) [
  | inl hit ↦ let e : x.step_id ≡ s.step_id = ground arith in rw hit (rw e Perm.rfl)
  | inr miss ↦ rw miss (
      Perm.trans (Perm.cons x.step_id (remove_first-perm a s xs (ground arith)))
        (Perm.swap s.step_id x.step_id _))
]

contains-remove_first :
    (a b : Text) (xs : List PlanStep)
    → Distinct (ids xs)
    → contains b (ids (remove_first a xs)) ≡ (contains b (ids xs) && not (same b a))
unfolding remove_first contains
contains-remove_first a b [] d = refl
contains-remove_first a b (x ∷ xs) d = elim (text_dec x.step_id a) [
  | yes hit ↦ ground (arith, d.0)
  | no miss ↦ ground (arith, contains-remove_first a b xs d.1)
]

remove_first-Distinct :
    (a : Text) (xs : List PlanStep) → Distinct (ids xs) → Distinct (ids (remove_first a xs))
unfolding remove_first contains
remove_first-Distinct a [] d = tt
remove_first-Distinct a (x ∷ xs) d = elim (Bool-cases (same x.step_id a)) [
  | inl hit ↦ rw hit d.1
  | inr miss ↦ rw miss (
    ground (arith, contains-remove_first a x.step_id xs d.1, d.0),
    remove_first-Distinct a xs d.1,
  )
]

remove_first-All :
    (P : PlanStep → Type 0) (a : Text) (xs : List PlanStep) → All P xs → All P (remove_first a xs)
unfolding remove_first
remove_first-All P a [] h = tt
remove_first-All P a (x ∷ xs) h = elim (Bool-cases (same x.step_id a)) [
  | inl hit ↦ rw hit h.1
  | inr miss ↦ rw miss (h.0, remove_first-All P a xs h.1)
]

-- A move that is made keeps the names, and leaves each step behind those it depends on.
pub move_step-kept :
    (step : PlanStep) (index : Option ℕ) (steps moved : List PlanStep)
    → row_for (λ (t : PlanStep). t.step_id) step.step_id steps ≡ some step
    → Distinct (ids steps)
    → All IsGuarded steps
    → IsGuarded step
    → move_step step index steps ≡ ok moved
    → Distinct (ids moved)
      × OrderedFrom [] moved
      × All IsGuarded moved
      × Perm (ids moved) (ids steps)
unfolding move_step
move_step-kept step none steps moved found d g own e = absurd (ground arith)
move_step-kept step (some i) steps moved found d g own e =
    let rest = remove_first step.step_id steps in
    let placed = insert_at i step rest in
    let distinct : Distinct (ids placed) =
      insert_at-Distinct i step rest
        (ground (arith, contains-remove_first step.step_id step.step_id steps d))
        (remove_first-Distinct step.step_id steps d) in
    elim (Bool-cases (ltb i (length steps))) [
      | inr outside ↦ absurd (ground arith)
      | inl inside ↦ elim (Result-cases (check_order placed placed)) [
        | inr (x, failed) ↦ absurd (ground arith)
        | inl (tt, passed) ↦
            let lands : placed ≡ moved = ground arith in
            rw (← lands) (
              distinct,
              check_order-OrderedFrom [] placed distinct passed,
              insert_at-All IsGuarded i step rest own
                  (remove_first-All IsGuarded step.step_id steps g),
              Perm.trans (insert_at-perm i step rest)
                  (Perm.symm (remove_first-perm step.step_id step steps found)),
            )
      ]
    ]
