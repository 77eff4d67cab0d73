-- ===== src/Base/Tables.antt =====
-- Rows of a table that are found by a text, its key: SELECT and UPDATE with `WHERE key = ?`.
use mathlib.Core.Path.{◌≡◌, refl}
use mathlib.Core.Option
use mathlib.Core.Option.{Option, none, some}
use mathlib.Core.List.{List, [], ◌∷◌, ◌++◌}
use native.Mathlib.Omega.{arith}
use pebs.Base.Tests.{if◌then◌else◌}
use pebs.Base.Texts.{Text, same}

module _ {A : Type 0} (key : A → Text) where
  -- The first row with the key.
  unfoldable pub row_for : Text → List A → Option A
  row_for k [] = none
  row_for k (x ∷ xs) = if same (key x) k then some x else row_for k xs

  -- Every row with the key is changed.
  unfoldable pub amend : Text → (A → A) → List A → List A
  amend k f [] = []
  amend k f (x ∷ xs) = (if same (key x) k then f x else x) ∷ amend k f xs

  pub row_for-amend :
      (k j : Text) (f : A → A) (xs : List A)
      → ((x : A) → key (f x) ≡ key x)
      → row_for j (amend k f xs) ≡ (if same k j then Option.map f (row_for j xs) else row_for j xs)
  unfolding row_for amend
  row_for-amend k j f [] keeps = ground arith
  row_for-amend k j f (x ∷ xs) keeps = ground (arith, row_for-amend k j f xs keeps, keeps x)

  pub row_for-append :
      (k : Text) (xs ys : List A)
      → row_for k (xs ++ ys) ≡ elim (row_for k xs) [ none ↦ row_for k ys | some x ↦ some x ]
  unfolding row_for
  row_for-append k [] ys = refl
  row_for-append k (x ∷ xs) ys = ground (arith, row_for-append k xs ys)

  pub key-row_for : (k : Text) (xs : List A) (x : A) → row_for k xs ≡ some x → key x ≡ k
  unfolding row_for
  key-row_for k [] x h = cc
  key-row_for k (y ∷ xs) x h = ground (arith, key-row_for k xs x)
