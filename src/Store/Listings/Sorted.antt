-- ===== src/Store/Listings/Sorted.antt =====
-- What the sorting of rows in pebs/store.py keeps.
use pebs.Base.{Bool, ◌||◌, ◌≡◌, refl, List, [], ◌∷◌, Text, same, arith, map, contains}
use pebs.Store.Listings.{insert_by, sort_by}

module _ {A : Type 0} (key : A → Text) (le : A → A → Bool) (a : Text) where
  contains-insert_by :
      (x : A) (xs : List A)
      → contains a (map key (insert_by le x xs)) ≡ (same a (key x) || contains a (map key xs))
  unfolding insert_by contains
  contains-insert_by x [] = refl
  contains-insert_by x (y ∷ xs) = ground (arith, contains-insert_by x xs)

  -- Sorting keeps the keys that are listed.
  pub contains-sort_by :
      (xs : List A) → contains a (map key (sort_by le xs)) ≡ contains a (map key xs)
  unfolding sort_by contains
  contains-sort_by [] = refl
  contains-sort_by (x ∷ xs) =
      ground (arith, contains-insert_by x (sort_by le xs), contains-sort_by xs)
