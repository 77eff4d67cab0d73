-- ===== src/Base/Lists.antt =====
-- Lists with native lengths, Boolean searches, and sets of texts as lists.
use Prim.Native.Nat.{ℕ, zero, suc, ◌+◌, max, compare, Ordering}
use mathlib.Core.Path.{◌≡◌, refl, subst, ap}
use mathlib.Core.Logic.{◌↔◌, ◌⊎◌, inl, inr}
use mathlib.Core.Bool.{Bool, true, false, ◌||◌, ◌&&◌}
use mathlib.Core.List.{List, [], ◌∷◌, ◌++◌, map}
use native.Mathlib.Omega.{arith}
use pebs.Base.Tests.{if◌then◌else◌}
use pebs.Base.Texts.{Text, same, text_dec}

module _ {ℓ} {A : Type ℓ} where
  abbrev pub length : List A → ℕ
  length [] = 0
  length (x ∷ xs) = suc (length xs)

  -- `xs[:n]`
  unfoldable pub take : ℕ → List A → List A
  take zero xs = []
  take (suc n) [] = []
  take (suc n) (x ∷ xs) = x ∷ take n xs

  -- `[x for x in xs if p(x)]`
  unfoldable pub select : (A → Bool) → List A → List A
  select p [] = []
  select p (x ∷ xs) = let rest = select p xs in if p x then x ∷ rest else rest

  unfoldable pub any : (A → Bool) → List A → Bool
  any p [] = false
  any p (x ∷ xs) = p x || any p xs

  unfoldable pub all : (A → Bool) → List A → Bool
  all p [] = true
  all p (x ∷ xs) = p x && all p xs

  unfoldable pub max_of : (A → ℕ) → List A → ℕ
  max_of f [] = 0
  max_of f (x ∷ xs) = max (f x) (max_of f xs)

  abbrev pub All {κ} : (A → Type κ) → List A → Type κ
  All P [] = Unit
  All P (x ∷ xs) = P x × All P xs

  -- One of the elements.
  abbrev pub Some : (A → Type 0) → List A → Type 0
  Some P [] = ⊥
  Some P (x ∷ xs) = P x ⊎ Some P xs

  pub All-append {κ} : (P : A → Type κ) (xs ys : List A) → All P xs → All P ys → All P (xs ++ ys)
  All-append P [] ys h k = k
  All-append P (x ∷ xs) ys h k = (h.0, All-append P xs ys h.1 k)

  pub All-map {κ μ} :
      {P : A → Type κ} {Q : A → Type μ} (xs : List A) → ((x : A) → P x → Q x) → All P xs → All Q xs
  All-map [] f h = tt
  All-map (x ∷ xs) f h = (f x h.0, All-map xs f h.1)

  pub append_empty : (xs ys : List A) → xs ++ ys ≡ [] → (xs ≡ []) × (ys ≡ [])
  append_empty [] ys h = (refl, h)
  append_empty (x ∷ xs) ys h = absurd (ground arith)

  pub length-append : (xs ys : List A) → length (xs ++ ys) ≡ length xs + length ys
  length-append [] ys = omega arith
  length-append (x ∷ xs) ys = omega (arith, length-append xs ys)

pub All-member :
    {A : Type 0} (P : A → Type 0) (xs : List A) (x : A) → All P xs → Some (λ y. y ≡ x) xs → P x
All-member P [] x h m = absurd m
All-member P (y ∷ xs) x h (inl e) = subst P e h.0
All-member P (y ∷ xs) x h (inr m) = All-member P xs x h.1 m

-- `a in xs`
unfoldable pub contains : Text → List Text → Bool
contains a [] = false
contains a (x ∷ xs) = same a x || contains a xs

-- `s.add(a)`: a set as the list of its members.
unfoldable pub insert_new : Text → List Text → List Text
insert_new a xs = if contains a xs then xs else a ∷ xs

unfoldable pub union : List Text → List Text → List Text
union [] ys = ys
union (x ∷ xs) ys = insert_new x (union xs ys)

-- `for x in xs: acc = step(x, acc)`
unfoldable pub each {ℓ κ} : {A : Type ℓ} {B : Type κ} → (A → B → B) → List A → B → B
each step [] acc = acc
each step (x ∷ xs) acc = each step xs (step x acc)

-- The order of code points, by which Python sorts texts.
unfoldable pub text_leb : Text → Text → Bool
text_leb [] bs = true
text_leb (a ∷ as') [] = false
text_leb (a ∷ as') (b ∷ bs) =
    let rest = text_leb as' bs in
    elim (compare a b) [ Ordering.lt ↦ true | Ordering.eq ↦ rest | Ordering.gt ↦ false ]

unfoldable pub insert_sorted : Text → List Text → List Text
insert_sorted a [] = a ∷ []
insert_sorted a (x ∷ xs) =
    let rest = insert_sorted a xs in if text_leb a x then a ∷ x ∷ xs else x ∷ rest

-- `sorted(xs)`
unfoldable pub sorted : List Text → List Text
unfolding insert_sorted text_leb
sorted [] = []
sorted (x ∷ xs) = insert_sorted x (sorted xs)

pub contains-append :
    (a : Text) (xs ys : List Text) → contains a (xs ++ ys) ≡ (contains a xs || contains a ys)
unfolding contains
contains-append a [] ys = refl
contains-append a (x ∷ xs) ys = ground (arith, contains-append a xs ys)

pub contains-insert_new :
    (a b : Text) (xs : List Text) → contains a (insert_new b xs) ≡ (same a b || contains a xs)
unfolding insert_new contains
contains-insert_new a b xs = ground arith

contains-insert_sorted :
    (a b : Text) (xs : List Text) → contains a (insert_sorted b xs) ≡ (same a b || contains a xs)
unfolding insert_sorted contains
contains-insert_sorted a b [] = refl
contains-insert_sorted a b (x ∷ xs) = ground (arith, contains-insert_sorted a b xs)

pub contains-sorted : (a : Text) (xs : List Text) → contains a (sorted xs) ≡ contains a xs
unfolding sorted contains
contains-sorted a [] = refl
contains-sorted a (x ∷ xs) =
    ground (arith, contains-insert_sorted a x (sorted xs), contains-sorted a xs)

pub contains-union :
    (a : Text) (xs ys : List Text) → contains a (union xs ys) ≡ (contains a xs || contains a ys)
unfolding union contains
contains-union a [] ys = refl
contains-union a (x ∷ xs) ys =
    ground (arith, contains-insert_new a x (union xs ys), contains-union a xs ys)

pub contains-select :
    (a : Text) (p : Text → Bool) (xs : List Text)
    → contains a (select p xs) ≡ (contains a xs && p a)
unfolding contains select
contains-select a p [] = refl
contains-select a p (x ∷ xs) = ground (arith, contains-select a p xs)

-- What a loop adds to a set, if each round adds what belongs to its element.
pub contains-each_iff {ℓ} :
    (P : Text → Type ℓ) (a : Text) (step : Text → List Text → List Text)
    → ((x : Text) (acc : List Text)
        → (contains a (step x acc) ≡ true) ↔ ((contains a acc ≡ true) ⊎ P x))
    → (xs acc : List Text)
    → (contains a (each step xs acc) ≡ true)
      ↔ ((contains a acc ≡ true) ⊎ ((x : Text) × (contains x xs ≡ true) × P x))
unfolding each contains
contains-each_iff P a step round [] acc = (inl, λ h. elim h [ inl old ↦ old | inr (x, m, p) ↦ cc ])
contains-each_iff P a step round (x ∷ xs) acc =
    let later = contains-each_iff P a step round xs (step x acc) in
    (
      λ h. elim (later.0 h) [
        | inl now ↦ elim ((round x acc).0 now) [
          | inl old ↦ inl old
          | inr p ↦ inr (x, ground arith, p)
        ]
        | inr (y, m, p) ↦ inr (y, ground arith, p)
      ],
      λ h. elim h [
        | inl old ↦ later.1 (inl ((round x acc).1 (inl old)))
        | inr (y, m, p) ↦ elim (text_dec y x) [
          | yes e ↦ later.1 (inl ((round x acc).1 (inr (subst P e p))))
          | no differ ↦ later.1 (inr (y, ground arith, p))
        ]
      ],
    )

-- No text stands twice.
abbrev pub Distinct : List Text → Type 0
Distinct [] = Unit
Distinct (x ∷ xs) = (contains x xs ≡ false) × Distinct xs

pub Distinct-snoc :
    (x : Text) (xs : List Text) → Distinct xs → contains x xs ≡ false → Distinct (xs ++ x ∷ [])
unfolding contains
Distinct-snoc x [] d h = (refl, tt)
Distinct-snoc x (y ∷ xs) d h = ground (arith, Distinct-snoc x xs, contains-append y xs (x ∷ []))

pub map-snoc {ℓ κ} :
    {A : Type ℓ} {B : Type κ} (f : A → B) (x : A) (xs : List A)
    → map f (xs ++ x ∷ []) ≡ map f xs ++ f x ∷ []
map-snoc f x [] = refl
map-snoc f x (y ∷ xs) = ap (◌∷◌ (f y)) (map-snoc f x xs)

pub List-cases {ℓ} :
    {A : Type ℓ} (xs : List A) → (xs ≡ []) ⊎ ((x : A) × (rest : List A) × (xs ≡ x ∷ rest))
List-cases [] = inl refl
List-cases (x ∷ xs) = inr (x, xs, refl)
