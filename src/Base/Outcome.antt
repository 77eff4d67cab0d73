-- ===== src/Base/Outcome.antt =====
-- What a call gives back: a result, or the error that it raises. A method that mutates an object
-- gives the object beside the result, since what was written before a raise stays written.
use mathlib.Core.Path.{◌≡◌, refl}
use mathlib.Core.Logic.{◌⊎◌, inl, inr}
use mathlib.Core.Bool.{Bool, true, false}
use native.Mathlib.Omega.{arith}
use mathlib.Core.Option.{Option, none, some}

pub data Result {ℓ} (E A : Type ℓ) : Type ℓ where
  ok : A → Result E A
  err : E → Result E A

abbrev pub Exec {ℓ} : Type ℓ → Type ℓ → Type ℓ → Type ℓ
Exec S E A = S → Result E A × S

module _ {ℓ} {S E A : Type ℓ} where
  abbrev pub pure : A → Exec S E A
  pure a s = (ok a, s)

  abbrev pub raise : E → Exec S E A
  raise e s = (err e, s)

  abbrev pub gets : (S → A) → Exec S E A
  gets f s = (ok (f s), s)

module _ {ℓ} {S E A B : Type ℓ} where
  abbrev pub continue : Result E A → (A → Exec S E B) → Exec S E B
  continue (ok a) f s = f a s
  continue (err e) f s = (err e, s)

  infixl 5 ◌>>=◌ ◌>>◌
  abbrev pub ◌>>=◌ : Exec S E A → (A → Exec S E B) → Exec S E B
  ◌>>=◌ m f s = let (r, t) = m s in continue r f t

  abbrev pub ◌>>◌ : Exec S E A → Exec S E B → Exec S E B
  m >> n = m >>= λ _. n

abbrev pub modify : {S E : Type 0} → (S → S) → Exec S E Unit
modify f s = (ok tt, f s)

abbrev pub raise_if : {S E : Type 0} → Bool → E → Exec S E Unit
raise_if true e = raise e
raise_if false e = pure tt

abbrev pub IsOk : {E A : Type 0} → Result E A → Type 0
IsOk (ok a) = Unit
IsOk (err e) = ⊥

pub Result-cases {ℓ} :
    {E A : Type ℓ} (r : Result E A) → ((a : A) × (r ≡ ok a)) ⊎ ((e : E) × (r ≡ err e))
Result-cases (ok a) = inl (a, refl)
Result-cases (err e) = inr (e, refl)

pub Option-cases {ℓ} : {A : Type ℓ} (o : Option A) → (o ≡ none) ⊎ ((a : A) × (o ≡ some a))
Option-cases none = inl refl
Option-cases (some a) = inr (a, refl)

continue_agree {ℓ} :
    {S E A B : Type ℓ} (f g : A → Exec S E B) (r : Result E A) (t : S)
    → ((a : A) (u : S) → f a u ≡ g a u)
    → continue r f t ≡ continue r g t
continue_agree f g (ok a) t h = h a t
continue_agree f g (err x) t h = refl

-- Two sequences agree from a state where their first parts agree, if what follows agrees everywhere.
pub >>=_agree {ℓ} :
    {S E A B : Type ℓ} (m n : Exec S E A) (f g : A → Exec S E B) (s : S)
    → m s ≡ n s
    → ((a : A) (t : S) → f a t ≡ g a t)
    → (m >>= f) s ≡ (n >>= g) s
>>=_agree m n f g s e h = rw e (continue_agree f g (n s).0 (n s).1 h)

continue_ok {ℓ} :
    {S E A B : Type ℓ} (f : A → Exec S E B) (r : Result E A) (u : S) (b : B) (t : S)
    → continue r f u ≡ (ok b, t)
    → (a : A) × (r ≡ ok a) × (f a u ≡ (ok b, t))
continue_ok f (ok a) u b t h = (a, refl, h)
continue_ok f (err x) u b t h = cc

-- What a sequence that succeeds has gone through.
pub >>=_ok {ℓ} :
    {S E A B : Type ℓ} (m : Exec S E A) (f : A → Exec S E B) (s : S) (b : B) (t : S)
    → (m >>= f) s ≡ (ok b, t)
    → (a : A) × (u : S) × (m s ≡ (ok a, u)) × (f a u ≡ (ok b, t))
>>=_ok m f s b t h =
    let (a, e, rest) = continue_ok f (m s).0 (m s).1 b t h in (a, (m s).1, ground arith, rest)
