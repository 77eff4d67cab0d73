-- ===== src/Base/Texts/Numerals.antt =====
-- `str(n)` of a natural number, and that distinct numbers have distinct numerals.
use Prim.Native.Nat.{ℕ, zero, suc, ◌+◌, ◌-◌, ◌*◌, ◌/◌, ◌%◌, ◌≤◌, ◌<◌}
use mathlib.Core.Path.{◌≡◌, sym, ap, ◌∙◌}
use mathlib.Core.List.{List, [], ◌∷◌, ◌++◌, reverse, reverse-reverse, reverse-cons}
use native.Mathlib.Omega.{arith}
use pebs.Base.Tests.{ltb, if◌then◌else◌}

-- The digits of `n`, the last one first. `n` rounds are enough.
unfoldable pub digits_from : ℕ → ℕ → List ℕ
digits_from zero n = []
digits_from (suc rounds) n =
    let rest = digits_from rounds (n / 10) in (48 + n % 10) ∷ (if ltb n 10 then [] else rest)

unfoldable pub decimal : ℕ → List ℕ
unfolding digits_from
decimal n = reverse (digits_from (suc n) n)

-- The number that digits stand for, the last one first.
unfoldable pub digits_value : List ℕ → ℕ
digits_value [] = 0
digits_value (c ∷ cs) = (c - 48) + 10 * digits_value cs

digits_value-digits_from : (rounds n : ℕ) → n < rounds → digits_value (digits_from rounds n) ≡ n
unfolding digits_value digits_from
digits_value-digits_from zero n h = elim h [ ]
digits_value-digits_from (suc rounds) n h = ground (arith, digits_value-digits_from rounds (n / 10))

abbrev pub IsDigits : List ℕ → Type 0
IsDigits [] = Unit
IsDigits (c ∷ cs) = (48 ≤ c) × (c < 58) × IsDigits cs

digits_from-IsDigits : (rounds n : ℕ) → IsDigits (digits_from rounds n)
unfolding digits_from
digits_from-IsDigits zero n = tt
digits_from-IsDigits (suc rounds) n = ground (arith, digits_from-IsDigits rounds (n / 10))

pub reverse-decimal-IsDigits : (n : ℕ) → IsDigits (reverse (decimal n))
unfolding decimal
reverse-decimal-IsDigits n = rw reverse-reverse (digits_from-IsDigits (suc n) n)

pub digits_value-decimal : (n : ℕ) → digits_value (reverse (decimal n)) ≡ n
unfolding decimal
digits_value-decimal n =
    ap digits_value (reverse-reverse (digits_from (suc n) n))
    ∙ digits_value-digits_from (suc n) n (omega arith)

pub decimal_injective : (n m : ℕ) → decimal n ≡ decimal m → n ≡ m
decimal_injective n m e =
    sym (digits_value-decimal n) ∙ ap (λ ds. digits_value (reverse ds)) e ∙ digits_value-decimal m

IsDigits-snoc : (ds : List ℕ) (c : ℕ) → IsDigits ds → 48 ≤ c → c < 58 → IsDigits (ds ++ c ∷ [])
IsDigits-snoc [] c h low high = (low, high, tt)
IsDigits-snoc (d ∷ ds) c h low high = (h.0, h.1, IsDigits-snoc ds c h.2 low high)

reverse-IsDigits : (ds : List ℕ) → IsDigits ds → IsDigits (reverse ds)
reverse-IsDigits [] h = tt
reverse-IsDigits (d ∷ ds) h =
    rw reverse-cons (IsDigits-snoc (reverse ds) d (reverse-IsDigits ds h.2) h.0 h.1)

pub decimal-IsDigits : (n : ℕ) → IsDigits (decimal n)
unfolding decimal
decimal-IsDigits n = reverse-IsDigits (digits_from (suc n) n) (digits_from-IsDigits (suc n) n)
