-- ===== src/Base/Texts.antt =====
-- Texts as lists of code points, their equality, and decimal numerals.
mod Numerals
pub use Numerals.{
  digits_value-decimal, decimal_injective, IsDigits, decimal-IsDigits, reverse-decimal-IsDigits,
}
unfoldable pub use Numerals.{decimal, digits_from, digits_value}
use Prim.Native.Nat.{ℕ}
use Prim.Native.Char.{code}
use Prim.Native.String.{String}
use mathlib.Core.Logic.{ite}
use mathlib.Core.Bool.{Bool, true, false}
use mathlib.Core.Option.{Option}
use mathlib.Core.List.{List, [], ◌∷◌, ◌++◌}
use native.Mathlib.Decide.{ℕ_discrete}

-- A Python `str`: its code points.
abbrev pub Text : Type 0
Text = List ℕ

abbrev pub codes : String → Text
codes String.[] = []
codes (String.◌∷◌ c s) = code c ∷ codes s

unfoldable pub text_dec : Discrete Text
unfolding ℕ_discrete
text_dec = hlevel ℕ_discrete

unfoldable pub maybe_dec : Discrete (Option Text)
unfolding text_dec
maybe_dec = hlevel text_dec

-- `a == b` of two texts.
abbrev pub same : Text → Text → Bool
same a b = ite (text_dec a b) true false

-- `a == b` where either side may be None.
abbrev pub same_maybe : Option Text → Option Text → Bool
same_maybe a b = ite (maybe_dec a b) true false

-- `sep.join(ts)`
unfoldable pub join : Text → List Text → Text
join sep [] = []
join sep (t ∷ ts) = let rest = join sep ts in elim ts [ [] ↦ t | _ ∷ _ ↦ t ++ sep ++ rest ]
