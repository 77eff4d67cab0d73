-- ===== src/Base/Integers.antt =====
-- Integers, for differences that may be negative.
use Prim.Native.Nat.{ℕ, ◌-◌, ◌≤◌}
use pebs.Base.Tests.{leb, if◌then◌else◌}

-- `negsuc n` is -(n + 1).
pub data ℤ : Type 0 where
  pos : ℕ → ℤ
  negsuc : ℕ → ℤ

-- a - b
abbrev pub sub_ℕ : ℕ → ℕ → ℤ
sub_ℕ a b = if leb b a then pos (a - b) else negsuc (b - a - 1)

-- The natural number is at most the integer.
abbrev pub AtMost : ℕ → ℤ → Type 0
AtMost n (pos m) = n ≤ m
AtMost n (negsuc m) = ⊥
