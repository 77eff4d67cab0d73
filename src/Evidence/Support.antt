-- ===== src/Evidence/Support.antt =====
-- `is_supported` of pebs/evidence.py, and how it reads a reference to a claim.
pub mod Cited
use pebs.Base.{
  ℕ, zero, suc, ◌+◌, ◌-◌, ◌*◌, Bool, true, false, ◌&&◌, ◌||◌, Option, none, some, [], ◌∷◌, Text,
  codes, leb, ◌==◌, if◌then◌else◌, ℤ, pos, negsuc,
}
use pebs.Evidence.Whitespace.{strip}
use pebs.Evidence.Rows.{supported, Claim, EvidenceStore}
use pebs.Evidence.Claims.{find_claim, same_verdict}

unfoldable pub is_digit : ℕ → Bool
is_digit c = leb 48 c && leb c 57

-- Digits, with a `_` between two of them or none, behind a number that is read already; the Boolean
-- says that the character before was a digit.
unfoldable pub read_digits : Bool → ℕ → Text → Option ℕ
unfolding is_digit
read_digits after n [] = if after then some n else none
read_digits after n (c ∷ cs) =
    let digit = is_digit c in
    let rest = read_digits digit (if digit then 10 * n + (c - 48) else n) cs in
    if digit || (after && c == b'_') then rest else none

abbrev pub negated : Option ℕ → Option ℤ
negated none = none
negated (some zero) = some (pos zero)
negated (some (suc n)) = some (negsuc n)

abbrev pub positive : Option ℕ → Option ℤ
positive none = none
positive (some n) = some (pos n)

unfoldable pub read_signed : Text → Option ℤ
unfolding read_digits
read_signed [] = none
read_signed (c ∷ cs) =
    if c == b'-'
    then negated (read_digits false 0 cs)
    else positive (read_digits false 0 (if c == b'+' then cs else c ∷ cs))

-- `int(text)`, none for a ValueError. The digits are those of ASCII.
unfoldable pub int_of : Text → Option ℤ
unfolding read_signed
int_of text = read_signed (strip text)

-- `ref.split("@v", 1)`, none where `"@v" not in ref`
unfoldable pub split_ref : Text → Option (Text × Text)
split_ref [] = none
split_ref (c ∷ []) = none
split_ref (c ∷ d ∷ cs) =
    let rest = split_ref (d ∷ cs) in
    if c == b'@' && d == b'v'
    then some ([], cs)
    else elim rest [ none ↦ none | some (front, back) ↦ some (c ∷ front, back) ]

-- The first row of the claim and the version that a reference names.
unfoldable pub claim_of_ref : Text → EvidenceStore → Option Claim
unfolding split_ref int_of
claim_of_ref ref s = elim (split_ref ref) [
  | none ↦ none
  | some (claim_id, version) ↦ elim (int_of version) [
    | none ↦ none
    | some (negsuc n) ↦ none
    | some (pos n) ↦ find_claim claim_id n s.claims
  ]
]

unfoldable pub is_supported : Text → EvidenceStore → Bool
unfolding claim_of_ref
is_supported ref s = elim (claim_of_ref ref s) [
  | none ↦ false
  | some c ↦ same_verdict c.status supported
]
