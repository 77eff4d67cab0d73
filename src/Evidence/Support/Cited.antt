-- ===== src/Evidence/Support/Cited.antt =====
-- A reference to a version of a claim is read back, so `is_supported` of pebs/evidence.py looks at the
-- claim that was meant.
use pebs.Base.{
  ℕ, suc, ◌+◌, ◌-◌, ◌*◌, Bool, true, false, ◌≡◌, refl, sym, ap, ◌∙◌, ◌↔◌, some, [], ◌∷◌, ◌++◌, ◌≢◌,
  Text, codes, decimal, digits_value, digits_from, reverse-decimal-IsDigits, digits_value-decimal,
  IsDigits, decimal-IsDigits, ref_id, ok, arith, pos, Option-cases, inl, inr,
}
use mathlib.Core.List.{reverse, reverse-reverse, reverse-cons}
use pebs.Evidence.Whitespace.{is_space, lstrip, strip, starts_with, is_inside}
use pebs.Evidence.Rows.{supported, EvidenceStore}
use pebs.Evidence.Claims.{find_claim, claim_status, same_verdict}
use pebs.Evidence.Support.{
  is_digit, read_digits, read_signed, int_of, split_ref, claim_of_ref, is_supported,
}

split_ref-name :
    (name rest : Text)
    → is_inside (codes "@v") name ≡ false
    → split_ref (name ++ b'@' ∷ b'v' ∷ rest) ≡ some (name, rest)
unfolding split_ref is_inside starts_with
split_ref-name [] rest h = refl
split_ref-name (c ∷ []) rest h = ground (arith, split_ref-name [] rest refl)
split_ref-name (c ∷ d ∷ cs) rest h = ground (arith, split_ref-name (d ∷ cs) rest (ground arith))

value_from : ℕ → Text → ℕ
value_from n [] = n
value_from n (c ∷ cs) = value_from (10 * n + (c - 48)) cs

value_from-snoc :
    (n : ℕ) (cs : Text) (c : ℕ) → value_from n (cs ++ c ∷ []) ≡ 10 * value_from n cs + (c - 48)
unfolding value_from
value_from-snoc n [] c = refl
value_from-snoc n (d ∷ cs) c = value_from-snoc (10 * n + (d - 48)) cs c

value_from-reverse : (ds : Text) → value_from 0 (reverse ds) ≡ digits_value ds
unfolding value_from digits_value
value_from-reverse [] = refl
value_from-reverse (d ∷ ds) =
    rw (reverse-cons, value_from-snoc) (omega (arith, value_from-reverse ds))

read_digits-value :
    (after : Bool) (n c : ℕ) (cs : Text)
    → IsDigits (c ∷ cs)
    → read_digits after n (c ∷ cs) ≡ some (value_from n (c ∷ cs))
unfolding read_digits is_digit value_from
read_digits-value after n c [] h = ground arith
read_digits-value after n c (d ∷ cs) h =
    ground (arith, read_digits-value true (10 * n + (c - 48)) d cs h.2)

lstrip-digits : (ds : Text) → IsDigits ds → lstrip ds ≡ ds
unfolding lstrip is_space
lstrip-digits [] h = refl
lstrip-digits (d ∷ ds) h = ground arith

strip-decimal : (n : ℕ) → strip (decimal n) ≡ decimal n
unfolding strip
strip-decimal n =
    rw
      (
        lstrip-digits (decimal n) (decimal-IsDigits n),
        lstrip-digits (reverse (decimal n)) (reverse-decimal-IsDigits n),
      )
      (reverse-reverse (decimal n))

value_from-decimal : (n : ℕ) → value_from 0 (decimal n) ≡ n
value_from-decimal n =
    ap (value_from 0) (sym (reverse-reverse (decimal n)))
    ∙ value_from-reverse (reverse (decimal n))
    ∙ digits_value-decimal n

-- A text of digits that is not empty.
read_signed-digits :
    (ds : Text) → IsDigits ds → ds ≢ [] → read_signed ds ≡ some (pos (value_from 0 ds))
unfolding read_signed
read_signed-digits [] h k = absurd (k refl)
read_signed-digits (d ∷ ds) h k = ground (arith, read_digits-value false 0 d ds h)

decimal_filled : (n : ℕ) → decimal n ≢ []
unfolding decimal digits_from
decimal_filled n e =
    let none_left : digits_from (suc n) n ≡ [] =
      sym (reverse-reverse (digits_from (suc n) n)) ∙ ap reverse e in
    absurd (ground (arith, none_left))

int_of-decimal : (n : ℕ) → int_of (decimal n) ≡ some (pos n)
unfolding int_of
int_of-decimal n = rw (strip-decimal n) (
    read_signed-digits (decimal n) (decimal-IsDigits n) (decimal_filled n)
    ∙ ap (λ m. some (pos m)) (value_from-decimal n))

claim_of_ref-ref_id :
    (claim_id : Text) (version : ℕ) (s : EvidenceStore)
    → is_inside (codes "@v") claim_id ≡ false
    → claim_of_ref (ref_id b'v' claim_id version) s ≡ find_claim claim_id version s.claims
unfolding claim_of_ref ref_id
claim_of_ref-ref_id claim_id version s h =
    ground (arith, split_ref-name claim_id (decimal version) h, int_of-decimal version)

-- The reference to a version of a claim whose name has no `@v` in it is supported exactly when that
-- version of the claim has the status SUPPORTED.
pub is_supported-ref_id :
    (claim_id : Text) (version : ℕ) (s : EvidenceStore)
    → is_inside (codes "@v") claim_id ≡ false
    → (is_supported (ref_id b'v' claim_id version) s ≡ true)
      ↔ ((claim_status claim_id version s).0 ≡ ok supported)
unfolding is_supported claim_status same_verdict
is_supported-ref_id claim_id version s h =
    elim (Option-cases (find_claim claim_id version s.claims)) [
      | inl missing ↦ ground (arith, claim_of_ref-ref_id claim_id version s h)
      | inr (c, found) ↦ ground (arith, claim_of_ref-ref_id claim_id version s h)
    ]
