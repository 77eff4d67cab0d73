-- ===== src/Base/Refs.antt =====
-- References to a version of a thing: `f"{artifact_id}@r{version}"` and `f"{claim_id}@v{version}"`.
use Prim.Native.Nat.{ℕ, ◌<◌}
use mathlib.Core.Path.{◌≡◌, sym, ap, ◌∙◌}
use mathlib.Core.List.{
  List, [], ◌∷◌, ◌++◌, reverse, reverse-append, reverse-cons, reverse-reverse, append_assoc,
}
use native.Mathlib.Omega.{arith}
use pebs.Base.Texts.{Text, decimal, decimal_injective, IsDigits, reverse-decimal-IsDigits}

unfoldable pub ref_id : ℕ → Text → ℕ → Text
ref_id tag name version = name ++ b'@' ∷ tag ∷ decimal version

-- A run of digits is read off the front of a text in one way.
digits_split :
    (ds es : List ℕ) (c : ℕ) (xs ys : List ℕ)
    → IsDigits ds
    → IsDigits es
    → 57 < c
    → ds ++ c ∷ xs ≡ es ++ c ∷ ys
    → (ds ≡ es) × (xs ≡ ys)
digits_split [] [] c xs ys h k l e = ground arith
digits_split [] (f ∷ es) c xs ys h k l e = absurd (ground arith)
digits_split (d ∷ ds) [] c xs ys h k l e = absurd (ground arith)
digits_split (d ∷ ds) (f ∷ es) c xs ys h k l e = ground (arith, digits_split ds es c xs ys)

reverse-ref_id :
    (tag : ℕ) (name : Text) (version : ℕ)
    → reverse (ref_id tag name version) ≡ reverse (decimal version) ++ tag ∷ b'@' ∷ reverse name
unfolding ref_id
reverse-ref_id tag name version = simp (reverse-append, reverse-cons, append_assoc)

-- For a tag that is above the digits, two equal identifiers have equal names and equal versions,
-- whatever the names hold.
pub ref_id_injective :
    (tag : ℕ) (a b : Text) (n m : ℕ)
    → 57 < tag
    → ref_id tag a n ≡ ref_id tag b m
    → (a ≡ b) × (n ≡ m)
ref_id_injective tag a b n m h e =
    let (ds, rest) =
      digits_split (reverse (decimal n)) (reverse (decimal m)) tag (b'@' ∷ reverse a)
        (b'@' ∷ reverse b) (reverse-decimal-IsDigits n) (reverse-decimal-IsDigits m) h
        (sym (reverse-ref_id tag a n) ∙ ap reverse e ∙ reverse-ref_id tag b m) in
    let same_names : reverse a ≡ reverse b = cc rest in
    (
      sym (reverse-reverse a) ∙ ap reverse same_names ∙ reverse-reverse b,
      decimal_injective n m (sym (reverse-reverse _) ∙ ap reverse ds ∙ reverse-reverse _),
    )
