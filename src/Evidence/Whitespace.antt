-- ===== src/Evidence/Whitespace.antt =====
-- `_normalize` of pebs/evidence.py and the search for a quote in a text.
use pebs.Base.{ℕ, Bool, true, false, ◌&&◌, ◌||◌, [], ◌∷◌, Text, leb, ◌==◌, if◌then◌else◌}
use mathlib.Core.List.{reverse}

-- `str.isspace`, which `\s` of `re` matches and `str.strip` removes.
unfoldable pub is_space : ℕ → Bool
is_space c =
    (leb 9 c && leb c 13)
    || (leb 28 c && leb c 32)
    || c == 133
    || c == 160
    || c == 5760
    || (leb 8192 c && leb c 8202)
    || c == 8232
    || c == 8233
    || c == 8239
    || c == 8287
    || c == 12288

abbrev pub starts_space : Text → Bool
starts_space [] = false
starts_space (c ∷ cs) = is_space c

-- `re.sub(r"\s+", " ", text)`
unfoldable pub squeeze : Text → Text
squeeze [] = []
squeeze (c ∷ cs) =
    let rest = squeeze cs in
    if is_space c then (if starts_space rest then rest else b' ' ∷ rest) else c ∷ rest

unfoldable pub lstrip : Text → Text
lstrip [] = []
lstrip (c ∷ cs) = let rest = lstrip cs in if is_space c then rest else c ∷ cs

unfoldable pub strip : Text → Text
unfolding lstrip
strip text = reverse (lstrip (reverse (lstrip text)))

unfoldable pub normalize : Text → Text
normalize text = strip (squeeze text)

unfoldable pub starts_with : Text → Text → Bool
starts_with [] text = true
starts_with (q ∷ qs) [] = false
starts_with (q ∷ qs) (c ∷ cs) = q == c && starts_with qs cs

-- `quote in text`
unfoldable pub is_inside : Text → Text → Bool
is_inside quote [] = starts_with quote []
is_inside quote (c ∷ cs) = starts_with quote (c ∷ cs) || is_inside quote cs
