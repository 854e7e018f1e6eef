-- ===== src/Base/Strings.antt =====
-- Go strings as lists of bytes, with the functions of package strings that the program calls.
-- The case folding and the trimming are those of ASCII text.
use Prim.Native.Nat.{ℕ, ◌+◌}
use Prim.Native.Char.{code}
use Prim.Native.String.{String}
use mathlib.Core.Bool.{Bool, true, false, ◌&&◌, ◌||◌}
use mathlib.Core.List.{List, [], ◌∷◌, ◌++◌, reverse}
use mathlib.Core.Option.{Option, none, some}
use wecert.Base.Tests.{ltb, leb, ◌==◌, if◌then◌else◌}

abbrev pub Text : Type 0
Text = List ℕ

abbrev pub codes : String → Text
codes String.[] = []
codes (String.◌∷◌ c s) = code c ∷ codes s

-- `s == t`
unfoldable pub text_eq : Text → Text → Bool
text_eq [] [] = true
text_eq [] (d ∷ t) = false
text_eq (c ∷ s) [] = false
text_eq (c ∷ s) (d ∷ t) = (c == d) && text_eq s t

-- `s <= t`, by bytes.
unfoldable pub text_le : Text → Text → Bool
text_le [] t = true
text_le (c ∷ s) [] = false
text_le (c ∷ s) (d ∷ t) = let rest = text_le s t in if ltb c d then true else (c == d) && rest

-- `_, ok := m[s]` where the keys of m are the list.
unfoldable pub mem : Text → List Text → Bool
unfolding text_eq
mem s [] = false
mem s (t ∷ l) = text_eq s t || mem s l

-- strings.HasPrefix
unfoldable pub has_prefix : Text → Text → Bool
has_prefix s [] = true
has_prefix [] (d ∷ p) = false
has_prefix (c ∷ s) (d ∷ p) = (c == d) && has_prefix s p

-- What follows the prefix, if it is one.
unfoldable pub after_prefix : Text → Text → Option Text
after_prefix s [] = some s
after_prefix [] (d ∷ p) = none
after_prefix (c ∷ s) (d ∷ p) = let rest = after_prefix s p in if c == d then rest else none

-- strings.CutSuffix; none where the suffix is not one.
unfoldable pub cut_suffix : Text → Text → Option Text
cut_suffix [] p = if text_eq [] p then some [] else none
cut_suffix (c ∷ s) p =
    let rest = cut_suffix s p in
    if text_eq (c ∷ s) p then some [] else elim rest [ none ↦ none | some r ↦ some (c ∷ r) ]

-- strings.TrimSuffix
unfoldable pub trim_suffix : Text → Text → Text
unfolding cut_suffix
trim_suffix s p = elim (cut_suffix s p) [ none ↦ s | some r ↦ r ]

-- strings.TrimPrefix
unfoldable pub trim_prefix : Text → Text → Text
unfolding after_prefix
trim_prefix s p = elim (after_prefix s p) [ none ↦ s | some r ↦ r ]

-- strings.Contains(s, string(c)) for one byte c.
unfoldable pub contains_byte : ℕ → Text → Bool
contains_byte b [] = false
contains_byte b (c ∷ s) = (c == b) || contains_byte b s

-- unicode.IsSpace on ASCII
unfoldable pub is_space : ℕ → Bool
is_space c = (c == 32) || (leb 9 c && leb c 13)

unfoldable pub trim_left : Text → Text
unfolding is_space
trim_left [] = []
trim_left (c ∷ s) = let rest = trim_left s in if is_space c then rest else c ∷ s

-- strings.TrimSpace
unfoldable pub trim_space : Text → Text
unfolding trim_left
trim_space s = reverse (trim_left (reverse (trim_left s)))

unfoldable pub lower_byte : ℕ → ℕ
lower_byte c = if leb 65 c && leb c 90 then c + 32 else c

-- strings.ToLower
unfoldable pub to_lower : Text → Text
unfolding lower_byte
to_lower [] = []
to_lower (c ∷ s) = lower_byte c ∷ to_lower s

-- strings.Split(s, string(c)): the part before the first separator, and the others.
unfoldable pub split_first : ℕ → Text → Text × List Text
split_first b [] = ([], [])
split_first b (c ∷ s) =
    let (p, ps) = split_first b s in if c == b then ([], p ∷ ps) else (c ∷ p, ps)

unfoldable pub split : ℕ → Text → List Text
unfolding split_first
split b s = let (p, ps) = split_first b s in p ∷ ps

-- strings.Join(l, string(c))
unfoldable pub join : ℕ → List Text → Text
join b [] = []
join b (p ∷ []) = p
join b (p ∷ q ∷ ps) = p ++ b ∷ join b (q ∷ ps)
