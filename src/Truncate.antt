-- ===== src/Truncate.antt =====
-- truncate of internal/state/fallback.go, by which the store bounds the texts that it keeps.
pub mod Boundary
use wecert.Base.{
  ℕ, zero, suc, ◌+◌, ◌*◌, ◌/◌, ◌≤◌, ◌<◌, ◌≡◌, ◌≢◌, ◌⊎◌, ◌↔◌, inl, inr, Bool, true, false, not, ◌&&◌,
  ◌||◌, Option, none, some, if◌then◌else◌, List, [], ◌∷◌, ◌++◌, Text, text_eq, text_eq_iff,
  text_eq_refl, mem, ltb, leb, ◌==◌, length, length-append, codes, Result, ok, err, arith, refl, ap,
  ◌∙◌, Option-cases, Bool-cases, Result-cases,
}

abbrev pub max_last_error_bytes : ℕ
max_last_error_bytes = 512

-- utf8.RuneStart(s[n]), and what s[n:n] is when there is no such byte.
unfoldable pub rune_start_at : Text → ℕ → Bool
rune_start_at [] n = true
rune_start_at (c ∷ s) zero = ltb c 128 || leb 192 c
rune_start_at (c ∷ s) (suc n) = rune_start_at s n

-- The loop that walks the cut back.
unfoldable pub cut_point : Text → ℕ → ℕ
unfolding rune_start_at
cut_point s zero = zero
cut_point s (suc n) = let rest = cut_point s n in if rune_start_at s (suc n) then suc n else rest

-- s[:n]
unfoldable pub take : ℕ → Text → Text
take zero s = []
take (suc n) [] = []
take (suc n) (c ∷ s) = c ∷ take n s

unfoldable pub truncate : Text → ℕ → Text
unfolding cut_point take
truncate s n = if leb (length s) n then s else take (cut_point s n) s ++ codes "..."
