-- ===== src/Truncate/Boundary.antt =====
-- The texts that truncate of internal/state/fallback.go leaves.
use wecert.Base.{
  ℕ, zero, suc, ◌+◌, ◌≤◌, ◌<◌, ◌≡◌, ◌⊎◌, true, [], ◌∷◌, ◌++◌, Text, length, length-append, codes,
  arith,
}
use wecert.Truncate.{rune_start_at, cut_point, take, truncate}

length-take : (n : ℕ) (s : Text) → length (take n s) ≤ n
unfolding take
length-take zero s = omega arith
length-take (suc n) [] = omega arith
length-take (suc n) (c ∷ s) = ground (arith, length-take n s)

cut_point-le : (s : Text) (n : ℕ) → cut_point s n ≤ n
unfolding cut_point
cut_point-le s zero = omega arith
cut_point-le s (suc n) = ground (arith, cut_point-le s n)

cut_point-boundary :
    (s : Text) (n : ℕ) → (cut_point s n ≡ 0) ⊎ (rune_start_at s (cut_point s n) ≡ true)
unfolding cut_point
cut_point-boundary s zero = ground arith
cut_point-boundary s (suc n) = ground (arith, cut_point-boundary s n)

-- A text is stored in at most the bytes allowed and the three dots: whole if it fits, and otherwise
-- cut at the start of a rune, or away entirely, with dots after the cut.
pub truncate_lem :
    (s : Text) (n : ℕ)
    → (length (truncate s n) ≤ n + 3)
      × (length s ≤ n → truncate s n ≡ s)
      × (n < length s
          → (k : ℕ) × (k ≤ n)
            × ((k ≡ 0) ⊎ (rune_start_at s k ≡ true))
            × (truncate s n ≡ take k s ++ codes "..."))
unfolding truncate
truncate_lem s n = (
  ground (
    arith,
    length-append (take (cut_point s n) s) (codes "..."),
    length-take (cut_point s n) s,
    cut_point-le s n,
  ),
  λ h. ground arith,
  λ h. (cut_point s n, cut_point-le s n, cut_point-boundary s n, ground arith),
)
