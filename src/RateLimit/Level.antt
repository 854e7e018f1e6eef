-- ===== src/RateLimit/Level.antt =====
-- The level of a bucket of internal/ratelimit/ratelimit.go in closed form, and what a spend does to it.
use native.Mathlib.Decide.{dec_lt}
use native.Mathlib.Nat.{le_refl}
use wecert.Base.{ℕ, ◌+◌, ◌-◌, ◌≤◌, ◌<◌, ◌≡◌, false, arith, min, ◌∙◌, All}
use wecert.Base.Int.{ℤ, pos, ◌+ℤ◌, ◌-ℤ◌, ◌≤ℤ◌, ◌<ℤ◌, scale, int_laws, eq_of_parts, leb_ℤ}
use wecert.Base.Time.{Time, after, max_duration, sub_of_le}
use wecert.RateLimit.{
  Limit, Snapshot, unit, capacity_parts, level, at_most, remaining, spend, reportable,
}
use wecert.RateLimit.Bounds.{
  refilled_lem, scale-nonneg, settle, settle-le, at_most-le, at_most_mono, at_least_mono,
  remaining_bounds, settle-settle, spend-eq-settle, Within,
}

-- A limit with a bucket that fills twice within 292 years, as every published one does.
pub record IsPublished (l : Limit) : Type 0 where
  pub capacity_pos : pos 0 <ℤ l.capacity
  pub refill_pos : pos 0 <ℤ l.refill
  pub fits : capacity_parts l +ℤ capacity_parts l ≤ℤ pos max_duration

pub reportable-IsPublished : All IsPublished reportable
unfolding scale ◌+ℤ◌
reportable-IsPublished = omega arith

zero_wait : (t u : Time) → u ≤ t → after t u ≡ false → t - u ≡ 0
zero_wait t u h k = ground arith

zero_rest :
    (x : ℤ) (t u : Time) → u ≤ t → after t u ≡ false → x ≡ x +ℤ pos (min (t - u) max_duration)
zero_rest x t u h k = eq_of_parts _ _ (omega (int_laws, zero_wait t u h k))

module _ (l : Limit) where
  pub at-spend : (s : Snapshot) (cost : ℤ) (t : Time) → s.at ≤ t → (spend s l cost t).at ≡ t
  unfolding spend
  at-spend s cost t h = ground arith

module _ (l : Limit) (p : IsPublished l) where
  pub capacity_nonneg : pos 0 ≤ℤ capacity_parts l
  capacity_nonneg = scale-nonneg (unit l) l.capacity (omega (arith, p.capacity_pos))

  pub level_fresh : (s : Snapshot) (t : Time) → s.at ≡ 0 → level s l t ≡ capacity_parts l
  unfolding level
  level_fresh s t e = ground (arith, p.capacity_pos)

  pub level_later :
      (s : Snapshot) (t : Time)
      → 0 < s.at
      → s.at ≤ t
      → level s l t ≡ s.tokens +ℤ pos (min (t - s.at) max_duration)
  unfolding level
  level_later s t h k =
      rw (sub_of_le t s.at k, refilled_lem)
        (ground (arith, p.capacity_pos, p.refill_pos, zero_rest s.tokens t s.at))

-- A spend never leaves more, at any later level, than there was without it.
spent_below :
    (c x cost : ℤ) (d e f : ℕ)
    → d + e ≡ f
    → c +ℤ c ≤ℤ pos max_duration
    → pos 0 -ℤ c ≤ℤ x
    → x ≤ℤ c
    → at_most c (settle c (x +ℤ pos (min d max_duration)) cost +ℤ pos (min e max_duration))
      ≤ℤ at_most c (x +ℤ pos (min f max_duration))
spent_below c x cost d e f sum fits lo hi =
    let lower : pos 0 -ℤ c ≤ℤ x +ℤ pos (min d max_duration) = omega int_laws in
    let left = settle c (x +ℤ pos (min d max_duration)) cost +ℤ pos (min e max_duration) in
    at_most_mono c left (x +ℤ pos (min f max_duration)) (
      omega (
        int_laws,
        settle-le c (x +ℤ pos (min d max_duration)) cost (omega int_laws) lower,
        at_most-le c (x +ℤ pos (min d max_duration)),
        at_most-le c left,
      ))

no_wait : (x : ℤ) (t : Time) → x +ℤ pos (min (t - t) max_duration) ≡ x
no_wait x t = eq_of_parts _ _ (omega int_laws)

Snapshot_path : (s t : Snapshot) → s.tokens ≡ t.tokens → s.at ≡ t.at → s ≡ t
Snapshot_path s t e f = λ i. record { tokens = e i; at = f i }

module _ (l : Limit) (p : IsPublished l) where
  anchor_bounds :
      (s : Snapshot) (cost : ℤ) (now u : Time)
      → s.at ≤ u
      → now ≤ u
      → (s.at ≤ (spend s l cost now).at)
        × ((spend s l cost now).at ≤ u)
        × (now ≤ (spend s l cost now).at)
  unfolding spend
  anchor_bounds s cost now u h k = ground (arith, p.capacity_pos)

  remaining-full : (s : Snapshot) (u : Time) → s.at ≡ 0 → capacity_parts l ≤ℤ remaining s l u
  unfolding remaining
  remaining-full s u e = rw (level_fresh l p s u e) (ground (arith, capacity_nonneg l p))

  -- Spending never leaves more to spend: whatever the cost and the clock, also one that stepped back
  -- behind the last spend, at every later instant no more is available than without the spend.
  pub remaining-spend-le :
      (s : Snapshot) (cost : ℤ) (now u : Time)
      → Within (pos 0 -ℤ capacity_parts l) (capacity_parts l) s.tokens
      → s.at ≤ u
      → now ≤ u
      → remaining (spend s l cost now) l u ≤ℤ remaining s l u
  unfolding remaining
  remaining-spend-le s cost now u v h k = elim (dec_lt 0 s.at) [
    | yes q ↦
        let t = (spend s l cost now).at in
        let (b0, b1, b2) = anchor_bounds s cost now u h k in
        let after_it = level_later l p (spend s l cost now) u (omega arith) b1 in
        let before_it = level_later l p s t q b0 in
        let at_u = level_later l p s u q h in
        let stored = spend-eq-settle s l cost now (ground (arith, p.capacity_pos)) in
        rw (after_it, at_u, stored, before_it)
          (at_least_mono (pos 0)
            (at_most (capacity_parts l) (
              settle (capacity_parts l) (s.tokens +ℤ pos (min (t - s.at) max_duration)) cost
              +ℤ pos (min (u - t) max_duration)))
            (at_most (capacity_parts l) (s.tokens +ℤ pos (min (u - s.at) max_duration)))
            (spent_below (capacity_parts l) s.tokens cost (t - s.at) (u - t) (u - s.at)
              (omega arith) p.fits v.0 v.1))
    | no q ↦ omega (
      arith,
      remaining-full s u (omega arith),
      remaining_bounds (spend s l cost now) l u (omega (arith, p.capacity_pos)),
    )
  ]

  at-spend_same :
      (s : Snapshot) (a b : ℤ) (now : Time) → (spend s l a now).at ≡ (spend s l b now).at
  unfolding spend
  at-spend_same s a b now = ground arith

  at-spend_again :
      (s : Snapshot) (a b : ℤ) (now : Time)
      → (spend (spend s l a now) l b now).at ≡ (spend s l a now).at
  unfolding spend
  at-spend_again s a b now = ground arith

  at-spend-le : (s : Snapshot) (a : ℤ) (now : Time) → now ≤ (spend s l a now).at
  unfolding spend
  at-spend-le s a now = ground arith

  -- Two spends at one instant are one spend of their sum, the debt included.
  pub spend-spend :
      (s : Snapshot) (a b : ℤ) (now : Time)
      → 0 < now
      → pos 0 ≤ℤ a
      → pos 0 ≤ℤ b
      → spend (spend s l a now) l b now ≡ spend s l (a +ℤ b) now
  spend-spend s a b now h ha hb =
      let live : leb_ℤ l.capacity (pos 0) ≡ false = ground (arith, p.capacity_pos) in
      let once = spend s l a now in
      let twice = spend once l b now in
      let sum = spend s l (a +ℤ b) now in
      let same : sum.at ≡ once.at = at-spend_same s (a +ℤ b) a now in
      let still : twice.at ≡ once.at = at-spend_again s a b now in
      let running : 0 < once.at = omega (arith, at-spend-le s a now) in
      let level_same : level once l once.at ≡ once.tokens =
        level_later l p once once.at running (le_refl _) ∙ no_wait once.tokens once.at in
      let first = spend-eq-settle s l a now live in
      let second = spend-eq-settle once l b now live in
      let both = spend-eq-settle s l (a +ℤ b) now live in
      let total =
        settle-settle (capacity_parts l) (level s l once.at) a b (capacity_nonneg l p) ha hb in
      Snapshot_path twice sum (cc) (cc)
