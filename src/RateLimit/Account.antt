-- ===== src/RateLimit/Account.antt =====
-- The estimate of internal/ratelimit/ratelimit.go against the bucket that the CA keeps: a token
-- bucket that other accounts spend from too, and that the program cannot see.
pub mod UpperBound
use native.Mathlib.Decide.{dec_lt}
use wecert.Base.{
  ℕ, ◌+◌, ◌-◌, ◌*◌, ◌≤◌, ◌<◌, ◌≡◌, Bool, true, false, arith, min, refl, sym, ◌∙◌, Bool-cases, inl,
  inr, List, [], ◌∷◌, leb, if◌then◌else◌, ◌==◌,
}
use wecert.Base.Int.{
  ℤ, pos, negsuc, pos_part, neg_part, ◌+ℤ◌, ◌-ℤ◌, ◌≤ℤ◌, ◌<ℤ◌, scale, +ℤ_parts, -ℤ_parts, int_laws,
  eq_of_parts, leb_ℤ, ltb_ℤ,
}
use wecert.Base.Time.{Time, after, sub, max_duration, sub_of_le}
use wecert.RateLimit.{
  Limit, Snapshot, unit, capacity_parts, refilled, level, at_least, at_most, remaining, spend,
}
use wecert.RateLimit.Bounds.{
  refilled_lem, scale-nonneg, settle, settle_bounds, settle_mono, settle-ge, spend-eq-settle,
  Within,
}

-- The CA's own bucket, in parts of a token.
pub record Account : Type 0 where
  pub tokens : ℕ
  pub at : Time

pub available : Account → Limit → Time → ℕ
available a l t = min (pos_part (capacity_parts l)) (a.tokens + (t - a.at))

pub charge : Account → Limit → ℕ → Time → Account
charge a l cost t = record { tokens = available a l t - cost; at = t }

-- No request yet: the program has no record, and the account is full.
abbrev pub fresh : Snapshot
fresh = record { tokens = pos 0; at = 0 }

abbrev pub full : Limit → Time → Account
full l t = record { tokens = pos_part (capacity_parts l); at = t }

-- A request for `cost` parts, by this program or by another account.
pub data Event : Type 0 where
  ours theirs : ℕ → Event

-- The CA refuses what its bucket does not hold; the program records what was not refused.
pub serve : Limit → Event → Time → Snapshot × Account → Snapshot × Account
serve l (ours cost) t (s, a) =
    if leb cost (available a l t) then (spend s l (pos cost) t, charge a l cost t) else (s, a)
serve l (theirs cost) t (s, a) =
    if leb cost (available a l t) then (s, charge a l cost t) else (s, a)

pub serve_all : Limit → List (Event × Time) → Snapshot × Account → Snapshot × Account
serve_all l [] st = st
serve_all l ((e, t) ∷ es) st = serve_all l es (serve l e t st)

-- The requests come in the order of the clock, the first not before `t` and the last not after `u`.
abbrev pub InOrder : Time → List (Event × Time) → Time → Type 0
InOrder t [] u = t ≤ u
InOrder t ((e, t') ∷ es) u = (t ≤ t') × InOrder t' es u
