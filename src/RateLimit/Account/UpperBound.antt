-- ===== src/RateLimit/Account/UpperBound.antt =====
-- The estimate of internal/ratelimit/ratelimit.go never falls below what the CA's bucket holds.
use native.Mathlib.Nat.{le_refl}
use native.Mathlib.Decide.{dec_lt}
use wecert.Base.{
  ℕ, ◌+◌, ◌-◌, ◌≤◌, arith, min, refl, ◌∙◌, Bool-cases, inl, inr, List, [], ◌∷◌, leb, leb→le,
}
use wecert.Base.Int.{ℤ, pos, pos_part, ◌+ℤ◌, ◌≤ℤ◌, int_laws}
use wecert.Base.Time.{Time, max_duration}
use wecert.RateLimit.{Limit, Snapshot, capacity_parts, level, at_most, remaining, spend}
use wecert.RateLimit.Bounds.{settle-ge, spend-eq-settle}
use wecert.RateLimit.Level.{IsPublished, capacity_nonneg, level_fresh, level_later, at-spend}
use wecert.RateLimit.Account.{
  Account, available, charge, fresh, full, Event, ours, theirs, serve, serve_all, InOrder,
}

-- What is settled keeps above what is charged while both refill.
refill_above :
    (c x x' : ℤ) (held cost d : ℕ)
    → pos 0 ≤ℤ c
    → c +ℤ c ≤ℤ pos max_duration
    → cost ≤ held
    → pos held ≤ℤ at_most c x
    → at_most c x ≤ℤ x' +ℤ pos cost
    → pos (min (pos_part c) (held - cost + d)) ≤ℤ at_most c (x' +ℤ pos (min d max_duration))
refill_above c x x' held cost d hc fits h k m = grind int_laws

module _ (l : Limit) (p : IsPublished l) where
  -- Neither anchor lies ahead of the clock, and from then on the account holds no more than the
  -- estimate, debts included.
  record IsAbove (s : Snapshot) (a : Account) (t : Time) : Type 0 where
    estimate_at : s.at ≤ t
    account_at : a.at ≤ t
    above : (u : Time) → t ≤ u → pos (available a l u) ≤ℤ at_most (capacity_parts l) (level s l u)

  later-IsAbove : (s : Snapshot) (a : Account) (t u : Time) → t ≤ u → IsAbove s a t → IsAbove s a u
  later-IsAbove s a t u h v = record {
    estimate_at = omega (arith, v.estimate_at);
    account_at = omega (arith, v.account_at);
    above = λ w k. v.above w (omega arith);
  }

  available-charge-le :
      (a : Account) (cost : ℕ) (t u : Time)
      → a.at ≤ t
      → t ≤ u
      → available (charge a l cost t) l u ≤ available a l u
  unfolding available charge
  available-charge-le a cost t u h k = omega arith

  theirs-IsAbove :
      (s : Snapshot) (a : Account) (cost : ℕ) (t : Time)
      → IsAbove s a t
      → IsAbove s (charge a l cost t) t
  theirs-IsAbove s a cost t v = record {
    estimate_at = v.estimate_at;
    account_at = unfold charge in omega arith;
    above = λ u k. omega (arith, available-charge-le a cost t u v.account_at k, v.above u k);
  }

  -- What a spend leaves is at least the level less the cost.
  tokens-spend :
      (s : Snapshot) (cost : ℕ) (t : Time)
      → s.at ≤ t
      → at_most (capacity_parts l) (level s l t) ≤ℤ (spend s l (pos cost) t).tokens +ℤ pos cost
  tokens-spend s cost t h =
      rw
        (
          spend-eq-settle s l (pos cost) t (ground (arith, p.capacity_pos)),
          at-spend l s (pos cost) t h,
        )
        (settle-ge (capacity_parts l) (level s l t) cost)

  available-le :
      (a : Account) (u : Time)
      → pos (available a l u) ≤ℤ at_most (capacity_parts l) (capacity_parts l)
  unfolding available
  available-le a u = ground (arith, capacity_nonneg l p)

  ours-above :
      (s : Snapshot) (a : Account) (cost : ℕ) (t u : Time)
      → IsAbove s a t
      → cost ≤ available a l t
      → t ≤ u
      → pos (available (charge a l cost t) l u)
        ≤ℤ at_most (capacity_parts l) (level (spend s l (pos cost) t) l u)
  ours-above s a cost t u v h k = elim (dec_lt 0 t) [
    | yes q ↦
        rw
          (
            level_later l p (spend s l (pos cost) t) u
                (rw (at-spend l s (pos cost) t v.estimate_at) q)
                (rw (at-spend l s (pos cost) t v.estimate_at) k),
            at-spend l s (pos cost) t v.estimate_at,
          )
          (unfold charge available in
            refill_above (capacity_parts l) (level s l t) (spend s l (pos cost) t).tokens
              (available a l t) cost (u - t) (capacity_nonneg l p) p.fits h
              (v.above t (omega arith)) (tokens-spend s cost t v.estimate_at))
    | no q ↦
        rw
          (level_fresh l p (spend s l (pos cost) t) u
            (at-spend l s (pos cost) t v.estimate_at ∙ omega arith))
          (available-le (charge a l cost t) u)
  ]

  serve-IsAbove :
      (e : Event) (s : Snapshot) (a : Account) (t : Time)
      → IsAbove s a t
      → IsAbove (serve l e t (s, a)).0 (serve l e t (s, a)).1 t
  unfolding serve
  serve-IsAbove (ours cost) s a t v = elim (Bool-cases (leb cost (available a l t))) [
    | inl e ↦ rw e (record {
      estimate_at = rw (at-spend l s (pos cost) t v.estimate_at) (omega arith);
      account_at = unfold charge in omega arith;
      above = λ u k. ours-above s a cost t u v (leb→le _ _ e) k;
    })
    | inr e ↦ rw e v
  ]
  serve-IsAbove (theirs cost) s a t v = elim (Bool-cases (leb cost (available a l t))) [
    | inl e ↦ rw e (theirs-IsAbove s a cost t v)
    | inr e ↦ rw e v
  ]

  serve_all-IsAbove :
      (es : List (Event × Time)) (s : Snapshot) (a : Account) (t u : Time)
      → InOrder t es u
      → IsAbove s a t
      → IsAbove (serve_all l es (s, a)).0 (serve_all l es (s, a)).1 u
  unfolding serve_all
  serve_all-IsAbove [] s a t u h v = later-IsAbove s a t u h v
  serve_all-IsAbove ((e, t') ∷ es) s a t u h v =
      serve_all-IsAbove es (serve l e t' (s, a)).0 (serve l e t' (s, a)).1 t' u h.1
        (serve-IsAbove e s a t' (later-IsAbove s a t t' h.0 v))

  start-IsAbove : (t : Time) → IsAbove fresh (full l t) t
  start-IsAbove t = record {
    estimate_at = omega arith;
    account_at = omega arith;
    above = λ u k. rw (level_fresh l p fresh u (refl)) (available-le (full l t) u);
  }

  -- From a full account at `t` and no record of any spend, after requests in the order of the clock
  -- by this program and by other accounts, of which the CA refuses what its bucket does not hold and
  -- the program records the rest of its own: at the end the estimate is not below what the CA has.
  pub available-le-remaining :
      (es : List (Event × Time)) (t u : Time)
      → InOrder t es u
      → let (s, a) = serve_all l es (fresh, full l t) in pos (available a l u) ≤ℤ remaining s l u
  unfolding remaining
  available-le-remaining es t u h =
      let v = serve_all-IsAbove es fresh (full l t) t u h (start-IsAbove t) in
      ground (arith, v.above u (le_refl u))
