-- ===== src/RateLimit/Bounds.antt =====
-- What the bucket arithmetic of internal/ratelimit/ratelimit.go keeps in bounds.
use native.Mathlib.Nat.{div-add-mod, mul_comm}
use wecert.Base.{ℕ, ◌/◌, ◌≡◌, false, arith, Bool-cases, inl, inr}
use wecert.Base.Int.{ℤ, pos, negsuc, ◌+ℤ◌, ◌-ℤ◌, ◌≤ℤ◌, scale, ltb_ℤ, int_laws, leb_ℤ}
use wecert.Base.Time.{Time}
use wecert.RateLimit.{
  Limit, Snapshot, capacity_parts, refilled, level, at_least, at_most, remaining, spend,
}

-- The sum of the whole refills and the fraction is the elapsed time.
pub refilled_lem : (e r : ℕ) → refilled e r ≡ e
unfolding refilled
refilled_lem e r = ground (arith, div-add-mod e r, mul_comm (e / r) r)

pub scale-nonneg : (k : ℕ) (a : ℤ) → pos 0 ≤ℤ a → pos 0 ≤ℤ scale k a
unfolding scale
scale-nonneg k (pos n) h = grind arith
scale-nonneg k (negsuc n) h = absurd (omega arith)

abbrev pub Within : ℤ → ℤ → ℤ → Type 0
Within lo hi x = (lo ≤ℤ x) × (x ≤ℤ hi)

-- What a spend stores: the level cut at the capacity, less the cost, cut at the largest debt.
pub settle : ℤ → ℤ → ℤ → ℤ
settle c x cost = at_least (pos 0 -ℤ c) (at_most c x -ℤ at_least (pos 0) cost)

-- What is available is never negative, and never more than the capacity.
pub remaining_bounds :
    (s : Snapshot) (l : Limit) (now : Time)
    → pos 0 ≤ℤ l.capacity
    → Within (pos 0) (capacity_parts l) (remaining s l now)
unfolding remaining scale
remaining_bounds s l now h = ground arith

pub settle_bounds : (c x cost : ℤ) → pos 0 ≤ℤ c → Within (pos 0 -ℤ c) c (settle c x cost)
unfolding settle
settle_bounds c x cost h = grind int_laws

-- A higher level settles no lower.
pub settle_mono : (c x y cost : ℤ) → x ≤ℤ y → settle c x cost ≤ℤ settle c y cost
unfolding settle
settle_mono c x y cost h = grind int_laws

pub settle-ge : (c x : ℤ) (cost : ℕ) → at_most c x ≤ℤ settle c x (pos cost) +ℤ pos cost
unfolding settle
settle-ge c x cost = grind int_laws

pub settle-le : (c x cost : ℤ) → pos 0 ≤ℤ c → pos 0 -ℤ c ≤ℤ x → settle c x cost ≤ℤ at_most c x
unfolding settle
settle-le c x cost hc h = grind int_laws

pub at_most-le : (c x : ℤ) → (at_most c x ≤ℤ x) × (at_most c x ≤ℤ c)
at_most-le c x = grind arith

pub at_most_mono : (c x y : ℤ) → at_most c x ≤ℤ y → at_most c x ≤ℤ at_most c y
at_most_mono c x y h = grind arith

pub at_least_mono : (c x y : ℤ) → x ≤ℤ y → at_least c x ≤ℤ at_least c y
at_least_mono c x y h = grind arith

at_most_of_le : (c x : ℤ) → x ≤ℤ c → at_most c x ≡ x
at_most_of_le c x h = ground arith

at_least_of_le : (c x : ℤ) → c ≤ℤ x → at_least c x ≡ x
at_least_of_le c x h = ground arith

at_least_twice : (lo z b : ℤ) → pos 0 ≤ℤ b → at_least lo (at_least lo z -ℤ b) ≡ at_least lo (z -ℤ b)
at_least_twice lo z b h = elim (Bool-cases (ltb_ℤ z lo)) [
  | inl e ↦ rw e (grind int_laws)
  | inr e ↦ rw e
]

sub_add : (m a b : ℤ) → m -ℤ a -ℤ b ≡ m -ℤ (a +ℤ b)
sub_add m a b = omega int_laws

-- Two charges settle as their sum: a debt is not forgiven.
pub settle-settle :
    (c x a b : ℤ)
    → pos 0 ≤ℤ c
    → pos 0 ≤ℤ a
    → pos 0 ≤ℤ b
    → settle c (settle c x a) b ≡ settle c x (a +ℤ b)
settle-settle c x a b hc ha hb =
    let fits : settle c x a ≤ℤ c = (settle_bounds c x a hc).1 in
    let sum : pos 0 ≤ℤ a +ℤ b = omega int_laws in
    unfold settle in
    rw
      (
        at_most_of_le c _ fits,
        at_least_of_le (pos 0) b hb,
        at_least_of_le (pos 0) a ha,
        at_least_of_le (pos 0) (a +ℤ b) sum,
        ← sub_add (at_most c x) a b,
      )
      (at_least_twice (pos 0 -ℤ c) (at_most c x -ℤ a) b hb)

pub spend-eq-settle :
    (s : Snapshot) (l : Limit) (cost : ℤ) (now : Time)
    → leb_ℤ l.capacity (pos 0) ≡ false
    → (spend s l cost now).tokens
      ≡ settle (capacity_parts l) (level s l (spend s l cost now).at) cost
unfolding spend settle
spend-eq-settle s l cost now h = rw h
