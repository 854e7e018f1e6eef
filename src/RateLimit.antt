-- ===== src/RateLimit.antt =====
-- internal/ratelimit/ratelimit.go: the token buckets by which the issuance quota is estimated.
-- Amounts are exact: a token is `unit l` parts, one for each nanosecond of the refill interval, so
-- that what the code adds as a fraction is a whole number of parts. Float64 rounding is not modelled.
pub mod Bounds
pub mod Level
pub mod Tracker
pub mod RetryAfter
pub mod Account
use wecert.Base.{
  ℕ, ◌+◌, ◌*◌, ◌/◌, ◌%◌, Bool, true, false, List, [], ◌∷◌, ◌++◌, ltb, if◌then◌else◌, Text, codes,
}
use wecert.Base.Int.{ℤ, pos, negsuc, pos_part, neg_part, sub_ℕ, ◌+ℤ◌, ◌-ℤ◌, scale, ltb_ℤ, leb_ℤ}
use wecert.Base.Time.{Time, Duration, is_zero, before, after, sub, second, minute, hour, day}

pub record Limit : Type 0 where
  pub name : Text
  pub scope : Text
  pub capacity : ℤ
  pub refill : Duration
  pub spent_by_ca : Bool

abbrev pub new_orders_per_account : Limit
new_orders_per_account = record {
  name = codes "new-orders";
  scope = codes "account";
  capacity = pos 300;
  refill = pos (36 * second);
  spent_by_ca = false;
}

abbrev pub certs_per_registered_domain : Limit
certs_per_registered_domain = record {
  name = codes "certs-per-registered-domain";
  scope = codes "registered-domain";
  capacity = pos 50;
  refill = pos (202 * minute);
  spent_by_ca = false;
}

abbrev pub certs_per_exact_identifier_set : Limit
certs_per_exact_identifier_set = record {
  name = codes "certs-per-exact-identifier-set";
  scope = codes "exact-identifier-set";
  capacity = pos 5;
  refill = pos (34 * hour);
  spent_by_ca = false;
}

abbrev pub authz_failures_per_identifier : Limit
authz_failures_per_identifier = record {
  name = codes "authz-failures-per-identifier";
  scope = codes "identifier";
  capacity = pos 5;
  refill = pos (12 * minute);
  spent_by_ca = false;
}

abbrev pub consecutive_authz_failures_per_identifier : Limit
consecutive_authz_failures_per_identifier = record {
  name = codes "consecutive-authz-failures-per-identifier";
  scope = codes "identifier";
  capacity = pos 1152;
  refill = pos (24 * hour);
  spent_by_ca = true;
}

abbrev pub spendable : List Limit
spendable =
    new_orders_per_account ∷ certs_per_registered_domain ∷ certs_per_exact_identifier_set
    ∷ authz_failures_per_identifier ∷ []

abbrev pub reportable : List Limit
reportable = spendable ++ consecutive_authz_failures_per_identifier ∷ []

-- The parts of a token.
abbrev pub unit : Limit → ℕ
unit l = if leb_ℤ l.refill (pos 0) then 1 else pos_part l.refill

-- The capacity in parts.
abbrev pub capacity_parts : Limit → ℤ
capacity_parts l = scale (unit l) l.capacity

-- `tokens` is in parts.
pub record Snapshot : Type 0 where
  pub tokens : ℤ
  pub at : Time

-- Whole refills and the fraction of the next one, in parts; only called with a positive refill.
unfoldable pub refilled : ℕ → ℕ → ℕ
refilled elapsed refill = elapsed / refill * refill + elapsed % refill

unfoldable pub level : Snapshot → Limit → Time → ℤ
level s l now =
    if leb_ℤ l.capacity (pos 0)
    then pos 0
    else if is_zero s.at
    then capacity_parts l
    else if leb_ℤ l.refill (pos 0)
    then s.tokens
    else if after now s.at
    then s.tokens +ℤ pos (refilled (pos_part (sub now s.at)) (pos_part l.refill))
    else s.tokens

-- `if x < lo { x = lo }` and `if x > hi { x = hi }`
abbrev pub at_least : ℤ → ℤ → ℤ
at_least lo x = if ltb_ℤ x lo then lo else x

abbrev pub at_most : ℤ → ℤ → ℤ
at_most hi x = if ltb_ℤ hi x then hi else x

unfoldable pub remaining : Snapshot → Limit → Time → ℤ
remaining s l now = at_least (pos 0) (at_most (capacity_parts l) (level s l now))

-- `cost` is in parts too.
unfoldable pub spend : Snapshot → Limit → ℤ → Time → Snapshot
spend s l cost now =
    if leb_ℤ l.capacity (pos 0)
    then record { tokens = pos 0; at = now }
    else let anchor = if before now s.at then s.at else now in
      record {
        tokens =
            at_least (pos 0 -ℤ capacity_parts l)
              (at_most (capacity_parts l) (level s l anchor) -ℤ at_least (pos 0) cost);
        at = anchor;
      }
