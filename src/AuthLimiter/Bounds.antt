-- ===== src/AuthLimiter/Bounds.antt =====
-- The table of internal/webhook/ratelimit.go never outgrows its ceiling.
use wecert.Base.{
  ℕ, zero, suc, ◌≤◌, ◌≡◌, true, some, if◌then◌else◌, List, [], ◌∷◌, Text, ltb, length, arith,
  Option-cases, inl, inr, ◌⊎◌, refl, is_some, text_eq_refl,
}
use wecert.Base.Assoc.{
  Assoc, lookup, remove, reject, length-put, length-remove-le, length-remove-lt, length-reject-le,
}
use wecert.Base.Time.{Time}
use wecert.AuthLimiter.{
  AddrState, Limiter, auth_limiter_max_entries, is_stale, oldest, evict, gc, counted_state,
  record_failure, fail, record_success,
}

abbrev pub IsBounded : Limiter → Type 0
IsBounded l = length l.by_addr ≤ auth_limiter_max_entries

-- The address that the search finds has an entry.
oldest_lem :
    (m : Assoc AddrState) (addr : Text) (t : Time)
    → oldest m ≡ some (addr, t)
    → is_some (lookup addr m) ≡ true
unfolding oldest lookup
oldest_lem [] addr t h = cc
oldest_lem ((a, st) ∷ m) addr t h = elim (Option-cases (oldest m)) [
  | inl e ↦ ground (arith, text_eq_refl a)
  | inr ((b, u), e) ↦ ground (arith, text_eq_refl a, oldest_lem m b u)
]

oldest_cons :
    (a : Text) (st : AddrState) (m : Assoc AddrState) → is_some (oldest ((a, st) ∷ m)) ≡ true
unfolding oldest
oldest_cons a st m = elim (Option-cases (oldest m)) [
  | inl e ↦ ground arith
  | inr ((b, u), e) ↦ ground arith
]

evict_step :
    (fuel : ℕ) (m : Assoc AddrState) (addr : Text) (t : Time)
    → oldest m ≡ some (addr, t)
    → evict (suc fuel) m ≡ (
        let rest = evict fuel (remove addr m) in
        if ltb auth_limiter_max_entries (length m) then rest else m)
unfolding evict
evict_step fuel m addr t h = ground arith

-- As many rounds as entries bring the table within the ceiling.
pub evict-bound :
    (fuel : ℕ) (m : Assoc AddrState)
    → length m ≤ fuel
    → length (evict fuel m) ≤ auth_limiter_max_entries
evict-bound zero m h = unfold evict in omega arith
evict-bound (suc fuel) [] h = unfold evict oldest in omega arith
evict-bound (suc fuel) ((a, st) ∷ m) h = elim (Option-cases (oldest ((a, st) ∷ m))) [
  | inl e ↦ ground (arith, oldest_cons a st m)
  | inr ((b, u), e) ↦ ground (
    arith,
    evict_step fuel ((a, st) ∷ m) b u e,
    length-remove-lt b ((a, st) ∷ m) (oldest_lem ((a, st) ∷ m) b u e),
    evict-bound fuel (remove b ((a, st) ∷ m)),
  )
]

-- Within the ceiling nothing is evicted.
pub evict_within :
    (fuel : ℕ) (m : Assoc AddrState) → length m ≤ auth_limiter_max_entries → evict fuel m ≡ m
unfolding evict
evict_within zero m h = refl
evict_within (suc fuel) m h = ground arith

-- So the sweep of a bounded table is all that gc does.
pub gc_lem :
    (l : Limiter) (now : Time)
    → IsBounded l
    → ((gc l now).by_addr ≡ l.by_addr) ⊎ ((gc l now).by_addr ≡ reject (is_stale now) l.by_addr)
unfolding gc
gc_lem l now h = ground (
  arith,
  evict_within (length (reject (is_stale now) l.by_addr)) (reject (is_stale now) l.by_addr),
  length-reject-le (is_stale now) l.by_addr,
)

-- A bounded table stays bounded under a sweep.
pub gc-IsBounded : (l : Limiter) (now : Time) → IsBounded l → IsBounded (gc l now)
gc-IsBounded l now h = ground (arith, gc_lem l now h, length-reject-le (is_stale now) l.by_addr)

-- A sweep that runs brings any table within the ceiling.
pub gc_bound :
    (l : Limiter) (now : Time)
    → (length (gc l now).by_addr ≤ auth_limiter_max_entries) ⊎ (gc l now ≡ l)
unfolding gc
gc_bound l now = ground (
  arith,
  evict-bound (length (reject (is_stale now) l.by_addr)) (reject (is_stale now) l.by_addr),
)

pub record_failure-IsBounded :
    (l : Limiter) (addr : Text) (now : Time) → IsBounded l → IsBounded (record_failure l addr now)
unfolding record_failure counted_state
record_failure-IsBounded l addr now h = grind (
  arith,
  gc-IsBounded l now h,
  length-put {V = AddrState} addr,
  Option-cases (lookup addr (gc l now).by_addr),
)

pub fail-IsBounded :
    (l : Limiter) (addr : Text) (now : Time) → IsBounded l → IsBounded (fail l addr now).0
unfolding fail
fail-IsBounded l addr now h = ground (arith, record_failure-IsBounded l addr now h)

pub record_success-IsBounded :
    (l : Limiter) (addr : Text) (now : Time) → IsBounded l → IsBounded (record_success l addr now)
unfolding record_success
record_success-IsBounded l addr now h = grind (
  arith,
  gc-IsBounded l now h,
  length-put {V = AddrState} addr,
  length-remove-le addr (gc l now).by_addr,
)

-- The calls that change the table.
pub data Op : Type 0 where
  failed : Text → Time → Op
  succeeded : Text → Time → Op

unfoldable pub step : Limiter → Op → Limiter
step l (failed addr now) = (fail l addr now).0
step l (succeeded addr now) = record_success l addr now

unfoldable pub run : Limiter → List Op → Limiter
run l [] = l
run l (o ∷ os) = run (step l o) os

-- From a table within the ceiling, as a new limiter's is, no sequence of failures and successes, at
-- whatever times, tracks more addresses than the ceiling.
pub run-IsBounded : (l : Limiter) (os : List Op) → IsBounded l → IsBounded (run l os)
unfolding run step
run-IsBounded l [] h = h
run-IsBounded l (failed addr now ∷ os) h =
    run-IsBounded (fail l addr now).0 os (fail-IsBounded l addr now h)
run-IsBounded l (succeeded addr now ∷ os) h =
    run-IsBounded (record_success l addr now) os (record_success-IsBounded l addr now h)
