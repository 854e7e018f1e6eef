-- ===== src/AuthLimiter.antt =====
-- internal/webhook/ratelimit.go: the lockout of source addresses after failed authentications. Each
-- method runs under the limiter's mutex, so it is one step from a state to the next.
pub mod Bounds
pub mod Lockout
pub mod Traffic
use wecert.Base.{
  ℕ, zero, suc, ◌+◌, ◌*◌, ◌/◌, ◌≡◌, Bool, true, false, not, ◌&&◌, ◌||◌, Option, none, some,
  if◌then◌else◌, List, [], ◌∷◌, Text, ltb, leb, length,
}
use wecert.Base.Assoc.{Assoc, lookup, put, remove, reject}
use wecert.Base.Int.{ℤ, pos, ltb_ℤ}
use wecert.Base.Time.{Time, Duration, before, after, sub, add, minute}

abbrev pub auth_max_failures : ℕ
auth_max_failures = 10

abbrev pub auth_window : ℕ
auth_window = 5 * minute

abbrev pub auth_block_for : ℕ
auth_block_for = 15 * minute

abbrev pub auth_limiter_gc_threshold : ℕ
auth_limiter_gc_threshold = 4096

abbrev pub auth_success_forgive_floor : ℕ
auth_success_forgive_floor = 2

abbrev pub auth_limiter_gc_interval : ℕ
auth_limiter_gc_interval = minute

abbrev pub auth_limiter_max_entries : ℕ
auth_limiter_max_entries = 65536

pub record AddrState : Type 0 where
  pub failures : ℕ
  pub window_start : Time
  pub blocked_until : Time

pub record Limiter : Type 0 where
  pub by_addr : Assoc AddrState
  pub last_gc : Time

abbrev pub new_limiter : Limiter
new_limiter = record { by_addr = []; last_gc = 0 }

-- The test of the sweep.
abbrev pub is_stale : Time → AddrState → Bool
is_stale now st = after now st.blocked_until && ltb_ℤ (pos auth_window) (sub now st.window_start)

-- The search for the oldest window: the first of the earliest.
unfoldable pub oldest : Assoc AddrState → Option (Text × Time)
oldest [] = none
oldest ((addr, st) ∷ m) = elim (oldest m) [
  | none ↦ some (addr, st.window_start)
  | some (a, t) ↦ if before t st.window_start then some (a, t) else some (addr, st.window_start)
]

-- The eviction loop; each round drops an entry, so the number of entries is fuel enough.
unfoldable pub evict : ℕ → Assoc AddrState → Assoc AddrState
evict zero m = m
evict (suc fuel) m = elim (oldest m) [
  | none ↦ m
  | some (addr, t) ↦
      let rest = evict fuel (remove addr m) in
      if ltb auth_limiter_max_entries (length m) then rest else m
]

unfoldable pub gc : Limiter → Time → Limiter
gc l now =
    if ltb (length l.by_addr) auth_limiter_gc_threshold
    then l
    else if ltb_ℤ (sub now l.last_gc) (pos auth_limiter_gc_interval)
    then l
    else let swept = reject (is_stale now) l.by_addr in
      record { by_addr = evict (length swept) swept; last_gc = now }

unfoldable pub allowed : Limiter → Text → Time → Bool × Duration
allowed l addr now = elim (lookup addr l.by_addr) [
  | none ↦ (true, pos 0)
  | some st ↦
      if before now st.blocked_until then (false, sub st.blocked_until now) else (true, pos 0)
]

-- st.failures++, and the block that it may set.
unfoldable pub count_failure : AddrState → Time → AddrState
count_failure st now =
    let counted = record st { failures = st.failures + 1 } in
    if leb auth_max_failures counted.failures
    then record counted { blocked_until = add now (pos auth_block_for) }
    else counted

-- A window that starts now.
abbrev pub fresh_state : Time → AddrState
fresh_state now = record { failures = 0; window_start = now; blocked_until = 0 }

-- The entry that a failure counts on; `none` where a new address finds no room.
unfoldable pub counted_state : Limiter → Option AddrState → Time → Option AddrState
counted_state l none now =
    if leb auth_limiter_max_entries (length l.by_addr) then none else some (fresh_state now)
counted_state l (some st) now =
    if ltb_ℤ (pos auth_window) (sub now st.window_start) && not (before now st.blocked_until)
    then some (fresh_state now)
    else some st

-- recordFailureLocked
unfoldable pub record_failure : Limiter → Text → Time → Limiter
unfolding counted_state
record_failure l addr now =
    let l' = gc l now in
    elim (counted_state l' (lookup addr l'.by_addr) now) [
      | none ↦ l'
      | some st ↦ record l' { by_addr = put addr (count_failure st now) l'.by_addr }
    ]

-- The answer of fail where the address is blocked.
abbrev pub block_of : Option AddrState → Time → Option Duration
block_of none now = none
block_of (some st) now =
    if before now st.blocked_until then some (sub st.blocked_until now) else none

unfoldable pub fail : Limiter → Text → Time → Limiter × Bool × Duration
fail l addr now = elim (block_of (lookup addr l.by_addr) now) [
  | some d ↦ (l, true, d)
  | none ↦ (record_failure l addr now, false, pos 0)
]

-- A halved count, or nothing where it is noise.
abbrev pub decayed : AddrState → Option AddrState
decayed st =
    if ltb (st.failures / 2) auth_success_forgive_floor
    then none
    else some (record st { failures = st.failures / 2 })

unfoldable pub record_success : Limiter → Text → Time → Limiter
record_success l addr now =
    let l' = gc l now in
    elim (lookup addr l'.by_addr) [
      | none ↦ l'
      | some st ↦ elim (decayed st) [
        | none ↦ record l' { by_addr = remove addr l'.by_addr }
        | some st' ↦ record l' { by_addr = put addr st' l'.by_addr }
      ]
    ]
