-- ===== src/AuthLimiter/Lockout.antt =====
-- What the lockout of internal/webhook/ratelimit.go promises over sequences of failures.
use wecert.Base.{
  suc, ◌+◌, ◌≤◌, ◌≡◌, true, false, some, if◌then◌else◌, List, [], ◌∷◌, Text, leb, arith, Bool-cases,
  inl, inr, text_eq_refl, text_eq, text_eq_iff, All,
}
use wecert.Base.Assoc.{lookup, lookup-put, lookup-reject}
use wecert.Base.Time.{Time, before, sub, sub_of_le, add}
use wecert.AuthLimiter.{
  AddrState, Limiter, auth_max_failures, auth_window, auth_block_for, is_stale, gc, counted_state,
  allowed, count_failure, record_failure, fail,
}
use wecert.AuthLimiter.Bounds.{IsBounded, gc_lem, fail-IsBounded}

-- Failed authentications, each with its address and its time, in their order.
unfoldable pub fail_all : Limiter → List (Text × Time) → Limiter
fail_all l [] = l
fail_all l ((addr, now) ∷ es) = fail_all (fail l addr now).0 es

-- An entry that is not stale outlives the sweep.
pub lookup-gc :
    (l : Limiter) (a : Text) (now : Time) (st : AddrState)
    → IsBounded l
    → lookup a l.by_addr ≡ some st
    → is_stale now st ≡ false
    → lookup a (gc l now).by_addr ≡ some st
lookup-gc l a now st b h s =
    ground (arith, gc_lem l now b, lookup-reject (is_stale now) a l.by_addr {v = st})

-- A failure leaves the entry of every other address alone, unless it is stale.
pub lookup-fail_other :
    (l : Limiter) (addr a : Text) (now : Time) (st : AddrState)
    → IsBounded l
    → text_eq addr a ≡ false
    → lookup a l.by_addr ≡ some st
    → is_stale now st ≡ false
    → lookup a (fail l addr now).0.by_addr ≡ some st
unfolding fail record_failure
lookup-fail_other l addr a now st b n h s =
    grind (arith, lookup-gc l a now st b h s, lookup-put {V = AddrState} addr a)

-- A blocked address keeps its entry when it fails again.
lookup-fail_blocked :
    (l : Limiter) (a : Text) (now : Time) (st : AddrState)
    → lookup a l.by_addr ≡ some st
    → before now st.blocked_until ≡ true
    → (fail l a now).0 ≡ l
unfolding fail
lookup-fail_blocked l a now st h s = ground arith

-- Within its window a failure is counted on the entry.
lookup-fail_counted :
    (l : Limiter) (a : Text) (now : Time) (st : AddrState)
    → IsBounded l
    → lookup a l.by_addr ≡ some st
    → before now st.blocked_until ≡ false
    → now ≤ st.window_start + auth_window
    → lookup a (fail l a now).0.by_addr ≡ some (count_failure st now)
unfolding fail record_failure counted_state sub
lookup-fail_counted l a now st b h s w = grind (
  arith,
  lookup-gc l a now st b h,
  sub_of_le now st.window_start,
  lookup-put {V = AddrState} a a,
  text_eq_refl a,
)

-- A failure of whatever address while a block is active.
pub lookup-fail_while_blocked :
    (l : Limiter) (addr a : Text) (now : Time) (st : AddrState)
    → IsBounded l
    → lookup a l.by_addr ≡ some st
    → before now st.blocked_until ≡ true
    → lookup a (fail l addr now).0.by_addr ≡ some st
lookup-fail_while_blocked l addr a now st b h s = elim (Bool-cases (text_eq addr a)) [
  | inl e ↦ grind (arith, text_eq_iff addr a, lookup-fail_blocked l a now st h s)
  | inr e ↦ lookup-fail_other l addr a now st b e h (ground arith)
]

lookup-fail_all_blocked :
    (l : Limiter) (a : Text) (st : AddrState) (es : List (Text × Time))
    → IsBounded l
    → lookup a l.by_addr ≡ some st
    → All (λ e. before e.1 st.blocked_until ≡ true) es
    → lookup a (fail_all l es).by_addr ≡ some st
unfolding fail_all
lookup-fail_all_blocked l a st [] b h p = h
lookup-fail_all_blocked l a st ((addr, now) ∷ es) b h (q, p) =
    lookup-fail_all_blocked (fail l addr now).0 a st es (fail-IsBounded l addr now b)
      (lookup-fail_while_blocked l addr a now st b h q) p

-- While the table is within its ceiling, no sequence of failures, of this address and of others,
-- that stays before the end of a block lifts or shortens it: `allowed` refuses the address until
-- the very same instant.
pub allowed-fail_all_blocked :
    (l : Limiter) (a : Text) (st : AddrState) (es : List (Text × Time)) (now : Time)
    → IsBounded l
    → lookup a l.by_addr ≡ some st
    → All (λ e. before e.1 st.blocked_until ≡ true) es
    → before now st.blocked_until ≡ true
    → allowed (fail_all l es) a now ≡ (false, sub st.blocked_until now)
unfolding allowed
allowed-fail_all_blocked l a st es now b h p q =
    ground (arith, lookup-fail_all_blocked l a st es b h p)

-- What a failure inside the window makes of an entry that is not blocked.
count_failure_lem :
    (st : AddrState) (now : Time)
    → count_failure st now ≡ record st {
      failures = suc st.failures;
      blocked_until =
          if leb auth_max_failures (suc st.failures)
          then now + auth_block_for
          else st.blocked_until;
    }
unfolding count_failure add
count_failure_lem st now = ground arith

-- An entry inside its window is not stale.
pub is_stale_within :
    (st : AddrState) (t : Time) → t ≤ st.window_start + auth_window → is_stale t st ≡ false
unfolding sub
is_stale_within st t w = ground arith

pub lookup-fail_same :
    (l : Limiter) (addr a : Text) (t : Time) (st : AddrState)
    → text_eq addr a ≡ true
    → IsBounded l
    → lookup a l.by_addr ≡ some st
    → st.blocked_until ≡ 0
    → t ≤ st.window_start + auth_window
    → lookup a (fail l addr t).0.by_addr
      ≡ some (record st {
        failures = suc st.failures;
        blocked_until =
            if leb auth_max_failures (suc st.failures)
            then t + auth_block_for
            else st.blocked_until;
      })
lookup-fail_same l addr a t st e b h z w = grind (
  arith,
  text_eq_iff addr a,
  lookup-fail_counted l a t st b h (ground arith) w,
  count_failure_lem st t,
)
