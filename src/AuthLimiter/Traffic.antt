-- ===== src/AuthLimiter/Traffic.antt =====
-- The lockout of internal/webhook/ratelimit.go among failures and successes of other addresses.
use wecert.Base.{
  ℕ, suc, ◌+◌, ◌≤◌, ◌<◌, ◌≡◌, Bool, true, false, some, if◌then◌else◌, List, [], ◌∷◌, Text, leb,
  arith, Bool-cases, inl, inr, text_eq, All, Option-cases,
}
use wecert.Base.Assoc.{lookup, lookup-put, lookup-remove}
use wecert.Base.Time.{Time, before}
use wecert.AuthLimiter.{
  AddrState, Limiter, auth_max_failures, auth_window, auth_block_for, is_stale, gc, allowed, fail,
  record_success,
}
use wecert.AuthLimiter.Bounds.{
  IsBounded, fail-IsBounded, record_success-IsBounded, Op, failed, succeeded, step, run,
}
use wecert.AuthLimiter.Lockout.{
  lookup-gc, lookup-fail_other, lookup-fail_same, lookup-fail_while_blocked, is_stale_within,
}

-- The time of a call.
abbrev pub time_of : Op → Time
time_of (failed addr t) = t
time_of (succeeded addr t) = t

-- The address authenticates.
abbrev pub is_own_success : Text → Op → Bool
is_own_success a (failed addr t) = false
is_own_success a (succeeded addr t) = text_eq addr a

-- How many failures are of one address.
unfoldable pub failures_of : Text → List Op → ℕ
failures_of a [] = 0
failures_of a (failed addr t ∷ os) =
    let rest = failures_of a os in if text_eq addr a then suc rest else rest
failures_of a (succeeded addr t ∷ os) = failures_of a os

-- A success leaves the entry of every other address alone, unless it is stale.
lookup-record_success_other :
    (l : Limiter) (addr a : Text) (now : Time) (st : AddrState)
    → IsBounded l
    → text_eq addr a ≡ false
    → lookup a l.by_addr ≡ some st
    → is_stale now st ≡ false
    → lookup a (record_success l addr now).by_addr ≡ some st
unfolding record_success
lookup-record_success_other l addr a now st b n h s = grind (
  arith,
  lookup-gc l a now st b h s,
  lookup-put {V = AddrState} addr a,
  lookup-remove addr a (gc l now).by_addr,
  Option-cases (lookup addr (gc l now).by_addr),
)

lookup-run_blocked :
    (l : Limiter) (a : Text) (st : AddrState) (os : List Op)
    → IsBounded l
    → lookup a l.by_addr ≡ some st
    → All (λ o. (is_own_success a o ≡ false) × (before (time_of o) st.blocked_until ≡ true)) os
    → lookup a (run l os).by_addr ≡ some st
unfolding run step
lookup-run_blocked l a st [] b h p = h
lookup-run_blocked l a st (failed addr t ∷ os) b h ((n, q), p) =
    lookup-run_blocked (fail l addr t).0 a st os (fail-IsBounded l addr t b)
      (lookup-fail_while_blocked l addr a t st b h q) p
lookup-run_blocked l a st (succeeded addr t ∷ os) b h ((n, q), p) =
    lookup-run_blocked (record_success l addr t) a st os (record_success-IsBounded l addr t b)
      (lookup-record_success_other l addr a t st b n h (ground arith)) p

allowed-run_blocked :
    (l : Limiter) (a : Text) (st : AddrState) (os : List Op) (now : Time)
    → IsBounded l
    → lookup a l.by_addr ≡ some st
    → All (λ o. (is_own_success a o ≡ false) × (before (time_of o) st.blocked_until ≡ true)) os
    → before now st.blocked_until ≡ true
    → (allowed (run l os) a now).0 ≡ false
unfolding allowed
allowed-run_blocked l a st os now b h p q = ground (arith, lookup-run_blocked l a st os b h p)

-- The calls of a window, of which none is a success of the address.
abbrev pub InWindow : Text → Time → List Op → Type 0
InWindow a start os =
    All
      (λ o. (is_own_success a o ≡ false) × (start ≤ time_of o) × (time_of o ≤ start + auth_window))
      os

within_block :
    (a : Text) (w u : Time) (os : List Op)
    → w + auth_window < u
    → InWindow a w os
    → All (λ o. (is_own_success a o ≡ false) × (before (time_of o) u ≡ true)) os
within_block a w u [] h p = p
within_block a w u (o ∷ os) h ((n, q, r), p) = ((n, ground arith), within_block a w u os h p)

-- Ten failures of an address within five minutes of the start of its window lock it out until a
-- quarter of an hour after that start, whatever other addresses do in between, by failures or by
-- successes: for a table within its ceiling in which the address has an unblocked entry under the
-- limit, and any calls at times within the window of which none is a success of this address and its
-- failures bring its count to ten, `allowed` refuses the address after them at every time before
-- that end.
pub allowed-run :
    (l : Limiter) (a : Text) (st : AddrState) (os : List Op) (now : Time)
    → IsBounded l
    → lookup a l.by_addr ≡ some st
    → st.blocked_until ≡ 0
    → InWindow a st.window_start os
    → auth_max_failures ≤ st.failures + failures_of a os
    → st.failures < auth_max_failures
    → before now (st.window_start + auth_block_for) ≡ true
    → (allowed (run l os) a now).0 ≡ false
unfolding run step failures_of
allowed-run l a st [] now b h z p c u q = ground arith
allowed-run l a st (succeeded addr t ∷ os) now b h z ((n, v, w), p) c u q =
    allowed-run (record_success l addr t) a st os now (record_success-IsBounded l addr t b)
      (lookup-record_success_other l addr a t st b n h (is_stale_within st t w)) z p c u q
allowed-run l a st (failed addr t ∷ os) now b h z ((n, v, w), p) c u q =
    elim (Bool-cases (text_eq addr a)) [
      | inl e ↦ elim (Bool-cases (leb auth_max_failures (suc st.failures))) [
        | inl f ↦
            let st' = record st {
              failures = suc st.failures;
              blocked_until = t + auth_block_for;
            } in
            allowed-run_blocked (fail l addr t).0 a st' os now (fail-IsBounded l addr t b)
              (grind (arith, lookup-fail_same l addr a t st e b h z w))
              (within_block a st.window_start (t + auth_block_for) os (ground arith) p)
              (ground arith)
        | inr f ↦
            let st' = record st { failures = suc st.failures } in
            allowed-run (fail l addr t).0 a st' os now (fail-IsBounded l addr t b)
              (grind (arith, lookup-fail_same l addr a t st e b h z w)) z p (ground arith)
              (ground arith) q
      ]
      | inr e ↦
          allowed-run (fail l addr t).0 a st os now (fail-IsBounded l addr t b)
            (lookup-fail_other l addr a t st b e h (is_stale_within st t w)) z p (ground arith) u q
    ]
