-- ===== src/Tests/Lockouts.antt =====
-- The lockout of internal/webhook/ratelimit.go and the maps of internal/acme/manager.go, over a few
-- calls.
use wecert.Base.{
  ◌+◌, ◌*◌, ◌≡◌, true, false, some, List, [], ◌∷◌, Text, codes, text_eq, mem, arith, refl, is_some,
}
use wecert.Base.Assoc.{lookup}
use wecert.Base.Time.{Time, second, minute, sub}
use wecert.AuthLimiter.{AddrState, Limiter, allowed, new_limiter}
use wecert.AuthLimiter.Bounds.{IsBounded, Op, failed, succeeded, run, run-IsBounded}
use wecert.AuthLimiter.Lockout.{fail_all, allowed-fail_all_blocked}
use wecert.AuthLimiter.Traffic.{failures_of, allowed-run}
use wecert.FallbackStore.{Store, record_identifier_failure}
use wecert.Cooldown.{new_memory, cooling_down}
use wecert.Cooldown.Counters.{
  Fetch, fetch_failed, fetch_answered, fetch_all, give_ups, fetch_all-give_ups,
}
use wecert.Cooldown.Restart.{cooling_down-record_identifier_failure}

abbrev noon : Time
noon = 63900000000 * second

abbrev attacker : Text
attacker = codes "203.0.113.7"

abbrev office : Text
office = codes "198.51.100.2"

-- The attacker has nine failures in a window that started at noon.
abbrev nine_failures : AddrState
nine_failures = record { failures = 9; window_start = noon; blocked_until = 0 }

abbrev watched : Limiter
watched = record { by_addr = (attacker, nine_failures) ∷ []; last_gc = 0 }

abbrev burst : List (Text × Time)
burst = (office, noon + second) ∷ (attacker, noon + minute) ∷ (office, noon + 2 * minute) ∷ []

-- The same, with an authentication of the office.
abbrev traffic : List Op
traffic =
    succeeded office (noon + second)
    ∷ failed attacker (noon + minute)
    ∷ failed office (noon + 2 * minute)
    ∷ succeeded office (noon + 3 * minute)
    ∷ []

allowed-run_example : (allowed (run watched traffic) attacker (noon + 14 * minute)).0 ≡ false
unfolding lookup text_eq failures_of
allowed-run_example =
    allowed-run watched attacker nine_failures traffic (noon + 14 * minute) (omega arith) refl refl
      (ground arith) (omega arith) (omega arith) (ground arith)

abbrev locked_out : AddrState
locked_out = record { failures = 10; window_start = noon; blocked_until = noon + 16 * minute }

abbrev locked : Limiter
locked = record { by_addr = (attacker, locked_out) ∷ []; last_gc = 0 }

allowed-fail_all_blocked_example :
    allowed (fail_all locked burst) attacker (noon + 15 * minute)
    ≡ (false, sub (noon + 16 * minute) (noon + 15 * minute))
unfolding lookup text_eq
allowed-fail_all_blocked_example =
    allowed-fail_all_blocked locked attacker locked_out burst (noon + 15 * minute) (omega arith)
      refl (ground arith) (ground arith)

run-IsBounded_example :
    IsBounded (run new_limiter (failed attacker noon ∷ succeeded office noon ∷ []))
run-IsBounded_example =
    run-IsBounded new_limiter (failed attacker noon ∷ succeeded office noon ∷ []) (omega arith)

abbrev empty_store : Store
empty_store = record { identifier_failures = []; cert_fallback = []; reads = true; writes = true }

abbrev www : Text
www = codes "www.example.com"

cooling_down-record_identifier_failure_example :
    is_some
      (cooling_down
        (some
          (record_identifier_failure empty_store
            (codes "example-com")
            www
            (codes "NXDOMAIN")
            noon).0)
        new_memory
        (codes "example.com" ∷ www ∷ [])
        (noon + 3 * minute)).1
    ≡ true
unfolding mem text_eq
cooling_down-record_identifier_failure_example =
    cooling_down-record_identifier_failure empty_store (codes "example-com") www (codes "NXDOMAIN")
      noon (noon + 3 * minute) new_memory (codes "example.com" ∷ www ∷ []) refl refl
      (λ e. ground (arith, e)) (omega arith) (omega arith) refl

abbrev an_order : Text
an_order = codes "https://ca.example/order/1"

abbrev fetches : List Fetch
fetches =
    fetch_failed an_order
    ∷ fetch_failed an_order
    ∷ fetch_answered an_order
    ∷ fetch_failed an_order
    ∷ fetch_failed (codes "https://ca.example/order/2")
    ∷ fetch_failed an_order
    ∷ fetch_failed an_order
    ∷ fetch_failed an_order
    ∷ []

fetch_all-give_ups_example : (fetch_all new_memory an_order fetches).1 ≡ give_ups 0 an_order fetches
unfolding lookup
fetch_all-give_ups_example = fetch_all-give_ups new_memory an_order fetches (omega arith)
