-- ===== src/RateLimit/Tracker.antt =====
-- internal/ratelimit/tracker.go over the store of internal/state/ratelimit.go, to which the adapter of
-- internal/acme/ratelimit.go passes each call on field by field. A nil tracker and a nil store are
-- `none`. A method returns the store that it leaves, beside its results. Costs are exact, so the guard
-- against a NaN or infinite cost has nothing to refuse; log lines are left out.
pub mod Deadlines
use wecert.Base.{
  ℕ, ◌+◌, ◌≡◌, Bool, true, false, not, ◌&&◌, ◌||◌, Option, none, some, if◌then◌else◌, Text, codes,
  Result, ok, err, is_some, [], List, ◌∷◌, text_eq,
}
use wecert.Base.Int.{ℤ, pos, scale}
use wecert.Base.Time.{Time, is_zero, before, after}
use wecert.RateLimit.{Limit, Snapshot, unit, remaining, spend}
use wecert.RateStore.{RateBucket, Store, StoreError, get_rate_bucket, update_rate_bucket}

abbrev snapshot : RateBucket → Snapshot
snapshot rec = record { tokens = rec.tokens; at = rec.observed_at }

-- The callback of Tracker.Spend.
unfoldable pub note_spend : Limit → ℤ → Time → RateBucket → Result StoreError RateBucket
note_spend l cost now rec =
    let next = spend (snapshot rec) l cost now in
    ok (record rec { tokens = next.tokens; observed_at = next.at })

-- Tracker.Spend: an error is only logged. `cost` is in parts of a token.
unfoldable pub track_spend : Option Store → Limit → Text → ℤ → Time → Option Store
unfolding note_spend
track_spend none l scope cost now = none
track_spend (some s) l scope cost now =
    some (update_rate_bucket s l.name scope (note_spend l cost now)).0

-- What a bucket that was read reports.
abbrev remaining_of : Limit → Time → Result StoreError RateBucket → ℤ × Bool
remaining_of l now (err e) = (pos 0, false)
remaining_of l now (ok rec) =
    if not (is_zero rec.reset_at) && before now rec.reset_at
    then (pos 0, true)
    else (remaining (snapshot rec) l now, true)

-- Tracker.Remaining
unfoldable pub track_remaining : Option Store → Limit → Text → Time → ℤ × Bool
track_remaining none l scope now = (pos 0, false)
track_remaining (some s) l scope now = remaining_of l now (get_rate_bucket s l.name scope)

abbrev blocked_of : Time → Result StoreError RateBucket → Time × Text × Bool
blocked_of now (err e) = (0, [], false)
blocked_of now (ok rec) =
    if is_zero rec.reset_at
    then (0, [], false)
    else if not (before now rec.reset_at)
    then (0, [], false)
    else (rec.reset_at, rec.reset_reason, true)

-- Tracker.BlockedUntil
unfoldable pub track_blocked_until : Option Store → Limit → Text → Time → Time × Text × Bool
track_blocked_until none l scope now = (0, [], false)
track_blocked_until (some s) l scope now = blocked_of now (get_rate_bucket s l.name scope)

-- The callback of Tracker.NoteDeadline: the later instant wins.
unfoldable pub note_deadline : Limit → Time → RateBucket → Result StoreError RateBucket
note_deadline l at rec =
    ok (if after at rec.reset_at then record rec { reset_at = at; reset_reason = l.name } else rec)

abbrev noted : Time → Store × Option StoreError → Option Store × Time × Bool
noted at (s, none) = (some s, at, true)
noted at (s, some e) = (some s, 0, false)

-- Tracker.NoteDeadline
unfoldable pub track_deadline : Option Store → Limit → Text → Time → Option Store × Time × Bool
unfolding note_deadline
track_deadline none l scope at = (none, 0, false)
track_deadline (some s) l scope at =
    if is_zero at
    then (some s, 0, false)
    else noted at (update_rate_bucket s l.name scope (note_deadline l at))

-- quotaReport of internal/acme/ratelimit.go, and the record that it fills.
pub record QuotaReport : Type 0 where
  pub limit : Text
  pub scope : Text
  pub remaining : ℤ
  pub blocked : Bool
  pub blocked_until : Time
  pub unreadable : Bool
  pub spent_by_ca : Bool

unfoldable pub quota_report : Option Store → Limit → Text → Time → QuotaReport
unfolding track_remaining track_blocked_until
quota_report t l scope now =
    let rep : QuotaReport = record {
      limit = l.name;
      scope = scope;
      remaining = pos 0;
      blocked = false;
      blocked_until = 0;
      unreadable = false;
      spent_by_ca = l.spent_by_ca;
    } in
    let (at, reason, is_blocked) = track_blocked_until t l scope now in
    let (left, readable) = track_remaining t l scope now in
    if is_blocked
    then record rep { blocked = true; blocked_until = at }
    else if l.spent_by_ca
    then (if readable then rep else record rep { unreadable = true })
    else if readable
    then record rep { remaining = left }
    else record rep { unreadable = true }
