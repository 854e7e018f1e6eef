-- ===== src/RateLimit/Tracker/Deadlines.antt =====
-- The CA's deadlines in internal/ratelimit/tracker.go: they only move forward, spends leave them, and
-- they govern what is reported.
use wecert.Base.{◌+◌, ◌*◌, ◌/◌, ◌≤◌, ◌<◌, ◌≡◌, Bool, true, some, Text, arith, text_eq_refl, max}
use wecert.Base.Int.{ℤ, pos}
use wecert.Base.Time.{Time, to_unix, unix_epoch, second, from_unix-to_unix}
use wecert.RateLimit.{Limit, spend}
use wecert.RateStore.Update.{reset_at-upsert_row, rewritten_bucket, whole_second}
use wecert.RateStore.{
  nonzero, RateBucket, Store, bucket_of_row, get_rate_bucket, update_rate_bucket,
}
use wecert.RateLimit.Tracker.{track_spend, track_remaining, track_deadline, quota_report}

-- The deadline that the store holds for a bucket.
unfoldable pub deadline : Store → Text → Text → Time
deadline s name scope = (bucket_of_row name scope (s.rows name scope)).reset_at

abbrev spent_bucket : Store → Limit → Text → ℤ → Time → RateBucket
spent_bucket s l scope cost now =
    let rec = bucket_of_row l.name scope (s.rows l.name scope) in
    let next = spend (record { tokens = rec.tokens; at = rec.observed_at }) l cost now in
    record rec { tokens = next.tokens; observed_at = next.at }

to_unix-nonzero : (t : Time) → (unix_epoch + 1) * second ≤ t → nonzero (to_unix t) ≡ true
unfolding to_unix
to_unix-nonzero t h = ground arith

module _ (s : Store) (l : Limit) (scope : Text) where
  -- A spend leaves the deadline of its bucket as it was.
  pub deadline-track_spend :
      (cost : ℤ) (now : Time) {t : Store}
      → track_spend (some s) l scope cost now ≡ some t
      → deadline t l.name scope ≡ deadline s l.name scope
  unfolding track_spend deadline update_rate_bucket
  deadline-track_spend cost now h = ground (
    arith,
    text_eq_refl l.name,
    text_eq_refl scope,
    reset_at-upsert_row (spent_bucket s l scope cost now) (s.rows l.name scope) l.name scope,
    rewritten_bucket (s.rows l.name scope) l.name scope,
  )

  -- While a deadline lies ahead nothing is reported as available, and the limit as blocked until then.
  pub quota_report_blocked :
      (now : Time)
      → s.reads ≡ true
      → now < deadline s l.name scope
      → ((quota_report (some s) l scope now).blocked ≡ true)
        × ((quota_report (some s) l scope now).blocked_until ≡ deadline s l.name scope)
        × (track_remaining (some s) l scope now ≡ (pos 0, true))
  unfolding quota_report deadline get_rate_bucket
  quota_report_blocked now r h = ground arith

  -- Noting an instant after 1970 in a store that answers: the bucket then holds the later of its old
  -- deadline and the instant's second.
  pub deadline-track_deadline :
      (at : Time)
      → s.reads ≡ true
      → s.writes ≡ true
      → (unix_epoch + 1) * second ≤ at
      → {t : Store} {b : Bool} → track_deadline (some s) l scope at ≡ (some t, at, b)
      → deadline t l.name scope ≡ max (deadline s l.name scope) (at / second * second)
  unfolding track_deadline deadline update_rate_bucket
  deadline-track_deadline at hr hw h e = ground (
    arith,
    text_eq_refl l.name,
    text_eq_refl scope,
    reset_at-upsert_row
        (record (bucket_of_row l.name scope (s.rows l.name scope)) {
          reset_at = at;
          reset_reason = l.name;
        })
        (s.rows l.name scope) l.name scope,
    reset_at-upsert_row (bucket_of_row l.name scope (s.rows l.name scope)) (s.rows l.name scope)
        l.name scope,
    rewritten_bucket (s.rows l.name scope) l.name scope,
    whole_second (s.rows l.name scope) l.name scope,
    from_unix-to_unix at,
    to_unix-nonzero at h,
  )
