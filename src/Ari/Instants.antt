-- ===== src/Ari/Instants.antt =====
-- Where the instants of internal/acme/ari.go lie.
use wecert.Base.{ℕ, ◌+◌, ◌≤◌, ◌<◌, ◌≡◌, some, [], Text, arith, ◌↔◌}
use wecert.Base.Int.{pos, pos_part, ◌<ℤ◌}
use wecert.Base.Time.{Time, Duration, add}
use wecert.Ari.{
  RenewalInfo, Response, checked_info, fetch_renewal_info, renewal_time, deterministic_time,
}

module _ (hash : Text → ℕ × ℕ) (rfc3339 : Time → Text) where
  -- The renewal lies in the suggested window, its ends included.
  renewal_time_within :
      (name : Text) (start end : Time)
      → start ≤ end
      → (start ≤ renewal_time hash rfc3339 name start end)
        × (renewal_time hash rfc3339 name start end ≤ end)
  unfolding renewal_time
  renewal_time_within name start end h = ground arith

  -- Renewal information is returned exactly where the CA answers 200 with a body that decodes to a
  -- window that does not end before it starts, and the renewal of any certificate lies in the window
  -- that is returned, its ends included.
  pub renewal_time-fetch_renewal_info :
      (resp : Response) (info : RenewalInfo)
      → ((fetch_renewal_info (some resp)).0 ≡ some info) ↔ (
          (resp.status_code ≡ 200)
          × (resp.body ≡ some info)
          × ((name : Text)
              → (info.start ≤ renewal_time hash rfc3339 name info.start info.end)
                × (renewal_time hash rfc3339 name info.start info.end ≤ info.end)))
  unfolding fetch_renewal_info checked_info
  renewal_time-fetch_renewal_info resp info = (
    λ h. (
      ground (arith, h),
      ground (arith, h),
      λ name. renewal_time_within name info.start info.end (ground (arith, h)),
    ),
    λ (c, b, w). ground (arith, c, b, w []),
  )

  -- The renewal without renewal information is not before the base, and is less than the spread after
  -- it unless the spread is not positive, where it is the base.
  deterministic_time_bounds :
      (name : Text) (base : Time) (spread : Duration)
      → (base ≤ deterministic_time hash rfc3339 name base spread)
        × (pos 0 <ℤ spread
            → deterministic_time hash rfc3339 name base spread < base + pos_part spread)
        × (deterministic_time hash rfc3339 name base spread ≤ base + pos_part spread)
  unfolding deterministic_time add
  deterministic_time_bounds name base spread = ground arith
