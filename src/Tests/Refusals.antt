-- ===== src/Tests/Refusals.antt =====
-- A refusal of the CA in internal/acme/manager_renew.go, for a certificate with a wildcard.
use wecert.Base.{
  ◌/◌, has_prefix, ℕ, zero, suc, ◌+◌, ◌*◌, ◌^◌, ◌≤◌, ◌<◌, ◌≡◌, ◌≢◌, ◌⊎◌, inl, inr, Bool, true,
  false, not, ◌&&◌, ◌||◌, Option, none, some, if◌then◌else◌, List, [], ◌∷◌, ◌++◌, Text, text_eq,
  mem, codes, length, Result, ok, err, arith, refl, All, is_some, min, contains_byte, trim_space,
  to_lower,
}
use wecert.Base.Time.{Time, second}
use wecert.RateLimit.{authz_failures_per_identifier, consecutive_authz_failures_per_identifier}
use wecert.Refusal.{looks_like_identifier, new_order_refusal_scope, quoted_domain, cut}
use wecert.Refusal.Words.{pause_lead, next_name, new_order_refusal_scope-paused}
use wecert.QuotaGate.{CaError, blocked_by_recorded_deadline, note_new_order_refusal}
use wecert.QuotaGate.Named.{IsName}
use wecert.QuotaGate.Consulted.{quoted_name_of, blocked-note_new_order_refusal}
use wecert.RateStore

abbrev noon : Time
noon = 63900000000 * second

-- The CA refuses an order until an instant, for a name that the certificate holds as a wildcard.
abbrev refusal : CaError
refusal = record {
  message =
      codes
        "too many failed authorizations (5) for \"a.example\" in the last 1h0m0s, retry after 2025-12-01 12:00:00 UTC: see https://letsencrypt.org/docs/rate-limits/";
  retry_after = [];
}

abbrev refused_names : List Text
refused_names = codes "b.example" ∷ codes "*.a.example" ∷ []

abbrev lifts : Time
lifts = noon + 3600 * second

abbrev reads_instant : Text → Text → Option Time
reads_instant layout text = some lifts

abbrev no_header : Text → Option Time
no_header text = none

abbrev suffix : Text → Text
suffix text = codes "example"

abbrev not_ipv6 : Text → Bool
not_ipv6 text = false

abbrev itself : Text → Option Text
itself text = some text

abbrev empty_buckets : RateStore.Store
empty_buckets = record { rows = λ limit scope. none; reads = true; writes = true }

-- What the CA quotes is a name of the certificate.
quoted-IsName : IsName refused_names (quoted_domain refusal.message)
unfolding quoted_domain cut mem text_eq to_lower has_prefix
quoted-IsName = record {
  domain = codes "*.a.example";
  of_certificate = refl;
  matches = inr refl;
  filled = refl;
  bare = refl;
}

blocked-note_new_order_refusal_example :
    is_some (
      blocked_by_recorded_deadline reads_instant no_header suffix not_ipv6 itself
        (note_new_order_refusal reads_instant no_header suffix not_ipv6 itself
          (some empty_buckets)
          refused_names
          refusal
          noon).0
        refused_names
        (noon + 60 * second))
    ≡ true
unfolding wecert.RateLimit.RetryAfter.parse_retry_after wecert.RateLimit.RetryAfter.after_marker
    wecert.Base.after_prefix wecert.RateLimit.RetryAfter.parse_layouts wecert.Refusal.refused_limits
    to_lower
blocked-note_new_order_refusal_example =
    blocked-note_new_order_refusal reads_instant no_header suffix not_ipv6 itself refused_names
      refusal noon lifts authz_failures_per_identifier empty_buckets (noon + 60 * second)
      (omega arith) refl (record { can_read = refl; can_write = refl }) (inl refl)
      (quoted_name_of (inl refl) quoted-IsName) (omega arith)

new_order_refusal_scope-paused_example :
    new_order_refusal_scope suffix not_ipv6 itself consecutive_authz_failures_per_identifier
      (codes "b.example" ∷ [])
      (pause_lead ++ (codes "A.example" ++ codes ", b.example and possibly others"))
    ≡ to_lower (codes "A.example")
unfolding looks_like_identifier contains_byte trim_space text_eq
new_order_refusal_scope-paused_example =
    new_order_refusal_scope-paused suffix not_ipv6 itself (codes "b.example" ∷ [])
      (codes "A.example") (codes ", b.example and possibly others")
      (next_name (codes " b.example and possibly others")) refl refl refl refl
