-- ===== src/FallbackPolicy.antt =====
-- internal/config/failure_fallback.go: the policy of a degradation, with the backstops for the fields
-- left unset that internal/acme/fallback.go has.
use wecert.Base.{ℕ, ◌*◌, Bool, Option, none, some, if◌then◌else◌}
use wecert.Base.Int.{ℤ, pos, pos_part, leb_ℤ}
use wecert.Base.Time.{Duration, hour, day}

-- FailureFallback of internal/config, after normalize.
pub record FailureFallback : Type 0 where
  pub enabled : Option Bool
  pub after_failures : ℤ
  pub min_identifier_failures : ℤ
  pub min_names : ℤ
  pub before_expiry_dur : Duration
  pub failure_window_dur : Duration

unfoldable pub enabled_or : FailureFallback → Bool → Bool
enabled_or f def = elim f.enabled [ none ↦ def | some b ↦ b ]

-- A count that is not set, and the three methods that read one.
abbrev pub count_or : ℤ → ℕ → ℕ
count_or v def = if leb_ℤ v (pos 0) then def else pos_part v

abbrev pub after_failures_or : FailureFallback → ℕ → ℕ
after_failures_or f def = count_or f.after_failures def

abbrev pub min_identifier_failures_or : FailureFallback → ℕ → ℕ
min_identifier_failures_or f def = count_or f.min_identifier_failures def

abbrev pub min_names_or : FailureFallback → ℕ → ℕ
min_names_or f def = count_or f.min_names def

abbrev pub default_fallback_after_failures : ℕ
default_fallback_after_failures = 5

abbrev pub default_fallback_before_expiry : ℕ
default_fallback_before_expiry = 7 * day

abbrev pub default_fallback_min_ident_fail : ℕ
default_fallback_min_ident_fail = 3

abbrev pub default_fallback_failure_window : ℕ
default_fallback_failure_window = 24 * hour

abbrev pub default_fallback_min_names : ℕ
default_fallback_min_names = 1
