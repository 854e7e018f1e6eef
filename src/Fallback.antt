-- ===== src/Fallback.antt =====
-- internal/acme/fallback.go: issuing a subset
-- of the names of a certificate that is close to expiry and still refuses to issue.
pub mod Split
pub mod Decision
pub mod Record
pub mod Hold
pub mod Ledger
use wecert.Base.{
  ℕ, zero, suc, ◌+◌, ◌*◌, ◌≡◌, Bool, true, false, not, ◌&&◌, ◌||◌, Option, none, some,
  if◌then◌else◌, List, [], ◌∷◌, ◌++◌, Text, text_eq, mem, ltb, leb, ◌==◌, is_some, length, Result,
  ok, err,
}
use wecert.Base.Int.{ℤ, pos, pos_part, ltb_ℤ, leb_ℤ}
use wecert.Base.Time.{Time, Duration, is_zero, after, sub, hour, day}
use wecert.Domain.{domain_key}
use wecert.FallbackPolicy.{
  FailureFallback, enabled_or, after_failures_or, min_identifier_failures_or, min_names_or,
  default_fallback_after_failures, default_fallback_before_expiry, default_fallback_min_ident_fail,
  default_fallback_failure_window, default_fallback_min_names,
}
use wecert.FallbackStore.{
  Store, IdentifierFailure, Fallback, StoreError, cutoff_at, list_identifier_failures, get_fallback,
  put_fallback, clear_fallback, prune_identifier_failures,
}

-- The fields of config.Certificate and of state.CertState that the decision reads.
pub record Certificate : Type 0 where
  pub cert : Text
  pub domains : List Text
  pub failure_fallback : Option FailureFallback

pub record CertState : Type 0 where
  pub not_after : Time
  pub consecutive_failures : ℕ

-- The round value of a pass.
pub record Round : Type 0 where
  pub degraded : Bool
  pub full_set : Bool
  pub fallback_unknown : Bool
  pub fallback_active : Bool

-- The policy of the manager, its clock at the pass, its store, and the two gauges of the certificate.
pub record Manager : Type 0 where
  pub policy : Option FailureFallback
  pub now : Time
  pub store : Store
  pub active_gauge : ℕ
  pub dropped_gauge : ℕ

unfoldable pub fallback_policy : Manager → Certificate → Option FailureFallback
fallback_policy m c = elim c.failure_fallback [ some p ↦ some p | none ↦ m.policy ]

unfoldable pub window_of : Option FailureFallback → Duration
window_of none = pos default_fallback_failure_window
window_of (some p) =
    if ltb_ℤ (pos 0) p.failure_window_dur
    then p.failure_window_dur
    else pos default_fallback_failure_window

abbrev pub fallback_window : Manager → Certificate → Duration
fallback_window m c = window_of (fallback_policy m c)

-- The keys of `bad`.
unfoldable pub bad_names : ℕ → Time → List IdentifierFailure → List Text
bad_names least cutoff [] = []
bad_names least cutoff (f ∷ fs) =
    let rest = bad_names least cutoff fs in
    if leb least f.failures && after f.last_failed_at cutoff then f.identifier ∷ rest else rest

-- stillConfigured
unfoldable pub still_configured : List Text → List Text → List Text
still_configured [] have = []
still_configured (w ∷ want) have =
    let rest = still_configured want have in if mem w have then w ∷ rest else rest

-- entriesOfNotIn; the loops that compute `kept` and `expected` are this one too.
unfoldable pub entries_of_not_in : List Text → List Text → List Text
entries_of_not_in [] have = []
entries_of_not_in (w ∷ want) have =
    let rest = entries_of_not_in want have in if mem w have then rest else w ∷ rest

-- containsAll of internal/acme/manager_done.go
unfoldable pub contains_all : List Text → List Text → Bool
contains_all domains [] = true
contains_all domains (d ∷ want) = mem d domains && contains_all domains want

abbrev pub before_expiry_of : FailureFallback → Duration
before_expiry_of p =
    if leb_ℤ p.before_expiry_dur (pos 0)
    then pos default_fallback_before_expiry
    else p.before_expiry_dur

-- What fallbackDomains answers where it drops nothing.
abbrev unchanged : Certificate → List Text × List Text × Text
unchanged c = (c.domains, [], [])

-- pruneFallback, once the record is read.
unfoldable pub prune_record : Manager → Certificate → Round → Option Fallback → Manager × Round
prune_record m c rd none = (m, rd)
prune_record m c rd (some fb) =
    let kept = still_configured fb.dropped c.domains in
    let cleared = clear_fallback m.store c.cert in
    let rewritten =
      put_fallback m.store (some (record fb { cert_name = c.cert; dropped = kept })) in
    if length fb.dropped == 0 || length kept == length fb.dropped
    then (m, rd)
    else if length kept == 0
    then (
      record m { store = cleared.0 },
      if is_some cleared.1 then rd else record rd { fallback_active = false },
    )
    else (record m { store = rewritten.0 }, rd)

unfoldable pub prune_read :
    Manager → Certificate → Round → Result StoreError (Option Fallback) → Manager × Round
unfolding prune_record
prune_read m c rd (err e) = (m, rd)
prune_read m c rd (ok fb) = prune_record m c rd fb

unfoldable pub prune_fallback : Manager → Certificate → Round → Manager × Round
unfolding prune_read
prune_fallback m c rd = prune_read m c rd (get_fallback m.store c.cert)

-- The gauges of a pass that drops nothing.
unfoldable pub set_gauges : Manager → Result StoreError (Option Fallback) → Manager
set_gauges m (err e) = m
set_gauges m (ok none) = record m { active_gauge = 0; dropped_gauge = 0 }
set_gauges m (ok (some fb)) = record m { active_gauge = 1; dropped_gauge = length fb.dropped }

-- applyFallback, once the decision is made.
unfoldable pub act_on :
    Manager → Certificate → Round → List Text × List Text × Text → Manager × Certificate × Round
unfolding set_gauges
act_on m c rd (kept, [], reason) =
    let m' = set_gauges m (get_fallback m.store c.cert) in
    (
      record m' {
        store = (prune_identifier_failures m'.store c.cert m.now (fallback_window m c)).0;
      },
      c,
      rd,
    )
act_on m c rd (kept, d ∷ ds, reason) = (
  record m {
    active_gauge = 1;
    dropped_gauge = length (d ∷ ds);
    store =
        (put_fallback m.store (
          some
            (record { cert_name = c.cert; dropped = d ∷ ds; since = m.now; reason = reason }))).0;
  },
  record c { domains = kept },
  record rd { degraded = true; fallback_active = true },
)

module _ (format_reason : ℕ → Duration → Text) where
  -- fallbackDomains past the ledger: `bad` are the names that keep failing.
  unfoldable pub split_off :
      FailureFallback
      → Manager
      → Certificate
      → CertState
      → Bool
      → List Text
      → List Text × List Text × Text
  split_off p m c st held bad =
      let left = sub st.not_after m.now in
      let kept = entries_of_not_in c.domains bad in
      let dropped = still_configured c.domains bad in
      if length bad == 0
      then unchanged c
      else if not held && ltb_ℤ (before_expiry_of p) left
      then unchanged c
      else if ltb (length kept) (min_names_or p default_fallback_min_names)
      then unchanged c
      else (kept, dropped, format_reason st.consecutive_failures left)

  unfoldable pub ledger_split :
      FailureFallback
      → Manager
      → Certificate
      → CertState
      → Bool
      → Result StoreError (List IdentifierFailure)
      → List Text × List Text × Text
  unfolding split_off bad_names
  ledger_split p m c st held (err e) = unchanged c
  ledger_split p m c st held (ok failures) = split_off p m c st held (
      bad_names (min_identifier_failures_or p default_fallback_min_ident_fail)
        (cutoff_at m.now (fallback_window m c)) failures)

  unfoldable pub policy_split :
      Option FailureFallback
      → Manager
      → Certificate
      → CertState
      → Bool
      → List Text × List Text × Text
  unfolding ledger_split
  policy_split none m c st held = unchanged c
  policy_split (some p) m c st held =
      if not (enabled_or p false) || is_zero st.not_after
      then unchanged c
      else if ltb st.consecutive_failures (after_failures_or p default_fallback_after_failures)
      then unchanged c
      else ledger_split p m c st held (list_identifier_failures m.store c.cert)

  unfoldable pub fallback_domains :
      Manager → Certificate → CertState → Bool → List Text × List Text × Text
  unfolding policy_split
  fallback_domains m c st held = policy_split (fallback_policy m c) m c st held

  unfoldable pub apply_fallback :
      Manager → Certificate → CertState → Round → Manager × Certificate × Round
  unfolding prune_fallback act_on
  apply_fallback m c st rd =
      let (m', rd') = prune_fallback m c rd in
      act_on m' c rd' (fallback_domains m' c st rd'.fallback_active)

-- driftIsTheDegradation, once the record is read; `deployed` are the names of the certificate.
unfoldable pub drift_of : List Text → List Text → Result StoreError (Option Fallback) → Bool
drift_of deployed domains (err e) = true
drift_of deployed domains (ok none) = false
drift_of deployed domains (ok (some fb)) =
    not (length fb.dropped == 0)
    && text_eq (domain_key (entries_of_not_in domains fb.dropped)) (domain_key deployed)

unfoldable pub drift_is_the_degradation : List Text → Certificate → Store → Text → Bool
unfolding drift_of
drift_is_the_degradation deployed c s cert = drift_of deployed c.domains (get_fallback s cert)
