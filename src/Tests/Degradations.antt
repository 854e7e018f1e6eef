-- ===== src/Tests/Degradations.antt =====
-- The failure fallback of internal/acme/fallback.go at a certificate with one name that keeps failing.
use wecert.Base.{
  ◌≢◌, ℕ, ◌+◌, ◌-◌, ◌*◌, ◌≤◌, ◌≡◌, ◌⊎◌, ◌↔◌, true, false, ◌&&◌, none, some, List, [], ◌∷◌, Text,
  text_eq, mem, length, codes, ok, arith, refl, SameMembers, contains_byte, split, split_first,
  trim_space, trim_left, is_space, to_lower, lower_byte,
}
use wecert.Base.Assoc.{lookup}
use wecert.Base.Int.{pos, ◌-ℤ◌}
use wecert.Base.Time.{Time, Duration, second, day, unix_epoch, from_unix, add, sub}
use wecert.Domain.Key.{cleaned}
use wecert.FallbackPolicy.{
  FailureFallback, enabled_or, min_identifier_failures_or, min_names_or,
  default_fallback_min_ident_fail, default_fallback_min_names,
}
use wecert.FallbackStore.{
  Store, Fallback, FailureRow, FallbackRow, IdentifierFailure, get_fallback, fallback_of_row, parts,
  cutoff_at, list_identifier_failures, prune_identifier_failures, failures_from, insert_failure,
}
use wecert.Fallback.{
  Certificate, CertState, Round, Manager, fallback_domains, policy_split, ledger_split, split_off,
  fallback_policy, bad_names, still_configured, entries_of_not_in, apply_fallback, act_on,
  prune_fallback, prune_read, prune_record, fallback_window, window_of, drift_is_the_degradation,
}
use wecert.Fallback.Split.{FailsLately}
use wecert.Fallback.Decision.{MayDegrade, lately_bad, fallback_domains_drops}
use wecert.Fallback.Record.{get_fallback-prune_fallback, drift_is_the_degradation_iff}
use wecert.Fallback.Hold.{drift-apply_fallback}
use wecert.Fallback.Ledger.{fallback_domains-prune_identifier_failures}

abbrev noon : Time
noon = 63900000000 * second

abbrev good : Text
good = codes "a.example"

abbrev broken : Text
broken = codes "b.example"

abbrev cert_text : Text
cert_text = codes "c"

abbrev policy : FailureFallback
policy = record {
  enabled = some true;
  after_failures = pos 0;
  min_identifier_failures = pos 0;
  min_names = pos 0;
  before_expiry_dur = pos 0;
  failure_window_dur = pos 0;
}

abbrev failing_row : FailureRow
failing_row = record {
  cert = cert_text;
  name = broken;
  count = 6;
  error = codes "NXDOMAIN";
  failed_at = pos (63899999000 - unix_epoch);
}

abbrev dropping_row : FallbackRow
dropping_row = record {
  names = codes "b.example,gone.example";
  began = pos (63899990000 - unix_epoch);
  why = [];
}

abbrev ledger : Store
ledger = record {
  identifier_failures = failing_row ∷ [];
  cert_fallback = [];
  reads = true;
  writes = true;
}

abbrev degraded_store : Store
degraded_store = record ledger { cert_fallback = (cert_text, dropping_row) ∷ [] }

abbrev two_names : Certificate
two_names = record { cert = cert_text; domains = good ∷ broken ∷ []; failure_fallback = none }

abbrev failing : CertState
failing = record { not_after = noon + 2 * day; consecutive_failures = 7 }

abbrev manager : Manager
manager = record {
  policy = some policy;
  now = noon;
  store = ledger;
  active_gauge = 0;
  dropped_gauge = 0;
}

abbrev degraded_manager : Manager
degraded_manager = record manager { store = degraded_store }

abbrev first_round : Round
first_round = record {
  degraded = false;
  full_set = false;
  fallback_unknown = false;
  fallback_active = false;
}

-- The message of a degradation.
abbrev message : ℕ → Duration → Text
message n left = codes "failed"

abbrev dropping : Fallback
dropping = record {
  cert_name = cert_text;
  dropped = broken ∷ codes "gone.example" ∷ [];
  since = from_unix dropping_row.began;
  reason = [];
}

fallback_domains_drops_example :
    (mem broken (fallback_domains message manager two_names failing false).1 ≡ true) ↔ (
      (p : FailureFallback) × (fs : List IdentifierFailure) × MayDegrade p fs manager two_names
        failing false
      × (min_names_or p default_fallback_min_names
          ≤ length (entries_of_not_in two_names.domains (lately_bad p fs manager two_names)))
      × (mem broken two_names.domains ≡ true)
      × FailsLately
          (min_identifier_failures_or p default_fallback_min_ident_fail)
          (cutoff_at noon (fallback_window manager two_names))
          broken
          fs)
fallback_domains_drops_example =
    fallback_domains_drops message manager two_names failing false broken

dropping-read : get_fallback degraded_store cert_text ≡ ok (some dropping)
unfolding get_fallback fallback_of_row lookup text_eq parts split split_first trim_space trim_left
    is_space
dropping-read = ground arith

get_fallback-prune_fallback_example :
    ((get_fallback (prune_fallback degraded_manager two_names first_round).0.store cert_text
        ≡ ok none)
      × (dropping.dropped ≢ [])
      × ((x : Text) → mem x dropping.dropped ≡ true → mem x two_names.domains ≡ false))
    ⊎ ((fb' : Fallback) × (get_fallback
            (prune_fallback degraded_manager two_names first_round).0.store
            cert_text
          ≡ ok (some fb'))
        × (fb'.since ≡ dropping.since)
        × ((dropping.dropped ≡ []) ⊎ (fb'.dropped ≢ []))
        × ((x : Text) → mem x fb'.dropped ≡ (mem x dropping.dropped && mem x two_names.domains)))
unfolding contains_byte trim_space trim_left is_space
get_fallback-prune_fallback_example =
    get_fallback-prune_fallback degraded_manager two_names first_round dropping refl refl
      dropping-read
      (
        (refl, ground arith, λ e. ground (arith, e)),
        ((refl, ground arith, λ e. ground (arith, e)), tt),
      )

drift_is_the_degradation_iff_example :
    (drift_is_the_degradation (good ∷ []) two_names degraded_store cert_text ≡ true)
    ↔ SameMembers
        (cleaned (entries_of_not_in two_names.domains dropping.dropped))
        (cleaned (good ∷ []))
unfolding cleaned entries_of_not_in mem text_eq contains_byte trim_space trim_left is_space to_lower
    lower_byte
drift_is_the_degradation_iff_example =
    drift_is_the_degradation_iff (good ∷ []) two_names degraded_store dropping dropping-read
      (omega arith) (ground arith) (ground arith)

degrades : (apply_fallback message manager two_names failing first_round).2.degraded ≡ true
unfolding apply_fallback act_on prune_fallback prune_read prune_record get_fallback fallback_of_row
    lookup text_eq fallback_domains policy_split ledger_split split_off fallback_policy enabled_or
    list_identifier_failures failures_from insert_failure bad_names still_configured
    entries_of_not_in mem from_unix add sub ◌-ℤ◌ window_of
degrades = ground arith

drift-apply_fallback_example :
    drift_is_the_degradation
      (apply_fallback message manager two_names failing first_round).1.domains
      two_names
      (apply_fallback message manager two_names failing first_round).0.store
      cert_text
    ≡ true
unfolding contains_byte trim_space trim_left is_space
drift-apply_fallback_example =
    drift-apply_fallback message manager two_names failing first_round refl refl
      (
        (refl, ground arith, λ e. ground (arith, e)),
        ((refl, ground arith, λ e. ground (arith, e)), tt),
      )
      refl degrades

-- A failure a year old, which pruning deletes.
abbrev stale_row : FailureRow
stale_row = record failing_row { name = good; failed_at = pos (63868000000 - unix_epoch) }

abbrev stale_manager : Manager
stale_manager = record manager {
  store = record ledger { identifier_failures = stale_row ∷ failing_row ∷ [] };
}

fallback_domains-prune_identifier_failures_example :
    fallback_domains message
      (record stale_manager {
        store =
            (prune_identifier_failures stale_manager.store cert_text noon
              (fallback_window stale_manager two_names)).0;
      })
      two_names
      failing
      false
    ≡ fallback_domains message stale_manager two_names failing false
fallback_domains-prune_identifier_failures_example =
    fallback_domains-prune_identifier_failures message stale_manager two_names failing false noon
      (omega arith)
