-- ===== src/QuotaGate.antt =====
-- What internal/acme/manager_renew.go does with a refusal: noteNewOrderRefusal books the CA's deadline
-- against the limits that it names, and blockedByRecordedDeadline keeps the certificate from ordering
-- until then.
pub mod Booked
pub mod Gate
pub mod Named
pub mod Consulted
use wecert.Base.{
  ℕ, ◌+◌, ◌≡◌, Bool, true, false, not, ◌&&◌, ◌||◌, Option, none, some, if◌then◌else◌, List, [], ◌∷◌,
  ◌++◌, Text, codes, text_eq,
}
use wecert.Base.Time.{Time, after, add}
use wecert.Domain.{domain_key}
use wecert.RateLimit.{
  Limit, new_orders_per_account, certs_per_registered_domain, certs_per_exact_identifier_set,
  authz_failures_per_identifier, consecutive_authz_failures_per_identifier,
}
use wecert.RateLimit.RetryAfter.{parse_retry_after, parse_retry_after_header_at}
use wecert.RateLimit.Tracker.{track_deadline, track_blocked_until}
use wecert.RateStore.{Store}
use wecert.Refusal.{
  refused_limits, new_order_refusal_scope, unique_registered_domains, bare_identifier_scope,
}

-- An error of the CA: its text, and the Retry-After header of a 429, which may be empty.
pub record CaError : Type 0 where
  pub message : Text
  pub retry_after : Text

-- A limit and the bucket of it that is consulted.
pub record Check : Type 0 where
  pub limit : Limit
  pub scope : Text

-- The checks of one name.
abbrev pub identifier_checks : Text → List Check
identifier_checks d =
    record { limit = authz_failures_per_identifier; scope = bare_identifier_scope d }
    ∷ record { limit = consecutive_authz_failures_per_identifier; scope = bare_identifier_scope d }
    ∷ []

unfoldable pub all_identifier_checks : List Text → List Check
all_identifier_checks [] = []
all_identifier_checks (d ∷ ds) = identifier_checks d ++ all_identifier_checks ds

unfoldable pub domain_checks : List Text → List Check
domain_checks [] = []
domain_checks (d ∷ ds) =
    record { limit = certs_per_registered_domain; scope = d } ∷ domain_checks ds

-- The loop over the checks.
unfoldable pub first_blocked : Option Store → Time → List Check → Option (Time × Check)
first_blocked q now [] = none
first_blocked q now (ch ∷ cs) =
    let rest = first_blocked q now cs in
    let (at, reason, blocked) = track_blocked_until q ch.limit ch.scope now in
    if text_eq ch.scope [] && not (text_eq ch.limit.scope (codes "account"))
    then rest
    else if blocked
    then some (at, ch)
    else rest

-- Tracker.NoteRetryAfter
unfoldable pub note_retry_after :
    (Text → Text → Option Time) → Option Store → Limit → Text → Text → Option Store × Time × Bool
note_retry_after parse_time q l scope msg = elim (parse_retry_after parse_time msg) [
  | none ↦ (q, 0, false)
  | some at ↦ track_deadline q l scope at
]

-- The later of the floor and an instant that was named.
abbrev pub raised : Time → Option Time → Time
raised floor none = floor
raised floor (some at) = if after at floor then at else floor

-- The body of the loop past NoteRetryAfter: whether a deadline was named, beside the store.
unfoldable pub book_refusal :
    Limit → Text → Option Time → Time → Option Store × Time × Bool → Option Store × Bool
book_refusal l scope header now (q, at, noted) =
    let floor = raised (raised (add now l.refill) (if noted then some at else none)) header in
    let (q', floor_at, floor_noted) = track_deadline q l scope floor in
    if l.spent_by_ca
    then (q', floor_noted)
    else if noted
    then (q, true)
    else elim header [ none ↦ (q, false) | some h ↦ ((track_deadline q l scope h).0, true) ]

module _ (parse_time : Text → Text → Option Time) (parse_http : Text → Option Time)
    (public_suffix : Text → Text) (is_ipv6 : Text → Bool) (etld_plus_one : Text → Option Text) where
  -- The checks of blockedByRecordedDeadline, in order.
  unfoldable pub checks_of : List Text → List Check
  unfolding all_identifier_checks domain_checks
  checks_of domains =
      record { limit = new_orders_per_account; scope = [] }
        ∷ record { limit = certs_per_exact_identifier_set; scope = domain_key domains }
        ∷ domain_checks (unique_registered_domains public_suffix is_ipv6 etld_plus_one domains)
      ++ all_identifier_checks domains

  unfoldable pub blocked_by_recorded_deadline :
      Option Store → List Text → Time → Option (Time × Check)
  unfolding first_blocked checks_of
  blocked_by_recorded_deadline q domains now = first_blocked q now (checks_of domains)

  -- The loop of noteNewOrderRefusal over the limits.
  unfoldable pub book_all :
      List Limit → List Text → CaError → Option Time → Time → Option Store → Option Store × Bool
  unfolding note_retry_after book_refusal
  book_all [] domains e header now q = (q, false)
  book_all (l ∷ ls) domains e header now q =
      let scope = new_order_refusal_scope public_suffix is_ipv6 etld_plus_one l domains e.message in
      let (q', blocked) =
        book_refusal l scope header now (note_retry_after parse_time q l scope e.message) in
      let (q'', more) = book_all ls domains e header now q' in (q'', blocked || more)

  -- Without a limit of its own a refusal is one of the order budget.
  abbrev pub or_new_orders : List Limit → List Limit
  or_new_orders [] = new_orders_per_account ∷ []
  or_new_orders (l ∷ ls) = l ∷ ls

  abbrev pub header_of : CaError → Time → Option Time
  header_of e now =
      if text_eq e.retry_after []
      then none
      else parse_retry_after_header_at parse_http e.retry_after now

  unfoldable pub note_new_order_refusal :
      Option Store → List Text → CaError → Time → Option Store × Bool
  unfolding book_all
  note_new_order_refusal q domains e now =
      book_all (or_new_orders (refused_limits parse_time e.message)) domains e (header_of e now) now
        q
