-- ===== src/CertStore.antt =====
-- internal/state/certs.go, internal/state/orders.go and internal/state/retired.go: the rows of a
-- certificate, of its order in flight and of what was retired. A table maps a key to what its row
-- reads back as, so an instant is stored to the second. Each table has two switches, whether it reads
-- and whether it writes; a statement that fails changes nothing. The store has no sealer.
pub mod Rows
use wecert.Base.{
  ℕ, zero, suc, ◌+◌, ◌≡◌, Bool, true, false, not, ◌&&◌, ◌||◌, Option, none, some, if◌then◌else◌,
  List, [], ◌∷◌, Text, text_eq, ltb, leb, ◌==◌, max, Result, ok, err, length,
}
use wecert.Base.Assoc.{Assoc, lookup, put, remove}
use wecert.Base.Int.{pos}
use wecert.Base.Time.{Time, Duration, to_unix, from_unix, second, is_zero, before}
use wecert.Truncate.{truncate, max_last_error_bytes}

pub record CertState : Type 0 where
  pub name : Text
  pub not_after : Time
  pub cert_url : Text
  pub cert_pem : Text
  pub key_pem : Text
  pub issued_at : Time
  pub ari_cert_id : Text
  pub ari_window_start : Time
  pub ari_window_end : Time
  pub ari_checked_at : Time
  pub ari_retry_after : Duration
  pub consecutive_failures : ℕ
  pub next_attempt_at : Time
  pub last_error : Text
  pub deployed_cert_id : Text
  pub deploy_confirmed : Bool
  pub orphan_cleaned_at : Time

pub record Order : Type 0 where
  pub cert_name : Text
  pub order_url : Text
  pub finalize_url : Text
  pub cert_url : Text
  pub expires_at : Time
  pub status : Text
  pub key_pem : Text
  pub identifiers : Text
  pub deployment_cert_id : Text

-- The columns of retired_certificates; NULL is `none`.
pub record RetiredCert : Type 0 where
  pub cert_name : Text
  pub retired_at : Time
  pub cert_pem : Option Text
  pub key_pem : Option Text

pub record Tables : Type 0 where
  pub certificates : Assoc CertState
  pub orders : Assoc Order
  pub retired : Assoc RetiredCert
  pub reads_certs : Bool
  pub writes_certs : Bool
  pub reads_orders : Bool
  pub writes_orders : Bool
  pub writes_retired : Bool

pub data TableError : Type 0 where
  read_failed write_failed nil_row empty_id no_such_certificate : TableError

-- What a time column reads back as.
unfoldable pub stored : Time → Time
stored t = from_unix (to_unix t)

abbrev pub new_cert_state : Text → CertState
new_cert_state name = record {
  name = name;
  not_after = 0;
  cert_url = [];
  cert_pem = [];
  key_pem = [];
  issued_at = 0;
  ari_cert_id = [];
  ari_window_start = 0;
  ari_window_end = 0;
  ari_checked_at = 0;
  ari_retry_after = pos 0;
  consecutive_failures = 0;
  next_attempt_at = 0;
  last_error = [];
  deployed_cert_id = [];
  deploy_confirmed = false;
  orphan_cleaned_at = 0;
}

-- A row read by its key, which is the name.
abbrev pub named : Text → Option CertState → Option CertState
named name none = none
named name (some st) = some (record st { name = name })

-- getCertLocked
unfoldable pub get_cert : Tables → Text → Result TableError (Option CertState)
get_cert s name =
    if s.reads_certs then ok (named name (lookup name s.certificates)) else err read_failed

-- A certificate without a row has the state that loadRound makes.
abbrev pub found_or_new : Text → Option CertState → CertState
found_or_new name none = new_cert_state name
found_or_new name (some st) = st

-- The mark of a teardown, which the statement of putCertExec does not name.
abbrev pub mark_of : Option CertState → Time
mark_of none = 0
mark_of (some old) = old.orphan_cleaned_at

-- The row of a state, beside the row that is there.
unfoldable pub cert_row : CertState → Option CertState → CertState
unfolding stored
cert_row c old = record c {
  not_after = stored c.not_after;
  issued_at = stored c.issued_at;
  ari_window_start = stored c.ari_window_start;
  ari_window_end = stored c.ari_window_end;
  ari_checked_at = stored c.ari_checked_at;
  next_attempt_at = stored c.next_attempt_at;
  last_error = truncate c.last_error max_last_error_bytes;
  orphan_cleaned_at = mark_of old;
}

-- putCertExec, without its nil state
unfoldable pub put_cert_exec : Tables → CertState → Tables × Option TableError
unfolding cert_row
put_cert_exec s c =
    if s.writes_certs
    then (
      record s {
        certificates = put c.name (cert_row c (lookup c.name s.certificates)) s.certificates;
      },
      none,
    )
    else (s, some write_failed)

-- PutCert; a nil state is `none`.
unfoldable pub put_cert : Tables → Option CertState → Tables × Option TableError
unfolding put_cert_exec
put_cert s none = (s, some nil_row)
put_cert s (some c) = put_cert_exec s c

-- UpdateCert, once the row is read.
unfoldable pub update_read :
    Tables
    → (CertState → Result TableError CertState)
    → Result TableError (Option CertState)
    → Tables × Option TableError
unfolding put_cert_exec
update_read s fn (err e) = (s, some e)
update_read s fn (ok none) = (s, some no_such_certificate)
update_read s fn (ok (some st)) = elim (fn st) [
  | err e ↦ (s, some e)
  | ok st' ↦ put_cert_exec s st'
]

unfoldable pub update_cert :
    Tables → Text → (CertState → Result TableError CertState) → Tables × Option TableError
unfolding update_read get_cert
update_cert s name fn = update_read s fn (get_cert s name)

-- The row that RecordFailure leaves: MAX of both counters, and no other column.
unfoldable pub failure_row : Text → Text → ℕ → Time → Option CertState → CertState
unfolding stored
failure_row name msg failures next none = record (new_cert_state name) {
  consecutive_failures = failures;
  next_attempt_at = stored next;
  last_error = truncate msg max_last_error_bytes;
}
failure_row name msg failures next (some c) = record c {
  consecutive_failures = max c.consecutive_failures failures;
  next_attempt_at = max c.next_attempt_at (stored next);
  last_error = truncate msg max_last_error_bytes;
}

-- Store.RecordFailure
unfoldable pub note_failure : Tables → Text → Text → ℕ → Time → Tables × Option TableError
unfolding failure_row
note_failure s name msg failures next =
    if s.writes_certs
    then (
      record s {
        certificates =
            put name (failure_row name msg failures next (lookup name s.certificates))
              s.certificates;
      },
      none,
    )
    else (s, some write_failed)

abbrev pub named_order : Text → Option Order → Option Order
named_order name none = none
named_order name (some o) = some (record o { cert_name = name })

unfoldable pub get_order : Tables → Text → Result TableError (Option Order)
get_order s name =
    if s.reads_orders then ok (named_order name (lookup name s.orders)) else err read_failed

-- PutOrder; a nil order is `none`.
unfoldable pub put_order : Tables → Option Order → Tables × Option TableError
unfolding stored
put_order s none = (s, some nil_row)
put_order s (some o) =
    if s.writes_orders
    then (
      record s {
        orders = put o.cert_name (record o { expires_at = stored o.expires_at }) s.orders;
      },
      none,
    )
    else (s, some write_failed)

unfoldable pub delete_order : Tables → Text → Tables × Option TableError
delete_order s name =
    if s.writes_orders
    then (record s { orders = remove name s.orders }, none)
    else (s, some write_failed)

-- COALESCE(a, b)
abbrev pub coalesce : Option Text → Option Text → Option Text
coalesce none b = b
coalesce (some a) b = some a

-- The row of addRetiredCertExec, whose conflict clause leaves the name.
unfoldable pub retired_row :
    Text → Option Text → Option Text → Time → Option RetiredCert → RetiredCert
retired_row name cert key now none = record {
  cert_name = name;
  retired_at = now;
  cert_pem = cert;
  key_pem = key;
}
retired_row name cert key now (some r) = record r {
  retired_at = now;
  cert_pem = coalesce cert r.cert_pem;
  key_pem = coalesce key r.key_pem;
}

-- AddRetiredCert; `now` is the second of the clock.
unfoldable pub add_retired_cert :
    Tables → Text → Text → Option Text → Option Text → Time → Tables × Option TableError
unfolding retired_row
add_retired_cert s id name cert key now =
    if text_eq id []
    then (s, some empty_id)
    else if s.writes_retired
    then (
      record s { retired = put id (retired_row name cert key now (lookup id s.retired)) s.retired },
      none,
    )
    else (s, some write_failed)

-- The ids that ListRetiredCertsBefore lists.
unfoldable pub retired_before : Time → Assoc RetiredCert → List Text
retired_before cutoff [] = []
retired_before cutoff ((id, r) ∷ rs) =
    let rest = retired_before cutoff rs in if before r.retired_at cutoff then id ∷ rest else rest

unfoldable pub delete_retired_cert : Tables → Text → Tables × Option TableError
delete_retired_cert s id =
    if s.writes_retired
    then (record s { retired = remove id s.retired }, none)
    else (s, some write_failed)
