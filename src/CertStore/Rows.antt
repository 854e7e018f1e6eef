-- ===== src/CertStore/Rows.antt =====
-- What the rows of internal/state/certs.go, orders.go and retired.go read back as.
use wecert.Base.{
  ◌*◌, ◌/◌, ◌≡◌, true, some, if◌then◌else◌, Text, text_eq, text_eq_iff, ok, arith, ◌==◌,
}
use wecert.Base.Assoc.{lookup, lookup-put}
use wecert.Base.Time.{Time, second, unix_epoch, from_unix-to_unix}
use wecert.CertStore.{
  CertState, Order, Tables, stored, get_cert, cert_row, put_cert, get_order, put_order,
}

pub stored_lem :
    (t : Time) → stored t ≡ (if t / second == unix_epoch then 0 else t / second * second)
unfolding stored
stored_lem t = from_unix-to_unix t

-- A state that is put is read back under its name, its instants to the second and its error text cut,
-- but for the mark of a teardown, which stays that of the row that was there; every other
-- certificate reads as before. This is for a table that answers.
pub get-put_cert :
    (s : Tables) (c : CertState) (name : Text)
    → s.reads_certs ≡ true
    → s.writes_certs ≡ true
    → get_cert (put_cert s (some c)).0 name ≡ (
        if text_eq c.name name
        then ok (some (cert_row c (lookup c.name s.certificates)))
        else get_cert s name)
unfolding get_cert put_cert
get-put_cert s c name r w = ground (
  arith,
  r,
  w,
  text_eq_iff c.name name,
  lookup-put c.name name (cert_row c (lookup c.name s.certificates)) s.certificates,
)

pub get-put_order :
    (s : Tables) (o : Order) (name : Text)
    → s.reads_orders ≡ true
    → s.writes_orders ≡ true
    → get_order (put_order s (some o)).0 name ≡ (
        if text_eq o.cert_name name
        then ok (some (record o { expires_at = stored o.expires_at }))
        else get_order s name)
unfolding get_order put_order
get-put_order s o name r w = ground (
  arith,
  r,
  w,
  text_eq_iff o.cert_name name,
  lookup-put o.cert_name name (record o { expires_at = stored o.expires_at }) s.orders,
)
