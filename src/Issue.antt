-- ===== src/Issue.antt =====
-- How internal/acme/manager_renew.go places a new order: the gates before it, the call and its retry,
-- and the row that is written before the order is advanced. What is outside the repository is a
-- `World`: the CA's answers, certificate and key formats, package time and the public suffix list.
pub mod Gates
pub mod Persisted
use wecert.Base.{
  ℕ, ◌+◌, ◌*◌, ◌/◌, ◌≡◌, Bool, true, false, not, ◌&&◌, ◌||◌, Option, none, some, if◌then◌else◌,
  List, [], ◌∷◌, Text, codes, text_eq, is_some, Result, ok, err,
}
use wecert.Base.Assoc.{Assoc}
use wecert.Base.Int.{pos}
use wecert.Base.Time.{Time, Duration, day}
use wecert.Ari.{Response}
use wecert.Backoff.{record_failure}
use wecert.CertStore.{CertState, Order, Tables, TableError, put_order}
use wecert.Cooldown.{Memory, cooling_down}
use wecert.Domain.{domain_key}
use wecert.Fallback
use wecert.Fallback.{Round}
use wecert.QuotaGate.{CaError, Check, note_new_order_refusal, blocked_by_recorded_deadline}
use wecert.RateLimit.{unit, new_orders_per_account}
use wecert.RateLimit.Tracker.{track_spend}
use wecert.RateStore

-- An order as the CA describes it.
pub record NewOrder : Type 0 where
  pub location : Text
  pub finalize : Text
  pub certificate : Text
  pub status : Text
  pub expires : Text

-- A call of NewOrder.
pub record Call : Type 0 where
  pub names : List Text
  pub profile : Text
  pub replaces : Text

-- What a failed pass reports.
pub data Failure : Type 0 where
  state_unreadable order_unreadable discard_failed decision_failed : Failure
  key_failed no_order_url order_unrecorded : Failure
  order_unfetched order_invalid poll_failed not_reached poll_cancelled : Failure
  order_key_unreadable csr_failed no_finalize_url csr_refused : Failure
  cooling : Text → Time → Failure
  locked_out : Time → Check → Failure
  order_refused : CaError → Failure

-- `place` is what the CA answers to a call after the calls so far, the latest first.
pub record World : Type 0 where
  pub place : List Call → Call → Result CaError NewOrder
  pub renewal_info : Text → Option Response
  pub bindings : Text → Option (ℕ × Bool)
  pub leaf_names : Text → Option (List Text)
  pub new_key : Option Text
  pub parse_time : Text → Text → Option Time
  pub parse_http : Text → Option Time
  pub public_suffix : Text → Text
  pub is_ipv6 : Text → Bool
  pub etld_plus_one : Text → Option Text
  pub hash : Text → ℕ × ℕ
  pub rfc3339 : Time → Text
  pub format_reason : ℕ → Duration → Text
  pub message : Failure → Text
  pub cancelled : Bool

-- The fields of config.Certificate that a pass reads.
pub record CertConfig : Type 0 where
  pub certificate : Fallback.Certificate
  pub profile : Text
  pub renew_before : Duration
  pub deploy_enabled : Bool

-- The Manager with its stores, and the calls of NewOrder that it has made.
pub record Machine : Type 0 where
  pub manager : Fallback.Manager
  pub memory : Memory
  pub binding_checked : Assoc Time
  pub quota : Option RateStore.Store
  pub tables : Tables
  pub calls : List Call

-- How a pass ends: by a failure, by the backoff, with nothing due, or by advancing an order for these
-- names.
pub data Outcome : Type 0 where
  failed : Failure → Outcome
  backing_off nothing_due : Outcome
  advances : List Text → Order → Round → Outcome

abbrev pub default_order_ttl : ℕ
default_order_ttl = 7 * day

-- parseOrderExpires
unfoldable pub parse_order_expires : (Text → Text → Option Time) → Text → Time → Time
parse_order_expires parse_time raw now =
    let nanos = elim (parse_time (codes "2006-01-02T15:04:05.999999999Z07:00") raw) as (λ x. Time) [
      | some t ↦ t
      | none ↦ now + default_order_ttl
    ] in
    if text_eq raw []
    then now + default_order_ttl
    else elim (parse_time (codes "2006-01-02T15:04:05Z07:00") raw) [ some t ↦ t | none ↦ nanos ]

-- return m.recordFailure(ctx, st, err)
unfoldable pub fail : World → Machine → CertState → Failure → Machine × Outcome
fail w s st f =
    let (t, m) = record_failure w.cancelled s.tables s.memory st (w.message f) s.manager.now in
    (record s { tables = t; memory = m }, failed f)

-- A call of NewOrder and its accounting: whether a refusal named a deadline.
unfoldable pub account_for :
    World → Machine → List Text → Result CaError NewOrder → Machine × Result CaError NewOrder × Bool
account_for w s names (ok o) = (
  record s {
    quota =
        track_spend s.quota new_orders_per_account [] (pos (unit new_orders_per_account))
          s.manager.now;
  },
  ok o,
  false,
)
account_for w s names (err e) =
    let (q, refused) =
      note_new_order_refusal w.parse_time w.parse_http w.public_suffix w.is_ipv6 w.etld_plus_one
        s.quota names e s.manager.now in
    (record s { quota = q }, err e, refused)

unfoldable pub place_order :
    World → Machine → CertConfig → Text → Machine × Result CaError NewOrder × Bool
unfolding account_for
place_order w s c replaces =
    let call : Call = record {
      names = c.certificate.domains;
      profile = c.profile;
      replaces = replaces;
    } in
    account_for w (record s { calls = call ∷ s.calls }) c.certificate.domains (w.place s.calls call)

-- Past the first call.
unfoldable pub retry_without :
    World
    → CertConfig
    → Text
    → Machine × Result CaError NewOrder × Bool
    → Machine × Result CaError NewOrder
retry_without w c replaces (s, ok o, refused) = (s, ok o)
retry_without w c replaces (s, err e, refused) =
    let (s', r, refused') = place_order w s c [] in
    if not (text_eq replaces []) && not refused then (s', r) else (s, err e)

unfoldable pub create_order_with_replaces_retry :
    World → Machine → CertConfig → Text → Machine × Result CaError NewOrder
unfolding place_order retry_without
create_order_with_replaces_retry w s c replaces =
    retry_without w c replaces (place_order w s c replaces)

-- The row of a new order.
unfoldable pub order_of : World → Machine → CertConfig → Text → NewOrder → Order
unfolding parse_order_expires
order_of w s c key o = record {
  cert_name = c.certificate.cert;
  order_url = o.location;
  finalize_url = o.finalize;
  cert_url = o.certificate;
  expires_at = parse_order_expires w.parse_time o.expires s.manager.now;
  status = o.status;
  key_pem = key;
  identifiers = domain_key c.certificate.domains;
  deployment_cert_id = [];
}

-- Once the row is written.
unfoldable pub start_order :
    World
    → Machine
    → CertConfig
    → CertState
    → Order
    → Round
    → Tables × Option TableError
    → Machine × Outcome
unfolding fail
start_order w s c st o rd (t, none) = (record s { tables = t }, advances c.certificate.domains o rd)
start_order w s c st o rd (t, some e) = fail w s st order_unrecorded

-- Past NewOrder.
unfoldable pub record_order :
    World
    → CertConfig
    → CertState
    → Text
    → Round
    → Machine × Result CaError NewOrder
    → Machine × Outcome
unfolding fail start_order order_of
record_order w c st key rd (s, err e) = fail w s st (order_refused e)
record_order w c st key rd (s, ok o) =
    let row = order_of w s c key o in
    if text_eq o.location []
    then fail w s st no_order_url
    else start_order w s c st row rd (put_order s.tables (some row))

-- Past both gates.
unfoldable pub order_with_key :
    World → Machine → CertConfig → CertState → Text → Round → Option Text → Machine × Outcome
unfolding fail record_order
order_with_key w s c st replaces rd none = fail w s st key_failed
order_with_key w s c st replaces rd (some key) =
    record_order w c st key rd (create_order_with_replaces_retry w s c replaces)

-- refuseWhileCALockedOut, and what follows.
unfoldable pub past_lockout :
    World
    → Machine
    → CertConfig
    → CertState
    → Text
    → Round
    → Option (Time × Check)
    → Machine × Outcome
unfolding fail order_with_key
past_lockout w s c st replaces rd (some (until, check)) = fail w s st (locked_out until check)
past_lockout w s c st replaces rd none = order_with_key w s c st replaces rd w.new_key

abbrev pub locked : World → Machine → CertConfig → Option (Time × Check)
locked w s c =
    blocked_by_recorded_deadline w.parse_time w.parse_http w.public_suffix w.is_ipv6 w.etld_plus_one
      s.quota c.certificate.domains s.manager.now

-- refuseWhileCoolingDown, and what follows.
unfoldable pub past_cooldown :
    World
    → CertConfig
    → CertState
    → Text
    → Round
    → Machine
    → Option (Text × Time)
    → Machine × Outcome
unfolding fail past_lockout
past_cooldown w c st replaces rd s (some (name, until)) = fail w s st (cooling name until)
past_cooldown w c st replaces rd s none = past_lockout w s c st replaces rd (locked w s c)

unfoldable pub issue : World → Machine → CertConfig → CertState → Text → Round → Machine × Outcome
unfolding past_cooldown
issue w s c st replaces rd =
    let (m, answer) =
      cooling_down (some s.manager.store) s.memory c.certificate.domains s.manager.now in
    past_cooldown w c st replaces rd (record s { memory = m }) answer
