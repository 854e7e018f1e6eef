-- ===== src/Pass.antt =====
-- Reconcile of internal/acme/manager.go: one pass over a certificate, up to the order that it advances.
-- It runs over the tables of CertStore, the ledger and the record of FallbackStore, and the maps in
-- memory. The clean-up of TXT records that it calls works on other tables and its errors are only
-- logged.
pub mod Orders
pub mod Durable
use wecert.Base.{
  ℕ, ◌+◌, ◌*◌, ◌≡◌, Bool, true, false, not, ◌&&◌, ◌||◌, Option, none, some, if◌then◌else◌, List, [],
  ◌∷◌, Text, text_eq, ◌==◌, ltb, leb, length, Result, ok, err, is_some,
}
use wecert.Base.Assoc.{Assoc, lookup, put, reject}
use wecert.Base.Int.{pos, leb_ℤ}
use wecert.Base.Time.{Time, is_zero, before, after, sub, minute, from_unix, to_unix}
use wecert.Backoff.{record_failure_unreadable, honour_backoff}
use wecert.CertStore.{
  CertState, Order, Tables, TableError, stored, found_or_new, get_cert, get_order, put_cert_exec,
  delete_order, add_retired_cert,
}
use wecert.Cooldown.{clear_order_fetch_failures, cooldown_map_limit}
use wecert.Domain.{domain_key}
use wecert.Fallback
use wecert.Fallback.{Round, apply_fallback, drift_is_the_degradation}
use wecert.FallbackStore
use wecert.FallbackStore.{StoreError, get_fallback}
use wecert.Issue.{
  World, CertConfig, Machine, Outcome, Failure, failed, backing_off, nothing_due, advances, fail,
  issue,
}
use wecert.Issue.{state_unreadable, order_unreadable, discard_failed, decision_failed}
use wecert.Renewal.{Decision, renewal_decision}

-- The round of a pass that has read whether a record is in force.
abbrev pub round_of : Result StoreError (Option FallbackStore.Fallback) → Round
round_of (err e) = record {
  degraded = false;
  full_set = false;
  fallback_unknown = true;
  fallback_active = false;
}
round_of (ok fb) = record {
  degraded = false;
  full_set = false;
  fallback_unknown = false;
  fallback_active = is_some fb;
}

-- orderMatchesConfig
unfoldable pub order_matches_config : Order → List Text → Bool
order_matches_config o domains =
    if text_eq o.identifiers [] then true else text_eq o.identifiers (domain_key domains)

-- The certificate that is deployed, where it can be read.
abbrev pub live_id : Result TableError (Option CertState) → Text
live_id (err e) = []
live_id (ok none) = []
live_id (ok (some st)) = st.deployed_cert_id

-- orphanToRecord without a promotion; an empty id is none.
unfoldable pub orphan_to_record : Tables → Text → Text
orphan_to_record t name = elim (get_order t name) [
  | err e ↦ []
  | ok found ↦ elim found [
    | none ↦ []
    | some o ↦
        if text_eq o.deployment_cert_id (live_id (get_cert t name))
        then []
        else o.deployment_cert_id
  ]
]

-- The second statement of the transaction, which rolls the first back where it fails.
abbrev pub then_delete : Tables → Text → Tables × Option TableError → Tables × Option TableError
then_delete before_tx name (t, some e) = (before_tx, some e)
then_delete before_tx name (t, none) = elim (delete_order t name).1 [
  | some e ↦ (before_tx, some e)
  | none ↦ ((delete_order t name).0, none)
]

-- The transaction of discardOrder.
unfoldable pub discard_tx : Tables → Text → Text → Time → Tables × Option TableError
discard_tx t name orphan now =
    then_delete t name
      (if text_eq orphan [] then (t, none) else add_retired_cert t orphan name none none now)

abbrev pub url_of : Result TableError (Option Order) → Text
url_of (err e) = []
url_of (ok none) = []
url_of (ok (some o)) = o.order_url

-- discardOrder, without the TXT records
unfoldable pub discard_order : Machine → Text → Machine × Option TableError
unfolding discard_tx orphan_to_record
discard_order s name =
    let url = url_of (get_order s.tables name) in
    let (t, e) = discard_tx s.tables name (orphan_to_record s.tables name) (stored s.manager.now) in
    (
      record s {
        tables = t;
        memory = if is_some e then s.memory else clear_order_fetch_failures s.memory url;
      },
      e,
    )

-- What an order in progress leads to: the pass is over, or goes on to decide.
pub data Progress : Type 0 where
  over : Machine → Outcome → Progress
  goes_on : Machine → Progress

unfoldable pub discarded : World → CertState → Machine × Option TableError → Progress
discarded w st (s, none) = goes_on s
discarded w st (s, some e) = let (s', r) = fail w s st discard_failed in over s' r

-- continueOrDropOrder, once the row is read.
unfoldable pub order_read :
    World → Machine → CertConfig → CertState → Round → Result TableError (Option Order) → Progress
unfolding discarded order_matches_config
order_read w s c st rd (err e) = let (s', r) = fail w s st order_unreadable in over s' r
order_read w s c st rd (ok none) = goes_on s
order_read w s c st rd (ok (some o)) =
    let drop = discarded w st (discard_order s c.certificate.cert) in
    if not (is_zero o.expires_at) && not (before s.manager.now o.expires_at)
    then drop
    else if not (order_matches_config o c.certificate.domains)
    then drop
    else over s (advances c.certificate.domains o rd)

unfoldable pub continue_or_drop_order : World → Machine → CertConfig → CertState → Round → Progress
unfolding order_read
continue_or_drop_order w s c st rd = order_read w s c st rd (get_order s.tables c.certificate.cert)

abbrev pub binding_check_every : ℕ
binding_check_every = 10 * minute

unfoldable pub binding_check_ready : Assoc Time → Text → Time → Bool
binding_check_ready m name now = elim (lookup name m) [
  | none ↦ true
  | some last ↦ after last now || leb_ℤ (pos binding_check_every) (sub now last)
]

unfoldable pub binding_note_attempt : Assoc Time → Text → Time → Assoc Time
binding_note_attempt m name now =
    let noted = put name now m in
    if leb cooldown_map_limit (length noted)
    then reject (λ at. leb_ℤ (pos binding_check_every) (sub now at)) noted
    else noted

-- confirmBinding, once the lookup has answered.
unfoldable pub confirm_binding : Machine → CertState → Option (ℕ × Bool) → Machine × CertState
confirm_binding s st none = (s, st)
confirm_binding s st (some (n, complete)) =
    let st' = record st { deploy_confirmed = true } in
    if n == 0 then (s, st) else (record s { tables = (put_cert_exec s.tables st').0 }, st')

unfoldable pub confirm_binding_if_due :
    World → Machine → CertConfig → CertState → Machine × CertState
unfolding binding_check_ready binding_note_attempt confirm_binding
confirm_binding_if_due w s c st =
    let name = c.certificate.cert in
    let s' = record s {
      binding_checked = binding_note_attempt s.binding_checked name s.manager.now;
    } in
    let asked = confirm_binding s' st (w.bindings st.deployed_cert_id) in
    if c.deploy_enabled
      && not (text_eq st.deployed_cert_id [])
      && not st.deploy_confirmed
      && binding_check_ready s.binding_checked name s.manager.now
    then asked
    else (s, st)

-- CoverageDrift of internal/acme/keys.go, without its text.
unfoldable pub coverage_drift : List Text → List Text → Bool
coverage_drift leaf want = not (text_eq (domain_key leaf) (domain_key want))

-- Whether reissueOnSANDrift reissues.
unfoldable pub reissues : World → Machine → CertConfig → CertState → Round → Bool
unfolding coverage_drift
reissues w s c st rd = elim (w.leaf_names st.cert_pem) [
  | none ↦ false
  | some leaf ↦
      coverage_drift leaf c.certificate.domains
      && not rd.fallback_unknown
      && not (
          rd.fallback_active
          && drift_is_the_degradation leaf c.certificate s.manager.store c.certificate.cert)
]

-- renewIfDue, once it is decided.
unfoldable pub renew_at_decision :
    World → Machine → CertConfig → Round → Decision → Machine × Outcome
renew_at_decision w s c rd d =
    let s' = record s { tables = d.tables } in
    if d.erred && is_zero d.renew_at
    then fail w s' d.st decision_failed
    else if before s.manager.now d.renew_at
    then (s', nothing_due)
    else issue w s' c d.st d.replaces rd

unfoldable pub renew_if_due : World → Machine → CertConfig → CertState → Round → Machine × Outcome
unfolding renew_at_decision
renew_if_due w s c st rd = renew_at_decision w s c rd (renewal_decision w s c st)

-- With a certificate in effect.
unfoldable pub reissue_or_renew :
    World → CertConfig → Round → Machine × CertState → Machine × Outcome
unfolding renew_if_due reissues
reissue_or_renew w c rd (s, st) =
    if reissues w s c st rd then issue w s c st st.ari_cert_id rd else renew_if_due w s c st rd

-- Past the order in progress.
unfoldable pub decide : World → CertConfig → CertState → Round → Progress → Machine × Outcome
unfolding reissue_or_renew confirm_binding_if_due
decide w c st rd (over s r) = (s, r)
decide w c st rd (goes_on s) =
    if is_zero st.not_after
    then issue w s c st [] rd
    else reissue_or_renew w c rd (confirm_binding_if_due w s c st)

-- The certificate with the names of this round, and the round.
unfoldable pub with_fallback :
    World → Machine → CertConfig → CertState → Round → Machine × CertConfig × Round
with_fallback w s c st rd =
    let (m, cert, rd') =
      apply_fallback w.format_reason s.manager c.certificate
        (record { not_after = st.not_after; consecutive_failures = st.consecutive_failures }) rd in
    (
      record s { manager = m },
      record c { certificate = cert },
      if length cert.domains == length c.certificate.domains
          then record rd' { full_set = true }
          else rd',
    )

-- Past the backoff.
unfoldable pub proceed : World → CertState → Machine × CertConfig × Round → Machine × Outcome
unfolding decide
proceed w st (s, c, rd) = decide w c st rd (continue_or_drop_order w s c st rd)

-- Past loadRound.
unfoldable pub pass_with : World → Machine → CertConfig → CertState → Round → Machine × Outcome
unfolding proceed with_fallback
pass_with w s c st rd =
    let (m, refused) = honour_backoff s.memory st s.manager.now in
    let s' = record s { memory = m } in
    if refused then (s', backing_off) else proceed w st (with_fallback w s' c st rd)

-- loadRound, and what follows.
unfoldable pub state_read :
    World → Machine → CertConfig → Result TableError (Option CertState) → Machine × Outcome
unfolding pass_with
state_read w s c (err e) =
    let (t, m) =
      record_failure_unreadable w.cancelled s.tables s.memory c.certificate.cert
        (w.message state_unreadable) s.manager.now in
    (record s { tables = t; memory = m }, failed state_unreadable)
state_read w s c (ok found) =
    pass_with w s c (found_or_new c.certificate.cert found)
      (round_of (get_fallback s.manager.store c.certificate.cert))

unfoldable pub reconcile : World → Machine → CertConfig → Machine × Outcome
unfolding state_read
reconcile w s c = state_read w s c (get_cert s.tables c.certificate.cert)
