-- ===== src/Renewal/Window.antt =====
-- How often internal/acme/manager_renew.go asks a CA for the renewal window of a certificate.
use wecert.Base.{
  ◌+◌, ◌*◌, ◌/◌, ◌≤◌, ◌≡◌, Bool, true, false, not, ◌&&◌, ◌||◌, Option, none, some, [], text_eq,
  text_eq_iff, ok, arith, refl, ap, ◌∙◌,
}
use wecert.Base.Int.{pos, negsuc, pos_part, neg_part}
use wecert.Base.Time.{Time, Duration, is_zero, before, add, minute, hour, second, unix_epoch}
use wecert.Ari.{RenewalInfo, FetchError, fetch_renewal_info}
use wecert.CertStore.{
  CertState, Tables, TableError, stored, get_cert, cert_row, put_cert, put_cert_exec,
}
use wecert.CertStore.Rows.{stored_lem, get-put_cert}
use wecert.Base.Assoc.{lookup}
use wecert.Issue.{World, Machine, CertConfig}
use wecert.Renewal.{ari_wait, ari_check_due, with_answer, scheduled, store_answer, renewal_decision}

ari_wait_bounds :
    (asked : Duration)
    → (neg_part (ari_wait asked) ≡ 0)
      × (minute ≤ pos_part (ari_wait asked))
      × (pos_part (ari_wait asked) ≤ 24 * hour)
unfolding ari_wait
ari_wait_bounds (pos n) = ground arith
ari_wait_bounds (negsuc n) = ground arith

-- What an answer leaves of a state.
with_answer_lem :
    (st : CertState) (now : Time) (answer : Option RenewalInfo × Duration × Option FetchError)
    → ((with_answer st now answer).0.ari_checked_at ≡ now)
      × ((with_answer st now answer).0.name ≡ st.name)
unfolding with_answer
with_answer_lem st now (info, wait, some e) = (refl, refl)
with_answer_lem st now (none, wait, none) = (refl, refl)
with_answer_lem st now (some info, wait, none) = (refl, refl)

tables-store_answer :
    (w : World) (c : CertConfig) (st : CertState) (erred : Bool) (r : Tables × Option TableError)
    → (store_answer w c st erred r).tables ≡ r.0
unfolding store_answer scheduled
tables-store_answer w c st erred (t, none) = refl
tables-store_answer w c st erred (t, some e) = refl

-- When the CA is asked again, of a state that it was asked for at `now`.
due_after :
    (st : CertState) (now t : Time)
    → st.ari_checked_at ≡ now
    → is_zero now ≡ false
    → ((before t (now + minute) && ari_check_due st t) ≡ false)
      × ((before t (now + 24 * hour) || ari_check_due st t) ≡ true)
unfolding ari_check_due add
due_after st now t e nz =
    let b = ari_wait_bounds st.ari_retry_after in
    (ground (arith, e, nz, b), ground (arith, e, nz, b))

stored_modern :
    (t : Time)
    → (unix_epoch + 1) * second ≤ t
    → (stored t ≡ t / second * second) × (is_zero (t / second * second) ≡ false)
stored_modern t h = (ground (arith, stored_lem t), ground arith)

module _ (w : World) (s : Machine) (c : CertConfig) (st : CertState) (live : w.cancelled ≡ false)
    (has_id : text_eq st.ari_cert_id [] ≡ false)
    (valid : (not (is_zero st.not_after) && not (before s.manager.now st.not_after)) ≡ false)
    (due : ari_check_due st s.manager.now ≡ true) where
  -- The state with the answer.
  abbrev answered : CertState
  answered = (with_answer st s.manager.now (fetch_renewal_info (w.renewal_info st.ari_cert_id))).0

  asked_for : (renewal_decision w s c st).tables ≡ (put_cert s.tables (some answered)).0
  unfolding renewal_decision put_cert
  asked_for =
      rw (live, has_id, valid, due)
        (tables-store_answer w c answered
          (with_answer st s.manager.now (fetch_renewal_info (w.renewal_info st.ari_cert_id))).1
          (put_cert_exec s.tables answered))

  abbrev row : CertState
  row = cert_row answered (lookup answered.name s.tables.certificates)

  read_back :
      s.tables.reads_certs ≡ true
      → s.tables.writes_certs ≡ true
      → get_cert (renewal_decision w s c st).tables st.name ≡ ok (some row)
  read_back r q = ground (
    arith,
    ap (λ t. get_cert t st.name) asked_for,
    get-put_cert s.tables answered st.name r q,
    text_eq_iff answered.name st.name,
    (with_answer_lem st s.manager.now (fetch_renewal_info (w.renewal_info st.ari_cert_id))).1,
  )

  -- Once a pass has asked a CA for the renewal window, whatever it answered, the row that the next pass
  -- reads has the next query due neither within a minute of the second of the query nor later than
  -- after a day, whatever wait the CA asked for. This is for a pass that is not cancelled, a certificate
  -- with a certID that has not expired and for which a query is due, a database that answers and a
  -- clock after 1970.
  pub ari_check_due-renewal_decision :
      (t : Time)
      → s.tables.reads_certs ≡ true
      → s.tables.writes_certs ≡ true
      → (unix_epoch + 1) * second ≤ s.manager.now
      → (r : CertState) × (get_cert (renewal_decision w s c st).tables st.name ≡ ok (some r))
        × ((before t (s.manager.now / second * second + minute) && ari_check_due r t) ≡ false)
        × ((before t (s.manager.now + 24 * hour) || ari_check_due r t) ≡ true)
  unfolding cert_row
  ari_check_due-renewal_decision t reads writes modern =
      let at = s.manager.now / second * second in
      let k = stored_modern s.manager.now modern in
      let checked : row.ari_checked_at ≡ at =
        ap stored
          (with_answer_lem st s.manager.now (fetch_renewal_info (w.renewal_info st.ari_cert_id))).0
        ∙ k.0 in
      let b = due_after row at t checked k.1 in
      (row, read_back reads writes, b.0, ground (arith, b.1))
