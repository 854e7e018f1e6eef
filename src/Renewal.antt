-- ===== src/Renewal.antt =====
-- When internal/acme/manager_renew.go renews: renewalDecision asks the CA for the renewal window where
-- that is due and stores the answer, and falls back to a time before the expiry.
pub mod Window
use wecert.Base.{
  ℕ, suc, ◌+◌, ◌-◌, ◌*◌, ◌/◌, ◌≡◌, Bool, true, false, not, ◌&&◌, ◌||◌, Option, none, some,
  if◌then◌else◌, Text, [], text_eq, ◌==◌,
}
use wecert.Base.Int.{ℤ, pos, negsuc, sub_ℕ, ◌-ℤ◌, ltb_ℤ}
use wecert.Base.Time.{Time, Duration, is_zero, before, after, add, minute, hour}
use wecert.Ari.{
  RenewalInfo, FetchError, long_term, fetch_renewal_info, renewal_time, deterministic_time,
}
use wecert.CertStore.{CertState, Tables, TableError, put_cert_exec}
use wecert.Issue.{World, Machine, CertConfig}

abbrev pub ari_interval : Duration
ari_interval = pos (6 * hour)

-- The interval of ariCheckDue: the server's, or our own, within a minute and a day.
unfoldable pub ari_wait : Duration → Duration
ari_wait asked =
    let wait = if ltb_ℤ (pos 0) asked then asked else ari_interval in
    let wait' = if ltb_ℤ wait (pos minute) then pos minute else wait in
    if ltb_ℤ (pos (24 * hour)) wait' then pos (24 * hour) else wait'

unfoldable pub ari_check_due : CertState → Time → Bool
unfolding ari_wait
ari_check_due st now =
    if is_zero st.ari_checked_at
    then true
    else not (before now (add st.ari_checked_at (ari_wait st.ari_retry_after)))

-- The wait that is kept after an answer without a window.
abbrev pub kept_wait : FetchError → Duration → Duration
kept_wait FetchError.long_term wait = pos 0
kept_wait _ wait = wait

-- The state with the answer, and whether there was an error.
unfoldable pub with_answer :
    CertState → Time → Option RenewalInfo × Duration × Option FetchError → CertState × Bool
with_answer st now (info, wait, some e) =
    (record st { ari_checked_at = now; ari_retry_after = kept_wait e wait }, true)
with_answer st now (none, wait, none) =
    (record st { ari_checked_at = now; ari_retry_after = wait }, false)
with_answer st now (some info, wait, none) = (
  record st {
    ari_window_start = info.start;
    ari_window_end = info.end;
    ari_checked_at = now;
    ari_retry_after = wait;
  },
  false,
)

-- What a decision leaves: the tables, the state, the instant (zero where there is none), the certID to
-- replace, and whether there was an error.
pub record Decision : Type 0 where
  pub tables : Tables
  pub st : CertState
  pub renew_at : Time
  pub replaces : Text
  pub erred : Bool

-- RenewBeforeDur/8, which rounds towards zero.
abbrev pub eighth : Duration → Duration
eighth (pos n) = pos (n / 8)
eighth (negsuc n) = sub_ℕ 0 (suc n / 8)

-- Past the query.
unfoldable pub scheduled : World → CertConfig → Tables → CertState → Bool → Decision
scheduled w c t st erred =
    let name = c.certificate.cert in
    record {
      tables = t;
      st = st;
      renew_at =
          if not (is_zero st.ari_window_start) && after st.ari_window_end st.ari_window_start
          then renewal_time w.hash w.rfc3339 name st.ari_window_start st.ari_window_end
          else deterministic_time w.hash w.rfc3339 name (add st.not_after (pos 0 -ℤ c.renew_before))
              (eighth c.renew_before);
      replaces = st.ari_cert_id;
      erred = erred;
    }

abbrev pub undecided : Tables → CertState → Decision
undecided t st = record { tables = t; st = st; renew_at = 0; replaces = []; erred = true }

-- Once the answer is to be stored.
unfoldable pub store_answer :
    World → CertConfig → CertState → Bool → Tables × Option TableError → Decision
unfolding scheduled
store_answer w c st erred (t, none) = scheduled w c t st erred
store_answer w c st erred (t, some e) = undecided t st

unfoldable pub renewal_decision : World → Machine → CertConfig → CertState → Decision
unfolding store_answer with_answer ari_check_due
renewal_decision w s c st =
    let now = s.manager.now in
    let expired = not (is_zero st.not_after) && not (before now st.not_after) in
    let (st', erred) = with_answer st now (fetch_renewal_info (w.renewal_info st.ari_cert_id)) in
    let asked = store_answer w c st' erred (put_cert_exec s.tables st') in
    if w.cancelled
    then undecided s.tables st
    else if not (text_eq st.ari_cert_id []) && not expired && ari_check_due st now
    then asked
    else scheduled w c s.tables st false
