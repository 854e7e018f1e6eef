-- ===== src/Pass/Durable.antt =====
-- A pass of internal/acme/manager.go advances no order that is not on disk.
use mathlib.Core.Path.{subst}
use wecert.Base.{
  ◌≡◌, Bool, true, false, not, ◌&&◌, Option, none, some, if◌then◌else◌, List, [], inl, inr, Text,
  Result, ok, err, arith, refl, sym, Bool-cases, ℕ, ◌==◌,
}
use wecert.Base.Time.{Time, is_zero, before}
use wecert.CertStore.{
  CertState, Order, Tables, TableError, read_failed, get_cert, get_order, put_cert_exec,
  found_or_new, delete_order, add_retired_cert, stored,
}
use wecert.Backoff.{honour_backoff}
use wecert.Fallback.{Round}
use wecert.FallbackStore.{get_fallback}
use wecert.Issue.{World, CertConfig, Machine, Outcome, advances, fail}
use wecert.Issue.{order_unreadable, discard_failed, decision_failed}
use wecert.Issue.Persisted.{OnDisk, Persisted, Persisted-fail, Persisted-issue}
use wecert.Renewal.{Decision, renewal_decision, scheduled, store_answer, with_answer}
use wecert.Ari.{fetch_renewal_info}
use wecert.Pass.{
  round_of, then_delete, discard_tx, orphan_to_record, discard_order, discarded, Progress, over,
  goes_on, order_read, continue_or_drop_order, confirm_binding, binding_note_attempt,
  confirm_binding_if_due, renew_at_decision, renew_if_due, reissues, reissue_or_renew, decide,
  proceed, pass_with, state_read, reconcile, order_matches_config,
}
use wecert.Pass.Orders.{ordered, ordered_cert, pass_refused, pass_proceeds}

abbrev Readable : Tables → Type 0
Readable t = t.reads_orders ≡ true

put_cert_exec-Readable :
    (t : Tables) (st : CertState) → Readable t → Readable (put_cert_exec t st).0
unfolding put_cert_exec
put_cert_exec-Readable t st r = ground arith

then_delete-Readable :
    (t : Tables) (name : Text) (u : Tables × Option TableError)
    → Readable t
    → Readable u.0
    → Readable (then_delete t name u).0
unfolding delete_order
then_delete-Readable t name (u, some e) r h = r
then_delete-Readable t name (u, none) r h = ground arith

discard_tx-Readable :
    (t : Tables) (name orphan : Text) (now : Time)
    → Readable t
    → Readable (discard_tx t name orphan now).0
unfolding discard_tx add_retired_cert
discard_tx-Readable t name orphan now r = then_delete-Readable t name _ r (ground arith)

discard_order-Readable :
    (s : Machine) (name : Text) → Readable s.tables → Readable (discard_order s name).0.tables
unfolding discard_order
discard_order-Readable s name r =
    discard_tx-Readable s.tables name (orphan_to_record s.tables name) (stored s.manager.now) r

confirm_binding-Readable :
    (s : Machine) (st : CertState) (answer : Option (ℕ × Bool))
    → Readable s.tables
    → Readable (confirm_binding s st answer).0.tables
unfolding confirm_binding
confirm_binding-Readable s st none r = r
confirm_binding-Readable s st (some (n, complete)) r = elim (Bool-cases (n == 0)) [
  | inl e ↦ rw e r
  | inr e ↦ rw e (put_cert_exec-Readable s.tables (record st { deploy_confirmed = true }) r)
]

confirm_binding_if_due-Readable :
    (w : World) (s : Machine) (c : CertConfig) (st : CertState)
    → Readable s.tables
    → Readable (confirm_binding_if_due w s c st).0.tables
unfolding confirm_binding_if_due
confirm_binding_if_due-Readable w s c st r = by_test _
  where
    by_test :
        (due : Bool)
        → Readable
            (if due
              then confirm_binding
                  (record s {
                    binding_checked =
                        binding_note_attempt s.binding_checked c.certificate.cert s.manager.now;
                  })
                  st
                  (w.bindings st.deployed_cert_id)
              else (s, st)).0.tables
    by_test true =
        confirm_binding-Readable
          (record s {
            binding_checked =
                binding_note_attempt s.binding_checked c.certificate.cert s.manager.now;
          })
          st (w.bindings st.deployed_cert_id) r
    by_test false = r

store_answer-Readable :
    (w : World) (c : CertConfig) (st : CertState) (erred : Bool) (u : Tables × Option TableError)
    → Readable u.0
    → Readable (store_answer w c st erred u).tables
unfolding store_answer scheduled
store_answer-Readable w c st erred (t, none) r = r
store_answer-Readable w c st erred (t, some e) r = r

renewal_decision-Readable :
    (w : World) (s : Machine) (c : CertConfig) (st : CertState)
    → Readable s.tables
    → Readable (renewal_decision w s c st).tables
unfolding renewal_decision scheduled
renewal_decision-Readable w s c st r =
    let answered =
      with_answer st s.manager.now (fetch_renewal_info (w.renewal_info st.ari_cert_id)) in
    ground (
      arith,
      store_answer-Readable w c answered.0 answered.1 (put_cert_exec s.tables answered.0),
      put_cert_exec-Readable s.tables answered.0,
    )

-- What is left of the order in progress for the rest of the pass.
abbrev IsSound : Text → Progress → Type 0
IsSound name (over s r) = Persisted name (s, r)
IsSound name (goes_on s) = Readable s.tables

over_with : (name : Text) (r : Machine × Outcome) → Persisted name r → IsSound name (over r.0 r.1)
over_with name (s, r) h = h

module _ (w : World) (c : CertConfig) (st : CertState) (rd : Round) where
  abbrev name : Text
  name = c.certificate.cert

  IsSound-discarded :
      (r : Machine × Option TableError) → Readable r.0.tables → IsSound name (discarded w st r)
  unfolding discarded
  IsSound-discarded (s, none) h = h
  IsSound-discarded (s, some e) h =
      over_with name (fail w s st discard_failed) (Persisted-fail name w s st discard_failed)

  IsSound-order_read :
      (s : Machine) (r : Result TableError (Option Order))
      → Readable s.tables
      → get_order s.tables name ≡ r
      → IsSound name (order_read w s c st rd r)
  unfolding order_read
  IsSound-order_read s (err e) reads eq =
      over_with name (fail w s st order_unreadable) (Persisted-fail name w s st order_unreadable)
  IsSound-order_read s (ok none) reads eq = reads
  IsSound-order_read s (ok (some o)) reads eq =
      let dropped : IsSound name (discarded w st (discard_order s name)) =
        IsSound-discarded (discard_order s name) (discard_order-Readable s name reads) in
      elim (Bool-cases (not (is_zero o.expires_at) && not (before s.manager.now o.expires_at))) [
        | inl expired ↦ rw expired dropped
        | inr alive ↦
            rw alive (elim (Bool-cases (not (order_matches_config o c.certificate.domains))) [
              | inl changed ↦ rw changed dropped
              | inr same ↦ rw same (o, eq, refl, refl, refl)
            ])
      ]

  Persisted-renew_at_decision :
      (s : Machine) (d : Decision)
      → Readable d.tables
      → Persisted name (renew_at_decision w s c rd d)
  unfolding renew_at_decision
  Persisted-renew_at_decision s d reads = elim (Bool-cases (d.erred && is_zero d.renew_at)) [
    | inl bad ↦
        simp bad (Persisted-fail name w (record s { tables = d.tables }) d.st decision_failed)
    | inr fine ↦ simp fine (elim (Bool-cases (before s.manager.now d.renew_at)) [
      | inl early ↦ simp early tt
      | inr due ↦
          simp due (Persisted-issue w c d.st rd (record s { tables = d.tables }) d.replaces reads)
    ])
  ]

  Persisted-reissue_or_renew :
      (r : Machine × CertState) → Readable r.0.tables → Persisted name (reissue_or_renew w c rd r)
  unfolding reissue_or_renew renew_if_due
  Persisted-reissue_or_renew (s, st') reads = elim (Bool-cases (reissues w s c st' rd)) [
    | inl drifted ↦ rw drifted (Persisted-issue w c st' rd s st'.ari_cert_id reads)
    | inr settled ↦ rw settled (
        Persisted-renew_at_decision s (renewal_decision w s c st')
          (renewal_decision-Readable w s c st' reads))
  ]

  Persisted-decide : (p : Progress) → IsSound name p → Persisted name (decide w c st rd p)
  unfolding decide
  Persisted-decide (over s r) h = h
  Persisted-decide (goes_on s) reads = elim (Bool-cases (is_zero st.not_after)) [
    | inl first ↦ rw first (Persisted-issue w c st rd s [] reads)
    | inr issued ↦ rw issued (
        Persisted-reissue_or_renew (confirm_binding_if_due w s c st)
          (confirm_binding_if_due-Readable w s c st reads))
  ]

get_order_unreadable :
    (t : Tables) (n : Text) → t.reads_orders ≡ false → get_order t n ≡ err read_failed
unfolding get_order
get_order_unreadable t n r = rw r refl

IsSound-continue_or_drop_order :
    (w : World) (s : Machine) (c : CertConfig) (st : CertState) (rd : Round)
    → IsSound c.certificate.cert (continue_or_drop_order w s c st rd)
unfolding continue_or_drop_order
IsSound-continue_or_drop_order w s c st rd = elim (Bool-cases s.tables.reads_orders) [
  | inl reads ↦ IsSound-order_read w c st rd s (get_order s.tables c.certificate.cert) reads refl
  | inr fails ↦
      subst (λ r. IsSound c.certificate.cert (order_read w s c st rd r))
        (sym (get_order_unreadable s.tables c.certificate.cert fails))
        (over_with c.certificate.cert (fail w s st order_unreadable)
          (Persisted-fail c.certificate.cert w s st order_unreadable))
]

Persisted-proceed :
    (w : World) (st : CertState) (s : Machine) (c : CertConfig) (rd : Round)
    → Persisted c.certificate.cert (proceed w st (s, c, rd))
unfolding proceed
Persisted-proceed w st s c rd =
    Persisted-decide w c st rd (continue_or_drop_order w s c st rd)
      (IsSound-continue_or_drop_order w s c st rd)

Persisted-pass_with :
    (w : World) (s : Machine) (c : CertConfig) (st : CertState) (rd : Round)
    → Persisted c.certificate.cert (pass_with w s c st rd)
Persisted-pass_with w s c st rd = elim (Bool-cases (honour_backoff s.memory st s.manager.now).1) [
  | inl refused ↦ rw (pass_refused w s c st rd refused) tt
  | inr free ↦
      let (s1, c1, rd1) = ordered w s c st rd in
      rw (pass_proceeds w s c st rd free) (
        subst (λ n. Persisted n (proceed w st (s1, c1, rd1))) (ordered_cert w s c st rd)
          (Persisted-proceed w st s1 c1 rd1))
]

Persisted-state_read :
    (w : World) (s : Machine) (c : CertConfig) (r : Result TableError (Option CertState))
    → Persisted c.certificate.cert (state_read w s c r)
unfolding state_read
Persisted-state_read w s c (err e) = tt
Persisted-state_read w s c (ok found) =
    Persisted-pass_with w s c (found_or_new c.certificate.cert found)
      (round_of (get_fallback s.manager.store c.certificate.cert))

-- An order that a pass advances is on disk first, under the name of the certificate, with its URL, its
-- key and the names that it is for: whatever the pass found, whichever tables answer, and whether the
-- order was placed in this pass or an earlier one.
pub Persisted-reconcile :
    (w : World) (s : Machine) (c : CertConfig) (s' : Machine) (ds : List Text) (o : Order)
    (rd : Round)
    → reconcile w s c ≡ (s', advances ds o rd)
    → OnDisk c.certificate.cert o s'.tables
unfolding reconcile
Persisted-reconcile w s c s' ds o rd e =
    subst (Persisted c.certificate.cert) e
      (Persisted-state_read w s c (get_cert s.tables c.certificate.cert))
