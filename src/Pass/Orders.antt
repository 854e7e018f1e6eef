-- ===== src/Pass/Orders.antt =====
-- What a pass of internal/acme/manager.go does with orders: it resumes the one in progress, and
-- advances none that is not on disk.
use wecert.Base.{◌≡◌, ◌⊎◌, true, false, Option, some, List, [], ◌∷◌, Text, ok, arith, refl, ap, ◌∙◌}
use wecert.Base.Time.{is_zero, before}
use wecert.CertStore.{CertState, Order, get_cert, get_order, found_or_new}
use wecert.Backoff.{honour_backoff}
use wecert.Fallback
use wecert.Fallback.{Round, apply_fallback, prune_fallback, act_on}
use wecert.FallbackStore.{get_fallback}
use wecert.Issue.{World, CertConfig, Machine, backing_off, advances}
use wecert.Pass.{
  round_of, order_matches_config, over, order_read, continue_or_drop_order, decide, with_fallback,
  proceed, pass_with, state_read, reconcile,
}

reconcile_read :
    (w : World) (s : Machine) (c : CertConfig) (found : Option CertState)
    → get_cert s.tables c.certificate.cert ≡ ok found
    → reconcile w s c
      ≡ pass_with w s c
          (found_or_new c.certificate.cert found)
          (round_of (get_fallback s.manager.store c.certificate.cert))
unfolding reconcile
reconcile_read w s c found e = ap (state_read w s c) e

-- The machine past the backoff.
abbrev pub past_backoff : Machine → CertState → Machine
past_backoff s st = record s { memory = (honour_backoff s.memory st s.manager.now).0 }

pub pass_refused :
    (w : World) (s : Machine) (c : CertConfig) (st : CertState) (rd : Round)
    → (honour_backoff s.memory st s.manager.now).1 ≡ true
    → pass_with w s c st rd ≡ (past_backoff s st, backing_off)
unfolding pass_with
pass_refused w s c st rd h = rw h refl

pub pass_proceeds :
    (w : World) (s : Machine) (c : CertConfig) (st : CertState) (rd : Round)
    → (honour_backoff s.memory st s.manager.now).1 ≡ false
    → pass_with w s c st rd ≡ proceed w st (with_fallback w (past_backoff s st) c st rd)
unfolding pass_with
pass_proceeds w s c st rd h = rw h refl

-- The machine, the certificate and the round of a pass past the fallback.
abbrev pub ordered : World → Machine → CertConfig → CertState → Round → Machine × CertConfig × Round
ordered w s c st rd = with_fallback w (past_backoff s st) c st rd

-- The order is one to go on with: for the names of the round, and not expired.
abbrev pub IsCurrent : Machine → CertConfig → Order → Type 0
IsCurrent s c o =
    (order_matches_config o c.certificate.domains ≡ true)
    × ((is_zero o.expires_at ≡ true) ⊎ (before s.manager.now o.expires_at ≡ true))

order_read_current :
    (w : World) (s : Machine) (c : CertConfig) (st : CertState) (rd : Round) (o : Order)
    → IsCurrent s c o
    → order_read w s c st rd (ok (some o)) ≡ over s (advances c.certificate.domains o rd)
unfolding order_read
order_read_current w s c st rd o (m, h) = ground (arith, m, h)

proceed_current :
    (w : World) (s : Machine) (c : CertConfig) (st : CertState) (rd : Round) (o : Order)
    → get_order s.tables c.certificate.cert ≡ ok (some o)
    → IsCurrent s c o
    → proceed w st (s, c, rd) ≡ (s, advances c.certificate.domains o rd)
unfolding proceed continue_or_drop_order
proceed_current w s c st rd o e h =
    ap (decide w c st rd) (ap (order_read w s c st rd) e ∙ order_read_current w s c st rd o h)

act_on_cert :
    (m : Fallback.Manager) (c : Fallback.Certificate) (rd : Round)
    (split : List Text × List Text × Text)
    → (act_on m c rd split).1.cert ≡ c.cert
unfolding act_on
act_on_cert m c rd (kept, [], reason) = refl
act_on_cert m c rd (kept, d ∷ ds, reason) = refl

module _ (w : World) (s : Machine) (c : CertConfig) (st : CertState) (rd : Round) where
  -- Degrading changes neither the tables, nor the name of the certificate, and calls nobody.
  pub ordered_cert : (ordered w s c st rd).1.certificate.cert ≡ c.certificate.cert
  unfolding with_fallback apply_fallback
  ordered_cert = act_on_cert _ c.certificate _ _

  pub ordered_tables : (ordered w s c st rd).0.tables ≡ s.tables
  unfolding with_fallback
  ordered_tables = refl

  pub ordered_calls : (ordered w s c st rd).0.calls ≡ s.calls
  unfolding with_fallback
  ordered_calls = refl

  ordered_now : (ordered w s c st rd).0.quota ≡ s.quota
  unfolding with_fallback
  ordered_now = refl

  -- What the order in progress says of the machine past the fallback.
  order_found :
      (o : Option Order)
      → get_order s.tables c.certificate.cert ≡ ok o
      → get_order (ordered w s c st rd).0.tables (ordered w s c st rd).1.certificate.cert ≡ ok o
  order_found o e = rw (ordered_tables, ordered_cert) e

-- While the order in progress has not expired and is for the names that the round would order, a pass
-- that is not backing off ends in advancing that order, for those names: it places no new one. This
-- is for a state and an order that can be read.
pub reconcile-IsCurrent :
    (w : World) (s : Machine) (c : CertConfig) (found : Option CertState) (o : Order)
    → get_cert s.tables c.certificate.cert ≡ ok found
    → (honour_backoff s.memory (found_or_new c.certificate.cert found) s.manager.now).1 ≡ false
    → get_order s.tables c.certificate.cert ≡ ok (some o)
    → IsCurrent
        (ordered w s c
          (found_or_new c.certificate.cert found)
          (round_of (get_fallback s.manager.store c.certificate.cert))).0
        (ordered w s c
          (found_or_new c.certificate.cert found)
          (round_of (get_fallback s.manager.store c.certificate.cert))).1
        o
    → ((reconcile w s c).1
        ≡ advances
            (ordered w s c
              (found_or_new c.certificate.cert found)
              (round_of (get_fallback s.manager.store c.certificate.cert))).1.certificate.domains
            o
            (ordered w s c
              (found_or_new c.certificate.cert found)
              (round_of (get_fallback s.manager.store c.certificate.cert))).2)
      × ((reconcile w s c).0.calls ≡ s.calls)
reconcile-IsCurrent w s c found o e h eo current =
    let st = found_or_new c.certificate.cert found in
    let rd = round_of (get_fallback s.manager.store c.certificate.cert) in
    let (s1, c1, rd1) = ordered w s c st rd in
    let whole : reconcile w s c ≡ (s1, advances c1.certificate.domains o rd1) =
      reconcile_read w s c found e
      ∙ pass_proceeds w s c st rd h
      ∙ proceed_current w s1 c1 st rd1 o (order_found w s c st rd (some o) eo) current in
    (ap (λ r. r.1) whole, ap (λ r. r.0.calls) whole ∙ ordered_calls w s c st rd)
