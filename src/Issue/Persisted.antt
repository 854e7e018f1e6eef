-- ===== src/Issue/Persisted.antt =====
-- The order that internal/acme/manager_renew.go advances is on disk first.
use wecert.Base.{
  ◌≡◌, inl, inr, Bool, true, not, ◌&&◌, Option, none, some, List, [], Text, text_eq, text_eq_refl,
  Result, ok, err, arith, refl, ap, ◌∙◌, Bool-cases,
}
use wecert.Base.Time.{Time}
use wecert.CertStore.{CertState, Order, Tables, TableError, get_order, put_order, stored}
use wecert.CertStore.Rows.{get-put_order}
use wecert.Cooldown.{cooling_down}
use wecert.Fallback.{Round}
use wecert.QuotaGate.{CaError, Check}
use wecert.Issue.{
  World, CertConfig, Machine, Outcome, Failure, failed, backing_off, nothing_due, advances,
  NewOrder, fail, account_for, place_order, retry_without, create_order_with_replaces_retry,
  order_of, start_order, record_order, order_with_key, past_lockout, locked, past_cooldown, issue,
  order_unrecorded, order_refused, no_order_url, key_failed, locked_out, cooling,
}

-- The order is on disk, with its key and the names that it is for.
abbrev pub OnDisk : Text → Order → Tables → Type 0
OnDisk name o t =
    (o' : Order) × (get_order t name ≡ ok (some o'))
    × (o'.order_url ≡ o.order_url)
    × (o'.key_pem ≡ o.key_pem)
    × (o'.identifiers ≡ o.identifiers)

-- An order that is advanced is on disk.
abbrev pub Persisted : Text → Machine × Outcome → Type 0
Persisted name (s, failed f) = Unit
Persisted name (s, backing_off) = Unit
Persisted name (s, nothing_due) = Unit
Persisted name (s, advances ds o rd) = OnDisk name o s.tables

pub Persisted-fail :
    (name : Text) (w : World) (s : Machine) (st : CertState) (f : Failure)
    → Persisted name (fail w s st f)
unfolding fail
Persisted-fail name w s st f = tt

put_order-writes :
    (t : Tables) (o : Order) → (put_order t (some o)).1 ≡ none → t.writes_orders ≡ true
unfolding put_order
put_order-writes t o h = ground arith

OnDisk-put_order :
    (t : Tables) (o : Order) (name : Text)
    → t.reads_orders ≡ true
    → o.cert_name ≡ name
    → (put_order t (some o)).1 ≡ none
    → OnDisk name o (put_order t (some o)).0
OnDisk-put_order t o name r e done = (
  record o { expires_at = stored o.expires_at },
  get-put_order t o name r (put_order-writes t o done) ∙ rw (e, text_eq_refl name) refl,
  refl,
  refl,
  refl,
)

module _ (w : World) (c : CertConfig) (st : CertState) (rd : Round) where
  Persisted-start_order :
      (s : Machine) (o : Order) (r : Tables × Option TableError)
      → (r.1 ≡ none → OnDisk c.certificate.cert o r.0)
      → Persisted c.certificate.cert (start_order w s c st o rd r)
  unfolding start_order
  Persisted-start_order s o (t, none) h = h refl
  Persisted-start_order s o (t, some e) h =
      Persisted-fail c.certificate.cert w s st order_unrecorded

  Persisted-record_order :
      (key : Text) (s : Machine) (r : Result CaError NewOrder)
      → s.tables.reads_orders ≡ true
      → Persisted c.certificate.cert (record_order w c st key rd (s, r))
  unfolding record_order
  Persisted-record_order key s (err e) reads =
      Persisted-fail c.certificate.cert w s st (order_refused e)
  Persisted-record_order key s (ok o) reads = elim (Bool-cases (text_eq o.location [])) [
    | inl none_given ↦ rw none_given (Persisted-fail c.certificate.cert w s st no_order_url)
    | inr given ↦ rw given (
        Persisted-start_order s (order_of w s c key o)
          (put_order s.tables (some (order_of w s c key o)))
          (OnDisk-put_order s.tables (order_of w s c key o) c.certificate.cert reads refl))
  ]

  account_for_tables :
      (s : Machine) (names : List Text) (r : Result CaError NewOrder)
      → (account_for w s names r).0.tables ≡ s.tables
  unfolding account_for
  account_for_tables s names (ok o) = refl
  account_for_tables s names (err e) = refl

  place_order_tables :
      (s : Machine) (replaces : Text) → (place_order w s c replaces).0.tables ≡ s.tables
  unfolding place_order
  place_order_tables s replaces = account_for_tables _ c.certificate.domains _

  retry_without_tables :
      (replaces : Text) (r : Machine × Result CaError NewOrder × Bool)
      → (retry_without w c replaces r).0.tables ≡ r.0.tables
  unfolding retry_without
  retry_without_tables replaces (s, ok o, refused) = refl
  retry_without_tables replaces (s, err e, refused) =
      elim (Bool-cases (not (text_eq replaces []) && not refused)) [
        | inl again ↦ rw again (place_order_tables s [])
        | inr given_up ↦ rw given_up refl
      ]

  create_order_tables :
      (s : Machine) (replaces : Text)
      → (create_order_with_replaces_retry w s c replaces).0.tables ≡ s.tables
  unfolding create_order_with_replaces_retry
  create_order_tables s replaces =
      retry_without_tables replaces (place_order w s c replaces) ∙ place_order_tables s replaces

  Persisted-order_with_key :
      (s : Machine) (replaces : Text) (key : Option Text)
      → s.tables.reads_orders ≡ true
      → Persisted c.certificate.cert (order_with_key w s c st replaces rd key)
  unfolding order_with_key
  Persisted-order_with_key s replaces none reads =
      Persisted-fail c.certificate.cert w s st key_failed
  Persisted-order_with_key s replaces (some key) reads =
      let r = create_order_with_replaces_retry w s c replaces in
      Persisted-record_order key r.0 r.1
        (ap (λ t. t.reads_orders) (create_order_tables s replaces) ∙ reads)

  Persisted-past_lockout :
      (s : Machine) (replaces : Text) (gate : Option (Time × Check))
      → s.tables.reads_orders ≡ true
      → Persisted c.certificate.cert (past_lockout w s c st replaces rd gate)
  unfolding past_lockout
  Persisted-past_lockout s replaces (some (until, check)) reads =
      Persisted-fail c.certificate.cert w s st (locked_out until check)
  Persisted-past_lockout s replaces none reads = Persisted-order_with_key s replaces w.new_key reads

  Persisted-past_cooldown :
      (s : Machine) (replaces : Text) (gate : Option (Text × Time))
      → s.tables.reads_orders ≡ true
      → Persisted c.certificate.cert (past_cooldown w c st replaces rd s gate)
  unfolding past_cooldown
  Persisted-past_cooldown s replaces (some (name, until)) reads =
      Persisted-fail c.certificate.cert w s st (cooling name until)
  Persisted-past_cooldown s replaces none reads =
      Persisted-past_lockout s replaces (locked w s c) reads

  pub Persisted-issue :
      (s : Machine) (replaces : Text)
      → s.tables.reads_orders ≡ true
      → Persisted c.certificate.cert (issue w s c st replaces rd)
  unfolding issue
  Persisted-issue s replaces reads =
      let asked =
        cooling_down (some s.manager.store) s.memory c.certificate.domains s.manager.now in
      Persisted-past_cooldown (record s { memory = asked.0 }) replaces asked.1 reads
