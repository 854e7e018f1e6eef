-- ===== src/Issue/Gates.antt =====
-- What internal/acme/manager_renew.go asks of a CA: the calls of NewOrder that one order makes, and what
-- holds before the first.
use wecert.Base.{
  ◌≡◌, ◌≢◌, ◌⊎◌, inl, inr, Bool, not, ◌&&◌, Option, none, some, List, [], ◌∷◌, Text, text_eq,
  text_eq_iff, Result, ok, err, arith, refl, ap, sym, ◌∙◌, Bool-cases,
}
use mathlib.Core.Path.{subst}
use wecert.Base.Time.{Time}
use wecert.CertStore.{CertState, Order, Tables, TableError, put_order}
use wecert.Cooldown.{cooling_down}
use wecert.Fallback.{Round}
use wecert.QuotaGate.{CaError, Check}
use wecert.Issue.{
  World, CertConfig, Machine, Failure, Call, NewOrder, fail, account_for, place_order,
  retry_without, create_order_with_replaces_retry, order_of, start_order, record_order,
  order_with_key, past_lockout, locked, past_cooldown, issue, order_unrecorded, order_refused,
  no_order_url, key_failed, locked_out, cooling,
}

abbrev pub call_for : CertConfig → Text → Call
call_for c replaces = record {
  names = c.certificate.domains;
  profile = c.profile;
  replaces = replaces;
}

-- The calls of one order: one, or a second that replaces nothing.
pub data Placed (c : CertConfig) (replaces : Text) (calls : List Call) : List Call → Type 0 where
  once : {cs : List Call} → cs ≡ call_for c replaces ∷ calls → Placed c replaces calls cs
  twice :
      {cs : List Call}
      → replaces ≢ []
      → cs ≡ call_for c [] ∷ call_for c replaces ∷ calls
      → Placed c replaces calls cs

pub fail_calls :
    (w : World) (s : Machine) (st : CertState) (f : Failure) → (fail w s st f).0.calls ≡ s.calls
unfolding fail
fail_calls w s st f = refl

-- The gates stand open: no name is cooling down, no deadline of the CA is in force, and there is a key.
pub record IsClear (w : World) (s : Machine) (c : CertConfig) : Type 0 where
  pub none_cooling :
      (cooling_down (some s.manager.store) s.memory c.certificate.domains s.manager.now).1 ≡ none
  pub none_locked : locked w s c ≡ none
  pub has_key : w.new_key ≢ none

module _ (w : World) (c : CertConfig) (st : CertState) (rd : Round) where
  abbrev Calls : Text → List Call → List Call → Type 0
  Calls replaces = Placed c replaces

  account_for_calls :
      (s : Machine) (names : List Text) (r : Result CaError NewOrder)
      → (account_for w s names r).0.calls ≡ s.calls
  unfolding account_for
  account_for_calls s names (ok o) = refl
  account_for_calls s names (err e) = refl

  place_order_calls :
      (s : Machine) (replaces : Text)
      → (place_order w s c replaces).0.calls ≡ call_for c replaces ∷ s.calls
  unfolding place_order
  place_order_calls s replaces = account_for_calls _ c.certificate.domains _

  Calls-retry_without :
      (calls : List Call) (replaces : Text) (r : Machine × Result CaError NewOrder × Bool)
      → r.0.calls ≡ call_for c replaces ∷ calls
      → Calls replaces calls (retry_without w c replaces r).0.calls
  unfolding retry_without
  Calls-retry_without calls replaces (s, ok o, refused) h = once h
  Calls-retry_without calls replaces (s, err e, refused) h =
      elim (Bool-cases (not (text_eq replaces []) && not refused)) [
        | inl again ↦ rw again (
            twice (ground (arith, again, text_eq_iff replaces []))
              (place_order_calls s [] ∙ ap (λ cs. call_for c [] ∷ cs) h))
        | inr given_up ↦ rw given_up (once h)
      ]

  Calls-create_order :
      (s : Machine) (replaces : Text)
      → Calls replaces s.calls (create_order_with_replaces_retry w s c replaces).0.calls
  unfolding create_order_with_replaces_retry
  Calls-create_order s replaces =
      Calls-retry_without s.calls replaces (place_order w s c replaces)
        (place_order_calls s replaces)

  start_order_calls :
      (s : Machine) (o : Order) (r : Tables × Option TableError)
      → (start_order w s c st o rd r).0.calls ≡ s.calls
  unfolding start_order
  start_order_calls s o (t, none) = refl
  start_order_calls s o (t, some e) = fail_calls w s st order_unrecorded

  record_order_calls :
      (key : Text) (s : Machine) (r : Result CaError NewOrder)
      → (record_order w c st key rd (s, r)).0.calls ≡ s.calls
  unfolding record_order
  record_order_calls key s (err e) = fail_calls w s st (order_refused e)
  record_order_calls key s (ok o) = elim (Bool-cases (text_eq o.location [])) [
    | inl none_given ↦ rw none_given (fail_calls w s st no_order_url)
    | inr given ↦ rw given (
        start_order_calls s (order_of w s c key o)
          (put_order s.tables (some (order_of w s c key o))))
  ]

  Calls-order_with_key :
      (s : Machine) (replaces : Text) (key : Option Text)
      → ((order_with_key w s c st replaces rd key).0.calls ≡ s.calls)
        ⊎ ((key ≢ none) × Calls replaces s.calls (order_with_key w s c st replaces rd key).0.calls)
  unfolding order_with_key
  Calls-order_with_key s replaces none = inl (fail_calls w s st key_failed)
  Calls-order_with_key s replaces (some key) =
      let r = create_order_with_replaces_retry w s c replaces in
      inr (
        λ e. cc e,
        subst (Calls replaces s.calls) (sym (record_order_calls key r.0 r.1))
            (Calls-create_order s replaces),
      )

  Calls-past_lockout :
      (s : Machine) (replaces : Text) (gate : Option (Time × Check))
      → ((past_lockout w s c st replaces rd gate).0.calls ≡ s.calls)
        ⊎ ((gate ≡ none)
            × (w.new_key ≢ none)
            × Calls replaces s.calls (past_lockout w s c st replaces rd gate).0.calls)
  unfolding past_lockout
  Calls-past_lockout s replaces (some (until, check)) =
      inl (fail_calls w s st (locked_out until check))
  Calls-past_lockout s replaces none = elim (Calls-order_with_key s replaces w.new_key) [
    | inl same ↦ inl same
    | inr (key, placed) ↦ inr (refl, key, placed)
  ]

  Calls-past_cooldown :
      (s : Machine) (replaces : Text) (gate : Option (Text × Time))
      → ((past_cooldown w c st replaces rd s gate).0.calls ≡ s.calls)
        ⊎ ((gate ≡ none)
            × (locked w s c ≡ none)
            × (w.new_key ≢ none)
            × Calls replaces s.calls (past_cooldown w c st replaces rd s gate).0.calls)
  unfolding past_cooldown
  Calls-past_cooldown s replaces (some (name, until)) = inl (fail_calls w s st (cooling name until))
  Calls-past_cooldown s replaces none = elim (Calls-past_lockout s replaces (locked w s c)) [
    | inl same ↦ inl same
    | inr (open_gate, key, placed) ↦ inr (refl, open_gate, key, placed)
  ]

  -- Issuing calls NewOrder only where no name of the certificate is cooling down, no recorded deadline
  -- of the CA is in force for it, and a key was made; then once, or once more if the order was to
  -- replace a certificate, the second time without that.
  pub issue_calls :
      (s : Machine) (replaces : Text)
      → ((issue w s c st replaces rd).0.calls ≡ s.calls)
        ⊎ (IsClear w s c × Placed c replaces s.calls (issue w s c st replaces rd).0.calls)
  unfolding issue
  issue_calls s replaces =
      let asked =
        cooling_down (some s.manager.store) s.memory c.certificate.domains s.manager.now in
      elim (Calls-past_cooldown (record s { memory = asked.0 }) replaces asked.1) [
        | inl same ↦ inl same
        | inr (quiet, open_gate, key, placed) ↦
            inr (record { none_cooling = quiet; none_locked = open_gate; has_key = key }, placed)
      ]
