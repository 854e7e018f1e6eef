-- ===== src/Reclaim/Grounds.antt =====
-- What speaks for forgetting a TXT record, and that the clean-ups of internal/acme/flow_cleanup.go report
-- one as reclaimed only on that evidence.
use wecert.Base.{
  ◌≤◌, ◌≡◌, ◌⊎◌, inl, inr, Bool, true, false, ◌||◌, Option, none, some, if◌then◌else◌, List, [],
  Text, text_eq, Result, ok, arith, refl, sym, ◌∙◌, Bool-cases, Option-cases, Result-cases, length,
}
use mathlib.Core.Path.{subst}
use wecert.Leases.{Ended, done, broken, forgot, Provider}
use wecert.Probe.{Reply, probe_txt, lookup_txt}
use wecert.Probe.Verdict.{AllDeny, lookup_txt-probe_txt}
use wecert.AuthzStore.{Authorization, AuthzTable, list_presented}
use wecert.Reclaim.{
  reclaimed, kept_propagating, ReclaimError, Surroundings, Held, release_stale_lease,
  release_row_stale_lease, clean_up_record, look_up, is_recent, denied, with_lease, leased_for,
  probed_for, past_clean_up, removed_with, asked_again, past_found, reclaimed_with, reclaimed_for,
  remove_authz_txt, reclaim_unpresented_txt,
}

module _ {p : Provider} (s : Surroundings p) where
  -- Each server of the zone denies the record of an authorization.
  abbrev pub IsDenied : p.Dns → Authorization → Text → Type 0
  IsDenied d a key =
      (replies : List (Text × Reply)) × (s.servers d (s.challenge_info a.identifier key).0
          (s.challenge_info a.identifier key).1
        ≡ some replies)
      × (1 ≤ length replies)
      × AllDeny replies

  -- What speaks for forgetting a record; its value is that of the key of the row's own challenge.
  pub data Evidence (h : Held p) (a : Authorization) : Type 0 where
    never_chosen : a.presented ≡ false → text_eq a.challenge_token [] ≡ true → Evidence h a
    deleted :
        (key : Text)
        → s.key_authorization a.challenge_token ≡ some key
        → a.presented ≡ true
        → (clean_up_record s (leased_for s h a key) a.identifier key).1 ≡ done
        → Evidence h a
    denied_by_all :
        (key : Text)
        → s.key_authorization a.challenge_token ≡ some key
        → a.presented ≡ false
        → is_recent s a ≡ false
        → IsDenied h.dns a key
        → Evidence h a
    found_and_deleted :
        (key : Text)
        → s.key_authorization a.challenge_token ≡ some key
        → a.presented ≡ false
        → (clean_up_record s (probed_for s h a key) a.identifier key).1 ≡ done
        → Evidence h a
    forgotten_and_denied :
        (key : Text)
        → s.key_authorization a.challenge_token ≡ some key
        → a.presented ≡ false
        → (clean_up_record s (probed_for s h a key) a.identifier key).1 ≡ forgot
        → IsDenied (s.wait (clean_up_record s (probed_for s h a key) a.identifier key).0.dns) a key
        → Evidence h a

  IsDenied-look_up :
      (d : p.Dns) (a : Authorization) (key : Text)
      → look_up s d a.identifier key ≡ some false
      → IsDenied d a key
  unfolding look_up
  IsDenied-look_up d a key e =
      elim (Option-cases
        (s.servers d (s.challenge_info a.identifier key).0 (s.challenge_info a.identifier key).1)) [
          | inl h ↦ ground (arith, h, e)
          | inr (replies, h) ↦
              let e' : lookup_txt (probe_txt replies) ≡ some false = ground (arith, h, e) in
              let k = (lookup_txt-probe_txt replies).0 e' in (replies, h, k.0, k.1)
        ]

  authz-release_stale_lease :
      (h : Held p) (fqdn value : Text) (except : Option Authorization)
      → (release_stale_lease s h fqdn value except).authz ≡ h.authz
  unfolding release_stale_lease
  authz-release_stale_lease h fqdn value except = elim (Result-cases (list_presented h.authz)) [
    | inl (e, q) ↦ rw q (ground arith)
    | inr (rows, q) ↦ rw q (ground arith)
  ]

  either :
      (x y : Held p) (b : Bool) (t : AuthzTable)
      → x.authz ≡ t
      → y.authz ≡ t
      → (if b then x else y).authz ≡ t
  either x y true t h k = h
  either x y false t h k = k

  authz-release_row_stale_lease :
      (h : Held p) (a : Authorization) (key : Text)
      → (release_row_stale_lease s h a key).authz ≡ h.authz
  unfolding release_row_stale_lease
  authz-release_row_stale_lease h a key =
      either _ _ (text_eq a.txt_name [] || text_eq a.txt_value []) h.authz refl (
        either _ _ (text_eq (s.challenge_info a.identifier key).1 a.txt_value) h.authz refl
          (authz-release_stale_lease h a.txt_name a.txt_value (some a)))

  authz-leased_for :
      (h : Held p) (a : Authorization) (key : Text) → (leased_for s h a key).authz ≡ h.authz
  authz-leased_for h a key = elim (Bool-cases (text_eq a.txt_name [])) [
    | inl e ↦ rw e (authz-release_row_stale_lease h a key)
    | inr e ↦ rw e (
        authz-release_row_stale_lease
          (with_lease s h a.txt_name (s.challenge_info a.identifier key).1) a key)
  ]

  authz-past_clean_up :
      (r : Held p × Ended)
      → ((past_clean_up s r).0.authz ≡ r.0.authz) × ((past_clean_up s r).1 ≡ ok true → r.1 ≡ done)
  unfolding past_clean_up
  authz-past_clean_up (h, done) = (refl, λ e. refl)
  authz-past_clean_up (h, broken) = (refl, λ e. cc)
  authz-past_clean_up (h, forgot) = (refl, λ e. cc)

  -- What is shown of a round that may forget a row: it leaves the rows, and it forgets on evidence.
  abbrev pub IsSound {ℓ} :
      {A : Type ℓ} → A → Held p → Authorization → Held p × Result ReclaimError A → Type ℓ
  IsSound good h a r = (r.0.authz ≡ h.authz) × (r.1 ≡ ok good → Evidence h a)

  unlocated :
      (h : Held p) (a : Authorization)
      → a.presented ≡ true
      → (text_eq a.challenge_token [] || text_eq a.identifier []) ≡ true
      → remove_authz_txt s h a ≡ (h, ok false)
  unfolding remove_authz_txt
  unlocated h a pr e = rw (pr, e) refl

  located :
      (h : Held p) (a : Authorization)
      → a.presented ≡ true
      → (text_eq a.challenge_token [] || text_eq a.identifier []) ≡ false
      → remove_authz_txt s h a ≡ removed_with s h a (s.key_authorization a.challenge_token)
  unfolding remove_authz_txt
  located h a pr e = rw (pr, e) refl

  removed_with-IsSound :
      (h : Held p) (a : Authorization) (key : Option Text)
      → s.key_authorization a.challenge_token ≡ key
      → a.presented ≡ true
      → IsSound true h a (removed_with s h a key)
  unfolding clean_up_record
  removed_with-IsSound h a none own pr = (refl, λ k. cc)
  removed_with-IsSound h a (some key) own pr =
      let m = authz-past_clean_up (clean_up_record s (leased_for s h a key) a.identifier key) in
      (m.0 ∙ authz-leased_for h a key, λ k. deleted key own pr (m.1 k))

  -- A presented row whose record counts as removed.
  pub remove_authz_txt-IsSound :
      (h : Held p) (a : Authorization)
      → a.presented ≡ true
      → IsSound true h a (remove_authz_txt s h a)
  remove_authz_txt-IsSound h a pr =
      elim (Bool-cases (text_eq a.challenge_token [] || text_eq a.identifier [])) [
        | inl e ↦ subst (IsSound true h a) (sym (unlocated h a pr e)) (refl, λ k. cc)
        | inr e ↦
            subst (IsSound true h a) (sym (located h a pr e))
              (removed_with-IsSound h a (s.key_authorization a.challenge_token) refl pr)
      ]

  asked_again-IsSound :
      (h : Held p) (a : Authorization) (key : Text) (o : Option Bool)
      → ((asked_again s h a key o).0.authz ≡ h.authz)
        × ((asked_again s h a key o).1 ≡ ok reclaimed → o ≡ some false)
  unfolding asked_again
  asked_again-IsSound h a key none = (refl, λ k. cc)
  asked_again-IsSound h a key (some true) = (refl, λ k. cc)
  asked_again-IsSound h a key (some false) = (
    authz-release_stale_lease h (s.challenge_info a.identifier key).0
        (s.challenge_info a.identifier key).1 none,
    λ k. refl,
  )

  past_found-IsSound :
      (a : Authorization) (key : Text) (r : Held p × Ended)
      → ((past_found s a key r).0.authz ≡ r.0.authz)
        × ((past_found s a key r).1 ≡ ok reclaimed
            → (r.1 ≡ done)
              ⊎ ((r.1 ≡ forgot) × (look_up s (s.wait r.0.dns) a.identifier key ≡ some false)))
  unfolding past_found
  past_found-IsSound a key (h, done) = (refl, λ k. inl refl)
  past_found-IsSound a key (h, broken) = (refl, λ k. cc)
  past_found-IsSound a key (h, forgot) =
      let waited : Held p = record h { dns = s.wait h.dns } in
      let m = asked_again-IsSound waited a key (look_up s (s.wait h.dns) a.identifier key) in
      (m.0, λ k. inr (refl, m.1 k))

  kept :
      (h : Held p) (a : Authorization) (key : Text)
      → is_recent s a ≡ true
      → denied s h a key ≡ (h, ok kept_propagating)
  unfolding denied
  kept h a key q = rw q refl

  let_go :
      (h : Held p) (a : Authorization) (key : Text)
      → is_recent s a ≡ false
      → denied s h a key ≡ (
        release_stale_lease s h
            (s.challenge_info a.identifier key).0
            (s.challenge_info a.identifier key).1
            none,
        ok reclaimed,
      )
  unfolding denied
  let_go h a key q = rw q refl

  denied-IsSound :
      (h : Held p) (a : Authorization) (key : Text)
      → s.key_authorization a.challenge_token ≡ some key
      → a.presented ≡ false
      → look_up s h.dns a.identifier key ≡ some false
      → IsSound reclaimed h a (denied s h a key)
  denied-IsSound h a key own pr e = elim (Bool-cases (is_recent s a)) [
    | inl q ↦ subst (IsSound reclaimed h a) (sym (kept h a key q)) (refl, λ k. cc)
    | inr q ↦ subst (IsSound reclaimed h a) (sym (let_go h a key q)) (
      authz-release_stale_lease h (s.challenge_info a.identifier key).0
          (s.challenge_info a.identifier key).1 none,
      λ k. denied_by_all key own pr q (IsDenied-look_up h.dns a key e),
    )
  ]

  authz-probed_for :
      (h : Held p) (a : Authorization) (key : Text) → (probed_for s h a key).authz ≡ h.authz
  authz-probed_for h a key =
      authz-release_row_stale_lease
        (with_lease s h (s.challenge_info a.identifier key).0 (s.challenge_info a.identifier key).1)
        a key

  reclaimed_with-IsSound :
      (h : Held p) (a : Authorization) (key : Text) (o : Option Bool)
      → s.key_authorization a.challenge_token ≡ some key
      → a.presented ≡ false
      → look_up s h.dns a.identifier key ≡ o
      → IsSound reclaimed h a (reclaimed_with s h a key o)
  unfolding reclaimed_with clean_up_record
  reclaimed_with-IsSound h a key none own pr e = (refl, λ k. cc)
  reclaimed_with-IsSound h a key (some false) own pr e = denied-IsSound h a key own pr e
  reclaimed_with-IsSound h a key (some true) own pr e =
      let m =
        past_found-IsSound a key (clean_up_record s (probed_for s h a key) a.identifier key) in
      (
        m.0 ∙ authz-probed_for h a key,
        λ k. elim (m.1 k) [
          | inl well ↦ found_and_deleted key own pr well
          | inr (lost, gone) ↦ forgotten_and_denied key own pr lost (IsDenied-look_up _ a key gone)
        ],
      )

  reclaimed_for-IsSound :
      (h : Held p) (a : Authorization) (key : Option Text)
      → s.key_authorization a.challenge_token ≡ key
      → a.presented ≡ false
      → IsSound reclaimed h a (reclaimed_for s h a key)
  reclaimed_for-IsSound h a none own pr = (refl, λ k. cc)
  reclaimed_for-IsSound h a (some key) own pr =
      reclaimed_with-IsSound h a key (look_up s h.dns a.identifier key) own pr refl

  pub reclaim_unpresented_txt-IsSound :
      (h : Held p) (a : Authorization)
      → a.presented ≡ false
      → IsSound reclaimed h a (reclaim_unpresented_txt s h a)
  unfolding reclaim_unpresented_txt
  reclaim_unpresented_txt-IsSound h a pr =
      reclaimed_for-IsSound h a (s.key_authorization a.challenge_token) refl pr
