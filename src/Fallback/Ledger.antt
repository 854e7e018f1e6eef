-- ===== src/Fallback/Ledger.antt =====
-- The pruning of the ledger in internal/acme/fallback.go takes no evidence away.
use wecert.Base.{
  ℕ, ◌≤◌, ◌≡◌, inl, inr, Bool, true, false, ◌&&◌, Option, none, some, List, [], ◌∷◌, Text, text_eq,
  text_eq_refl, mem, length, ◌==◌, ok, err, arith, refl, sym, ap, ◌∙◌, Bool-cases,
}
use wecert.Base.Int.{ℤ, ltb_ℤ}
use wecert.Base.Time.{Time, Duration, from_unix, add}
use wecert.FallbackPolicy.{
  FailureFallback, min_identifier_failures_or, default_fallback_min_ident_fail,
}
use wecert.FallbackStore.{
  read_failed, FailureRow, IdentifierFailure, Store, unix, cutoff_at, delete_rows, insert_failure,
  failures_from, list_identifier_failures, prune_identifier_failures,
}
use wecert.Fallback.{
  Certificate, CertState, Manager, bad_names, still_configured, split_off, ledger_split,
  policy_split, fallback_domains, fallback_policy, fallback_window,
}
use wecert.Fallback.Split.{entries_of_not_in_agree}

-- A row that is pruned is older than the cutoff.
pruned_old : (v : ℤ) (c : Time) → ltb_ℤ v (unix c) ≡ true → from_unix v ≤ c
unfolding unix from_unix
pruned_old v c h = ground arith

cutoff_mono : (t u : Time) (w : Duration) → t ≤ u → cutoff_at t w ≤ cutoff_at u w
unfolding add
cutoff_mono t u w h = ground arith

mem-bad_insert :
    (least : ℕ) (c : Time) (d : Text) (f : IdentifierFailure) (fs : List IdentifierFailure)
    → mem d (bad_names least c (insert_failure f fs)) ≡ mem d (bad_names least c (f ∷ fs))
unfolding mem bad_names insert_failure
mem-bad_insert least c d f [] = refl
mem-bad_insert least c d f (g ∷ gs) = ground (arith, mem-bad_insert least c d f gs)

-- What the pruning deletes.
abbrev is_pruned : Text → Time → FailureRow → Bool
is_pruned cert c r = text_eq r.cert cert && ltb_ℤ r.failed_at (unix c)

abbrev failure_of : FailureRow → IdentifierFailure
failure_of r = record {
  cert_name = r.cert;
  identifier = r.name;
  failures = r.count;
  last_error = r.error;
  last_failed_at = from_unix r.failed_at;
}

mem-bad_pruned :
    (least : ℕ) (cert : Text) (c c' : Time) (d : Text) (rs : List FailureRow)
    → c ≤ c'
    → mem d (bad_names least c' (failures_from cert (delete_rows (is_pruned cert c) rs)))
      ≡ mem d (bad_names least c' (failures_from cert rs))
unfolding failures_from delete_rows bad_names mem
mem-bad_pruned least cert c c' d [] h = refl
mem-bad_pruned least cert c c' d (r ∷ rs) h = grind (
  arith,
  pruned_old r.failed_at c,
  mem-bad_insert least c' d (failure_of r) (failures_from cert rs),
  mem-bad_insert least c' d (failure_of r) (failures_from cert (delete_rows (is_pruned cert c) rs)),
  mem-bad_pruned least cert c c' d rs h,
)

still_configured_agree :
    (ds a b : List Text)
    → ((x : Text) → mem x a ≡ mem x b)
    → still_configured ds a ≡ still_configured ds b
unfolding still_configured
still_configured_agree [] a b h = refl
still_configured_agree (d ∷ ds) a b h = ground (arith, h d, still_configured_agree ds a b h)

empty_agree :
    (a b : List Text) → ((x : Text) → mem x a ≡ mem x b) → (length a == 0) ≡ (length b == 0)
unfolding mem
empty_agree [] [] h = refl
empty_agree [] (y ∷ b) h = ground (arith, h y, text_eq_refl y)
empty_agree (x ∷ a) [] h = ground (arith, h x, text_eq_refl x)
empty_agree (x ∷ a) (y ∷ b) h = ground arith

module _ (s : Store) (cert : Text) where
  read_ledger :
      s.reads ≡ true
      → list_identifier_failures s cert ≡ ok (failures_from cert s.identifier_failures)
  unfolding list_identifier_failures
  read_ledger r = simp r refl

  unread_ledger : s.reads ≡ false → list_identifier_failures s cert ≡ err read_failed
  unfolding list_identifier_failures
  unread_ledger r = simp r refl

  pruned_reads :
      (t : Time) (w : Duration) → (prune_identifier_failures s cert t w).0.reads ≡ s.reads
  unfolding prune_identifier_failures
  pruned_reads t w = ground arith

  mem-pruned :
      (t u : Time) (w : Duration) (least : ℕ) (x : Text)
      → t ≤ u
      → mem x (
          bad_names least
            (cutoff_at u w)
            (failures_from cert (prune_identifier_failures s cert t w).0.identifier_failures))
        ≡ mem x (bad_names least (cutoff_at u w) (failures_from cert s.identifier_failures))
  unfolding prune_identifier_failures
  mem-pruned t u w least x h = elim (Bool-cases s.writes) [
    | inl e ↦ simp e (
        mem-bad_pruned least cert (cutoff_at t w) (cutoff_at u w) x s.identifier_failures
          (cutoff_mono t u w h))
    | inr e ↦ simp e refl
  ]

read_pruned :
    (s : Store) (cert : Text) (t : Time) (w : Duration)
    → s.reads ≡ true
    → list_identifier_failures (prune_identifier_failures s cert t w).0 cert
      ≡ ok (failures_from cert (prune_identifier_failures s cert t w).0.identifier_failures)
read_pruned s cert t w r =
    read_ledger (prune_identifier_failures s cert t w).0 cert (pruned_reads s cert t w ∙ r)

unread_pruned :
    (s : Store) (cert : Text) (t : Time) (w : Duration)
    → s.reads ≡ false
    → list_identifier_failures (prune_identifier_failures s cert t w).0 cert ≡ err read_failed
unread_pruned s cert t w r =
    unread_ledger (prune_identifier_failures s cert t w).0 cert (pruned_reads s cert t w ∙ r)

module _ (format_reason : ℕ → Duration → Text) where
  split_off_agree :
      (p : FailureFallback) (m m' : Manager) (c : Certificate) (st : CertState) (held : Bool)
      (a b : List Text)
      → m.now ≡ m'.now
      → ((x : Text) → mem x a ≡ mem x b)
      → split_off format_reason p m c st held a ≡ split_off format_reason p m' c st held b
  unfolding split_off
  split_off_agree p m m' c st held a b n h = ground (
    arith,
    n,
    empty_agree a b h,
    still_configured_agree c.domains a b h,
    entries_of_not_in_agree c.domains a b (λ x k. h x),
  )

  -- Over two stores whose ledgers hold the same evidence.
  ledger_split_agree :
      (p : FailureFallback) (m : Manager) (s : Store) (c : Certificate) (st : CertState)
      (held : Bool) (fs fs' : List IdentifierFailure)
      → ((x : Text)
          → mem x (
              bad_names
                (min_identifier_failures_or p default_fallback_min_ident_fail)
                (cutoff_at m.now (fallback_window m c))
                fs)
            ≡ mem x (
                bad_names
                  (min_identifier_failures_or p default_fallback_min_ident_fail)
                  (cutoff_at m.now (fallback_window m c))
                  fs'))
      → ledger_split format_reason p (record m { store = s }) c st held (ok fs)
        ≡ ledger_split format_reason p m c st held (ok fs')
  unfolding ledger_split fallback_policy
  ledger_split_agree p m s c st held fs fs' h =
      split_off_agree p (record m { store = s }) m c st held
        (bad_names (min_identifier_failures_or p default_fallback_min_ident_fail)
          (cutoff_at m.now (fallback_window m c)) fs)
        (bad_names (min_identifier_failures_or p default_fallback_min_ident_fail)
          (cutoff_at m.now (fallback_window m c)) fs')
        refl h

  ledger_unread :
      (p : FailureFallback) (m : Manager) (s : Store) (c : Certificate) (st : CertState)
      (held : Bool)
      → ledger_split format_reason p (record m { store = s }) c st held (err read_failed)
        ≡ ledger_split format_reason p m c st held (err read_failed)
  unfolding ledger_split
  ledger_unread p m s c st held = refl

  ledger_split-prune :
      (p : FailureFallback) (m : Manager) (c : Certificate) (st : CertState) (held : Bool)
      (t : Time)
      → t ≤ m.now
      → ledger_split format_reason p
          (record m {
            store = (prune_identifier_failures m.store c.cert t (fallback_window m c)).0;
          })
          c
          st
          held
          (list_identifier_failures
            (prune_identifier_failures m.store c.cert t (fallback_window m c)).0
            c.cert)
        ≡ ledger_split format_reason p m c st held (list_identifier_failures m.store c.cert)
  ledger_split-prune p m c st held t h =
      let s = (prune_identifier_failures m.store c.cert t (fallback_window m c)).0 in
      elim (Bool-cases m.store.reads) [
        | inl r ↦
            ap (ledger_split format_reason p (record m { store = s }) c st held)
              (read_pruned m.store c.cert t (fallback_window m c) r)
            ∙ ledger_split_agree p m s c st held (failures_from c.cert s.identifier_failures)
                (failures_from c.cert m.store.identifier_failures)
                (λ x.
                  mem-pruned m.store c.cert t m.now (fallback_window m c)
                    (min_identifier_failures_or p default_fallback_min_ident_fail) x h)
            ∙ ap (ledger_split format_reason p m c st held) (sym (read_ledger m.store c.cert r))
        | inr r ↦
            ap (ledger_split format_reason p (record m { store = s }) c st held)
              (unread_pruned m.store c.cert t (fallback_window m c) r)
            ∙ ledger_unread p m s c st held
            ∙ ap (ledger_split format_reason p m c st held) (sym (unread_ledger m.store c.cert r))
      ]

  same_policy :
      (m : Manager) (s : Store) (c : Certificate)
      → fallback_policy (record m { store = s }) c ≡ fallback_policy m c
  unfolding fallback_policy
  same_policy m s c = refl

  policy_split-prune :
      (q : Option FailureFallback) (m : Manager) (c : Certificate) (st : CertState) (held : Bool)
      (t : Time)
      → t ≤ m.now
      → policy_split format_reason q
          (record m {
            store = (prune_identifier_failures m.store c.cert t (fallback_window m c)).0;
          })
          c
          st
          held
        ≡ policy_split format_reason q m c st held
  unfolding policy_split
  policy_split-prune none m c st held t h = refl
  policy_split-prune (some p) m c st held t h = rw (ledger_split-prune p m c st held t h) refl

  -- Pruning the ledger of a certificate at any time up to now, with its own window, whether the
  -- database takes the statement or not, changes no decision: what is kept, what is dropped and the
  -- reason are those of the ledger before.
  pub fallback_domains-prune_identifier_failures :
      (m : Manager) (c : Certificate) (st : CertState) (held : Bool) (t : Time)
      → t ≤ m.now
      → fallback_domains format_reason
          (record m {
            store = (prune_identifier_failures m.store c.cert t (fallback_window m c)).0;
          })
          c
          st
          held
        ≡ fallback_domains format_reason m c st held
  unfolding fallback_domains policy_split
  fallback_domains-prune_identifier_failures m c st held t h =
      let m' : Manager = record m {
        store = (prune_identifier_failures m.store c.cert t (fallback_window m c)).0;
      } in
      ap (λ q. policy_split format_reason q m' c st held) (same_policy m m'.store c)
      ∙ policy_split-prune (fallback_policy m c) m c st held t h
