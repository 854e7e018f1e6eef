-- ===== src/Fallback/Decision.antt =====
-- When internal/acme/fallback.go degrades, and what it then drops.
use wecert.Base.{
  ℕ, ◌+◌, ◌≤◌, ◌≡◌, ◌≢◌, ◌⊎◌, ◌↔◌, inl, inr, Bool, true, false, not, ◌||◌, none, some,
  if◌then◌else◌, List, [], ◌∷◌, Text, mem, ltb, length, ok, err, arith, refl, ap, ◌∙◌, Option-cases,
  Result-cases,
}
use wecert.Base.Int.{◌≤ℤ◌}
use wecert.Base.Time.{Duration, sub, is_zero}
use wecert.FallbackStore.{IdentifierFailure, StoreError, cutoff_at, list_identifier_failures}
use wecert.FallbackPolicy.{
  FailureFallback, enabled_or, after_failures_or, min_identifier_failures_or, min_names_or,
  default_fallback_after_failures, default_fallback_min_ident_fail, default_fallback_min_names,
}
use wecert.Fallback.{
  Certificate, CertState, Manager, fallback_policy, fallback_window, before_expiry_of, bad_names,
  entries_of_not_in, split_off, ledger_split, policy_split, fallback_domains,
}
use wecert.Fallback.Split.{
  FailsLately, mem-bad_names, mem-still_configured, Splits, Splits-unchanged, Splits-off,
}

-- What holds of a policy and a ledger where a round may degrade.
abbrev pub MayDegrade :
    FailureFallback → List IdentifierFailure → Manager → Certificate → CertState → Bool → Type 0
MayDegrade p fs m c st held =
    (fallback_policy m c ≡ some p)
    × (enabled_or p false ≡ true)
    × (st.not_after ≢ 0)
    × (after_failures_or p default_fallback_after_failures ≤ st.consecutive_failures)
    × (list_identifier_failures m.store c.cert ≡ ok fs)
    × ((held ≡ true) ⊎ (sub st.not_after m.now ≤ℤ before_expiry_of p))

abbrev pub lately_bad : FailureFallback → List IdentifierFailure → Manager → Certificate → List Text
lately_bad p fs m c =
    bad_names (min_identifier_failures_or p default_fallback_min_ident_fail)
      (cutoff_at m.now (fallback_window m c)) fs

mem-empty : (bad : List Text) (d : Text) → mem d bad ≡ true → length bad ≢ 0
unfolding mem
mem-empty [] d h = cc
mem-empty (x ∷ bad) d h = omega arith

module _ (format_reason : ℕ → Duration → Text) where
  split_off_drops :
      (p : FailureFallback) (m : Manager) (c : Certificate) (st : CertState) (held : Bool)
      (bad : List Text) (d : Text)
      → (mem d (split_off format_reason p m c st held bad).1 ≡ true) ↔ (
          (mem d c.domains ≡ true)
          × (mem d bad ≡ true)
          × ((held ≡ true) ⊎ (sub st.not_after m.now ≤ℤ before_expiry_of p))
          × (min_names_or p default_fallback_min_names ≤ length (entries_of_not_in c.domains bad)))
  unfolding split_off mem
  split_off_drops p m c st held bad d =
      ground (arith, mem-still_configured d c.domains bad, mem-empty bad d)

  -- The decision where a policy and a ledger are read.
  fallback_domains_read :
      (m : Manager) (c : Certificate) (st : CertState) (held : Bool) (p : FailureFallback)
      (fs : List IdentifierFailure)
      → fallback_policy m c ≡ some p
      → list_identifier_failures m.store c.cert ≡ ok fs
      → fallback_domains format_reason m c st held ≡ (
          if not (enabled_or p false) || is_zero st.not_after
          then (c.domains, [], [])
          else if ltb st.consecutive_failures (after_failures_or p default_fallback_after_failures)
          then (c.domains, [], [])
          else split_off format_reason p m c st held (lately_bad p fs m c))
  unfolding fallback_domains policy_split ledger_split
  fallback_domains_read m c st held p fs e f =
      ap (λ q. policy_split format_reason q m c st held) e
      ∙ ap
          (λ r.
            if not (enabled_or p false) || is_zero st.not_after
            then (c.domains, [], [])
            else if ltb st.consecutive_failures
                (after_failures_or p default_fallback_after_failures)
            then (c.domains, [], [])
            else ledger_split format_reason p m c st held r)
          f

  fallback_domains_unread :
      (m : Manager) (c : Certificate) (st : CertState) (held : Bool)
      → (fallback_policy m c ≡ none)
        ⊎ ((x : StoreError) × (list_identifier_failures m.store c.cert ≡ err x))
      → fallback_domains format_reason m c st held ≡ (c.domains, [], [])
  unfolding fallback_domains policy_split ledger_split
  fallback_domains_unread m c st held (inl e) = simp e refl
  fallback_domains_unread m c st held (inr (x, f)) = elim (Option-cases (fallback_policy m c)) [
    | inl e ↦ simp e refl
    | inr (p, e) ↦ simp e (simp f (ground arith))
  ]

  -- With a policy and a ledger read, what it takes to drop a name.
  dropped_read :
      (m : Manager) (c : Certificate) (st : CertState) (held : Bool) (p : FailureFallback)
      (fs : List IdentifierFailure) (d : Text)
      → fallback_policy m c ≡ some p
      → list_identifier_failures m.store c.cert ≡ ok fs
      → (mem d (fallback_domains format_reason m c st held).1 ≡ true) ↔ (
          MayDegrade p fs m c st held
          × (min_names_or p default_fallback_min_names
              ≤ length (entries_of_not_in c.domains (lately_bad p fs m c)))
          × (mem d c.domains ≡ true)
          × FailsLately
              (min_identifier_failures_or p default_fallback_min_ident_fail)
              (cutoff_at m.now (fallback_window m c))
              d
              fs)
  unfolding mem
  dropped_read m c st held p fs d e f = ground (
    arith,
    fallback_domains_read m c st held p fs e f,
    split_off_drops p m c st held (lately_bad p fs m c) d,
    mem-bad_names (min_identifier_failures_or p default_fallback_min_ident_fail)
        (cutoff_at m.now (fallback_window m c)) d fs,
  )

  -- A name is dropped exactly when all of this holds: a policy is in force and enabled, a
  -- certificate is in effect, it has failed often enough in a row, the ledger can be read, the
  -- degradation is held already or the expiry is near, enough names are left, and the name is
  -- configured and has itself failed often enough within the window.
  pub fallback_domains_drops :
      (m : Manager) (c : Certificate) (st : CertState) (held : Bool) (d : Text)
      → (mem d (fallback_domains format_reason m c st held).1 ≡ true) ↔ (
          (p : FailureFallback) × (fs : List IdentifierFailure) × MayDegrade p fs m c st held
          × (min_names_or p default_fallback_min_names
              ≤ length (entries_of_not_in c.domains (lately_bad p fs m c)))
          × (mem d c.domains ≡ true)
          × FailsLately
              (min_identifier_failures_or p default_fallback_min_ident_fail)
              (cutoff_at m.now (fallback_window m c))
              d
              fs)
  unfolding mem
  fallback_domains_drops m c st held d = elim (Option-cases (fallback_policy m c)) [
    | inl e ↦ (
      λ h. ground (arith, fallback_domains_unread m c st held (inl e)),
      λ (p, fs, h, k, l, n). ground arith,
    )
    | inr (p, e) ↦ elim (Result-cases (list_identifier_failures m.store c.cert)) [
      | inl (x, f) ↦ (
        λ h. ground (arith, fallback_domains_unread m c st held (inr (x, f))),
        λ (p', fs, h, k, l, n). ground arith,
      )
      | inr (fs, f) ↦ (
        λ h. let (a, b, k, l) = (dropped_read m c st held p fs d e f).0 h in (p, fs, a, b, k, l),
        λ (p', fs', h, k, l, n). (dropped_read m c st held p' fs' d h.0 h.4).1 (h, k, l, n),
      )
    ]
  ]

  split_off-Splits :
      (p : FailureFallback) (m : Manager) (c : Certificate) (st : CertState) (held : Bool)
      (bad : List Text)
      → Splits c.domains
          (split_off format_reason p m c st held bad).0
          (split_off format_reason p m c st held bad).1
  unfolding split_off
  split_off-Splits p m c st held bad =
      ground (arith, Splits-unchanged c.domains, Splits-off c.domains bad)

  -- The names to issue are the configured ones less those that are dropped, in their order, and each
  -- configured entry is counted in one of the two.
  pub fallback_domains_keeps :
      (m : Manager) (c : Certificate) (st : CertState) (held : Bool)
      → ((fallback_domains format_reason m c st held).0
          ≡ entries_of_not_in c.domains (fallback_domains format_reason m c st held).1)
        × (length (fallback_domains format_reason m c st held).0
              + length (fallback_domains format_reason m c st held).1
            ≡ length c.domains)
  fallback_domains_keeps m c st held = elim (Option-cases (fallback_policy m c)) [
    | inl e ↦ rw (fallback_domains_unread m c st held (inl e)) (Splits-unchanged c.domains)
    | inr (p, e) ↦ elim (Result-cases (list_identifier_failures m.store c.cert)) [
      | inl (x, f) ↦
          rw (fallback_domains_unread m c st held (inr (x, f))) (Splits-unchanged c.domains)
      | inr (fs, f) ↦ ground (
        arith,
        fallback_domains_read m c st held p fs e f,
        Splits-unchanged c.domains,
        split_off-Splits p m c st held (lately_bad p fs m c),
      )
    ]
  ]

  -- A degradation that is held stands whatever the expiry: with a certificate in effect, neither its
  -- end nor how near that is changes what is kept and dropped.
  pub fallback_domains_held :
      (m : Manager) (c : Certificate) (st st' : CertState)
      → st.not_after ≢ 0
      → st'.not_after ≢ 0
      → st.consecutive_failures ≡ st'.consecutive_failures
      → ((fallback_domains format_reason m c st true).0
          ≡ (fallback_domains format_reason m c st' true).0)
        × ((fallback_domains format_reason m c st true).1
            ≡ (fallback_domains format_reason m c st' true).1)
  unfolding split_off
  fallback_domains_held m c st st' h h' n = elim (Option-cases (fallback_policy m c)) [
    | inl e ↦ ground (
      arith,
      fallback_domains_unread m c st true (inl e),
      fallback_domains_unread m c st' true (inl e),
    )
    | inr (p, e) ↦ elim (Result-cases (list_identifier_failures m.store c.cert)) [
      | inl (x, f) ↦ ground (
        arith,
        fallback_domains_unread m c st true (inr (x, f)),
        fallback_domains_unread m c st' true (inr (x, f)),
      )
      | inr (fs, f) ↦ ground (
        arith,
        fallback_domains_read m c st true p fs e f,
        fallback_domains_read m c st' true p fs e f,
      )
    ]
  ]
