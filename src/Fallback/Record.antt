-- ===== src/Fallback/Record.antt =====
-- The record of a degradation, as pruneFallback of internal/acme/fallback.go keeps it, and the drift
-- that it explains.
use wecert.Base.{
  ◌≤◌, ◌≡◌, ◌≢◌, ◌⊎◌, ◌↔◌, inl, inr, true, false, ◌&&◌, ◌||◌, none, some, List, [], ◌∷◌, Text,
  text_eq_iff, text_eq_refl, mem, length, ◌==◌, sort, mem-sort, length-sort, ◌<◌, sym, ok, arith,
  refl, ap, contains_byte, ◌∙◌, Option-cases, Bool-cases, All, SameMembers,
}
use wecert.Base.Assoc.{lookup, lookup-remove}
use wecert.Domain.{domain_key}
use wecert.Domain.Key.{cleaned, domain_key_iff}
use wecert.FallbackStore.{
  Store, Fallback, FallbackRow, fallback_of_row, get_fallback, put_fallback, clear_fallback,
}
use wecert.Truncate.{truncate, max_last_error_bytes}
use wecert.FallbackStore.Record.{IsPlain, get-put_fallback}
use wecert.Fallback.{
  Certificate, Manager, Round, still_configured, entries_of_not_in, prune_record, prune_read,
  prune_fallback, drift_of, drift_is_the_degradation,
}
use wecert.Fallback.Split.{mem-still_configured}

All-still_configured {ℓ} :
    (P : Text → Type ℓ) (want have : List Text) → All P want → All P (still_configured want have)
unfolding still_configured
All-still_configured P [] have h = h
All-still_configured P (w ∷ want) have h = elim (Bool-cases (mem w have)) [
  | inl e ↦ rw e (h.0, All-still_configured P want have h.1)
  | inr e ↦ rw e (All-still_configured P want have h.1)
]

length-still_configured-le :
    (want have : List Text) → length (still_configured want have) ≤ length want
unfolding still_configured
length-still_configured-le [] have = omega arith
length-still_configured-le (w ∷ want) have = ground (arith, length-still_configured-le want have)

-- As many entries are configured as there are: each is.
still_configured_all :
    (want have : List Text)
    → length (still_configured want have) ≡ length want
    → (x : Text) → mem x want ≡ true
    → mem x have ≡ true
unfolding still_configured mem
still_configured_all [] have e x h = cc
still_configured_all (w ∷ want) have e x h = elim (Bool-cases (mem w have)) [
  | inl k ↦ grind (
    arith,
    text_eq_iff x w,
    still_configured_all want have (ground (arith, length-still_configured-le want have)) x,
  )
  | inr k ↦ ground (arith, length-still_configured-le want have)
]

mem_of_empty : (l : List Text) (x : Text) → length l ≡ 0 → mem x l ≡ false
unfolding mem
mem_of_empty [] x h = refl
mem_of_empty (y ∷ l) x h = ground arith

get-clear_fallback :
    (s : Store) (cert : Text)
    → s.reads ≡ true
    → s.writes ≡ true
    → get_fallback (clear_fallback s cert).0 cert ≡ ok none
unfolding get_fallback clear_fallback fallback_of_row
get-clear_fallback s cert r w =
    ground (arith, lookup-remove {V = FallbackRow} cert cert s.cert_fallback, text_eq_refl cert)

-- The same, with the date of the record that is there.
get-put_same :
    (s : Store) (cert : Text) (fb : Fallback) (dropped : List Text)
    → s.reads ≡ true
    → s.writes ≡ true
    → get_fallback s cert ≡ ok (some fb)
    → All IsPlain dropped
    → (fb' : Fallback) × (get_fallback
          (put_fallback s (some (record fb { cert_name = cert; dropped = dropped }))).0
          cert
        ≡ ok (some fb'))
      × (fb'.since ≡ fb.since)
      × (fb'.dropped ≡ sort dropped)
unfolding get_fallback fallback_of_row
get-put_same s cert fb dropped r w g h = elim (Option-cases (lookup cert s.cert_fallback)) [
  | inl e ↦ ground arith
  | inr (row, e) ↦ (
    record {
      cert_name = cert;
      dropped = sort dropped;
      since = fb.since;
      reason = truncate fb.reason max_last_error_bytes;
    },
    grind (
      arith,
      text_eq_refl cert,
      get-put_fallback s (record fb { cert_name = cert; dropped = dropped }) cert r w h,
    ),
    refl,
    refl,
  )
]

empty_or_not : (l : List Text) → (l ≡ []) ⊎ (l ≢ [])
empty_or_not [] = inl refl
empty_or_not (x ∷ l) = inr (λ e. cc)

length-pos : (l : List Text) → (length l == 0) ≡ false → 0 < length l
length-pos l h = ground arith

-- After a prune the record waits for the names that it waited for and that are still configured,
-- and for no other, since the same instant; it is gone exactly if it waited for a name and no such
-- name is left. This is for a database that answers and a record whose names can stand in the
-- column.
pub get_fallback-prune_fallback :
    (m : Manager) (c : Certificate) (rd : Round) (fb : Fallback)
    → m.store.reads ≡ true
    → m.store.writes ≡ true
    → get_fallback m.store c.cert ≡ ok (some fb)
    → All IsPlain fb.dropped
    → ((get_fallback (prune_fallback m c rd).0.store c.cert ≡ ok none)
        × (fb.dropped ≢ [])
        × ((x : Text) → mem x fb.dropped ≡ true → mem x c.domains ≡ false))
      ⊎ ((fb' : Fallback) × (get_fallback (prune_fallback m c rd).0.store c.cert ≡ ok (some fb'))
          × (fb'.since ≡ fb.since)
          × ((fb.dropped ≡ []) ⊎ (fb'.dropped ≢ []))
          × ((x : Text) → mem x fb'.dropped ≡ (mem x fb.dropped && mem x c.domains)))
unfolding prune_fallback prune_read prune_record
get_fallback-prune_fallback m c rd fb r w g h =
    let kept = still_configured fb.dropped c.domains in
    let step = ap (prune_read m c rd) g in
    elim (Bool-cases (length fb.dropped == 0 || length kept == length fb.dropped)) [
      | inl e ↦ inr (
        fb,
        ground (arith, step, g),
        refl,
        empty_or_not fb.dropped,
        λ x. grind (arith, mem_of_empty fb.dropped x, still_configured_all fb.dropped c.domains),
      )
      | inr e ↦ elim (Bool-cases (length kept == 0)) [
        | inl k ↦ inl (
          ground (arith, step, get-clear_fallback m.store c.cert r w),
          λ n. ground (arith, n, e),
          λ x i. ground (arith, mem_of_empty kept x, mem-still_configured x fb.dropped c.domains),
        )
        | inr k ↦
            let (fb', a, b, d) =
              get-put_same m.store c.cert fb kept r w g
                (All-still_configured IsPlain fb.dropped c.domains h) in
            inr (
              fb',
              ground (arith, step, a),
              b,
              inr (λ n. omega (arith, length-sort kept, ap length (sym d ∙ n), length-pos kept k)),
              λ x. ap (mem x) d ∙ mem-sort x kept ∙ mem-still_configured x fb.dropped c.domains,
            )
      ]
    ]

-- Exactly the deployed names that the record explains count as the degradation: with a record that
-- drops a name, the drift is the degradation exactly if the deployed names are the configured ones
-- less the dropped ones, up to case, order, repetition, blanks and the space around them, where no
-- name has a comma.
pub drift_is_the_degradation_iff :
    (deployed : List Text) (c : Certificate) (s : Store) (fb : Fallback)
    → get_fallback s c.cert ≡ ok (some fb)
    → length fb.dropped ≢ 0
    → All (λ d. contains_byte 44 d ≡ false) (cleaned (entries_of_not_in c.domains fb.dropped))
    → All (λ d. contains_byte 44 d ≡ false) (cleaned deployed)
    → (drift_is_the_degradation deployed c s c.cert ≡ true)
      ↔ SameMembers (cleaned (entries_of_not_in c.domains fb.dropped)) (cleaned deployed)
unfolding drift_is_the_degradation drift_of
drift_is_the_degradation_iff deployed c s fb g n a b =
    let expected = entries_of_not_in c.domains fb.dropped in
    let step = ap (drift_of deployed c.domains) g in
    let keys = domain_key_iff expected deployed a b in
    let equal = text_eq_iff (domain_key expected) (domain_key deployed) in
    (
      λ h. keys.0 (equal.0 (ground (arith, step))),
      λ h. let e = equal.1 (keys.1 h) in ground (arith, step, e),
    )
