-- ===== src/Fallback/Hold.antt =====
-- A pass of internal/acme/fallback.go that degrades leaves a record that explains the reduced
-- certificate.
use wecert.Base.{
  ℕ, ◌≡◌, inl, inr, true, false, List, [], ◌∷◌, Text, text_eq, text_eq_iff, text_eq_refl, mem, sort,
  mem-sort, arith, ap, ◌∙◌, Bool-cases, All, length-sort,
}
use wecert.Base.Time.{Duration}
use wecert.Domain.{domain_key}
use wecert.FallbackStore.{Fallback, get_fallback, put_fallback, clear_fallback}
use wecert.FallbackStore.Record.{IsPlain, get-put_fallback}
use wecert.Fallback.{
  Certificate, CertState, Manager, Round, entries_of_not_in, prune_record, prune_read,
  prune_fallback, act_on, apply_fallback, fallback_domains, drift_of, drift_is_the_degradation,
}
use wecert.Fallback.Split.{entries_of_not_in_agree}
use wecert.Fallback.Decision.{fallback_domains_keeps, fallback_domains_drops}

-- Reading a database and pruning it leave it answering.
prune_fallback_answers :
    (m : Manager) (c : Certificate) (rd : Round)
    → m.store.reads ≡ true
    → m.store.writes ≡ true
    → ((prune_fallback m c rd).0.store.reads ≡ true)
      × ((prune_fallback m c rd).0.store.writes ≡ true)
      × ((prune_fallback m c rd).1.degraded ≡ rd.degraded)
unfolding prune_fallback prune_read prune_record get_fallback put_fallback clear_fallback
prune_fallback_answers m c rd r w = ground arith

P_of_mem {ℓ} : (P : Text → Type ℓ) (l : List Text) (x : Text) → All P l → mem x l ≡ true → P x
unfolding mem
P_of_mem P [] x a h = cc
P_of_mem P (y ∷ l) x a h = elim (Bool-cases (text_eq x y)) [
  | inl e ↦ rw ((text_eq_iff x y).0 e) a.0
  | inr e ↦ P_of_mem P l x a.1 (ground arith)
]

All-of_mem {ℓ} :
    (P : Text → Type ℓ) (l l' : List Text)
    → ((x : Text) → mem x l ≡ true → mem x l' ≡ true)
    → All P l'
    → All P l
unfolding mem
All-of_mem P [] l' h a = tt
All-of_mem P (x ∷ l) l' h a = (
  P_of_mem P l' x a (h x (ground (arith, text_eq_refl x))),
  All-of_mem P l l' (λ y k. h y (ground (arith, k))) a,
)

-- Acting on a decision that drops names.
drift-act_on :
    (m : Manager) (c : Certificate) (rd : Round) (kept : List Text) (d : Text) (ds : List Text)
    (reason : Text)
    → m.store.reads ≡ true
    → m.store.writes ≡ true
    → All IsPlain (d ∷ ds)
    → kept ≡ entries_of_not_in c.domains (d ∷ ds)
    → drift_is_the_degradation
        (act_on m c rd (kept, d ∷ ds, reason)).1.domains
        c
        (act_on m c rd (kept, d ∷ ds, reason)).0.store
        c.cert
      ≡ true
unfolding act_on drift_is_the_degradation drift_of
drift-act_on m c rd kept d ds reason r w p k =
    let dropped = d ∷ ds in
    let f : Fallback = record {
      cert_name = c.cert;
      dropped = dropped;
      since = m.now;
      reason = reason;
    } in
    let agree =
      entries_of_not_in_agree c.domains (sort dropped) dropped (λ x h. mem-sort x dropped) in
    let put_read = get-put_fallback m.store f c.cert r w p in
    ap (drift_of kept c.domains) (simp (text_eq_refl c.cert) at put_read)
    ∙ ground (arith, length-sort dropped, agree, k, text_eq_refl (domain_key kept))

-- Acting on any decision that splits the configured names.
drift-decided :
    (m : Manager) (c : Certificate) (rd : Round) (decision : List Text × List Text × Text)
    → m.store.reads ≡ true
    → m.store.writes ≡ true
    → All IsPlain c.domains
    → rd.degraded ≡ false
    → ((x : Text) → mem x decision.1 ≡ true → mem x c.domains ≡ true)
    → decision.0 ≡ entries_of_not_in c.domains decision.1
    → (act_on m c rd decision).2.degraded ≡ true
    → drift_is_the_degradation
        (act_on m c rd decision).1.domains
        c
        (act_on m c rd decision).0.store
        c.cert
      ≡ true
drift-decided m c rd (kept, [], reason) r w p n s k h = unfold act_on in ground arith
drift-decided m c rd (kept, d ∷ ds, reason) r w p n s k h =
    drift-act_on m c rd kept d ds reason r w (All-of_mem IsPlain (d ∷ ds) c.domains s p) k

-- A pass that degrades leaves a record by which the names that it orders are the degradation: with
-- these names deployed, driftIsTheDegradation answers true. This is for a database that answers,
-- configured names that can stand in the record's column, and a round that is not yet degraded.
pub drift-apply_fallback :
    (format_reason : ℕ → Duration → Text) (m : Manager) (c : Certificate) (st : CertState)
    (rd : Round)
    → m.store.reads ≡ true
    → m.store.writes ≡ true
    → All IsPlain c.domains
    → rd.degraded ≡ false
    → (apply_fallback format_reason m c st rd).2.degraded ≡ true
    → drift_is_the_degradation
        (apply_fallback format_reason m c st rd).1.domains
        c
        (apply_fallback format_reason m c st rd).0.store
        c.cert
      ≡ true
unfolding apply_fallback
drift-apply_fallback format_reason m c st rd r w p n h =
    let (m', rd') = prune_fallback m c rd in
    let answers = prune_fallback_answers m c rd r w in
    let held = rd'.fallback_active in
    drift-decided m' c rd' (fallback_domains format_reason m' c st held) answers.0 answers.1 p
      (answers.2 ∙ n)
      (λ x i.
        let (q, fs, a, b, j, l) = (fallback_domains_drops format_reason m' c st held x).0 i in j)
      (fallback_domains_keeps format_reason m' c st held).0 h
