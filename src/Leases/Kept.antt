-- ===== src/Leases/Kept.antt =====
-- The clean-up of internal/acme/dns_leases.go and what it leaves in DNS of the values of other challenges.
use wecert.Base.{
  ◌≡◌, inl, inr, Bool, true, false, not, ◌&&◌, some, Text, text_eq, text_eq_iff, arith, refl, sym,
  ◌∙◌, Bool-cases, Option-cases,
}
use mathlib.Core.Path.{subst}
use wecert.Leases.{
  Ended, done, broken, forgot, Provider, Registry, add_lease, remove_lease, release, written,
  present, recovered, clean_up,
}
use wecert.Leases.Registry.{
  leased, leased-add_lease, leased-release, leased-remove_lease, last_leaver,
}

-- What DNS providers document: a write removes nothing and leaves the value, a deletion touches no
-- other name and ends without the value, and it is one of that value only, or of every value there.
pub record IsFaithful (p : Provider) (scoped : Bool) : Type 0 where
  pub write_keeps :
      (d : p.Dns) (n v m u : Text) → p.holds d m u ≡ true → p.holds (p.write d n v).0 m u ≡ true
  pub write_adds :
      (d : p.Dns) (n v : Text) → (p.write d n v).1 ≡ done → p.holds (p.write d n v).0 n v ≡ true
  pub delete_elsewhere :
      (d : p.Dns) (n v m u : Text)
      → text_eq n m ≡ false
      → p.holds (p.delete d n v).0 m u ≡ p.holds d m u
  pub delete_scoped :
      (d : p.Dns) (n v u : Text)
      → scoped ≡ true
      → text_eq u v ≡ false
      → p.holds (p.delete d n v).0 n u ≡ p.holds d n u
  pub delete_all :
      (d : p.Dns) (n v u : Text)
      → scoped ≡ false
      → (p.delete d n v).1 ≡ done
      → p.holds (p.delete d n v).0 n u ≡ false
  pub recover_exact :
      (r : p.Dns → Text → Text → p.Dns × Ended)
      → p.recover ≡ some r
      → (d : p.Dns) (n v m u : Text) → (text_eq n m && text_eq u v) ≡ false
      → p.holds (r d n v).0 m u ≡ p.holds d m u

module _ (p : Provider) (scoped : Bool) (faithful : IsFaithful p scoped) where
  -- Every value that is relied on is in DNS.
  abbrev pub IsKept : Registry → p.Dns → Type 0
  IsKept l d = (m u : Text) → leased l m u ≡ true → p.holds d m u ≡ true

  IsKept-written :
      (l : Registry) (n v : Text) (d : p.Dns) (r : p.Dns × Ended)
      → IsKept l r.0
      → (r.1 ≡ done → p.holds r.0 n v ≡ true)
      → IsKept (written p l n v r).0 (written p l n v r).1
  unfolding written
  IsKept-written l n v d (d', done) k added m u h = grind (
    arith,
    k,
    added refl,
    leased-release (add_lease l n v) n m u,
    leased-add_lease l n v m u,
    text_eq_iff n m,
    text_eq_iff u v,
  )
  IsKept-written l n v d (d', broken) k added m u h = k m u (sym (leased-release l n m u) ∙ h)
  IsKept-written l n v d (d', forgot) k added m u h = k m u (sym (leased-release l n m u) ∙ h)

  pub IsKept-present :
      (l : Registry) (d : p.Dns) (n v : Text) (zone_found : Bool)
      → IsKept l d
      → IsKept (present p l d n v zone_found).0 (present p l d n v zone_found).1
  unfolding present
  IsKept-present l d n v true k m u h =
      IsKept-written l n v d (p.write d n v) (λ m u h. faithful.write_keeps d n v m u (k m u h))
        (faithful.write_adds d n v) m u h
  IsKept-present l d n v false k m u h = k m u (sym (leased-release l n m u) ∙ h)

  -- Past the provider call nothing else at the name was touched.
  untouched :
      (n v m u : Text) (zone_found : Bool) (r : p.Dns × Ended)
      → (text_eq n m && text_eq u v) ≡ false
      → p.holds (recovered p n v zone_found r).0 m u ≡ p.holds r.0 m u
  unfolding recovered
  untouched n v m u zone_found (d, done) ne = refl
  untouched n v m u zone_found (d, broken) ne = refl
  untouched n v m u zone_found (d, forgot) ne = elim (Option-cases p.recover) [
    | inl e ↦ ground (arith, e)
    | inr (r, e) ↦ ground (arith, e, faithful.recover_exact r e d n v m u ne)
  ]

  -- What the provider call of a clean-up leaves of a value that is still relied on.
  kept_by_delete :
      (l : Registry) (d : p.Dns) (n v m u : Text) (zone_found : Bool)
      → ((remove_lease l n v).1 && not scoped) ≡ false
      → leased (remove_lease l n v).0 m u ≡ true
      → p.holds (recovered p n v zone_found (p.delete d n v)).0 m u ≡ p.holds d m u
  kept_by_delete l d n v m u zone_found gate h = elim (Bool-cases (text_eq n m)) [
    | inr elsewhere ↦
        untouched n v m u zone_found (p.delete d n v) (rw elsewhere refl)
        ∙ faithful.delete_elsewhere d n v m u elsewhere
    | inl here ↦
        let e = (text_eq_iff n m).0 here in
        let other : text_eq u v ≡ false = ground (arith, here, leased-remove_lease l n v m u, h) in
        let is_scoped : scoped ≡ true = ground (arith, gate, e, last_leaver l n v u, h) in
        untouched n v m u zone_found (p.delete d n v) (rw (here, other) refl)
        ∙ subst (λ x. p.holds (p.delete d n v).0 x u ≡ p.holds d x u) e
            (faithful.delete_scoped d n v u is_scoped other)
  ]

  abbrev pub gate_of : Registry → Text → Text → Bool
  gate_of l n v = (remove_lease l n v).1 && not scoped

  pub clean_deferred :
      (l : Registry) (d : p.Dns) (n v : Text) (made zone_found : Bool)
      → gate_of l n v ≡ true
      → clean_up p scoped l d n v made zone_found ≡ (release (remove_lease l n v).0 n, d, done)
  unfolding clean_up
  clean_deferred l d n v made zone_found h = rw h refl

  clean_unmade :
      (l : Registry) (d : p.Dns) (n v : Text) (zone_found : Bool)
      → gate_of l n v ≡ false
      → clean_up p scoped l d n v false zone_found ≡ (release (remove_lease l n v).0 n, d, broken)
  unfolding clean_up
  clean_unmade l d n v zone_found h = rw h refl

  pub clean_made :
      (l : Registry) (d : p.Dns) (n v : Text) (zone_found : Bool)
      → gate_of l n v ≡ false
      → clean_up p scoped l d n v true zone_found ≡ (
        release (remove_lease l n v).0 n,
        (recovered p n v zone_found (p.delete d n v)).0,
        (recovered p n v zone_found (p.delete d n v)).1,
      )
  unfolding clean_up
  clean_made l d n v zone_found h = rw h refl

  -- What is still relied on after the lease went was relied on before.
  fewer :
      (l : Registry) (n v m u : Text)
      → leased (release (remove_lease l n v).0 n) m u ≡ true
      → (leased (remove_lease l n v).0 m u ≡ true) × (leased l m u ≡ true)
  fewer l n v m u h =
      ground (arith, h, leased-release (remove_lease l n v).0 n m u, leased-remove_lease l n v m u)

  pub IsKept-clean_up :
      (l : Registry) (d : p.Dns) (n v : Text) (made zone_found : Bool)
      → IsKept l d
      → IsKept
          (clean_up p scoped l d n v made zone_found).0
          (clean_up p scoped l d n v made zone_found).1
  IsKept-clean_up l d n v made zone_found k = elim (Bool-cases (gate_of l n v)) [
    | inl deferred ↦
        subst (λ r. IsKept r.0 r.1) (sym (clean_deferred l d n v made zone_found deferred))
          (λ m u h. k m u (fewer l n v m u h).1)
    | inr gate ↦ elim (Bool-cases made) [
      | inr e ↦
          subst
            (λ b.
              IsKept (clean_up p scoped l d n v b zone_found).0
                (clean_up p scoped l d n v b zone_found).1)
            (sym e)
            (subst (λ r. IsKept r.0 r.1) (sym (clean_unmade l d n v zone_found gate))
              (λ m u h. k m u (fewer l n v m u h).1))
      | inl e ↦
          subst
            (λ b.
              IsKept (clean_up p scoped l d n v b zone_found).0
                (clean_up p scoped l d n v b zone_found).1)
            (sym e)
            (subst (λ r. IsKept r.0 r.1) (sym (clean_made l d n v zone_found gate))
              (λ m u h.
                kept_by_delete l d n v m u zone_found gate (fewer l n v m u h).0
                ∙ k m u (fewer l n v m u h).1))
    ]
  ]
