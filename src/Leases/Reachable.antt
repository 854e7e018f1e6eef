-- ===== src/Leases/Reachable.antt =====
-- Every order of the operations of internal/acme/dns_leases.go: what is relied on stays in DNS, and the
-- last challenge at a name clears it.
use wecert.Base.{
  ◌≡◌, ◌⊎◌, inl, inr, Bool, true, false, not, ◌&&◌, [], Text, text_eq, text_eq_iff, mem, arith,
  refl, ap, sym, ◌∙◌, Bool-cases,
}
use mathlib.Core.Path.{subst}
use wecert.Base.Assoc.{lookup}
use wecert.Leases.{
  Ended, done, broken, forgot, Provider, Registry, add_lease, remove_lease, add_under_lock, present,
  recovered, clean_up,
}
use wecert.Leases.Registry.{
  leased, leased-add_lease, leased-release, others_live-remove_lease, none_live-remove_lease,
}
use wecert.Leases.Kept.{
  IsFaithful, IsKept, IsKept-present, IsKept-clean_up, clean_deferred, clean_made,
}

module _ (p : Provider) (scoped : Bool) (faithful : IsFaithful p scoped) where
  -- The operations on the registry, in any order: a value is only registered where it is in DNS.
  pub data Step (l : Registry) (d : p.Dns) (l' : Registry) (d' : p.Dns) : Type 0 where
    presents :
        (n v : Text) (zone_found done_well : Bool)
        → present p l d n v zone_found ≡ (l', d', done_well)
        → Step l d l' d'
    cleans :
        (n v : Text) (made zone_found : Bool) (ended : Ended)
        → clean_up p scoped l d n v made zone_found ≡ (l', d', ended)
        → Step l d l' d'
    registers : (n v : Text) → p.holds d n v ≡ true → l' ≡ add_lease l n v → d' ≡ d → Step l d l' d'
    registers_locked :
        (n v : Text) → p.holds d n v ≡ true → l' ≡ add_under_lock l n v → d' ≡ d → Step l d l' d'

  pub data Reach (l : Registry) (d : p.Dns) : Registry → p.Dns → Type 0 where
    here : Reach l d l d
    next : {l1 l2 : Registry} {d1 d2 : p.Dns} → Reach l d l1 d1 → Step l1 d1 l2 d2 → Reach l d l2 d2

  IsKept-add_lease :
      (l : Registry) (d : p.Dns) (n v : Text)
      → p.holds d n v ≡ true
      → IsKept p scoped faithful l d
      → IsKept p scoped faithful (add_lease l n v) d
  IsKept-add_lease l d n v held k m u h =
      grind (arith, k, held, leased-add_lease l n v m u, text_eq_iff n m, text_eq_iff u v)

  IsKept-Step :
      {l l' : Registry} {d d' : p.Dns}
      → Step l d l' d'
      → IsKept p scoped faithful l d
      → IsKept p scoped faithful l' d'
  unfolding add_under_lock
  IsKept-Step {l} {l'} {d} {d'} (presents n v zone_found b e) k =
      subst (λ r. IsKept p scoped faithful r.0 r.1) e
        (IsKept-present p scoped faithful l d n v zone_found k)
  IsKept-Step {l} {l'} {d} {d'} (cleans n v made zone_found b e) k =
      subst (λ r. IsKept p scoped faithful r.0 r.1) e
        (IsKept-clean_up p scoped faithful l d n v made zone_found k)
  IsKept-Step {l} {l'} {d} {d'} (registers n v held e e') k =
      rw (e, e') (IsKept-add_lease l d n v held k)
  IsKept-Step {l} {l'} {d} {d'} (registers_locked n v held e e') k =
      rw (e, e')
        (λ m u h.
          IsKept-add_lease l d n v held k m u (sym (leased-release (add_lease l n v) n m u) ∙ h))

  nothing_leased : (d : p.Dns) → IsKept p scoped faithful [] d
  unfolding lookup mem
  nothing_leased d m u h = cc

  IsKept-Reach_from :
      {l : Registry} {d : p.Dns} {l' : Registry} {d' : p.Dns}
      → IsKept p scoped faithful l d
      → Reach l d l' d'
      → IsKept p scoped faithful l' d'
  IsKept-Reach_from k here = k
  IsKept-Reach_from k (next r st) = IsKept-Step st (IsKept-Reach_from k r)

  -- From an empty registry, after presents, clean-ups and registrations in any order, on any names, of
  -- which any may fail: every value that is relied on is in DNS. This is for a provider as documented,
  -- whether it deletes one value or all at a name, and registrations of values that are in DNS.
  pub IsKept-Reach :
      (d : p.Dns) (l' : Registry) (d' : p.Dns)
      → Reach [] d l' d'
      → (m u : Text) → leased l' m u ≡ true
      → p.holds d' m u ≡ true
  IsKept-Reach d l' d' r m u h = IsKept-Reach_from (nothing_leased d) r m u h

  recovered_done :
      (n v : Text) (zone_found : Bool) (r : p.Dns × Ended)
      → r.1 ≡ done
      → recovered p n v zone_found r ≡ (r.0, done)
  unfolding recovered
  recovered_done n v zone_found (d, done) h = refl
  recovered_done n v zone_found (d, broken) h = cc
  recovered_done n v zone_found (d, forgot) h = cc

  -- A provider that deletes every value at a name is called by the last challenge there, and leaves
  -- nothing behind: where the registry has no value but the challenge's own at the name, and the call
  -- succeeds, no record of any value is left at it. Where the registry has another, a clean-up leaves
  -- DNS as it is.
  pub clean_up_last :
      (l : Registry) (d : p.Dns) (n v : Text) (zone_found : Bool)
      → scoped ≡ false
      → (p.delete d n v).1 ≡ done
      → (((u : Text) → (leased l n u && not (text_eq u v)) ≡ false)
          × ((u : Text) → p.holds (clean_up p scoped l d n v true zone_found).1 n u ≡ false))
        ⊎ (((u : Text) × (text_eq u v ≡ false) × (leased l n u ≡ true))
            × ((clean_up p scoped l d n v true zone_found).1 ≡ d))
  clean_up_last l d n v zone_found all well = elim (Bool-cases (remove_lease l n v).1) [
    | inl others ↦ inr (
      others_live-remove_lease l n v others,
      ap (λ r. r.1)
          (clean_deferred p scoped faithful l d n v true zone_found (rw (others, all) refl)),
    )
    | inr last ↦ inl (
      λ u. none_live-remove_lease l n v u last,
      λ u.
          ap (λ r. p.holds r.1 n u) (clean_made p scoped faithful l d n v zone_found (rw last refl))
          ∙ ap (λ r. p.holds r.0 n u) (recovered_done n v zone_found (p.delete d n v) well)
          ∙ faithful.delete_all d n v u all well,
    )
  ]
