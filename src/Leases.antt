-- ===== src/Leases.antt =====
-- internal/acme/dns_leases.go, dns_present.go and the registry of internal/acme/dns.go: which values of
-- a TXT name this process relies on, and what that lets a clean-up delete. An operation holds the
-- mutex of its name across its provider call, so that it is one step for the name; the registry and
-- the records of other names are not its concern. The DNS and the provider are arguments.
pub mod Registry
pub mod Kept
pub mod Reachable
use wecert.Base.{
  ℕ, ◌≡◌, Bool, true, false, not, ◌&&◌, ◌||◌, Option, none, some, if◌then◌else◌, List, [], ◌∷◌,
  Text, text_eq, mem, ◌==◌, length,
}
use wecert.Base.Assoc.{Assoc, lookup, put, remove}

-- How a call of the provider ended.
pub data Ended : Type 0 where
  done broken forgot : Ended

-- The records in DNS, and the calls that change them. `recover` is the Cloudflare recovery.
pub record Provider : Type 1 where
  pub Dns : Type 0
  pub holds : Dns → Text → Text → Bool
  pub write : Dns → Text → Text → Dns × Ended
  pub delete : Dns → Text → Text → Dns × Ended
  pub recover : Option (Dns → Text → Text → Dns × Ended)

-- entries, with the values of each name; between operations no goroutine references an entry.
abbrev pub Registry : Type 0
Registry = Assoc (List Text)

abbrev pub values_at : Text → Registry → List Text
values_at fqdn l = elim (lookup fqdn l) [ none ↦ [] | some vs ↦ vs ]

-- delete(e.values, value)
unfoldable pub drop_value : Text → List Text → List Text
drop_value v [] = []
drop_value v (u ∷ us) = let rest = drop_value v us in if text_eq u v then rest else u ∷ rest

-- txtLeases.add
unfoldable pub add_lease : Registry → Text → Text → Registry
add_lease l fqdn value =
    let vs = values_at fqdn l in put fqdn (if mem value vs then vs else value ∷ vs) l

-- txtLeases.remove: the registry, and whether another value is still live at the name.
unfoldable pub remove_lease : Registry → Text → Text → Registry × Bool
unfolding drop_value
remove_lease l fqdn value = elim (lookup fqdn l) [
  | none ↦ (l, false)
  | some vs ↦ (put fqdn (drop_value value vs) l, not (length (drop_value value vs) == 0))
]

-- What the release function of txtLeases.lock does for the last reference to a name.
unfoldable pub release : Registry → Text → Registry
release l fqdn = if length (values_at fqdn l) == 0 then remove fqdn l else l

-- addUnderLock
unfoldable pub add_under_lock : Registry → Text → Text → Registry
unfolding add_lease release
add_under_lock l fqdn value = release (add_lease l fqdn value) fqdn

module _ (p : Provider) where
  open p use {Dns}

  -- Past the provider call of Present.
  unfoldable pub written : Registry → Text → Text → Dns × Ended → Registry × Dns × Bool
  unfolding add_lease release
  written l fqdn value (d, done) = (release (add_lease l fqdn value) fqdn, d, true)
  written l fqdn value (d, broken) = (release l fqdn, d, false)
  written l fqdn value (d, forgot) = (release l fqdn, d, false)

  -- Present past the lock; `zone_found` is the answer of the SOA walk.
  unfoldable pub present : Registry → Dns → Text → Text → Bool → Registry × Dns × Bool
  unfolding written
  present l d fqdn value zone_found =
      if zone_found then written l fqdn value (p.write d fqdn value) else (release l fqdn, d, false)

  -- Past the provider call of CleanUp. The error of a recovery wraps the one before it.
  unfoldable pub recovered : Text → Text → Bool → Dns × Ended → Dns × Ended
  recovered fqdn value zone_found (d, done) = (d, done)
  recovered fqdn value zone_found (d, broken) = (d, broken)
  recovered fqdn value zone_found (d, forgot) = elim p.recover [
    | none ↦ (d, forgot)
    | some r ↦
        if zone_found
        then elim (r d fqdn value).1 [
          | done ↦ ((r d fqdn value).0, done)
          | _ ↦ ((r d fqdn value).0, forgot)
        ]
        else (d, forgot)
  ]

  -- CleanUp. `scoped` is valueScopedCleanup; `made` is whether a provider could be made.
  unfoldable pub clean_up :
      Bool → Registry → Dns → Text → Text → Bool → Bool → Registry × Dns × Ended
  unfolding remove_lease recovered release
  clean_up scoped l d fqdn value made zone_found =
      let (l', others_live) = remove_lease l fqdn value in
      let (d', cleaned) = recovered fqdn value zone_found (p.delete d fqdn value) in
      if others_live && not scoped
      then (release l' fqdn, d, done)
      else if made
      then (release l' fqdn, d', cleaned)
      else (release l' fqdn, d, broken)
