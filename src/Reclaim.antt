-- ===== src/Reclaim.antt =====
-- internal/acme/flow_cleanup.go and internal/acme/txt_reclaim_guard.go: the TXT records that no order
-- needs any more, and the rows that know of them. The DNS, the key of a token, the challenge record of a
-- name and the answers of its servers are arguments; a wait is what it does to DNS.
pub mod Sweep
pub mod Grounds
pub mod Rows
use wecert.Base.{
  ℕ, zero, suc, ◌+◌, ◌≡◌, Bool, true, false, not, ◌&&◌, ◌||◌, Option, none, some, if◌then◌else◌,
  List, [], ◌∷◌, Text, text_eq, ltb, leb, ◌==◌, Result, ok, err,
}
use wecert.Base.Int.{ℤ, ltb_ℤ, pos}
use wecert.Base.Time.{Time, Duration, is_zero, after, sub}
use wecert.Leases.{
  Ended, done, broken, forgot, Provider, Registry, add_lease, remove_lease, release, add_under_lock,
  clean_up,
}
use wecert.Probe.{Reply, probe_txt, lookup_txt}
use wecert.CertStore.{TableError}
use wecert.AuthzStore.{
  Authorization, AuthzRow, AuthzTable, list_authorizations, list_presented, put_authorization,
  delete_authorization, mark_stuck, clear_stuck, list_stuck, has_key,
}

-- txtReclaim, whose third value goes with an error
pub data TxtReclaim : Type 0 where
  reclaimed kept_propagating : TxtReclaim

pub data ReclaimError : Type 0 where
  no_key_authorization no_probe clean_up_failed provider_lost_record missing_txt_clue : ReclaimError

-- What the manager's collaborators answer.
pub record Surroundings (p : Provider) : Type 0 where
  pub key_authorization : Text → Option Text
  -- The name and the value of the challenge record of an identifier.
  pub challenge_info : Text → Text → Text × Text
  -- What the zone's servers answer for a value, or none if they cannot be found.
  pub servers : p.Dns → Text → Text → Option (List (Text × Reply))
  pub wait : p.Dns → p.Dns
  pub value_scoped : Bool
  pub made : Bool
  pub zone_found : Text → Bool
  pub propagation_timeout : Duration
  pub describe : ReclaimError → Text
  pub now : Time

-- What the operations change: the rows, the registry of this process, and DNS.
pub record Held (p : Provider) : Type 0 where
  pub authz : AuthzTable
  pub leases : Registry
  pub dns : p.Dns

module _ {p : Provider} (s : Surroundings p) where
  unfoldable pub register_rows : Registry → List Authorization → Registry
  unfolding add_under_lock
  register_rows l [] = l
  register_rows l (a ∷ authzs) =
      register_rows
        (if text_eq a.txt_name [] || text_eq a.txt_value []
          then l
          else add_under_lock l a.txt_name a.txt_value)
        authzs

  abbrev pub registered_rows : Held p → Result TableError (List Authorization) → Held p
  registered_rows h (err e) = h
  registered_rows h (ok authzs) = record h { leases = register_rows h.leases authzs }

  unfoldable pub register_recovered_leases : Held p → Held p
  unfolding register_rows list_presented
  register_recovered_leases h = registered_rows h (list_presented h.authz)

  -- Another presented row claims the value.
  unfoldable pub claimed : Text → Text → Option Authorization → List Authorization → Bool
  claimed fqdn value except [] = false
  claimed fqdn value except (r ∷ rs) =
      let rest = claimed fqdn value except rs in
      let own : Bool = elim except [ none ↦ false | some a ↦ has_key a.cert_name a.authz_url r ] in
      if own then rest else (text_eq r.txt_name fqdn && text_eq r.txt_value value) || rest

  -- releaseStaleLeaseExcept; releaseStaleLease passes no row.
  unfoldable pub release_stale_lease : Held p → Text → Text → Option Authorization → Held p
  unfolding list_presented claimed remove_lease release
  release_stale_lease h fqdn value except =
      if text_eq fqdn [] || text_eq value [] then h else elim (list_presented h.authz) [
        | err e ↦ record h { leases = release h.leases fqdn }
        | ok rows ↦
            if claimed fqdn value except rows
            then record h { leases = release h.leases fqdn }
            else record h { leases = release (remove_lease h.leases fqdn value).0 fqdn }
      ]

  unfoldable pub release_row_stale_lease : Held p → Authorization → Text → Held p
  unfolding release_stale_lease
  release_row_stale_lease h a key_auth =
      if text_eq a.txt_name [] || text_eq a.txt_value []
      then h
      else if text_eq (s.challenge_info a.identifier key_auth).1 a.txt_value
      then h
      else release_stale_lease h a.txt_name a.txt_value (some a)

  -- DNSSolver.CleanUp for the record of an identifier.
  unfoldable pub clean_up_record : Held p → Text → Text → Held p × Ended
  unfolding clean_up
  clean_up_record h identifier key_auth =
      let (fqdn, value) = s.challenge_info identifier key_auth in
      let (l, d, ended) =
        clean_up p s.value_scoped h.leases h.dns fqdn value s.made (s.zone_found fqdn) in
      (record h { leases = l; dns = d }, ended)

  -- DNSSolver.LookupTXT: whether the record is there, or none.
  unfoldable pub look_up : p.Dns → Text → Text → Option Bool
  unfolding lookup_txt probe_txt
  look_up d identifier key_auth =
      let (fqdn, value) = s.challenge_info identifier key_auth in
      elim (s.servers d fqdn value) [ none ↦ none | some replies ↦ lookup_txt (probe_txt replies) ]

  abbrev pub with_lease : Held p → Text → Text → Held p
  with_lease h fqdn value = record h { leases = add_lease h.leases fqdn value }

  -- Before the provider is asked to delete the record of a presented row.
  abbrev pub leased_for : Held p → Authorization → Text → Held p
  leased_for h a key_auth =
      release_row_stale_lease
        (if text_eq a.txt_name []
          then h
          else with_lease h a.txt_name (s.challenge_info a.identifier key_auth).1)
        a key_auth

  -- The same for a row that is not presented.
  abbrev pub probed_for : Held p → Authorization → Text → Held p
  probed_for h a key_auth =
      let (fqdn, value) = s.challenge_info a.identifier key_auth in
      release_row_stale_lease (with_lease h fqdn value) a key_auth

  unfoldable pub past_clean_up : Held p × Ended → Held p × Result ReclaimError Bool
  past_clean_up (h, done) = (h, ok true)
  past_clean_up (h, broken) = (h, err clean_up_failed)
  past_clean_up (h, forgot) = (h, err clean_up_failed)

  -- removeAuthzTXT, once the key is computed
  abbrev pub removed_with : Held p → Authorization → Option Text → Held p × Result ReclaimError Bool
  removed_with h a none = (h, err no_key_authorization)
  removed_with h a (some key_auth) =
      past_clean_up (clean_up_record (leased_for h a key_auth) a.identifier key_auth)

  unfoldable pub remove_authz_txt : Held p → Authorization → Held p × Result ReclaimError Bool
  unfolding add_lease release_row_stale_lease clean_up_record past_clean_up
  remove_authz_txt h a =
      if not a.presented
      then (h, ok true)
      else if text_eq a.challenge_token [] || text_eq a.identifier []
      then (h, ok false)
      else removed_with h a (s.key_authorization a.challenge_token)

  -- The challenge is younger than the propagation window.
  unfoldable pub is_recent : Authorization → Bool
  is_recent a =
      not (is_zero a.challenge_prepared_at)
      && not (after a.challenge_prepared_at s.now)
      && ltb_ℤ (sub s.now a.challenge_prepared_at) s.propagation_timeout

  -- The record is denied: released, unless a write may still appear.
  unfoldable pub denied : Held p → Authorization → Text → Held p × Result ReclaimError TxtReclaim
  unfolding is_recent release_stale_lease
  denied h a key_auth =
      let (fqdn, value) = s.challenge_info a.identifier key_auth in
      if is_recent a
      then (h, ok kept_propagating)
      else (release_stale_lease h fqdn value none, ok reclaimed)

  -- The provider forgot the record: what its servers say when they are asked once more.
  unfoldable pub asked_again :
      Held p → Authorization → Text → Option Bool → Held p × Result ReclaimError TxtReclaim
  unfolding release_stale_lease
  asked_again h a key_auth none = (h, err provider_lost_record)
  asked_again h a key_auth (some true) = (h, err provider_lost_record)
  asked_again h a key_auth (some false) =
      let (fqdn, value) = s.challenge_info a.identifier key_auth in
      (release_stale_lease h fqdn value none, ok reclaimed)

  -- Past the clean-up of a record that was found.
  unfoldable pub past_found :
      Authorization → Text → Held p × Ended → Held p × Result ReclaimError TxtReclaim
  unfolding look_up asked_again
  past_found a key_auth (h, done) = (h, ok reclaimed)
  past_found a key_auth (h, broken) = (h, err clean_up_failed)
  past_found a key_auth (h, forgot) =
      let waited = record h { dns = s.wait h.dns } in
      asked_again waited a key_auth (look_up waited.dns a.identifier key_auth)

  -- reclaimUnpresentedTXT, once its servers have answered
  unfoldable pub reclaimed_with :
      Held p → Authorization → Text → Option Bool → Held p × Result ReclaimError TxtReclaim
  unfolding denied past_found add_lease release_row_stale_lease clean_up_record
  reclaimed_with h a key_auth none = (h, err no_probe)
  reclaimed_with h a key_auth (some true) =
      past_found a key_auth (clean_up_record (probed_for h a key_auth) a.identifier key_auth)
  reclaimed_with h a key_auth (some false) = denied h a key_auth

  abbrev pub reclaimed_for :
      Held p → Authorization → Option Text → Held p × Result ReclaimError TxtReclaim
  reclaimed_for h a none = (h, err no_key_authorization)
  reclaimed_for h a (some key_auth) =
      reclaimed_with h a key_auth (look_up h.dns a.identifier key_auth)

  unfoldable pub reclaim_unpresented_txt :
      Held p → Authorization → Held p × Result ReclaimError TxtReclaim
  unfolding look_up reclaimed_with
  reclaim_unpresented_txt h a = reclaimed_for h a (s.key_authorization a.challenge_token)
