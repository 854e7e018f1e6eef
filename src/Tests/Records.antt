-- ===== src/Tests/Records.antt =====
-- The TXT records of internal/acme, at a provider that deletes whatever a name holds.
use wecert.Base.{
  ◌+◌, ◌*◌, ◌≤◌, ◌≡◌, ◌↔◌, ◌⊎◌, not, ◌&&◌, true, false, none, some, List, [], ◌∷◌, Text, text_eq,
  text_eq_iff, mem, codes, length, arith, refl,
}
use wecert.Base.Int.{pos}
use wecert.Base.Time.{Time, second, minute, from_unix, to_unix}
use wecert.Base.Assoc.{lookup, remove, put}
use wecert.Leases.{done, Provider, Registry, add_lease, present, clean_up}
use wecert.Leases.Registry.{leased, leased-add_lease, values_at-remove}
use wecert.Leases.Kept.{IsFaithful}
use wecert.Leases.Reachable.{here, next, presents, cleans, IsKept-Reach, clean_up_last}
use wecert.Probe.{Reply, silent, response, no_error, name_error, probe_txt, lookup_txt}
use wecert.Probe.Verdict.{AllDeny, lookup_txt-probe_txt}
use wecert.Probe.Zone.{ZoneRound, propagated, wait_zone}
use wecert.Probe.Propagated.{EndsBacked, wait_zone_iff}
use wecert.CertStore.{stored}
use wecert.AuthzStore.{Authorization, AuthzRow, AuthzTable}
use wecert.AuthzStore.Rows.{row_of, mark_all, StuckSince, StuckSince-mark_all_first}
use wecert.Reclaim.{Surroundings, Held}

abbrev noon : Time
noon = 63900000000 * second

abbrev challenge : Text
challenge = codes "_acme-challenge.a.example."

-- A provider over the records that are in DNS.
abbrev delete_all : Provider
delete_all = record {
  Dns = Registry;
  holds = leased;
  write = λ d n v. (add_lease d n v, done);
  delete = λ d n v. (remove n d, done);
  recover = none;
}

delete_all-IsFaithful : IsFaithful delete_all false
unfolding mem
delete_all-IsFaithful = record {
  write_keeps = λ d n v m u h. ground (arith, h, leased-add_lease d n v m u);
  write_adds =
      λ d n v h. ground (arith, leased-add_lease d n v n v, text_eq_iff n n, text_eq_iff v v);
  delete_elsewhere = λ d n v m u h. ground (arith, h, values_at-remove n m d);
  delete_scoped = λ d n v u h e. cc;
  delete_all = λ d n v u h e. ground (arith, values_at-remove n n d, text_eq_iff n n);
  recover_exact = λ r e d n v m u h. cc;
}

abbrev first : Text
first = codes "first"

abbrev second_value : Text
second_value = codes "second"

abbrev one_lease : Registry
one_lease = (challenge, first ∷ []) ∷ []

abbrev two_leases : Registry
two_leases = (challenge, second_value ∷ first ∷ []) ∷ []

abbrev second_lease : Registry
second_lease = (challenge, second_value ∷ []) ∷ []

-- Two challenges at one name write their values, and the first is cleaned up: nothing is deleted yet.
IsKept-Reach_example : leased two_leases challenge second_value ≡ true
unfolding present clean_up leased mem text_eq lookup put
IsKept-Reach_example =
    IsKept-Reach delete_all false delete_all-IsFaithful [] second_lease two_leases
      (next
        (next (next here (presents challenge first true true refl))
          (presents challenge second_value true true refl))
        (cleans challenge first true true done refl))
      challenge second_value refl

clean_up_last_example :
    (((u : Text) → (leased one_lease challenge u && not (text_eq u first)) ≡ false)
      × ((u : Text)
          → leased
              (clean_up delete_all false one_lease one_lease challenge first true true).1
              challenge
              u
            ≡ false))
    ⊎ (((u : Text) × (text_eq u first ≡ false) × (leased one_lease challenge u ≡ true))
        × ((clean_up delete_all false one_lease one_lease challenge first true true).1 ≡ one_lease))
clean_up_last_example =
    clean_up_last delete_all false delete_all-IsFaithful one_lease one_lease challenge first true
      refl refl

-- Two servers of which each denies the value, one by NXDOMAIN.
abbrev denials : List (Text × Reply)
denials =
    (codes "ns1", response no_error false true false)
    ∷ (codes "ns2", response name_error false true false)
    ∷ []

lookup_txt-probe_txt_example :
    (lookup_txt (probe_txt denials) ≡ some false) ↔ ((1 ≤ length denials) × AllDeny denials)
lookup_txt-probe_txt_example = lookup_txt-probe_txt denials

-- Two servers that return the value, one on two addresses, and one that is silent.
abbrev confirmations : List (Text × Reply)
confirmations =
    (codes "ns1", response no_error false true true)
    ∷ (codes "ns1", response no_error false true true)
    ∷ (codes "ns2", response no_error false true true)
    ∷ (codes "ns3", silent)
    ∷ []

-- A round in which the servers of one record return it, and a resolver does.
abbrev good_round : ZoneRound
good_round = record {
  answers =
      record {
        replies = confirmations;
        resolvers = response no_error false false true ∷ silent ∷ [];
      }
      ∷ [];
  cancelled = false;
  now = noon;
  cancelled_asleep = false;
}

wait_zone_iff_example :
    (wait_zone 3 noon (good_round ∷ []) ≡ some propagated) ↔ EndsBacked 3 noon (good_round ∷ [])
wait_zone_iff_example = wait_zone_iff 3 noon (good_round ∷ [])

-- An authorization of an interrupted pass.
abbrev interrupted : Authorization
interrupted = record {
  cert_name = codes "c";
  authz_url = codes "https://ca/authz/1";
  identifier = codes "a.example";
  status = codes "pending";
  challenge_url = [];
  challenge_token = codes "token";
  txt_name = challenge;
  txt_value = first;
  presented = false;
  challenge_sent = false;
  challenge_prepared_at = noon;
}

abbrev interrupted_row : AuthzRow
interrupted_row = record {
  authz = interrupted;
  reclaim_attempts = 2;
  reclaim_last_error = [];
  reclaim_stuck_since = 0;
}

abbrev table : AuthzTable
table = record { rows = interrupted_row ∷ []; reads = true; writes = true }

StuckSince-mark_all_first_example : StuckSince (stored noon) 5 (
    row_of
      (codes "c")
      (codes "https://ca/authz/1")
      (mark_all table (codes "c") (codes "https://ca/authz/1") (
        (codes "SERVFAIL", noon)
        ∷ (codes "timeout", noon + minute)
        ∷ (codes "timeout", noon + 2 * minute)
        ∷ [])).rows)
unfolding row_of text_eq stored from_unix to_unix
StuckSince-mark_all_first_example =
    StuckSince-mark_all_first table (codes "c") (codes "https://ca/authz/1") (codes "SERVFAIL") noon
      ((codes "timeout", noon + minute) ∷ (codes "timeout", noon + 2 * minute) ∷ []) interrupted_row
      refl refl refl refl

-- An hour later both servers deny the record, which was never written.
abbrev surroundings : Surroundings delete_all
surroundings = record {
  key_authorization = λ token. some (codes "key");
  challenge_info = λ identifier key. (challenge, first);
  servers = λ d n v. some denials;
  wait = λ d. d;
  value_scoped = false;
  made = true;
  zone_found = λ n. true;
  propagation_timeout = pos (5 * minute);
  describe = λ e. [];
  now = noon + 60 * minute;
}

abbrev held : Held delete_all
held = record { authz = table; leases = []; dns = [] }
