-- ===== src/Probe.antt =====
-- internal/acme/dns_probe.go, and LookupTXT of internal/acme/dns_leases.go: what the answers of name
-- servers say of a TXT value. An answer is what is left of an exchange after its retries.
pub mod Verdict
pub mod Ready
pub mod Authorities
pub mod Agreement
pub mod Zone
pub mod Backed
pub mod Propagated
use wecert.Base.{
  ℕ, zero, suc, ◌+◌, ◌≡◌, Bool, true, false, not, ◌&&◌, ◌||◌, Option, none, some, if◌then◌else◌,
  List, [], ◌∷◌, Text, text_eq, mem, ltb, leb, ◌==◌, length, max,
}

pub data Rcode : Type 0 where
  no_error name_error refused_code other_code : Rcode

-- What an exchange ended with: nothing, or a response.
pub data Reply : Type 0 where
  silent : Reply
  response : (rcode : Rcode) (truncated authoritative has_txt : Bool) → Reply

-- nsProbe; `failed` is that err is set, `rcode` is none for the empty text.
pub record NsProbe : Type 0 where
  pub ns : Text
  pub has_value : Bool
  pub authoritative : Bool
  pub failed : Bool
  pub rcode : Option Rcode

abbrev unanswered_probe : Text → NsProbe
unanswered_probe ns = record {
  ns = ns;
  has_value = false;
  authoritative = false;
  failed = false;
  rcode = none;
}

-- What probeTXTWithExchange makes of the answer of one address.
unfoldable pub probe_of : Text → Reply → NsProbe
probe_of ns silent = record (unanswered_probe ns) { failed = true }
probe_of ns (response name_error truncated authoritative has_txt) = record (unanswered_probe ns) {
  authoritative = authoritative;
}
probe_of ns (response no_error true authoritative has_txt) = record (unanswered_probe ns) {
  failed = true;
}
probe_of ns (response no_error false authoritative has_txt) = record (unanswered_probe ns) {
  authoritative = authoritative;
  has_value = authoritative && has_txt;
}
probe_of ns (response refused_code truncated authoritative has_txt) = record (unanswered_probe ns) {
  rcode = some refused_code;
}
probe_of ns (response other_code truncated authoritative has_txt) = record (unanswered_probe ns) {
  rcode = some other_code;
}

unfoldable pub probe_txt : List (Text × Reply) → List NsProbe
unfolding probe_of
probe_txt [] = []
probe_txt ((ns, reply) ∷ answers) = probe_of ns reply ∷ probe_txt answers

-- The bucket of a probe.
pub data Bucket : Type 0 where
  refused failed_answer unreachable non_authoritative confirmed missing : Bucket

unfoldable pub bucket_of : NsProbe → Bucket
bucket_of r = elim r.rcode [
  | some c ↦ elim c [ refused_code ↦ refused | _ ↦ failed_answer ]
  | none ↦
      if r.failed
      then unreachable
      else if not r.authoritative
      then non_authoritative
      else if r.has_value
      then confirmed
      else missing
]

-- A set of names, as a map to true keeps it.
unfoldable pub with_name : Text → List Text → List Text
with_name ns names = if mem ns names then names else ns ∷ names

-- The names of the servers that resolved.
unfoldable pub authorities : List NsProbe → List Text
unfolding with_name
authorities [] = []
authorities (r ∷ rs) = with_name r.ns (authorities rs)

unfoldable pub confirming_ns : List NsProbe → List Text
unfolding with_name bucket_of
confirming_ns [] = []
confirming_ns (r ∷ rs) =
    let rest = confirming_ns rs in elim (bucket_of r) [ confirmed ↦ with_name r.ns rest | _ ↦ rest ]

abbrev pub is_confirmed : Bucket → ℕ
is_confirmed b = elim b [ confirmed ↦ 1 | _ ↦ 0 ]

abbrev pub is_missing : Bucket → ℕ
is_missing b = elim b [ missing ↦ 1 | _ ↦ 0 ]

unfoldable pub count_of : (Bucket → ℕ) → List NsProbe → ℕ
unfolding bucket_of
count_of f [] = 0
count_of f (r ∷ rs) = f (bucket_of r) + count_of f rs

-- probeReadyWithDelegation, less its summary
unfoldable pub probe_ready : ℕ → List NsProbe → Bool
unfolding count_of authorities confirming_ns
probe_ready delegated results =
    let authority_count = max delegated (length (authorities results)) in
    if ltb 0 (count_of is_missing results)
    then false
    else if count_of is_confirmed results == 0
    then false
    else if leb 2 authority_count && ltb (length (confirming_ns results)) 2
    then false
    else true

-- The counters of LookupTXT: confirmed, denied and unanswered.
unfoldable pub lookup_counts : List NsProbe → ℕ × ℕ × ℕ
lookup_counts [] = (0, 0, 0)
lookup_counts (r ∷ rs) =
    let (c, d, u) = lookup_counts rs in
    if r.failed || not r.authoritative
    then (c, d, suc u)
    else if r.has_value
    then (suc c, d, u)
    else (c, suc d, u)

-- What LookupTXT finds: whether the record is there, or `none` for an error.
unfoldable pub lookup_txt : List NsProbe → Option Bool
unfolding lookup_counts
lookup_txt results =
    let (confirmed_by, denied_by, unanswered) = lookup_counts results in
    if ltb 0 confirmed_by
    then some true
    else if ltb 0 denied_by && unanswered == 0
    then some false
    else none

-- recursiveVerdict, and what probeRecursive counts for one resolver.
pub record RecursiveVerdict : Type 0 where
  pub value_seen : Bool
  pub denied : Bool
  pub reachable : ℕ

unfoldable pub probe_recursive : List Reply → RecursiveVerdict
probe_recursive [] = record { value_seen = false; denied = false; reachable = 0 }
probe_recursive (reply ∷ replies) =
    let v = probe_recursive replies in
    elim reply [
      | silent ↦ v
      | response code truncated authoritative has_txt ↦ if truncated then v else elim code [
        | no_error ↦
            if has_txt
            then record v { value_seen = true; reachable = suc v.reachable }
            else record v { denied = true; reachable = suc v.reachable }
        | name_error ↦ record v { denied = true; reachable = suc v.reachable }
        | _ ↦ v
      ]
    ]

-- What recursiveReady makes of one record.
unfoldable pub is_pending : List Reply → Bool
unfolding probe_recursive
is_pending replies =
    let v = probe_recursive replies in
    if v.denied
    then true
    else if not v.value_seen && v.reachable == 0 && ltb 0 (length replies)
    then false
    else not v.value_seen

-- recursiveReady over the records of a round, each with the answers of the resolvers.
unfoldable pub recursive_ready : List (List Reply) → Bool
unfolding is_pending
recursive_ready [] = true
recursive_ready (replies ∷ records) =
    let rest = recursive_ready records in not (is_pending replies) && rest
