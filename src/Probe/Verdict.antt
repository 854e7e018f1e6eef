-- ===== src/Probe/Verdict.antt =====
-- What internal/acme/dns_probe.go and LookupTXT conclude, read against the answers themselves.
use wecert.Base.{
  suc, ◌≤◌, ◌≡◌, ◌↔◌, ◌⊎◌, inl, inr, Bool, true, false, not, ◌&&◌, some, if◌then◌else◌, List, [],
  ◌∷◌, Text, length, arith, refl, All,
}
use wecert.Probe.{
  no_error, name_error, refused_code, other_code, Reply, silent, response, NsProbe, probe_of,
  probe_txt, missing, bucket_of, is_confirmed, is_missing, lookup_counts, lookup_txt,
}

-- An authority says that the value is not there.
abbrev pub denies : Reply → Bool
denies silent = false
denies (response no_error truncated authoritative has_txt) =
    not truncated && authoritative && not has_txt
denies (response name_error truncated authoritative has_txt) = authoritative
denies (response refused_code truncated authoritative has_txt) = false
denies (response other_code truncated authoritative has_txt) = false

-- An authority returns the value, in an answer that is whole.
abbrev pub confirms : Reply → Bool
confirms silent = false
confirms (response no_error truncated authoritative has_txt) =
    not truncated && authoritative && has_txt
confirms (response name_error truncated authoritative has_txt) = false
confirms (response refused_code truncated authoritative has_txt) = false
confirms (response other_code truncated authoritative has_txt) = false

lookup_of :
    (ns : Text) (r : Reply) (rs : List NsProbe)
    → lookup_counts (probe_of ns r ∷ rs) ≡ (
        if denies r
        then ((lookup_counts rs).0, suc (lookup_counts rs).1, (lookup_counts rs).2)
        else if confirms r
        then (suc (lookup_counts rs).0, (lookup_counts rs).1, (lookup_counts rs).2)
        else ((lookup_counts rs).0, (lookup_counts rs).1, suc (lookup_counts rs).2))
unfolding lookup_counts probe_of
lookup_of ns silent rs = refl
lookup_of ns (response no_error true a h) rs = refl
lookup_of ns (response no_error false true true) rs = refl
lookup_of ns (response no_error false true false) rs = refl
lookup_of ns (response no_error false false h) rs = refl
lookup_of ns (response name_error t true h) rs = refl
lookup_of ns (response name_error t false h) rs = refl
lookup_of ns (response refused_code t a h) rs = refl
lookup_of ns (response other_code t a h) rs = refl

denial_only : (r : Reply) → denies r ≡ true → confirms r ≡ false
denial_only silent h = refl
denial_only (response no_error t a v) h = grind arith
denial_only (response name_error t a v) h = refl
denial_only (response refused_code t a v) h = refl
denial_only (response other_code t a v) h = refl

abbrev pub AllDeny : List (Text × Reply) → Type 0
AllDeny = All (λ a. denies a.1 ≡ true)

denied_counts :
    (replies : List (Text × Reply))
    → AllDeny replies
    → lookup_counts (probe_txt replies) ≡ (0, length replies, 0)
unfolding probe_txt lookup_counts
denied_counts [] h = refl
denied_counts ((ns, r) ∷ replies) h =
    rw (lookup_of ns r (probe_txt replies), h.0, denied_counts replies h.1) refl

all_deny :
    (replies : List (Text × Reply))
    → (lookup_counts (probe_txt replies)).0 ≡ 0
    → (lookup_counts (probe_txt replies)).2 ≡ 0
    → AllDeny replies
unfolding probe_txt
all_deny [] c u = tt
all_deny ((ns, r) ∷ replies) c u =
    let h : (denies r ≡ true)
        × ((lookup_counts (probe_txt replies)).0 ≡ 0)
        × ((lookup_counts (probe_txt replies)).2 ≡ 0) =
      ground (arith, c, u, lookup_of ns r (probe_txt replies)) in
    (h.0, all_deny replies h.1 h.2)

absent_counts :
    (rs : List NsProbe)
    → lookup_txt rs ≡ some false
    → ((lookup_counts rs).0 ≡ 0) × (1 ≤ (lookup_counts rs).1) × ((lookup_counts rs).2 ≡ 0)
unfolding lookup_txt
absent_counts rs h = ground (arith, h)

-- LookupTXT reports a record replies absent exactly when there was a server to ask and each of them denied
-- the value with authority: NXDOMAIN, or a whole answer without it. One server that is silent, refuses,
-- truncates or answers without authority leaves the question open.
pub lookup_txt-probe_txt :
    (replies : List (Text × Reply))
    → (lookup_txt (probe_txt replies) ≡ some false) ↔ ((1 ≤ length replies) × AllDeny replies)
unfolding lookup_txt probe_txt
lookup_txt-probe_txt replies = (
  λ h.
      let k = absent_counts (probe_txt replies) h in
      let every = all_deny replies k.0 k.2 in
      (ground (arith, k, denied_counts replies every), every),
  λ h. rw (denied_counts replies h.1) ground (arith, h.0),
)

pub bucket_of-probe_of :
    (ns : Text) (r : Reply)
    → ((denies r ≡ true) × (bucket_of (probe_of ns r) ≡ missing))
      ⊎ ((denies r ≡ false)
          × (is_missing (bucket_of (probe_of ns r)) ≡ 0)
          × (is_confirmed (bucket_of (probe_of ns r)) ≡ (if confirms r then 1 else 0)))
unfolding bucket_of probe_of
bucket_of-probe_of ns silent = inr (refl, refl, refl)
bucket_of-probe_of ns (response no_error true a h) = inr (refl, refl, refl)
bucket_of-probe_of ns (response no_error false true true) = inr (refl, refl, refl)
bucket_of-probe_of ns (response no_error false true false) = inl (refl, refl)
bucket_of-probe_of ns (response no_error false false h) = inr (refl, refl, refl)
bucket_of-probe_of ns (response name_error t true h) = inl (refl, refl)
bucket_of-probe_of ns (response name_error t false h) = inr (refl, refl, refl)
bucket_of-probe_of ns (response refused_code t a h) = inr (refl, refl, refl)
bucket_of-probe_of ns (response other_code t a h) = inr (refl, refl, refl)
