-- ===== src/Probe/Ready.antt =====
-- What probeReadyWithDelegation of internal/acme/dns_probe.go counts, read against the answers.
use wecert.Base.{
  ◌≤◌, ◌≡◌, inl, inr, Bool, true, false, ◌&&◌, ◌||◌, if◌then◌else◌, List, [], ◌∷◌, Text, text_eq,
  text_eq_iff, mem, length, arith, refl, All, Bool-cases,
}
use wecert.Probe.{
  no_error, name_error, refused_code, other_code, Reply, silent, response, NsProbe, probe_of,
  probe_txt, bucket_of, with_name, confirming_ns, is_confirmed, is_missing, count_of,
}
use wecert.Probe.Verdict.{denies, confirms, bucket_of-probe_of}

-- The named server returns the value.
abbrev pub confirmed_by : Text → List (Text × Reply) → Bool
confirmed_by n [] = false
confirmed_by n ((ns, r) ∷ replies) = (text_eq n ns && confirms r) || confirmed_by n replies

pub mem-with_name :
    (n ns : Text) (l : List Text) → mem n (with_name ns l) ≡ (text_eq n ns || mem n l)
unfolding with_name mem
mem-with_name n ns l = ground (arith, text_eq_iff n ns)

pub IsNodup : List Text → Type 0
IsNodup [] = Unit
IsNodup (x ∷ l) = (mem x l ≡ false) × IsNodup l

IsNodup-with_name : (ns : Text) (l : List Text) → IsNodup l → IsNodup (with_name ns l)
unfolding with_name IsNodup
IsNodup-with_name ns l h = elim (Bool-cases (mem ns l)) [ inl e ↦ rw e h | inr e ↦ rw e (e, h) ]

confirming_step :
    (ns : Text) (r : Reply) (rs : List NsProbe)
    → confirming_ns (probe_of ns r ∷ rs)
      ≡ (if confirms r then with_name ns (confirming_ns rs) else confirming_ns rs)
unfolding confirming_ns bucket_of probe_of
confirming_step ns silent rs = refl
confirming_step ns (response no_error true a h) rs = refl
confirming_step ns (response no_error false true true) rs = refl
confirming_step ns (response no_error false true false) rs = refl
confirming_step ns (response no_error false false h) rs = refl
confirming_step ns (response name_error t true h) rs = refl
confirming_step ns (response name_error t false h) rs = refl
confirming_step ns (response refused_code t a h) rs = refl
confirming_step ns (response other_code t a h) rs = refl

pub mem-confirming_ns :
    (n : Text) (replies : List (Text × Reply))
    → mem n (confirming_ns (probe_txt replies)) ≡ confirmed_by n replies
unfolding probe_txt mem confirming_ns
mem-confirming_ns n [] = refl
mem-confirming_ns n ((ns, r) ∷ replies) = ground (
  arith,
  confirming_step ns r (probe_txt replies),
  mem-with_name n ns (confirming_ns (probe_txt replies)),
  mem-confirming_ns n replies,
)

pub IsNodup-confirming_ns :
    (replies : List (Text × Reply)) → IsNodup (confirming_ns (probe_txt replies))
unfolding probe_txt confirming_ns IsNodup
IsNodup-confirming_ns [] = tt
IsNodup-confirming_ns ((ns, r) ∷ replies) = elim (Bool-cases (confirms r)) [
  | inl e ↦
      rw (confirming_step ns r (probe_txt replies), e)
        (IsNodup-with_name ns (confirming_ns (probe_txt replies)) (IsNodup-confirming_ns replies))
  | inr e ↦ rw (confirming_step ns r (probe_txt replies), e) (IsNodup-confirming_ns replies)
]

pub none_denies :
    (replies : List (Text × Reply))
    → count_of is_missing (probe_txt replies) ≡ 0
    → All (λ a. denies a.1 ≡ false) replies
unfolding probe_txt count_of
none_denies [] h = tt
none_denies ((ns, r) ∷ replies) h = elim (bucket_of-probe_of ns r) [
  | inl (d, e) ↦ ground (arith, h, e)
  | inr (d, e, c) ↦ (d, none_denies replies (ground (arith, h, e)))
]

pub some_confirms :
    (replies : List (Text × Reply))
    → count_of is_missing (probe_txt replies) ≡ 0
    → 1 ≤ count_of is_confirmed (probe_txt replies)
    → (n : Text) × confirmed_by n replies ≡ true
unfolding probe_txt count_of
some_confirms [] m h = ground arith
some_confirms ((ns, r) ∷ replies) m h = elim (bucket_of-probe_of ns r) [
  | inl (d, e) ↦ ground (arith, m, e)
  | inr (d, e, c) ↦ elim (Bool-cases (confirms r)) [
    | inl held ↦ (ns, rw held ground (arith, text_eq_iff ns ns))
    | inr other ↦
        let (n, k) = some_confirms replies (ground (arith, m, e)) (ground (arith, h, c, other)) in
        (n, rw (k) ground arith)
  ]
]

pub two_names :
    (l : List Text)
    → IsNodup l
    → 2 ≤ length l
    → (n : Text) × (m : Text) × (text_eq n m ≡ false) × (mem n l ≡ true) × (mem m l ≡ true)
unfolding mem IsNodup
two_names [] h k = ground arith
two_names (x ∷ []) h k = ground arith
two_names (x ∷ y ∷ l) h k =
    (x, y, ground (arith, h.0), ground (arith, text_eq_iff x x), ground (arith, text_eq_iff y y))
