-- ===== src/Probe/Agreement.antt =====
-- probeReadyWithDelegation of internal/acme/dns_probe.go, read against the answers themselves.
use wecert.Base.{
  ℕ, ◌≤◌, ◌≡◌, ◌⊎◌, ◌↔◌, inl, inr, true, false, List, [], ◌∷◌, Text, text_eq, length, arith, refl,
  sym, ◌∙◌, All,
}
use wecert.Probe.{
  Reply, NsProbe, probe_txt, confirming_ns, is_confirmed, is_missing, count_of, authorities,
  probe_ready,
}
use wecert.Probe.Verdict.{denies, bucket_of-probe_of}
use wecert.Probe.Ready.{
  confirmed_by, mem-confirming_ns, IsNodup-confirming_ns, none_denies, some_confirms, two_names,
}
use wecert.Probe.Authorities.{IsOneName, IsOneName-authorities, authorities-IsOneName, two_members}

-- No server denies the value, and two of different names return it, or one where it is the only one that
-- the zone delegates to and that resolved.
abbrev pub IsAgreed : ℕ → List (Text × Reply) → Type 0
IsAgreed delegated replies =
    All (λ a. denies a.1 ≡ false) replies
    × ((n : Text) × confirmed_by n replies ≡ true)
    × (((delegated ≤ 1) × IsOneName replies)
        ⊎ ((n : Text) × (m : Text) × (text_eq n m ≡ false)
            × (confirmed_by n replies ≡ true)
            × (confirmed_by m replies ≡ true)))

none_missing :
    (replies : List (Text × Reply))
    → All (λ a. denies a.1 ≡ false) replies
    → count_of is_missing (probe_txt replies) ≡ 0
unfolding probe_txt count_of
none_missing [] h = refl
none_missing ((ns, r) ∷ replies) h =
    ground (arith, bucket_of-probe_of ns r, h.0, none_missing replies h.1)

some_confirmed :
    (n : Text) (replies : List (Text × Reply))
    → All (λ a. denies a.1 ≡ false) replies
    → confirmed_by n replies ≡ true
    → 1 ≤ count_of is_confirmed (probe_txt replies)
unfolding probe_txt count_of
some_confirmed n [] h k = cc
some_confirmed n ((ns, r) ∷ replies) h k =
    ground (arith, bucket_of-probe_of ns r, h.0, k, some_confirmed n replies h.1)

ready_counts :
    (delegated : ℕ) (rs : List NsProbe)
    → (probe_ready delegated rs ≡ true) ↔ (
        (count_of is_missing rs ≡ 0)
        × (1 ≤ count_of is_confirmed rs)
        × (((delegated ≤ 1) × (length (authorities rs) ≤ 1)) ⊎ (2 ≤ length (confirming_ns rs))))
unfolding probe_ready
ready_counts delegated rs = (λ h. ground (arith, h), λ h. ground (arith, h))

pub probe_ready_iff :
    (delegated : ℕ) (replies : List (Text × Reply))
    → (probe_ready delegated (probe_txt replies) ≡ true) ↔ IsAgreed delegated replies
probe_ready_iff delegated replies = (agreed, ready)
  where
    agreed : probe_ready delegated (probe_txt replies) ≡ true → IsAgreed delegated replies
    agreed h =
        let (m, c, two) = (ready_counts delegated (probe_txt replies)).0 h in
        (
          none_denies replies m,
          some_confirms replies m c,
          elim two [
            | inl (single, one) ↦ inl (single, authorities-IsOneName replies one)
            | inr several ↦
                let (n, k, ne, hn, hk) =
                  two_names (confirming_ns (probe_txt replies)) (IsNodup-confirming_ns replies)
                    several in
                inr (
                  n,
                  k,
                  ne,
                  sym (mem-confirming_ns n replies) ∙ hn,
                  sym (mem-confirming_ns k replies) ∙ hk,
                )
          ],
        )

    ready : IsAgreed delegated replies → probe_ready delegated (probe_txt replies) ≡ true
    ready (none, (n, h), two) = (ready_counts delegated (probe_txt replies)).1 (
      none_missing replies none,
      some_confirmed n replies none h,
      elim two [
        | inl (single, one) ↦ inl (single, IsOneName-authorities replies one)
        | inr (n, k, ne, hn, hk) ↦ inr (
            two_members n k (confirming_ns (probe_txt replies)) ne
              (mem-confirming_ns n replies ∙ hn) (mem-confirming_ns k replies ∙ hk))
      ],
    )
