-- ===== src/Certificates/Redundant.antt =====
-- What NormalizeCertificates of internal/config/domain.go rejects as redundant, in the terms of
-- WildcardCovers of internal/group/group.go.
use wecert.Base.{
  ◌≡◌, ◌≢◌, ◌↔◌, true, false, not, ◌&&◌, none, some, List, [], ◌∷◌, ◌++◌, Text, codes, text_eq,
  text_eq_iff, text_eq_refl, mem, has_prefix, cut_suffix, trim_prefix, trim_suffix, arith,
  Option-cases, inl, inr,
}
use wecert.Domain.{has_suffix}
use wecert.Group.{wildcard_covers, one_label, base, is_wildcard}
use wecert.Certificates.{
  redundant_with, first_redundant, reject_from, reject_redundant_wildcard_names,
}

-- The two tests agree on a wildcard, but for the wildcard itself.
redundant_with-covers :
    (w n : Text)
    → has_prefix w (codes "*.") ≡ true
    → redundant_with w n ≡ (not (text_eq n w) && wildcard_covers w n)
unfolding redundant_with wildcard_covers has_suffix trim_suffix is_wildcard base one_label
redundant_with-covers w n h =
    elim (Option-cases (cut_suffix n (codes "." ++ trim_prefix w (codes "*.")))) [
      | inl e ↦ ground (arith, e)
      | inr (l, e) ↦ ground (arith, e)
    ]

covers_wildcard : (w n : Text) → wildcard_covers w n ≡ true → has_prefix w (codes "*.") ≡ true
unfolding wildcard_covers is_wildcard
covers_wildcard w n h = ground arith

first_redundant-none :
    (w : Text) (l : List Text) (n : Text)
    → first_redundant w l ≡ none
    → mem n l ≡ true
    → redundant_with w n ≡ false
unfolding first_redundant mem
first_redundant-none w [] n h i = cc
first_redundant-none w (x ∷ l) n h i = grind (arith, text_eq_iff n x, first_redundant-none w l n)

first_redundant-some :
    (w : Text) (l : List Text) (n : Text)
    → first_redundant w l ≡ some n
    → (mem n l ≡ true) × (redundant_with w n ≡ true)
unfolding first_redundant mem
first_redundant-some w [] n h = cc
first_redundant-some w (x ∷ l) n h = grind (arith, text_eq_refl n, first_redundant-some w l n)

reject_from-none :
    (domains ws : List Text) (w n : Text)
    → reject_from domains ws ≡ none
    → mem w ws ≡ true
    → mem n domains ≡ true
    → n ≢ w
    → wildcard_covers w n ≡ false
unfolding reject_from mem
reject_from-none domains [] w n h i j k = cc
reject_from-none domains (x ∷ ws) w n h i j k = grind (
  arith,
  text_eq_iff w x,
  text_eq_iff n w,
  covers_wildcard w n,
  redundant_with-covers w n,
  first_redundant-none w domains n,
  reject_from-none domains ws w n,
)

reject_from-some :
    (domains ws : List Text) (w n : Text)
    → reject_from domains ws ≡ some (w, n)
    → (mem w ws ≡ true) × (mem n domains ≡ true) × (n ≢ w) × (wildcard_covers w n ≡ true)
unfolding reject_from mem
reject_from-some domains [] w n h = cc
reject_from-some domains (x ∷ ws) w n h = grind (
  arith,
  text_eq_refl w,
  text_eq_iff n w,
  redundant_with-covers w n,
  first_redundant-some x domains n,
  reject_from-some domains ws w n,
)

-- An identifier set passes the configuration exactly if no wildcard in it covers another of its names,
-- as the grouping understands covering; and where one is rejected, the two names of the error are in
-- the set, and the first covers the second.
pub reject_redundant_wildcard_names_iff :
    (domains : List Text)
    → ((reject_redundant_wildcard_names domains ≡ none) ↔ (
        (w n : Text)
        → mem w domains ≡ true
        → mem n domains ≡ true
        → n ≢ w
        → wildcard_covers w n ≡ false))
      × ((w n : Text)
          → reject_redundant_wildcard_names domains ≡ some (w, n)
          → (mem w domains ≡ true) × (mem n domains ≡ true) × (wildcard_covers w n ≡ true))
unfolding reject_redundant_wildcard_names
reject_redundant_wildcard_names_iff domains = (
  (
    λ h w n i j k. reject_from-none domains domains w n h i j k,
    λ h. elim (Option-cases (reject_from domains domains)) [
      | inl e ↦ e
      | inr ((w, n), e) ↦
          let (i, j, k, c) = reject_from-some domains domains w n e in ground (arith, h w n i j k)
    ],
  ),
  λ w n e. let (i, j, k, c) = reject_from-some domains domains w n e in (i, j, c),
)
