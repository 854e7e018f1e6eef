-- ===== src/Domain/Valid.antt =====
-- Which names validateDomain of internal/config/domain.go accepts.
use wecert.Base.{
  ◌≤◌, ◌≡◌, ◌≢◌, ◌⊎◌, ◌↔◌, inl, inr, Bool, true, false, none, [], ◌∷◌, ◌++◌, Text, codes, text_eq,
  text_eq_iff, length, has_prefix, cut_suffix, contains_byte, split, split_first, All, arith, refl,
  ap, Option-cases, ◌∙◌, eq-append_of_cut_suffix, eq-append_of_has_prefix, after_prefix,
  trim_prefix,
}
use wecert.Domain.{
  has_suffix, contains_any_space_or_slash, check_label, check_labels, check_wildcard, is_ip,
  validate_domain, after_wildcard,
}
use wecert.Domain.Labels.{
  IsLabel, any_empty, any_contains, any_contains-split, any_empty-split, plain_labels,
  All-of_check_labels, check_labels_of_All, star_free_of_All, plain_of_All, nonempty_of_All,
}

-- Labels of letters, digits and hyphens, separated by dots.
abbrev pub IsHost : Text → Type 0
IsHost d = All IsLabel (split 46 d)

-- A host, or a host under one wildcard label.
abbrev pub IsName : Text → Type 0
IsName d = IsHost d ⊎ ((r : Text) × (d ≡ codes "*." ++ r) × IsHost r)

star_free-host : (d : Text) → IsHost d → contains_byte 42 d ≡ false
unfolding split
star_free-host d h =
    ground (arith, any_contains-split 42 46 d refl, star_free_of_All (split 46 d) h)

no_trailing_dot :
    (d : Text) → any_empty (split_first 46 d).1 ≡ false → has_suffix d (codes ".") ≡ false
no_trailing_dot d h = elim (Option-cases (cut_suffix d (codes "."))) [
  | inl e ↦ rw e
  | inr (r, e) ↦ let shape = eq-append_of_cut_suffix d (codes ".") r e in cc (any_empty-split 46 r)
]

no_bad_byte : (d : Text) → IsHost d → contains_any_space_or_slash d ≡ false
unfolding split
no_bad_byte d h = plain_labels d (plain_of_All (split 46 d) h)

host_tail : (d : Text) → IsHost d → any_empty (split_first 46 d).1 ≡ false
unfolding split
host_tail d h = nonempty_of_All (split_first 46 d).1 h.1

host_ne : (d : Text) → IsHost d → d ≢ []
unfolding split
host_ne d h e = omega (arith, h.0.nonempty, ap (λ (t : Text). length (split_first 46 t).0) e)

no_star : (d : Text) → contains_byte 42 d ≡ false → any_contains 42 (split 46 d) ≡ false
unfolding split
no_star d h = any_contains-split 42 46 d refl ∙ h

wild_checks : (r : Text) → IsHost r → check_labels (codes "*" ∷ split 46 r) ≡ none
unfolding check_labels check_label text_eq
wild_checks r h = check_labels_of_All (split 46 r) h

wild_check : (r : Text) → IsHost r → check_wildcard (codes "*." ++ r) ≡ none
unfolding check_wildcard contains_byte has_prefix trim_prefix after_prefix
wild_check r h = rw (star_free-host r h)

wild_tail : (r : Text) → IsHost r → any_empty (split_first 46 (codes "*." ++ r)).1 ≡ false
unfolding split
wild_tail r h = nonempty_of_All (split 46 r) h

wild_bytes : (r : Text) → IsHost r → contains_any_space_or_slash (codes "*." ++ r) ≡ false
unfolding contains_any_space_or_slash
wild_bytes r h = no_bad_byte r h

split-wildcard : (r : Text) → split 46 (codes "*." ++ r) ≡ codes "*" ∷ split 46 r
unfolding split
split-wildcard r = refl

check_wildcard-cases :
    (d : Text)
    → check_wildcard d ≡ none
    → (contains_byte 42 d ≡ false)
      ⊎ ((has_prefix d (codes "*.") ≡ true) × (contains_byte 42 (after_wildcard d) ≡ false))
unfolding check_wildcard
check_wildcard-cases d h = ground arith

tail_checks :
    (r : Text) → check_labels (codes "*" ∷ split 46 r) ≡ none → check_labels (split 46 r) ≡ none
unfolding check_labels check_label text_eq
tail_checks r h = ground arith

IsName-of_checks :
    (d : Text) → check_labels (split 46 d) ≡ none → check_wildcard d ≡ none → IsName d
unfolding trim_prefix
IsName-of_checks d h k = elim (check_wildcard-cases d k) [
  | inl free ↦ inl (All-of_check_labels (split 46 d) h (no_star d free))
  | inr (p, free) ↦
      let (r, e, f) = eq-append_of_has_prefix d (codes "*.") p in
      let host : IsHost r =
        All-of_check_labels (split 46 r) (tail_checks r (rw (← split-wildcard r, ← f) h))
          (no_star r (rw e at free)) in
      inr (r, f, host)
]

checks_of_name :
    (d : Text)
    → IsName d
    → (check_labels (split 46 d) ≡ none)
      × (check_wildcard d ≡ none)
      × (has_suffix d (codes ".") ≡ false)
      × (contains_any_space_or_slash d ≡ false)
      × (d ≢ [])
checks_of_name d (inl h) = (
  check_labels_of_All (split 46 d) h,
  unfold check_wildcard in rw (star_free-host d h),
  no_trailing_dot d (host_tail d h),
  no_bad_byte d h,
  host_ne d h,
)
checks_of_name d (inr (r, e, h)) = rw e (
  rw split-wildcard (wild_checks r h),
  wild_check r h,
  no_trailing_dot (codes "*." ++ r) (wild_tail r h),
  wild_bytes r h,
  λ q. cc,
)

base_ne : (d : Text) → IsName d → trim_prefix d (codes "*.") ≢ []
unfolding trim_prefix after_prefix contains_byte
base_ne [] (inl h) e = host_ne [] h refl
base_ne (c ∷ s) (inl h) e = ground (arith, star_free-host (c ∷ s) h)
base_ne d (inr (r, f, h)) e = host_ne r h (rw f at e)

module _ (public_suffix : Text → Text) (is_ipv6 : Text → Bool) where
  -- What is asked of a name beyond its shape.
  pub record IsIssuable (d : Text) : Type 0 where
    pub short : length d ≤ 253
    pub no_address : is_ip public_suffix is_ipv6 (trim_prefix d (codes "*.")) ≡ false
    pub registrable : public_suffix (trim_prefix d (codes "*.")) ≢ trim_prefix d (codes "*.")

  -- A name passes exactly when it is a host or a host under one leading wildcard label, has at most
  -- 253 bytes, and is, but for the wildcard, no IP address and no public suffix.
  pub validate_domain_iff :
      (d : Text) → (validate_domain public_suffix is_ipv6 d ≡ none) ↔ (IsName d × IsIssuable d)
  unfolding validate_domain
  validate_domain_iff d = (
    λ h.
        let name =
          IsName-of_checks d (ground (arith, text_eq_iff d []))
            (ground (arith, text_eq_iff d [])) in
        (
          name,
          record {
            short = ground arith;
            no_address = ground arith;
            registrable = λ q. ground (
              arith,
              text_eq_iff (public_suffix (trim_prefix d (codes "*."))) (trim_prefix d (codes "*.")),
              text_eq_iff (trim_prefix d (codes "*.")) [],
              base_ne d name,
            );
          },
        ),
    λ h. ground (
      arith,
      checks_of_name d h.0,
      text_eq_iff d [],
      text_eq_iff (public_suffix (trim_prefix d (codes "*."))) (trim_prefix d (codes "*.")),
      h.1.registrable,
    ),
  )
