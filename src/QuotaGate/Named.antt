-- ===== src/QuotaGate/Named.antt =====
-- The names of a certificate in the words of the CA, and the checks of internal/acme/manager_renew.go
-- that are made for them.
use wecert.Base.{
  ◌≡◌, ◌⊎◌, inl, inr, Bool, true, false, ◌||◌, Option, none, List, [], ◌∷◌, ◌++◌, Text, codes,
  text_eq, text_eq_iff, mem, mem-append, has_prefix, after_prefix, trim_prefix, to_lower, arith,
  refl, ap, sym, Bool-cases, Option-cases, lower_byte, if◌then◌else◌,
}
use mathlib.Core.Path.{subst}
use wecert.Group.{registered_domain}
use wecert.RateLimit.{
  Limit, certs_per_registered_domain, authz_failures_per_identifier,
  consecutive_authz_failures_per_identifier,
}
use wecert.Refusal.{
  cut, quoted_domain, bare_identifier_scope, first_of, registered_from, unique_registered_domains,
}
use wecert.QuotaGate.{Check, identifier_checks, all_identifier_checks, domain_checks}
use wecert.QuotaGate.Gate.{HasCheck}

-- The text is a name of the certificate: some domain of it is the name, or the wildcard under it.
pub record IsName (domains : List Text) (n : Text) : Type 0 where
  pub domain : Text
  pub of_certificate : mem domain domains ≡ true
  pub matches : (to_lower domain ≡ n) ⊎ (to_lower domain ≡ codes "*." ++ n)
  pub filled : text_eq n [] ≡ false
  pub bare : has_prefix n (codes "*.") ≡ false

pub after_prefix-none : (s p : Text) → has_prefix s p ≡ false → after_prefix s p ≡ none
unfolding has_prefix after_prefix
after_prefix-none s [] h = ground (arith, h)
after_prefix-none [] (d ∷ p) h = ground arith
after_prefix-none (c ∷ s) (d ∷ p) h = ground (arith, after_prefix-none s p, h)

pub bare_identifier_scope-IsName :
    (domains : List Text) (n : Text) (i : IsName domains n) → bare_identifier_scope i.domain ≡ n
unfolding bare_identifier_scope trim_prefix after_prefix
bare_identifier_scope-IsName domains n i = elim i.matches [
  | inl e ↦ rw (e, after_prefix-none n (codes "*.") i.bare) refl
  | inr e ↦ rw e refl
]

to_lower-to_lower : (s : Text) → to_lower (to_lower s) ≡ to_lower s
unfolding to_lower lower_byte
to_lower-to_lower [] = refl
to_lower-to_lower (c ∷ s) = ground (arith, to_lower-to_lower s)

lower_nil : to_lower [] ≡ []
unfolding to_lower
lower_nil = refl

-- What is quoted is in lower case.
quoted_shape :
    (msg : Text) → (quoted_domain msg ≡ []) ⊎ ((name : Text) × (quoted_domain msg ≡ to_lower name))
unfolding quoted_domain
quoted_shape msg = elim (Option-cases (cut 34 msg)) [
  | inl e ↦ inl (ground (arith, e))
  | inr ((lead, rest), e) ↦ elim (Option-cases (cut 34 rest)) [
    | inl f ↦ inl (ground (arith, e, f))
    | inr ((name, tail), f) ↦ inr (name, ground (arith, e, f))
  ]
]

to_lower-quoted_domain : (msg : Text) → to_lower (quoted_domain msg) ≡ quoted_domain msg
to_lower-quoted_domain msg = elim (quoted_shape msg) [
  | inl e ↦ rw e lower_nil
  | inr (name, e) ↦ rw e (to_lower-to_lower name)
]

trim_prefix-none : (s p : Text) → has_prefix s p ≡ false → trim_prefix s p ≡ s
unfolding trim_prefix
trim_prefix-none s p h = ground (arith, after_prefix-none s p h)

pub bare_identifier_scope-quoted :
    (msg : Text)
    → has_prefix (quoted_domain msg) (codes "*.") ≡ false
    → bare_identifier_scope (quoted_domain msg) ≡ quoted_domain msg
unfolding bare_identifier_scope
bare_identifier_scope-quoted msg h =
    rw (to_lower-quoted_domain msg) (trim_prefix-none (quoted_domain msg) (codes "*.") h)

pub HasCheck-left :
    (l : Limit) (scope : Text) (cs ds : List Check)
    → HasCheck l scope cs
    → HasCheck l scope (cs ++ ds)
HasCheck-left l scope [] ds h = elim h [ ]
HasCheck-left l scope (c ∷ cs) ds (inl h) = inl h
HasCheck-left l scope (c ∷ cs) ds (inr h) = inr (HasCheck-left l scope cs ds h)

pub HasCheck-right :
    (l : Limit) (scope : Text) (cs ds : List Check)
    → HasCheck l scope ds
    → HasCheck l scope (cs ++ ds)
HasCheck-right l scope [] ds h = h
HasCheck-right l scope (c ∷ cs) ds h = inr (HasCheck-right l scope cs ds h)

-- The two limits of a name.
abbrev pub IsOfIdentifier : Limit → Type 0
IsOfIdentifier l =
    (l ≡ authz_failures_per_identifier) ⊎ (l ≡ consecutive_authz_failures_per_identifier)

HasCheck-identifier_checks :
    (l : Limit) (d : Text)
    → IsOfIdentifier l
    → HasCheck l (bare_identifier_scope d) (identifier_checks d)
HasCheck-identifier_checks l d (inl e) = inl (sym e, refl)
HasCheck-identifier_checks l d (inr e) = inr (inl (sym e, refl))

pub HasCheck-all_identifier_checks :
    (l : Limit) (d : Text) (ds : List Text)
    → IsOfIdentifier l
    → mem d ds ≡ true
    → HasCheck l (bare_identifier_scope d) (all_identifier_checks ds)
unfolding all_identifier_checks mem
HasCheck-all_identifier_checks l d [] is h = cc
HasCheck-all_identifier_checks l d (x ∷ ds) is h = elim (Bool-cases (text_eq d x)) [
  | inl e ↦
      subst (λ y. HasCheck l (bare_identifier_scope y) (all_identifier_checks (x ∷ ds)))
        (sym ((text_eq_iff d x).0 e))
        (HasCheck-left l (bare_identifier_scope x) (identifier_checks x) (all_identifier_checks ds)
          (HasCheck-identifier_checks l x is))
  | inr e ↦
      HasCheck-right l (bare_identifier_scope d) (identifier_checks x) (all_identifier_checks ds)
        (HasCheck-all_identifier_checks l d ds is (ground (arith, h, e)))
]

pub HasCheck-domain_checks :
    (q : Text) (ds : List Text)
    → mem q ds ≡ true
    → HasCheck certs_per_registered_domain q (domain_checks ds)
unfolding domain_checks mem
HasCheck-domain_checks q [] h = cc
HasCheck-domain_checks q (x ∷ ds) h = elim (Bool-cases (text_eq q x)) [
  | inl e ↦ inl (refl, sym ((text_eq_iff q x).0 e))
  | inr e ↦ inr (HasCheck-domain_checks q ds (ground (arith, h, e)))
]

module _ (public_suffix : Text → Text) (is_ipv6 : Text → Bool)
    (etld_plus_one : Text → Option Text) where
  abbrev pub registered : Text → Text
  registered d = registered_domain public_suffix is_ipv6 etld_plus_one d

  -- The text is the registered domain of a name of the certificate.
  pub record IsRegistered (domains : List Text) (q : Text) : Type 0 where
    pub domain : Text
    pub of_certificate : mem domain domains ≡ true
    pub matches : registered domain ≡ q
    pub filled : text_eq q [] ≡ false

  -- What a name adds to the registered domains.
  abbrev with_domain : List Text → Text → List Text
  with_domain out d =
      if text_eq (registered d) [] || mem (registered d) out then out else out ++ registered d ∷ []

  kept-registered_from :
      (q : Text) (ds out : List Text)
      → mem q out ≡ true
      → mem q (registered_from public_suffix is_ipv6 etld_plus_one out ds) ≡ true
  unfolding registered_from
  kept-registered_from q [] out h = h
  kept-registered_from q (d ∷ ds) out h =
      kept-registered_from q ds (with_domain out d)
        (ground (arith, h, mem-append q out (registered d ∷ [])))

  pub mem-registered_from :
      (q d : Text) (ds out : List Text)
      → mem d ds ≡ true
      → registered d ≡ q
      → text_eq q [] ≡ false
      → mem q (registered_from public_suffix is_ipv6 etld_plus_one out ds) ≡ true
  unfolding registered_from mem
  mem-registered_from q d [] out h e f = cc
  mem-registered_from q d (x ∷ ds) out h e f = elim (Bool-cases (text_eq d x)) [
    | inl k ↦ kept-registered_from q ds (with_domain out x) (
        ground (
          arith,
          ap registered ((text_eq_iff d x).0 k),
          e,
          f,
          text_eq_iff q q,
          mem-append q out (registered x ∷ []),
        ))
    | inr k ↦ mem-registered_from q d ds (with_domain out x) (ground (arith, h, k)) e f
  ]

  first-registered_from :
      (q : Text) (ds out : List Text)
      → (rest : List Text) × (registered_from public_suffix is_ipv6 etld_plus_one (q ∷ out) ds
          ≡ q ∷ rest)
  unfolding registered_from
  first-registered_from q [] out = (out, refl)
  first-registered_from q (d ∷ ds) out =
      elim (Bool-cases (text_eq (registered d) [] || mem (registered d) (q ∷ out))) [
        | inl e ↦ rw e (first-registered_from q ds out)
        | inr e ↦ rw e (first-registered_from q ds (out ++ registered d ∷ []))
      ]

  pub first_of_unique :
      (d : Text) (ds : List Text)
      → text_eq (registered d) [] ≡ false
      → first_of (unique_registered_domains public_suffix is_ipv6 etld_plus_one (d ∷ ds))
        ≡ registered d
  unfolding unique_registered_domains registered_from mem
  first_of_unique d ds h = rw h (ap first_of (first-registered_from (registered d) ds []).1)
