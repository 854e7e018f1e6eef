-- ===== src/Domain/Normalize.antt =====
-- normalizeDomains of internal/config/domain.go keeps the valid names, once each, and changes no name
-- that it has let pass.
use wecert.Base.{
  ℕ, ◌≡◌, ◌↔◌, inl, inr, Bool, true, false, not, ◌&&◌, ◌||◌, none, if◌then◌else◌, List, [], ◌∷◌,
  ◌++◌, map, Text, text_eq_iff, text_eq_sym, append-nil, append_assoc, mem, split, split_first,
  trim_space, trim_left, is_space, lower_byte, to_lower, All, All-append, IsDistinct, ok, arith,
  refl, Bool-cases, Option-cases, ◌==◌,
}
use mathlib.Core.Path.{subst}
use mathlib.Core.List.{reverse, reverse-cons, reverse-reverse}
use wecert.Domain.{validate_domain, normalize_from, normalize_domains, all_plain}
use wecert.Domain.Labels.{all_labels, plain_of_All}
use wecert.Domain.Valid.{IsHost, IsName, validate_domain_iff}
use wecert.Domain.Key.{clean, mem-snoc, snoc-IsDistinct}

-- Bytes that are no white space and no capital letters.
abbrev fixed_byte : ℕ → Bool
fixed_byte c = not (is_space c) && (lower_byte c == c)

abbrev pub all_fixed : Text → Bool
all_fixed [] = true
all_fixed (c ∷ s) = fixed_byte c && all_fixed s

fixed_labels :
    (s : Text)
    → all_labels all_plain ((split_first 46 s).0 ∷ (split_first 46 s).1) ≡ true
    → all_fixed s ≡ true
unfolding split_first all_plain is_space lower_byte
fixed_labels [] h = refl
fixed_labels (d ∷ s) h = ground (arith, fixed_labels s)

pub fixed_host : (d : Text) → IsHost d → all_fixed d ≡ true
unfolding split
fixed_host d h = fixed_labels d (plain_of_All (split 46 d) h)

fixed_name : (d : Text) → IsName d → all_fixed d ≡ true
unfolding is_space lower_byte
fixed_name d (inl h) = fixed_host d h
fixed_name d (inr (r, e, h)) = rw e (fixed_host r h)

pub to_lower_fixed : (s : Text) → all_fixed s ≡ true → to_lower s ≡ s
unfolding to_lower
to_lower_fixed [] h = refl
to_lower_fixed (c ∷ s) h = ground (arith, to_lower_fixed s)

trim_left_fixed : (s : Text) → all_fixed s ≡ true → trim_left s ≡ s
unfolding trim_left
trim_left_fixed [] h = refl
trim_left_fixed (c ∷ s) h = ground (arith, trim_left_fixed s)

fixed-append :
    (s : Text) (c : ℕ) → all_fixed s ≡ true → fixed_byte c ≡ true → all_fixed (s ++ c ∷ []) ≡ true
fixed-append [] c h k = ground arith
fixed-append (d ∷ s) c h k = ground (arith, fixed-append s c)

fixed-reverse : (s : Text) → all_fixed s ≡ true → all_fixed (reverse s) ≡ true
fixed-reverse [] h = refl
fixed-reverse (c ∷ s) h =
    rw reverse-cons (fixed-append (reverse s) c (fixed-reverse s (ground arith)) (ground arith))

trim_space_fixed : (s : Text) → all_fixed s ≡ true → trim_space s ≡ s
unfolding trim_space
trim_space_fixed s h =
    rw (trim_left_fixed s h, trim_left_fixed (reverse s) (fixed-reverse s h)) (reverse-reverse s)

module _ (public_suffix : Text → Text) (is_ipv6 : Text → Bool) where
  -- The name passes validateDomain.
  abbrev pub Passes : Text → Type 0
  Passes d = validate_domain public_suffix is_ipv6 d ≡ none

  -- A name that passes is compared as it stands.
  clean_fixed : (d : Text) → Passes d → clean d ≡ d
  clean_fixed d h =
      let fixed = fixed_name d ((validate_domain_iff public_suffix is_ipv6 d).0 h).0 in
      rw (trim_space_fixed d fixed) (to_lower_fixed d fixed)

  -- What the loop makes of the names that it still has to read, after `out`.
  pub record IsNormal (out l r : List Text) : Type 0 where
    pub members : (x : Text) → mem x r ≡ (mem x out || mem x (map clean l))
    pub distinct : IsDistinct r
    pub all_pass : All Passes r

  IsNormal-skip :
      (raw : Text) (l out r : List Text)
      → mem (clean raw) out ≡ true
      → IsNormal out l r
      → IsNormal out (raw ∷ l) r
  unfolding mem
  IsNormal-skip raw l out r m n = record {
    members = λ x. ground (arith, n.members x, text_eq_iff x (clean raw));
    distinct = n.distinct;
    all_pass = n.all_pass;
  }

  IsNormal-keep :
      (raw : Text) (l out r : List Text)
      → IsNormal (out ++ clean raw ∷ []) l r
      → IsNormal out (raw ∷ l) r
  unfolding mem
  IsNormal-keep raw l out r n = record {
    members = λ x. ground (arith, n.members x, mem-snoc x (clean raw) out);
    distinct = n.distinct;
    all_pass = n.all_pass;
  }

  IsNormal-end : (out : List Text) → IsDistinct out → All Passes out → IsNormal out [] out
  unfolding mem
  IsNormal-end out d p = record { members = λ x. ground arith; distinct = d; all_pass = p }

  normalize_from_ok :
      (l out r : List Text)
      → normalize_from public_suffix is_ipv6 out l ≡ ok r
      → IsDistinct out
      → All Passes out
      → IsNormal out l r
  unfolding normalize_from
  normalize_from_ok [] out r h d p =
      subst (λ q. IsNormal out [] q) (ground arith) (IsNormal-end out d p)
  normalize_from_ok (raw ∷ l) out r h d p =
      elim (Option-cases (validate_domain public_suffix is_ipv6 (clean raw))) [
        | inr (x, e) ↦ ground arith
        | inl e ↦ elim (Bool-cases (mem (clean raw) out)) [
          | inl m ↦ IsNormal-skip raw l out r m (normalize_from_ok l out r (ground arith) d p)
          | inr m ↦ IsNormal-keep raw l out r (
              normalize_from_ok l (out ++ clean raw ∷ []) r (ground arith)
                (snoc-IsDistinct (clean raw) out d m)
                (All-append Passes out (clean raw ∷ []) p (e, tt)))
        ]
      ]

  normalize_from_total :
      (l out : List Text)
      → All (λ raw. Passes (clean raw)) l
      → (r : List Text) × (normalize_from public_suffix is_ipv6 out l ≡ ok r)
  unfolding normalize_from
  normalize_from_total [] out h = (out, refl)
  normalize_from_total (raw ∷ l) out h =
      let (r, skip) = normalize_from_total l out h.1 in
      let (q, keep) = normalize_from_total l (out ++ clean raw ∷ []) h.1 in
      (if mem (clean raw) out then r else q, ground (arith, h.0))

  All-of_ok :
      (l out r : List Text)
      → normalize_from public_suffix is_ipv6 out l ≡ ok r
      → All (λ raw. Passes (clean raw)) l
  unfolding normalize_from
  All-of_ok [] out r h = tt
  All-of_ok (raw ∷ l) out r h =
      elim (Option-cases (validate_domain public_suffix is_ipv6 (clean raw))) [
        | inr (x, e) ↦ ground arith
        | inl e ↦ elim (Bool-cases (mem (clean raw) out)) [
          | inl m ↦ (e, All-of_ok l out r (ground arith))
          | inr m ↦ (e, All-of_ok l (out ++ clean raw ∷ []) r (ground arith))
        ]
      ]

  -- The list is accepted exactly when every name passes once trimmed and in lower case; the result
  -- then holds these names, each once, and nothing else.
  pub normalize_domains_iff :
      (l : List Text)
      → (All (λ raw. Passes (clean raw)) l
          ↔ ((r : List Text) × (normalize_domains public_suffix is_ipv6 l ≡ ok r)))
        × ((r : List Text) → normalize_domains public_suffix is_ipv6 l ≡ ok r → IsNormal [] l r)
  unfolding normalize_domains
  normalize_domains_iff l = (
    (normalize_from_total l [], λ e. All-of_ok l [] e.0 e.1),
    λ r e. normalize_from_ok l [] r e tt tt,
  )

  apart-snoc :
      (d : Text) (l out : List Text)
      → All (λ x. mem x out ≡ false) l
      → mem d l ≡ false
      → All (λ x. mem x (out ++ d ∷ []) ≡ false) l
  unfolding mem
  apart-snoc d [] out h k = tt
  apart-snoc d (x ∷ l) out h k = (
    ground (arith, mem-snoc x d out, h.0, text_eq_sym x d),
    apart-snoc d l out h.1 (ground arith),
  )

  normalize_from_normal :
      (l out : List Text)
      → All Passes l
      → IsDistinct l
      → All (λ x. mem x out ≡ false) l
      → normalize_from public_suffix is_ipv6 out l ≡ ok (out ++ l)
  unfolding normalize_from
  normalize_from_normal [] out p d a = rw append-nil
  normalize_from_normal (x ∷ l) out p d a = ground (
    arith,
    clean_fixed x p.0,
    p.0,
    a.0,
    append_assoc out (x ∷ []) l,
    normalize_from_normal l (out ++ x ∷ []) p.1 d.1 (apart-snoc x l out a.1 d.0),
  )

  apart_nil : (l : List Text) → All (λ x. mem x [] ≡ false) l
  unfolding mem
  apart_nil [] = tt
  apart_nil (x ∷ l) = (refl, apart_nil l)

  -- What normalizeDomains returns it returns again, name by name and in the same order.
  pub normalize_domains_idem :
      (l r : List Text)
      → normalize_domains public_suffix is_ipv6 l ≡ ok r
      → normalize_domains public_suffix is_ipv6 r ≡ ok r
  normalize_domains_idem l r h =
      let n = (normalize_domains_iff l).1 r h in
      unfold normalize_domains in normalize_from_normal r [] n.all_pass n.distinct (apart_nil r)
