-- ===== src/Group/CertName.antt =====
-- CertName of internal/group/group.go gives each registered domain a name of its own.
use mathlib.Core.List.{reverse, reverse-append, reverse-reverse}
use wecert.Base.{
  ℕ, ◌<◌, ◌≡◌, ◌≢◌, ◌⊎◌, inl, inr, Bool, true, false, not, ◌||◌, List, [], ◌∷◌, ◌++◌, Text, codes,
  text_eq, split, split_first, cut_suffix, length, ◌==◌, arith, refl, sym, ap, ◌∙◌, Bool-cases, All,
}
use wecert.Domain.{all_plain, has_suffix}
use wecert.Domain.Labels.{IsLabel}
use wecert.Domain.Valid.{IsHost}
use wecert.Domain.Normalize.{fixed_host, to_lower_fixed}
use wecert.Group.{double_hyphens, dots_to_hyphens, trim_left_hyphens, trim_hyphens, cert_name}
use wecert.Group.CertNameReading.{
  decode, starts_label, replaced, replaced_start, decode-replaced, label_starts, first_label_starts,
  separated_host,
}

-- The last byte is no hyphen, dot or colon.
ends_label : Text → Bool
ends_label [] = false
ends_label (c ∷ []) = not (c == 45 || c == 46 || c == 58)
ends_label (c ∷ d ∷ s) = ends_label (d ∷ s)

plain_ends :
    (l : Text)
    → 0 < length l
    → all_plain l ≡ true
    → has_suffix l (codes "-") ≡ false
    → ends_label l ≡ true
unfolding all_plain cut_suffix text_eq ends_label
plain_ends [] n p h = absurd (omega arith)
plain_ends (c ∷ []) n p h = ground arith
plain_ends (c ∷ d ∷ s) n p h = plain_ends (d ∷ s) (omega arith) (ground arith) (ground arith)

label_ends : (l : Text) → IsLabel l → ends_label l ≡ true
label_ends l v = plain_ends l v.nonempty v.plain v.no_trailing_hyphen

last_label : Text → List Text → Text
last_label p [] = p
last_label p (q ∷ ps) = last_label q ps

last_cons :
    (c : ℕ) (p : Text) (ps : List Text)
    → (p ≢ []) ⊎ (ps ≢ [])
    → ends_label (last_label (c ∷ p) ps) ≡ true
    → ends_label (last_label p ps) ≡ true
unfolding last_label ends_label
last_cons c [] [] (inl n) h = absurd (n refl)
last_cons c [] [] (inr n) h = absurd (n refl)
last_cons c (d ∷ p) [] n h = h
last_cons c p (q ∷ ps) n h = h

first_or_more :
    (d : ℕ) (s : Text) → ((split_first 46 (d ∷ s)).0 ≢ []) ⊎ ((split_first 46 (d ∷ s)).1 ≢ [])
unfolding split_first
first_or_more d s = elim (Bool-cases (d == 46)) [
  | inl e ↦ inr (λ q. ground arith)
  | inr e ↦ inl (λ q. ground arith)
]

split_dot :
    (c : ℕ) (s : Text)
    → (c == 46) ≡ true
    → split_first 46 (c ∷ s) ≡ ([], (split_first 46 s).0 ∷ (split_first 46 s).1)
unfolding split_first
split_dot c s h = ground arith

split_other :
    (c : ℕ) (s : Text)
    → (c == 46) ≡ false
    → split_first 46 (c ∷ s) ≡ (c ∷ (split_first 46 s).0, (split_first 46 s).1)
unfolding split_first
split_other c s h = ground arith

last_empty : (p : Text) (ps : List Text) → last_label [] (p ∷ ps) ≡ last_label p ps
unfolding last_label
last_empty p ps = refl

last_step :
    (c : ℕ) (s : Text) (d : ℕ)
    → ends_label (last_label (split_first 46 (c ∷ d ∷ s)).0 (split_first 46 (c ∷ d ∷ s)).1) ≡ true
    → ends_label (last_label (split_first 46 (d ∷ s)).0 (split_first 46 (d ∷ s)).1) ≡ true
last_step c s d h = elim (Bool-cases (c == 46)) [
  | inl e ↦ ground (
    arith,
    split_dot c (d ∷ s) e,
    last_empty (split_first 46 (d ∷ s)).0 (split_first 46 (d ∷ s)).1,
  )
  | inr e ↦
      last_cons c (split_first 46 (d ∷ s)).0 (split_first 46 (d ∷ s)).1 (first_or_more d s)
        (ground (arith, split_other c (d ∷ s) e))
]

ends_of_nil :
    ends_label (last_label (split_first 46 []).0 (split_first 46 []).1) ≡ true
    → ends_label [] ≡ true
unfolding split_first last_label
ends_of_nil h = h

ends_of_one :
    (c : ℕ)
    → ends_label (last_label (split_first 46 (c ∷ [])).0 (split_first 46 (c ∷ [])).1) ≡ true
    → ends_label (c ∷ []) ≡ true
unfolding split_first last_label ends_label
ends_of_one c h = ground arith

ends_of_last :
    (s : Text)
    → ends_label (last_label (split_first 46 s).0 (split_first 46 s).1) ≡ true
    → ends_label s ≡ true
unfolding ends_label
ends_of_last [] h = ends_of_nil h
ends_of_last (c ∷ []) h = ends_of_one c h
ends_of_last (c ∷ d ∷ s) h = ends_of_last (d ∷ s) (last_step c s d h)

last_of_All :
    (p : Text) (ps : List Text) → IsLabel p → All IsLabel ps → ends_label (last_label p ps) ≡ true
unfolding last_label
last_of_All p [] v h = label_ends p v
last_of_All p (q ∷ ps) v h = last_of_All q ps h.0 h.1

ends_host : (d : Text) → IsHost d → ends_label d ≡ true
unfolding split
ends_host d h = ends_of_last d (last_of_All _ _ h.0 h.1)

replaced-snoc :
    (s : Text) (c : ℕ) → ends_label (c ∷ []) ≡ true → replaced (s ++ c ∷ []) ≡ replaced s ++ c ∷ []
unfolding replaced double_hyphens dots_to_hyphens ends_label
replaced-snoc [] c h = ground arith
replaced-snoc (d ∷ s) c h = ground (arith, replaced-snoc s c h)

ends_snoc :
    (s : Text)
    → ends_label s ≡ true
    → (i : Text) × (c : ℕ) × (s ≡ i ++ c ∷ []) × (ends_label (c ∷ []) ≡ true)
unfolding ends_label
ends_snoc [] h = cc
ends_snoc (c ∷ []) h = ([], c, refl, h)
ends_snoc (c ∷ d ∷ s) h = let (i, x, e, f) = ends_snoc (d ∷ s) h in (c ∷ i, x, ap (◌∷◌ c) e, f)

trim_left_kept : (d : ℕ) (t : Text) → (d == 45) ≡ false → trim_left_hyphens (d ∷ t) ≡ d ∷ t
unfolding trim_left_hyphens
trim_left_kept d t h = ground arith

trim_kept :
    (i : Text) (c d : ℕ) (t : Text)
    → i ++ c ∷ [] ≡ d ∷ t
    → (c == 45) ≡ false
    → (d == 45) ≡ false
    → trim_hyphens (i ++ c ∷ []) ≡ i ++ c ∷ []
unfolding trim_hyphens
trim_kept i c d t e h k =
    let left : trim_left_hyphens (i ++ c ∷ []) ≡ i ++ c ∷ [] =
      ap trim_left_hyphens e ∙ trim_left_kept d t k ∙ sym e in
    let back : reverse (i ++ c ∷ []) ≡ c ∷ reverse i = reverse-append i (c ∷ []) in
    let right : trim_left_hyphens (reverse (i ++ c ∷ [])) ≡ reverse (i ++ c ∷ []) =
      ap trim_left_hyphens back ∙ trim_left_kept c (reverse i) h ∙ sym back in
    ap (λ (u : Text). reverse (trim_left_hyphens (reverse u))) left
    ∙ ap reverse right
    ∙ reverse-reverse (i ++ c ∷ [])

no_hyphen_of_ends : (c : ℕ) → ends_label (c ∷ []) ≡ true → (c == 45) ≡ false
unfolding ends_label
no_hyphen_of_ends c h = ground arith

host_starts : (d : Text) → IsHost d → starts_label d ≡ true
unfolding split
host_starts d h = first_label_starts d (label_starts _ h.0)

-- The certificate name of a domain reads back as the domain.
decode-cert_name : (d : Text) → IsHost d → decode (cert_name d) ≡ d
unfolding cert_name
decode-cert_name d h =
    let (i, c, e, f) = ends_snoc d (ends_host d h) in
    let (x, t, q, n) = replaced_start d (host_starts d h) in
    let last : replaced d ≡ replaced i ++ c ∷ [] = ap replaced e ∙ replaced-snoc i c f in
    let kept : trim_hyphens (replaced d) ≡ replaced d =
      ap trim_hyphens last
      ∙ trim_kept (replaced i) c x t (sym last ∙ q) (no_hyphen_of_ends c f) n
      ∙ sym last in
    rw (to_lower_fixed d (fixed_host d h))
      (unfold replaced in ap decode kept ∙ decode-replaced d (separated_host d h))

-- Two registered domains of letters, digits, hyphens and dots, with no label empty and no hyphen at
-- either end of a label, have one certificate name only if they are equal.
pub cert_name_injective : (a b : Text) → IsHost a → IsHost b → cert_name a ≡ cert_name b → a ≡ b
cert_name_injective a b h k e = sym (decode-cert_name a h) ∙ ap decode e ∙ decode-cert_name b k
