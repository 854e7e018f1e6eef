-- ===== src/Group/CertNameReading.antt =====
-- The names that CertName of internal/group/group.go gives, read back, and the labels that they come
-- from.
use wecert.Base.{
  ℕ, ◌≡◌, inl, inr, Bool, true, false, not, ◌&&◌, ◌||◌, if◌then◌else◌, List, [], ◌∷◌, Text, split,
  split_first, has_prefix, ◌==◌, arith, refl, Bool-cases, All,
}
use wecert.Domain.{all_plain}
use wecert.Domain.Labels.{IsLabel, all_labels, plain_of_All}
use wecert.Domain.Valid.{IsHost}
use wecert.Group.{double_hyphens, dots_to_hyphens}

-- The reading of a certificate name: a pair of hyphens is a hyphen, a single one is a dot.
pub decode : Text → Text
decode [] = []
decode (c ∷ []) = (if c == 45 then 46 else c) ∷ []
decode (c ∷ d ∷ s) =
    let pair = 45 ∷ decode s in
    let dot = 46 ∷ decode (d ∷ s) in
    let plain = c ∷ decode (d ∷ s) in if c == 45 then (if d == 45 then pair else dot) else plain

-- What may follow a dot: something that is no dot, colon or hyphen.
pub starts_label : Text → Bool
starts_label [] = false
starts_label (c ∷ s) = not (c == 45 || c == 46 || c == 58)

-- Every dot has a label behind it, and there is no colon.
pub separated : Text → Bool
separated [] = true
separated (c ∷ s) = (not (c == 58) && (not (c == 46) || starts_label s)) && separated s

unfoldable pub replaced : Text → Text
replaced s = dots_to_hyphens (double_hyphens s)

pub replaced_hyphen : (s : Text) → replaced (45 ∷ s) ≡ 45 ∷ 45 ∷ replaced s
unfolding replaced double_hyphens dots_to_hyphens
replaced_hyphen s = refl

pub replaced_other :
    (c : ℕ) (s : Text)
    → (c == 45) ≡ false
    → replaced (c ∷ s) ≡ (if c == 46 || c == 58 then 45 else c) ∷ replaced s
unfolding replaced double_hyphens dots_to_hyphens
replaced_other c s h = ground arith

pub decode_plain : (c : ℕ) (t : Text) → (c == 45) ≡ false → decode (c ∷ t) ≡ c ∷ decode t
unfolding decode
decode_plain c [] h = ground arith
decode_plain c (d ∷ t) h = ground arith

pub decode_dot : (d : ℕ) (t : Text) → (d == 45) ≡ false → decode (45 ∷ d ∷ t) ≡ 46 ∷ decode (d ∷ t)
unfolding decode
decode_dot d t h = ground arith

pub decode_hyphen : (t : Text) → decode (45 ∷ 45 ∷ t) ≡ 45 ∷ decode t
unfolding decode
decode_hyphen t = refl

pub replaced_start :
    (s : Text)
    → starts_label s ≡ true
    → (d : ℕ) × (t : Text) × (replaced s ≡ d ∷ t) × ((d == 45) ≡ false)
unfolding starts_label
replaced_start [] h = cc
replaced_start (c ∷ s) h = (c, replaced s, ground (arith, replaced_other c s), ground arith)

-- Reading a name back gives the domain, if no dot stands at the end or before a hyphen or a dot.
pub decode-replaced : (s : Text) → separated s ≡ true → decode (replaced s) ≡ s
unfolding separated
decode-replaced [] h = unfold decode replaced dots_to_hyphens double_hyphens in refl
decode-replaced (c ∷ s) h = elim (Bool-cases (c == 45)) [
  | inl e ↦
      let at : c ≡ 45 = ground arith in
      rw at (rw (replaced_hyphen, decode_hyphen, decode-replaced s (ground arith)))
  | inr e ↦ elim (Bool-cases (c == 46)) [
    | inl f ↦
        let (d, t, q, n) = replaced_start s (ground arith) in
        let at : c ≡ 46 = ground arith in
        let ih = decode-replaced s (ground arith) in
        ground (arith, replaced_other c s e, decode_dot d t n)
    | inr f ↦
        let ih = decode-replaced s (ground arith) in
        ground (arith, replaced_other c s e, decode_plain c (replaced s) e)
  ]
]

-- A label starts with what may follow a dot.
pub label_starts : (l : Text) → IsLabel l → starts_label l ≡ true
unfolding starts_label has_prefix all_plain
label_starts [] v = absurd (omega arith)
label_starts (c ∷ s) v = ground arith

pub first_label_starts :
    (s : Text) → starts_label (split_first 46 s).0 ≡ true → starts_label s ≡ true
unfolding split_first starts_label
first_label_starts [] h = h
first_label_starts (c ∷ s) h = ground arith

pub separated_of_labels :
    (s : Text)
    → all_labels all_plain ((split_first 46 s).0 ∷ (split_first 46 s).1) ≡ true
    → all_labels starts_label (split_first 46 s).1 ≡ true
    → separated s ≡ true
unfolding split_first separated all_plain
separated_of_labels [] h k = refl
separated_of_labels (c ∷ s) h k = ground (arith, separated_of_labels s, first_label_starts s)

pub starts_of_All : (ls : List Text) → All IsLabel ls → all_labels starts_label ls ≡ true
starts_of_All [] h = refl
starts_of_All (l ∷ ls) h = ground (arith, label_starts l h.0, starts_of_All ls h.1)

pub separated_host : (d : Text) → IsHost d → separated d ≡ true
unfolding split
separated_host d h = separated_of_labels d (plain_of_All (split 46 d) h) (starts_of_All _ h.1)
