-- ===== src/Domain/Labels.antt =====
-- Labels of a name: what the split of internal/config/domain.go cuts it into.
use wecert.Domain.{all_plain, contains_any_space_or_slash, check_label, check_labels, has_suffix}
use wecert.Base.{
  ℕ, ◌≤◌, ◌<◌, ◌≡◌, ◌⊎◌, ◌↔◌, inl, inr, Bool, true, false, ◌&&◌, ◌||◌, none, List, [], ◌∷◌, ◌++◌,
  Text, codes, text_eq, text_eq_iff, text_eq_refl, ◌==◌, length, has_prefix, contains_byte,
  split_first, All, arith, refl, ap, Bool-cases,
}

-- Some label holds a byte exactly when the text does, if the byte is not the separator.
abbrev pub any_contains : ℕ → List Text → Bool
any_contains b [] = false
any_contains b (l ∷ ls) = contains_byte b l || any_contains b ls

pub any_contains-split :
    (b c : ℕ) (s : Text)
    → (b == c) ≡ false
    → any_contains b ((split_first c s).0 ∷ (split_first c s).1) ≡ contains_byte b s
unfolding split_first contains_byte
any_contains-split b c [] h = refl
any_contains-split b c (d ∷ s) h = ground (arith, any_contains-split b c s h)

abbrev pub any_empty : List Text → Bool
any_empty [] = false
any_empty (l ∷ ls) = text_eq l [] || any_empty ls

-- A text that ends in the separator has an empty last label.
pub any_empty-split : (c : ℕ) (s : Text) → any_empty (split_first c (s ++ c ∷ [])).1 ≡ true
unfolding split_first text_eq
any_empty-split c [] = ground arith
any_empty-split c (d ∷ s) = ground (arith, any_empty-split c s)

abbrev pub all_labels : (Text → Bool) → List Text → Bool
all_labels p [] = true
all_labels p (l ∷ ls) = p l && all_labels p ls

-- Labels of plain bytes leave no room for white space or a slash.
pub plain_labels :
    (s : Text)
    → all_labels all_plain ((split_first 46 s).0 ∷ (split_first 46 s).1) ≡ true
    → contains_any_space_or_slash s ≡ false
unfolding split_first all_plain contains_any_space_or_slash
plain_labels [] h = refl
plain_labels (d ∷ s) h = ground (arith, plain_labels s)

-- What a label that is no wildcard has to be.
pub record IsLabel (l : Text) : Type 0 where
  pub nonempty : 0 < length l
  pub short : length l ≤ 63
  pub plain : all_plain l ≡ true
  pub no_leading_hyphen : has_prefix l (codes "-") ≡ false
  pub no_trailing_hyphen : has_suffix l (codes "-") ≡ false

pub check_label_iff : (l : Text) → (check_label l ≡ none) ↔ ((l ≡ codes "*") ⊎ IsLabel l)
unfolding check_label
check_label_iff l = (accepted l, passes l)
  where
    accepted : (l : Text) → check_label l ≡ none → (l ≡ codes "*") ⊎ IsLabel l
    accepted [] h = ground (arith, text_eq_iff [] (codes "*"), text_eq_refl [])
    accepted (c ∷ s) h = elim (Bool-cases (text_eq (c ∷ s) (codes "*"))) [
      | inl e ↦ inl ((text_eq_iff (c ∷ s) (codes "*")).0 e)
      | inr e ↦ inr (ground (arith, text_eq_iff (c ∷ s) []))
    ]

    passes : (l : Text) → (l ≡ codes "*") ⊎ IsLabel l → check_label l ≡ none
    passes l (inl e) = ground (arith, text_eq_iff l (codes "*"))
    passes [] (inr v) = absurd (omega arith)
    passes (c ∷ s) (inr v) = ground (arith, text_eq_iff (c ∷ s) [])

-- A label that is a wildcard holds a star, and no other does.
star_free : (l : Text) → all_plain l ≡ true → contains_byte 42 l ≡ false
unfolding all_plain contains_byte
star_free [] h = refl
star_free (c ∷ s) h = ground (arith, star_free s)

both_none :
    (l : Text) (ls : List Text)
    → check_labels (l ∷ ls) ≡ none
    → (check_label l ≡ none) × (check_labels ls ≡ none)
unfolding check_labels
both_none l ls h = ground arith

pub All-of_check_labels :
    (ls : List Text) → check_labels ls ≡ none → any_contains 42 ls ≡ false → All IsLabel ls
unfolding check_labels contains_byte
All-of_check_labels [] h k = tt
All-of_check_labels (l ∷ ls) h k =
    let (first, others) = both_none l ls h in
    elim ((check_label_iff l).0 first) [
      | inl e ↦ ground (arith, ap (contains_byte 42) e)
      | inr v ↦ (v, All-of_check_labels ls others (ground arith))
    ]

pub check_labels_of_All : (ls : List Text) → All IsLabel ls → check_labels ls ≡ none
unfolding check_labels
check_labels_of_All [] h = refl
check_labels_of_All (l ∷ ls) h =
    ground (arith, (check_label_iff l).1 (inr h.0), check_labels_of_All ls h.1)

pub star_free_of_All : (ls : List Text) → All IsLabel ls → any_contains 42 ls ≡ false
star_free_of_All [] h = refl
star_free_of_All (l ∷ ls) h = ground (arith, star_free l h.0.plain, star_free_of_All ls h.1)

pub plain_of_All : (ls : List Text) → All IsLabel ls → all_labels all_plain ls ≡ true
plain_of_All [] h = refl
plain_of_All (l ∷ ls) h = ground (arith, plain_of_All ls h.1)

pub nonempty_of_All : (ls : List Text) → All IsLabel ls → any_empty ls ≡ false
unfolding text_eq
nonempty_of_All [] h = refl
nonempty_of_All ([] ∷ ls) h = absurd (omega arith)
nonempty_of_All ((c ∷ l) ∷ ls) h = nonempty_of_All ls h.1
