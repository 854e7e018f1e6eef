-- ===== src/Base/Sort.antt =====
-- sort.Strings. The order on texts is antisymmetric, so every sort has the result of this one.
use Prim.Native.Nat.{suc}
use mathlib.Core.Logic.{inl, inr}
use mathlib.Core.Path.{◌≡◌, refl, ap, ◌∙◌}
use mathlib.Core.Bool.{true, false, ◌||◌}
use mathlib.Core.List.{List, [], ◌∷◌}
use native.Mathlib.Omega.{arith}
use wecert.Base.Tests.{if◌then◌else◌, Bool-cases}
use wecert.Base.Lists.{length, All}
use wecert.Base.Strings.{Text, text_eq, text_le, mem}
use wecert.Base.StringLaws.{
  text_eq_iff, text_eq_refl, text_le_total, text_le_antisym, text_le_trans,
}

unfoldable pub insert : Text → List Text → List Text
insert s [] = s ∷ []
insert s (t ∷ l) = if text_le s t then s ∷ t ∷ l else t ∷ insert s l

unfoldable pub sort : List Text → List Text
unfolding insert
sort [] = []
sort (s ∷ l) = insert s (sort l)

-- Every entry is below the first of the rest.
abbrev pub IsSorted : List Text → Type 0
IsSorted [] = Unit
IsSorted (s ∷ l) = All (λ t. text_le s t ≡ true) l × IsSorted l

pub length-insert : (s : Text) (l : List Text) → length (insert s l) ≡ suc (length l)
unfolding insert
length-insert s [] = refl
length-insert s (t ∷ l) = ground (arith, length-insert s l)

pub length-sort : (l : List Text) → length (sort l) ≡ length l
unfolding sort
length-sort [] = refl
length-sort (s ∷ l) = length-insert s (sort l) ∙ ap suc (length-sort l)

pub mem-insert : (x s : Text) (l : List Text) → mem x (insert s l) ≡ (text_eq x s || mem x l)
unfolding mem insert
mem-insert x s [] = refl
mem-insert x s (t ∷ l) = ground (arith, mem-insert x s l)

-- Sorting keeps the members.
pub mem-sort : (x : Text) (l : List Text) → mem x (sort l) ≡ mem x l
unfolding mem sort
mem-sort x [] = refl
mem-sort x (s ∷ l) = ground (arith, mem-insert x s (sort l), mem-sort x l)

All-insert {ℓ} : (P : Text → Type ℓ) (s : Text) (l : List Text) → P s → All P l → All P (insert s l)
unfolding insert
All-insert P s [] h k = (h, k)
All-insert P s (t ∷ l) h k = elim (Bool-cases (text_le s t)) [
  | inl e ↦ rw e (h, k)
  | inr e ↦ rw e (k.0, All-insert P s l h k.1)
]

pub All-sort {ℓ} : (P : Text → Type ℓ) (l : List Text) → All P l → All P (sort l)
unfolding sort
All-sort P [] h = h
All-sort P (s ∷ l) h = All-insert P s (sort l) h.0 (All-sort P l h.1)

All-le_trans :
    (s t : Text) (l : List Text)
    → text_le s t ≡ true
    → All (λ u. text_le t u ≡ true) l
    → All (λ u. text_le s u ≡ true) l
All-le_trans s t [] h k = k
All-le_trans s t (u ∷ l) h k = (text_le_trans s t u h k.0, All-le_trans s t l h k.1)

insert-IsSorted : (s : Text) (l : List Text) → IsSorted l → IsSorted (insert s l)
unfolding insert
insert-IsSorted s [] h = (tt, tt)
insert-IsSorted s (t ∷ l) h = elim (Bool-cases (text_le s t)) [
  | inl e ↦ rw e ((e, All-le_trans s t l e h.0), h)
  | inr e ↦ rw e (All-insert _ s l (text_le_total s t e) h.0, insert-IsSorted s l h.1)
]

pub sort-IsSorted : (l : List Text) → IsSorted (sort l)
unfolding sort
sort-IsSorted [] = tt
sort-IsSorted (s ∷ l) = insert-IsSorted s (sort l) (sort-IsSorted l)

-- No text stands twice.
abbrev pub IsDistinct : List Text → Type 0
IsDistinct [] = Unit
IsDistinct (s ∷ l) = (mem s l ≡ false) × IsDistinct l

insert-IsDistinct :
    (s : Text) (l : List Text) → mem s l ≡ false → IsDistinct l → IsDistinct (insert s l)
unfolding insert mem
insert-IsDistinct s [] h k = (refl, tt)
insert-IsDistinct s (t ∷ l) h k = elim (Bool-cases (text_le s t)) [
  | inl e ↦ rw e (h, k)
  | inr e ↦ rw e (
    ground (arith, mem-insert t s l, text_eq_iff s t, text_eq_iff t s),
    insert-IsDistinct s l (ground arith) k.1,
  )
]

pub sort-IsDistinct : (l : List Text) → IsDistinct l → IsDistinct (sort l)
unfolding sort
sort-IsDistinct [] h = tt
sort-IsDistinct (s ∷ l) h =
    insert-IsDistinct s (sort l) (mem-sort s l ∙ h.0) (sort-IsDistinct l h.1)

pub le_of_mem :
    (s x : Text) (l : List Text)
    → All (λ t. text_le s t ≡ true) l
    → mem x l ≡ true
    → text_le s x ≡ true
unfolding mem
le_of_mem s x [] h m = cc
le_of_mem s x (t ∷ l) h m = elim (Bool-cases (text_eq x t)) [
  | inl e ↦ rw ((text_eq_iff x t).0 e) h.0
  | inr e ↦ le_of_mem s x l h.1 (rw e at m)
]

abbrev pub SameMembers : List Text → List Text → Type 0
SameMembers l m = (x : Text) → mem x l ≡ mem x m

mem_head : (s : Text) (l : List Text) → mem s (s ∷ l) ≡ true
unfolding mem
mem_head s l = rw text_eq_refl

-- The first entries of two sorted lists with the same members are equal.
heads-eq :
    (s t : Text) (l m : List Text)
    → All (λ u. text_le s u ≡ true) l
    → All (λ u. text_le t u ≡ true) m
    → SameMembers (s ∷ l) (t ∷ m)
    → s ≡ t
unfolding mem
heads-eq s t l m hl hm same = elim (Bool-cases (text_eq s t)) [
  | inl e ↦ (text_eq_iff s t).0 e
  | inr e ↦
      text_le_antisym s t
        (le_of_mem s t l hl
          (ground (arith, same t, mem_head t m, text_eq_iff t s, text_eq_iff s t)))
        (le_of_mem t s m hm
          (ground (arith, same s, mem_head s l, text_eq_iff t s, text_eq_iff s t)))
]

-- A sorted list without repetitions is determined by its members.
pub eq_of_SameMembers :
    (l m : List Text)
    → IsSorted l
    → IsSorted m
    → IsDistinct l
    → IsDistinct m
    → SameMembers l m
    → l ≡ m
unfolding mem
eq_of_SameMembers [] [] sl sm dl dm same = refl
eq_of_SameMembers [] (t ∷ m) sl sm dl dm same = cc (same t, mem_head t m)
eq_of_SameMembers (s ∷ l) [] sl sm dl dm same = cc (same s, mem_head s l)
eq_of_SameMembers (s ∷ l) (t ∷ m) sl sm dl dm same =
    let e = heads-eq s t l m sl.0 sm.0 same in
    let tails : SameMembers l m =
      λ x. ground (arith, same x, text_eq_iff x s, text_eq_iff x t, dl.0, dm.0, e) in
    cc (e, eq_of_SameMembers l m sl.1 sm.1 dl.1 dm.1 tails)
