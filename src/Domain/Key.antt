-- ===== src/Domain/Key.antt =====
-- DomainKey and DiffDomains of internal/config/domain.go compare two lists of names as sets.
use wecert.Base.{
  ◌≡◌, ◌≢◌, ◌↔◌, inl, inr, false, not, ◌&&◌, ◌||◌, if◌then◌else◌, List, [], ◌∷◌, ◌++◌, map, Text,
  text_eq, text_eq_iff, mem, mem-append, contains_byte, split, join, trim_space, to_lower, sort,
  All, All-append, All-sort, IsSorted, IsDistinct, SameMembers, mem-sort, sort-IsSorted,
  sort-IsDistinct, eq_of_SameMembers, split-join, join-ne, arith, refl, sym, ap, ◌∙◌, Bool-cases,
}
use wecert.Domain.{distinct_from, domain_key, clean_set, without, diff_domains}

-- What a name is compared by.
abbrev pub clean : Text → Text
clean raw = to_lower (trim_space raw)

-- The names of a list as they are compared, the blank ones left out.
unfoldable pub cleaned : List Text → List Text
cleaned [] = []
cleaned (raw ∷ l) =
    let rest = cleaned l in if text_eq (clean raw) [] then rest else clean raw ∷ rest

pub mem-snoc : (x d : Text) (out : List Text) → mem x (out ++ d ∷ []) ≡ (mem x out || text_eq x d)
unfolding mem
mem-snoc x d out = ground (arith, mem-append x out (d ∷ []))

pub snoc-IsDistinct :
    (d : Text) (out : List Text) → IsDistinct out → mem d out ≡ false → IsDistinct (out ++ d ∷ [])
unfolding mem
snoc-IsDistinct d [] h k = (refl, tt)
snoc-IsDistinct d (x ∷ out) h k = (
  ground (arith, mem-snoc x d out, text_eq_iff x d, text_eq_iff d x, h.0),
  snoc-IsDistinct d out h.1 (ground arith),
)

mem-distinct_from :
    (x : Text) (l out : List Text) → mem x (distinct_from out l) ≡ (mem x out || mem x (cleaned l))
unfolding distinct_from cleaned mem
mem-distinct_from x [] out = ground arith
mem-distinct_from x (raw ∷ l) out = ground (
  arith,
  mem-distinct_from x l
      (if text_eq (clean raw) [] || mem (clean raw) out then out else out ++ clean raw ∷ []),
  mem-snoc x (clean raw) out,
  text_eq_iff x (clean raw),
)

distinct_from-IsDistinct : (l out : List Text) → IsDistinct out → IsDistinct (distinct_from out l)
unfolding distinct_from
distinct_from-IsDistinct [] out h = h
distinct_from-IsDistinct (raw ∷ l) out h =
    elim (Bool-cases (text_eq (clean raw) [] || mem (clean raw) out)) [
      | inl e ↦ rw e (distinct_from-IsDistinct l out h)
      | inr e ↦ rw e (
          distinct_from-IsDistinct l (out ++ clean raw ∷ [])
            (snoc-IsDistinct (clean raw) out h (ground arith)))
    ]

-- The sorted names behind a key.
abbrev names_of : List Text → List Text
names_of l = sort (distinct_from [] l)

mem-names_of : (x : Text) (l : List Text) → mem x (names_of l) ≡ mem x (cleaned l)
unfolding mem
mem-names_of x l = mem-sort x (distinct_from [] l) ∙ mem-distinct_from x l []

names_of-eq : (a b : List Text) → SameMembers (cleaned a) (cleaned b) → names_of a ≡ names_of b
names_of-eq a b same =
    eq_of_SameMembers (names_of a) (names_of b) (sort-IsSorted _) (sort-IsSorted _)
      (sort-IsDistinct _ (distinct_from-IsDistinct a [] tt))
      (sort-IsDistinct _ (distinct_from-IsDistinct b [] tt))
      (λ x. mem-names_of x a ∙ same x ∙ sym (mem-names_of x b))

-- A name that a key can hold between its commas.
abbrev pub KeyName : Text → Type 0
KeyName d = (contains_byte 44 d ≡ false) × (d ≢ [])

All-distinct_from :
    (P : Text → Type 0) (l out : List Text)
    → All P out
    → All P (cleaned l)
    → All P (distinct_from out l)
unfolding distinct_from cleaned
All-distinct_from P [] out h k = h
All-distinct_from P (raw ∷ l) out h k = elim (Bool-cases (text_eq (clean raw) [])) [
  | inl e ↦ rw e (All-distinct_from P l out h (rw e at k))
  | inr e ↦
      let k' : P (clean raw) × All P (cleaned l) = rw e at k in
      elim (Bool-cases (mem (clean raw) out)) [
        | inl m ↦ rw (e, m) (All-distinct_from P l out h k'.1)
        | inr m ↦
            rw (e, m)
              (All-distinct_from P l (out ++ clean raw ∷ [])
                (All-append P out (clean raw ∷ []) h (k'.0, tt)) k'.1)
      ]
]

nonblank :
    (l : List Text) → All (λ d. contains_byte 44 d ≡ false) (cleaned l) → All KeyName (cleaned l)
unfolding cleaned
nonblank [] h = tt
nonblank (raw ∷ l) h = elim (Bool-cases (text_eq (clean raw) [])) [
  | inl e ↦ rw e (nonblank l (rw e at h))
  | inr e ↦
      let h' : (contains_byte 44 (clean raw) ≡ false)
          × All (λ d. contains_byte 44 d ≡ false) (cleaned l) =
        rw e at h in
      rw e ((h'.0, λ q. ground (arith, text_eq_iff (clean raw) [])), nonblank l h'.1)
]

comma_free : (l : List Text) → All KeyName l → All (λ d. contains_byte 44 d ≡ false) l
comma_free [] h = tt
comma_free (d ∷ l) h = (h.0.0, comma_free l h.1)

-- Two lists of names that a key can hold are joined to one text only if they are one list.
join_injective : (l m : List Text) → All KeyName l → All KeyName m → join 44 l ≡ join 44 m → l ≡ m
unfolding join
join_injective [] [] h k e = refl
join_injective [] (q ∷ m) h k e = absurd (join-ne 44 q m k.0.1 (sym e))
join_injective (p ∷ l) [] h k e = absurd (join-ne 44 p l h.0.1 e)
join_injective (p ∷ l) (q ∷ m) h k e =
    sym (split-join 44 p l (comma_free (p ∷ l) h))
    ∙ ap (split 44) e
    ∙ split-join 44 q m (comma_free (q ∷ m) k)

names_of-KeyName : (l : List Text) → All KeyName (cleaned l) → All KeyName (names_of l)
names_of-KeyName l h = All-sort KeyName _ (All-distinct_from KeyName l [] tt h)

-- For names without a comma: two lists have one key exactly when, but for order, case, surrounding
-- white space, repetitions and blank entries, they hold the same names.
pub domain_key_iff :
    (a b : List Text)
    → All (λ d. contains_byte 44 d ≡ false) (cleaned a)
    → All (λ d. contains_byte 44 d ≡ false) (cleaned b)
    → (domain_key a ≡ domain_key b) ↔ SameMembers (cleaned a) (cleaned b)
unfolding domain_key
domain_key_iff a b ha hb = (
  λ e x.
      let same =
        join_injective (names_of a) (names_of b) (names_of-KeyName a (nonblank a ha))
          (names_of-KeyName b (nonblank b hb)) e in
      sym (mem-names_of x a) ∙ ap (mem x) same ∙ mem-names_of x b,
  λ same. ap (join 44) (names_of-eq a b same),
)

mem-clean_set :
    (x : Text) (l out : List Text) → mem x (clean_set out l) ≡ (mem x out || mem x (map clean l))
unfolding clean_set mem
mem-clean_set x [] out = ground arith
mem-clean_set x (raw ∷ l) out = ground (
  arith,
  mem-clean_set x l (if mem (clean raw) out then out else out ++ clean raw ∷ []),
  mem-snoc x (clean raw) out,
  text_eq_iff x (clean raw),
)

mem-without :
    (x : Text) (other l : List Text) → mem x (without other l) ≡ (mem x l && not (mem x other))
unfolding without mem
mem-without x other [] = refl
mem-without x other (d ∷ l) = ground (arith, mem-without x other l, text_eq_iff x d)

diff_side :
    (x : Text) (want have : List Text)
    → mem x (sort (without (clean_set [] have) (clean_set [] want)))
      ≡ (mem x (map clean want) && not (mem x (map clean have)))
unfolding mem
diff_side x want have = ground (
  arith,
  mem-sort x (without (clean_set [] have) (clean_set [] want)),
  mem-without x (clean_set [] have) (clean_set [] want),
  mem-clean_set x want [],
  mem-clean_set x have [],
)

-- Missing are the names that are wanted and not had, extra those that are had and not wanted, as they
-- are compared; both lists are sorted.
pub diff_domains_lem :
    (want have : List Text)
    → ((x : Text)
        → mem x (diff_domains want have).0
          ≡ (mem x (map clean want) && not (mem x (map clean have))))
      × ((x : Text)
          → mem x (diff_domains want have).1
            ≡ (mem x (map clean have) && not (mem x (map clean want))))
      × IsSorted (diff_domains want have).0
      × IsSorted (diff_domains want have).1
unfolding diff_domains
diff_domains_lem want have =
    (λ x. diff_side x want have, λ x. diff_side x have want, sort-IsSorted _, sort-IsSorted _)
