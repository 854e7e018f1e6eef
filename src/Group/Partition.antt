-- ===== src/Group/Partition.antt =====
-- What the groups of GroupBy of internal/group/group.go hold.
use wecert.Base.{
  ◌≡◌, inl, inr, Bool, true, false, ◌&&◌, ◌||◌, Option, List, [], ◌∷◌, Text, text_eq, text_eq_iff,
  text_eq_refl, text_le, mem, mem-append, mem-sort, ok, err, arith, refl, ap, sym, ◌∙◌, Bool-cases,
  Result-cases,
}
use wecert.Group.{
  Group, cert_name, add_name, add_to_groups, sort_group, insert_group, sort_groups, normalize,
  registered_domain, collect, group_by,
}

-- The group holds the name.
abbrev pub has : Text → Group → Bool
has x g = mem x g.wildcards || mem x g.names

-- The group of a registered domain holds the name.
unfoldable pub holds : Text → Text → List Group → Bool
holds r x [] = false
holds r x (g ∷ gs) = (text_eq r g.registered && has x g) || holds r x gs

-- There is a group of the registered domain.
unfoldable pub has_group : Text → List Group → Bool
has_group r [] = false
has_group r (g ∷ gs) = text_eq r g.registered || has_group r gs

-- No two groups are of one registered domain.
unfoldable pub OnePerDomain : List Group → Type 0
OnePerDomain [] = Unit
OnePerDomain (g ∷ gs) = (has_group g.registered gs ≡ false) × OnePerDomain gs

text_eq-right : (r a b : Text) → text_eq a b ≡ true → text_eq r b ≡ text_eq r a
text_eq-right r a b h = ap (λ z. text_eq r z) (sym ((text_eq_iff a b).0 h))

has-add_name : (x n : Text) (g : Group) → has x (add_name n g) ≡ (text_eq x n || has x g)
unfolding add_name mem
has-add_name x n g =
    ground
      (arith, mem-append x g.wildcards (n ∷ []), mem-append x g.names (n ∷ []), text_eq_iff x n)

registered-add_name : (n : Text) (g : Group) → (add_name n g).registered ≡ g.registered
unfolding add_name
registered-add_name n g = ground arith

-- A name that goes to the group of its registered domain is there, and nothing else changes.
holds-add_to_groups :
    (r x reg n : Text) (gs : List Group)
    → holds r x (add_to_groups reg n gs) ≡ ((text_eq r reg && text_eq x n) || holds r x gs)
unfolding holds add_to_groups mem
holds-add_to_groups r x reg n [] = ground (
  arith,
  has-add_name x n (record { registered = reg; name = cert_name reg; wildcards = []; names = [] }),
  registered-add_name n
      (record { registered = reg; name = cert_name reg; wildcards = []; names = [] }),
)
holds-add_to_groups r x reg n (g ∷ gs) = ground (
  arith,
  holds-add_to_groups r x reg n gs,
  has-add_name x n g,
  registered-add_name n g,
  text_eq_iff reg g.registered,
)

has_group-add_to_groups :
    (r reg n : Text) (gs : List Group)
    → has_group r (add_to_groups reg n gs) ≡ (text_eq r reg || has_group r gs)
unfolding has_group add_to_groups
has_group-add_to_groups r reg n [] = ground (
  arith,
  registered-add_name n
      (record { registered = reg; name = cert_name reg; wildcards = []; names = [] }),
)
has_group-add_to_groups r reg n (g ∷ gs) = ground (
  arith,
  has_group-add_to_groups r reg n gs,
  registered-add_name n g,
  text_eq_iff reg g.registered,
)

-- What goes to the group of its registered domain leaves the groups one per registered domain.
add_to_groups-OnePerDomain :
    (reg n : Text) (gs : List Group) → OnePerDomain gs → OnePerDomain (add_to_groups reg n gs)
unfolding OnePerDomain add_to_groups has_group
add_to_groups-OnePerDomain reg n [] h = (refl, tt)
add_to_groups-OnePerDomain reg n (g ∷ gs) h = elim (Bool-cases (text_eq reg g.registered)) [
  | inl e ↦ rw e (rw (registered-add_name n g) h.0, h.1)
  | inr e ↦ rw e (
    ground (
      arith,
      has_group-add_to_groups g.registered reg n gs,
      h.0,
      text_eq_iff g.registered reg,
      text_eq_refl reg,
    ),
    add_to_groups-OnePerDomain reg n gs h.1,
  )
]

has_group-insert_group :
    (r : Text) (g : Group) (gs : List Group)
    → has_group r (insert_group g gs) ≡ (text_eq r g.registered || has_group r gs)
unfolding has_group insert_group
has_group-insert_group r g [] = refl
has_group-insert_group r g (h ∷ hs) = ground (arith, has_group-insert_group r g hs)

holds-insert_group :
    (r x : Text) (g : Group) (gs : List Group)
    → holds r x (insert_group g gs) ≡ ((text_eq r g.registered && has x g) || holds r x gs)
unfolding holds insert_group
holds-insert_group r x g [] = refl
holds-insert_group r x g (h ∷ hs) = ground (arith, holds-insert_group r x g hs)

holds-sort_groups : (r x : Text) (gs : List Group) → holds r x (sort_groups gs) ≡ holds r x gs
unfolding holds sort_groups
holds-sort_groups r x [] = refl
holds-sort_groups r x (g ∷ gs) = ground (
  arith,
  holds-insert_group r x (sort_group g) (sort_groups gs),
  holds-sort_groups r x gs,
  mem-sort x g.wildcards,
  mem-sort x g.names,
)

has_group-sort_groups : (r : Text) (gs : List Group) → has_group r (sort_groups gs) ≡ has_group r gs
unfolding has_group sort_groups
has_group-sort_groups r [] = refl
has_group-sort_groups r (g ∷ gs) =
    ground
      (arith, has_group-insert_group r (sort_group g) (sort_groups gs), has_group-sort_groups r gs)

insert_group-OnePerDomain :
    (g : Group) (gs : List Group)
    → has_group g.registered gs ≡ false
    → OnePerDomain gs
    → OnePerDomain (insert_group g gs)
unfolding OnePerDomain insert_group has_group
insert_group-OnePerDomain g [] h k = (refl, tt)
insert_group-OnePerDomain g (f ∷ fs) h k = elim (Bool-cases (text_le g.name f.name)) [
  | inl e ↦ rw e (h, k)
  | inr e ↦ rw e (
    ground (
      arith,
      has_group-insert_group f.registered g fs,
      text_eq_iff f.registered g.registered,
      text_eq_refl g.registered,
    ),
    insert_group-OnePerDomain g fs (ground arith) k.1,
  )
]

sort_groups-OnePerDomain : (gs : List Group) → OnePerDomain gs → OnePerDomain (sort_groups gs)
unfolding OnePerDomain sort_groups
sort_groups-OnePerDomain [] h = tt
sort_groups-OnePerDomain (g ∷ gs) h =
    insert_group-OnePerDomain (sort_group g) (sort_groups gs)
      (has_group-sort_groups g.registered gs ∙ h.0) (sort_groups-OnePerDomain gs h.1)

module _ (public_suffix : Text → Text) (is_ipv6 : Text → Bool)
    (etld_plus_one : Text → Option Text) where
  -- Some declared name is the name once normalized, with the registered domain for its own.
  unfoldable pub declares : Text → Text → List Text → Bool
  declares r x [] = false
  declares r x (raw ∷ rest) =
      elim (normalize public_suffix is_ipv6 etld_plus_one raw) [
        | err e ↦ false
        | ok n ↦ text_eq r (registered_domain public_suffix is_ipv6 etld_plus_one n) && text_eq x n
      ]
      || declares r x rest

  holds-collect :
      (r x : Text) (raws : List Text) (gs hs : List Group)
      → collect public_suffix is_ipv6 etld_plus_one gs raws ≡ ok hs
      → (holds r x hs ≡ (holds r x gs || declares r x raws)) × (OnePerDomain gs → OnePerDomain hs)
  unfolding collect declares
  holds-collect r x [] gs hs h = (ground arith, λ k. let e : gs ≡ hs = ground arith in rw (sym e) k)
  holds-collect r x (raw ∷ rest) gs hs h =
      elim (Result-cases (normalize public_suffix is_ipv6 etld_plus_one raw)) [
        | inl (e, q) ↦ ground arith
        | inr (n, q) ↦
            let d = registered_domain public_suffix is_ipv6 etld_plus_one n in
            let IH = holds-collect r x rest (add_to_groups d n gs) hs (ground arith) in
            (
              ground (arith, IH.0, holds-add_to_groups r x d n gs),
              λ k. IH.1 (add_to_groups-OnePerDomain d n gs k),
            )
      ]

  -- Where GroupBy succeeds, a group of a registered domain holds exactly the declared names that, once
  -- normalized, have that registered domain, and no registered domain has two groups.
  pub holds-group_by :
      (raws : List Text) (gs : List Group)
      → group_by public_suffix is_ipv6 etld_plus_one raws ≡ ok gs
      → ((r x : Text) → holds r x gs ≡ declares r x raws) × OnePerDomain gs
  unfolding group_by holds OnePerDomain
  holds-group_by raws gs h =
      elim (Result-cases (collect public_suffix is_ipv6 etld_plus_one [] raws)) [
        | inl (e, q) ↦ ground arith
        | inr (hs, q) ↦
            let e : sort_groups hs ≡ gs = ground arith in
            rw (sym e) (
              (λ r x. holds-sort_groups r x hs ∙ (holds-collect r x raws [] hs q).0),
              sort_groups-OnePerDomain hs ((holds-collect [] [] raws [] hs q).1 tt),
            )
      ]
