-- ===== src/Group/Cover.antt =====
-- Cover of internal/group/group.go: the SAN set of a group is exactly what its declarations need.
use wecert.Base.{
  ℕ, suc, ◌+◌, ◌≤◌, ◌<◌, ◌≡◌, ◌↔◌, inl, inr, Bool, true, false, not, ◌&&◌, ◌||◌, none, some, List,
  [], ◌∷◌, ◌++◌, Text, text_eq, text_eq_iff, text_eq_refl, text_le, text_le_antisym, text_le_total,
  le_of_mem, mem, mem-append, sort, mem-sort, length, ok, err, arith, refl, ◌∙◌, Bool-cases,
  Option-cases, is_some, All, IsSorted, sort-IsSorted, length-sort, length-append,
}
use wecert.Group.{
  Group, Coverage, too_many_names, wildcard_covers, coverer, cover_names, take_out, assemble, cover,
}

-- Some wildcard of the list covers the name.
unfoldable pub covered_by : List Text → Text → Bool
covered_by [] n = false
covered_by (w ∷ ws) n = wildcard_covers w n || covered_by ws n

coverer_lem : (ws : List Text) (n : Text) → is_some (coverer ws n) ≡ covered_by ws n
unfolding coverer covered_by
coverer_lem [] n = refl
coverer_lem (w ∷ ws) n = ground (arith, coverer_lem ws n)

covers-coverer :
    (ws : List Text) (n w : Text)
    → coverer ws n ≡ some w
    → (mem w ws ≡ true) × (wildcard_covers w n ≡ true)
unfolding coverer mem
covers-coverer [] n w h = cc
covers-coverer (v ∷ ws) n w h = elim (Bool-cases (wildcard_covers v n)) [
  | inl e ↦ ground (arith, text_eq_iff w v)
  | inr e ↦ ground (arith, covers-coverer ws n w (ground arith))
]

mem-uncovered :
    (x : Text) (ws ns : List Text)
    → mem x (cover_names ws ns).0 ≡ (mem x ns && not (covered_by ws x))
unfolding cover_names mem
mem-uncovered x ws [] = refl
mem-uncovered x ws (n ∷ ns) =
    ground (arith, mem-uncovered x ws ns, coverer_lem ws n, text_eq_iff x n)

take_out-some :
    (x : Text) (l r : List Text) (z : Text)
    → take_out x l ≡ some r
    → mem z l ≡ (text_eq z x || mem z r)
unfolding take_out mem
take_out-some x [] r z h = cc
take_out-some x (y ∷ l) r z h = elim (Option-cases (take_out x l)) [
  | inl e ↦ ground (arith, text_eq_iff y x, text_eq_iff z x, text_eq_iff z y)
  | inr (r', e) ↦
      ground (arith, text_eq_iff y x, text_eq_iff z x, text_eq_iff z y, take_out-some x l r' z e)
]

take_out-none : (x : Text) (l : List Text) → IsSorted l → take_out x l ≡ none → mem x l ≡ false
unfolding take_out mem
take_out-none x [] s h = refl
take_out-none x (y ∷ l) s h = elim (Bool-cases (text_le x y)) [
  | inl e ↦
      ground (arith, text_eq_iff y x, text_eq_iff x y, le_of_mem y x l s.0, text_le_antisym x y e)
  | inr e ↦ ground (arith, text_eq_iff x y, text_le_total x y e, take_out-none x l s.1)
]

-- The SAN set holds the wildcards and the uncovered names, wherever the registered domain stands.
mem-assemble :
    (x : Text) (g : Group) (u : List Text) → mem x (assemble g u) ≡ (mem x g.wildcards || mem x u)
unfolding assemble mem
mem-assemble x g u = elim (Option-cases (take_out g.registered u)) [
  | inl e ↦ ground (arith, mem-append x g.wildcards u)
  | inr (r, e) ↦ ground (arith, mem-append x g.wildcards r, take_out-some g.registered u r x e)
]

-- An entry of the table: a declared name, and a declared wildcard that covers it.
abbrev pub IsCovering : List Text → List Text → Text × Text → Type 0
IsCovering ws ns e = (mem e.0 ns ≡ true) × (mem e.1 ws ≡ true) × (wildcard_covers e.1 e.0 ≡ true)

mem_first : (n : Text) (ns : List Text) → mem n (n ∷ ns) ≡ true
unfolding mem
mem_first n ns = rw text_eq_refl

All-map {ℓ} :
    {A : Type ℓ} (P Q : A → Type 0) (l : List A) → ((a : A) → P a → Q a) → All P l → All Q l
All-map P Q [] f h = tt
All-map P Q (a ∷ l) f h = (f a h.0, All-map P Q l f h.1)

widen :
    (ws ns : List Text) (n : Text) (e : Text × Text) → IsCovering ws ns e → IsCovering ws (n ∷ ns) e
unfolding mem
widen ws ns n e h = ground arith

covered_table : (ws ns : List Text) → All (IsCovering ws ns) (cover_names ws ns).1
unfolding cover_names
covered_table ws [] = tt
covered_table ws (n ∷ ns) =
    let rest =
      All-map (IsCovering ws ns) (IsCovering ws (n ∷ ns)) (cover_names ws ns).1 (widen ws ns n)
        (covered_table ws ns) in
    elim (Option-cases (coverer ws n)) [
      | inl e ↦ rw e rest
      | inr (w, e) ↦
          rw e ((mem_first n ns, (covers-coverer ws n w e).0, (covers-coverer ws n w e).1), rest)
    ]

-- What Cover returns, and when.
cover_ok :
    (g : Group) (max_names : ℕ) {c : Coverage}
    → cover g max_names ≡ ok c
    → (c.domains ≡ assemble g (sort (cover_names g.wildcards g.names).0))
      × (c.covered ≡ (cover_names g.wildcards g.names).1)
      × ((0 < max_names) → length c.domains ≤ max_names)
unfolding cover
cover_ok g max_names h = (ground arith, ground arith, λ p. ground arith)

length-take_out : (x : Text) (l r : List Text) → take_out x l ≡ some r → length l ≡ suc (length r)
unfolding take_out
length-take_out x [] r h = cc
length-take_out x (y ∷ l) r h = elim (Option-cases (take_out x l)) [
  | inl e ↦ ground arith
  | inr (r', e) ↦ ground (arith, length-take_out x l r' e)
]

length-assemble :
    (g : Group) (u : List Text) → length (assemble g u) ≡ length g.wildcards + length u
unfolding assemble
length-assemble g u = elim (Option-cases (take_out g.registered u)) [
  | inl e ↦ ground (arith, length-append {0} g.wildcards u)
  | inr (r, e) ↦ ground (arith, length-append {0} g.wildcards r, length-take_out g.registered u r e)
]

-- Without a limit, or within it, the SAN set of a group holds its wildcards and those of its names that
-- none of them covers, and nothing else; the table holds declared names with a declared wildcard that
-- covers them.
pub cover_lem :
    (g : Group) (max_names : ℕ) {c : Coverage}
    → cover g max_names ≡ ok c
    → ((x : Text)
        → mem x c.domains
          ≡ (mem x g.wildcards || (mem x g.names && not (covered_by g.wildcards x))))
      × All (IsCovering g.wildcards g.names) c.covered
      × ((0 < max_names) → length c.domains ≤ max_names)
cover_lem g max_names {c} h =
    let (d, t, limit) = cover_ok g max_names h in
    (
      λ x. ground (
        arith,
        mem-assemble x g (sort (cover_names g.wildcards g.names).0),
        mem-sort x (cover_names g.wildcards g.names).0,
        mem-uncovered x g.wildcards g.names,
      ),
      rw t (covered_table g.wildcards g.names),
      limit,
    )

assemble-some :
    (g : Group) (u r : List Text)
    → take_out g.registered u ≡ some r
    → assemble g u ≡ g.registered ∷ (g.wildcards ++ r)
unfolding assemble
assemble-some g u r e = ground arith

-- The registered domain comes first where it is wanted.
pub cover_registered_first :
    (g : Group) (max_names : ℕ) {c : Coverage}
    → cover g max_names ≡ ok c
    → mem g.registered g.names ≡ true
    → covered_by g.wildcards g.registered ≡ false
    → (rest : List Text) × (c.domains ≡ g.registered ∷ (g.wildcards ++ rest))
cover_registered_first g max_names {c} h m k =
    let (d, t, limit) = cover_ok g max_names h in
    let u = sort (cover_names g.wildcards g.names).0 in
    elim (Option-cases (take_out g.registered u)) [
      | inl e ↦ ground (
        arith,
        take_out-none g.registered u (sort-IsSorted _) e,
        mem-sort g.registered (cover_names g.wildcards g.names).0,
        mem-uncovered g.registered g.wildcards g.names,
      )
      | inr (r, e) ↦ (r, d ∙ assemble-some g u r e)
    ]

-- The only error is a SAN set over the limit.
pub cover_refuses_iff :
    (g : Group) (max_names : ℕ)
    → (cover g max_names ≡ err too_many_names) ↔ (
        (0 < max_names)
        × (max_names < length g.wildcards + length (cover_names g.wildcards g.names).0))
unfolding cover
cover_refuses_iff g max_names =
    let u = (cover_names g.wildcards g.names).0 in
    (
      λ h. ground (arith, length-assemble g (sort u), length-sort u),
      λ h. ground (arith, length-assemble g (sort u), length-sort u),
    )
