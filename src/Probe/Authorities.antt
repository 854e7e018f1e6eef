-- ===== src/Probe/Authorities.antt =====
-- The authorities that probeReadyWithDelegation of internal/acme/dns_probe.go counts by their names.
use wecert.Base.{
  ◌≤◌, ◌≡◌, ◌⊎◌, inl, inr, true, false, List, [], ◌∷◌, Text, text_eq, text_eq_iff, mem, length,
  arith, refl, All, Bool-cases,
}
use wecert.Probe.Ready.{mem-with_name}
use wecert.Probe.{
  no_error, name_error, refused_code, other_code, Reply, silent, response, probe_of, probe_txt,
  with_name, authorities,
}

ns-probe_of : (ns : Text) (r : Reply) → (probe_of ns r).ns ≡ ns
unfolding probe_of
ns-probe_of ns silent = refl
ns-probe_of ns (response no_error true a h) = refl
ns-probe_of ns (response no_error false a h) = refl
ns-probe_of ns (response name_error t a h) = refl
ns-probe_of ns (response refused_code t a h) = refl
ns-probe_of ns (response other_code t a h) = refl

-- All servers that resolved are of one name.
abbrev pub IsOneName : List (Text × Reply) → Type 0
IsOneName [] = Unit
IsOneName ((ns, r) ∷ replies) = All (λ a. a.0 ≡ ns) replies

authorities_step :
    (ns : Text) (r : Reply) (replies : List (Text × Reply))
    → authorities (probe_txt ((ns, r) ∷ replies)) ≡ with_name ns (authorities (probe_txt replies))
unfolding authorities probe_txt
authorities_step ns r replies = rw (ns-probe_of ns r) refl

abbrev names_of : List (Text × Reply) → List Text
names_of replies = authorities (probe_txt replies)

pub two_members :
    (n m : Text) (l : List Text)
    → text_eq n m ≡ false
    → mem n l ≡ true
    → mem m l ≡ true
    → 2 ≤ length l
unfolding mem
two_members n m [] ne h k = cc
two_members n m (x ∷ []) ne h k =
    ground (arith, ne, h, k, text_eq_iff n x, text_eq_iff m x, text_eq_iff n m)
two_members n m (x ∷ y ∷ l) ne h k = ground arith

only_member : (x n : Text) (l : List Text) → length l ≤ 1 → mem n l ≡ true → mem x l ≡ true → x ≡ n
only_member x n l one h k = elim (Bool-cases (text_eq x n)) [
  | inl e ↦ (text_eq_iff x n).0 e
  | inr e ↦ ground (arith, two_members x n l e k h, one)
]

empty_member : (x n : Text) (l : List Text) → length l ≡ 0 → mem x l ≡ true → x ≡ n
unfolding mem
empty_member x n [] h k = cc
empty_member x n (y ∷ l) h k = ground (arith, h)

authorities_nil : names_of [] ≡ []
unfolding authorities probe_txt
authorities_nil = refl

same_authority :
    (ns : Text) (replies : List (Text × Reply))
    → All (λ a. a.0 ≡ ns) replies
    → (names_of replies ≡ []) ⊎ (names_of replies ≡ ns ∷ [])
unfolding with_name mem
same_authority ns [] h = inl authorities_nil
same_authority ns ((m, r) ∷ replies) h = inr (
    ground
      (arith, authorities_step m r replies, same_authority ns replies h.1, h.0, text_eq_iff ns ns))

pub IsOneName-authorities :
    (replies : List (Text × Reply)) → IsOneName replies → length (names_of replies) ≤ 1
unfolding with_name mem
IsOneName-authorities [] h = ground (arith, authorities_nil)
IsOneName-authorities ((ns, r) ∷ replies) h =
    ground (arith, authorities_step ns r replies, same_authority ns replies h, text_eq_iff ns ns)

-- The names of the replies are among those that are counted.
among :
    (ns : Text) (replies : List (Text × Reply))
    → ((x : Text) → mem x (names_of replies) ≡ true → x ≡ ns)
    → All (λ a. a.0 ≡ ns) replies
among ns [] h = tt
among ns ((m, r) ∷ replies) h =
    let step = authorities_step m r replies in
    (
      h m (ground (arith, step, mem-with_name m m (names_of replies), text_eq_iff m m)),
      among ns replies (λ x k. h x (ground (arith, step, mem-with_name x m (names_of replies), k))),
    )

pub authorities-IsOneName :
    (replies : List (Text × Reply)) → length (names_of replies) ≤ 1 → IsOneName replies
unfolding with_name mem
authorities-IsOneName [] h = tt
authorities-IsOneName ((ns, r) ∷ replies) h = among ns replies (λ x k.
    elim (Bool-cases (mem ns (names_of replies))) [
      | inl e ↦
          only_member x ns (names_of replies) (ground (arith, authorities_step ns r replies, h, e))
            e k
      | inr e ↦
          empty_member x ns (names_of replies) (ground (arith, authorities_step ns r replies, h, e))
            k
    ])
