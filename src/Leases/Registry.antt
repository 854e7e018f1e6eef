-- ===== src/Leases/Registry.antt =====
-- What the operations of internal/acme/dns_leases.go do to the values that are relied on at a name.
use wecert.Base.{
  ◌≡◌, inl, inr, Bool, true, false, not, ◌&&◌, ◌||◌, if◌then◌else◌, List, [], ◌∷◌, Text, text_eq,
  text_eq_iff, text_eq_refl, mem, ◌==◌, length, arith, refl, Option-cases, Bool-cases,
}
use wecert.Base.Assoc.{lookup, put, remove, lookup-put, lookup-remove}
use wecert.Leases.{Registry, values_at, drop_value, add_lease, remove_lease, release}

mem-drop_value :
    (u v : Text) (us : List Text) → mem u (drop_value v us) ≡ (mem u us && not (text_eq u v))
unfolding mem drop_value
mem-drop_value u v [] = refl
mem-drop_value u v (x ∷ us) =
    ground (arith, text_eq_iff x v, text_eq_iff u x, text_eq_iff u v, mem-drop_value u v us)

values_at-put :
    (n m : Text) (vs : List Text) (l : Registry)
    → values_at m (put n vs l) ≡ (if text_eq n m then vs else values_at m l)
values_at-put n m vs l = ground (arith, lookup-put n m vs l)

pub values_at-remove :
    (n m : Text) (l : Registry)
    → values_at m (remove n l) ≡ (if text_eq n m then [] else values_at m l)
values_at-remove n m l = ground (arith, lookup-remove n m l)

-- The value is relied on at the name.
abbrev pub leased : Registry → Text → Text → Bool
leased l n v = mem v (values_at n l)

pub leased-add_lease :
    (l : Registry) (n v m u : Text)
    → leased (add_lease l n v) m u ≡ ((text_eq n m && text_eq u v) || leased l m u)
unfolding add_lease mem
leased-add_lease l n v m u = ground (
  arith,
  values_at-put n m (if mem v (values_at n l) then values_at n l else v ∷ values_at n l) l,
  text_eq_iff n m,
  text_eq_iff u v,
)

empty_mem : (u : Text) (vs : List Text) → (length vs == 0) ≡ true → mem u vs ≡ false
unfolding mem
empty_mem u [] h = refl
empty_mem u (v ∷ vs) h = ground arith

pub leased-release : (l : Registry) (n m u : Text) → leased (release l n) m u ≡ leased l m u
unfolding release mem
leased-release l n m u =
    ground (arith, values_at-remove n m l, text_eq_iff n m, empty_mem u (values_at n l))

pub leased-remove_lease :
    (l : Registry) (n v m u : Text)
    → leased (remove_lease l n v).0 m u ≡ (leased l m u && not (text_eq n m && text_eq u v))
unfolding remove_lease mem
leased-remove_lease l n v m u = elim (Option-cases (lookup n l)) [
  | inl e ↦ ground (arith, e, text_eq_iff n m, text_eq_iff u v)
  | inr (vs, e) ↦
      ground
        (arith, e, text_eq_iff n m, values_at-put n m (drop_value v vs) l, mem-drop_value u v vs)
]

other_mem :
    (v : Text) (vs : List Text)
    → (length (drop_value v vs) == 0) ≡ false
    → (u : Text) × (text_eq u v ≡ false) × (mem u vs ≡ true)
unfolding drop_value mem
other_mem v [] h = cc
other_mem v (x ∷ vs) h = elim (Bool-cases (text_eq x v)) [
  | inl e ↦ let (u, ne, m) = other_mem v vs (ground (arith, h, e)) in (u, ne, ground (arith, m))
  | inr e ↦ (x, e, ground (arith, text_eq_refl x))
]

-- Another value is live only if the registry has one at the name.
pub others_live-remove_lease :
    (l : Registry) (n v : Text)
    → (remove_lease l n v).1 ≡ true
    → (u : Text) × (text_eq u v ≡ false) × (leased l n u ≡ true)
unfolding remove_lease mem
others_live-remove_lease l n v h = elim (Option-cases (lookup n l)) [
  | inl e ↦ ground (arith, h, e)
  | inr (vs, e) ↦
      let (u, ne, m) = other_mem v vs (ground (arith, h, e)) in (u, ne, ground (arith, e, m))
]

-- Without another live value nothing is relied on at the name.
pub last_leaver :
    (l : Registry) (n v u : Text)
    → (remove_lease l n v).1 ≡ false
    → leased (remove_lease l n v).0 n u ≡ false
unfolding remove_lease mem
last_leaver l n v u h = elim (Option-cases (lookup n l)) [
  | inl e ↦ ground (arith, e)
  | inr (vs, e) ↦ ground (
    arith,
    e,
    text_eq_refl n,
    values_at-put n n (drop_value v vs) l,
    empty_mem u (drop_value v vs),
  )
]

pub none_live-remove_lease :
    (l : Registry) (n v u : Text)
    → (remove_lease l n v).1 ≡ false
    → (leased l n u && not (text_eq u v)) ≡ false
none_live-remove_lease l n v u h =
    ground (arith, last_leaver l n v u h, leased-remove_lease l n v n u, text_eq_refl n)
