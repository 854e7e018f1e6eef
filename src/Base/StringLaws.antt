-- ===== src/Base/StringLaws.antt =====
-- Laws of the comparisons, of membership and of the affix functions of `Base.Strings`.
use Prim.Native.Nat.{ℕ}
use mathlib.Core.Path.{◌≡◌, refl, ap}
use mathlib.Core.Logic.{◌↔◌, ◌≢◌}
use mathlib.Core.Bool.{true, false, ◌||◌}
use mathlib.Core.List.{List, [], ◌∷◌, ◌++◌}
use mathlib.Core.Option.{some}
use native.Mathlib.Omega.{arith}
use wecert.Base.Lists.{length, length-append}
use wecert.Base.Strings.{Text, text_eq, text_le, mem, has_prefix, after_prefix, cut_suffix}

eq_of_text_eq : (s t : Text) → text_eq s t ≡ true → s ≡ t
unfolding text_eq
eq_of_text_eq [] [] h = refl
eq_of_text_eq [] (d ∷ t) h = cc
eq_of_text_eq (c ∷ s) [] h = cc
eq_of_text_eq (c ∷ s) (d ∷ t) h = ground (arith, eq_of_text_eq s t)

pub text_eq_refl : (s : Text) → text_eq s s ≡ true
unfolding text_eq
text_eq_refl [] = refl
text_eq_refl (c ∷ s) = ground (arith, text_eq_refl s)

pub text_eq_iff : (s t : Text) → (text_eq s t ≡ true) ↔ (s ≡ t)
text_eq_iff s t = (eq_of_text_eq s t, λ e. rw e (text_eq_refl t))

pub text_eq_sym : (s t : Text) → text_eq s t ≡ text_eq t s
unfolding text_eq
text_eq_sym [] [] = refl
text_eq_sym [] (d ∷ t) = refl
text_eq_sym (c ∷ s) [] = refl
text_eq_sym (c ∷ s) (d ∷ t) = ground (arith, text_eq_sym s t)

pub text_le_total : (s t : Text) → text_le s t ≡ false → text_le t s ≡ true
unfolding text_le
text_le_total [] t h = cc
text_le_total (c ∷ s) [] h = refl
text_le_total (c ∷ s) (d ∷ t) h = ground (arith, text_le_total s t)

pub text_le_antisym : (s t : Text) → text_le s t ≡ true → text_le t s ≡ true → s ≡ t
unfolding text_le
text_le_antisym [] [] h k = refl
text_le_antisym [] (d ∷ t) h k = cc
text_le_antisym (c ∷ s) [] h k = cc
text_le_antisym (c ∷ s) (d ∷ t) h k = ground (arith, text_le_antisym s t)

pub text_le_trans : (s t u : Text) → text_le s t ≡ true → text_le t u ≡ true → text_le s u ≡ true
unfolding text_le
text_le_trans [] t u h k = refl
text_le_trans (c ∷ s) [] u h k = cc
text_le_trans (c ∷ s) (d ∷ t) [] h k = cc
text_le_trans (c ∷ s) (d ∷ t) (e ∷ u) h k = ground (arith, text_le_trans s t u)

pub mem-append : (s : Text) (l m : List Text) → mem s (l ++ m) ≡ (mem s l || mem s m)
unfolding mem
mem-append s [] m = refl
mem-append s (t ∷ l) m = ground (arith, mem-append s l m)

pub has_prefix-append : (p s : Text) → has_prefix (p ++ s) p ≡ true
unfolding has_prefix
has_prefix-append [] s = refl
has_prefix-append (c ∷ p) s = ground (arith, has_prefix-append p s)

pub after_prefix-append : (p s : Text) → after_prefix (p ++ s) p ≡ some s
unfolding after_prefix
after_prefix-append [] s = refl
after_prefix-append (c ∷ p) s = ground (arith, after_prefix-append p s)

pub eq-append_of_has_prefix :
    (s p : Text) → has_prefix s p ≡ true → (r : Text) × (after_prefix s p ≡ some r) × (s ≡ p ++ r)
unfolding has_prefix after_prefix
eq-append_of_has_prefix s [] h = (s, refl, refl)
eq-append_of_has_prefix [] (d ∷ p) h = cc
eq-append_of_has_prefix (c ∷ s) (d ∷ p) h =
    let (r, e, f) = eq-append_of_has_prefix s p (ground arith) in (r, ground arith, ground arith)

pub eq-append_of_cut_suffix : (s p r : Text) → cut_suffix s p ≡ some r → s ≡ r ++ p
unfolding cut_suffix
eq-append_of_cut_suffix [] p r h = ground (arith, text_eq_iff [] p)
eq-append_of_cut_suffix (c ∷ s) p [] h = ground (arith, text_eq_iff (c ∷ s) p)
eq-append_of_cut_suffix (c ∷ s) p (d ∷ r) h =
    ground (arith, text_eq_iff (c ∷ s) p, eq-append_of_cut_suffix s p r)

length-eq_of_eq : {s t : Text} → s ≡ t → length s ≡ length t
length-eq_of_eq e = ap length e

-- No proper extension of a text is the text.
pub append-ne : (c : ℕ) (s p : Text) → c ∷ s ++ p ≢ p
append-ne c s p e = omega (arith, length-append {0} s p, ap length e)

pub cut_suffix-append : (r p : Text) → cut_suffix (r ++ p) p ≡ some r
unfolding cut_suffix
cut_suffix-append [] [] = ground (arith, text_eq_refl [])
cut_suffix-append [] (d ∷ p) = ground (arith, text_eq_refl (d ∷ p))
cut_suffix-append (c ∷ r) p =
    ground (arith, cut_suffix-append r p, text_eq_iff (c ∷ r ++ p) p, append-ne c r p)
