-- ===== src/Base/JoinLaws.antt =====
-- What is joined is split again: strings.Split after strings.Join.
use Prim.Native.Nat.{ℕ}
use mathlib.Core.Path.{◌≡◌, refl}
use mathlib.Core.Logic.{◌≢◌}
use mathlib.Core.Bool.{false}
use mathlib.Core.List.{List, [], ◌∷◌, ◌++◌}
use native.Mathlib.Omega.{arith}
use wecert.Base.Lists.{All}
use wecert.Base.Strings.{Text, contains_byte, split_first, split, join}

split_first-append :
    (b : ℕ) (p s : Text) → contains_byte b p ≡ false → split_first b (p ++ b ∷ s) ≡ (p, split b s)
unfolding split_first split contains_byte
split_first-append b [] s h = ground arith
split_first-append b (c ∷ p) s h = ground (arith, split_first-append b p s)

split_first_whole : (b : ℕ) (p : Text) → contains_byte b p ≡ false → split_first b p ≡ (p, [])
unfolding split_first contains_byte
split_first_whole b [] h = refl
split_first_whole b (c ∷ p) h = ground (arith, split_first_whole b p)

-- Splitting undoes joining, unless there is nothing to join.
pub split-join :
    (b : ℕ) (p : Text) (l : List Text)
    → All (λ t. contains_byte b t ≡ false) (p ∷ l)
    → split b (join b (p ∷ l)) ≡ p ∷ l
unfolding split join
split-join b p [] h = ground (arith, split_first_whole b p h.0)
split-join b p (q ∷ l) h =
    ground (arith, split_first-append b p (join b (q ∷ l)) h.0, split-join b q l h.1)

pub join-ne : (b : ℕ) (p : Text) (l : List Text) → p ≢ [] → join b (p ∷ l) ≢ []
unfolding join
join-ne b p [] h e = h e
join-ne b [] (q ∷ l) h e = h refl
join-ne b (c ∷ p) (q ∷ l) h e = cc
