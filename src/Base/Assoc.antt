-- ===== src/Base/Assoc.antt =====
-- Go maps with string keys, as association lists in the order in which a range visits them.
use Prim.Native.Nat.{suc, ◌≤◌}
use mathlib.Core.Path.{◌≡◌, refl}
use mathlib.Core.Bool.{Bool, true, false}
use mathlib.Core.Option.{Option, none, some}
use mathlib.Core.List.{List, [], ◌∷◌}
use native.Mathlib.Omega.{arith}
use wecert.Base.Tests.{if◌then◌else◌, is_some}
use wecert.Base.Lists.{length}
use wecert.Base.Strings.{Text, text_eq}
use wecert.Base.StringLaws.{text_eq_iff}

abbrev pub Assoc {ℓ} : Type ℓ → Type ℓ
Assoc V = List (Text × V)

module _ {ℓ} {V : Type ℓ} where
  unfoldable pub lookup : Text → Assoc V → Option V
  lookup k [] = none
  lookup k ((j, v) ∷ m) = let rest = lookup k m in if text_eq j k then some v else rest

  -- m[k] = v
  unfoldable pub put : Text → V → Assoc V → Assoc V
  put k v [] = (k, v) ∷ []
  put k v ((j, w) ∷ m) = let rest = put k v m in if text_eq j k then (k, v) ∷ m else (j, w) ∷ rest

  -- delete(m, k)
  unfoldable pub remove : Text → Assoc V → Assoc V
  remove k [] = []
  remove k ((j, w) ∷ m) = let rest = remove k m in if text_eq j k then rest else (j, w) ∷ rest

  -- The entries that do not pass a test, as a range with delete leaves them.
  unfoldable pub reject : (V → Bool) → Assoc V → Assoc V
  reject p [] = []
  reject p ((j, w) ∷ m) = let rest = reject p m in if p w then rest else (j, w) ∷ rest

  pub lookup-put :
      (k j : Text) (v : V) (m : Assoc V)
      → lookup j (put k v m) ≡ (if text_eq k j then some v else lookup j m)
  unfolding lookup put
  lookup-put k j v [] = refl
  lookup-put k j v ((i, w) ∷ m) =
      ground (arith, text_eq_iff k j, text_eq_iff i k, text_eq_iff i j, lookup-put k j v m)

  pub lookup-remove :
      (k j : Text) (m : Assoc V)
      → lookup j (remove k m) ≡ (if text_eq k j then none else lookup j m)
  unfolding lookup remove
  lookup-remove k j [] = ground arith
  lookup-remove k j ((i, w) ∷ m) =
      ground (arith, text_eq_iff k j, text_eq_iff i k, text_eq_iff i j, lookup-remove k j m)

  pub length-put :
      (k : Text) (v : V) (m : Assoc V)
      → length (put k v m) ≡ (if is_some (lookup k m) then length m else suc (length m))
  unfolding lookup put
  length-put k v [] = refl
  length-put k v ((i, w) ∷ m) = ground (arith, length-put k v m)

  pub length-remove-le : (k : Text) (m : Assoc V) → length (remove k m) ≤ length m
  unfolding remove
  length-remove-le k [] = omega arith
  length-remove-le k ((i, w) ∷ m) = ground (arith, length-remove-le k m)

  pub length-reject-le : (p : V → Bool) (m : Assoc V) → length (reject p m) ≤ length m
  unfolding reject
  length-reject-le p [] = omega arith
  length-reject-le p ((i, w) ∷ m) = ground (arith, length-reject-le p m)

  -- An entry that does not pass the test is kept.
  pub lookup-reject :
      (p : V → Bool) (k : Text) (m : Assoc V) {v : V}
      → lookup k m ≡ some v
      → p v ≡ false
      → lookup k (reject p m) ≡ some v
  unfolding lookup reject
  lookup-reject p k [] h q = cc
  lookup-reject p k ((i, w) ∷ m) {v} h q = ground (arith, lookup-reject p k m {v = v})

  -- A key that has no entry has none after.
  pub lookup-reject_some :
      (p : V → Bool) (k : Text) (m : Assoc V) → lookup k m ≡ none → lookup k (reject p m) ≡ none
  unfolding lookup reject
  lookup-reject_some p k [] h = refl
  lookup-reject_some p k ((i, w) ∷ m) h = ground (arith, lookup-reject_some p k m)

  -- A key that has an entry is one entry fewer once it is removed.
  pub length-remove-lt :
      (k : Text) (m : Assoc V) → is_some (lookup k m) ≡ true → suc (length (remove k m)) ≤ length m
  unfolding lookup remove
  length-remove-lt k [] h = cc
  length-remove-lt k ((i, w) ∷ m) h = ground (arith, length-remove-lt k m, length-remove-le k m)
