-- ===== src/Fallback/Split.antt =====
-- The loops of internal/acme/fallback.go that pick names, by their members.
use wecert.Base.{
  ℕ, ◌+◌, ◌≤◌, ◌<◌, ◌≡◌, ◌⊎◌, ◌↔◌, true, not, ◌&&◌, List, [], ◌∷◌, Text, text_eq_iff, text_eq_refl,
  mem, length, arith, refl,
}
use wecert.Base.Time.{Time}
use wecert.FallbackStore.{IdentifierFailure}
use wecert.Fallback.{bad_names, still_configured, entries_of_not_in}

-- A ledger in which a name has failed often enough, and after the cutoff.
abbrev pub FailsLately : ℕ → Time → Text → List IdentifierFailure → Type 0
FailsLately least cutoff d [] = ⊥
FailsLately least cutoff d (f ∷ fs) =
    ((f.identifier ≡ d) × (least ≤ f.failures) × (cutoff < f.last_failed_at))
    ⊎ FailsLately least cutoff d fs

pub mem-bad_names :
    (least : ℕ) (cutoff : Time) (d : Text) (fs : List IdentifierFailure)
    → (mem d (bad_names least cutoff fs) ≡ true) ↔ FailsLately least cutoff d fs
unfolding mem bad_names
mem-bad_names least cutoff d [] = ground arith
mem-bad_names least cutoff d (f ∷ fs) =
    ground (arith, mem-bad_names least cutoff d fs, text_eq_iff d f.identifier)

pub mem-still_configured :
    (d : Text) (want have : List Text)
    → mem d (still_configured want have) ≡ (mem d want && mem d have)
unfolding mem still_configured
mem-still_configured d [] have = refl
mem-still_configured d (w ∷ want) have =
    ground (arith, mem-still_configured d want have, text_eq_iff d w)

pub mem-entries_of_not_in :
    (d : Text) (want have : List Text)
    → mem d (entries_of_not_in want have) ≡ (mem d want && not (mem d have))
unfolding mem entries_of_not_in
mem-entries_of_not_in d [] have = refl
mem-entries_of_not_in d (w ∷ want) have =
    ground (arith, mem-entries_of_not_in d want have, text_eq_iff d w)

pub entries_of_not_in_agree :
    (ds a b : List Text)
    → ((x : Text) → mem x ds ≡ true → mem x a ≡ mem x b)
    → entries_of_not_in ds a ≡ entries_of_not_in ds b
unfolding mem entries_of_not_in
entries_of_not_in_agree [] a b h = refl
entries_of_not_in_agree (d ∷ ds) a b h = ground (
  arith,
  h d (ground (arith, text_eq_refl d)),
  entries_of_not_in_agree ds a b (λ x k. h x (ground (arith, k))),
)

pub entries_of_not_in_none : (ds : List Text) → entries_of_not_in ds [] ≡ ds
unfolding mem entries_of_not_in
entries_of_not_in_none [] = refl
entries_of_not_in_none (d ∷ ds) = ground (arith, entries_of_not_in_none ds)

pub length_split :
    (ds bad : List Text)
    → length (entries_of_not_in ds bad) + length (still_configured ds bad) ≡ length ds
unfolding mem entries_of_not_in still_configured
length_split [] bad = refl
length_split (d ∷ ds) bad = ground (arith, length_split ds bad)

-- What a decision leaves and drops make up the configured names.
abbrev pub Splits : List Text → List Text → List Text → Type 0
Splits ds kept dropped =
    (kept ≡ entries_of_not_in ds dropped) × (length kept + length dropped ≡ length ds)

pub Splits-unchanged : (ds : List Text) → Splits ds ds []
Splits-unchanged ds = ground (arith, entries_of_not_in_none ds)

pub Splits-off :
    (ds bad : List Text) → Splits ds (entries_of_not_in ds bad) (still_configured ds bad)
Splits-off ds bad = (
  entries_of_not_in_agree ds bad (still_configured ds bad)
      (λ x k. ground (arith, k, mem-still_configured x ds bad)),
  length_split ds bad,
)
