-- ===== src/Certificates.antt =====
-- internal/config/domain.go: the identifier sets that a CA rejects because a name is redundant with a
-- wildcard.
pub mod Redundant
use wecert.Base.{
  ℕ, ◌≡◌, ◌≢◌, ◌↔◌, Bool, true, false, not, ◌&&◌, ◌||◌, Option, none, some, if◌then◌else◌, List, [],
  ◌∷◌, ◌++◌, Text, codes, text_eq, text_eq_iff, text_eq_refl, mem, has_prefix, cut_suffix,
  trim_prefix, trim_suffix, contains_byte, arith, refl, is_some, Bool-cases, Option-cases, inl, inr,
}
use wecert.Domain.{has_suffix}
use wecert.Group.{wildcard_covers, one_label, base, is_wildcard}

-- The body of the inner loop of rejectRedundantWildcardNames.
unfoldable pub redundant_with : Text → Text → Bool
redundant_with wildcard name =
    let parent = trim_prefix wildcard (codes "*.") in
    let prefix = trim_suffix name (codes "." ++ parent) in
    if text_eq name wildcard || (text_eq name parent || not (has_suffix name (codes "." ++ parent)))
    then false
    else not (text_eq prefix []) && not (contains_byte 46 prefix)

-- The inner loop.
unfoldable pub first_redundant : Text → List Text → Option Text
first_redundant wildcard [] = none
first_redundant wildcard (name ∷ names) =
    let rest = first_redundant wildcard names in
    if redundant_with wildcard name then some name else rest

-- The outer loop; the error names the wildcard and the name.
unfoldable pub reject_from : List Text → List Text → Option (Text × Text)
unfolding first_redundant
reject_from domains [] = none
reject_from domains (wildcard ∷ ws) =
    let rest = reject_from domains ws in
    if not (has_prefix wildcard (codes "*."))
    then rest
    else elim (first_redundant wildcard domains) [ some name ↦ some (wildcard, name) | none ↦ rest ]

unfoldable pub reject_redundant_wildcard_names : List Text → Option (Text × Text)
unfolding reject_from
reject_redundant_wildcard_names domains = reject_from domains domains
