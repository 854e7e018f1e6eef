-- ===== src/Tests/Names.antt =====
-- internal/config/domain.go and the checks of a whole certificate, at names of example.com.
use wecert.Base.{
  ◌≡◌, ◌≢◌, ◌↔◌, Bool, true, false, none, some, List, [], ◌∷◌, Text, text_eq, mem, codes, ok, refl,
  All, SameMembers, contains_byte, text_eq, to_lower, lower_byte, trim_space, trim_left, is_space,
}
use wecert.Domain.{validate_domain, normalize_domains, domain_key}
use wecert.Domain.Valid.{IsName, IsIssuable, validate_domain_iff}
use wecert.Domain.Key.{clean, cleaned, domain_key_iff}
use wecert.Domain.Normalize.{normalize_domains_iff, Passes, IsNormal}
use wecert.Certificates.{reject_redundant_wildcard_names}
use wecert.Certificates.Redundant.{reject_redundant_wildcard_names_iff}
use wecert.Group.{wildcard_covers}

-- A public suffix list that holds "com", and no IPv6 literal.
abbrev com_suffix : Text → Text
com_suffix d = codes "com"

abbrev no_ipv6 : Text → Bool
no_ipv6 d = false

abbrev example_com : Text
example_com = codes "example.com"

abbrev www : Text
www = codes "www.example.com"

abbrev star : Text
star = codes "*.example.com"

validate_domain_iff_example :
    (validate_domain com_suffix no_ipv6 star ≡ none)
    ↔ (IsName star × IsIssuable com_suffix no_ipv6 star)
validate_domain_iff_example = validate_domain_iff com_suffix no_ipv6 star

domain_key_iff_example :
    (domain_key (www ∷ example_com ∷ []) ≡ domain_key (codes " EXAMPLE.com" ∷ www ∷ []))
    ↔ SameMembers (cleaned (www ∷ example_com ∷ [])) (cleaned (codes " EXAMPLE.com" ∷ www ∷ []))
unfolding cleaned contains_byte text_eq to_lower lower_byte trim_space trim_left is_space
domain_key_iff_example =
    domain_key_iff (www ∷ example_com ∷ []) (codes " EXAMPLE.com" ∷ www ∷ []) (refl, (refl, tt))
      (refl, (refl, tt))

normalize_domains_iff_example :
    (All (λ raw. Passes com_suffix no_ipv6 (clean raw)) (codes "WWW.example.com " ∷ www ∷ []) ↔ (
      (r : List Text) × (normalize_domains com_suffix no_ipv6 (codes "WWW.example.com " ∷ www ∷ [])
        ≡ ok r)))
    × ((r : List Text)
        → normalize_domains com_suffix no_ipv6 (codes "WWW.example.com " ∷ www ∷ []) ≡ ok r
        → IsNormal com_suffix no_ipv6 [] (codes "WWW.example.com " ∷ www ∷ []) r)
normalize_domains_iff_example =
    normalize_domains_iff com_suffix no_ipv6 (codes "WWW.example.com " ∷ www ∷ [])

reject_redundant_wildcard_names_iff_example :
    ((reject_redundant_wildcard_names (star ∷ www ∷ []) ≡ none) ↔ (
      (w n : Text)
      → mem w (star ∷ www ∷ []) ≡ true
      → mem n (star ∷ www ∷ []) ≡ true
      → n ≢ w
      → wildcard_covers w n ≡ false))
    × ((w n : Text)
        → reject_redundant_wildcard_names (star ∷ www ∷ []) ≡ some (w, n)
        → (mem w (star ∷ www ∷ []) ≡ true)
          × (mem n (star ∷ www ∷ []) ≡ true)
          × (wildcard_covers w n ≡ true))
reject_redundant_wildcard_names_iff_example = reject_redundant_wildcard_names_iff (star ∷ www ∷ [])
