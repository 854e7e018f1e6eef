-- ===== src/Domain.antt =====
-- internal/config/domain.go: the domain names of a certificate. Names are ASCII; the Public Suffix
-- List (golang.org/x/net/publicsuffix) and the parser of IPv6 literals are arguments.
pub mod Labels
pub mod Valid
pub mod Key
pub mod Normalize
use wecert.Base.{
  ℕ, ◌+◌, ◌*◌, ◌-◌, ◌≡◌, Bool, true, false, not, ◌&&◌, ◌||◌, Option, none, some, if◌then◌else◌,
  List, [], ◌∷◌, ◌++◌, Text, codes, text_eq, mem, ltb, leb, ◌==◌, length, is_some, has_prefix,
  cut_suffix, trim_prefix, trim_suffix, contains_byte, split, join, trim_space, to_lower, sort,
  Result, ok, err,
}

pub data DomainError : Type 0 where
  empty_domain trailing_dot too_long bad_byte ip_address is_public_suffix : DomainError
  empty_label long_label edge_hyphen invalid_character : DomainError
  wildcard_position double_wildcard : DomainError

-- strings.HasSuffix
abbrev pub has_suffix : Text → Text → Bool
has_suffix s p = is_some (cut_suffix s p)

-- The bytes ' ', '\t', '\r', '\n' and '/'.
unfoldable pub contains_any_space_or_slash : Text → Bool
contains_any_space_or_slash [] = false
contains_any_space_or_slash (c ∷ s) =
    (c == 32 || c == 9 || c == 13 || c == 10 || c == 47) || contains_any_space_or_slash s

-- One field of a dotted IPv4 literal: up to 255, without a leading zero.
unfoldable pub ipv4_field : ℕ → ℕ → Text → Bool
ipv4_field n v [] = ltb 0 n && leb v 255
ipv4_field n v (c ∷ s) =
    (leb 48 c && leb c 57 && not (ltb 0 n && v == 0) && ltb n 3)
    && ipv4_field (n + 1) (v * 10 + (c - 48)) s

abbrev pub ipv4_fields : List Text → Bool
ipv4_fields (a ∷ b ∷ c ∷ d ∷ []) =
    ipv4_field 0 0 a && ipv4_field 0 0 b && ipv4_field 0 0 c && ipv4_field 0 0 d
ipv4_fields _ = false

unfoldable pub plain_byte : ℕ → Bool
plain_byte c = (leb 97 c && leb c 122) || (leb 48 c && leb c 57) || c == 45

unfoldable pub all_plain : Text → Bool
unfolding plain_byte
all_plain [] = true
all_plain (c ∷ s) = plain_byte c && all_plain s

-- The body of the loop over the labels; `none` goes on.
unfoldable pub check_label : Text → Option DomainError
check_label label =
    if text_eq label (codes "*")
    then none
    else if text_eq label []
    then some empty_label
    else if ltb 63 (length label)
    then some long_label
    else if has_prefix label (codes "-") || has_suffix label (codes "-")
    then some edge_hyphen
    else if all_plain label
    then none
    else some invalid_character

unfoldable pub check_labels : List Text → Option DomainError
check_labels [] = none
check_labels (l ∷ ls) =
    let rest = check_labels ls in elim (check_label l) [ none ↦ rest | some e ↦ some e ]

-- d[2:] where d starts with "*."
abbrev pub after_wildcard : Text → Text
after_wildcard d = trim_prefix d (codes "*.")

unfoldable pub check_wildcard : Text → Option DomainError
check_wildcard d =
    if not (contains_byte 42 d)
    then none
    else if not (has_prefix d (codes "*."))
    then some wildcard_position
    else if contains_byte 42 (after_wildcard d)
    then some double_wildcard
    else none

module _ (public_suffix : Text → Text) (is_ipv6 : Text → Bool) where
  -- net.ParseIP(s) != nil
  unfoldable pub is_ip : Text → Bool
  is_ip s = ipv4_fields (split 46 s) || is_ipv6 s

  -- validateDomain and ValidateDomain; nil is `none`.
  unfoldable pub validate_domain : Text → Option DomainError
  validate_domain d =
      let base = trim_prefix d (codes "*.") in
      if text_eq d []
      then some empty_domain
      else if has_suffix d (codes ".")
      then some trailing_dot
      else if ltb 253 (length d)
      then some too_long
      else if contains_any_space_or_slash d
      then some bad_byte
      else if is_ip base
      then some ip_address
      else if not (text_eq base []) && text_eq (public_suffix base) base
      then some is_public_suffix
      else elim (check_labels (split 46 d)) [ some e ↦ some e | none ↦ check_wildcard d ]

  -- The loop of normalizeDomains: `seen` holds what `out` does.
  unfoldable pub normalize_from : List Text → List Text → Result DomainError (List Text)
  normalize_from out [] = ok out
  normalize_from out (raw ∷ rest) =
      let d = to_lower (trim_space raw) in
      let skip = normalize_from out rest in
      let keep = normalize_from (out ++ d ∷ []) rest in
      elim (validate_domain d) [ some e ↦ err e | none ↦ if mem d out then skip else keep ]

  unfoldable pub normalize_domains : List Text → Result DomainError (List Text)
  unfolding normalize_from
  normalize_domains l = normalize_from [] l

-- The loop of DomainKey: what is not blank, once each.
unfoldable pub distinct_from : List Text → List Text → List Text
distinct_from out [] = out
distinct_from out (raw ∷ rest) =
    let d = to_lower (trim_space raw) in
    distinct_from (if text_eq d [] || mem d out then out else out ++ d ∷ []) rest

unfoldable pub domain_key : List Text → Text
unfolding distinct_from
domain_key l = join 44 (sort (distinct_from [] l))

-- The keys of inWant and of inHave.
unfoldable pub clean_set : List Text → List Text → List Text
clean_set out [] = out
clean_set out (raw ∷ rest) =
    let d = to_lower (trim_space raw) in clean_set (if mem d out then out else out ++ d ∷ []) rest

-- The entries of a list that are not in another.
unfoldable pub without : List Text → List Text → List Text
without other [] = []
without other (d ∷ l) = let rest = without other l in if mem d other then rest else d ∷ rest

-- DiffDomains: missing and extra. The maps are ranged over in any order, and what comes out is sorted.
unfoldable pub diff_domains : List Text → List Text → List Text × List Text
unfolding clean_set without
diff_domains want have =
    let in_want = clean_set [] want in
    let in_have = clean_set [] have in
    (sort (without in_have in_want), sort (without in_want in_have))
