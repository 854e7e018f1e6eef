-- ===== src/Group.antt =====
-- internal/group/group.go: declared names become certificate groups. The Public Suffix List
-- (golang.org/x/net/publicsuffix) and the parser of IPv6 literals are arguments.
pub mod Partition
pub mod CertNameReading
pub mod CertName
pub mod Wildcard
pub mod Cover
use wecert.Base.{
  ℕ, ◌+◌, ◌≡◌, Bool, true, false, not, ◌&&◌, ◌||◌, Option, none, some, if◌then◌else◌, List, [], ◌∷◌,
  ◌++◌, Text, codes, text_eq, text_le, mem, ltb, ◌==◌, length, has_prefix, cut_suffix, trim_prefix,
  trim_suffix, contains_byte, trim_space, to_lower, sort, Result, ok, err,
}
use mathlib.Core.List.{reverse}
use wecert.Domain.{DomainError, is_ip, validate_domain}

pub data GroupError : Type 0 where
  empty_name no_registered_domain too_many_names : GroupError
  bad_name : DomainError → GroupError

unfoldable pub is_wildcard : Text → Bool
is_wildcard name = has_prefix name (codes "*.")

-- Base
unfoldable pub base : Text → Text
base name = trim_prefix name (codes "*.")

-- strings.ReplaceAll(s, "-", "--")
unfoldable pub double_hyphens : Text → Text
double_hyphens [] = []
double_hyphens (c ∷ s) = let rest = double_hyphens s in if c == 45 then 45 ∷ 45 ∷ rest else c ∷ rest

-- strings.NewReplacer(".", "-", ":", "-").Replace(s)
unfoldable pub dots_to_hyphens : Text → Text
dots_to_hyphens [] = []
dots_to_hyphens (c ∷ s) = (if c == 46 || c == 58 then 45 else c) ∷ dots_to_hyphens s

unfoldable pub trim_left_hyphens : Text → Text
trim_left_hyphens [] = []
trim_left_hyphens (c ∷ s) = let rest = trim_left_hyphens s in if c == 45 then rest else c ∷ s

-- strings.Trim(s, "-")
unfoldable pub trim_hyphens : Text → Text
trim_hyphens s = reverse (trim_left_hyphens (reverse (trim_left_hyphens s)))

unfoldable pub cert_name : Text → Text
cert_name registered = trim_hyphens (dots_to_hyphens (double_hyphens (to_lower registered)))

-- What follows CutSuffix in WildcardCovers.
abbrev pub one_label : Option Text → Bool
one_label none = false
one_label (some rest) = not (text_eq rest []) && not (contains_byte 46 rest)

unfoldable pub wildcard_covers : Text → Text → Bool
unfolding is_wildcard base
wildcard_covers wc host =
    if not (is_wildcard wc)
    then false
    else if text_eq host (base wc)
    then false
    else one_label (cut_suffix host (codes "." ++ base wc))

pub record Group : Type 0 where
  pub registered : Text
  pub name : Text
  pub wildcards : List Text
  pub names : List Text

pub record Coverage : Type 0 where
  pub domains : List Text
  pub covered : List (Text × Text)

-- The inner loop of Cover: the first wildcard that covers the name.
unfoldable pub coverer : List Text → Text → Option Text
coverer [] n = none
coverer (w ∷ ws) n = if wildcard_covers w n then some w else coverer ws n

-- The body of the outer loop of Cover: a covered name goes into the table.
unfoldable pub place :
    Text → Option Text → List Text × List (Text × Text) → List Text × List (Text × Text)
place n (some w) (uncovered, covered) = (uncovered, (n, w) ∷ covered)
place n none (uncovered, covered) = (n ∷ uncovered, covered)

-- The outer loop of Cover: what is left uncovered, and the table of what is covered.
unfoldable pub cover_names : List Text → List Text → List Text × List (Text × Text)
unfolding place
cover_names ws [] = ([], [])
cover_names ws (n ∷ ns) = place n (coverer ws n) (cover_names ws ns)

-- sort.SearchStrings on a sorted list, and the removal of what stands at the index that it returns, if
-- that is the text: `none` where it is not.
unfoldable pub take_out : Text → List Text → Option (List Text)
take_out x [] = none
take_out x (y ∷ l) =
    let rest = take_out x l in
    if text_le x y
    then (if text_eq y x then some l else none)
    else elim rest [ none ↦ none | some r ↦ some (y ∷ r) ]

-- The SAN set: the registered domain first, if it is wanted.
unfoldable pub assemble : Group → List Text → List Text
assemble g uncovered = elim (take_out g.registered uncovered) [
  | some rest ↦ g.registered ∷ g.wildcards ++ rest
  | none ↦ g.wildcards ++ uncovered
]

unfoldable pub cover : Group → ℕ → Result GroupError Coverage
cover g max_names =
    let (uncovered, covered) = cover_names g.wildcards g.names in
    let domains = assemble g (sort uncovered) in
    if ltb 0 max_names && ltb max_names (length domains)
    then err too_many_names
    else ok (record { domains = domains; covered = covered })

-- The entry of byReg, which a first name creates.
unfoldable pub find_group : Text → List Group → Option Group
find_group reg [] = none
find_group reg (g ∷ gs) =
    let rest = find_group reg gs in if text_eq reg g.registered then some g else rest

-- One name into its group, unless `seen` has it: the names that a group has seen are those it holds.
unfoldable pub add_name : Text → Group → Group
unfolding is_wildcard
add_name n g =
    if mem n g.wildcards || mem n g.names
    then g
    else if is_wildcard n
    then record g { wildcards = g.wildcards ++ n ∷ [] }
    else record g { names = g.names ++ n ∷ [] }

unfoldable pub add_to_groups : Text → Text → List Group → List Group
unfolding cert_name
add_to_groups reg n [] =
    add_name n (record { registered = reg; name = cert_name reg; wildcards = []; names = [] }) ∷ []
add_to_groups reg n (g ∷ gs) =
    let rest = add_to_groups reg n gs in
    if text_eq reg g.registered then add_name n g ∷ gs else g ∷ rest

abbrev sort_group : Group → Group
sort_group g = record g { wildcards = sort g.wildcards; names = sort g.names }

-- sort.Slice by Name
unfoldable pub insert_group : Group → List Group → List Group
insert_group g [] = g ∷ []
insert_group g (h ∷ hs) = if text_le g.name h.name then g ∷ h ∷ hs else h ∷ insert_group g hs

unfoldable pub sort_groups : List Group → List Group
unfolding insert_group
sort_groups [] = []
sort_groups (g ∷ gs) = insert_group (sort_group g) (sort_groups gs)

module _ (public_suffix : Text → Text) (is_ipv6 : Text → Bool)
    (etld_plus_one : Text → Option Text) where
  -- Normalize
  unfoldable pub normalize : Text → Result GroupError Text
  normalize raw =
      let n = trim_suffix (to_lower (trim_space raw)) (codes ".") in
      if text_eq n [] then err empty_name else elim (validate_domain public_suffix is_ipv6 n) [
        | some e ↦ err (bad_name e)
        | none ↦ ok n
      ]

  unfoldable pub registered_domain : Text → Text
  unfolding base
  registered_domain host =
      let h = base (trim_suffix (to_lower (trim_space host)) (codes ".")) in
      if text_eq h []
      then []
      else if is_ip public_suffix is_ipv6 h
      then h
      else elim (etld_plus_one h) [ none ↦ h | some d ↦ d ]

  -- The first loop of GroupBy.
  unfoldable pub collect : List Group → List Text → Result GroupError (List Group)
  unfolding normalize
  collect gs [] = ok gs
  collect gs (raw ∷ rest) = elim (normalize raw) [
    | err e ↦ err e
    | ok n ↦
        let more = collect (add_to_groups (registered_domain n) n gs) rest in
        if text_eq (registered_domain n) [] then err no_registered_domain else more
  ]

  unfoldable pub group_by : List Text → Result GroupError (List Group)
  unfolding collect
  group_by declared = elim (collect [] declared) [ err e ↦ err e | ok gs ↦ ok (sort_groups gs) ]
