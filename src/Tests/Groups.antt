-- ===== src/Tests/Groups.antt =====
-- internal/group/group.go at a group of example.com, and the encoding of internal/acme/ari.go.
use wecert.Base.{
  ◌≤◌, ◌<◌, ◌≡◌, not, ◌&&◌, ◌||◌, Bool, false, List, Option, some, [], ◌∷◌, Text, text_eq, mem,
  length, codes, ok, arith, refl, All, contains_byte, split, split_first, has_prefix, cut_suffix,
  trim_prefix, after_prefix, sort, insert, text_le, trim_suffix, is_space, trim_left, trim_space,
  lower_byte, to_lower,
}
use wecert.Domain.{
  all_plain, plain_byte, check_labels, check_label, check_wildcard, contains_any_space_or_slash,
  ipv4_field, is_ip, validate_domain,
}
use wecert.Domain.Valid.{IsHost}
use wecert.Group.{
  Group, Coverage, wildcard_covers, cover, cover_names, coverer, place, assemble, take_out, base,
  is_wildcard, cert_name, add_name, add_to_groups, double_hyphens, dots_to_hyphens, trim_hyphens,
  trim_left_hyphens, insert_group, sort_groups, normalize, registered_domain, collect, group_by,
}
use wecert.Group.CertName.{cert_name_injective}
use wecert.Group.Partition.{holds, declares, OnePerDomain, holds-group_by}
use wecert.Group.Cover.{covered_by, IsCovering, cover_lem}

abbrev example_com : Text
example_com = codes "example.com"

abbrev www : Text
www = codes "www.example.com"

abbrev deep : Text
deep = codes "a.b.example.com"

abbrev star : Text
star = codes "*.example.com"

example_com-IsHost : IsHost example_com
unfolding split split_first all_plain has_prefix cut_suffix text_eq
example_com-IsHost = ground arith

cert_name_injective_example : example_com ≡ example_com
cert_name_injective_example =
    cert_name_injective example_com example_com example_com-IsHost example_com-IsHost refl

abbrev example_group : Group
example_group = record {
  registered = example_com;
  name = codes "example-com";
  wildcards = star ∷ [];
  names = deep ∷ example_com ∷ www ∷ [];
}

abbrev example_coverage : Coverage
example_coverage = record { domains = example_com ∷ star ∷ deep ∷ []; covered = (www, star) ∷ [] }

example_cover : cover example_group 100 ≡ ok example_coverage
unfolding cover cover_names place assemble take_out wildcard_covers is_wildcard base has_prefix
    trim_prefix after_prefix cut_suffix text_eq contains_byte coverer sort insert text_le mem
example_cover = ground arith

cover_lem_example :
    ((x : Text)
      → mem x example_coverage.domains
        ≡ (mem x (star ∷ []) || (mem x example_group.names && not (covered_by (star ∷ []) x))))
    × All (IsCovering (star ∷ []) example_group.names) example_coverage.covered
    × ((0 < 100) → length example_coverage.domains ≤ 100)
cover_lem_example = cover_lem example_group 100 example_cover

abbrev com_suffix : Text → Text
com_suffix h = codes "com"

abbrev never_ipv6 : Text → Bool
never_ipv6 h = false

abbrev under_example_com : Text → Option Text
under_example_com h = some example_com

abbrev declared_names : List Text
declared_names = codes "WWW.example.com." ∷ star ∷ www ∷ []

abbrev one_group : List Group
one_group =
    (record {
      registered = example_com;
      name = codes "example-com";
      wildcards = star ∷ [];
      names = www ∷ [];
    })
    ∷ []

group_by-one_group : group_by com_suffix never_ipv6 under_example_com declared_names ≡ ok one_group
unfolding group_by collect normalize registered_domain add_to_groups add_name sort_groups
    insert_group cert_name double_hyphens dots_to_hyphens trim_hyphens trim_left_hyphens base
    is_wildcard is_ip validate_domain check_labels check_label check_wildcard
    contains_any_space_or_slash ipv4_field plain_byte all_plain text_eq text_le mem has_prefix
    after_prefix cut_suffix trim_suffix trim_prefix contains_byte is_space trim_left trim_space
    lower_byte to_lower split_first split sort insert
group_by-one_group = refl

holds-group_by_example :
    ((r x : Text)
      → holds r x one_group ≡ declares com_suffix never_ipv6 under_example_com r x declared_names)
    × OnePerDomain one_group
holds-group_by_example =
    holds-group_by com_suffix never_ipv6 under_example_com declared_names one_group
      group_by-one_group
