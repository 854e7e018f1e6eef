-- ===== src/Refusal.antt =====
-- The refusal of a new order, as internal/acme/manager_renew.go reads it: which limits the CA's words
-- name, and for what. Case folding is that of ASCII text; `parse_time` is time.Parse.
pub mod Words
use wecert.Base.{
  ℕ, ◌+◌, ◌≡◌, Bool, true, false, not, ◌&&◌, ◌||◌, Option, none, some, if◌then◌else◌, List, [], ◌∷◌,
  ◌++◌, Text, codes, text_eq, mem, ltb, ◌==◌, length, is_some, trim_space, trim_prefix, to_lower,
  lower_byte,
}
use wecert.Base.Time.{Time}
use wecert.Domain.{domain_key}
use wecert.Group.{registered_domain}
use wecert.RateLimit.{
  Limit, new_orders_per_account, certs_per_registered_domain, certs_per_exact_identifier_set,
  authz_failures_per_identifier, consecutive_authz_failures_per_identifier,
}
use wecert.RateLimit.RetryAfter.{after_marker, parse_retry_after}

-- strings.Contains, for a part that is not empty.
abbrev pub mentions : Text → Text → Bool
mentions s p = is_some (after_marker s p)

-- What precedes the first byte c, and what follows it; none where there is no such byte.
unfoldable pub cut : ℕ → Text → Option (Text × Text)
cut b [] = none
cut b (c ∷ s) =
    let rest = cut b s in
    if c == b then some ([], s) else elim rest [ none ↦ none | some p ↦ some (c ∷ p.0, p.1) ]

-- quotedDomain
unfoldable pub quoted_domain : Text → Text
unfolding cut
quoted_domain msg = elim (cut 34 msg) [
  | none ↦ []
  | some (lead, rest) ↦ elim (cut 34 rest) [ none ↦ [] | some (name, tail) ↦ to_lower name ]
]

-- strings.EqualFold(s[:len(p)], p), and what follows.
unfoldable pub after_prefix_fold : Text → Text → Option Text
after_prefix_fold s [] = some s
after_prefix_fold [] (d ∷ p) = none
after_prefix_fold (c ∷ s) (d ∷ p) =
    let rest = after_prefix_fold s p in if lower_byte c == lower_byte d then rest else none

-- msg[i+len(p):] where i is indexOfFold(msg, p); none where that is -1.
unfoldable pub after_fold : Text → Text → Option Text
unfolding after_prefix_fold
after_fold [] p = after_prefix_fold [] p
after_fold (c ∷ s) p =
    let rest = after_fold s p in
    elim (after_prefix_fold (c ∷ s) p) [ some r ↦ some r | none ↦ rest ]

-- s[:j] where j is indexOfFold(s, p), and s where that is -1.
unfoldable pub before_fold : Text → Text → Text
unfolding after_prefix_fold
before_fold [] p = []
before_fold (c ∷ s) p =
    let rest = before_fold s p in if is_some (after_prefix_fold (c ∷ s) p) then [] else c ∷ rest

-- rest[:j] where j is the first comma, if there is one.
unfoldable pub before_comma : Text → Text
before_comma [] = []
before_comma (c ∷ s) = let rest = before_comma s in if c == 44 then [] else c ∷ rest

-- The bytes of " \t\r\n/\\\"'<>[]()".
unfoldable pub is_prose : ℕ → Bool
is_prose c =
    c == 32
    || c == 9
    || c == 13
    || c == 10
    || c == 47
    || c == 92
    || c == 34
    || c == 39
    || c == 60
    || c == 62
    || c == 91
    || c == 93
    || c == 40
    || c == 41

unfoldable pub has_prose : Text → Bool
unfolding is_prose
has_prose [] = false
has_prose (c ∷ s) = is_prose c || has_prose s

unfoldable pub looks_like_identifier : Text → Bool
unfolding has_prose
looks_like_identifier s = if text_eq s [] || ltb 253 (length s) then false else not (has_prose s)

-- The name that starts what follows the marker of a pause.
unfoldable pub paused_name : Option Text → Text
unfolding before_fold before_comma looks_like_identifier
paused_name none = []
paused_name (some rest) =
    let name = trim_space (before_comma (before_fold rest (codes " and possibly"))) in
    if looks_like_identifier name then to_lower name else []

-- pausedDomain
unfoldable pub paused_domain : Text → Text
paused_domain msg =
    paused_name (after_fold msg (codes "temporarily prevented from requesting certificates for "))

module _ (parse_time : Text → Text → Option Time) where
  unfoldable pub is_pause_refusal : Text → Bool
  is_pause_refusal msg =
      let lower = to_lower msg in
      if mentions lower (codes "temporarily prevented from requesting certificates")
      then true
      else if is_some (parse_retry_after parse_time msg)
      then false
      else mentions lower (codes "failed authorizations")

  unfoldable pub refused_limits : Text → List Limit
  unfolding is_pause_refusal
  refused_limits msg =
      let lower = to_lower msg in
      let exact_set =
        mentions lower (codes "exact set of identifiers")
        || mentions lower (codes "exact-identifier-set") in
      (if exact_set then certs_per_exact_identifier_set ∷ [] else [])
      ++ (if not exact_set && mentions lower (codes "already issued for")
          then certs_per_registered_domain ∷ []
          else [])
      ++ (if mentions lower (codes "failed authorizations")
          then authz_failures_per_identifier ∷ []
          else [])
      ++ (if is_pause_refusal msg then consecutive_authz_failures_per_identifier ∷ [] else [])
      ++ (if mentions lower (codes "new orders") || mentions lower (codes "new-orders")
          then new_orders_per_account ∷ []
          else [])

-- bareIdentifierScope of internal/acme/flow_order.go
unfoldable pub bare_identifier_scope : Text → Text
bare_identifier_scope identifier = trim_prefix (to_lower identifier) (codes "*.")

-- The scope of a certificate's first domain.
abbrev pub first_bare : List Text → Text
first_bare [] = []
first_bare (d ∷ ds) = bare_identifier_scope d

abbrev pub first_of : List Text → Text
first_of [] = []
first_of (d ∷ ds) = d

module _ (public_suffix : Text → Text) (is_ipv6 : Text → Bool)
    (etld_plus_one : Text → Option Text) where
  -- The loop of uniqueRegisteredDomains of internal/acme/manager_done.go: `seen` holds what `out` does.
  unfoldable pub registered_from : List Text → List Text → List Text
  registered_from out [] = out
  registered_from out (d ∷ ds) =
      let rd = registered_domain public_suffix is_ipv6 etld_plus_one d in
      registered_from (if text_eq rd [] || mem rd out then out else out ++ rd ∷ []) ds

  unfoldable pub unique_registered_domains : List Text → List Text
  unfolding registered_from
  unique_registered_domains ds = registered_from [] ds

  -- newOrderRefusalScope; the certificate is its domains.
  unfoldable pub new_order_refusal_scope : Limit → List Text → Text → Text
  new_order_refusal_scope l domains msg =
      let quoted = quoted_domain msg in
      let paused = paused_domain msg in
      if text_eq l.name certs_per_exact_identifier_set.name
      then domain_key domains
      else if text_eq l.name certs_per_registered_domain.name
      then (if text_eq quoted [] then first_of (unique_registered_domains domains) else quoted)
      else if text_eq l.name authz_failures_per_identifier.name
      then (if text_eq quoted [] then first_bare domains else bare_identifier_scope quoted)
      else if text_eq l.name consecutive_authz_failures_per_identifier.name
      then (if not (text_eq quoted [])
          then quoted
          else if text_eq paused []
          then first_bare domains
          else paused)
      else []
