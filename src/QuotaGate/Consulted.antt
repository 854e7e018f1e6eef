-- ===== src/QuotaGate/Consulted.antt =====
-- The buckets that newOrderRefusalScope of internal/acme/manager_renew.go names are among those that
-- blockedByRecordedDeadline consults for the same certificate.
use wecert.Base.{
  ◌+◌, ◌*◌, ◌/◌, ◌≤◌, ◌<◌, ◌≡◌, inl, inr, Bool, true, false, Option, some, is_some, List, [], ◌∷◌,
  Text, codes, text_eq, text_eq_iff, mem, has_prefix, arith, refl, ap, sym, ◌∙◌,
}
use mathlib.Core.Path.{subst}
use wecert.Base.Time.{Time, second, unix_epoch}
use wecert.Domain.{domain_key}
use wecert.RateLimit.{
  Limit, new_orders_per_account, certs_per_registered_domain, certs_per_exact_identifier_set,
  consecutive_authz_failures_per_identifier,
}
use wecert.RateLimit.RetryAfter.{parse_retry_after}
use wecert.RateStore.{Store}
use wecert.Refusal.{
  refused_limits, new_order_refusal_scope, quoted_domain, paused_domain, bare_identifier_scope,
  first_of, first_bare, unique_registered_domains,
}
use wecert.QuotaGate.{
  CaError, Check, all_identifier_checks, domain_checks, checks_of, blocked_by_recorded_deadline,
  or_new_orders, note_new_order_refusal,
}
use wecert.QuotaGate.Booked.{Answers}
use wecert.QuotaGate.Gate.{HasLimit, HasCheck, IsMade, blocked_where_checked}
use wecert.QuotaGate.Named.{
  IsName, IsOfIdentifier, IsRegistered, registered, bare_identifier_scope-IsName,
  bare_identifier_scope-quoted, HasCheck-left, HasCheck-right, HasCheck-all_identifier_checks,
  HasCheck-domain_checks, mem-registered_from, first_of_unique,
}

module _ (parse_time : Text → Text → Option Time) (parse_http : Text → Option Time)
    (public_suffix : Text → Text) (is_ipv6 : Text → Bool) (etld_plus_one : Text → Option Text)
    (domains : List Text) (msg : Text) where
  abbrev suffix_of : Text → Text
  suffix_of d = registered public_suffix is_ipv6 etld_plus_one d

  -- What the words of the CA name for a limit is of the certificate: nothing is to be named for the
  -- account and for the exact set, and where no name is read the limit is booked for the first one.
  pub data NamesOwn (l : Limit) : Type 0 where
    account : l ≡ new_orders_per_account → NamesOwn l
    exact_set :
        l ≡ certs_per_exact_identifier_set → text_eq (domain_key domains) [] ≡ false → NamesOwn l
    quoted_domain_of :
        l ≡ certs_per_registered_domain
        → IsRegistered public_suffix is_ipv6 etld_plus_one domains (quoted_domain msg)
        → NamesOwn l
    quoted_name_of : IsOfIdentifier l → IsName domains (quoted_domain msg) → NamesOwn l
    paused_name_of :
        l ≡ consecutive_authz_failures_per_identifier
        → quoted_domain msg ≡ []
        → IsName domains (paused_domain msg)
        → NamesOwn l
    unnamed_domain :
        (d : Text) (ds : List Text)
        → l ≡ certs_per_registered_domain
        → quoted_domain msg ≡ []
        → domains ≡ d ∷ ds
        → text_eq (suffix_of d) [] ≡ false
        → NamesOwn l
    unnamed :
        (d : Text) (ds : List Text)
        → IsOfIdentifier l
        → quoted_domain msg ≡ []
        → paused_domain msg ≡ []
        → domains ≡ d ∷ ds
        → text_eq (bare_identifier_scope d) [] ≡ false
        → NamesOwn l

  abbrev scope : Limit → Text
  scope l = new_order_refusal_scope public_suffix is_ipv6 etld_plus_one l domains msg

  abbrev checks : List Check
  checks = checks_of parse_time parse_http public_suffix is_ipv6 etld_plus_one domains

  -- The bucket is consulted.
  abbrev Consulted : Limit → Type 0
  Consulted l = HasCheck l (scope l) checks × IsMade l (scope l)

  -- A check of a registered domain, and one of a name.
  HasCheck-registered :
      (q : Text)
      → mem q (unique_registered_domains public_suffix is_ipv6 etld_plus_one domains) ≡ true
      → HasCheck certs_per_registered_domain q checks
  unfolding checks_of
  HasCheck-registered q h = inr (
      inr (
        HasCheck-left certs_per_registered_domain q
          (domain_checks (unique_registered_domains public_suffix is_ipv6 etld_plus_one domains))
          (all_identifier_checks domains) (HasCheck-domain_checks q _ h)))

  HasCheck-identifier :
      (l : Limit) (d : Text)
      → IsOfIdentifier l
      → mem d domains ≡ true
      → HasCheck l (bare_identifier_scope d) checks
  unfolding checks_of
  HasCheck-identifier l d is h = inr (
      inr (
        HasCheck-right l (bare_identifier_scope d)
          (domain_checks (unique_registered_domains public_suffix is_ipv6 etld_plus_one domains))
          (all_identifier_checks domains) (HasCheck-all_identifier_checks l d domains is h)))

  abbrev first_registered : List Text → Text
  first_registered ds = first_of (unique_registered_domains public_suffix is_ipv6 etld_plus_one ds)

  in_unique :
      (q d : Text)
      → mem d domains ≡ true
      → suffix_of d ≡ q
      → text_eq q [] ≡ false
      → mem q (unique_registered_domains public_suffix is_ipv6 etld_plus_one domains) ≡ true
  unfolding unique_registered_domains
  in_unique q d h e f = mem-registered_from public_suffix is_ipv6 etld_plus_one q d domains [] h e f

  in_registered :
      (q : Text)
      → IsRegistered public_suffix is_ipv6 etld_plus_one domains q
      → mem q (unique_registered_domains public_suffix is_ipv6 etld_plus_one domains) ≡ true
  in_registered q i = in_unique q i.domain i.of_certificate i.matches i.filled

  Consulted-registered :
      (q : Text)
      → scope certs_per_registered_domain ≡ q
      → mem q (unique_registered_domains public_suffix is_ipv6 etld_plus_one domains) ≡ true
      → text_eq q [] ≡ false
      → Consulted certs_per_registered_domain
  Consulted-registered q e h f = rw e (HasCheck-registered q h, ground (arith, f))

  Consulted-identifier :
      (l : Limit) (d n : Text)
      → IsOfIdentifier l
      → mem d domains ≡ true
      → bare_identifier_scope d ≡ n
      → scope l ≡ n
      → text_eq n [] ≡ false
      → Consulted l
  Consulted-identifier l d n is h b e f =
      rw e (subst (λ y. HasCheck l y checks) b (HasCheck-identifier l d is h), ground (arith, f))

  scope_quoted_domain :
      text_eq (quoted_domain msg) [] ≡ false → scope certs_per_registered_domain ≡ quoted_domain msg
  unfolding new_order_refusal_scope text_eq
  scope_quoted_domain f = rw f refl

  scope_quoted_name :
      (l : Limit)
      → IsOfIdentifier l
      → text_eq (quoted_domain msg) [] ≡ false
      → has_prefix (quoted_domain msg) (codes "*.") ≡ false
      → scope l ≡ quoted_domain msg
  unfolding new_order_refusal_scope text_eq
  scope_quoted_name l (inl e) f b = rw (e, f) (bare_identifier_scope-quoted msg b)
  scope_quoted_name l (inr e) f b = rw (e, f) refl

  scope_paused_name :
      quoted_domain msg ≡ []
      → text_eq (paused_domain msg) [] ≡ false
      → scope consecutive_authz_failures_per_identifier ≡ paused_domain msg
  unfolding new_order_refusal_scope text_eq
  scope_paused_name q f = rw (q, f) refl

  scope_unnamed_domain :
      quoted_domain msg ≡ []
      → scope certs_per_registered_domain
        ≡ first_of (unique_registered_domains public_suffix is_ipv6 etld_plus_one domains)
  unfolding new_order_refusal_scope text_eq
  scope_unnamed_domain q = rw q refl

  scope_unnamed :
      (l : Limit)
      → IsOfIdentifier l
      → quoted_domain msg ≡ []
      → paused_domain msg ≡ []
      → scope l ≡ first_bare domains
  unfolding new_order_refusal_scope text_eq
  scope_unnamed l (inl e) q p = rw (e, q) refl
  scope_unnamed l (inr e) q p = rw (e, q, p) refl

  scope_account : scope new_orders_per_account ≡ []
  unfolding new_order_refusal_scope text_eq
  scope_account = refl

  scope_exact_set : scope certs_per_exact_identifier_set ≡ domain_key domains
  unfolding new_order_refusal_scope text_eq
  scope_exact_set = refl

  Consulted-account : Consulted new_orders_per_account
  unfolding checks_of text_eq
  Consulted-account = rw scope_account (inl (refl, refl), refl)

  Consulted-exact_set :
      text_eq (domain_key domains) [] ≡ false → Consulted certs_per_exact_identifier_set
  unfolding checks_of
  Consulted-exact_set f = rw scope_exact_set (inr (inl (refl, refl)), ground (arith, f))

  head_mem : (x d : Text) (ds l : List Text) → l ≡ d ∷ ds → x ≡ d → mem x l ≡ true
  unfolding mem
  head_mem x d ds l e k = rw (e, k) ground (arith, text_eq_iff d d)

  NamesOwn-Consulted : (l : Limit) → NamesOwn l → Consulted l
  unfolding mem
  NamesOwn-Consulted l (account e) = subst Consulted (sym e) Consulted-account
  NamesOwn-Consulted l (exact_set e f) = subst Consulted (sym e) (Consulted-exact_set f)
  NamesOwn-Consulted l (quoted_domain_of e i) = subst Consulted (sym e) (
      Consulted-registered (quoted_domain msg) (scope_quoted_domain i.filled)
        (in_registered (quoted_domain msg) i) i.filled)
  NamesOwn-Consulted l (quoted_name_of is i) =
      Consulted-identifier l i.domain (quoted_domain msg) is i.of_certificate
        (bare_identifier_scope-IsName domains (quoted_domain msg) i)
        (scope_quoted_name l is i.filled i.bare) i.filled
  NamesOwn-Consulted l (paused_name_of e q i) = subst Consulted (sym e) (
      Consulted-identifier consecutive_authz_failures_per_identifier i.domain (paused_domain msg)
        (inr refl) i.of_certificate (bare_identifier_scope-IsName domains (paused_domain msg) i)
        (scope_paused_name q i.filled) i.filled)
  NamesOwn-Consulted l (unnamed_domain d ds e q s f) = subst Consulted (sym e) (
      Consulted-registered (suffix_of d)
        (scope_unnamed_domain q
          ∙ ap first_registered s
          ∙ first_of_unique public_suffix is_ipv6 etld_plus_one d ds f)
        (in_unique (suffix_of d) d (head_mem d d ds domains s refl) refl f) f)
  NamesOwn-Consulted l (unnamed d ds is q p s f) =
      Consulted-identifier l d (bare_identifier_scope d) is (head_mem d d ds domains s refl) refl
        (scope_unnamed l is q p ∙ ap first_bare s) f

module _ (parse_time : Text → Text → Option Time) (parse_http : Text → Option Time)
    (public_suffix : Text → Text) (is_ipv6 : Text → Bool) (etld_plus_one : Text → Option Text)
    (domains : List Text) (e : CaError) (now : Time) where
  -- A refusal that names an instant keeps the certificate from ordering until the second of that
  -- instant: after it is noted the check blocks at every earlier time. This is for each limit that the
  -- refusal is of, where what the CA's words name is of the certificate: nothing for the account and
  -- for the exact set; a registered domain of one of its names for that limit; for the two limits of
  -- an identifier a name of it in lower case and without `*.`, which the certificate may hold as a
  -- wildcard; or no name is read, and the limit is booked for the first one. Scopes are not empty. Any
  -- other limits of the refusal, a header and what was booked before only add to that. This is for a
  -- database that answers and an instant after 1970.
  pub blocked-note_new_order_refusal :
      (at : Time) (l : Limit) (s : Store) (t : Time)
      → (unix_epoch + 1) * second ≤ at
      → parse_retry_after parse_time e.message ≡ some at
      → Answers s
      → HasLimit l (
          or_new_orders parse_time parse_http public_suffix is_ipv6 etld_plus_one
            (refused_limits parse_time e.message))
      → NamesOwn parse_time parse_http public_suffix is_ipv6 etld_plus_one domains e.message l
      → t < at / second * second
      → is_some (
          blocked_by_recorded_deadline parse_time parse_http public_suffix is_ipv6 etld_plus_one
            (note_new_order_refusal parse_time parse_http public_suffix is_ipv6 etld_plus_one
              (some s)
              domains
              e
              now).0
            domains
            t)
        ≡ true
  blocked-note_new_order_refusal at l s t modern named a has names lt =
      let (checked, made) =
        NamesOwn-Consulted parse_time parse_http public_suffix is_ipv6 etld_plus_one domains
          e.message l names in
      blocked_where_checked parse_time parse_http public_suffix is_ipv6 etld_plus_one domains e now
        at modern named l s t a has checked made lt
