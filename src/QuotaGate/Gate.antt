-- ===== src/QuotaGate/Gate.antt =====
-- What noteNewOrderRefusal books in internal/acme/manager_renew.go gates the certificate.
use wecert.Base.{
  ◌+◌, ◌*◌, ◌/◌, ◌≤◌, ◌<◌, ◌≡◌, ◌⊎◌, inl, inr, Bool, true, false, not, ◌&&◌, Option, some, List, [],
  ◌∷◌, Text, codes, text_eq, is_some, arith, refl, ap, ◌∙◌,
}
use mathlib.Core.Path.{subst}
use wecert.Base.Time.{Time, second, unix_epoch}
use wecert.RateLimit.{Limit}
use wecert.RateLimit.RetryAfter.{parse_retry_after}
use wecert.RateStore.{Store, get_rate_bucket}
use wecert.RateLimit.Tracker.{track_blocked_until}
use wecert.RateLimit.Tracker.Deadlines.{deadline}
use wecert.Refusal.{refused_limits, new_order_refusal_scope}
use wecert.QuotaGate.{
  CaError, Check, first_blocked, book_all, checks_of, blocked_by_recorded_deadline, or_new_orders,
  header_of, note_new_order_refusal,
}
use wecert.QuotaGate.Booked.{
  Answers, IsLater, IsLater-refl, Reaches, IsLater-round, Reaches-book_refusal,
}

abbrev pub HasLimit : Limit → List Limit → Type 0
HasLimit l [] = ⊥
HasLimit l (x ∷ xs) = (x ≡ l) ⊎ HasLimit l xs

abbrev pub HasCheck : Limit → Text → List Check → Type 0
HasCheck l scope [] = ⊥
HasCheck l scope (ch ∷ cs) = ((ch.limit ≡ l) × (ch.scope ≡ scope)) ⊎ HasCheck l scope cs

-- The check is made: only a limit of the account has no scope.
abbrev pub IsMade : Limit → Text → Type 0
IsMade l scope = (text_eq scope [] && not (text_eq l.scope (codes "account"))) ≡ false

track_blocked-deadline :
    (s : Store) (l : Limit) (scope : Text) (now : Time)
    → s.reads ≡ true
    → now < deadline s l.name scope
    → (track_blocked_until (some s) l scope now).2 ≡ true
unfolding track_blocked_until deadline get_rate_bucket
track_blocked-deadline s l scope now r h = ground arith

first_blocked-deadline :
    (s : Store) (now : Time) (cs : List Check) (l : Limit) (scope : Text)
    → s.reads ≡ true
    → HasCheck l scope cs
    → IsMade l scope
    → now < deadline s l.name scope
    → is_some (first_blocked (some s) now cs) ≡ true
unfolding first_blocked
first_blocked-deadline s now [] l scope r has made h = elim has [ ]
first_blocked-deadline s now (ch ∷ cs) l scope r (inl (e, f)) made h =
    grind (arith, track_blocked-deadline s l scope now r h, e, f)
first_blocked-deadline s now (ch ∷ cs) l scope r (inr has) made h =
    ground (arith, first_blocked-deadline s now cs l scope r has made h)

module _ (parse_time : Text → Text → Option Time) (parse_http : Text → Option Time)
    (public_suffix : Text → Text) (is_ipv6 : Text → Bool) (etld_plus_one : Text → Option Text)
    (domains : List Text) (e : CaError) (now : Time) where
  abbrev scope_of : Limit → Text
  scope_of l = new_order_refusal_scope public_suffix is_ipv6 etld_plus_one l domains e.message

  abbrev booking : List Limit → Option Time → Option Store → Option Store × Bool
  booking ls header q =
      book_all parse_time parse_http public_suffix is_ipv6 etld_plus_one ls domains e header now q

  IsLater-book_all :
      (ls : List Limit) (header : Option Time) (s : Store)
      → Answers s
      → IsLater s (booking ls header (some s)).0
  unfolding book_all
  IsLater-book_all [] header s a = IsLater-refl s a
  IsLater-book_all (l ∷ ls) header s a =
      let (s1, e1, a1, later) = IsLater-round parse_time l (scope_of l) now header e.message s a in
      let (s2, e2, a2, later') = IsLater-book_all ls header s1 a1 in
      (
        s2,
        ap (λ q. (booking ls header q).0) e1 ∙ e2,
        a2,
        λ n k. omega (arith, later n k, later' n k),
      )

  checks_made :
      (q : Option Store) (t : Time)
      → blocked_by_recorded_deadline parse_time parse_http public_suffix is_ipv6 etld_plus_one q
          domains t
        ≡ first_blocked q t
            (checks_of parse_time parse_http public_suffix is_ipv6 etld_plus_one domains)
  unfolding blocked_by_recorded_deadline
  checks_made q t = refl

  refusal_booked :
      (q : Option Store)
      → note_new_order_refusal parse_time parse_http public_suffix is_ipv6 etld_plus_one q domains e
          now
        ≡ booking
            (or_new_orders parse_time parse_http public_suffix is_ipv6 etld_plus_one
              (refused_limits parse_time e.message))
            (header_of parse_time parse_http public_suffix is_ipv6 etld_plus_one e now)
            q
  unfolding note_new_order_refusal
  refusal_booked q = refl

  module _ (at : Time) (modern : (unix_epoch + 1) * second ≤ at)
      (named : parse_retry_after parse_time e.message ≡ some at) where
    Reaches-book_all :
        (ls : List Limit) (l : Limit) (header : Option Time) (s : Store)
        → Answers s
        → HasLimit l ls
        → Reaches at l (scope_of l) (booking ls header (some s)).0
    unfolding book_all
    Reaches-book_all [] l header s a h = elim h [ ]
    Reaches-book_all (x ∷ ls) l header s a (inl eq) =
        let (s1, e1, a1, reached) =
          Reaches-book_refusal parse_time x (scope_of x) now header e.message s at a modern named in
        let (s2, e2, a2, later) = IsLater-book_all ls header s1 a1 in
        subst (λ y. Reaches at y (scope_of y) (booking (x ∷ ls) header (some s)).0) eq
          (
            s2,
            ap (λ q. (booking ls header q).0) e1 ∙ e2,
            a2,
            omega (arith, reached, later x.name (scope_of x)),
          )
    Reaches-book_all (x ∷ ls) l header s a (inr h) =
        let (s1, e1, a1, later) =
          IsLater-round parse_time x (scope_of x) now header e.message s a in
        let (s2, e2, a2, reached) = Reaches-book_all ls l header s1 a1 h in
        (s2, ap (λ q. (booking ls header q).0) e1 ∙ e2, a2, reached)

    -- The check blocks where it consults the bucket that the refusal was booked in.
    pub blocked_where_checked :
        (l : Limit) (s : Store) (t : Time)
        → Answers s
        → HasLimit l (
            or_new_orders parse_time parse_http public_suffix is_ipv6 etld_plus_one
              (refused_limits parse_time e.message))
        → HasCheck l
            (scope_of l)
            (checks_of parse_time parse_http public_suffix is_ipv6 etld_plus_one domains)
        → IsMade l (scope_of l)
        → t < at / second * second
        → is_some (
            blocked_by_recorded_deadline parse_time parse_http public_suffix is_ipv6 etld_plus_one
              (note_new_order_refusal parse_time parse_http public_suffix is_ipv6 etld_plus_one
                (some s)
                domains
                e
                now).0
              domains
              t)
          ≡ true
    blocked_where_checked l s t a has checked made lt =
        let header = header_of parse_time parse_http public_suffix is_ipv6 etld_plus_one e now in
        let limits =
          or_new_orders parse_time parse_http public_suffix is_ipv6 etld_plus_one
            (refused_limits parse_time e.message) in
        let (s', eq, a', reached) = Reaches-book_all limits l header s a has in
        rw
          (
            checks_made
                (note_new_order_refusal parse_time parse_http public_suffix is_ipv6 etld_plus_one
                  (some s) domains e now).0
                t,
            refusal_booked (some s),
            eq,
          )
          (first_blocked-deadline s' t
            (checks_of parse_time parse_http public_suffix is_ipv6 etld_plus_one domains) l
            (scope_of l) a'.can_read checked made (omega (arith, reached)))
