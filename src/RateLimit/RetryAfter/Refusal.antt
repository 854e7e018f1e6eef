-- ===== src/RateLimit/RetryAfter/Refusal.antt =====
-- The instant of a refusal of Boulder is read, and a header gives no instant of the past.
use wecert.Base.{
  ℕ, ◌+◌, ◌<◌, ◌≤◌, ◌≡◌, ◌≢◌, ◌⊎◌, true, false, Option, none, some, [], ◌∷◌, ◌++◌, Text, codes,
  has_prefix, after_prefix, trim_space, arith, refl, ap, ◌∙◌,
}
use wecert.Base.Time.{Time, add, max_duration}
use wecert.RateLimit.RetryAfter.{
  after_marker, before_marker, trim_trailing, layouts, parse_layouts, parse_tail, parse_retry_after,
  delay_until, parse_retry_after_header_at,
}

-- Nothing of the marker begins before its place.
abbrev pub FirstAt : Text → Text → Text → Type 0
FirstAt [] p tail = Unit
FirstAt (c ∷ lead) p tail = (has_prefix (c ∷ lead ++ p ++ tail) p ≡ false) × FirstAt lead p tail

after_prefix-append : (p tail : Text) → after_prefix (p ++ tail) p ≡ some tail
unfolding after_prefix
after_prefix-append [] tail = refl
after_prefix-append (c ∷ p) tail = ground (arith, after_prefix-append p tail)

after_prefix-none : (s p : Text) → has_prefix s p ≡ false → after_prefix s p ≡ none
unfolding after_prefix has_prefix
after_prefix-none s [] h = cc
after_prefix-none [] (d ∷ p) h = refl
after_prefix-none (c ∷ s) (d ∷ p) h = ground (arith, after_prefix-none s p)

has_prefix-append : (p tail : Text) → has_prefix (p ++ tail) p ≡ true
unfolding has_prefix
has_prefix-append [] tail = refl
has_prefix-append (c ∷ p) tail = ground (arith, has_prefix-append p tail)

after_marker-append :
    (lead : Text) (c : ℕ) (p tail : Text)
    → FirstAt lead (c ∷ p) tail
    → after_marker (lead ++ (c ∷ p) ++ tail) (c ∷ p) ≡ some tail
unfolding after_marker
after_marker-append [] c p tail h = ground (arith, after_prefix-append (c ∷ p) tail)
after_marker-append (b ∷ lead) c p tail h = ground (
  arith,
  after_prefix-none (b ∷ lead ++ (c ∷ p) ++ tail) (c ∷ p) h.0,
  after_marker-append lead c p tail h.1,
)

before_marker-append :
    (lead : Text) (c : ℕ) (p tail : Text)
    → FirstAt lead (c ∷ p) tail
    → before_marker (lead ++ (c ∷ p) ++ tail) (c ∷ p) ≡ lead
unfolding before_marker
before_marker-append [] c p tail h = ground (arith, has_prefix-append (c ∷ p) tail)
before_marker-append (b ∷ lead) c p tail h =
    ground (arith, before_marker-append lead c p tail h.1, h.0)

first_layout :
    (parse_time : Text → Text → Option Time) (instant : Text) (t : Time)
    → parse_time (codes "2006-01-02 15:04:05 MST") instant ≡ some t
    → t ≢ 0
    → parse_layouts parse_time layouts instant ≡ some t
unfolding parse_layouts
first_layout parse_time instant t d n = ground (arith, d)

-- A refusal that goes on after its instant, as Boulder's does, yields that instant: the text before
-- it may be any in which the first "retry after " is the one before the instant, the text after it any
-- that follows the first ": see ", and the instant any that does not end as a sentence does and that
-- the first layout parses to a time that is not zero.
pub parse_retry_after_refusal :
    (parse_time : Text → Text → Option Time) (lead instant link : Text) (t : Time)
    → FirstAt lead (codes "retry after ") (instant ++ codes ": see " ++ link)
    → FirstAt instant (codes ": see ") link
    → trim_trailing instant ≡ instant
    → parse_time (codes "2006-01-02 15:04:05 MST") instant ≡ some t
    → t ≢ 0
    → parse_retry_after parse_time
        (lead ++ codes "retry after " ++ (instant ++ codes ": see " ++ link))
      ≡ some t
unfolding parse_retry_after parse_tail
parse_retry_after_refusal parse_time lead instant link t a b c d n =
    ap (parse_tail parse_time)
      (after_marker-append lead 114 (codes "etry after ") (instant ++ codes ": see " ++ link) a)
    ∙ ap (λ s. parse_layouts parse_time layouts (trim_trailing s))
        (before_marker-append instant 58 (codes " see ") link b)
    ∙ ap (parse_layouts parse_time layouts) c
    ∙ first_layout parse_time instant t d n

delay_until_later :
    (now : Time) (secs : ℕ) (t : Time)
    → delay_until now secs ≡ some t
    → (now < t) × (t ≤ now + max_duration)
unfolding delay_until add
delay_until_later now secs t h = ground (arith, h)

-- The instant that a header yields is later than now, by no more than a Duration holds, or it is one
-- that the header writes out as a date and it is not the zero time.
pub parse_retry_after_header_at_later :
    (parse_http : Text → Option Time) (value : Text) (now t : Time)
    → parse_retry_after_header_at parse_http value now ≡ some t
    → ((now < t) × (t ≤ now + max_duration)) ⊎ ((parse_http (trim_space value) ≡ some t) × (t ≢ 0))
unfolding parse_retry_after_header_at
parse_retry_after_header_at_later parse_http value now t h = grind (arith, delay_until_later now, h)
