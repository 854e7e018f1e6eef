-- ===== src/RateLimit/RetryAfter.antt =====
-- internal/ratelimit/ratelimit.go: the instants that a CA names in a refusal. The parsers of package
-- time and of net/http are parameters.
pub mod Refusal
use wecert.Base.{
  ℕ, zero, suc, ◌+◌, ◌-◌, ◌*◌, ◌/◌, ◌<◌, ◌≤◌, ◌≡◌, Bool, true, false, not, ◌&&◌, ◌||◌, Option, none,
  some, if◌then◌else◌, List, [], ◌∷◌, ◌++◌, Text, codes, text_eq, ltb, leb, ◌==◌, has_prefix,
  after_prefix, trim_space, is_some,
}
use wecert.Base.Int.{pos}
use wecert.Base.Time.{Time, is_zero, add, second, max_duration}

-- msg[i+len(p):] where i is strings.Index(msg, p); none where that is -1. No p here is empty.
unfoldable pub after_marker : Text → Text → Option Text
after_marker [] p = after_prefix [] p
after_marker (c ∷ s) p =
    let rest = after_marker s p in elim (after_prefix (c ∷ s) p) [ some r ↦ some r | none ↦ rest ]

-- s[:j] where j is strings.Index(s, p), and s where that is -1.
unfoldable pub before_marker : Text → Text → Text
before_marker [] p = []
before_marker (c ∷ s) p =
    let rest = before_marker s p in if has_prefix (c ∷ s) p then [] else c ∷ rest

-- The bytes '.', ',', ';', '\n', '\r', ' ' and '\t'.
abbrev pub ends_sentence : ℕ → Bool
ends_sentence c =
    (c == 46) || ((c == 44) || ((c == 59) || ((c == 10) || ((c == 13) || ((c == 32) || (c == 9))))))

-- trimTrailing: a byte is dropped if it is of those and all after it are.
unfoldable pub trim_trailing : Text → Text
trim_trailing [] = []
trim_trailing (c ∷ s) =
    let rest = trim_trailing s in if text_eq rest [] && ends_sentence c then [] else c ∷ rest

abbrev pub layouts : List Text
layouts = codes "2006-01-02 15:04:05 MST" ∷ codes "2006-01-02 15:04:05.999999999 MST" ∷ []

-- The loop over the layouts; `parse_time` is time.Parse.
unfoldable pub parse_layouts : (Text → Text → Option Time) → List Text → Text → Option Time
parse_layouts parse_time [] rest = none
parse_layouts parse_time (l ∷ ls) rest =
    let later = parse_layouts parse_time ls rest in
    elim (parse_time l rest) [ some t ↦ if is_zero t then none else some t | none ↦ later ]

-- What follows the marker.
unfoldable pub parse_tail : (Text → Text → Option Time) → Option Text → Option Time
parse_tail parse_time none = none
parse_tail parse_time (some rest) =
    parse_layouts parse_time layouts (trim_trailing (before_marker rest (codes ": see ")))

unfoldable pub parse_retry_after : (Text → Text → Option Time) → Text → Option Time
unfolding parse_tail
parse_retry_after parse_time msg = parse_tail parse_time (after_marker msg (codes "retry after "))

-- The decimal digits of strconv.Atoi.
unfoldable pub digits_from : ℕ → Text → Option ℕ
digits_from n [] = some n
digits_from n (c ∷ s) =
    let rest = digits_from (n * 10 + (c - 48)) s in if leb 48 c && leb c 57 then rest else none

-- strconv.Atoi, for what its caller asks: whether the text is a number at all, and the number where
-- it is positive (0 otherwise). A number beyond 63 bits is an error.
unfoldable pub atoi_positive : Text → Option ℕ
unfolding digits_from
atoi_positive [] = none
atoi_positive (c ∷ []) = digits_from 0 (c ∷ [])
atoi_positive (c ∷ d ∷ s) =
    if c == 45
    then elim (digits_from 0 (d ∷ s)) [
      | none ↦ none
      | some n ↦ if ltb (max_duration + 1) n then none else some 0
    ]
    else elim (digits_from 0 (if c == 43 then d ∷ s else c ∷ d ∷ s)) [
      | none ↦ none
      | some n ↦ if ltb max_duration n then none else some n
    ]

-- The delay form of the header.
unfoldable pub delay_until : Time → ℕ → Option Time
delay_until now secs =
    if secs == 0
    then none
    else if ltb (max_duration / second) secs
    then none
    else some (add now (pos (secs * second)))

-- ParseRetryAfterHeaderAt; `parse_http` is http.ParseTime.
unfoldable pub parse_retry_after_header_at : (Text → Option Time) → Text → Time → Option Time
parse_retry_after_header_at parse_http value now =
    let v = trim_space value in
    if text_eq v [] then none else elim (atoi_positive v) [
      | some secs ↦ delay_until now secs
      | none ↦ elim (parse_http v) [ some t ↦ if is_zero t then none else some t | none ↦ none ]
    ]
