-- ===== src/Base/Time.antt =====
-- Package time: an instant counts the nanoseconds since the zero time (January 1, year 1, UTC), and
-- a duration is an int64 of nanoseconds. Instants before the zero time are not modelled: `add` stops
-- there. No duration is longer than 293 years, so from 1970 on `add` never meets that stop.
use Prim.Native.Nat.{ℕ, ◌/◌, ◌+◌, ◌-◌, ◌*◌, ◌^◌, ◌≤◌, min}
use mathlib.Core.Path.{◌≡◌}
use mathlib.Core.Bool.{Bool}
use native.Mathlib.Omega.{arith}
use wecert.Base.Tests.{ltb, leb, ◌==◌, if◌then◌else◌}
use wecert.Base.Int.{ℤ, pos, pos_part, neg_part, sub_ℕ}

abbrev pub Time : Type 0
Time = ℕ

abbrev pub Duration : Type 0
Duration = ℤ

abbrev pub max_duration : ℕ
max_duration = 2 ^ 63 - 1

abbrev pub second : ℕ
second = 1000000000

abbrev pub minute : ℕ
minute = 60 * second

abbrev pub hour : ℕ
hour = 60 * minute

abbrev pub day : ℕ
day = 24 * hour

-- t.IsZero()
abbrev pub is_zero : Time → Bool
is_zero t = t == 0

-- t.Before(u)
abbrev pub before : Time → Time → Bool
before t u = ltb t u

-- t.After(u)
abbrev pub after : Time → Time → Bool
after t u = ltb u t

-- t.Sub(u), which saturates
unfoldable pub sub : Time → Time → Duration
sub t u =
    if leb u t then pos (min (t - u) max_duration) else sub_ℕ 0 (min (u - t) (max_duration + 1))

-- t.Add(d)
unfoldable pub add : Time → Duration → Time
add t d = t + pos_part d - neg_part d

pub sub_of_le : (t u : Time) → u ≤ t → sub t u ≡ pos (min (t - u) max_duration)
unfolding sub
sub_of_le t u h = ground arith

-- Seconds from the zero time to January 1, 1970.
abbrev pub unix_epoch : ℕ
unix_epoch = 62135596800

-- toUnix of internal/state/open.go, over t.Unix()
unfoldable pub to_unix : Time → ℤ
to_unix t = if is_zero t then pos 0 else sub_ℕ (t / second) unix_epoch

-- fromUnix of internal/state/open.go, over time.Unix
unfoldable pub from_unix : ℤ → Time
from_unix v =
    if pos_part v + neg_part v == 0 then 0 else (pos_part v + unix_epoch - neg_part v) * second

-- What a stored instant reads back as: its second, or the zero time for the epoch itself.
pub from_unix-to_unix :
    (t : Time)
    → from_unix (to_unix t) ≡ (if t / second == unix_epoch then 0 else t / second * second)
unfolding from_unix to_unix
from_unix-to_unix t = ground arith
