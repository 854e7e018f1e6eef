-- ===== src/RateStore.antt =====
-- internal/state/ratelimit.go: the persisted rate-limit buckets. The table is a function from its
-- primary key to a row. `reads` and `writes` say whether the database answers; a statement that
-- fails changes nothing.
pub mod Update
use wecert.Base.{
  ℕ, ◌+◌, ◌≡◌, Bool, true, false, not, ◌&&◌, ◌||◌, Option, none, some, if◌then◌else◌, Text, text_eq,
  ◌==◌, Result, ok, err, ◌>>=◌, [],
}
use wecert.Base.Int.{ℤ, pos, pos_part, neg_part}
use wecert.Base.Time.{Time, to_unix, from_unix}

-- `tokens` is in parts of a token.
pub record RateBucket : Type 0 where
  pub limit_name : Text
  pub scope_id : Text
  pub tokens : ℤ
  pub observed_at : Time
  pub reset_at : Time
  pub reset_reason : Text

-- A row of rate_buckets.
pub record Row : Type 0 where
  pub tokens : ℤ
  pub observed_at : ℤ
  pub reset_at : ℤ
  pub reset_reason : Text

pub record Store : Type 0 where
  pub rows : Text → Text → Option Row
  pub reads : Bool
  pub writes : Bool

pub data StoreError : Type 0 where
  read_failed write_failed identity_changed refused : StoreError

-- A missing row is a zero value.
unfoldable pub bucket_of_row : Text → Text → Option Row → RateBucket
bucket_of_row name scope none = record {
  limit_name = name;
  scope_id = scope;
  tokens = pos 0;
  observed_at = 0;
  reset_at = 0;
  reset_reason = [];
}
bucket_of_row name scope (some r) = record {
  limit_name = name;
  scope_id = scope;
  tokens = r.tokens;
  observed_at = from_unix r.observed_at;
  reset_at = from_unix r.reset_at;
  reset_reason = r.reset_reason;
}

unfoldable pub get_rate_bucket : Store → Text → Text → Result StoreError RateBucket
unfolding bucket_of_row
get_rate_bucket s name scope =
    if s.reads then ok (bucket_of_row name scope (s.rows name scope)) else err read_failed

-- `x != 0`
abbrev pub nonzero : ℤ → Bool
nonzero v = not (pos_part v + neg_part v == 0)

-- INSERT … ON CONFLICT DO UPDATE: a deadline is only replaced by another.
unfoldable pub upsert_row : RateBucket → Option Row → Row
upsert_row b none = record {
  tokens = b.tokens;
  observed_at = to_unix b.observed_at;
  reset_at = to_unix b.reset_at;
  reset_reason = b.reset_reason;
}
upsert_row b (some r) =
    let reset = to_unix b.reset_at in
    record {
      tokens = b.tokens;
      observed_at = to_unix b.observed_at;
      reset_at = if nonzero reset then reset else r.reset_at;
      reset_reason = if nonzero reset then b.reset_reason else r.reset_reason;
    }

-- The table with one row written.
unfoldable pub write_row : Store → Text → Text → Row → Store
write_row s name scope r = record s {
  rows = λ n k. if text_eq n name && text_eq k scope then some r else s.rows n k;
}

-- PutRateBucket; a nil bucket is `none`.
unfoldable pub put_rate_bucket : Store → Option RateBucket → Store × Option StoreError
unfolding upsert_row write_row
put_rate_bucket s none = (s, some refused)
put_rate_bucket s (some b) =
    if s.writes
    then (write_row s b.limit_name b.scope_id (upsert_row b (s.rows b.limit_name b.scope_id)), none)
    else (s, some write_failed)

-- What UpdateRateBucket does with the callback's bucket.
unfoldable pub write_back :
    Store → Text → Text → Result StoreError RateBucket → Store × Option StoreError
unfolding upsert_row write_row
write_back s name scope (err e) = (s, some e)
write_back s name scope (ok b) =
    if not (text_eq b.limit_name name) || not (text_eq b.scope_id scope)
    then (s, some identity_changed)
    else if s.writes
    then (write_row s name scope (upsert_row b (s.rows name scope)), none)
    else (s, some write_failed)

unfoldable pub update_rate_bucket :
    Store → Text → Text → (RateBucket → Result StoreError RateBucket) → Store × Option StoreError
unfolding write_back bucket_of_row
update_rate_bucket s name scope fn =
    if s.reads
    then write_back s name scope (fn (bucket_of_row name scope (s.rows name scope)))
    else (s, some read_failed)
