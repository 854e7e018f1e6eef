-- ===== src/FallbackStore.antt =====
-- internal/state/fallback.go: the ledger of identifier failures and the record of a degradation. A
-- table is a list of rows; `reads` and `writes` say whether the database answers, and a statement
-- that fails changes nothing.
pub mod Record
use wecert.Base.{
  ℕ, zero, suc, ◌+◌, ◌/◌, ◌≡◌, Bool, true, false, not, ◌&&◌, ◌||◌, Option, none, some,
  if◌then◌else◌, List, [], ◌∷◌, ◌++◌, Text, text_eq, text_le, ◌==◌, ltb, leb, length, sort, split,
  join, trim_space, codes, Result, ok, err,
}
use wecert.Base.Assoc.{Assoc, lookup, put, remove}
use wecert.Base.Int.{ℤ, pos, sub_ℕ, ◌-ℤ◌, ltb_ℤ}
use wecert.Truncate.{truncate, max_last_error_bytes}
use wecert.Base.Time.{Time, Duration, add, from_unix, second, unix_epoch}

pub record IdentifierFailure : Type 0 where
  pub cert_name : Text
  pub identifier : Text
  pub failures : ℕ
  pub last_error : Text
  pub last_failed_at : Time

pub record Fallback : Type 0 where
  pub cert_name : Text
  pub dropped : List Text
  pub since : Time
  pub reason : Text

-- A row of identifier_failures.
pub record FailureRow : Type 0 where
  pub cert : Text
  pub name : Text
  pub count : ℕ
  pub error : Text
  pub failed_at : ℤ

-- A row of cert_fallback, without its key.
pub record FallbackRow : Type 0 where
  pub names : Text
  pub began : ℤ
  pub why : Text

pub record Store : Type 0 where
  pub identifier_failures : List FailureRow
  pub cert_fallback : Assoc FallbackRow
  pub reads : Bool
  pub writes : Bool

pub data StoreError : Type 0 where
  read_failed write_failed nil_fallback : StoreError

-- t.Unix()
unfoldable pub unix : Time → ℤ
unix t = sub_ℕ (t / second) unix_epoch

-- INSERT … ON CONFLICT DO UPDATE on the ledger.
unfoldable pub count_row : Text → Text → Text → Time → List FailureRow → List FailureRow
count_row cert name msg now [] =
    (record {
      cert = cert;
      name = name;
      count = 1;
      error = truncate msg max_last_error_bytes;
      failed_at = unix now;
    })
    ∷ []
count_row cert name msg now (r ∷ rs) =
    let rest = count_row cert name msg now rs in
    if text_eq r.cert cert && text_eq r.name name
    then (record r {
      count = r.count + 1;
      error = truncate msg max_last_error_bytes;
      failed_at = unix now;
    })
      ∷ rs
    else r ∷ rest

unfoldable pub record_identifier_failure :
    Store → Text → Text → Text → Time → Store × Option StoreError
unfolding count_row
record_identifier_failure s cert name msg now =
    if s.writes
    then (
      record s { identifier_failures = count_row cert name msg now s.identifier_failures },
      none,
    )
    else (s, some write_failed)

-- ORDER BY identifier
unfoldable pub insert_failure : IdentifierFailure → List IdentifierFailure → List IdentifierFailure
insert_failure f [] = f ∷ []
insert_failure f (g ∷ gs) =
    let rest = insert_failure f gs in
    if text_le f.identifier g.identifier then f ∷ g ∷ gs else g ∷ rest

-- The rows of one certificate, in order.
unfoldable pub failures_from : Text → List FailureRow → List IdentifierFailure
unfolding insert_failure
failures_from cert [] = []
failures_from cert (r ∷ rs) =
    let rest = failures_from cert rs in
    if text_eq r.cert cert
    then insert_failure
        (record {
          cert_name = r.cert;
          identifier = r.name;
          failures = r.count;
          last_error = r.error;
          last_failed_at = from_unix r.failed_at;
        })
        rest
    else rest

unfoldable pub list_identifier_failures : Store → Text → Result StoreError (List IdentifierFailure)
unfolding failures_from
list_identifier_failures s cert =
    if s.reads then ok (failures_from cert s.identifier_failures) else err read_failed

-- DELETE … WHERE
unfoldable pub delete_rows : (FailureRow → Bool) → List FailureRow → List FailureRow
delete_rows p [] = []
delete_rows p (r ∷ rs) = let rest = delete_rows p rs in if p r then rest else r ∷ rest

unfoldable pub clear_identifier_failures : Store → Text → Store × Option StoreError
unfolding delete_rows
clear_identifier_failures s cert =
    if s.writes
    then (
      record s {
        identifier_failures = delete_rows (λ r. text_eq r.cert cert) s.identifier_failures;
      },
      none,
    )
    else (s, some write_failed)

-- now.Add(-age)
abbrev pub cutoff_at : Time → Duration → Time
cutoff_at now age = add now (pos 0 -ℤ age)

unfoldable pub prune_identifier_failures :
    Store → Text → Time → Duration → Store × Option StoreError
unfolding delete_rows
prune_identifier_failures s cert now age =
    if s.writes
    then (
      record s {
        identifier_failures =
            delete_rows (λ r. text_eq r.cert cert && ltb_ℤ r.failed_at (unix (cutoff_at now age)))
              s.identifier_failures;
      },
      none,
    )
    else (s, some write_failed)

-- The row that PutFallback leaves; `since` stays that of the row that is there.
unfoldable pub fallback_row : Fallback → Option FallbackRow → FallbackRow
fallback_row f none = record {
  names = join 44 (sort f.dropped);
  began = unix f.since;
  why = truncate f.reason max_last_error_bytes;
}
fallback_row f (some r) = record {
  names = join 44 (sort f.dropped);
  began = r.began;
  why = truncate f.reason max_last_error_bytes;
}

unfoldable pub put_fallback : Store → Option Fallback → Store × Option StoreError
unfolding fallback_row
put_fallback s none = (s, some nil_fallback)
put_fallback s (some f) =
    if s.writes
    then (
      record s {
        cert_fallback =
            put f.cert_name (fallback_row f (lookup f.cert_name s.cert_fallback)) s.cert_fallback;
      },
      none,
    )
    else (s, some write_failed)

-- The loop over the parts of the column.
unfoldable pub parts : List Text → List Text
parts [] = []
parts (d ∷ ds) =
    let rest = parts ds in if text_eq (trim_space d) [] then rest else trim_space d ∷ rest

unfoldable pub fallback_of_row : Text → Option FallbackRow → Option Fallback
unfolding parts
fallback_of_row cert none = none
fallback_of_row cert (some r) = some (record {
  cert_name = cert;
  dropped = parts (split 44 r.names);
  since = from_unix r.began;
  reason = r.why;
})

unfoldable pub get_fallback : Store → Text → Result StoreError (Option Fallback)
unfolding fallback_of_row
get_fallback s cert =
    if s.reads then ok (fallback_of_row cert (lookup cert s.cert_fallback)) else err read_failed

unfoldable pub clear_fallback : Store → Text → Store × Option StoreError
clear_fallback s cert =
    if s.writes
    then (record s { cert_fallback = remove cert s.cert_fallback }, none)
    else (s, some write_failed)
