-- ===== src/RateStore/Update.antt =====
-- UpdateRateBucket of internal/state/ratelimit.go changes one bucket as a whole, or nothing.
use wecert.Base.{
  ◌%◌, ◌≡◌, ◌≢◌, ◌⊎◌, Option, none, some, if◌then◌else◌, Text, Result, ok, err, arith, text_eq_iff,
  text_eq_refl, Bool-cases, inl, inr, refl,
}
use wecert.Base.Int.{ℤ}
use wecert.Base.Time.{to_unix, from_unix, second}
use wecert.RateStore.{
  RateBucket, Row, Store, StoreError, bucket_of_row, get_rate_bucket, nonzero, upsert_row,
  write_back, update_rate_bucket,
}

write_back_lem :
    (s : Store) (name scope : Text) (r : Result StoreError RateBucket)
    → (write_back s name scope r).1 ≡ none
    → (b : RateBucket) × (r ≡ ok b)
      × ((write_back s name scope r).0.rows name scope ≡ some (upsert_row b (s.rows name scope)))
      × (b.limit_name ≡ name)
      × (b.scope_id ≡ scope)
unfolding write_back
write_back_lem s name scope (err e) h = cc
write_back_lem s name scope (ok b) h = (
  b,
  refl,
  ground (arith, text_eq_refl name, text_eq_refl scope),
  ground (arith, text_eq_iff b.limit_name name),
  ground (arith, text_eq_iff b.scope_id scope),
)

module _ (s : Store) (name scope : Text) (fn : RateBucket → Result StoreError RateBucket) where
  -- An update that returns an error has changed nothing.
  pub update_error_unchanged :
      {e : StoreError}
      → (update_rate_bucket s name scope fn).1 ≡ some e
      → (update_rate_bucket s name scope fn).0 ≡ s
  unfolding update_rate_bucket
  update_error_unchanged h = ground arith

  -- Every bucket but the one that is updated reads as before, whatever the callback does.
  pub update_elsewhere :
      (n k : Text)
      → (n ≢ name) ⊎ (k ≢ scope)
      → get_rate_bucket (update_rate_bucket s name scope fn).0 n k ≡ get_rate_bucket s n k
  unfolding update_rate_bucket get_rate_bucket
  update_elsewhere n k h = ground (arith, text_eq_iff n name, text_eq_iff k scope)

  -- A successful update has read the bucket and written the row that the callback's bucket makes of
  -- it, under the keys that were asked for, which are the bucket's own.
  pub update_reads_back :
      (update_rate_bucket s name scope fn).1 ≡ none
      → (b : RateBucket) × (fn (bucket_of_row name scope (s.rows name scope)) ≡ ok b)
        × ((update_rate_bucket s name scope fn).0.rows name scope
            ≡ some (upsert_row b (s.rows name scope)))
        × (b.limit_name ≡ name)
        × (b.scope_id ≡ scope)
  unfolding update_rate_bucket
  update_reads_back h = elim (Bool-cases s.reads) [
    | inl e ↦ simp e (
        write_back_lem s name scope (fn (bucket_of_row name scope (s.rows name scope)))
          (simp e at h))
    | inr e ↦ ground arith
  ]

from_unix_zero : (v : ℤ) → from_unix v ≡ (if nonzero v then from_unix v else 0)
unfolding from_unix
from_unix_zero v = ground arith

-- What a row's deadline reads as once a bucket is written over it.
pub reset_at-upsert_row :
    (b : RateBucket) (o : Option Row) (n k : Text)
    → (bucket_of_row n k (some (upsert_row b o))).reset_at ≡ (
        if nonzero (to_unix b.reset_at)
        then from_unix (to_unix b.reset_at)
        else (bucket_of_row n k o).reset_at)
unfolding upsert_row bucket_of_row
reset_at-upsert_row b none n k = from_unix_zero (to_unix b.reset_at)
reset_at-upsert_row b (some r) n k = ground arith

-- A deadline that was read and is written again stays.
pub rewritten :
    (v : ℤ)
    → (if nonzero (to_unix (from_unix v)) then from_unix (to_unix (from_unix v)) else from_unix v)
      ≡ from_unix v
unfolding to_unix from_unix
rewritten v = ground arith

pub rewritten_bucket :
    (o : Option Row) (n k : Text)
    → let t = (bucket_of_row n k o).reset_at in
      (if nonzero (to_unix t) then from_unix (to_unix t) else t) ≡ t
unfolding bucket_of_row
rewritten_bucket none n k = unfold to_unix in refl
rewritten_bucket (some r) n k = rewritten r.reset_at

-- What is read is a whole second.
pub whole_second : (o : Option Row) (n k : Text) → (bucket_of_row n k o).reset_at % second ≡ 0
unfolding bucket_of_row from_unix
whole_second none n k = omega arith
whole_second (some r) n k = ground arith
