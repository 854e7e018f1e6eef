-- ===== src/FallbackStore/Record.antt =====
-- What internal/state/fallback.go writes and reads back of a degradation.
use wecert.Base.{
  ◌≡◌, ◌≢◌, true, false, none, some, if◌then◌else◌, List, [], ◌∷◌, Text, text_eq, text_eq_iff, sort,
  split, join, trim_space, contains_byte, ok, arith, refl, ap, ◌∙◌, All, All-sort, split-join,
}
use wecert.Base.Assoc.{lookup, lookup-put}
use wecert.Base.Int.{ℤ}
use wecert.Base.Time.{from_unix}
use wecert.Truncate.{truncate, max_last_error_bytes}
use wecert.FallbackStore.{
  Store, Fallback, FallbackRow, unix, fallback_row, put_fallback, parts, fallback_of_row,
  get_fallback,
}

-- A name that the column can hold: it has no comma, is not blank and has no space around it.
abbrev pub IsPlain : Text → Type 0
IsPlain t = (contains_byte 44 t ≡ false) × (trim_space t ≡ t) × (t ≢ [])

parts_plain : (l : List Text) → All IsPlain l → parts l ≡ l
unfolding parts
parts_plain [] h = refl
parts_plain (t ∷ l) h =
    ground (arith, parts_plain l h.1, text_eq_iff t [], text_eq_iff (trim_space t) [])

All-commas : (l : List Text) → All IsPlain l → All (λ t. contains_byte 44 t ≡ false) l
All-commas [] h = h
All-commas (t ∷ l) h = (h.0.0, All-commas l h.1)

parts-split-join : (l : List Text) → All IsPlain l → parts (split 44 (join 44 l)) ≡ l
unfolding parts split join text_eq trim_space
parts-split-join [] h = refl
parts-split-join (p ∷ l) h =
    ap parts (split-join 44 p l (All-commas (p ∷ l) h)) ∙ parts_plain (p ∷ l) h

-- When the record's degradation began.
abbrev pub began_of : Store → Fallback → ℤ
began_of s f = elim (lookup f.cert_name s.cert_fallback) [ none ↦ unix f.since | some r ↦ r.began ]

-- A record that is put is read back while the database answers, if its names can stand in the
-- column: with its names sorted and its reason truncated, and since the second of the record that
-- was there before, or since its own if none was. Reading another certificate's record gives what
-- it gave before.
pub get-put_fallback :
    (s : Store) (f : Fallback) (cert : Text)
    → s.reads ≡ true
    → s.writes ≡ true
    → All IsPlain f.dropped
    → get_fallback (put_fallback s (some f)).0 cert ≡ (
        if text_eq f.cert_name cert
        then ok (
            some (record {
              cert_name = cert;
              dropped = sort f.dropped;
              since = from_unix (began_of s f);
              reason = truncate f.reason max_last_error_bytes;
            }))
        else get_fallback s cert)
unfolding get_fallback put_fallback fallback_of_row fallback_row
get-put_fallback s f cert r w h = grind (
  arith,
  lookup-put {V = FallbackRow} f.cert_name cert,
  parts-split-join (sort f.dropped) (All-sort IsPlain f.dropped h),
)
