-- ===== src/Ari.antt =====
-- internal/acme/ari.go: the renewal information of RFC 9773 and the instants of renewal. The CA's
-- answer, the JSON decoder, SHA-256 and the two encodings are parameters.
pub mod Instants
pub mod CertId
use wecert.Base.{
  ℕ, zero, suc, ◌+◌, ◌-◌, ◌*◌, ◌/◌, ◌%◌, ◌≡◌, Bool, true, false, not, ◌&&◌, ◌||◌, Option, none,
  some, if◌then◌else◌, List, [], ◌∷◌, ◌++◌, Text, codes, text_eq, ltb, leb, ◌==◌, length, Result,
  ok, err,
}
use wecert.Base.Int.{ℤ, pos, pos_part, sub_ℕ, ltb_ℤ, leb_ℤ}
use wecert.Base.Time.{Time, Duration, before, after, sub, add}

-- SuggestedWindow and ExplanationURL.
pub record RenewalInfo : Type 0 where
  pub start : Time
  pub end : Time
  pub explanation_url : Text

-- The fields of x509.Certificate that CertID reads: the key identifier, and the magnitude of the
-- serial number without leading zeros (big.Int.Bytes).
pub record Leaf : Type 0 where
  pub authority_key_id : List ℕ
  pub serial_bytes : List ℕ

-- The INTEGER of the serial: a top bit that is set takes a zero byte in front.
unfoldable pub der_serial : List ℕ → List ℕ
der_serial [] = []
der_serial (b ∷ bs) = if leb 128 b then 0 ∷ b ∷ bs else b ∷ bs

-- base64.RawURLEncoding.EncodeToString is `encode`, and 46 is the dot; none is the error.
unfoldable pub cert_id : (List ℕ → Text) → Leaf → Option Text
unfolding der_serial
cert_id encode leaf =
    if length leaf.authority_key_id == 0
    then none
    else some (encode leaf.authority_key_id ++ 46 ∷ encode (der_serial leaf.serial_bytes))

-- An HTTP answer: its status, what api.ParseRetryAfter makes of the header (none where there is no
-- header or it does not parse), and what the decoder makes of the body.
pub record Response : Type 0 where
  pub status_code : ℕ
  pub retry_after : Option Duration
  pub body : Option RenewalInfo

pub data FetchError : Type 0 where
  transport long_term malformed invalid_window : FetchError
  status : ℕ → FetchError

-- The wait that the server asks for.
abbrev pub asked_wait : Response → Duration
asked_wait resp = elim resp.retry_after [ none ↦ pos 0 | some d ↦ d ]

-- FetchRenewalInfo once the body is decoded.
unfoldable pub checked_info :
    Duration → Option RenewalInfo → Option RenewalInfo × Duration × Option FetchError
checked_info wait none = (none, wait, some malformed)
checked_info wait (some info) =
    if before info.end info.start
    then (none, wait, some invalid_window)
    else (some info, wait, none)

-- FetchRenewalInfo; no answer is a transport error.
unfoldable pub fetch_renewal_info :
    Option Response → Option RenewalInfo × Duration × Option FetchError
unfolding checked_info
fetch_renewal_info none = (none, pos 0, some transport)
fetch_renewal_info (some resp) =
    if not (resp.status_code == 200)
    then if resp.status_code == 404
      then (none, pos 0, some long_term)
      else (none, asked_wait resp, some (status resp.status_code))
    else checked_info (asked_wait resp) resp.body

-- The clamp at the end of RenewalTime.
abbrev pub clamp : Time → Time → Time → Time
clamp start end at = if before at start then start else if after at end then end else at

-- `hash` gives the first two 64-bit words of the SHA-256 of a text.
module _ (hash : Text → ℕ × ℕ) (rfc3339 : Time → Text) where
  -- The instant before the clamp. A negative instant is 0 here, and the clamp takes either to start.
  unfoldable pub jittered : Text → Time → Time → Time
  jittered name start end =
      let span = pos_part (sub end start) in
      let (h, h') = hash (name ++ codes "|" ++ rfc3339 start) in
      let at = add start (pos (h % span)) in
      let jitter_span = span / 10 in
      if ltb 0 jitter_span then add at (sub_ℕ (h' % (jitter_span * 2)) jitter_span) else at

  unfoldable pub renewal_time : Text → Time → Time → Time
  unfolding jittered
  renewal_time name start end =
      if not (after end start) then start else clamp start end (jittered name start end)

  unfoldable pub deterministic_time : Text → Time → Duration → Time
  deterministic_time name base spread =
      if leb_ℤ spread (pos 0)
      then base
      else add base (pos ((hash (codes "fallback|" ++ name)).0 % pos_part spread))
