-- ===== src/Ari/CertId.antt =====
-- certIDs of internal/acme/ari.go tell certificates apart.
use wecert.Base.{
  ℕ, ◌≡◌, ◌≢◌, false, some, List, [], ◌∷◌, ◌++◌, Text, ◌==◌, length, arith, refl, sym, ◌∙◌,
  Bool-cases, inl, inr, contains_byte,
}
use mathlib.Core.Option.{some-injective}
use wecert.Ari.{Leaf, der_serial, cert_id}

-- What precedes the first dot determines both parts.
split_at_dot :
    (a b s t : Text)
    → contains_byte 46 a ≡ false
    → contains_byte 46 b ≡ false
    → a ++ 46 ∷ s ≡ b ++ 46 ∷ t
    → (a ≡ b) × (s ≡ t)
unfolding contains_byte
split_at_dot [] [] s t p q e = ground (arith, e)
split_at_dot [] (d ∷ b) s t p q e = ground (arith, e)
split_at_dot (c ∷ a) [] s t p q e = ground (arith, e)
split_at_dot (c ∷ a) (d ∷ b) s t p q e = ground (arith, split_at_dot a b s t, e)

-- A magnitude has no leading zero.
abbrev pub IsMagnitude : List ℕ → Type 0
IsMagnitude [] = Unit
IsMagnitude (b ∷ bs) = b ≢ 0

der_serial_injective :
    (a b : List ℕ) → IsMagnitude a → IsMagnitude b → der_serial a ≡ der_serial b → a ≡ b
unfolding der_serial
der_serial_injective [] [] p q e = refl
der_serial_injective [] (d ∷ b) p q e = ground (arith, e)
der_serial_injective (c ∷ a) [] p q e = ground (arith, e)
der_serial_injective (c ∷ a) (d ∷ b) p q e = ground (arith, e)

cert_id-some :
    (encode : List ℕ → Text) (a : Leaf) (id : Text)
    → cert_id encode a ≡ some id
    → encode a.authority_key_id ++ 46 ∷ encode (der_serial a.serial_bytes) ≡ id
unfolding cert_id
cert_id-some encode a id h = elim (Bool-cases (length a.authority_key_id == 0)) [
  | inl e ↦ ground (arith, h)
  | inr e ↦ some-injective _ _ (simp e at h)
]

-- Two certificates with one certID have the same key identifier and the same serial, if the encoding
-- is injective and yields no dot and the serials are magnitudes without leading zeros.
pub cert_id_injective :
    (encode : List ℕ → Text)
    → ((x y : List ℕ) → encode x ≡ encode y → x ≡ y)
    → ((x : List ℕ) → contains_byte 46 (encode x) ≡ false)
    → (a b : Leaf) (id : Text) → IsMagnitude a.serial_bytes
    → IsMagnitude b.serial_bytes
    → cert_id encode a ≡ some id
    → cert_id encode b ≡ some id
    → (a.authority_key_id ≡ b.authority_key_id) × (a.serial_bytes ≡ b.serial_bytes)
cert_id_injective encode inj dotless a b id p q h k =
    let parts =
      split_at_dot (encode a.authority_key_id) (encode b.authority_key_id)
        (encode (der_serial a.serial_bytes)) (encode (der_serial b.serial_bytes))
        (dotless a.authority_key_id) (dotless b.authority_key_id)
        (cert_id-some encode a id h ∙ sym (cert_id-some encode b id k)) in
    (
      inj a.authority_key_id b.authority_key_id parts.0,
      der_serial_injective a.serial_bytes b.serial_bytes p q
          (inj (der_serial a.serial_bytes) (der_serial b.serial_bytes) parts.1),
    )
