-- ===== src/Tests/Authorities.antt =====
-- internal/acme/failover.go and internal/acme/ari.go, with CAs that are numbered and a world that counts
-- the orders sent.
use wecert.Base.{
  ℕ, zero, suc, ◌+◌, ◌*◌, ◌≤◌, ◌≡◌, ◌↔◌, false, Option, none, some, List, [], ◌∷◌, ◌++◌, Text,
  codes, arith, refl, contains_byte,
}
use wecert.Base.Int.{pos}
use wecert.Base.Time.{Time, second, day, hour}
use wecert.Failover.{FailoverApi, CallError, new_order}
use wecert.Failover.Orders.{Settled, Settled-new_order}
use wecert.Ari.{RenewalInfo, Leaf, Response, fetch_renewal_info, renewal_time, cert_id, der_serial}
use wecert.Ari.Instants.{renewal_time-fetch_renewal_info}
use wecert.Ari.CertId.{cert_id_injective}

-- CA 0 refuses connections; the others take the order.
abbrev place_order : ℕ → ℕ → ℕ × Text × Option CallError
place_order zero n =
    (suc n, [], some (record { timed_out = false; message = codes "connection refused" }))
place_order (suc k) n = (suc n, codes "order", none)

abbrev two_cas : FailoverApi ℕ
two_cas = record {
  primary = 0;
  by_host = (codes "a.example", 0) ∷ (codes "b.example", 1) ∷ [];
  standby = 1 ∷ [];
}

Settled-new_order_example : Settled place_order (0 ∷ 1 ∷ []) 0 (new_order place_order two_cas 0)
Settled-new_order_example = Settled-new_order place_order two_cas 0

abbrev no_hash : Text → ℕ × ℕ
no_hash s = (12345, 678)

abbrev no_format : Time → Text
no_format t = []

abbrev window : RenewalInfo
window = record {
  start = 63900000000 * second;
  end = 63900000000 * second + 2 * day;
  explanation_url = [];
}

abbrev answer : Response
answer = record { status_code = 200; retry_after = some (pos (6 * hour)); body = some window }

renewal_time-fetch_renewal_info_example : ((fetch_renewal_info (some answer)).0 ≡ some window) ↔ (
    (answer.status_code ≡ 200)
    × (answer.body ≡ some window)
    × ((name : Text)
        → (window.start ≤ renewal_time no_hash no_format name window.start window.end)
          × (renewal_time no_hash no_format name window.start window.end ≤ window.end)))
renewal_time-fetch_renewal_info_example =
    renewal_time-fetch_renewal_info no_hash no_format answer window

-- An encoding without dots: each byte as one character after them.
abbrev shifted : List ℕ → Text
shifted [] = []
shifted (b ∷ bs) = (b + 47) ∷ shifted bs

shifted-injective : (x y : List ℕ) → shifted x ≡ shifted y → x ≡ y
shifted-injective [] [] e = refl
shifted-injective [] (c ∷ y) e = cc
shifted-injective (b ∷ x) [] e = cc
shifted-injective (b ∷ x) (c ∷ y) e = ground (arith, shifted-injective x y, e)

shifted-dotless : (x : List ℕ) → contains_byte 46 (shifted x) ≡ false
unfolding contains_byte
shifted-dotless [] = refl
shifted-dotless (b ∷ x) = ground (arith, shifted-dotless x)

abbrev a_leaf : Leaf
a_leaf = record { authority_key_id = 1 ∷ 2 ∷ []; serial_bytes = 200 ∷ 3 ∷ [] }

cert_id_injective_example :
    (a_leaf.authority_key_id ≡ a_leaf.authority_key_id)
    × (a_leaf.serial_bytes ≡ a_leaf.serial_bytes)
unfolding cert_id
cert_id_injective_example =
    cert_id_injective shifted shifted-injective shifted-dotless a_leaf a_leaf
      (shifted (1 ∷ 2 ∷ []) ++ 46 ∷ shifted (der_serial (200 ∷ 3 ∷ []))) (omega arith) (omega arith)
      refl refl
