-- ===== src/Cooldown.antt =====
-- The maps of internal/acme/manager.go that hold a certificate, an identifier or an order back, and
-- internal/state/identifier_by_name.go, which seeds them. Each function runs under the mutex of its
-- map.
pub mod Restart
pub mod Counters
use wecert.Base.{
  ℕ, zero, suc, ◌+◌, ◌≡◌, Bool, true, false, not, ◌&&◌, ◌||◌, Option, none, some, if◌then◌else◌,
  List, [], ◌∷◌, Text, text_eq, text_le, mem, ltb, leb, ◌==◌, length, Result, ok, err, is_some,
}
use wecert.Base.Assoc.{Assoc, lookup, put, remove, reject}
use wecert.Base.Int.{pos}
use wecert.Base.Time.{Time, is_zero, before, after, add, hour, from_unix}
use wecert.FallbackStore.{FailureRow, IdentifierFailure, Store, StoreError, read_failed}

-- ORDER BY cert_name
unfoldable pub insert_by_cert : IdentifierFailure → List IdentifierFailure → List IdentifierFailure
insert_by_cert f [] = f ∷ []
insert_by_cert f (g ∷ gs) =
    let rest = insert_by_cert f gs in
    if text_le f.cert_name g.cert_name then f ∷ g ∷ gs else g ∷ rest

-- The rows of one identifier, in order.
unfoldable pub failures_named : Text → List FailureRow → List IdentifierFailure
unfolding insert_by_cert
failures_named identifier [] = []
failures_named identifier (r ∷ rs) =
    let rest = failures_named identifier rs in
    if text_eq r.name identifier
    then insert_by_cert
        (record {
          cert_name = r.cert;
          identifier = r.name;
          failures = r.count;
          last_error = r.error;
          last_failed_at = from_unix r.failed_at;
        })
        rest
    else rest

unfoldable pub list_by_identifier : Store → Text → Result StoreError (List IdentifierFailure)
unfolding failures_named
list_by_identifier s identifier =
    if s.reads then ok (failures_named identifier s.identifier_failures) else err read_failed

abbrev pub max_order_fetch_failures : ℕ
max_order_fetch_failures = 4

abbrev pub identifier_cooldown_for : ℕ
identifier_cooldown_for = hour

abbrev pub cooldown_map_limit : ℕ
cooldown_map_limit = 512

-- The maps of the Manager; a set is the list of its entries.
pub record Memory : Type 0 where
  pub transient_backoff : Assoc Time
  pub order_fetch_fails : Assoc ℕ
  pub identifier_cooldown : Assoc Time
  pub spent_cert_urls : List Text

-- The maps of a manager that has just started.
abbrev pub new_memory : Memory
new_memory = record {
  transient_backoff = [];
  order_fetch_fails = [];
  identifier_cooldown = [];
  spent_cert_urls = [];
}

unfoldable pub prune_expired : Assoc Time → Time → ℕ → Assoc Time
prune_expired m now limit = if ltb (length m) limit then m else reject (λ at. not (before now at)) m

unfoldable pub transient_backoff_for : Memory → Text → Time → Memory × Option Time
transient_backoff_for m cert now = elim (lookup cert m.transient_backoff) [
  | none ↦ (m, none)
  | some until ↦
      if not (before now until)
      then (record m { transient_backoff = remove cert m.transient_backoff }, none)
      else (m, some until)
]

unfoldable pub set_transient_backoff : Memory → Text → Time → Time → Memory
set_transient_backoff m cert until now = record m {
  transient_backoff = prune_expired (put cert until m.transient_backoff) now cooldown_map_limit;
}

-- m[k], with the zero value of a missing key.
abbrev pub count_at : Text → Assoc ℕ → ℕ
count_at k m = elim (lookup k m) [ none ↦ 0 | some n ↦ n ]

unfoldable pub note_order_fetch_failure : Memory → Text → Memory × Bool
note_order_fetch_failure m url =
    let n = count_at url m.order_fetch_fails + 1 in
    let counted = put url n m.order_fetch_fails in
    if leb max_order_fetch_failures n
    then (record m { order_fetch_fails = remove url counted }, true)
    else (record m { order_fetch_fails = counted }, false)

unfoldable pub clear_order_fetch_failures : Memory → Text → Memory
clear_order_fetch_failures m url = record m { order_fetch_fails = remove url m.order_fetch_fails }

-- The loop that looks for the latest failure.
unfoldable pub latest_from : Time → List IdentifierFailure → Time
latest_from latest [] = latest
latest_from latest (r ∷ rs) =
    latest_from (if after r.last_failed_at latest then r.last_failed_at else latest) rs

-- persistedCooldown once the rows are read.
unfoldable pub seeded_from : Time → Result StoreError (List IdentifierFailure) → Option Time
unfolding latest_from
seeded_from now (err e) = none
seeded_from now (ok rows) =
    let latest = latest_from 0 rows in
    let until = add latest (pos identifier_cooldown_for) in
    if is_zero latest then none else if before now until then some until else none

-- persistedCooldown; a manager without a store has `none`.
unfoldable pub persisted_cooldown : Option Store → Text → Time → Option Time
unfolding seeded_from
persisted_cooldown none identifier now = none
persisted_cooldown (some s) identifier now =
    if text_eq identifier [] then none else seeded_from now (list_by_identifier s identifier)

-- The deadline in the map, if it is still to come.
abbrev pub running : Time → Option Time → Option Time
running now none = none
running now (some until) = if not (before now until) then none else some until

-- The loop of coolingDown over the names.
unfoldable pub cooling_from :
    Option Store → Assoc Time → List Text → Time → Assoc Time × Option (Text × Time)
cooling_from store m [] now = (m, none)
cooling_from store m (d ∷ ds) now = elim (running now (lookup d m)) [
  | some until ↦ (m, some (d, until))
  | none ↦
      let m' = if is_some (lookup d m) then remove d m else m in
      let next = cooling_from store m' ds now in
      elim (persisted_cooldown store d now) [
        | some seeded ↦ (put d seeded m', some (d, seeded))
        | none ↦ next
      ]
]

unfoldable pub cooling_down :
    Option Store → Memory → List Text → Time → Memory × Option (Text × Time)
unfolding cooling_from
cooling_down store m domains now =
    let (cooldowns, answer) = cooling_from store m.identifier_cooldown domains now in
    (record m { identifier_cooldown = cooldowns }, answer)

unfoldable pub note_identifier_failure : Memory → Text → Time → Memory
unfolding prune_expired
note_identifier_failure m identifier now = if text_eq identifier [] then m else record m {
  identifier_cooldown =
      prune_expired (put identifier (add now (pos identifier_cooldown_for)) m.identifier_cooldown)
        now cooldown_map_limit;
}

unfoldable pub clear_identifier_cooldown : Memory → Text → Memory
clear_identifier_cooldown m identifier =
    if text_eq identifier []
    then m
    else record m { identifier_cooldown = remove identifier m.identifier_cooldown }

unfoldable pub note_cert_spend : Memory → Text → Memory × Bool
note_cert_spend m url =
    if mem url m.spent_cert_urls
    then (m, false)
    else (record m { spent_cert_urls = url ∷ m.spent_cert_urls }, true)
