-- ===== src/Cooldown/Restart.antt =====
-- The cooldown of an identifier outlives a restart: internal/acme/manager.go seeds it from the ledger
-- of internal/state/fallback.go.
use wecert.Base.{
  ◌+◌, ◌*◌, ◌/◌, ◌≤◌, ◌<◌, ◌≡◌, ◌≢◌, ◌⊎◌, inl, inr, true, Option, none, some, if◌then◌else◌, List,
  [], ◌∷◌, Text, text_eq_iff, text_eq_refl, mem, arith, is_some, ok,
}
use wecert.Base.Assoc.{Assoc, lookup, remove}
use wecert.Base.Int.{ℤ}
use wecert.Base.Time.{Time, second, unix_epoch, add, from_unix, after}
use wecert.FallbackStore.{
  FailureRow, IdentifierFailure, Store, unix, count_row, record_identifier_failure,
}
use wecert.Cooldown.{
  Memory, insert_by_cert, failures_named, list_by_identifier, latest_from, seeded_from,
  persisted_cooldown, cooling_from, cooling_down, identifier_cooldown_for,
}

-- A failure of that instant is among them.
abbrev HasTime : Time → List IdentifierFailure → Type 0
HasTime x [] = ⊥
HasTime x (f ∷ fs) = (f.last_failed_at ≡ x) ⊎ HasTime x fs

abbrev HasRow : Text → ℤ → List FailureRow → Type 0
HasRow name v [] = ⊥
HasRow name v (r ∷ rs) = ((r.name ≡ name) × (r.failed_at ≡ v)) ⊎ HasRow name v rs

HasTime-insert_by_cert :
    (x : Time) (f : IdentifierFailure) (fs : List IdentifierFailure)
    → (f.last_failed_at ≡ x) ⊎ HasTime x fs
    → HasTime x (insert_by_cert f fs)
unfolding insert_by_cert
HasTime-insert_by_cert x f [] h = ground arith
HasTime-insert_by_cert x f (g ∷ gs) h = ground (arith, HasTime-insert_by_cert x f gs)

HasTime-failures_named :
    (name : Text) (v : ℤ) (rs : List FailureRow)
    → HasRow name v rs
    → HasTime (from_unix v) (failures_named name rs)
unfolding failures_named
HasTime-failures_named name v [] h = elim h [ ]
HasTime-failures_named name v (r ∷ rs) (inl h) = grind (
  arith,
  text_eq_refl name,
  HasTime-insert_by_cert (from_unix v)
      (record {
        cert_name = r.cert;
        identifier = r.name;
        failures = r.count;
        last_error = r.error;
        last_failed_at = from_unix r.failed_at;
      })
      (failures_named name rs),
)
HasTime-failures_named name v (r ∷ rs) (inr h) = grind (
  arith,
  HasTime-failures_named name v rs h,
  HasTime-insert_by_cert (from_unix v)
      (record {
        cert_name = r.cert;
        identifier = r.name;
        failures = r.count;
        last_error = r.error;
        last_failed_at = from_unix r.failed_at;
      })
      (failures_named name rs),
)

HasRow-count_row :
    (cert name msg : Text) (now : Time) (rs : List FailureRow)
    → HasRow name (unix now) (count_row cert name msg now rs)
unfolding count_row
HasRow-count_row cert name msg now [] = ground arith
HasRow-count_row cert name msg now (r ∷ rs) =
    ground (arith, HasRow-count_row cert name msg now rs, text_eq_iff r.name name)

le-latest_from : (z : Time) (fs : List IdentifierFailure) → z ≤ latest_from z fs
unfolding latest_from
le-latest_from z [] = omega arith
le-latest_from z (f ∷ fs) =
    ground (arith, le-latest_from (if after f.last_failed_at z then f.last_failed_at else z) fs)

HasTime-latest_from :
    (x z : Time) (fs : List IdentifierFailure) → HasTime x fs → x ≤ latest_from z fs
unfolding latest_from
HasTime-latest_from x z [] h = elim h [ ]
HasTime-latest_from x z (f ∷ fs) h = ground (
  arith,
  le-latest_from (if after f.last_failed_at z then f.last_failed_at else z) fs,
  HasTime-latest_from x (if after f.last_failed_at z then f.last_failed_at else z) fs,
)

from_unix-unix : (t : Time) → unix_epoch < t / second → from_unix (unix t) ≡ t / second * second
unfolding from_unix unix
from_unix-unix t h = ground arith

-- A ledger that holds a failure of that instant.
seeded_from-HasTime :
    (x now : Time) (fs : List IdentifierFailure)
    → HasTime x fs
    → x ≢ 0
    → now < x + identifier_cooldown_for
    → is_some (seeded_from now (ok fs)) ≡ true
unfolding seeded_from add
seeded_from-HasTime x now fs h n l = ground (arith, HasTime-latest_from x 0 fs h)

-- A recorded failure holds its identifier back for the hour after its second.
persisted_cooldown-record :
    (s : Store) (cert name msg : Text) (t now : Time)
    → s.reads ≡ true
    → s.writes ≡ true
    → name ≢ []
    → unix_epoch < t / second
    → now < t / second * second + identifier_cooldown_for
    → is_some (persisted_cooldown (some (record_identifier_failure s cert name msg t).0) name now)
      ≡ true
unfolding persisted_cooldown record_identifier_failure list_by_identifier
persisted_cooldown-record s cert name msg t now r w n e h =
    let rows = count_row cert name msg t s.identifier_failures in
    let seeded =
      seeded_from-HasTime (t / second * second) now (failures_named name rows)
        (rw (← from_unix-unix t e) (
          HasTime-failures_named name (unix t) rows
            (HasRow-count_row cert name msg t s.identifier_failures)))
        (omega arith) h in
    grind (arith, text_eq_iff name [], seeded)

cooling_from-persisted :
    (store : Option Store) (m : Assoc Time) (ds : List Text) (d : Text) (now : Time)
    → mem d ds ≡ true
    → is_some (persisted_cooldown store d now) ≡ true
    → is_some (cooling_from store m ds now).1 ≡ true
unfolding mem cooling_from
cooling_from-persisted store m [] d now h p = cc
cooling_from-persisted store m (x ∷ ds) d now h p = grind (
  arith,
  text_eq_iff d x,
  cooling_from-persisted store (if is_some (lookup x m) then remove x m else m) ds d now,
)

-- A failure that is recorded in the ledger, under whatever certificate, holds its identifier back for
-- an hour from its second, in every manager over that store whatever it remembers, one that has just
-- started included: while the database answers, a list of names with this one in it is cooling down.
-- This is for a name that is not blank and a time after 1970.
pub cooling_down-record_identifier_failure :
    (s : Store) (cert name msg : Text) (t now : Time) (m : Memory) (domains : List Text)
    → s.reads ≡ true
    → s.writes ≡ true
    → name ≢ []
    → unix_epoch < t / second
    → now < t / second * second + identifier_cooldown_for
    → mem name domains ≡ true
    → is_some (cooling_down (some (record_identifier_failure s cert name msg t).0) m domains now).1
      ≡ true
unfolding cooling_down
cooling_down-record_identifier_failure s cert name msg t now m domains r w n e h i =
    cooling_from-persisted (some (record_identifier_failure s cert name msg t).0)
      m.identifier_cooldown domains name now i
      (persisted_cooldown-record s cert name msg t now r w n e h)

persisted_cooldown_later :
    (store : Option Store) (d : Text) (now until : Time)
    → persisted_cooldown store d now ≡ some until
    → now < until
unfolding persisted_cooldown seeded_from list_by_identifier
persisted_cooldown_later none d now until h = cc
persisted_cooldown_later (some s) d now until h = ground arith

cooling_from_lem :
    (store : Option Store) (m : Assoc Time) (ds : List Text) (now : Time) (d : Text) (until : Time)
    → (cooling_from store m ds now).1 ≡ some (d, until)
    → (mem d ds ≡ true) × (now < until)
unfolding cooling_from mem
cooling_from_lem store m [] now d until h = cc
cooling_from_lem store m (x ∷ ds) now d until h = grind (
  arith,
  text_eq_refl d,
  persisted_cooldown_later store x now until,
  cooling_from_lem store (if is_some (lookup x m) then remove x m else m) ds now d until,
)

-- What is named as cooling down is one of the names asked about, and its cooldown is still to come.
pub cooling_down_lem :
    (store : Option Store) (m : Memory) (domains : List Text) (now : Time) (d : Text) (until : Time)
    → (cooling_down store m domains now).1 ≡ some (d, until)
    → (mem d domains ≡ true) × (now < until)
unfolding cooling_down
cooling_down_lem store m domains now d until h =
    cooling_from_lem store m.identifier_cooldown domains now d until h
