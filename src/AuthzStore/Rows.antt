-- ===== src/AuthzStore/Rows.antt =====
-- The rows that the statements of internal/state/authz.go leave.
use wecert.Base.{
  ℕ, ◌≡◌, inl, inr, Bool, true, false, not, ◌&&◌, ◌||◌, Option, none, some, if◌then◌else◌, List, [],
  ◌∷◌, Text, text_eq, text_eq_iff, arith, refl, ap, ◌∙◌, Bool-cases, length, suc, ◌+◌,
}
use wecert.Base.Time.{Time}
use wecert.CertStore.{stored}
use wecert.AuthzStore.{
  AuthzRow, AuthzTable, has_key, is_set, without_rows, delete_authorization, update_rows, stuck_row,
  mark_stuck, cleared_row, clear_stuck,
}

-- There is a row of the key.
unfoldable pub has_row : Text → Text → List AuthzRow → Bool
has_row cert url [] = false
has_row cert url (r ∷ rs) = has_key cert url r.authz || has_row cert url rs

abbrev pub same_key : Text → Text → Text → Text → Bool
same_key c u cert url = text_eq c cert && text_eq u url

pub has_row-without_rows :
    (c u cert url : Text) (rs : List AuthzRow)
    → has_row c u (without_rows (has_key cert url) rs)
      ≡ (has_row c u rs && not (same_key c u cert url))
unfolding has_row without_rows
has_row-without_rows c u cert url [] = refl
has_row-without_rows c u cert url (r ∷ rs) = ground (
  arith,
  text_eq_iff r.authz.cert_name cert,
  text_eq_iff r.authz.cert_name c,
  text_eq_iff r.authz.authz_url url,
  text_eq_iff r.authz.authz_url u,
  text_eq_iff c cert,
  text_eq_iff u url,
  has_row-without_rows c u cert url rs,
)

pub has_row-update_rows :
    (f : AuthzRow → AuthzRow)
    → ((r : AuthzRow) → (f r).authz ≡ r.authz)
    → (c u cert url : Text) (rs : List AuthzRow)
    → has_row c u (update_rows f cert url rs) ≡ has_row c u rs
unfolding has_row update_rows
has_row-update_rows f keeps c u cert url [] = refl
has_row-update_rows f keeps c u cert url (r ∷ rs) = elim (Bool-cases (has_key cert url r.authz)) [
  | inl e ↦ rw (e, keeps r, has_row-update_rows f keeps c u cert url rs) refl
  | inr e ↦ rw (e, has_row-update_rows f keeps c u cert url rs) refl
]

pub has_row-mark_stuck :
    (c u cert url msg : Text) (now : Time) (t : AuthzTable)
    → has_row c u (mark_stuck t cert url msg now).0.rows ≡ has_row c u t.rows
unfolding mark_stuck stuck_row
has_row-mark_stuck c u cert url msg now t = elim (Bool-cases t.writes) [
  | inl e ↦ rw e (has_row-update_rows (stuck_row msg now) (λ r. refl) c u cert url t.rows)
  | inr e ↦ rw e refl
]

pub has_row-clear_stuck :
    (c u cert url : Text) (t : AuthzTable)
    → has_row c u (clear_stuck t cert url).0.rows ≡ has_row c u t.rows
unfolding clear_stuck
has_row-clear_stuck c u cert url t = elim (Bool-cases t.writes) [
  | inl e ↦ rw e (has_row-update_rows cleared_row (λ r. refl) c u cert url t.rows)
  | inr e ↦ rw e refl
]

-- A deletion removes a row of its own key only.
pub delete_authorization-other :
    (c u cert url : Text) (t : AuthzTable)
    → has_row c u t.rows ≡ true
    → has_row c u (delete_authorization t cert url).0.rows ≡ false
    → same_key c u cert url ≡ true
unfolding delete_authorization
delete_authorization-other c u cert url t h g = elim (Bool-cases t.writes) [
  | inl e ↦ ground (arith, h, g, e, has_row-without_rows c u cert url t.rows)
  | inr e ↦ ground (arith, h, g, e)
]

-- The row of a key, if there is one.
unfoldable pub row_of : Text → Text → List AuthzRow → Option AuthzRow
row_of cert url [] = none
row_of cert url (r ∷ rs) =
    let rest = row_of cert url rs in if has_key cert url r.authz then some r else rest

map_row : (AuthzRow → AuthzRow) → Option AuthzRow → Option AuthzRow
map_row f none = none
map_row f (some r) = some (f r)

row_of-update_rows :
    (f : AuthzRow → AuthzRow)
    → ((r : AuthzRow) → (f r).authz ≡ r.authz)
    → (cert url : Text) (rs : List AuthzRow)
    → row_of cert url (update_rows f cert url rs) ≡ map_row f (row_of cert url rs)
unfolding row_of update_rows map_row
row_of-update_rows f keeps cert url [] = refl
row_of-update_rows f keeps cert url (q ∷ rs) = elim (Bool-cases (has_key cert url q.authz)) [
  | inl e ↦
      let k : has_key cert url (f q).authz ≡ true = ap (has_key cert url) (keeps q) ∙ e in
      rw (e, k) refl
  | inr e ↦ rw (e, e) (row_of-update_rows f keeps cert url rs)
]

-- Failures to reclaim a record, one after another.
unfoldable pub mark_all : AuthzTable → Text → Text → List (Text × Time) → AuthzTable
unfolding mark_stuck
mark_all t cert url [] = t
mark_all t cert url ((msg, now) ∷ fails) = mark_all (mark_stuck t cert url msg now).0 cert url fails

row_of-mark_stuck :
    (t : AuthzTable) (cert url msg : Text) (now : Time)
    → t.writes ≡ true
    → row_of cert url (mark_stuck t cert url msg now).0.rows
      ≡ map_row (stuck_row msg now) (row_of cert url t.rows)
unfolding mark_stuck stuck_row
row_of-mark_stuck t cert url msg now w =
    rw w (row_of-update_rows (stuck_row msg now) (λ r. refl) cert url t.rows)

writes-mark_stuck :
    (t : AuthzTable) (cert url msg : Text) (now : Time)
    → t.writes ≡ true
    → (mark_stuck t cert url msg now).0.writes ≡ true
unfolding mark_stuck
writes-mark_stuck t cert url msg now w = rw w refl

-- What a row shows of the failures since it got stuck.
abbrev pub StuckSince : Time → ℕ → Option AuthzRow → Type 0
StuckSince since n o =
    (r : AuthzRow) × (o ≡ some r) × (r.reclaim_stuck_since ≡ since) × (r.reclaim_attempts ≡ n)

StuckSince-mark_all :
    (fails : List (Text × Time)) (t : AuthzTable) (cert url : Text) (since : Time) (n : ℕ)
    → t.writes ≡ true
    → is_set since ≡ true
    → StuckSince since n (row_of cert url t.rows)
    → StuckSince since (n + length fails) (row_of cert url (mark_all t cert url fails).rows)
unfolding mark_all stuck_row map_row
StuckSince-mark_all [] t cert url since n w set (r, e, k, m) = (r, e, k, ground (arith, m))
StuckSince-mark_all ((msg, now) ∷ fails) t cert url since n w set (r, e, k, m) =
    let q : row_of cert url (mark_stuck t cert url msg now).0.rows ≡ some (stuck_row msg now r) =
      row_of-mark_stuck t cert url msg now w ∙ ap (map_row (stuck_row msg now)) e in
    let (r', e', k', m') =
      StuckSince-mark_all fails (mark_stuck t cert url msg now).0 cert url since (suc n)
        (writes-mark_stuck t cert url msg now w) set
        (stuck_row msg now r, q, ground (arith, k, set), ground (arith, m)) in
    (r', e', k', ground (arith, m'))

-- However often a record then fails to be reclaimed, its row is stuck since the first failure, and
-- counts all of them. This is for a table that is written, a row that was not stuck, and a clock that is
-- past 1970.
pub StuckSince-mark_all_first :
    (t : AuthzTable) (cert url msg : Text) (now : Time) (fails : List (Text × Time)) (r : AuthzRow)
    → t.writes ≡ true
    → row_of cert url t.rows ≡ some r
    → is_set r.reclaim_stuck_since ≡ false
    → is_set (stored now) ≡ true
    → StuckSince
        (stored now)
        (r.reclaim_attempts + suc (length fails))
        (row_of cert url (mark_all t cert url ((msg, now) ∷ fails)).rows)
unfolding mark_all stuck_row map_row
StuckSince-mark_all_first t cert url msg now fails r w e fresh set =
    let q : row_of cert url (mark_stuck t cert url msg now).0.rows ≡ some (stuck_row msg now r) =
      row_of-mark_stuck t cert url msg now w ∙ ap (map_row (stuck_row msg now)) e in
    let (r', e', k', m') =
      StuckSince-mark_all fails (mark_stuck t cert url msg now).0 cert url (stored now)
        (suc r.reclaim_attempts) (writes-mark_stuck t cert url msg now w) set
        (stuck_row msg now r, q, ground (arith, fresh), refl) in
    (r', e', k', ground (arith, m'))
