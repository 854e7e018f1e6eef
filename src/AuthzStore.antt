-- ===== src/AuthzStore.antt =====
-- internal/state/authz.go: the rows of the authorizations, which are also the queue of the TXT records
-- that could not be reclaimed. The table is in the order of its key; an instant is stored to the second.
pub mod Rows
use wecert.Base.{
  ℕ, zero, suc, ◌+◌, ◌*◌, ◌≡◌, Bool, true, false, not, ◌&&◌, ◌||◌, Option, none, some,
  if◌then◌else◌, List, [], ◌∷◌, Text, text_eq, text_le, ltb, leb, ◌==◌, Result, ok, err,
}
use wecert.Base.Time.{Time, second, unix_epoch}
use wecert.CertStore.{TableError, read_failed, write_failed, nil_row, stored}
use wecert.Truncate.{take, max_last_error_bytes}

pub record Authorization : Type 0 where
  pub cert_name : Text
  pub authz_url : Text
  pub identifier : Text
  pub status : Text
  pub challenge_url : Text
  pub challenge_token : Text
  pub txt_name : Text
  pub txt_value : Text
  pub presented : Bool
  pub challenge_sent : Bool
  pub challenge_prepared_at : Time

-- A row: what PutAuthorization writes, and the three columns that it does not name.
pub record AuthzRow : Type 0 where
  pub authz : Authorization
  pub reclaim_attempts : ℕ
  pub reclaim_last_error : Text
  pub reclaim_stuck_since : Time

pub record AuthzTable : Type 0 where
  pub rows : List AuthzRow
  pub reads : Bool
  pub writes : Bool

-- What is above 0 in a column of seconds.
abbrev pub is_set : Time → Bool
is_set t = ltb (unix_epoch * second) t

-- The row of a key.
abbrev pub has_key : Text → Text → Authorization → Bool
has_key cert url a = text_eq a.cert_name cert && text_eq a.authz_url url

-- The order of the key.
unfoldable pub key_before : Authorization → Authorization → Bool
key_before a b =
    if text_eq a.cert_name b.cert_name
    then text_le a.authz_url b.authz_url
    else text_le a.cert_name b.cert_name

unfoldable pub new_row : Authorization → AuthzRow
unfolding stored
new_row a = record {
  authz = record a { challenge_prepared_at = stored a.challenge_prepared_at };
  reclaim_attempts = 0;
  reclaim_last_error = [];
  reclaim_stuck_since = 0;
}

-- The conflict clause: an age that the writer does not know is kept.
unfoldable pub updated_row : Authorization → AuthzRow → AuthzRow
unfolding stored
updated_row a r = record r {
  authz = record a {
    challenge_prepared_at =
        if is_set (stored a.challenge_prepared_at)
        then stored a.challenge_prepared_at
        else r.authz.challenge_prepared_at;
  };
}

unfoldable pub put_row : Authorization → List AuthzRow → List AuthzRow
unfolding new_row updated_row key_before
put_row a [] = new_row a ∷ []
put_row a (r ∷ rs) =
    let rest = put_row a rs in
    if has_key a.cert_name a.authz_url r.authz
    then updated_row a r ∷ rs
    else if key_before a r.authz
    then new_row a ∷ r ∷ rs
    else r ∷ rest

-- PutAuthorization; a nil authorization is `none`.
unfoldable pub put_authorization :
    AuthzTable → Option Authorization → AuthzTable × Option TableError
unfolding put_row
put_authorization s none = (s, some nil_row)
put_authorization s (some a) =
    if s.writes then (record s { rows = put_row a s.rows }, none) else (s, some write_failed)

unfoldable pub rows_of : (Authorization → Bool) → List AuthzRow → List Authorization
rows_of p [] = []
rows_of p (r ∷ rs) = let rest = rows_of p rs in if p r.authz then r.authz ∷ rest else rest

-- ListAuthorizations
unfoldable pub list_authorizations : AuthzTable → Text → Result TableError (List Authorization)
unfolding rows_of
list_authorizations s cert =
    if s.reads then ok (rows_of (λ a. text_eq a.cert_name cert) s.rows) else err read_failed

-- ListPresentedAuthorizations, in the order of the table
unfoldable pub list_presented : AuthzTable → Result TableError (List Authorization)
unfolding rows_of
list_presented s = if s.reads then ok (rows_of (λ a. a.presented) s.rows) else err read_failed

unfoldable pub without_rows : (Authorization → Bool) → List AuthzRow → List AuthzRow
without_rows p [] = []
without_rows p (r ∷ rs) = let rest = without_rows p rs in if p r.authz then rest else r ∷ rest

unfoldable pub delete_authorizations : AuthzTable → Text → AuthzTable × Option TableError
unfolding without_rows
delete_authorizations s cert =
    if s.writes
    then (record s { rows = without_rows (λ a. text_eq a.cert_name cert) s.rows }, none)
    else (s, some write_failed)

unfoldable pub delete_authorization : AuthzTable → Text → Text → AuthzTable × Option TableError
unfolding without_rows
delete_authorization s cert url =
    if s.writes
    then (record s { rows = without_rows (has_key cert url) s.rows }, none)
    else (s, some write_failed)

-- UPDATE authorizations SET ... WHERE cert_name = ? AND authz_url = ?
unfoldable pub update_rows : (AuthzRow → AuthzRow) → Text → Text → List AuthzRow → List AuthzRow
update_rows f cert url [] = []
update_rows f cert url (r ∷ rs) =
    let rest = update_rows f cert url rs in
    if has_key cert url r.authz then f r ∷ rest else r ∷ rest

-- The row past MarkTXTReclaimStuck; the text of the error is cut, at whatever byte.
unfoldable pub stuck_row : Text → Time → AuthzRow → AuthzRow
unfolding stored
stuck_row msg now r = record r {
  reclaim_attempts = suc r.reclaim_attempts;
  reclaim_last_error = take max_last_error_bytes msg;
  reclaim_stuck_since = if is_set r.reclaim_stuck_since then r.reclaim_stuck_since else stored now;
}

unfoldable pub mark_stuck : AuthzTable → Text → Text → Text → Time → AuthzTable × Option TableError
unfolding update_rows stuck_row
mark_stuck s cert url msg now =
    if s.writes
    then (record s { rows = update_rows (stuck_row msg now) cert url s.rows }, none)
    else (s, some write_failed)

abbrev pub cleared_row : AuthzRow → AuthzRow
cleared_row r = record r { reclaim_attempts = 0; reclaim_last_error = []; reclaim_stuck_since = 0 }

unfoldable pub clear_stuck : AuthzTable → Text → Text → AuthzTable × Option TableError
unfolding update_rows
clear_stuck s cert url =
    if s.writes
    then (record s { rows = update_rows cleared_row cert url s.rows }, none)
    else (s, some write_failed)

-- ORDER BY reclaim_stuck_since, cert_name, txt_name
unfoldable pub stuck_before : AuthzRow → AuthzRow → Bool
stuck_before q r =
    if not (q.reclaim_stuck_since == r.reclaim_stuck_since)
    then ltb q.reclaim_stuck_since r.reclaim_stuck_since
    else if not (text_eq q.authz.cert_name r.authz.cert_name)
    then text_le q.authz.cert_name r.authz.cert_name
    else text_le q.authz.txt_name r.authz.txt_name

unfoldable pub insert_stuck : AuthzRow → List AuthzRow → List AuthzRow
unfolding stuck_before
insert_stuck r [] = r ∷ []
insert_stuck r (q ∷ qs) =
    let rest = insert_stuck r qs in if stuck_before r q then r ∷ q ∷ qs else q ∷ rest

unfoldable pub stuck_rows : List AuthzRow → List AuthzRow
unfolding insert_stuck
stuck_rows [] = []
stuck_rows (r ∷ rs) =
    let rest = stuck_rows rs in if is_set r.reclaim_stuck_since then insert_stuck r rest else rest

-- ListStuckTXTReclaims
unfoldable pub list_stuck : AuthzTable → Result TableError (List AuthzRow)
unfolding stuck_rows
list_stuck s = if s.reads then ok (stuck_rows s.rows) else err read_failed
