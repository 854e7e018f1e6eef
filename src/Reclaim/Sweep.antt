-- ===== src/Reclaim/Sweep.antt =====
-- internal/acme/flow_cleanup.go and internal/acme/txt_reclaim_guard.go: the loops over the rows whose
-- records are to be reclaimed, of a certificate and of the queue.
use wecert.Base.{
  ℕ, zero, suc, Bool, true, false, Option, none, some, if◌then◌else◌, List, [], ◌∷◌, Text, text_eq,
  Result, ok, err,
}
use wecert.Base.Int.{ltb_ℤ, pos}
use wecert.Base.Time.{Time, Duration, is_zero, sub}
use wecert.Leases.{Provider}
use wecert.CertStore.{TableError}
use wecert.AuthzStore.{
  Authorization, AuthzRow, list_authorizations, put_authorization, delete_authorization, mark_stuck,
  clear_stuck, list_stuck,
}
use wecert.Reclaim.{
  TxtReclaim, reclaimed, kept_propagating, ReclaimError, missing_txt_clue, Surroundings, Held,
  register_recovered_leases, remove_authz_txt, reclaim_unpresented_txt,
}

module _ {p : Provider} (s : Surroundings p) where
  -- Past the clean-up of one authorization of cleanup, with the one that stays in memory.
  unfoldable pub unmarked :
      Held p → Authorization → Result ReclaimError Bool → Held p × Authorization
  unfolding put_authorization
  unmarked h a (err e) = (h, a)
  unmarked h a (ok false) = (h, a)
  unmarked h a (ok true) =
      let a' = record a { presented = false } in
      (record h { authz = (put_authorization h.authz (some a')).0 }, a')

  unfoldable pub cleaned_rows : Held p → List Authorization → Held p × List Authorization
  unfolding remove_authz_txt unmarked
  cleaned_rows h [] = (h, [])
  cleaned_rows h (a ∷ authzs) =
      let (h1, removed) = remove_authz_txt s h a in
      let (h2, a') = unmarked h1 a removed in
      let (h3, rest) = cleaned_rows h2 authzs in (h3, a' ∷ rest)

  unfoldable pub cleanup : Held p → List Authorization → Held p × List Authorization
  unfolding cleaned_rows register_recovered_leases
  cleanup h authzs = cleaned_rows (register_recovered_leases s h) authzs

  -- markReclaimStuck
  unfoldable pub mark_reclaim_stuck : Held p → Authorization → ReclaimError → Held p
  unfolding mark_stuck
  mark_reclaim_stuck h a e = record h {
    authz = (mark_stuck h.authz a.cert_name a.authz_url (s.describe e) s.now).0;
  }

  unfoldable pub drop_authz_row : Held p → Authorization → Held p
  unfolding delete_authorization
  drop_authz_row h a = record h { authz = (delete_authorization h.authz a.cert_name a.authz_url).0 }

  unfoldable pub drop_cleared_row : Held p → Authorization → Held p
  unfolding clear_stuck drop_authz_row
  drop_cleared_row h a =
      drop_authz_row (record h { authz = (clear_stuck h.authz a.cert_name a.authz_url).0 }) a

  -- Past the removal of a presented row of cleanupOrphanTXT.
  unfoldable pub past_removal : Authorization → Held p × Result ReclaimError Bool → Held p
  unfolding mark_reclaim_stuck drop_cleared_row
  past_removal a (h, err e) = mark_reclaim_stuck h a e
  past_removal a (h, ok false) = mark_reclaim_stuck h a missing_txt_clue
  past_removal a (h, ok true) = drop_cleared_row h a

  -- Past the probe of a row that was not presented.
  unfoldable pub past_reclaim : Authorization → Held p × Result ReclaimError TxtReclaim → Held p
  unfolding mark_reclaim_stuck drop_authz_row
  past_reclaim a (h, err e) = mark_reclaim_stuck h a e
  past_reclaim a (h, ok kept_propagating) = h
  past_reclaim a (h, ok reclaimed) = drop_authz_row h a

  -- One round of the loop of cleanupOrphanTXT.
  unfoldable pub clean_orphan : Held p → Authorization → Held p
  unfolding remove_authz_txt reclaim_unpresented_txt drop_authz_row past_removal past_reclaim
  clean_orphan h a =
      if a.presented
      then past_removal a (remove_authz_txt s h a)
      else if text_eq a.challenge_token []
      then drop_authz_row h a
      else past_reclaim a (reclaim_unpresented_txt s h a)

  unfoldable pub clean_orphans : Held p → List Authorization → Held p
  unfolding clean_orphan
  clean_orphans h [] = h
  clean_orphans h (a ∷ authzs) = clean_orphans (clean_orphan h a) authzs

  abbrev pub walked : Held p → Result TableError (List Authorization) → Held p × Option TableError
  walked h (err e) = (h, some e)
  walked h (ok authzs) = (clean_orphans h authzs, none)

  -- cleanupOrphanTXT, less what it counts for its log lines
  unfoldable pub cleanup_orphan_txt : Held p → Text → Held p × Option TableError
  unfolding clean_orphans register_recovered_leases list_authorizations
  cleanup_orphan_txt h cert =
      let h' = register_recovered_leases s h in walked h' (list_authorizations h'.authz cert)

  -- What a removal says of the record.
  unfoldable pub as_reclaim : Result ReclaimError Bool → Result ReclaimError TxtReclaim
  as_reclaim (err e) = err e
  as_reclaim (ok false) = err missing_txt_clue
  as_reclaim (ok true) = ok reclaimed

  unfoldable pub reclaim_one_stuck :
      Held p → Authorization → Held p × Result ReclaimError TxtReclaim
  unfolding remove_authz_txt reclaim_unpresented_txt as_reclaim
  reclaim_one_stuck h a =
      let (h', removed) = remove_authz_txt s h a in
      if a.presented then (h', as_reclaim removed) else reclaim_unpresented_txt s h a

  -- One round of the loop of SweepStuckTXT, and whether it cleared the row.
  unfoldable pub swept : Authorization → Held p × Result ReclaimError TxtReclaim → Held p × Bool
  unfolding mark_reclaim_stuck drop_cleared_row
  swept a (h, ok reclaimed) = (drop_cleared_row h a, true)
  swept a (h, ok kept_propagating) = (h, false)
  swept a (h, err e) = (mark_reclaim_stuck h a e, false)

  -- The columns of a row that the listing of the queue reads.
  abbrev pub queued : AuthzRow → Authorization
  queued r = record (r.authz) { status = []; challenge_url = []; challenge_sent = false }

  -- The loop, with the rounds before the context is cancelled: what it retried and cleared.
  unfoldable pub sweep_rows : Held p → ℕ → List AuthzRow → Held p × ℕ × ℕ
  unfolding swept reclaim_one_stuck
  sweep_rows h rounds [] = (h, 0, 0)
  sweep_rows h zero (r ∷ rs) = (h, 0, 0)
  sweep_rows h (suc rounds) (r ∷ rs) =
      let (h', cleared) = swept (queued r) (reclaim_one_stuck h (queued r)) in
      let (h2, tried, done_rows) = sweep_rows h' rounds rs in
      (h2, suc tried, (if cleared then suc done_rows else done_rows))

  unfoldable pub sweep_stuck_txt : Held p → ℕ → Held p × ℕ × ℕ
  unfolding sweep_rows register_recovered_leases list_stuck
  sweep_stuck_txt h rounds =
      let h' = register_recovered_leases s h in
      elim (list_stuck h'.authz) [ err e ↦ (h', 0, 0) | ok rows ↦ sweep_rows h' rounds rows ]

-- The loop of StuckTXTGuardianLag, over the rows that are left.
unfoldable pub oldest_lag : Time → Duration → List AuthzRow → Duration
unfolding sub
oldest_lag now oldest [] = oldest
oldest_lag now oldest (r ∷ rs) =
    oldest_lag now
      (if is_zero r.reclaim_stuck_since
        then oldest
        else if ltb_ℤ oldest (sub now r.reclaim_stuck_since)
        then sub now r.reclaim_stuck_since
        else oldest)
      rs

unfoldable pub stuck_txt_guardian_lag : List AuthzRow → Time → Duration
unfolding oldest_lag
stuck_txt_guardian_lag rows now = oldest_lag now (pos 0) rows
