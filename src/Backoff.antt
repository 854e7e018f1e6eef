-- ===== src/Backoff.antt =====
-- recordFailure and recordFailureUnreadable of internal/acme/manager_done.go and honourBackoff of
-- internal/acme/manager.go: how a failed pass keeps the next one from starting at once. A pass reads
-- one instant of the clock. `msg` is the text of the error, redacted.
pub mod Hold
use wecert.Base.{
  ℕ, zero, suc, ◌+◌, ◌-◌, ◌*◌, ◌≡◌, Bool, true, false, not, ◌&&◌, ◌||◌, Option, none, some,
  if◌then◌else◌, Text, ltb, leb, ◌==◌, is_some,
}
use wecert.Base.Time.{Time, before, is_zero, minute, hour, add}
use wecert.Base.Int.{pos}
use wecert.CertStore.{CertState, Tables, TableError, put_cert_exec, note_failure}
use wecert.Cooldown.{Memory, transient_backoff_for, set_transient_backoff}

abbrev pub max_backoff : ℕ
max_backoff = 6 * hour

-- x << k
unfoldable pub shift_left : ℕ → ℕ → ℕ
shift_left x zero = x
shift_left x (suc k) = 2 * shift_left x k

-- The wait after so many failures in a row. At most ten doublings of a minute are within an int64.
unfoldable pub backoff_for : ℕ → ℕ
unfolding shift_left
backoff_for failures =
    let shift = if ltb 10 (failures - 1) then 10 else failures - 1 in
    let wait = shift_left minute shift in
    if ltb max_backoff wait || leb wait 0 then max_backoff else wait

-- The state that recordFailure has counted the failure in.
unfoldable pub failed_state : CertState → Text → Time → CertState
unfolding backoff_for
failed_state st msg now = record st {
  consecutive_failures = st.consecutive_failures + 1;
  last_error = msg;
  next_attempt_at = now + backoff_for (st.consecutive_failures + 1);
}

-- What a write of the deadline leaves: where it failed, the deadline is held in memory.
abbrev pub held_in_memory :
    Memory → Text → Time → Time → Tables × Option TableError → Tables × Memory
held_in_memory m name until now (s, none) = (s, m)
held_in_memory m name until now (s, some e) = (s, set_transient_backoff m name until now)

-- recordFailure. `cancelled` is ctx.Err() != nil.
unfoldable pub record_failure : Bool → Tables → Memory → CertState → Text → Time → Tables × Memory
unfolding failed_state
record_failure true s m st msg now = (s, m)
record_failure false s m st msg now =
    let st' = failed_state st msg now in
    held_in_memory m st.name st'.next_attempt_at now (put_cert_exec s st')

unfoldable pub record_failure_unreadable :
    Bool → Tables → Memory → Text → Text → Time → Tables × Memory
record_failure_unreadable true s m name msg now = (s, m)
record_failure_unreadable false s m name msg now =
    held_in_memory m name (now + minute) now (note_failure s name msg 1 (now + minute))

-- honourBackoff: whether it refuses the pass, and the memory that it leaves.
unfoldable pub honour_backoff : Memory → CertState → Time → Memory × Bool
honour_backoff m st now =
    let (m', until) = transient_backoff_for m st.name now in
    (m', is_some until || (not (is_zero st.next_attempt_at) && before now st.next_attempt_at))
