-- ===== src/Backoff/Hold.antt =====
-- What the backoff of internal/acme/manager_done.go and manager.go promises: a deadline that it set
-- stands, written or held in memory, until it has passed.
use wecert.Base.{
  ℕ, zero, suc, ◌+◌, ◌-◌, ◌*◌, ◌^◌, ◌≤◌, ◌<◌, ◌≡◌, ◌⊎◌, inl, inr, true, false, Option, none, some,
  if◌then◌else◌, List, [], ◌∷◌, Text, text_eq, text_eq_refl, arith, refl, ap, ◌∙◌, not, min, ltb,
  leb, Bool-cases, All, ◌||◌, ◌==◌, ==_iff,
}
use native.Mathlib.Numerals.{add-one, unary_clauses}
use wecert.Base.Assoc.{Assoc, lookup, put, lookup-put, lookup-reject}
use wecert.Base.Time.{Time, minute, before}
use wecert.CertStore.{CertState, Tables, stored, put_cert_exec, cert_row, found_or_new, named}
use wecert.CertStore.Rows.{stored_lem}
use wecert.Cooldown.{
  Memory, prune_expired, transient_backoff_for, set_transient_backoff, cooldown_map_limit,
}
use wecert.Backoff.{
  shift_left, max_backoff, backoff_for, failed_state, record_failure, honour_backoff,
}

shift_left_eq : (x k : ℕ) → shift_left x k ≡ 2 ^ k * x
unfolding shift_left
shift_left_eq x zero = omega arith
shift_left_eq x (suc k) = simp unary_clauses (grind (arith, shift_left_eq x k))

pow_ge : (k : ℕ) → 10 ≤ k → 1024 ≤ 2 ^ k
pow_ge zero h = absurd (omega arith)
pow_ge (suc k) h = elim (Bool-cases (k == 9)) [
  | inl e ↦ rw ((==_iff k 9).0 e) (omega arith)
  | inr e ↦ simp unary_clauses (omega (arith, pow_ge k (ground arith)))
]

capped :
    (w : ℕ) → 0 < w → (if ltb max_backoff w || leb w 0 then max_backoff else w) ≡ min w max_backoff
capped w h = ground arith

pow_pos : (k : ℕ) → 0 < 2 ^ k
pow_pos zero = omega arith
pow_pos (suc k) = simp unary_clauses (omega (arith, pow_pos k))

pred_suc : (n : ℕ) → suc n - 1 ≡ n
pred_suc n = omega arith

-- After n + 1 failures in a row the wait is a minute doubled n times, and six hours at most.
pub backoff_for_lem : (n : ℕ) → backoff_for (suc n) ≡ min (2 ^ n * minute) max_backoff
unfolding backoff_for
backoff_for_lem n = elim (Bool-cases (ltb 10 n)) [
  | inl e ↦
      rw (pred_suc n, e)
        (capped (shift_left minute 10) (omega (arith, shift_left_eq minute 10))
          ∙ omega (arith, shift_left_eq minute 10, pow_ge n (ground arith)))
  | inr e ↦
      rw (pred_suc n, e, shift_left_eq minute n, capped (2 ^ n * minute) (omega (arith, pow_pos n)))
        refl
]

pub backoff_for_bounds :
    (n : ℕ) → (minute ≤ backoff_for (n + 1)) × (backoff_for (n + 1) ≤ max_backoff)
backoff_for_bounds n = rw add-one (omega (arith, backoff_for_lem n, pow_pos n))

-- The deadline stands for the certificate, in memory or in its row.
abbrev pub IsHeld : Text → Time → Tables → Memory → Type 0
IsHeld name until s m =
    (lookup name m.transient_backoff ≡ some until)
    ⊎ ((st : CertState) × (lookup name s.certificates ≡ some st)
        × (st.next_attempt_at ≡ stored until))

lookup-prune_expired :
    (m : Assoc Time) (now : Time) (limit : ℕ) (name : Text) (until : Time)
    → lookup name m ≡ some until
    → now < until
    → lookup name (prune_expired m now limit) ≡ some until
unfolding prune_expired
lookup-prune_expired m now limit name until h lt =
    ground (arith, lookup-reject (λ (at : Time). not (before now at)) name m {v = until})

lookup-set_transient_backoff :
    (m : Memory) (cert name : Text) (until u now : Time)
    → (if text_eq cert name then some u else lookup name m.transient_backoff) ≡ some until
    → now < until
    → lookup name (set_transient_backoff m cert u now).transient_backoff ≡ some until
unfolding set_transient_backoff
lookup-set_transient_backoff m cert name until u now h lt =
    lookup-prune_expired (put cert u m.transient_backoff) now cooldown_map_limit name until
      (lookup-put cert name u m.transient_backoff ∙ h) lt

lookup-put_self {ℓ} : {V : Type ℓ} (k : Text) (v : V) (m : Assoc V) → lookup k (put k v m) ≡ some v
lookup-put_self k v m = lookup-put k k v m ∙ rw (text_eq_refl k) refl

pub record_failure-IsHeld :
    (s : Tables) (m : Memory) (st : CertState) (msg : Text) (now : Time)
    → IsHeld st.name
        (now + backoff_for (st.consecutive_failures + 1))
        (record_failure false s m st msg now).0
        (record_failure false s m st msg now).1
unfolding record_failure failed_state put_cert_exec cert_row
record_failure-IsHeld s m st msg now =
    let until : Time = now + backoff_for (st.consecutive_failures + 1) in
    elim (Bool-cases s.writes_certs) [
      | inl w ↦ inr (
        cert_row (failed_state st msg now) (lookup st.name s.certificates),
        simp w (
            lookup-put_self st.name
              (cert_row (failed_state st msg now) (lookup st.name s.certificates)) s.certificates),
        refl,
      )
      | inr w ↦ inl (
          simp w (
            lookup-set_transient_backoff m st.name st.name until until now
              (rw (text_eq_refl st.name) refl)
              (omega (arith, backoff_for_bounds st.consecutive_failures))))
    ]

-- A failure of another certificate leaves the deadline.
record_failure-IsHeld_other :
    (s : Tables) (m : Memory) (st : CertState) (msg : Text) (now : Time) (name : Text)
    (until : Time)
    → text_eq st.name name ≡ false
    → now < until
    → IsHeld name until s m
    → IsHeld name until
        (record_failure false s m st msg now).0
        (record_failure false s m st msg now).1
unfolding record_failure failed_state put_cert_exec
record_failure-IsHeld_other s m st msg now name until ne lt (inl h) =
    elim (Bool-cases s.writes_certs) [
      | inl w ↦ inl (simp w h)
      | inr w ↦ inl (simp w (lookup-set_transient_backoff m st.name name until _ now (rw ne h) lt))
    ]
record_failure-IsHeld_other s m st msg now name until ne lt (inr (row, h, e)) =
    elim (Bool-cases s.writes_certs) [
      | inl w ↦ inr (
        row,
        simp w (
            lookup-put st.name name
              (cert_row (failed_state st msg now) (lookup st.name s.certificates)) s.certificates
            ∙ rw ne h),
        e,
      )
      | inr w ↦ inr (row, simp w h, e)
    ]

found_or_new-named :
    (name : Text) (o : Option CertState) → (found_or_new name (named name o)).name ≡ name
found_or_new-named name none = refl
found_or_new-named name (some st) = refl

honour_backoff_memory :
    (m : Memory) (st : CertState) (until t : Time)
    → lookup st.name m.transient_backoff ≡ some until
    → t < until
    → (honour_backoff m st t).1 ≡ true
unfolding honour_backoff transient_backoff_for
honour_backoff_memory m st until t h lt = ground arith

honour_backoff_row :
    (m : Memory) (st : CertState) (t : Time)
    → t < st.next_attempt_at
    → (honour_backoff m st t).1 ≡ true
unfolding honour_backoff
honour_backoff_row m st t lt = ground arith

stored-le : (t : Time) → stored t ≤ t
stored-le t = ground (arith, stored_lem t)

-- While the deadline stands the pass is refused.
pub honour_backoff-IsHeld :
    (s : Tables) (m : Memory) (name : Text) (until t : Time)
    → IsHeld name until s m
    → t < stored until
    → (honour_backoff m (found_or_new name (named name (lookup name s.certificates))) t).1 ≡ true
honour_backoff-IsHeld s m name until t (inl h) lt =
    let st = found_or_new name (named name (lookup name s.certificates)) in
    honour_backoff_memory m st until t
      (ap (λ n. lookup n m.transient_backoff) (found_or_new-named name (lookup name s.certificates))
        ∙ h)
      (omega (arith, stored-le until))
honour_backoff-IsHeld s m name until t (inr (row, h, e)) lt =
    honour_backoff_row m (found_or_new name (named name (lookup name s.certificates))) t
      (rw h (omega (arith, e)))

-- Failures of other certificates, each at its own time.
pub record OtherFailure : Type 0 where
  pub st : CertState
  pub msg : Text
  pub at : Time

unfoldable pub record_all : Tables → Memory → List OtherFailure → Tables × Memory
record_all s m [] = (s, m)
record_all s m (f ∷ fs) =
    let (s', m') = record_failure false s m f.st f.msg f.at in record_all s' m' fs

record_all-IsHeld :
    (s : Tables) (m : Memory) (fs : List OtherFailure) (name : Text) (until : Time)
    → All (λ f. (text_eq f.st.name name ≡ false) × (f.at < until)) fs
    → IsHeld name until s m
    → IsHeld name until (record_all s m fs).0 (record_all s m fs).1
unfolding record_all
record_all-IsHeld s m [] name until ok h = h
record_all-IsHeld s m (f ∷ fs) name until ok h =
    record_all-IsHeld (record_failure false s m f.st f.msg f.at).0
      (record_failure false s m f.st f.msg f.at).1 fs name until ok.1
      (record_failure-IsHeld_other s m f.st f.msg f.at name until ok.0.0 ok.0.1 h)

-- After a failed pass that was not stopped, the next passes are refused up to the second of its
-- deadline, a minute doubled with each failure in a row and six hours at most after the failure:
-- whether the database took the deadline or not, and whatever other certificates fail in between,
-- each before that deadline, for the state that the next pass reads or, without a row, makes.
pub honour_backoff-record_failure :
    (s : Tables) (m : Memory) (st : CertState) (msg : Text) (now : Time) (fs : List OtherFailure)
    (t : Time)
    → All
        (λ f.
          (text_eq f.st.name st.name ≡ false)
          × (f.at < now + backoff_for (st.consecutive_failures + 1)))
        fs
    → t < stored (now + backoff_for (st.consecutive_failures + 1))
    → (honour_backoff
        (record_all
          (record_failure false s m st msg now).0
          (record_failure false s m st msg now).1
          fs).1
        (found_or_new st.name (
          named st.name (
            lookup st.name
              (record_all
                (record_failure false s m st msg now).0
                (record_failure false s m st msg now).1
                fs).0.certificates)))
        t).1
      ≡ true
honour_backoff-record_failure s m st msg now fs t others lt =
    let until : Time = now + backoff_for (st.consecutive_failures + 1) in
    let failed = record_failure false s m st msg now in
    let after = record_all failed.0 failed.1 fs in
    honour_backoff-IsHeld after.0 after.1 st.name until t
      (record_all-IsHeld failed.0 failed.1 fs st.name until others
        (record_failure-IsHeld s m st msg now))
      lt
