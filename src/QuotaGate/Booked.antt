-- ===== src/QuotaGate/Booked.antt =====
-- A refusal that names an instant keeps the certificate from ordering until then: what
-- noteNewOrderRefusal books in internal/acme/manager_renew.go is what blockedByRecordedDeadline consults.
use wecert.Base.{
  ◌+◌, ◌*◌, ◌/◌, ◌≤◌, ◌≡◌, inl, inr, Bool, true, false, not, ◌&&◌, Option, none, some,
  if◌then◌else◌, Text, text_eq, text_eq_iff, text_eq_refl, arith, refl, ap, ◌∙◌, Bool-cases,
  Option-cases,
}
use wecert.Base.Time.{Time, second, is_zero, unix_epoch, to_unix, from_unix}
use wecert.RateLimit.{Limit}
use wecert.RateStore.Update.{reset_at-upsert_row, rewritten_bucket, whole_second}
use wecert.RateStore.{nonzero, Store, bucket_of_row, update_rate_bucket}
use wecert.RateLimit.Tracker.{note_deadline, track_deadline}
use wecert.RateLimit.Tracker.Deadlines.{deadline, deadline-track_deadline}
use wecert.RateLimit.RetryAfter.{parse_retry_after}
use wecert.QuotaGate.{note_retry_after, book_refusal}

-- The database answers.
pub record Answers (s : Store) : Type 0 where
  pub can_read : s.reads ≡ true
  pub can_write : s.writes ≡ true

-- A store that answers and in which no deadline has moved back.
abbrev pub IsLater : Store → Option Store → Type 0
IsLater s q =
    (s' : Store) × (q ≡ some s') × Answers s' × ((n k : Text) → deadline s n k ≤ deadline s' n k)

-- The store that NoteDeadline leaves.
abbrev booked : Store → Limit → Text → Time → Store
booked s l scope at =
    if is_zero at then s else (update_rate_bucket s l.name scope (note_deadline l at)).0

stored_nonzero :
    (at : Time) → nonzero (to_unix at) ≡ true → from_unix (to_unix at) ≡ at / second * second
unfolding from_unix to_unix
stored_nonzero at h = ground arith

module _ (s : Store) (l : Limit) (scope : Text) (at : Time) (a : Answers s) where
  update_writes : (update_rate_bucket s l.name scope (note_deadline l at)).1 ≡ none
  unfolding update_rate_bucket note_deadline bucket_of_row
  update_writes = grind (arith, text_eq_refl l.name, text_eq_refl scope, a.can_read, a.can_write)

  track_deadline-booked :
      track_deadline (some s) l scope at ≡ (some (booked s l scope at), at, not (is_zero at))
  unfolding track_deadline
  track_deadline-booked = grind (arith, update_writes)

  booked-Answers : Answers (booked s l scope at)
  unfolding update_rate_bucket
  booked-Answers = grind (arith, text_eq_refl l.name, text_eq_refl scope, a.can_read, a.can_write)

  deadline-booked_other :
      (n k : Text)
      → (text_eq n l.name && text_eq k scope) ≡ false
      → deadline (booked s l scope at) n k ≡ deadline s n k
  unfolding deadline update_rate_bucket
  deadline-booked_other n k ne = grind (arith, a.can_read, a.can_write)

  deadline-booked : deadline s l.name scope ≤ deadline (booked s l scope at) l.name scope
  unfolding deadline update_rate_bucket note_deadline
  deadline-booked = ground (
    arith,
    a.can_read,
    a.can_write,
    text_eq_refl l.name,
    text_eq_refl scope,
    reset_at-upsert_row
        (record (bucket_of_row l.name scope (s.rows l.name scope)) {
          reset_at = at;
          reset_reason = l.name;
        })
        (s.rows l.name scope) l.name scope,
    reset_at-upsert_row (bucket_of_row l.name scope (s.rows l.name scope)) (s.rows l.name scope)
        l.name scope,
    rewritten_bucket (s.rows l.name scope) l.name scope,
    whole_second (s.rows l.name scope) l.name scope,
    stored_nonzero at,
  )

IsLater-booked :
    (s : Store) (l : Limit) (scope : Text) (at : Time) (a : Answers s)
    → (n k : Text) → deadline s n k ≤ deadline (booked s l scope at) n k
IsLater-booked s l scope at a n k = elim (Bool-cases (text_eq n l.name && text_eq k scope)) [
  | inl e ↦ grind (arith, deadline-booked s l scope at a, text_eq_iff n l.name, text_eq_iff k scope)
  | inr e ↦ omega (arith, deadline-booked_other s l scope at a n k e)
]

pub IsLater-refl : (s : Store) → Answers s → IsLater s (some s)
IsLater-refl s a = (s, refl, a, λ n k. omega arith)

IsLater-track_deadline :
    (s : Store) (l : Limit) (scope : Text) (at : Time)
    → Answers s
    → IsLater s (track_deadline (some s) l scope at).0
IsLater-track_deadline s l scope at a = (
  booked s l scope at,
  ap (λ r. r.0) (track_deadline-booked s l scope at a),
  booked-Answers s l scope at a,
  IsLater-booked s l scope at a,
)

module _ (l : Limit) (scope : Text) (now : Time) where
  IsLater-book_refusal :
      (header : Option Time) (s : Store) (at : Time) (was_noted : Bool)
      → Answers s
      → IsLater s (book_refusal l scope header now (some s, at, was_noted)).0
  unfolding book_refusal
  IsLater-book_refusal header s at was_noted a = elim (Bool-cases l.spent_by_ca) [
    | inl e ↦ simp e (IsLater-track_deadline s l scope _ a)
    | inr e ↦ simp e (else_later header was_noted)
  ]
    where
      else_later :
          (h : Option Time) (b : Bool)
          → IsLater s
              (if b then (some s, true) else elim h as (λ x. Option Store × Bool) [
                | none ↦ (some s, false)
                | some t ↦ ((track_deadline (some s) l scope t).0, true)
              ]).0
      else_later h true = IsLater-refl s a
      else_later none false = IsLater-refl s a
      else_later (some t) false = IsLater-track_deadline s l scope t a

-- The deadline is in force for the bucket, to the second.
abbrev pub Reaches : Time → Limit → Text → Option Store → Type 0
Reaches at l scope q =
    (s' : Store) × (q ≡ some s') × Answers s' × (at / second * second ≤ deadline s' l.name scope)

module _ (l : Limit) (scope : Text) (s : Store) (at : Time) (a : Answers s)
    (modern : (unix_epoch + 1) * second ≤ at) where
  Reaches-booked : at / second * second ≤ deadline (booked s l scope at) l.name scope
  Reaches-booked = omega (
    arith,
    deadline-track_deadline s l scope at a.can_read a.can_write modern {t = booked s l scope at}
        {b = not (is_zero at)} (track_deadline-booked s l scope at a),
  )

module _ (parse_time : Text → Text → Option Time) (l : Limit) (scope : Text) (now : Time) where
  note_retry_after-none :
      (q : Option Store) (msg : Text)
      → parse_retry_after parse_time msg ≡ none
      → note_retry_after parse_time q l scope msg ≡ (q, 0, false)
  unfolding note_retry_after
  note_retry_after-none q msg e = ground arith

  note_retry_after-some :
      (q : Option Store) (msg : Text) (at : Time)
      → parse_retry_after parse_time msg ≡ some at
      → note_retry_after parse_time q l scope msg ≡ track_deadline q l scope at
  unfolding note_retry_after
  note_retry_after-some q msg at e = ground arith

  -- One round of the loop, of a message with an instant.
  pub Reaches-book_refusal :
      (header : Option Time) (msg : Text) (s : Store) (at : Time)
      → Answers s
      → (unix_epoch + 1) * second ≤ at
      → parse_retry_after parse_time msg ≡ some at
      → Reaches at l scope
          (book_refusal l scope header now (note_retry_after parse_time (some s) l scope msg)).0
  Reaches-book_refusal header msg s at a modern e =
      let s1 = booked s l scope at in
      let (s2, e2, a2, later) =
        IsLater-book_refusal l scope now header s1 at (not (is_zero at))
          (booked-Answers s l scope at a) in
      (
        s2,
        ap (λ o. (book_refusal l scope header now o).0)
              (note_retry_after-some (some s) msg at e ∙ track_deadline-booked s l scope at a)
            ∙ e2,
        a2,
        omega (arith, later l.name scope, Reaches-booked l scope s at a modern),
      )

  pub IsLater-round :
      (header : Option Time) (msg : Text) (s : Store)
      → Answers s
      → IsLater s
          (book_refusal l scope header now (note_retry_after parse_time (some s) l scope msg)).0
  IsLater-round header msg s a = elim (Option-cases (parse_retry_after parse_time msg)) [
    | inl e ↦
        rw (note_retry_after-none (some s) msg e)
          (IsLater-book_refusal l scope now header s 0 false a)
    | inr (at, e) ↦
        let (s2, e2, a2, later) =
          IsLater-book_refusal l scope now header (booked s l scope at) at (not (is_zero at))
            (booked-Answers s l scope at a) in
        (
          s2,
          ap (λ o. (book_refusal l scope header now o).0)
                (note_retry_after-some (some s) msg at e ∙ track_deadline-booked s l scope at a)
              ∙ e2,
          a2,
          λ n k. omega (arith, later n k, IsLater-booked s l scope at a n k),
        )
  ]
