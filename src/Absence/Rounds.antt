-- ===== src/Absence/Rounds.antt =====
-- Removal over several rounds of applyGrace of internal/onboarding/onboard_policy.go.
use wecert.Base.{none, ◌≡◌, ◌≤◌, true, false, ◌||◌, some, List, [], ◌∷◌, Text, mem, arith, All}
use wecert.Base.Assoc.{Assoc, lookup}
use wecert.Base.Int.{◌<ℤ◌, ◌≤ℤ◌}
use wecert.Base.Time.{Time, sub}
use wecert.Absence.{GraceRun, is_removed, served_by_rule, referenced, apply_grace}
use wecert.Absence.Marks.{since_of, is_absent}
use wecert.Absence.Grace.{marks-apply_grace, removed-apply_grace, eligible-apply_grace}

-- The marks after rounds with the eligible names that each has read.
unfoldable pub run_rounds : List (GraceRun × List Text) → Assoc Time → Assoc Time
run_rounds [] marks = marks
run_rounds ((r, present) ∷ rounds) marks =
    run_rounds rounds (apply_grace r present marks).absent_since

-- The name has no mark from before the instant.
abbrev pub NotBefore : Time → Text → Assoc Time → Type 0
NotBefore t x marks = (since : Time) → lookup x marks ≡ some since → t ≤ since

NotBefore-apply_grace :
    (t : Time) (x : Text) (r : GraceRun) (present : List Text) (marks : Assoc Time)
    → t ≤ r.now
    → NotBefore t x marks
    → NotBefore t x (apply_grace r present marks).absent_since
unfolding since_of
NotBefore-apply_grace t x r present marks h k since e =
    ground (arith, marks-apply_grace r present marks x, k since)

NotBefore-run_rounds :
    (t : Time) (x : Text) (rounds : List (GraceRun × List Text)) (marks : Assoc Time)
    → All (λ q. t ≤ q.0.now) rounds
    → NotBefore t x marks
    → NotBefore t x (run_rounds rounds marks)
unfolding run_rounds
NotBefore-run_rounds t x [] marks h k = k
NotBefore-run_rounds t x ((r, present) ∷ rounds) marks h k =
    NotBefore-run_rounds t x rounds (apply_grace r present marks).absent_since h.1
      (NotBefore-apply_grace t x r present marks h.0 k)

is_removed-early :
    (t : Time) (x : Text) (r : GraceRun) (since : Time)
    → r.force ≡ false
    → t ≤ since
    → t ≤ r.now
    → sub r.now t <ℤ r.grace_period
    → is_removed r x since ≡ false
unfolding is_removed sub
is_removed-early t x r since h k l e = ground arith

since_of-NotBefore :
    (t : Time) (x : Text) (now : Time) (marks : Assoc Time)
    → t ≤ now
    → NotBefore t x marks
    → t ≤ since_of x now marks
unfolding since_of
since_of-NotBefore t x now marks h k = ground (arith, k (since_of x now marks))

-- A name that is declared or eligible in a round is not removed by an unforced round less than the grace
-- period later, whatever the rounds between them read, if no clock goes back behind that of the first.
-- That round leaves it eligible if it was so before or the last set has it.
pub removed-run_rounds :
    (first last : GraceRun) (p q : List Text) (marks : Assoc Time)
    (rounds : List (GraceRun × List Text)) (x : Text)
    → (mem x p || mem x first.declared) ≡ true
    → All (λ round. first.now ≤ round.0.now) rounds
    → first.now ≤ last.now
    → last.force ≡ false
    → sub last.now first.now <ℤ last.grace_period
    → let s = apply_grace last q (run_rounds rounds (apply_grace first p marks).absent_since) in
      (mem x s.removed ≡ false) × (mem x s.eligible ≡ (mem x q || mem x last.last_names))
removed-run_rounds first last p q marks rounds x h h_rounds h_last unforced early =
    let marks_0 = (apply_grace first p marks).absent_since in
    let marks_1 = run_rounds rounds marks_0 in
    let at_first : NotBefore first.now x marks_0 =
      λ since e. ground (arith, marks-apply_grace first p marks x) in
    let at_last = NotBefore-run_rounds first.now x rounds marks_0 h_rounds at_first in
    let since = since_of-NotBefore first.now x last.now marks_1 h_last at_last in
    let kept = is_removed-early first.now x last _ unforced since h_last early in
    let removed : mem x (apply_grace last q marks_1).removed ≡ false =
      ground (arith, removed-apply_grace last q marks_1 x, kept) in
    (removed, ground (arith, removed, eligible-apply_grace last q marks_1 x))

Marked-run_rounds :
    (t : Time) (x : Text) (rounds : List (GraceRun × List Text)) (marks : Assoc Time)
    → All (λ q. is_absent q.0 q.1 x ≡ true) rounds
    → lookup x marks ≡ some t
    → lookup x (run_rounds rounds marks) ≡ some t
unfolding run_rounds since_of
Marked-run_rounds t x [] marks h k = k
Marked-run_rounds t x ((r, present) ∷ rounds) marks h k =
    Marked-run_rounds t x rounds (apply_grace r present marks).absent_since h.1
      (ground (arith, marks-apply_grace r present marks x, h.0, k))

is_removed-late :
    (x : Text) (r : GraceRun) (rules : List Text) (since : Time)
    → r.guard_unavailable ≡ false
    → r.rules ≡ some rules
    → served_by_rule x rules ≡ false
    → r.grace_period ≤ℤ sub r.now since
    → is_removed r x since ≡ true
unfolding is_removed referenced
is_removed-late x r rules since guard e served late = ground arith

-- A name that is newly absent in a round, and absent in each round from then on, is removed by a round at
-- least the grace period later, if that round reads rules, of which none serves the name.
pub removed-run_rounds_absent :
    (first last : GraceRun) (p q : List Text) (marks : Assoc Time)
    → (rounds : List (GraceRun × List Text)) (x : Text) (rules : List Text) → lookup x marks ≡ none
    → is_absent first p x ≡ true
    → All (λ round. is_absent round.0 round.1 x ≡ true) rounds
    → is_absent last q x ≡ true
    → last.guard_unavailable ≡ false
    → last.rules ≡ some rules
    → served_by_rule x rules ≡ false
    → last.grace_period ≤ℤ sub last.now first.now
    → let s = apply_grace last q (run_rounds rounds (apply_grace first p marks).absent_since) in
      (mem x s.removed ≡ true) × (mem x s.eligible ≡ false)
unfolding since_of
removed-run_rounds_absent first last p q marks rounds x rules fresh h h_rounds h_last guard e served
      late =
    let marks_0 = (apply_grace first p marks).absent_since in
    let marks_1 = run_rounds rounds marks_0 in
    let at_first : lookup x marks_0 ≡ some first.now =
      ground (arith, marks-apply_grace first p marks x, fresh, h) in
    let at_last = Marked-run_rounds first.now x rounds marks_0 h_rounds at_first in
    let gone = is_removed-late x last rules first.now guard e served late in
    let removed : mem x (apply_grace last q marks_1).removed ≡ true =
      ground (arith, removed-apply_grace last q marks_1 x, at_last, gone, h_last) in
    (removed, ground (arith, removed, h_last, eligible-apply_grace last q marks_1 x))
