-- ===== src/Absence/Grace.antt =====
-- One round of applyGrace of internal/onboarding/onboard_policy.go, for one name.
use wecert.Base.{
  ◌≡◌, Bool, true, not, ◌&&◌, ◌||◌, none, some, if◌then◌else◌, List, [], ◌∷◌, Text, text_eq,
  text_eq_iff, mem, sort, mem-sort, arith, refl, ap,
}
use wecert.Base.Assoc.{Assoc, lookup, remove, lookup-remove}
use wecert.Base.Time.{Time}
use wecert.Absence.{
  GraceRun, Names, mark_present, mark_absent, is_removed, absent_names, still_declared,
  genuinely_absent, carry_declared, settle_absent, settle_all, mark_all_present, apply_grace,
}
use wecert.Absence.Marks.{
  since_of, is_absent, mem-absent_names, mem-still_declared, mem-genuinely_absent,
  lookup-mark_all_present, lookup-keep_markers, lookup-mark_absent,
}

-- What a loop over names does to one name.
record Settled (r : GraceRun) (x : Text) (touched : Bool) (s t : Names) : Type 0 where
  marks :
      lookup x t.absent_since
      ≡ (if touched then some (since_of x r.now s.absent_since) else lookup x s.absent_since)
  gone :
      mem x t.removed
      ≡ (mem x s.removed || (touched && is_removed r x (since_of x r.now s.absent_since)))
  kept :
      mem x t.eligible
      ≡ (mem x s.eligible || (touched && not (is_removed r x (since_of x r.now s.absent_since))))

mark_absent_since :
    (n : Text) (now : Time) (m : Assoc Time) → (mark_absent n now m).1 ≡ since_of n now m
unfolding mark_absent since_of
mark_absent_since n now m = ground arith

settle_absent-Settled :
    (r : GraceRun) (x n : Text) (s : Names) → Settled r x (text_eq x n) s (settle_absent r n s)
unfolding settle_absent mem
settle_absent-Settled r x n s =
    let since = mark_absent_since n r.now s.absent_since in
    let marks = lookup-mark_absent x n r.now s.absent_since in
    record {
      marks = ground (arith, since, marks, text_eq_iff x n);
      gone = ground (arith, since, text_eq_iff x n);
      kept = ground (arith, since, text_eq_iff x n);
    }

since_of-Settled :
    (r : GraceRun) (x : Text) (touched : Bool) (s t : Names)
    → Settled r x touched s t
    → since_of x r.now t.absent_since ≡ since_of x r.now s.absent_since
unfolding since_of
since_of-Settled r x touched s t h = ground (arith, h.marks)

-- Two loops, one after the other.
Settled-trans :
    (r : GraceRun) (x : Text) (p q : Bool) (s t u : Names)
    → Settled r x p s t
    → Settled r x q t u
    → Settled r x (p || q) s u
Settled-trans r x p q s t u h k =
    let since = since_of-Settled r x p s t h in
    record {
      marks = ground (arith, since, h.marks, k.marks);
      gone = ground (arith, since, h.gone, k.gone);
      kept = ground (arith, since, h.kept, k.kept);
    }

settle_all-Settled :
    (r : GraceRun) (x : Text) (l : List Text) (s : Names)
    → Settled r x (mem x l) s (settle_all r l s)
unfolding settle_all mem
settle_all-Settled r x [] s = record { marks = refl; gone = ground arith; kept = ground arith }
settle_all-Settled r x (n ∷ l) s =
    Settled-trans r x (text_eq x n) (mem x l) s (settle_absent r n s)
      (settle_all r l (settle_absent r n s)) (settle_absent-Settled r x n s)
      (settle_all-Settled r x l (settle_absent r n s))

lookup-carry_declared :
    (x : Text) (l : List Text) (s : Names)
    → lookup x (carry_declared l s).absent_since
      ≡ (if mem x l then none else lookup x s.absent_since)
unfolding carry_declared mem mark_present
lookup-carry_declared x [] s = refl
lookup-carry_declared x (n ∷ l) s = ground (
  arith,
  lookup-carry_declared x l (record {
    eligible = n ∷ s.eligible;
    removed = s.removed;
    absent_since = remove n s.absent_since;
  }),
  lookup-remove n x s.absent_since,
  text_eq_iff x n,
  text_eq_iff n x,
)

removed-carry_declared : (l : List Text) (s : Names) → (carry_declared l s).removed ≡ s.removed
unfolding carry_declared
removed-carry_declared [] s = refl
removed-carry_declared (n ∷ l) s = removed-carry_declared l _

eligible-carry_declared :
    (x : Text) (l : List Text) (s : Names)
    → mem x (carry_declared l s).eligible ≡ (mem x s.eligible || mem x l)
unfolding carry_declared mem
eligible-carry_declared x [] s = ground arith
eligible-carry_declared x (n ∷ l) s = ground (
  arith,
  eligible-carry_declared x l (record {
    eligible = n ∷ s.eligible;
    removed = s.removed;
    absent_since = mark_present n s.absent_since;
  }),
)

module _ (r : GraceRun) (present : List Text) (marks : Assoc Time) (x : Text) where
  abbrev since : Time
  since = since_of x r.now marks

  abbrev after_round : Names
  after_round = apply_grace r present marks

  abbrev all : List Text
  all = sort (absent_names present r.last_names)

  abbrev start : Names
  start = record { eligible = present; removed = []; absent_since = marks }

  settled :
      Settled r x
        (mem x (genuinely_absent r.declared all))
        (carry_declared (still_declared r.declared all) start)
        (settle_all r
          (genuinely_absent r.declared all)
          (carry_declared (still_declared r.declared all) start))
  settled = settle_all-Settled r x (genuinely_absent r.declared all) _

  mem-absent : mem x (genuinely_absent r.declared all) ≡ is_absent r present x
  mem-absent = ground (
    arith,
    mem-genuinely_absent x r.declared all,
    mem-sort x (absent_names present r.last_names),
    mem-absent_names x present r.last_names,
  )

  mem-still :
      mem x (still_declared r.declared all)
      ≡ (mem x r.last_names && not (mem x present) && mem x r.declared)
  mem-still = ground (
    arith,
    mem-still_declared x r.declared all,
    mem-sort x (absent_names present r.last_names),
    mem-absent_names x present r.last_names,
  )

  since-carried :
      is_absent r present x ≡ true
      → since_of x r.now (carry_declared (still_declared r.declared all) start).absent_since ≡ since
  unfolding since_of
  since-carried h =
      ground (arith, lookup-carry_declared x (still_declared r.declared all) start, mem-still)

  pub marks-apply_grace :
      lookup x after_round.absent_since ≡ (if is_absent r present x then some since else none)
  unfolding apply_grace mem
  marks-apply_grace = ground (
    arith,
    settled.marks,
    mem-absent,
    since-carried,
    lookup-keep_markers x (genuinely_absent r.declared all) (
        mark_all_present present
          (settle_all r (genuinely_absent r.declared all)
            (carry_declared (still_declared r.declared all) start)).absent_since),
    lookup-mark_all_present x present
        (settle_all r (genuinely_absent r.declared all)
          (carry_declared (still_declared r.declared all) start)).absent_since,
  )

  pub removed-apply_grace :
      mem x after_round.removed ≡ (is_absent r present x && is_removed r x since)
  unfolding apply_grace mem
  removed-apply_grace = ground (
    arith,
    settled.gone,
    mem-absent,
    since-carried,
    ap (mem x) (removed-carry_declared (still_declared r.declared all) start),
  )

  pub eligible-apply_grace :
      mem x after_round.eligible
      ≡ (mem x present || (mem x r.last_names && not (mem x after_round.removed)))
  unfolding apply_grace mem
  eligible-apply_grace = ground (
    arith,
    settled.kept,
    settled.gone,
    mem-absent,
    mem-still,
    ap (mem x) (removed-carry_declared (still_declared r.declared all) start),
    eligible-carry_declared x (still_declared r.declared all) start,
  )
