-- ===== src/Absence.antt =====
-- The grace period of internal/onboarding: applyGrace of onboard_policy.go with the absences of the
-- state of state.go. A set of names is a list; the reasons of the report are not modelled.
pub mod Marks
pub mod Grace
pub mod Rounds
use wecert.Base.{
  ◌≡◌, Bool, true, false, not, ◌&&◌, ◌||◌, Option, none, some, if◌then◌else◌, List, [], ◌∷◌, Text,
  mem, sort,
}
use wecert.Base.Assoc.{Assoc, lookup, put, remove}
use wecert.Base.Int.{ltb_ℤ}
use wecert.Base.Time.{Time, Duration, sub}
use wecert.Group.{is_wildcard, wildcard_covers}

-- What applyGrace reads of a run: its options, its clock, the last state, and what the round has read.
-- `rules` is `none` where no rule source is configured.
pub record GraceRun : Type 0 where
  pub force : Bool
  pub grace_period : Duration
  pub now : Time
  pub last_names : List Text
  pub declared : List Text
  pub guard_unavailable : Bool
  pub rules : Option (List Text)

-- What it changes.
pub record Names : Type 0 where
  pub eligible : List Text
  pub removed : List Text
  pub absent_since : Assoc Time

unfoldable pub mark_present : Text → Assoc Time → Assoc Time
mark_present name m = remove name m

-- MarkAbsent: the marks, and since when the name is absent.
unfoldable pub mark_absent : Text → Time → Assoc Time → Assoc Time × Time
mark_absent name now m = elim (lookup name m) [
  | some prev ↦ (m, prev)
  | none ↦ (put name now m, now)
]

-- The loops of servedByRule.
unfoldable pub covers_a_rule : Text → List Text → Bool
covers_a_rule name [] = false
covers_a_rule name (rd ∷ rules) = wildcard_covers name rd || covers_a_rule name rules

unfoldable pub covered_by_a_rule : Text → List Text → Bool
covered_by_a_rule name [] = false
covered_by_a_rule name (rd ∷ rules) =
    (is_wildcard rd && wildcard_covers rd name) || covered_by_a_rule name rules

unfoldable pub served_by_rule : Text → List Text → Bool
unfolding covers_a_rule covered_by_a_rule
served_by_rule name rules =
    if mem name rules
    then true
    else if is_wildcard name
    then covers_a_rule name rules
    else covered_by_a_rule name rules

unfoldable pub referenced : GraceRun → Text → Bool
unfolding served_by_rule
referenced r name =
    if r.guard_unavailable
    then true
    else elim r.rules [ none ↦ true | some rules ↦ served_by_rule name rules ]

-- The first loop: the names of the last set that are not eligible.
unfoldable pub absent_names : List Text → List Text → List Text
absent_names eligible [] = []
absent_names eligible (n ∷ ns) =
    let rest = absent_names eligible ns in if mem n eligible || mem n rest then rest else n ∷ rest

-- The names of a list that are declared, and those that are not.
unfoldable pub still_declared : List Text → List Text → List Text
still_declared declared [] = []
still_declared declared (n ∷ ns) =
    let rest = still_declared declared ns in if mem n declared then n ∷ rest else rest

unfoldable pub genuinely_absent : List Text → List Text → List Text
genuinely_absent declared [] = []
genuinely_absent declared (n ∷ ns) =
    let rest = genuinely_absent declared ns in if mem n declared then rest else n ∷ rest

abbrev pub carry : Text → Names → Names
carry n s = record s { eligible = n ∷ s.eligible }

-- The loop over the names that are still declared.
unfoldable pub carry_declared : List Text → Names → Names
unfolding mark_present
carry_declared [] s = s
carry_declared (n ∷ ns) s =
    carry_declared ns (carry n (record s { absent_since = mark_present n s.absent_since }))

-- The switch: whether a name that is absent since the instant is removed.
unfoldable pub is_removed : GraceRun → Text → Time → Bool
unfolding referenced
is_removed r n since =
    let age = sub r.now since in
    if r.force
    then true
    else if r.guard_unavailable
    then false
    else if ltb_ℤ age r.grace_period
    then false
    else elim r.rules [ none ↦ false | some rules ↦ not (referenced r n) ]

unfoldable pub settle_absent : GraceRun → Text → Names → Names
settle_absent r n s =
    let (marks, since) = mark_absent n r.now s.absent_since in
    let marked = record s { absent_since = marks } in
    if is_removed r n since then record marked { removed = n ∷ s.removed } else carry n marked

-- The loop over the names that are absent.
unfoldable pub settle_all : GraceRun → List Text → Names → Names
settle_all r [] s = s
settle_all r (n ∷ ns) s = settle_all r ns (settle_absent r n s)

unfoldable pub mark_all_present : List Text → Assoc Time → Assoc Time
unfolding mark_present
mark_all_present [] m = m
mark_all_present (n ∷ ns) m = mark_all_present ns (mark_present n m)

-- The last loop: the marks of the names that are absent.
unfoldable pub keep_markers : List Text → Assoc Time → Assoc Time
keep_markers absent [] = []
keep_markers absent ((n, since) ∷ m) =
    let rest = keep_markers absent m in if mem n absent then (n, since) ∷ rest else rest

-- applyGrace, from the eligible names and the marks of the last round
unfoldable pub apply_grace : GraceRun → List Text → Assoc Time → Names
apply_grace r present marks =
    let all = sort (absent_names present r.last_names) in
    let absent = genuinely_absent r.declared all in
    let start : Names = record { eligible = present; removed = []; absent_since = marks } in
    let s = settle_all r absent (carry_declared (still_declared r.declared all) start) in
    record s { absent_since = keep_markers absent (mark_all_present present s.absent_since) }
