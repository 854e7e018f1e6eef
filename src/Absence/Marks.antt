-- ===== src/Absence/Marks.antt =====
-- The loops of applyGrace of internal/onboarding/onboard_policy.go, for one name.
use wecert.Base.{
  ◌≡◌, Bool, not, ◌&&◌, none, some, if◌then◌else◌, List, [], ◌∷◌, Text, text_eq, text_eq_iff, mem,
  arith, refl,
}
use wecert.Base.Assoc.{Assoc, lookup, remove, lookup-put, lookup-remove}
use wecert.Base.Time.{Time}
use wecert.Absence.{
  GraceRun, mark_present, mark_absent, absent_names, still_declared, genuinely_absent,
  mark_all_present, keep_markers,
}

-- Since when a name is absent, as MarkAbsent answers.
unfoldable pub since_of : Text → Time → Assoc Time → Time
since_of x now m = elim (lookup x m) [ some prev ↦ prev | none ↦ now ]

-- The name was in the last set, and is neither eligible nor declared.
abbrev pub is_absent : GraceRun → List Text → Text → Bool
is_absent r present x = mem x r.last_names && not (mem x present) && not (mem x r.declared)

pub mem-absent_names :
    (x : Text) (eligible l : List Text)
    → mem x (absent_names eligible l) ≡ (mem x l && not (mem x eligible))
unfolding absent_names mem
mem-absent_names x eligible [] = refl
mem-absent_names x eligible (n ∷ l) = ground (arith, mem-absent_names x eligible l, text_eq_iff x n)

pub mem-still_declared :
    (x : Text) (declared l : List Text)
    → mem x (still_declared declared l) ≡ (mem x l && mem x declared)
unfolding still_declared mem
mem-still_declared x declared [] = refl
mem-still_declared x declared (n ∷ l) =
    ground (arith, mem-still_declared x declared l, text_eq_iff x n)

pub mem-genuinely_absent :
    (x : Text) (declared l : List Text)
    → mem x (genuinely_absent declared l) ≡ (mem x l && not (mem x declared))
unfolding genuinely_absent mem
mem-genuinely_absent x declared [] = refl
mem-genuinely_absent x declared (n ∷ l) =
    ground (arith, mem-genuinely_absent x declared l, text_eq_iff x n)

pub lookup-mark_all_present :
    (x : Text) (l : List Text) (m : Assoc Time)
    → lookup x (mark_all_present l m) ≡ (if mem x l then none else lookup x m)
unfolding mark_all_present mark_present mem
lookup-mark_all_present x [] m = refl
lookup-mark_all_present x (n ∷ l) m = ground (
  arith,
  lookup-mark_all_present x l (remove n m),
  lookup-remove n x m,
  text_eq_iff x n,
  text_eq_iff n x,
)

pub lookup-keep_markers :
    (x : Text) (l : List Text) (m : Assoc Time)
    → lookup x (keep_markers l m) ≡ (if mem x l then lookup x m else none)
unfolding keep_markers lookup
lookup-keep_markers x l [] = ground arith
lookup-keep_markers x l ((n, since) ∷ m) =
    ground (arith, lookup-keep_markers x l m, text_eq_iff x n, text_eq_iff n x)

pub lookup-mark_absent :
    (x n : Text) (now : Time) (m : Assoc Time)
    → lookup x ((mark_absent n now m).0)
      ≡ (if text_eq x n then some (since_of n now m) else lookup x m)
unfolding mark_absent since_of
lookup-mark_absent x n now m =
    ground (arith, lookup-put n x now m, text_eq_iff x n, text_eq_iff n x)
