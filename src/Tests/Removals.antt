-- ===== src/Tests/Removals.antt =====
-- applyGrace of internal/onboarding/onboard_policy.go on a name that flaps.
use wecert.Base.{
  true, has_prefix, ◌≡◌, ◌||◌, false, some, List, [], ◌∷◌, Text, text_eq, mem, codes, ◌*◌, arith,
  refl,
}
use wecert.Base.Int.{pos}
use wecert.Base.Time.{Time, hour, sub}
use wecert.Group.{is_wildcard}
use wecert.Base.Assoc.{lookup}
use wecert.Absence.{served_by_rule, covered_by_a_rule, GraceRun, apply_grace}
use wecert.Absence.Rounds.{run_rounds, removed-run_rounds, removed-run_rounds_absent}

abbrev app : Text
app = codes "app.example.com"

-- An unforced round at the hour, with the names that are declared.
abbrev round_at : Time → List Text → GraceRun
round_at now declared = record {
  force = false;
  grace_period = pos (72 * hour);
  now = now;
  last_names = app ∷ [];
  declared = declared;
  guard_unavailable = false;
  rules = some [];
}

abbrev first_round : GraceRun
first_round = round_at (1000 * hour) (app ∷ [])

abbrev last_round : GraceRun
last_round = round_at (1071 * hour) []

abbrev between : List (GraceRun × List Text)
between = (round_at (1010 * hour) [], []) ∷ (round_at (1040 * hour) [], []) ∷ []

removed-run_rounds_example :
    let s =
      apply_grace last_round [] (run_rounds between (apply_grace first_round [] []).absent_since) in
    (mem app s.removed ≡ false)
    × (mem app s.eligible ≡ (mem app [] || mem app last_round.last_names))
unfolding mem text_eq sub
removed-run_rounds_example =
    removed-run_rounds first_round last_round [] [] [] between app refl (ground arith)
      (ground arith) refl (ground arith)

abbrev other_rule : List Text
other_rule = codes "other.example.com" ∷ []

abbrev absent_round : Time → GraceRun
absent_round now = record (round_at now []) { rules = some other_rule }

abbrev absent_between : List (GraceRun × List Text)
absent_between = (absent_round (1040 * hour), []) ∷ []

other_rule-served : served_by_rule app other_rule ≡ false
unfolding served_by_rule covered_by_a_rule is_wildcard has_prefix mem text_eq
other_rule-served = refl

removed-run_rounds_absent_example :
    let s =
      apply_grace
        (absent_round (1072 * hour))
        []
        (run_rounds absent_between (apply_grace (absent_round (1000 * hour)) [] []).absent_since) in
    (mem app s.removed ≡ true) × (mem app s.eligible ≡ false)
unfolding mem text_eq sub lookup
removed-run_rounds_absent_example =
    removed-run_rounds_absent (absent_round (1000 * hour)) (absent_round (1072 * hour)) [] [] []
      absent_between app other_rule refl refl (refl, tt) refl refl refl other_rule-served
      (ground arith)
