-- ===== src/Probe/Zone.antt =====
-- waitZone of internal/acme/dns_probe.go: the rounds in which the records of a zone are probed. What the
-- servers and the resolvers answer in each round, its clock and the context are arguments.
use wecert.Base.{
  ℕ, Bool, true, false, not, ◌&&◌, ◌||◌, Option, none, some, if◌then◌else◌, List, [], ◌∷◌, Text,
  ◌==◌, length,
}
use wecert.Base.Time.{Time, before}
use wecert.Probe.{Reply, probe_txt, Bucket, unreachable, count_of, probe_ready, recursive_ready}

-- What is asked for one record: its name servers, and the recursive resolvers.
pub record RecordAnswers : Type 0 where
  pub replies : List (Text × Reply)
  pub resolvers : List Reply

-- One round: the answers for each record, whether the context was cancelled by then or in the sleep
-- after it, and the time at its end.
pub record ZoneRound : Type 0 where
  pub answers : List RecordAnswers
  pub cancelled : Bool
  pub now : Time
  pub cancelled_asleep : Bool

pub data WaitEnd : Type 0 where
  propagated stopped timed_out : WaitEnd

-- probeRecords, less the summaries
unfoldable pub all_ready : ℕ → List RecordAnswers → Bool
unfolding probe_ready probe_txt
all_ready delegated [] = true
all_ready delegated (a ∷ rest) =
    probe_ready delegated (probe_txt a.replies) && all_ready delegated rest

abbrev pub is_unreachable : Bucket → ℕ
is_unreachable b = elim b [ unreachable ↦ 1 | _ ↦ 0 ]

-- The loop of allAuthoritativeProbesUnreachable, over the counts that the summaries print.
unfoldable pub each_unreachable : List RecordAnswers → Bool
unfolding count_of probe_txt
each_unreachable [] = true
each_unreachable (a ∷ rest) =
    let results = probe_txt a.replies in
    not (length results == 0)
    && (count_of is_unreachable results == length results)
    && each_unreachable rest

unfoldable pub all_authoritative_probes_unreachable : List RecordAnswers → Bool
unfolding each_unreachable
all_authoritative_probes_unreachable answers =
    if length answers == 0 then false else each_unreachable answers

abbrev pub resolvers_of : List RecordAnswers → List (List Reply)
resolvers_of [] = []
resolvers_of (a ∷ rest) = a.resolvers ∷ resolvers_of rest

-- Whether nothing is pending at the end of a round.
unfoldable pub none_pending : ℕ → List RecordAnswers → Bool
unfolding all_ready all_authoritative_probes_unreachable recursive_ready
none_pending delegated answers =
    let ready = all_ready delegated answers in
    let unreached = all_authoritative_probes_unreachable answers in
    if ready || unreached
    then (if not (recursive_ready (resolvers_of answers))
        then false
        else if unreached
        then true
        else ready)
    else ready

-- The loop; `none` where it goes on after the rounds.
unfoldable pub wait_zone : ℕ → Time → List ZoneRound → Option WaitEnd
unfolding none_pending
wait_zone delegated deadline [] = none
wait_zone delegated deadline (r ∷ rs) =
    let rest = wait_zone delegated deadline rs in
    if none_pending delegated r.answers
    then (if r.cancelled then some stopped else some propagated)
    else if r.cancelled
    then some stopped
    else if not (before r.now deadline)
    then some timed_out
    else if r.cancelled_asleep
    then some stopped
    else rest
