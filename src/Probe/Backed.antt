-- ===== src/Probe/Backed.antt =====
-- One round of waitZone of internal/acme/dns_probe.go, read against the answers themselves.
use wecert.Base.{
  ℕ, ◌≤◌, ◌≡◌, ◌⊎◌, ◌↔◌, ◌==◌, inl, inr, Bool, true, false, not, ◌&&◌, ◌||◌, if◌then◌else◌, List,
  [], ◌∷◌, Text, length, arith, refl, All, Bool-cases,
}
use wecert.Probe.{
  no_error, name_error, refused_code, other_code, Reply, silent, response, probe_of, probe_txt,
  bucket_of, count_of, probe_recursive, is_pending, recursive_ready,
}
use wecert.Probe.Agreement.{IsAgreed, probe_ready_iff}
use wecert.Probe.Zone.{
  RecordAnswers, all_ready, is_unreachable, each_unreachable, all_authoritative_probes_unreachable,
  resolvers_of, none_pending,
}

-- Nothing came back, or an answer that was cut off.
abbrev pub is_lost : Reply → Bool
is_lost silent = true
is_lost (response no_error truncated authoritative has_txt) = truncated
is_lost (response name_error truncated authoritative has_txt) = false
is_lost (response refused_code truncated authoritative has_txt) = false
is_lost (response other_code truncated authoritative has_txt) = false

abbrev pub IsUnreached : List (Text × Reply) → Type 0
IsUnreached replies = (1 ≤ length replies) × All (λ a. is_lost a.1 ≡ true) replies

-- A resolver says that the value is there, or that it is not.
abbrev pub says_present : Reply → Bool
says_present silent = false
says_present (response no_error truncated authoritative has_txt) = not truncated && has_txt
says_present (response name_error truncated authoritative has_txt) = false
says_present (response refused_code truncated authoritative has_txt) = false
says_present (response other_code truncated authoritative has_txt) = false

abbrev pub says_absent : Reply → Bool
says_absent silent = false
says_absent (response no_error truncated authoritative has_txt) = not truncated && not has_txt
says_absent (response name_error truncated authoritative has_txt) = not truncated
says_absent (response refused_code truncated authoritative has_txt) = false
says_absent (response other_code truncated authoritative has_txt) = false

abbrev pub any_present : List Reply → Bool
any_present [] = false
any_present (r ∷ rs) = says_present r || any_present rs

abbrev pub any_absent : List Reply → Bool
any_absent [] = false
any_absent (r ∷ rs) = says_absent r || any_absent rs

-- No resolver denies the value, and one returns it, or there are resolvers and none says anything.
abbrev pub IsUndenied : List Reply → Type 0
IsUndenied replies =
    (any_absent replies ≡ false) × ((any_present replies ≡ true) ⊎ (1 ≤ length replies))

-- What is behind a round that ends well.
abbrev pub IsBacked : ℕ → List RecordAnswers → Type 0
IsBacked delegated answers =
    (All (λ a. IsAgreed delegated a.replies) answers ⊎ All (λ a. IsUnreached a.replies) answers)
    × All (λ a. IsUndenied a.resolvers) answers

all_ready_iff :
    (delegated : ℕ) (answers : List RecordAnswers)
    → (all_ready delegated answers ≡ true) ↔ All (λ a. IsAgreed delegated a.replies) answers
unfolding all_ready
all_ready_iff delegated [] = (λ h. tt, λ h. refl)
all_ready_iff delegated (a ∷ rest) =
    let (one, back) = probe_ready_iff delegated a.replies in
    let (more, back') = all_ready_iff delegated rest in
    (
      λ h. (one (ground (arith, h)), more (ground (arith, h))),
      λ h. ground (arith, back h.0, back' h.1),
    )

unreachable_of :
    (ns : Text) (r : Reply)
    → is_unreachable (bucket_of (probe_of ns r)) ≡ (if is_lost r then 1 else 0)
unfolding bucket_of probe_of
unreachable_of ns silent = refl
unreachable_of ns (response no_error true a h) = refl
unreachable_of ns (response no_error false true true) = refl
unreachable_of ns (response no_error false true false) = refl
unreachable_of ns (response no_error false false h) = refl
unreachable_of ns (response name_error t true h) = refl
unreachable_of ns (response name_error t false h) = refl
unreachable_of ns (response refused_code t a h) = refl
unreachable_of ns (response other_code t a h) = refl

unreachable_count :
    (replies : List (Text × Reply))
    → (count_of is_unreachable (probe_txt replies) ≤ length replies)
      × (length (probe_txt replies) ≡ length replies)
unfolding count_of probe_txt
unreachable_count [] = (ground arith, refl)
unreachable_count ((ns, r) ∷ replies) =
    let k = unreachable_count replies in (ground (arith, k, unreachable_of ns r), ground (arith, k))

lost-All :
    (replies : List (Text × Reply))
    → count_of is_unreachable (probe_txt replies) ≡ length replies
    → All (λ a. is_lost a.1 ≡ true) replies
unfolding count_of probe_txt
lost-All [] h = tt
lost-All ((ns, r) ∷ replies) h =
    let k = unreachable_count replies in
    (
      ground (arith, h, k, unreachable_of ns r),
      lost-All replies (ground (arith, h, k, unreachable_of ns r)),
    )

lost_count :
    (replies : List (Text × Reply))
    → All (λ a. is_lost a.1 ≡ true) replies
    → count_of is_unreachable (probe_txt replies) ≡ length replies
unfolding count_of probe_txt
lost_count [] h = refl
lost_count ((ns, r) ∷ replies) h = ground (arith, h.0, unreachable_of ns r, lost_count replies h.1)

each_unreachable_iff :
    (answers : List RecordAnswers)
    → (each_unreachable answers ≡ true) ↔ All (λ a. IsUnreached a.replies) answers
unfolding each_unreachable
each_unreachable_iff [] = (λ h. tt, λ h. refl)
each_unreachable_iff (a ∷ rest) =
    let k = unreachable_count a.replies in
    let (more, back) = each_unreachable_iff rest in
    (
      λ h. (
        (ground (arith, h, k), lost-All a.replies (ground (arith, h, k))),
        more (ground (arith, h)),
      ),
      λ h. ground (arith, k, h.0.0, lost_count a.replies h.0.1, back h.1),
    )

-- What probeRecursive counts.
recursive_counts :
    (replies : List Reply)
    → ((probe_recursive replies).denied ≡ any_absent replies)
      × ((probe_recursive replies).value_seen ≡ any_present replies)
      × (((probe_recursive replies).reachable == 0)
          ≡ not (any_absent replies || any_present replies))
unfolding probe_recursive
recursive_counts [] = (refl, refl, refl)
recursive_counts (silent ∷ rs) = recursive_counts rs
recursive_counts (response no_error true a v ∷ rs) = recursive_counts rs
recursive_counts (response no_error false a true ∷ rs) =
    let k = recursive_counts rs in (k.0, refl, ground arith)
recursive_counts (response no_error false a false ∷ rs) =
    let k = recursive_counts rs in (refl, k.1, ground arith)
recursive_counts (response name_error true a v ∷ rs) = recursive_counts rs
recursive_counts (response name_error false a v ∷ rs) =
    let k = recursive_counts rs in (refl, k.1, ground arith)
recursive_counts (response refused_code true a v ∷ rs) = recursive_counts rs
recursive_counts (response refused_code false a v ∷ rs) = recursive_counts rs
recursive_counts (response other_code true a v ∷ rs) = recursive_counts rs
recursive_counts (response other_code false a v ∷ rs) = recursive_counts rs

is_pending_iff : (replies : List Reply) → (is_pending replies ≡ false) ↔ IsUndenied replies
unfolding is_pending
is_pending_iff replies =
    let k = recursive_counts replies in (λ h. ground (arith, h, k), λ h. ground (arith, h, k))

recursive_ready_iff :
    (answers : List RecordAnswers)
    → (recursive_ready (resolvers_of answers) ≡ true) ↔ All (λ a. IsUndenied a.resolvers) answers
unfolding recursive_ready
recursive_ready_iff [] = (λ h. tt, λ h. refl)
recursive_ready_iff (a ∷ rest) =
    let (one, back) = is_pending_iff a.resolvers in
    let (more, back') = recursive_ready_iff rest in
    (
      λ h. (one (ground (arith, h)), more (ground (arith, h))),
      λ h. ground (arith, back h.0, back' h.1),
    )

pub none_pending-IsBacked :
    (delegated : ℕ) (answers : List RecordAnswers)
    → none_pending delegated answers ≡ true
    → IsBacked delegated answers
unfolding none_pending all_authoritative_probes_unreachable
none_pending-IsBacked delegated answers h = (
  elim (Bool-cases (all_ready delegated answers)) [
    | inl e ↦ inl ((all_ready_iff delegated answers).0 e)
    | inr e ↦ inr ((each_unreachable_iff answers).0 (ground (arith, h, e)))
  ],
  (recursive_ready_iff answers).0 (ground (arith, h)),
)

pub IsBacked-none_pending :
    (delegated : ℕ) (answers : List RecordAnswers)
    → IsBacked delegated answers
    → none_pending delegated answers ≡ true
unfolding none_pending all_authoritative_probes_unreachable all_ready
IsBacked-none_pending delegated answers (inl agreed, undenied) =
    ground
      (arith, (all_ready_iff delegated answers).1 agreed, (recursive_ready_iff answers).1 undenied)
IsBacked-none_pending delegated [] (inr lost, undenied) =
    ground (arith, (recursive_ready_iff []).1 undenied)
IsBacked-none_pending delegated (a ∷ rest) (inr lost, undenied) =
    ground
      (arith, (each_unreachable_iff (a ∷ rest)).1 lost, (recursive_ready_iff (a ∷ rest)).1 undenied)
