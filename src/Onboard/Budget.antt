-- ===== src/Onboard/Budget.antt =====
-- The change budget of internal/onboarding/onboard_budget.go holds over any run of rounds.
use wecert.Base.{
  ℕ, suc, ◌+◌, ◌≤◌, ◌≡◌, inl, inr, Bool, true, false, not, Option, if◌then◌else◌, List, [], ◌∷◌,
  ◌++◌, Text, text_eq, leb, length, sort, arith, refl, ap, ◌∙◌, Bool-cases,
}
use wecert.Base.Time.{Time, before, add}
use wecert.Onboard.{
  Ledger, Options, Built, Mode, publishing, unchanged, frozen, record_change, kept_changes,
  cutoff_of, changes_within, is_change, blocked_domain, within_budget, budget, assemble, assembled,
  conclude,
}

-- The instants that are not before another.
unfoldable pub since : Time → List Time → ℕ
since c [] = 0
since c (t ∷ ts) = (if before t c then 0 else 1) + since c ts

since-kept_changes :
    (c cutoff : Time) (ts : List Time) → cutoff ≤ c → since c (kept_changes cutoff ts) ≡ since c ts
unfolding since kept_changes
since-kept_changes c cutoff [] h = refl
since-kept_changes c cutoff (t ∷ ts) h = ground (arith, h, since-kept_changes c cutoff ts h)

length-kept_changes :
    (cutoff : Time) (ts : List Time) → length (kept_changes cutoff ts) ≡ since cutoff ts
unfolding since kept_changes
length-kept_changes cutoff [] = refl
length-kept_changes cutoff (t ∷ ts) = ground (arith, length-kept_changes cutoff ts)

since-append : (c t : Time) (ts : List Time) → since c (ts ++ (t ∷ [])) ≡ since c (t ∷ ts)
unfolding since
since-append c t [] = refl
since-append c t (u ∷ ts) = ground (arith, since-append c t ts)

since-cons-le : (c t : Time) (ts : List Time) → since c (t ∷ ts) ≤ suc (since c ts)
unfolding since
since-cons-le c t ts = ground arith

cutoff_of-le : (o : Options) (now now' : Time) → now ≤ now' → cutoff_of o now ≤ cutoff_of o now'
unfolding add
cutoff_of-le o now now' h = ground (arith, h)

-- The ledger counts what was published, as far back as a window from `now` reaches.
abbrev pub Agrees : Options → Time → Ledger → List Time → Type 0
Agrees o now s log = (c : Time) → cutoff_of o now ≤ c → since c s.changes ≡ since c log

-- At each publication the window before it holds no more than the budget, itself included.
abbrev pub WithinBudget : Options → List Time → Type 0
WithinBudget o [] = Unit
WithinBudget o (p ∷ log) = (since (cutoff_of o p) (p ∷ log) ≤ o.budget) × WithinBudget o log

-- The publications past a round.
abbrev pub logged : Time → Mode → List Time → List Time
logged now publishing log = now ∷ log
logged now unchanged log = log
logged now frozen log = log

-- What is shown of a round at `now` after publications that are within the budget.
abbrev Kept : Options → Time → List Time → Ledger × Mode → Type 0
Kept o now log r = Agrees o now r.0 (logged now r.1 log) × WithinBudget o (logged now r.1 log)

Agrees-later :
    (o : Options) (now now' : Time) (s : Ledger) (log : List Time)
    → now ≤ now'
    → Agrees o now s log
    → Agrees o now' s log
Agrees-later o now now' s log le h c l = h c (omega (arith, cutoff_of-le o now now' le, l))

module _ (o : Options) (now : Time) (log : List Time) (within : WithinBudget o log) where
  Kept-frozen : (s : Ledger) → Agrees o now s log → Kept o now log (s, frozen)
  Kept-frozen s h = (h, within)

  Agrees-changes_within :
      (s : Ledger) → Agrees o now s log → Agrees o now (changes_within o s now).0 log
  unfolding changes_within
  Agrees-changes_within s h c l = since-kept_changes c (cutoff_of o now) s.changes l ∙ h c l

  used :
      (s : Ledger) → Agrees o now s log → (changes_within o s now).1 ≡ since (cutoff_of o now) log
  unfolding changes_within
  used s h = length-kept_changes (cutoff_of o now) s.changes ∙ h (cutoff_of o now) (omega arith)

  Agrees-record_change :
      (s : Ledger) → Agrees o now s log → Agrees o now (record_change s now) (now ∷ log)
  unfolding since
  Agrees-record_change s h c l = ground (arith, since-append c now s.changes, h c l)

  Kept-within_budget :
      (s : Ledger) (n : ℕ)
      → Agrees o now s log
      → n ≡ since (cutoff_of o now) log
      → Kept o now log (within_budget o now (s, n))
  unfolding within_budget
  Kept-within_budget s n h e = elim (Bool-cases (leb o.budget n)) [
    | inl over ↦ rw over (h, within)
    | inr free ↦ rw free (
      Agrees-record_change s h,
      (ground (arith, free, e, since-cons-le (cutoff_of o now) now log), within),
    )
  ]

  -- The end of the round keeps what the budget left.
  Kept-assembled :
      (b : Built) (r : Ledger × Mode) → Kept o now log r → Kept o now log (assembled o now b r)
  unfolding assemble changes_within
  Kept-assembled b (s, frozen) h = h
  Kept-assembled b (s, unchanged) h =
      (λ c l. since-kept_changes c (cutoff_of o now) s.changes l ∙ h.0 c l, h.1)
  Kept-assembled b (s, publishing) h =
      (λ c l. since-kept_changes c (cutoff_of o now) s.changes l ∙ h.0 c l, h.1)

  unchanged_ledger :
      (b : Built) (s : Ledger)
      → (if text_eq b.revision s.last_revision
          then s
          else record s { last_declared = sort b.declared }).changes
        ≡ s.changes
  unchanged_ledger b s = elim (Bool-cases (text_eq b.revision s.last_revision)) [
    | inl e ↦ rw e refl
    | inr e ↦ rw e refl
  ]

  by_case :
      (b : Bool) (x y : Ledger × Mode)
      → (b ≡ true → Kept o now log x)
      → (b ≡ false → Kept o now log y)
      → Kept o now log (if b then x else y)
  by_case true x y h k = h refl
  by_case false x y h k = k refl

  module _ (public_suffix : Text → Text) (is_ipv6 : Text → Bool)
      (etld_plus_one : Text → Option Text) where
    Kept-budget :
        (b : Built) (s : Ledger)
        → o.force ≡ false
        → Agrees o now s log
        → Kept o now log (budget public_suffix is_ipv6 etld_plus_one o now b s)
    unfolding budget
    Kept-budget b s free h =
        by_case (not (is_change s b)) _ _
          (λ e. (λ c l. ap (since c) (unchanged_ledger b s) ∙ h c l, within))
          (λ e.
            by_case o.force _ _ (λ forced. cc)
              (λ e.
                by_case (blocked_domain public_suffix is_ipv6 etld_plus_one o now b.certs) _ _
                  (λ e. (h, within))
                  (λ e.
                    Kept-within_budget (changes_within o s now).0 (changes_within o s now).1
                      (Agrees-changes_within s h) (used s h))))

    Kept-conclude :
        (b : Built) (s : Ledger)
        → o.force ≡ false
        → Agrees o now s log
        → Kept o now log (conclude public_suffix is_ipv6 etld_plus_one o now b s)
    unfolding conclude
    Kept-conclude b s free h = Kept-assembled b _ (Kept-budget b s free h)

-- The rounds of a process, each with its clock and what it built.
abbrev pub Rounds : Type 0
Rounds = List (Time × Built)

-- The clock does not step back.
abbrev pub InOrder : Time → Rounds → Type 0
InOrder last [] = Unit
InOrder last ((now, b) ∷ rounds) = (last ≤ now) × InOrder now rounds

module _ (public_suffix : Text → Text) (is_ipv6 : Text → Bool) (etld_plus_one : Text → Option Text)
    (o : Options) where
  -- The publications of the rounds, the latest first.
  unfoldable pub published : Rounds → Ledger → List Time → List Time
  published [] s log = log
  published ((now, b) ∷ rounds) s log =
      let (s', mode) = conclude public_suffix is_ipv6 etld_plus_one o now b s in
      published rounds s' (logged now mode log)

  WithinBudget-published_from :
      (rounds : Rounds) (s : Ledger) (log : List Time) (last : Time)
      → o.force ≡ false
      → InOrder last rounds
      → Agrees o last s log
      → WithinBudget o log
      → WithinBudget o (published rounds s log)
  unfolding published
  WithinBudget-published_from [] s log last free ordered h within = within
  WithinBudget-published_from ((now, b) ∷ rounds) s log last free ordered h within =
      let k =
        Kept-conclude o now log within public_suffix is_ipv6 etld_plus_one b s free
          (Agrees-later o last now s log ordered.0 h) in
      WithinBudget-published_from rounds _ _ now free ordered.1 k.0 k.1

  -- However often the desired state changes, at each publication of a change no more than the budget of
  -- changes were published in the window up to it, itself included. This is for rounds that are not
  -- forced, a clock that does not step back, and a ledger without changes to begin with.
  pub WithinBudget-published :
      (rounds : Rounds) (s : Ledger)
      → o.force ≡ false
      → InOrder 0 rounds
      → s.changes ≡ []
      → WithinBudget o (published rounds s [])
  WithinBudget-published rounds s free ordered empty =
      WithinBudget-published_from rounds s [] 0 free ordered (λ c l. ap (since c) empty) tt
