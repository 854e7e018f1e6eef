-- ===== src/Onboard.antt =====
-- The change budget of internal/onboarding: onboard_budget.go over the ledger of state.go, past the
-- building of the certificates. A round that is frozen or unchanged publishes nothing.
pub mod Budget
use wecert.Base.{
  ℕ, zero, suc, ◌+◌, ◌≡◌, Bool, true, false, not, ◌&&◌, ◌||◌, Option, none, some, if◌then◌else◌,
  List, [], ◌∷◌, ◌++◌, Text, text_eq, leb, length, sort,
}
use wecert.Base.Assoc.{Assoc, lookup}
use wecert.Base.Int.{pos, ◌-ℤ◌}
use wecert.Base.Time.{Time, Duration, before, after, add}
use wecert.Group.{registered_domain}

-- State, without the absences
pub record Ledger : Type 0 where
  pub last_revision : Text
  pub last_names : List Text
  pub last_declared : List Text
  pub changes : List Time
  pub updated_at : Time

-- The options of the budget.
pub record Options : Type 0 where
  pub force : Bool
  pub budget : ℕ
  pub budget_window : Duration
  pub blocked_registered_domains : Assoc Time

-- What a round has built, and the revision of the document that is written.
pub record Built : Type 0 where
  pub certs : List (List Text)
  pub revision : Text
  pub declared : List Text
  pub eligible : List Text
  pub previous : Option Text

pub data Mode : Type 0 where
  publishing unchanged frozen : Mode

abbrev pub record_change : Ledger → Time → Ledger
record_change s now = record s { changes = s.changes ++ (now ∷ []) }

-- What the loop of ChangesWithin keeps.
unfoldable pub kept_changes : Time → List Time → List Time
kept_changes cutoff [] = []
kept_changes cutoff (t ∷ ts) =
    let rest = kept_changes cutoff ts in if before t cutoff then rest else t ∷ rest

abbrev pub cutoff_of : Options → Time → Time
cutoff_of o now = add now (pos 0 -ℤ o.budget_window)

-- ChangesWithin: the ledger without what is older, and the count of the rest.
unfoldable pub changes_within : Options → Ledger → Time → Ledger × ℕ
unfolding kept_changes add
changes_within o s now =
    let kept = kept_changes (cutoff_of o now) s.changes in
    (record s { changes = kept }, length kept)

-- Whether the desired state is a change.
unfoldable pub is_change : Ledger → Built → Bool
is_change s b =
    let previous : Text = elim b.previous [ none ↦ [] | some rev ↦ rev ] in
    (not (text_eq b.revision s.last_revision) && not (text_eq b.revision previous))
    || (not (text_eq previous []) && not (text_eq b.revision previous))

-- Past ChangesWithin.
unfoldable pub within_budget : Options → Time → Ledger × ℕ → Ledger × Mode
within_budget o now (s, used) =
    if leb o.budget used then (s, frozen) else (record_change s now, publishing)

-- assemble, as far as it writes the ledger
unfoldable pub assemble : Options → Time → Built → Ledger → Ledger
unfolding changes_within
assemble o now b s = record ((changes_within o s now).0) {
  last_names = sort b.eligible;
  last_revision = b.revision;
  updated_at = now;
  last_declared = sort b.declared;
}

abbrev pub assembled : Options → Time → Built → Ledger × Mode → Ledger × Mode
assembled o now b (s, frozen) = (s, frozen)
assembled o now b (s, unchanged) = (assemble o now b s, unchanged)
assembled o now b (s, publishing) = (assemble o now b s, publishing)

module _ (public_suffix : Text → Text) (is_ipv6 : Text → Bool)
    (etld_plus_one : Text → Option Text) where
  unfoldable pub blocked_name : Options → Time → List Text → Bool
  blocked_name o now [] = false
  blocked_name o now (name ∷ names) =
      let rest = blocked_name o now names in
      elim (lookup (registered_domain public_suffix is_ipv6 etld_plus_one name)
        o.blocked_registered_domains) [ none ↦ rest | some until ↦ after until now || rest ]

  -- Whether blockedDomain finds one.
  unfoldable pub blocked_domain : Options → Time → List (List Text) → Bool
  unfolding blocked_name
  blocked_domain o now [] = false
  blocked_domain o now (cert ∷ certs) =
      let rest = blocked_domain o now certs in blocked_name o now cert || rest

  unfoldable pub budget : Options → Time → Built → Ledger → Ledger × Mode
  unfolding is_change blocked_domain within_budget changes_within
  budget o now b s =
      let counted = within_budget o now (changes_within o s now) in
      if not (is_change s b)
      then (
        if text_eq b.revision s.last_revision
            then s
            else record s { last_declared = sort b.declared },
        unchanged,
      )
      else if o.force
      then (record_change s now, publishing)
      else if blocked_domain o now b.certs
      then (s, frozen)
      else counted

  -- The end of a round of Run, past build.
  unfoldable pub conclude : Options → Time → Built → Ledger → Ledger × Mode
  unfolding budget assemble
  conclude o now b s = assembled o now b (budget o now b s)
