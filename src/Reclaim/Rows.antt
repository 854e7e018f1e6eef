-- ===== src/Reclaim/Rows.antt =====
-- The loops of internal/acme/flow_cleanup.go drop a row only on evidence.
use wecert.Base.{◌≡◌, Bool, true, false, List, ◌∷◌, Text}
use wecert.Leases.{Provider}
use wecert.AuthzStore.{Authorization, has_key}
use wecert.AuthzStore.Rows.{has_row}
use wecert.Reclaim.{Surroundings, Held}
use wecert.Reclaim.Sweep.{clean_orphan}
use wecert.Reclaim.Grounds.{Evidence}

module _ {p : Provider} (s : Surroundings p) (c u : Text) where
  abbrev has : Held p → Bool
  has h = has_row c u h.authz.rows

  -- What a round does to a row: where it is lost, it is that of the authorization of the round.
  abbrev LostOnly : Held p → Authorization → Type 0 → Held p → Type 0
  LostOnly h a P h' = has h ≡ true → has h' ≡ false → (has_key c u a ≡ true) × P

  -- Along the rounds of the loop, one that forgets the row of the key on evidence at that point.
  pub data Forgotten : Held p → List Authorization → Type 0 where
    in_round :
        (h : Held p) (a : Authorization) (authzs : List Authorization)
        → has_key c u a ≡ true
        → Evidence s h a
        → Forgotten h (a ∷ authzs)
    in_later_round :
        (h : Held p) (a : Authorization) (authzs : List Authorization)
        → Forgotten (clean_orphan s h a) authzs
        → Forgotten h (a ∷ authzs)
