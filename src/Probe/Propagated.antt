-- ===== src/Probe/Propagated.antt =====
-- The rounds of waitZone of internal/acme/dns_probe.go.
use wecert.Base.{ℕ, ◌≡◌, ◌↔◌, inl, inr, true, false, some, List, [], ◌∷◌, arith, Bool-cases}
use wecert.Base.Time.{Time, before}
use wecert.Probe.Zone.{ZoneRound, propagated, none_pending, wait_zone}
use wecert.Probe.Backed.{IsBacked, none_pending-IsBacked, IsBacked-none_pending}

-- Of the rounds, the first that is backed is reached, and is not cancelled: each one before it goes on,
-- for it is not cancelled, in its probes or in its sleep, and ends before the deadline.
pub data EndsBacked (delegated : ℕ) (deadline : Time) : List ZoneRound → Type 0 where
  here :
      (r : ZoneRound) (rs : List ZoneRound)
      → r.cancelled ≡ false
      → IsBacked delegated r.answers
      → EndsBacked delegated deadline (r ∷ rs)
  later :
      (r : ZoneRound) (rs : List ZoneRound)
      → (IsBacked delegated r.answers → ⊥)
      → r.cancelled ≡ false
      → before r.now deadline ≡ true
      → r.cancelled_asleep ≡ false
      → EndsBacked delegated deadline rs
      → EndsBacked delegated deadline (r ∷ rs)

propagated-EndsBacked :
    (delegated : ℕ) (deadline : Time) (rounds : List ZoneRound)
    → wait_zone delegated deadline rounds ≡ some propagated
    → EndsBacked delegated deadline rounds
unfolding wait_zone
propagated-EndsBacked delegated deadline [] h = cc
propagated-EndsBacked delegated deadline (r ∷ rs) h =
    elim (Bool-cases (none_pending delegated r.answers)) [
      | inl e ↦ here r rs (ground (arith, h, e)) (none_pending-IsBacked delegated r.answers e)
      | inr e ↦
          later r rs (λ b. ground (arith, e, IsBacked-none_pending delegated r.answers b))
            (ground (arith, h, e)) (ground (arith, h, e)) (ground (arith, h, e))
            (propagated-EndsBacked delegated deadline rs (ground (arith, h, e)))
    ]

EndsBacked-propagated :
    (delegated : ℕ) (deadline : Time) {rounds : List ZoneRound}
    → EndsBacked delegated deadline rounds
    → wait_zone delegated deadline rounds ≡ some propagated
unfolding wait_zone
EndsBacked-propagated delegated deadline (here r rs c b) =
    ground (arith, c, IsBacked-none_pending delegated r.answers b)
EndsBacked-propagated delegated deadline (later r rs n c b z e) =
    elim (Bool-cases (none_pending delegated r.answers)) [
      | inl k ↦ elim (n (none_pending-IsBacked delegated r.answers k)) [ ]
      | inr k ↦ ground (arith, k, c, b, z, EndsBacked-propagated delegated deadline e)
    ]

-- waitZone ends well exactly in the first round in which for every record the servers agree, or for
-- every record no address gave a whole answer, and in which for every record the recursive resolvers do
-- not deny it: if that round is reached before the deadline and none up to it was cancelled. Servers
-- agree where none that answers with authority denies the value and two of different names return it,
-- or one that is the only name that the zone delegates to and that resolved. Resolvers do not deny it
-- where none says that it is absent and one returns it, or there are some and none says anything.
pub wait_zone_iff :
    (delegated : ℕ) (deadline : Time) (rounds : List ZoneRound)
    → (wait_zone delegated deadline rounds ≡ some propagated) ↔ EndsBacked delegated deadline rounds
wait_zone_iff delegated deadline rounds =
    (propagated-EndsBacked delegated deadline rounds, EndsBacked-propagated delegated deadline)
