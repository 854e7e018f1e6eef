-- ===== src/Advance/Poll.antt =====
-- The loop of awaitOrderStatus of internal/acme/flow_order.go ends, and what it returns is the CA's.
use wecert.Base.{
  ℕ, zero, suc, ◌+◌, ◌*◌, ◌≤◌, ◌<◌, ◌≡◌, ◌⊎◌, inl, inr, true, false, ◌||◌, Option, none, some, Text,
  codes, ok, arith, refl, ap, sym, ◌∙◌, Bool-cases, is_some,
}
use wecert.Base.Time.{Time, after, second}
use wecert.Issue.{NewOrder}
use wecert.Advance.{Authority, is_status, Polled, polled, await_loop, order_wait_timeout}

module _ (ca : Authority) (want : Text) (deadline : Time) where
  -- The answers that a wait has seen, up to the one that it returns.
  pub data Awaited (n : ℕ) (o : NewOrder) : ℕ → Type 0 where
    arrives :
        (k : ℕ)
        → ca.fetch k ≡ some o
        → (is_status want o || is_status (codes "valid") o) ≡ true
        → suc k ≡ n
        → Awaited n o k
    waits :
        (k : ℕ) (p : NewOrder)
        → ca.fetch k ≡ some p
        → (is_status want p || is_status (codes "valid") p) ≡ false
        → is_status (codes "invalid") p ≡ false
        → Awaited n o (suc k)
        → Awaited n o k

  polled_ends :
      (k : ℕ) (rest : Polled) (answer : Option NewOrder)
      → (is_some rest ≡ true) ⊎ (after (ca.clock k) deadline ≡ true)
      → is_some (polled ca want deadline k rest answer) ≡ true
  polled_ends k rest none h = refl
  polled_ends k rest (some o) h = ground (arith, h)

  -- Where each wait takes an interval, the loop ends before the fuel for it runs out.
  await_loop_ends :
      (interval fuel k : ℕ)
      → ((j : ℕ) → k < j → ca.clock j + interval ≤ ca.clock (suc j))
      → deadline < ca.clock (suc k) + fuel * interval
      → is_some (await_loop ca want deadline (suc fuel) k) ≡ true
  unfolding await_loop
  await_loop_ends interval zero k waited h =
      polled_ends (suc k) none (ca.fetch k) (inr (ground (arith, h)))
  await_loop_ends interval (suc fuel) k waited h =
      polled_ends (suc k) (await_loop ca want deadline (suc fuel) (suc k)) (ca.fetch k) (
        inl (
          await_loop_ends interval fuel (suc k) (λ j l. waited j (omega (arith, l)))
            (omega (arith, h, waited (suc k) (omega arith)))))

  polled_here :
      (k : ℕ) (rest : Polled) (p : NewOrder)
      → (is_status want p || is_status (codes "valid") p) ≡ true
      → polled ca want deadline k rest (some p) ≡ some (ok p, k)
  polled_here k rest p h = rw h refl

  -- A wait that goes on past an answer goes on with the rest.
  polled_on :
      (k n : ℕ) (o p : NewOrder) (rest : Polled)
      → (is_status want p || is_status (codes "valid") p) ≡ false
      → polled ca want deadline k rest (some p) ≡ some (ok o, n)
      → (is_status (codes "invalid") p ≡ false) × (rest ≡ some (ok o, n))
  polled_on k n o p rest there h = ground (arith, there, h)

  at_end :
      {k n : ℕ} {p o : NewOrder} → Path Polled (some (ok p, k)) (some (ok o, n)) → (p ≡ o) × (k ≡ n)
  at_end {k} {n} {p} {o} e = (cc, cc)

  polled-Awaited :
      (k n : ℕ) (o : NewOrder) (rest : Polled) (answer : Option NewOrder)
      → ca.fetch k ≡ answer
      → (rest ≡ some (ok o, n) → Awaited n o (suc k))
      → polled ca want deadline (suc k) rest answer ≡ some (ok o, n)
      → Awaited n o k
  polled-Awaited k n o rest none e later h = cc
  polled-Awaited k n o rest (some p) e later h =
      elim (Bool-cases (is_status want p || is_status (codes "valid") p)) [
        | inl here ↦
            let q = at_end (sym (polled_here (suc k) rest p here) ∙ h) in
            arrives k (e ∙ ap (λ x. some x) q.0)
              (ap (λ x. is_status want x || is_status (codes "valid") x) (sym q.0) ∙ here) q.1
        | inr there ↦
            let q = polled_on (suc k) n o p rest there h in waits k p e there q.0 (later q.1)
      ]

  await_loop-Awaited_from :
      (fuel k n : ℕ) (o : NewOrder)
      → await_loop ca want deadline fuel k ≡ some (ok o, n)
      → Awaited n o k
  unfolding await_loop
  await_loop-Awaited_from zero k n o h = cc
  await_loop-Awaited_from (suc fuel) k n o h =
      polled-Awaited k n o (await_loop ca want deadline fuel (suc k)) (ca.fetch k) refl
        (λ q. await_loop-Awaited_from fuel (suc k) n o q) h

-- The wait for an order ends within 42 fetches: for a clock that does not step back before the first of
-- them and moves by at least the polling interval of three seconds before each further one, and the two
-- minutes that the program allows.
pub await_loop_ends_in_time :
    (ca : Authority) (want : Text) (k : ℕ)
    → ca.clock k ≤ ca.clock (suc k)
    → ((j : ℕ) → k < j → ca.clock j + 3 * second ≤ ca.clock (suc j))
    → is_some (await_loop ca want (ca.clock k + order_wait_timeout) 42 k) ≡ true
await_loop_ends_in_time ca want k first waited =
    await_loop_ends ca want (ca.clock k + order_wait_timeout) (3 * second) 41 k waited
      (omega (arith, first))

-- What the wait returns without an error is an answer of the CA of which the status is the wanted one or
-- valid, and each answer before it was of neither and not invalid, whatever fuel there is.
pub await_loop-Awaited :
    (ca : Authority) (want : Text) (deadline : Time) (fuel k n : ℕ) (o : NewOrder)
    → await_loop ca want deadline fuel k ≡ some (ok o, n)
    → Awaited ca want deadline n o k
await_loop-Awaited ca want deadline fuel k n o h =
    await_loop-Awaited_from ca want deadline fuel k n o h
