-- ===== src/Cooldown/Counters.antt =====
-- The counters of internal/acme/manager.go: order fetches that failed, and certificates booked.
use wecert.Base.{
  ℕ, suc, ◌+◌, ◌<◌, ◌≡◌, not, ◌&&◌, if◌then◌else◌, List, [], ◌∷◌, Text, text_eq, text_eq_iff, mem,
  leb, ◌==◌, arith, refl, inl, inr, Bool-cases,
}
use wecert.Base.Assoc.{lookup-put, lookup-remove}
use wecert.Cooldown.{
  Memory, count_at, max_order_fetch_failures, note_order_fetch_failure, clear_order_fetch_failures,
  note_cert_spend,
}

-- What happens to an order's fetch: it fails or it answers.
pub data Fetch : Type 0 where
  fetch_failed : Text → Fetch
  fetch_answered : Text → Fetch

-- The maps after some fetches, and how often an order was given up.
unfoldable pub fetch_all : Memory → Text → List Fetch → Memory × ℕ
fetch_all m url [] = (m, 0)
fetch_all m url (fetch_failed u ∷ fs) =
    let (m', dead) = note_order_fetch_failure m u in
    let (m'', n) = fetch_all m' url fs in (m'', if dead && text_eq u url then suc n else n)
fetch_all m url (fetch_answered u ∷ fs) = fetch_all (clear_order_fetch_failures m u) url fs

-- The longest count that a run of failures of an order reaches: `k` failures precede, an answer of
-- the order starts again, and a fourth failure gives it up and starts again.
unfoldable pub give_ups : ℕ → Text → List Fetch → ℕ
give_ups k url [] = 0
give_ups k url (fetch_failed u ∷ fs) =
    let same = give_ups k url fs in
    let next = give_ups (suc k) url fs in
    let again = give_ups 0 url fs in
    if text_eq u url then (if suc k == max_order_fetch_failures then suc again else next) else same
give_ups k url (fetch_answered u ∷ fs) =
    let same = give_ups k url fs in
    let again = give_ups 0 url fs in if text_eq u url then again else same

count_at-note :
    (m : Memory) (u url : Text)
    → count_at url (note_order_fetch_failure m u).0.order_fetch_fails ≡ (
        if text_eq u url
        then (if leb max_order_fetch_failures (suc (count_at url m.order_fetch_fails))
            then 0
            else suc (count_at url m.order_fetch_fails))
        else count_at url m.order_fetch_fails)
unfolding note_order_fetch_failure
count_at-note m u url = grind (
  arith,
  text_eq_iff u url,
  lookup-put {V = ℕ} u url (count_at u m.order_fetch_fails + 1) m.order_fetch_fails,
  lookup-remove {V = ℕ} u url,
)

count_at-clear :
    (m : Memory) (u url : Text)
    → count_at url (clear_order_fetch_failures m u).order_fetch_fails
      ≡ (if text_eq u url then 0 else count_at url m.order_fetch_fails)
unfolding clear_order_fetch_failures
count_at-clear m u url = ground (arith, lookup-remove {V = ℕ} u url m.order_fetch_fails)

dead_lem :
    (m : Memory) (u : Text)
    → (note_order_fetch_failure m u).1
      ≡ leb max_order_fetch_failures (suc (count_at u m.order_fetch_fails))
unfolding note_order_fetch_failure
dead_lem m u = ground arith

fetch_all_from :
    (m : Memory) (url : Text) (fs : List Fetch) (k : ℕ)
    → count_at url m.order_fetch_fails ≡ k
    → k < max_order_fetch_failures
    → (fetch_all m url fs).1 ≡ give_ups k url fs
unfolding fetch_all give_ups
fetch_all_from m url [] k e h = refl
fetch_all_from m url (fetch_answered u ∷ fs) k e h = grind (
  arith,
  count_at-clear m u url,
  fetch_all_from (clear_order_fetch_failures m u) url fs k,
  fetch_all_from (clear_order_fetch_failures m u) url fs 0,
)
fetch_all_from m url (fetch_failed u ∷ fs) k e h = elim (Bool-cases (text_eq u url)) [
  | inl s ↦ grind (
    arith,
    text_eq_iff u url,
    count_at-note m u url,
    dead_lem m u,
    fetch_all_from (note_order_fetch_failure m u).0 url fs (suc k),
    fetch_all_from (note_order_fetch_failure m u).0 url fs 0,
  )
  | inr s ↦
      grind (arith, count_at-note m u url, fetch_all_from (note_order_fetch_failure m u).0 url fs k)
]

-- An order is given up exactly at every fourth failure in a row, whatever other orders do in between:
-- an answer of the order itself starts its row again, and so does giving it up. This is for a count
-- below four to begin with, which is where the row stands.
pub fetch_all-give_ups :
    (m : Memory) (url : Text) (fs : List Fetch)
    → count_at url m.order_fetch_fails < max_order_fetch_failures
    → (fetch_all m url fs).1 ≡ give_ups (count_at url m.order_fetch_fails) url fs
fetch_all-give_ups m url fs h = fetch_all_from m url fs (count_at url m.order_fetch_fails) refl h

-- Downloads of certificates, in their order, with how often one was to be booked.
unfoldable pub book_all : Memory → Text → List Text → ℕ
book_all m url [] = 0
book_all m url (u ∷ us) =
    let (m', booked) = note_cert_spend m u in
    let n = book_all m' url us in if booked && text_eq u url then suc n else n

-- However often certificates are downloaded, in whatever order, each one that is not booked yet is
-- booked once if it occurs, and one that is booked is not booked again.
pub book_all_once :
    (m : Memory) (url : Text) (us : List Text)
    → book_all m url us ≡ (if mem url us && not (mem url m.spent_cert_urls) then 1 else 0)
unfolding book_all note_cert_spend mem
book_all_once m url [] = ground arith
book_all_once m url (u ∷ us) =
    ground
      (arith, text_eq_iff u url, text_eq_iff url u, book_all_once (note_cert_spend m u).0 url us)
