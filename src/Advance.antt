-- ===== src/Advance.antt =====
-- internal/acme/flow_advance.go and flow_order.go: the order in progress, from what the CA says of it to
-- the certificate that is to be downloaded. The CA's answers to the fetches of a pass are numbered, as
-- are the clock and the context after each. A pass stops where it solves challenges or downloads.
pub mod Poll
pub mod Stored
use wecert.Base.{
  ℕ, zero, suc, ◌+◌, ◌*◌, ◌≡◌, Bool, true, false, not, ◌&&◌, ◌||◌, Option, none, some,
  if◌then◌else◌, List, [], ◌∷◌, Text, text_eq, codes, Result, ok, err,
}
use wecert.Base.Time.{Time, after, minute}
use wecert.Cooldown.{note_order_fetch_failure, clear_order_fetch_failures}
use wecert.CertStore.{CertState, Order, Tables, TableError, put_order}
use wecert.Issue.{
  World, Machine, CertConfig, NewOrder, Outcome, Failure, fail, order_unfetched, order_invalid,
  poll_failed, not_reached, poll_cancelled, order_key_unreadable, csr_failed, no_finalize_url,
  csr_refused, order_unrecorded,
}
use wecert.Pass.{discard_order}

-- What the CA and the runtime answer in a pass. `fetch` and what goes with it are by the number of the
-- fetches so far; `csr` is none where the key does not parse, and has no request where it cannot be made.
pub record Authority : Type 0 where
  pub fetch : ℕ → Option NewOrder
  pub clock : ℕ → Time
  pub live : ℕ → Bool
  pub csr : Text → List Text → Option (Option Text)
  pub takes_csr : Text → Text → Bool

-- The machine, how many fetches there were, and the CSRs that were submitted.
pub record Run : Type 0 where
  pub machine : Machine
  pub fetched : ℕ
  pub submitted : List Text

-- Where a pass over an order gets to.
pub data Advanced : Type 0 where
  stops : Run → Outcome → Advanced
  solves : Run → Order → NewOrder → Advanced
  downloads : Run → Order → Advanced

abbrev pub order_wait_timeout : ℕ
order_wait_timeout = 2 * minute

abbrev pub is_status : Text → NewOrder → Bool
is_status want o = text_eq o.status want

abbrev pub Polled : Type 0
Polled = Option (Result Failure NewOrder × ℕ)

-- What a round of awaitOrderStatus makes of an answer, before the fetch `k`.
abbrev pub polled : Authority → Text → Time → ℕ → Polled → Option NewOrder → Polled
polled w want deadline k rest none = some (err poll_failed, k)
polled w want deadline k rest (some o) =
    if is_status want o || is_status (codes "valid") o
    then some (ok o, k)
    else if is_status (codes "invalid") o
    then some (err order_invalid, k)
    else if after (w.clock k) deadline
    then some (err not_reached, k)
    else if not (w.live k)
    then some (err poll_cancelled, k)
    else rest

-- The loop of awaitOrderStatus, with fuel: what it returns, and the fetches so far.
unfoldable pub await_loop : Authority → Text → Time → ℕ → ℕ → Polled
await_loop w want deadline zero k = none
await_loop w want deadline (suc fuel) k =
    let rest = await_loop w want deadline fuel (suc k) in
    polled w want deadline (suc k) rest (w.fetch k)

-- The order past persistOrder.
unfoldable pub persisted_order : Order → NewOrder → Order
persisted_order o answer = record o {
  status = answer.status;
  finalize_url = if text_eq answer.finalize [] then o.finalize_url else answer.finalize;
  cert_url = if text_eq answer.certificate [] then o.cert_url else answer.certificate;
}

-- persistOrder; a failure of the database is false.
unfoldable pub persist_order : Run → Order → NewOrder → Run × Order × Bool
unfolding persisted_order
persist_order r o answer =
    let o' = persisted_order o answer in
    let (t, e) = put_order r.machine.tables (some o') in
    (
      record r { machine = record (r.machine) { tables = t } },
      o',
      elim e [ none ↦ true | some _ ↦ false ],
    )

-- return m.recordFailure(ctx, st, err)
abbrev pub stop : World → Run → CertState → Failure → Advanced
stop w r st f = let (s, e) = fail w r.machine st f in stops (record r { machine = s }) e

module _ (w : World) (ca : Authority) (fuel : ℕ) (c : CertConfig) (st : CertState) where
  -- The answer of a wait is stored, before the certificate is downloaded.
  unfoldable pub to_download : Run × Order × Bool → Advanced
  to_download (r, o, true) = downloads r o
  to_download (r, o, false) = stop w r st order_unrecorded

  abbrev pub past_wait : Run → Order → Polled → Option Advanced
  past_wait r o none = none
  past_wait r o (some (err e, k)) = some (stop w (record r { fetched = k }) st e)
  past_wait r o (some (ok final, k)) =
      some (to_download (persist_order (record r { fetched = k }) o final))

  -- awaitOrderStatus from now on
  abbrev pub await_order : Run → Text → Polled
  await_order r want = await_loop ca want (ca.clock r.fetched + order_wait_timeout) fuel r.fetched

  -- Waits for the certificate.
  unfoldable pub await_valid : Run → Order → Option Advanced
  unfolding await_loop persist_order to_download
  await_valid r o = past_wait r o (await_order r (codes "valid"))

  -- Past the CSR of finalize.
  unfoldable pub submit : Run → Order → Option (Option Text) → Option Advanced
  unfolding await_valid
  submit r o none = some (stop w r st order_key_unreadable)
  submit r o (some none) = some (stop w r st csr_failed)
  submit r o (some (some request)) =
      if text_eq o.finalize_url []
      then some (stop w r st no_finalize_url)
      else let sent = record r { submitted = request ∷ r.submitted } in
        let waited = await_valid sent o in
        if ca.takes_csr o.finalize_url request then waited else some (stop w sent st csr_refused)

  unfoldable pub finalize : Run → Order → Option Advanced
  unfolding submit
  finalize r o = submit r o (ca.csr o.key_pem c.certificate.domains)

  -- An order that cannot go on is discarded.
  unfoldable pub drop_invalid : Run → Advanced
  unfolding discard_order
  drop_invalid r =
      let (s, e) = discard_order r.machine c.certificate.cert in
      stop w (record r { machine = s }) st order_invalid

  -- A fetch that failed, and whether the order is given up.
  unfoldable pub unfetched : Run → Order → Advanced
  unfolding note_order_fetch_failure discard_order
  unfetched r o =
      let (m, dead) = note_order_fetch_failure r.machine.memory o.order_url in
      let s = record (r.machine) { memory = m } in
      let (s', e) = discard_order s c.certificate.cert in
      stop w (record r { machine = if dead then s' else s }) st order_unfetched

  -- Past the answer of the first fetch and its storage.
  unfoldable pub by_status : NewOrder → Run × Order × Bool → Option Advanced
  unfolding drop_invalid finalize await_valid
  by_status answer (r, o, false) = some (stop w r st order_unrecorded)
  by_status answer (r, o, true) =
      let waited = await_valid r o in
      let finalized = finalize r o in
      if is_status (codes "valid") answer
      then some (downloads r o)
      else if is_status (codes "invalid") answer
      then some (drop_invalid r)
      else if is_status (codes "ready") answer
      then finalized
      else if is_status (codes "processing") answer
      then waited
      else some (solves r o answer)

  -- The run past a fetch that answered.
  abbrev pub answered : Run → Order → Run
  answered r o = record r {
    machine = record (r.machine) {
      memory = clear_order_fetch_failures r.machine.memory o.order_url;
    };
    fetched = suc r.fetched;
  }

  unfoldable pub fetched_first : Run → Order → Option NewOrder → Option Advanced
  unfolding unfetched by_status persist_order clear_order_fetch_failures
  fetched_first r o none = some (unfetched (record r { fetched = suc r.fetched }) o)
  fetched_first r o (some answer) = by_status answer (persist_order (answered r o) o answer)

  -- advance, up to the challenges
  unfoldable pub advance : Run → Order → Option Advanced
  unfolding fetched_first
  advance r o = fetched_first r o (ca.fetch r.fetched)

  abbrev pub past_ready : NewOrder → Run × Order × Bool → Option Advanced
  past_ready answer (r, o, false) = some (stop w r st order_unrecorded)
  past_ready answer (r, o, true) =
      let finalized = finalize r o in
      if is_status (codes "valid") answer then some (downloads r o) else finalized

  abbrev pub past_solving : Run → Order → Polled → Option Advanced
  past_solving r o none = none
  past_solving r o (some (err e, k)) = some (stop w (record r { fetched = k }) st e)
  past_solving r o (some (ok answer, k)) =
      past_ready answer (persist_order (record r { fetched = k }) o answer)

  -- advance, once the challenges are solved
  unfoldable pub advance_solved : Run → Order → Option Advanced
  unfolding await_loop persist_order finalize
  advance_solved r o = past_solving r o (await_order r (codes "ready"))
