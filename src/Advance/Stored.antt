-- ===== src/Advance/Stored.antt =====
-- What internal/acme/flow_advance.go has on disk when it goes on to the certificate of an order.
use wecert.Base.{
  ℕ, suc, ◌≡◌, Bool, true, false, ◌||◌, Option, none, some, if◌then◌else◌, [], ◌∷◌, Text, text_eq,
  text_eq_iff, codes, ok, err, arith, refl, ap, sym, ◌∙◌,
}
use wecert.Base.Time.{Time}
use wecert.CertStore.{CertState, Order, Tables, stored, put_order}
use wecert.Base.Assoc.{lookup, lookup-put}
use wecert.Issue.{World, CertConfig, NewOrder}
use wecert.Advance.{
  Authority, Run, Advanced, stops, solves, downloads, is_status, Polled, await_loop,
  persisted_order, persist_order, to_download, past_wait, await_order, await_valid, submit,
  finalize, drop_invalid, unfetched, by_status, answered, fetched_first, advance, past_ready,
  past_solving, advance_solved,
}
use wecert.Advance.Poll.{Awaited, arrives, waits, await_loop-Awaited}

-- The order `o'` is what the CA called valid, for the key and the certificate of `o`, and is on disk.
abbrev pub IsValid : Order → Run → Order → Type 0
IsValid o r' o' =
    (text_eq o'.status (codes "valid") ≡ true)
    × (o'.key_pem ≡ o.key_pem)
    × (o'.cert_name ≡ o.cert_name)
    × (lookup o.cert_name r'.machine.tables.orders
        ≡ some (record o' { expires_at = stored o'.expires_at }))

-- Wherever a pass gets to a download, it is of a valid order.
abbrev pub IsSound : Order → Option Advanced → Type 0
IsSound o none = Unit
IsSound o (some (stops r e)) = Unit
IsSound o (some (solves r o' answer)) = Unit
IsSound o (some (downloads r o')) = IsValid o r o'

arrived :
    (ca : Authority) (want : Text) (deadline : Time) (n : ℕ) (o : NewOrder) (k : ℕ)
    → Awaited ca want deadline n o k
    → (is_status want o || is_status (codes "valid") o) ≡ true
arrived ca want deadline n o _ (arrives k e h q) = h
arrived ca want deadline n o _ (waits k p e there live later) =
    arrived ca want deadline n o (suc k) later

status-persist_order :
    (r : Run) (o : Order) (answer : NewOrder)
    → ((persist_order r o answer).1.status ≡ answer.status)
      × ((persist_order r o answer).1.key_pem ≡ o.key_pem)
      × ((persist_order r o answer).1.cert_name ≡ o.cert_name)
unfolding persist_order persisted_order
status-persist_order r o answer = (refl, refl, refl)

lookup-put_order :
    (t : Tables) (o : Order) (name : Text)
    → (put_order t (some o)).1 ≡ none
    → o.cert_name ≡ name
    → lookup name (put_order t (some o)).0.orders
      ≡ some (record o { expires_at = stored o.expires_at })
unfolding put_order
lookup-put_order t o name h e = ground (
  arith,
  h,
  text_eq_iff o.cert_name name,
  e,
  lookup-put o.cert_name name (record o { expires_at = stored o.expires_at }) t.orders,
)

put_when_stored :
    (r : Run) (o : Order) (answer : NewOrder)
    → (persist_order r o answer).2 ≡ true
    → (put_order r.machine.tables (some (persist_order r o answer).1)).1 ≡ none
unfolding persist_order put_order
put_when_stored r o answer h = ground (arith, h)

tables-persist_order :
    (r : Run) (o : Order) (answer : NewOrder)
    → (persist_order r o answer).0.machine.tables
      ≡ (put_order r.machine.tables (some (persist_order r o answer).1)).0
unfolding persist_order
tables-persist_order r o answer = refl

-- A stored answer that says valid.
persist_order-IsValid :
    (r : Run) (o : Order) (answer : NewOrder)
    → is_status (codes "valid") answer ≡ true
    → (persist_order r o answer).2 ≡ true
    → IsValid o (persist_order r o answer).0 (persist_order r o answer).1
persist_order-IsValid r o answer valid h =
    let same = status-persist_order r o answer in
    let o' = (persist_order r o answer).1 in
    let t = r.machine.tables in
    let t' = tables-persist_order r o answer in
    (
      rw same.0 valid,
      same.1,
      same.2,
      ap (λ x. lookup o.cert_name x.orders) t'
          ∙ lookup-put_order t o' o.cert_name (put_when_stored r o answer h) same.2,
    )

-- Another order of the same certificate and key.
valid_of_same :
    (o o1 : Order) (a : Option Advanced)
    → o1.key_pem ≡ o.key_pem
    → o1.cert_name ≡ o.cert_name
    → IsSound o1 a
    → IsSound o a
valid_of_same o o1 none k n h = tt
valid_of_same o o1 (some (stops r e)) k n h = tt
valid_of_same o o1 (some (solves r o' answer)) k n h = tt
valid_of_same o o1 (some (downloads r o')) k n h =
    (h.0, h.1 ∙ k, h.2 ∙ n, ap (λ x. lookup x r.machine.tables.orders) (sym n) ∙ h.3)

module _ (w : World) (ca : Authority) (fuel : ℕ) (c : CertConfig) (st : CertState) where
  to_download-IsSound :
      (o : Order) (q : Run × Order × Bool)
      → (q.2 ≡ true → IsValid o q.0 q.1)
      → IsSound o (some (to_download w ca fuel c st q))
  unfolding to_download
  to_download-IsSound o (r, o', true) h = h refl
  to_download-IsSound o (r, o', false) h = tt

  past_wait-IsSound :
      (r : Run) (o : Order) (answer : Polled)
      → ((final : NewOrder) (k : ℕ)
          → answer ≡ some (ok final, k)
          → is_status (codes "valid") final ≡ true)
      → IsSound o (past_wait w ca fuel c st r o answer)
  past_wait-IsSound r o none h = tt
  past_wait-IsSound r o (some (err e, k)) h = tt
  past_wait-IsSound r o (some (ok final, k)) h =
      to_download-IsSound o (persist_order (record r { fetched = k }) o final)
        (λ e. persist_order-IsValid (record r { fetched = k }) o final (h final k refl) e)

  valid_arrives :
      (deadline : Time) (k n : ℕ) (final : NewOrder)
      → await_loop ca (codes "valid") deadline fuel k ≡ some (ok final, n)
      → is_status (codes "valid") final ≡ true
  valid_arrives deadline k n final e = ground (
    arith,
    arrived ca (codes "valid") deadline n final k
        (await_loop-Awaited ca (codes "valid") deadline fuel k n final e),
  )

  await_valid-IsSound : (r : Run) (o : Order) → IsSound o (await_valid w ca fuel c st r o)
  unfolding await_valid
  await_valid-IsSound r o =
      past_wait-IsSound r o (await_order w ca fuel c st r (codes "valid"))
        (λ final n e. valid_arrives _ r.fetched n final e)

  choose :
      (o : Order) (a a' : Option Advanced) (b : Bool)
      → IsSound o a
      → IsSound o a'
      → IsSound o (if b then a else a')
  choose o a a' true h k = h
  choose o a a' false h k = k

  submit-IsSound :
      (r : Run) (o : Order) (request : Option (Option Text))
      → IsSound o (submit w ca fuel c st r o request)
  unfolding submit
  submit-IsSound r o none = tt
  submit-IsSound r o (some none) = tt
  submit-IsSound r o (some (some request)) = choose o _ _ (text_eq o.finalize_url []) tt (
      choose o _ _ (ca.takes_csr o.finalize_url request)
        (await_valid-IsSound (record r { submitted = request ∷ r.submitted }) o) tt)

  finalize-IsSound : (r : Run) (o : Order) → IsSound o (finalize w ca fuel c st r o)
  unfolding finalize
  finalize-IsSound r o = submit-IsSound r o (ca.csr o.key_pem c.certificate.domains)

  -- What is known of the storage of an answer.
  abbrev IsStored : Order → NewOrder → Run × Order × Bool → Type 0
  IsStored o answer q =
      (q.1.key_pem ≡ o.key_pem)
      × (q.1.cert_name ≡ o.cert_name)
      × (q.2 ≡ true → is_status (codes "valid") answer ≡ true → IsValid o q.0 q.1)

  IsStored-persist_order :
      (r : Run) (o : Order) (answer : NewOrder) → IsStored o answer (persist_order r o answer)
  IsStored-persist_order r o answer =
      let same = status-persist_order r o answer in
      (same.1, same.2, λ h valid. persist_order-IsValid r o answer valid h)

  by_case :
      (o : Order) (b : Bool) (a a' : Option Advanced)
      → (b ≡ true → IsSound o a)
      → (b ≡ false → IsSound o a')
      → IsSound o (if b then a else a')
  by_case o true a a' h k = h refl
  by_case o false a a' h k = k refl

  unsolved :
      (o : Order) (r : Run) (o1 : Order) (answer : NewOrder) → IsSound o (some (solves r o1 answer))
  unsolved o r o1 answer = tt

  by_status-IsSound :
      (o : Order) (answer : NewOrder) (q : Run × Order × Bool)
      → IsStored o answer q
      → IsSound o (by_status w ca fuel c st answer q)
  unfolding by_status drop_invalid
  by_status-IsSound o answer (r, o1, false) h = tt
  by_status-IsSound o answer (r, o1, true) h =
      by_case o (is_status (codes "valid") answer) _ _ (λ valid. h.2 refl valid)
        (λ e.
          by_case o (is_status (codes "invalid") answer) _ _ (λ e. tt)
            (λ e.
              by_case o (is_status (codes "ready") answer) _ _
                (λ e. valid_of_same o o1 _ h.0 h.1 (finalize-IsSound r o1))
                (λ e.
                  by_case o (is_status (codes "processing") answer) _ _
                    (λ e. valid_of_same o o1 _ h.0 h.1 (await_valid-IsSound r o1)) (λ e. tt))))

  fetched_first-IsSound :
      (r : Run) (o : Order) (answer : Option NewOrder)
      → IsSound o (fetched_first w ca fuel c st r o answer)
  unfolding fetched_first unfetched
  fetched_first-IsSound r o none = tt
  fetched_first-IsSound r o (some answer) =
      by_status-IsSound o answer (persist_order (answered w ca fuel c st r o) o answer)
        (IsStored-persist_order (answered w ca fuel c st r o) o answer)

  past_ready-IsSound :
      (o : Order) (answer : NewOrder) (q : Run × Order × Bool)
      → IsStored o answer q
      → IsSound o (past_ready w ca fuel c st answer q)
  past_ready-IsSound o answer (r, o1, false) h = tt
  past_ready-IsSound o answer (r, o1, true) h =
      by_case o (is_status (codes "valid") answer) _ _ (λ valid. h.2 refl valid)
        (λ e. valid_of_same o o1 _ h.0 h.1 (finalize-IsSound r o1))

  past_solving-IsSound :
      (r : Run) (o : Order) (answer : Polled) → IsSound o (past_solving w ca fuel c st r o answer)
  past_solving-IsSound r o none = tt
  past_solving-IsSound r o (some (err e, k)) = tt
  past_solving-IsSound r o (some (ok answer, k)) =
      past_ready-IsSound o answer (persist_order (record r { fetched = k }) o answer)
        (IsStored-persist_order (record r { fetched = k }) o answer)

  -- Wherever advancing an order leads to a download, before its challenges or after them, the CA called
  -- the order valid, it has the key and the certificate of the order that was advanced, and the order of
  -- the certificate on disk is exactly this one.
  pub advance-IsSound :
      (r : Run) (o : Order)
      → IsSound o (advance w ca fuel c st r o) × IsSound o (advance_solved w ca fuel c st r o)
  unfolding advance advance_solved
  advance-IsSound r o = (
    fetched_first-IsSound r o (ca.fetch r.fetched),
    past_solving-IsSound r o (await_order w ca fuel c st r (codes "ready")),
  )
