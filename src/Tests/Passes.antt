-- ===== src/Tests/Passes.antt =====
-- A pass of internal/acme over a certificate, at small concrete inputs.
use wecert.Base.{
  ◌/◌, ℕ, zero, suc, ◌+◌, ◌*◌, ◌^◌, ◌≤◌, ◌<◌, ◌≡◌, ◌≢◌, ◌⊎◌, inl, inr, Bool, true, false, not, ◌&&◌,
  ◌||◌, Option, none, some, if◌then◌else◌, List, [], ◌∷◌, ◌++◌, Text, text_eq, mem, codes, length,
  Result, ok, err, arith, refl, All, is_some, min, contains_byte, trim_space, to_lower,
}
use wecert.Base.Int.{pos}
use wecert.Base.Time.{Time, second, minute, hour, day, before, from_unix, to_unix}
use wecert.Base.Assoc.{lookup}
use wecert.Cooldown.{Memory, new_memory}
use wecert.Fallback
use wecert.FallbackStore
use wecert.CertStore.{
  get_cert, CertState, Order, Tables, TableError, new_cert_state, stored, found_or_new, named,
}
use wecert.Domain.{domain_key}
use wecert.Issue.{World, CertConfig, Machine, NewOrder, advances, issue}
use wecert.Pass.{reconcile, round_of}
use wecert.Pass.Orders.{ordered, reconcile-IsCurrent}
use wecert.Pass.Durable.{Persisted-reconcile}
use wecert.Issue.Persisted.{OnDisk}
use wecert.Issue.Gates.{IsClear, Placed, issue_calls}
use wecert.Backoff.{backoff_for, honour_backoff, record_failure}
use wecert.Backoff.Hold.{OtherFailure, record_all, honour_backoff-record_failure}
use wecert.Renewal.{ari_check_due, renewal_decision}
use wecert.Renewal.Window.{ari_check_due-renewal_decision}
use wecert.Advance.{Authority, Run, order_wait_timeout, await_loop, advance, advance_solved}
use wecert.Advance.Poll.{Awaited, await_loop_ends_in_time, await_loop-Awaited}
use wecert.Advance.Stored.{IsSound, advance-IsSound}
use wecert.Onboard.{Ledger, Options, Built}
use wecert.Onboard.Budget.{Rounds, published, WithinBudget, WithinBudget-published}

abbrev noon : Time
noon = 63900000000 * second

abbrev name : Text
name = codes "c"

abbrev world : World
world = record {
  place = λ calls call. ok (record {
    location = codes "https://ca/order/2";
    finalize = codes "https://ca/finalize/2";
    certificate = [];
    status = codes "pending";
    expires = [];
  });
  renewal_info = λ id. none;
  bindings = λ id. none;
  leaf_names = λ pem. none;
  new_key = some (codes "key");
  parse_time = λ layout text. none;
  parse_http = λ text. none;
  public_suffix = λ text. codes "example";
  is_ipv6 = λ text. false;
  etld_plus_one = λ text. some text;
  hash = λ text. (0, 0);
  rfc3339 = λ t. [];
  format_reason = λ n left. [];
  message = λ f. codes "failed";
  cancelled = false;
}

abbrev config : CertConfig
config = record {
  certificate = record { cert = name; domains = codes "a.example" ∷ []; failure_fallback = none };
  profile = [];
  renew_before = pos (30 * day);
  deploy_enabled = false;
}

-- An order in progress that has a day left.
abbrev in_progress : Order
in_progress = record {
  cert_name = name;
  order_url = codes "https://ca/order/1";
  finalize_url = [];
  cert_url = [];
  expires_at = noon + day;
  status = codes "pending";
  key_pem = codes "key";
  identifiers = codes "a.example";
  deployment_cert_id = [];
}

abbrev tables : Tables
tables = record {
  certificates = [];
  orders = (name, in_progress) ∷ [];
  retired = [];
  reads_certs = true;
  writes_certs = true;
  reads_orders = true;
  writes_orders = true;
  writes_retired = true;
}

abbrev machine : Machine
machine = record {
  manager = record {
    policy = none;
    now = noon;
    store = record { identifier_failures = []; cert_fallback = []; reads = true; writes = true };
    active_gauge = 0;
    dropped_gauge = 0;
  };
  memory = new_memory;
  binding_checked = [];
  quota = none;
  tables = tables;
  calls = [];
}

abbrev first_round : Fallback.Round
first_round = record {
  degraded = false;
  full_set = true;
  fallback_unknown = false;
  fallback_active = false;
}

reconcile-IsCurrent_example :
    ((reconcile world machine config).1
      ≡ advances
          (codes "a.example" ∷ [])
          in_progress
          (ordered world machine config
            (new_cert_state name)
            (round_of (FallbackStore.get_fallback machine.manager.store name))).2)
    × ((reconcile world machine config).0.calls ≡ [])
unfolding lookup text_eq honour_backoff wecert.CertStore.get_cert
    wecert.Cooldown.transient_backoff_for wecert.CertStore.get_order
    wecert.Pass.order_matches_config domain_key wecert.Base.join wecert.Base.sort
    wecert.Pass.with_fallback Fallback.apply_fallback Fallback.fallback_domains
    Fallback.fallback_policy FallbackStore.get_fallback to_lower trim_space mem
reconcile-IsCurrent_example =
    reconcile-IsCurrent world machine config none in_progress refl refl refl (refl, inr refl)

Persisted-reconcile_example : OnDisk name in_progress (reconcile world machine config).0.tables
unfolding reconcile wecert.CertStore.get_cert honour_backoff wecert.Cooldown.transient_backoff_for
    lookup wecert.Pass.continue_or_drop_order wecert.CertStore.get_order text_eq
    wecert.Pass.with_fallback Fallback.apply_fallback Fallback.fallback_domains
    Fallback.fallback_policy FallbackStore.get_fallback domain_key wecert.Base.join wecert.Base.sort
    to_lower trim_space mem wecert.Pass.order_matches_config
Persisted-reconcile_example =
    Persisted-reconcile world machine config (reconcile world machine config).0
      (codes "a.example" ∷ []) in_progress
      (ordered world machine config (new_cert_state name)
        (round_of (FallbackStore.get_fallback machine.manager.store name))).2
      refl

issue_calls_example :
    ((issue world machine config (new_cert_state name) [] first_round).0.calls ≡ [])
    ⊎ (IsClear world machine config
        × Placed config [] []
            (issue world machine config (new_cert_state name) [] first_round).0.calls)
issue_calls_example = issue_calls world config (new_cert_state name) first_round machine []

-- Another certificate fails a minute later.
abbrev other_failure : OtherFailure
other_failure = record {
  st = new_cert_state (codes "d");
  msg = codes "timeout";
  at = noon + 30 * second;
}

honour_backoff-record_failure_example :
    (honour_backoff
      (record_all
        (record_failure false tables new_memory (new_cert_state name) (codes "timeout") noon).0
        (record_failure false tables new_memory (new_cert_state name) (codes "timeout") noon).1
        (other_failure ∷ [])).1
      (found_or_new name (
        named name (
          lookup name
            (record_all
              (record_failure false tables new_memory
                (new_cert_state name)
                (codes "timeout")
                noon).0
              (record_failure false tables new_memory
                (new_cert_state name)
                (codes "timeout")
                noon).1
              (other_failure ∷ [])).0.certificates)))
      (noon + 59 * second)).1
    ≡ true
unfolding text_eq backoff_for stored from_unix to_unix
honour_backoff-record_failure_example =
    honour_backoff-record_failure tables new_memory (new_cert_state name) (codes "timeout") noon
      (other_failure ∷ []) (noon + 59 * second) ((refl, ground arith), tt) (ground arith)

-- A certificate with a certID that was never asked for.
abbrev renewing : CertState
renewing = record (new_cert_state name) { not_after = noon + 60 * day; ari_cert_id = codes "id" }

ari_check_due-renewal_decision_example :
    (r : CertState) × (get_cert (renewal_decision world machine config renewing).tables name
      ≡ ok (some r))
    × ((before (noon + 30 * second) (noon / second * second + minute)
          && ari_check_due r (noon + 30 * second))
        ≡ false)
    × ((before (noon + 30 * second) (noon + 24 * hour) || ari_check_due r (noon + 30 * second))
        ≡ true)
unfolding text_eq ari_check_due
ari_check_due-renewal_decision_example =
    ari_check_due-renewal_decision world machine config renewing refl refl refl refl
      (noon + 30 * second) refl refl (omega arith)

-- The CA has the order pending, and then ready; each further fetch takes three seconds.
abbrev pending_then_ready : ℕ → Option NewOrder
pending_then_ready zero = some (record {
  location = [];
  finalize = codes "https://ca/finalize/1";
  certificate = [];
  status = codes "pending";
  expires = [];
})
pending_then_ready (suc n) = some (record {
  location = [];
  finalize = codes "https://ca/finalize/1";
  certificate = codes "https://ca/cert/1";
  status = codes "valid";
  expires = [];
})

abbrev authority : Authority
authority = record {
  fetch = pending_then_ready;
  clock = λ n. noon + n * (3 * second);
  live = λ n. true;
  csr = λ key names. some (some (codes "csr"));
  takes_csr = λ url request. true;
}

await_loop_ends_in_time_example :
    is_some
      (await_loop authority (codes "ready") (noon + 0 * (3 * second) + order_wait_timeout) 42 0)
    ≡ true
await_loop_ends_in_time_example =
    await_loop_ends_in_time authority (codes "ready") 0 (omega arith) (λ j h. omega arith)

await_loop-Awaited_example :
    Awaited authority
      (codes "ready")
      (noon + minute)
      2
      (record {
        location = [];
        finalize = codes "https://ca/finalize/1";
        certificate = codes "https://ca/cert/1";
        status = codes "valid";
        expires = [];
      })
      0
unfolding await_loop text_eq
await_loop-Awaited_example =
    await_loop-Awaited authority (codes "ready") (noon + minute) 5 0 2 _ refl

abbrev run : Run
run = record { machine = machine; fetched = 0; submitted = [] }

advance-IsSound_example :
    IsSound in_progress (advance world authority 42 config (new_cert_state name) run in_progress)
    × IsSound in_progress
        (advance_solved world authority 42 config (new_cert_state name) run in_progress)
advance-IsSound_example =
    advance-IsSound world authority 42 config (new_cert_state name) run in_progress

abbrev suffix : Text → Text
suffix text = codes "example"

abbrev not_ipv6 : Text → Bool
not_ipv6 text = false

abbrev itself : Text → Option Text
itself text = some text

-- Two changes within the window of a budget of one.
abbrev one_change : Options
one_change = record {
  force = false;
  budget = 1;
  budget_window = pos (7 * day);
  blocked_registered_domains = [];
}

abbrev built : Text → Built
built revision = record {
  certs = (codes "a.example" ∷ []) ∷ [];
  revision = revision;
  declared = codes "a.example" ∷ [];
  eligible = codes "a.example" ∷ [];
  previous = none;
}

abbrev two_rounds : Rounds
two_rounds = (noon, built (codes "r1")) ∷ (noon + hour, built (codes "r2")) ∷ []

abbrev no_changes : Ledger
no_changes = record {
  last_revision = [];
  last_names = [];
  last_declared = [];
  changes = [];
  updated_at = 0;
}

WithinBudget-published_example :
    WithinBudget one_change (published suffix not_ipv6 itself one_change two_rounds no_changes [])
WithinBudget-published_example =
    WithinBudget-published suffix not_ipv6 itself one_change two_rounds no_changes refl
      (omega arith, (omega arith, tt)) refl
