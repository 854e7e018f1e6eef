-- ===== src/Lib.antt =====
-- wecert keeps TLS certificates issued, renewed and deployed: it reads a desired set of names, groups
-- them into certificates, orders them from an ACME CA within the CA's rate limits, and puts them into
-- service. This library models the parts of the program whose answers decide what is ordered and
-- when, translated function by function from the Go sources, and proves what they promise.
--
-- The parts, and how they interact:
--
-- Limits. RateLimit is internal/ratelimit/ratelimit.go: the published token buckets, level, Remaining and
-- Spend. A token is counted in parts, one for each nanosecond of the refill interval, so that amounts are
-- exact; float64 rounding is not modelled. RateLimit/Tracker is internal/ratelimit/tracker.go with
-- quotaReport of internal/acme/ratelimit.go, over RateStore, which is internal/state/ratelimit.go.
-- RateLimit/Account is the specification that the estimate is held against: the bucket that the CA keeps,
-- from which other accounts spend too. RateLimit/RetryAfter holds the parsers of the CA's deadlines.
--
-- Names. Domain is validateDomain, normalizeDomains, DomainKey and DiffDomains of
-- internal/config/domain.go; Certificates is its check for names that a wildcard makes redundant. Group is
-- internal/group/group.go: the grouping by registered domain, the certificate name of a group, and the
-- cover of its names by its wildcards. Domain/Valid states the shape of a name, Group/Wildcard that of a
-- covered host, and Group/Partition what a group is to hold.
--
-- Degradation. FallbackPolicy is internal/config/failure_fallback.go, FallbackStore the ledger and the
-- record of internal/state/fallback.go, Truncate the bound on its texts, and Fallback is
-- internal/acme/fallback.go: applyFallback prunes the record, decides which names to drop, and writes the
-- record by which driftIsTheDegradation then recognises the reduced certificate.
--
-- Lockouts. AuthLimiter is internal/webhook/ratelimit.go. Cooldown is the maps of
-- internal/acme/manager.go that hold an identifier, a certificate or an order back, seeded from
-- FallbackStore by internal/state/identifier_by_name.go. Backoff is the deadline after a failed pass, of
-- recordFailure in internal/acme/manager_done.go, which stands in the row of the certificate or, where the
-- database fails, in those maps.
--
-- Authorities. Failover is internal/acme/failover.go, which routes a URL and a new order to a CA. Ari is
-- internal/acme/ari.go: certIDs, renewal information and the instants of renewal. Refusal is what
-- internal/acme/manager_renew.go reads from the text of a refusal, and QuotaGate the deadlines that it
-- books for it over RateStore and the gate that they are for a new order.
--
-- Passes. CertStore is the rows of internal/state/certs.go, orders.go and retired.go. Pass is Reconcile of
-- internal/acme/manager.go: it reads the row, honours the backoff, applies the fallback, goes on with an
-- order in progress or drops it, and otherwise has Renewal, which is renewalDecision, say whether a new
-- order is due. Issue is issue of internal/acme/manager_renew.go, past the gates of Cooldown and QuotaGate
-- to the call of NewOrder and the row of the order. Advance is internal/acme/flow_advance.go and
-- flow_order.go: an order from what the CA says of it to its download.
--
-- TXT records. Leases is the registry of internal/acme/dns_leases.go and dns.go with Present and CleanUp,
-- over a provider and the records that are in DNS. Probe is internal/acme/dns_probe.go and LookupTXT: what
-- the answers of name servers say of a value; Probe/Zone is its waitZone, the rounds of a wait for a zone,
-- which counts the unreachable addresses where the source reads their number back from a summary. AuthzStore is internal/state/authz.go, and Reclaim, over all
-- three, is internal/acme/flow_cleanup.go and txt_reclaim_guard.go: how a record that no order needs is
-- given up.
--
-- Changes. Absence is the grace period of internal/onboarding/onboard_policy.go: a name that is no longer
-- declared keeps its coverage for as long as its absence is not proved; the reasons of the report are left
-- out. Onboard is the change budget of internal/onboarding/onboard_budget.go over the ledger of state.go
-- there: how many changed desired states may be published in a window. The ledger is taken to be saved.
--
-- Base holds what they share: texts as lists of bytes with the functions of package strings, sorting, Go
-- maps as association lists in the order of a range, integers, times and results. Case folding and
-- trimming are those of ASCII. Tests applies the theorems at concrete inputs.
--
-- State is passed explicitly: a method that writes returns the state that it leaves, and runs under its
-- mutex, so that it is one step. A database is its tables with two switches, whether it reads and whether
-- it writes; a statement that fails changes nothing. Times are nanoseconds since the zero time of Go and
-- do not go below it, durations saturate in Sub as they do in Go. Counts that the program only raises are
-- unbounded numbers. A pass reads its clock once, but in the wait for an order, where each fetch has a
-- reading. Loops are structural recursion, but for two on fuel: the eviction loop of the lockout, whose fuel
-- is the number of entries, since each round drops one, and the wait for an order, for which 42 fetches are
-- enough, as Advance/Poll shows. In CertStore each table has its own switches; the store has no sealer.
--
-- Parameters stand for what is not in the repository: the public suffix list, the IPv6 parser, the parsers
-- and formats of package time, the text of a message, SHA-256, base64, the JSON decoder, the URL parser, the
-- certificate parser, the DNS provider, the answers of name servers, and what a CA answers. What providers
-- document is the hypothesis IsFaithful of Leases/Kept; a provider call that is given up after its bound
-- counts as ended.
--
-- Not modelled: log lines and metrics but for the two gauges of the fallback; the solving of the challenges
-- of an order and the download of its certificate, at which Advance stops; the bindings of the cloud but for
-- their answer; sealing; the deployers, the rest of onboarding, the reconcile loop over all certificates, the servers,
-- the configuration files and the rest of the database, which are I/O or await their models.
pub mod Base
pub mod RateLimit
pub mod RateStore
pub mod Domain
pub mod Group
pub mod AuthLimiter
pub mod Truncate
pub mod FallbackPolicy
pub mod FallbackStore
pub mod Fallback
pub mod Failover
pub mod Ari
pub mod Cooldown
pub mod Certificates
pub mod Tests
pub mod CertStore
pub mod Backoff
pub mod Refusal
pub mod QuotaGate
pub mod Issue
pub mod Leases
pub mod Renewal
pub mod Pass
pub mod Onboard
pub mod Absence
pub mod Advance
pub mod Probe
pub mod AuthzStore
pub mod Reclaim
