-- ===== src/Failover.antt =====
-- internal/acme/failover.go: which CA an operation goes to. A CA's core is a value of `Api`; what it
-- answers to a new order is a parameter over the state of the outside world, as are the URL parser
-- and what an error says.
pub mod Routing
pub mod Orders
use wecert.Base.{
  ℕ, ◌≡◌, Bool, true, false, not, ◌&&◌, ◌||◌, Option, none, some, if◌then◌else◌, List, [], ◌∷◌,
  Text, codes, text_eq, has_prefix, to_lower, ◌==◌, length, Result, ok, err, ◌>>=◌,
}
use wecert.Base.Assoc.{Assoc, lookup, put}

-- strings.Contains
unfoldable pub contains : Text → Text → Bool
contains [] p = has_prefix [] p
contains (c ∷ s) p = has_prefix (c ∷ s) p || contains s p

-- The refusals that a standby may cure.
abbrev pub unavailable_messages : List Text
unavailable_messages =
    codes "connection refused"
    ∷ codes "no such host"
    ∷ codes "connection reset"
    ∷ codes "broken pipe"
    ∷ codes "network is unreachable"
    ∷ codes "no route to host"
    ∷ codes "server internal"
    ∷ codes "too many new orders"
    ∷ []

unfoldable pub contains_any : Text → List Text → Bool
unfolding contains
contains_any s [] = false
contains_any s (p ∷ ps) = contains s p || contains_any s ps

-- An error: whether it is a net.Error that timed out, and its text.
pub record CallError : Type 0 where
  pub timed_out : Bool
  pub message : Text

unfoldable pub directory_unavailable : CallError → Bool
unfolding contains_any
directory_unavailable e =
    if e.timed_out then true else contains_any (to_lower e.message) unavailable_messages

pub record FailoverApi (Api : Type 0) : Type 0 where
  pub primary : Api
  pub by_host : Assoc Api
  pub standby : List Api

pub data ConfigError : Type 0 where
  count_mismatch : ConfigError
  invalid_directory : Text → ConfigError

-- url.Parse(raw).Host is `host_of`; none is the error.
module _ {Api : Type 0} (host_of : Text → Option Text) where
  -- add, as the map that it leaves.
  unfoldable pub add_host : Assoc Api → Text → Api → Result ConfigError (Assoc Api)
  add_host hosts directory api = elim (host_of directory) [
    | none ↦ err (invalid_directory directory)
    | some host ↦
        if length host == 0
        then err (invalid_directory directory)
        else ok (put (to_lower host) api hosts)
  ]

  -- The loop over the standbys, which are as many as their directories.
  unfoldable pub add_standbys : Assoc Api → List Api → List Text → Result ConfigError (Assoc Api)
  unfolding add_host
  add_standbys hosts [] directories = ok hosts
  add_standbys hosts (api ∷ apis) [] = ok hosts
  add_standbys hosts (api ∷ apis) (directory ∷ directories) =
      add_host hosts directory api >>= λ hosts'. add_standbys hosts' apis directories

  unfoldable pub new_failover_api :
      Api → Text → List Api → List Text → Result ConfigError (FailoverApi Api)
  unfolding add_standbys
  new_failover_api primary directory standbys directories =
      if not (length standbys == length directories)
      then err count_mismatch
      else add_host [] directory primary
        >>= (λ hosts. add_standbys hosts standbys directories)
        >>= λ hosts. ok (record { primary = primary; by_host = hosts; standby = standbys })

  -- The core that a host is routed to.
  unfoldable pub route : FailoverApi Api → Option Text → Api
  route f none = f.primary
  route f (some host) = elim (lookup (to_lower host) f.by_host) [
    | none ↦ f.primary
    | some api ↦ api
  ]

  -- forURL; GetOrder, UpdateOrderForCSR, GetAuthorization, AcceptChallenge and GetCertificate go there.
  unfoldable pub for_url : FailoverApi Api → Text → Api
  unfolding route
  for_url f raw = route f (host_of raw)

-- What a CA answers to a new order for the names at hand, and what that makes of the world.
module _ {Api World Order : Type 0} (place : Api → World → World × Order × Option CallError) where
  -- The loop over the standbys: `o` is the primary's order, `e` the last refusal.
  unfoldable pub try_standbys :
      List Api → World → Order → CallError → World × Order × Option CallError
  try_standbys [] w o e = (w, o, some e)
  try_standbys (s ∷ ss) w o e =
      let (w', o', answer) = place s w in
      elim answer [
        | none ↦ (w', o', none)
        | some e' ↦
            let next = try_standbys ss w' o e' in
            if not (directory_unavailable e') then (w', o', some e') else next
      ]

  unfoldable pub new_order : FailoverApi Api → World → World × Order × Option CallError
  unfolding try_standbys
  new_order f w =
      let (w', o, answer) = place f.primary w in
      elim answer [
        | none ↦ (w', o, none)
        | some e ↦
            let next = try_standbys f.standby w' o e in
            if not (directory_unavailable e) then (w', o, some e) else next
      ]
