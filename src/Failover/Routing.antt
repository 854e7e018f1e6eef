-- ===== src/Failover/Routing.antt =====
-- Where FailoverApi of internal/acme/failover.go sends what is addressed by a URL.
use wecert.Base.{
  ◌≡◌, Option, none, some, if◌then◌else◌, List, [], ◌∷◌, Text, text_eq, to_lower, ok, arith,
  Option-cases, Result-cases, inl, inr,
}
use wecert.Base.Assoc.{Assoc, lookup, put, lookup-put}
use wecert.Failover.{FailoverApi, add_host, add_standbys, new_failover_api, route, for_url}

module _ {Api : Type 0} (host_of : Text → Option Text) where
  -- The last of the directories on a host, given in lower case.
  abbrev pub owner : Text → List Api → List Text → Option Api
  owner h [] directories = none
  owner h (a ∷ apis) [] = none
  owner h (a ∷ apis) (d ∷ directories) = elim (owner h apis directories) [
    | some b ↦ some b
    | none ↦ elim (host_of d) [
      | none ↦ none
      | some host ↦ if text_eq (to_lower host) h then some a else none
    ]
  ]

  lookup-add_standbys :
      (h : Text) (hosts hosts' : Assoc Api) (apis : List Api) (directories : List Text)
      → add_standbys host_of hosts apis directories ≡ ok hosts'
      → lookup h hosts'
        ≡ elim (owner h apis directories) [ some b ↦ some b | none ↦ lookup h hosts ]
  unfolding add_standbys
  lookup-add_standbys h hosts hosts' [] directories e = ground (arith, e)
  lookup-add_standbys h hosts hosts' (a ∷ apis) [] e = ground (arith, e)
  lookup-add_standbys h hosts hosts' (a ∷ apis) (d ∷ directories) e =
      elim (Option-cases (host_of d)) [
        | inl n ↦ ground (arith, e)
        | inr (host, n) ↦ grind (
          arith,
          lookup-put {V = Api} (to_lower host) h a hosts,
          lookup-add_standbys h (put (to_lower host) a hosts) hosts' apis directories,
        )
      ]

  -- Once the configuration is accepted, a URL goes to the last of the standbys whose directory is on
  -- its host, in whatever case, and to the primary where there is none or the URL does not parse.
  pub for_url-new_failover_api :
      (primary : Api) (directory : Text) (standbys : List Api) (directories : List Text)
      (f : FailoverApi Api) (raw : Text)
      → new_failover_api host_of primary directory standbys directories ≡ ok f
      → for_url host_of f raw ≡ elim (host_of raw) [
        | none ↦ primary
        | some host ↦ elim (owner (to_lower host) standbys directories) [
          | none ↦ primary
          | some api ↦ api
        ]
      ]
  unfolding new_failover_api for_url add_host route lookup
  for_url-new_failover_api primary directory standbys directories f raw e =
      elim (Option-cases (host_of directory)) [
        | inl n ↦ ground (arith, e)
        | inr (h0, n) ↦
            let hosts = put (to_lower h0) primary [] in
            elim (Result-cases (add_standbys host_of hosts standbys directories)) [
              | inl (x, b) ↦ ground (arith, e)
              | inr (hosts', b) ↦ elim (Option-cases (host_of raw)) [
                | inl r ↦ ground (arith, e)
                | inr (host, r) ↦ grind (
                  arith,
                  e,
                  lookup-put {V = Api} (to_lower h0) (to_lower host) primary [],
                  lookup-add_standbys (to_lower host) hosts hosts' standbys directories b,
                )
              ]
            ]
      ]
