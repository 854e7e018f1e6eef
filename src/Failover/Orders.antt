-- ===== src/Failover/Orders.antt =====
-- Which CAs a new order of internal/acme/failover.go is sent to.
use wecert.Base.{
  ◌≡◌, true, false, ◌⊎◌, Option, none, some, List, [], ◌∷◌, ◌++◌, arith, refl, Option-cases,
  Bool-cases, inl, inr, ap,
}
use wecert.Failover.{FailoverApi, CallError, directory_unavailable, try_standbys, new_order}

module _ {Api World Order : Type 0} (place : Api → World → World × Order × Option CallError) where
  -- The CAs were each asked once, in this order, and each said that it is unavailable.
  pub data Refused : List Api → World → World → Type 0 where
    nobody : {w : World} → Refused [] w w
    refused :
        {s : Api} {ss : List Api} {w w' w'' : World} {o : Order} {e : CallError}
        → place s w ≡ (w', o, some e)
        → directory_unavailable e ≡ true
        → Refused ss w' w''
        → Refused (s ∷ ss) w w''

  -- What an error says of the standbys: nothing, or a refusal that they cannot cure.
  abbrev pub IsFinal : Option CallError → Type 0
  IsFinal none = Unit
  IsFinal (some e) = directory_unavailable e ≡ false

  -- A CA settled the order, after those before it refused; or all did.
  abbrev pub Settled : List Api → World → World × Order × Option CallError → Type 0
  Settled apis w r =
      ((before : List Api) × (s : Api) × (after : List Api) × (w' : World) × (apis
          ≡ before ++ s ∷ after)
        × Refused before w w'
        × (place s w' ≡ r)
        × IsFinal r.2)
      ⊎ ((e : CallError) × Refused apis w r.0 × (r.2 ≡ some e) × (directory_unavailable e ≡ true))

  Settled-later :
      (s : Api) (ss : List Api) (w w' : World) (o : Order) (e : CallError)
      (r : World × Order × Option CallError)
      → place s w ≡ (w', o, some e)
      → directory_unavailable e ≡ true
      → Settled ss w' r
      → Settled (s ∷ ss) w r
  Settled-later s ss w w' o e r p u (inl (before, t, after, w'', a, b, c, d)) =
      inl (s ∷ before, t, after, w'', ap (λ l. s ∷ l) a, refused p u b, c, d)
  Settled-later s ss w w' o e r p u (inr (x, b, c, d)) = inr (x, refused p u b, c, d)

  Settled-here :
      (s : Api) (ss : List Api) (w : World) (r : World × Order × Option CallError)
      → place s w ≡ r
      → IsFinal r.2
      → Settled (s ∷ ss) w r
  Settled-here s ss w r p f = inl ([], s, ss, w, refl, nobody, p, f)

  -- What comes of asking a CA: its answer, or that of the standbys after it.
  ask_cases :
      (s : Api) (w : World)
      → IsFinal (place s w).2
        ⊎ ((e : CallError) × (place s w ≡ ((place s w).0, (place s w).1, some e))
            × (directory_unavailable e ≡ true))
  ask_cases s w = elim (Option-cases (place s w).2) [
    | inl n ↦ inl (rw n tt)
    | inr (e, n) ↦ elim (Bool-cases (directory_unavailable e)) [
      | inl u ↦ inr (e, ground (arith, n), u)
      | inr u ↦ inl (rw n u)
    ]
  ]

  try_stop :
      (s : Api) (ss : List Api) (w : World) (o : Order) (e : CallError)
      → IsFinal (place s w).2
      → try_standbys place (s ∷ ss) w o e ≡ place s w
  unfolding try_standbys
  try_stop s ss w o e h = ground arith

  try_next :
      (s : Api) (ss : List Api) (w w' : World) (o o' : Order) (e e' : CallError)
      → place s w ≡ (w', o', some e')
      → directory_unavailable e' ≡ true
      → try_standbys place (s ∷ ss) w o e ≡ try_standbys place ss w' o e'
  unfolding try_standbys
  try_next s ss w w' o o' e e' p u = ground arith

  Settled-try_standbys :
      (ss : List Api) (w : World) (o : Order) (e : CallError)
      → directory_unavailable e ≡ true
      → Settled ss w (try_standbys place ss w o e)
  Settled-try_standbys [] w o e u = unfold try_standbys in inr (e, nobody, refl, u)
  Settled-try_standbys (s ∷ ss) w o e u = elim (ask_cases s w) [
    | inl f ↦ rw (try_stop s ss w o e f) (Settled-here s ss w (place s w) refl f)
    | inr (x, p, v) ↦
        let (w', o', a) = place s w in
        rw (try_next s ss w w' o o' e x p v) (
          Settled-later s ss w w' o' x (try_standbys place ss w' o x) p v
            (Settled-try_standbys ss w' o x v))
  ]

  order_stop :
      (f : FailoverApi Api) (w : World)
      → IsFinal (place f.primary w).2
      → new_order place f w ≡ place f.primary w
  unfolding new_order
  order_stop f w h = ground arith

  order_next :
      (f : FailoverApi Api) (w w' : World) (o : Order) (e : CallError)
      → place f.primary w ≡ (w', o, some e)
      → directory_unavailable e ≡ true
      → new_order place f w ≡ try_standbys place f.standby w' o e
  unfolding new_order
  order_next f w w' o e p u = ground arith

  -- An order goes to the primary and the standbys in turn: each CA that is asked before the last one
  -- said that it is unavailable, no CA is asked after one that took the order or refused it for
  -- another reason, whose answer is the result, and if every CA is unavailable each was asked once and
  -- the result is a refusal of that kind.
  pub Settled-new_order :
      (f : FailoverApi Api) (w : World) → Settled (f.primary ∷ f.standby) w (new_order place f w)
  Settled-new_order f w = elim (ask_cases f.primary w) [
    | inl h ↦ rw (order_stop f w h) (Settled-here f.primary f.standby w (place f.primary w) refl h)
    | inr (x, p, v) ↦
        let (w', o, a) = place f.primary w in
        rw (order_next f w w' o x p v) (
          Settled-later f.primary f.standby w w' o x (try_standbys place f.standby w' o x) p v
            (Settled-try_standbys f.standby w' o x v))
  ]
