-- ===== src/Server/Polling.antt =====
-- socketApi/serverHandle.go: a poll after the connection is closed.
use realtime_data_center.Base.{
  ◌≡◌, refl, inl, inr, ◌⊎◌, true, false, List, [], ◌∷◌, Option, none, some, Option-cases, All,
  length, subst,
}
use realtime_data_center.Server.{Handler, Poll, Round, Polled, poll_round, read_poll}

module _ {S : Type 0} where
  -- The connection is closed, whatever else happens in the round.
  abbrev pub Closes : Round S → Type 0
  Closes r = (h : Handler S) → (r.meanwhile h).quit ≡ true

  -- Either nothing is sent and the poll goes on, or one notification is sent and the poll returns.
  abbrev pub IsLast : Polled S → Type 0
  IsLast p = ((p.sent ≡ []) × (p.returned ≡ false)) ⊎ ((length p.sent ≡ 1) × (p.returned ≡ true))

  abbrev IfPolled : Option (Polled S) → Type 0
  IfPolled none = Unit {0}
  IfPolled (some p) = IsLast p

  read_poll-IsLast :
      (rounds : List (Round S)) (poll : Poll) (h : Handler S)
      → All Closes rounds
      → IfPolled (read_poll rounds poll h)
  unfolding read_poll
  read_poll-IsLast [] poll h all = inl (refl, refl)
  read_poll-IsLast (r ∷ rounds) poll h (closes, all) =
      elim (Option-cases (poll_round r.api poll h)) [
        | inl e ↦ rw (e, read_poll) tt
        | inr ((h', none), e) ↦
            rw (e, read_poll) (read_poll-IsLast rounds poll (r.meanwhile h') all)
        | inr ((h', some message), e) ↦ rw (e, read_poll, closes h') (inr (refl, refl))
      ]

  -- Once the connection is closed, a poll sends at most one more notification, and it returns with that
  -- one and not otherwise: as long as it reads nothing, it goes on.
  pub read_poll_closed :
      (rounds : List (Round S)) (poll : Poll) (h : Handler S) (p : Polled S)
      → All Closes rounds
      → read_poll rounds poll h ≡ some p
      → IsLast p
  read_poll_closed rounds poll h p all e = subst IfPolled e (read_poll-IsLast rounds poll h all)
