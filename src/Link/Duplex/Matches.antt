-- ===== src/Link/Duplex/Matches.antt =====
-- socketApi/socket.go: which answers the requests of the two ends of a connection get.
use realtime_data_center.Base.{
  ◌+◌, ◌^◌, ◌<◌, ◌≡◌, refl, ◌⊎◌, inl, inr, All-weaken, Bool, true, false, List, [], ◌∷◌, Option,
  arith, All,
}
use realtime_data_center.Base.Int.{ℤ}
use realtime_data_center.Link.{SocketOutput}
use realtime_data_center.Link.Duplex.{
  End, new_end, Move, ask, accept, give_up, reply, withdraw, idle, look, fail_read, fail_write,
  Moved, moved, stopped, move, Connection, up, down, Event, by_client, by_server, from_client,
  from_server, step, run,
}
use realtime_data_center.Link.Duplex.Members.{In}
use realtime_data_center.Link.Duplex.Reactions.{Answers}
use realtime_data_center.Link.Duplex.Invariant.{Holds}
use realtime_data_center.Link.Duplex.Taking.{Both}
use realtime_data_center.Link.Duplex.Moves.{asks, IsCause, MoveFits, Fine, move-Fine}

abbrev pub client_moves : List Event → List Move
client_moves [] = []
client_moves (by_client m ∷ es) = m ∷ client_moves es
client_moves (by_server m ∷ es) = client_moves es

abbrev pub server_moves : List Event → List Move
server_moves [] = []
server_moves (by_client m ∷ es) = server_moves es
server_moves (by_server m ∷ es) = m ∷ server_moves es

-- Every answer that a request of this end got is the one that the other end gave to that very request.
abbrev pub IsMatched : {S T : Type 0} → End S → End T → Type 0
IsMatched me peer = All (λ x. In x peer.served × In x.0 me.issued) me.got

-- One of the events has this move.
abbrev pub Came : Move → List Event → Type 0
Came m es = In m (client_moves es) ⊎ In m (server_moves es)

-- After these events; a connection that is over is so by a move among them that ends a connection.
abbrev pub AreMatched : {S T : Type 0} → List Event → Connection S T → Type 0
AreMatched es (up c s) = IsMatched c s × IsMatched s c
AreMatched es (down reason) = (m : Move) × Came m es × IsCause m reason

abbrev move_of : Event → Move
move_of (by_client m) = m
move_of (by_server m) = m

Came-cons : (m : Move) (e : Event) (es : List Event) → Came m es → Came m (e ∷ es)
Came-cons m (by_client a) es (inl h) = inl (inr h)
Came-cons m (by_client a) es (inr h) = inr h
Came-cons m (by_server a) es (inl h) = inl h
Came-cons m (by_server a) es (inr h) = inr (inr h)

All-Came : (es : List Event) → All (λ e. Came (move_of e) es) es
All-Came [] = tt
All-Came (by_client m ∷ es) =
    (inl (inl refl), All-weaken _ _ es (λ e. Came-cons (move_of e) (by_client m) es) (All-Came es))
All-Came (by_server m ∷ es) =
    (inr (inl refl), All-weaken _ _ es (λ e. Came-cons (move_of e) (by_server m) es) (All-Came es))

abbrev pub EventFits : Event → Type 0
EventFits (by_client m) = MoveFits m
EventFits (by_server m) = MoveFits m

-- A connection on which the last ones of all events are to come.
abbrev Good : {S T : Type 0} → List Event → List Event → Connection S T → Type 0
Good all es (up c s) =
    Both false c s
    × (c.link.order + asks (client_moves es) < 2 ^ 64)
    × (s.link.order + asks (server_moves es) < 2 ^ 64)
Good {S} {T} all es (down reason) = AreMatched {S = S} {T = T} all (down reason)

asks-cons : (m : Move) (ms : List Move) → asks (m ∷ ms) ≡ asks (m ∷ []) + asks ms
asks-cons (ask cmd payload) ms = omega arith
asks-cons (accept i time) ms = omega arith
asks-cons (give_up i) ms = omega arith
asks-cons (reply time) ms = omega arith
asks-cons withdraw ms = omega arith
asks-cons (idle now) ms = omega arith
asks-cons (look now taken) ms = omega arith
asks-cons fail_read ms = omega arith
asks-cons fail_write ms = omega arith

new_end-Holds :
    {S T : Type 0} (server : Bool) (now now' : ℤ) (s : S) (t : T)
    → Holds server (new_end now s) (new_end now' t)
new_end-Holds server now now' s t = record {
  waiting = tt;
  queued = tt;
  orders = tt;
  few = omega arith;
  small = tt;
  frames = [];
  stream = refl;
  from = tt;
  offer = tt;
  served = tt;
  got = tt;
}

module _ {S T : Type 0} (notify : Option (SocketOutput S)) (serve : Option (SocketOutput T))
    (client : Answers notify) (server : Answers serve) where
  step-Good :
      (all : List Event) (e : Event) (es : List Event) (x : Connection S T)
      → Came (move_of e) all
      → EventFits e
      → Good all (e ∷ es) x
      → Good all es (step notify serve e x)
  unfolding step
  step-Good all (by_client m) es (down reason) came f g = g
  step-Good all (by_server m) es (down reason) came f g = g
  step-Good all (by_client m) es (up c s) came f ((h, k), few, many) =
      go (move false notify m c s) (
        move-Fine false notify client m c s (h, k) f
          (omega (arith, few, asks-cons m (client_moves es))))
    where
      go :
          (x : Moved S T)
          → Fine false m (c.link.order + asks (m ∷ [])) s.link.order x
          → Good all es (from_client notify serve x)
      go (moved c' s') (both, le, same) =
          (both, omega (arith, few, le, asks-cons m (client_moves es)), omega (arith, many, same))
      go (stopped reason) e = (m, came, e)
  step-Good all (by_server m) es (up c s) came f ((h, k), few, many) = go (move true serve m s c) (
      move-Fine true serve server m s c (k, h) f
        (omega (arith, many, asks-cons m (server_moves es))))
    where
      go :
          (x : Moved T S)
          → Fine true m (s.link.order + asks (m ∷ [])) c.link.order x
          → Good all es (from_server notify serve x)
      go (moved s' c') ((k', h'), le, same) = (
        (h', k'),
        omega (arith, few, same),
        omega (arith, many, le, asks-cons m (server_moves es)),
      )
      go (stopped reason) e = (m, came, e)

  run-Good :
      (all es : List Event) (x : Connection S T)
      → All (λ e. Came (move_of e) all) es
      → All EventFits es
      → Good all es x
      → Good all [] (run notify serve es x)
  unfolding run
  run-Good all [] x came f g = g
  run-Good all (e ∷ es) x (c, came) (f, fs) g =
      run-Good all es (step notify serve e x) came fs (step-Good all e es x c f g)

  -- Over the life of a connection on which each end makes fewer than 2^64 requests, payloads and
  -- answers fit in a frame and no callback ends the program: in whatever order the goroutines of both
  -- ends take turns, every answer that a request got is the one that the other end gave to a request
  -- with this order, command and payload. If the connection is over, then by a move among these events,
  -- for want of a heart beat or because reading or writing failed, and never for a bad frame, an index
  -- out of range or the end of the program.
  pub run-AreMatched :
      (es : List Event) (now now' : ℤ) (s : S) (t : T)
      → All EventFits es
      → asks (client_moves es) < 2 ^ 64
      → asks (server_moves es) < 2 ^ 64
      → AreMatched es (run notify serve es (up (new_end now s) (new_end now' t)))
  run-AreMatched es now now' s t f few many = finish _ (
      run-Good es es _ (All-Came es) f (
        (new_end-Holds false now now' s t, new_end-Holds true now' now t s),
        omega (arith, few),
        omega (arith, many),
      ))
    where
      finish : (x : Connection S T) → Good es [] x → AreMatched es x
      finish (up c d) ((h, k), _, _) = (h.got, k.got)
      finish (down reason) g = g
