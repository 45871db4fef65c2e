-- ===== src/Link/Duplex.antt =====
-- socketApi/socket.go: the two ends of a connection together. At each end the goroutines in `Request`,
-- the writer and the reader take turns in any order; what a writer has sent stands in the stream until
-- the reader at the other end takes it, or until reading or writing fails. A connection is over when one
-- end is: what that end's other goroutine, and the other end, still do until they notice is left out.
pub mod Members
pub mod Reactions
pub mod Invariant
pub mod Taking
pub mod Moves
pub mod Matches
use realtime_data_center.Base.{
  ℕ, zero, suc, ◌+◌, Bool, true, false, not, List, [], ◌∷◌, ◌++◌, Option, none, some, if◌then◌else◌,
  Bytes, get_elem?,
}
use realtime_data_center.Base.Int.{ℤ}
use realtime_data_center.Socket.{Frame, received, closed, crash, read_frame}
use realtime_data_center.Link.{
  Request, Answer, Link, new_link, new_request, send_request, send_answer, heart_beat_timeout,
  Reaction, answer, deliver, drop, SocketOutput, handle_frame,
}
use realtime_data_center.Link.Session.{remove_at}

-- One end: `asked` are the requests that wait for the writer, `offered` is the answer that the reader
-- waits to hand to the writer, and `stream` is what the writer has sent and the other end has not read.
-- The rest is its history: the requests that took an order, the requests of the other end with the
-- answers to them, and the answers that the requests of this end got.
pub record End (S : Type 0) : Type 0 where
  pub link : Link
  pub asked : List Request
  pub offered : Option Answer
  pub stream : Bytes
  pub upper : S
  pub issued : List Request
  pub served : List (Request × Bytes)
  pub got : List (Request × Bytes)

abbrev pub new_end : {S : Type 0} → ℤ → S → End S
new_end now s = record {
  link = new_link now;
  asked = [];
  offered = none;
  stream = [];
  upper = s;
  issued = [];
  served = [];
  got = [];
}

-- A request takes an order; the writer accepts one of those that wait, and sends it; one of those
-- gives up. The writer takes the answer that the reader offers, and sends it; or the reader stops
-- offering it. The writer has had nothing to send for two seconds. The reader looks for a frame; if it
-- is an answer, it is said whether the request still waits for it. Reading the stream fails, as it does
-- once either side has closed the connection; or writing does, of what the writer has just accepted.
pub data Move : Type 0 where
  ask : ℕ → Bytes → Move
  accept : ℕ → ℤ → Move
  give_up : ℕ → Move
  reply : ℤ → Move
  withdraw : Move
  idle : ℤ → Move
  look : ℤ → Bool → Move
  fail_read fail_write : Move

-- Why a connection is over: no heart beat, a frame that is none, an index out of range, the end of the
-- program in the callback, or an error of the stream.
pub data Reason : Type 0 where
  no_heart_beat bad_frame out_of_range ended read_failed write_failed : Reason

pub data Moved (S T : Type 0) : Type 0 where
  moved : End S → End T → Moved S T
  stopped : Reason → Moved S T

-- Whether the writer has something to accept.
abbrev pub has_output : List Request → Option Answer → Bool
has_output [] none = false
has_output asked offered = true

-- The request that a frame carries.
abbrev pub request_of : Frame → Request
request_of f = record { order = f.order; cmd = f.cmd; payload = f.payload }

module _ {S : Type 0} where
  -- What the reader's reaction to a frame leaves at this end.
  unfoldable pub react : Bool → Frame → Link → S → End S → Reaction → End S
  react taken f link s me drop = record me { link = link; upper = s }
  react taken f link s me (answer a) = record me {
    link = link;
    upper = s;
    offered = some a;
    served = (request_of f, a.content) ∷ me.served;
  }
  react taken f link s me (deliver r content) = record me {
    link = link;
    upper = s;
    got = if taken then (r, content) ∷ me.got else me.got;
  }

module _ {S T : Type 0} where
  -- The reader waits while nothing has arrived, and while it offers an answer.
  unfoldable pub look_at :
      Bool → Option (SocketOutput S) → ℤ → Bool → Bytes → Option Answer → End S → End T → Moved S T
  unfolding react
  look_at server notify now taken [] offered me peer = moved me peer
  look_at server notify now taken (b ∷ bs) (some a) me peer = moved me peer
  look_at server notify now taken (b ∷ bs) none me peer = elim (read_frame (b ∷ bs)) [
    | closed ↦ stopped bad_frame
    | crash ↦ stopped out_of_range
    | received f rest ↦ elim (handle_frame server notify now f (me.link, me.upper)) [
      | none ↦ stopped ended
      | some ((link, s), reaction) ↦
          moved (react taken f link s me reaction) (record peer { stream = rest })
    ]
  ]

  unfoldable pub move : Bool → Option (SocketOutput S) → Move → End S → End T → Moved S T
  unfolding new_request send_request send_answer heart_beat_timeout remove_at look_at
  move server notify (ask cmd payload) me peer =
      let (link, r) = new_request cmd payload me.link in
      moved (record me { link = link; asked = r ∷ me.asked; issued = r ∷ me.issued }) peer
  move server notify (accept i time) me peer = elim (get_elem? me.asked i) [
    | none ↦ moved me peer
    | some r ↦
        let (link, packet) = send_request server time r me.link in
        moved
          (record me { link = link; asked = remove_at i me.asked; stream = me.stream ++ packet })
          peer
  ]
  move server notify (give_up i) me peer = moved (record me { asked = remove_at i me.asked }) peer
  move server notify (reply time) me peer = elim me.offered [
    | none ↦ moved me peer
    | some a ↦
        moved (record me { offered = none; stream = me.stream ++ send_answer server time a }) peer
  ]
  move server notify withdraw me peer = moved (record me { offered = none }) peer
  move server notify (idle now) me peer =
      if heart_beat_timeout now me.link then stopped no_heart_beat else moved me peer
  move server notify (look now taken) me peer =
      look_at server notify now taken peer.stream me.offered me peer
  move server notify fail_read me peer = stopped read_failed
  move server notify fail_write me peer =
      if has_output me.asked me.offered then stopped write_failed else moved me peer

-- The connection, or why it is over. The client's state is `S`, the server's is `T`.
pub data Connection (S T : Type 0) : Type 0 where
  up : End S → End T → Connection S T
  down : Reason → Connection S T

-- A move of the client, or of the server.
pub data Event : Type 0 where
  by_client by_server : Move → Event

module _ {S T : Type 0} (notify : Option (SocketOutput S)) (serve : Option (SocketOutput T)) where
  abbrev pub from_client : Moved S T → Connection S T
  from_client (moved c s) = up c s
  from_client (stopped reason) = down reason

  abbrev pub from_server : Moved T S → Connection S T
  from_server (moved s c) = up c s
  from_server (stopped reason) = down reason

  unfoldable pub step : Event → Connection S T → Connection S T
  unfolding move
  step e (down reason) = down reason
  step (by_client m) (up c s) = from_client (move false notify m c s)
  step (by_server m) (up c s) = from_server (move true serve m s c)

  unfoldable pub run : List Event → Connection S T → Connection S T
  unfolding step
  run [] x = x
  run (e ∷ es) x = run es (step e x)
