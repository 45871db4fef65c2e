-- ===== src/Link/Call.antt =====
-- socketApi/socket.go: a request from one end of a connection to the other, and back.
use realtime_data_center.Base.{
  ℕ, ◌-◌, ◌^◌, ◌<◌, ◌≡◌, ◌≢◌, refl, ap, ◌∙◌, Bool, true, false, not, List, [], ◌∷◌, ◌++◌, Option,
  none, some, arith, ◌==◌, length, Bytes,
}
use realtime_data_center.Base.Int.{ℤ}
use realtime_data_center.Base.Words.{IsInt64}
use realtime_data_center.Socket.{cmd_heart, Received, received, closed, crash, read_frame}
use realtime_data_center.Socket.Frames.{Fits, read_frame-encode}
use realtime_data_center.Link.{
  Frame, Request, Answer, Link, load_request, delete_request, store_request, new_request, Reaction,
  answer, deliver, SocketOutput, handle_request, handle_ack, handle_frame, request_frame,
  answer_frame, send_request, send_answer,
}

delete_absent :
    (k : ℕ) (queue : List Request) → load_request k queue ≡ none → delete_request k queue ≡ queue
unfolding load_request delete_request
delete_absent k [] e = refl
delete_absent k (r ∷ queue) e = ground (arith, delete_absent k queue)

load_stored :
    (r : Request) (queue : List Request)
    → load_request r.order queue ≡ none
    → load_request r.order (store_request r queue) ≡ some r
unfolding store_request load_request
load_stored r queue e =
    let same : (r.order == r.order) ≡ true = ground arith in
    rw (e, store_request, same, load_request) refl

delete_stored :
    (r : Request) (queue : List Request)
    → load_request r.order queue ≡ none
    → delete_request r.order (store_request r queue) ≡ queue
unfolding store_request delete_request
delete_stored r queue e =
    let same : (r.order == r.order) ≡ true = ground arith in
    rw (e, store_request, same, delete_request) (delete_absent r.order queue e)

handle_ack_waiting :
    {S : Type 0} (frame : Frame) (link : Link) (s : S) {r : Request}
    → load_request frame.order link.ret_queue ≡ some r
    → handle_ack frame (link, s)
      ≡ some (
        (record link { ret_queue = delete_request frame.order link.ret_queue }, s),
        deliver r frame.payload,
      )
unfolding handle_ack
handle_ack_waiting frame link s e = rw (e, handle_ack) refl

module _ {S U : Type 0} (server : Bool) (f : SocketOutput S) (notify : Option (SocketOutput U))
    (cmd : ℕ) (payload content : Bytes) (link peer : Link) (s s' : S) (u : U)
    (sent replied : ℤ) where
  request : Request
  request = (new_request cmd payload link).1

  reply : Answer
  reply = record { content = content; cmd = cmd; order = request.order }

  answers :
      (b : Bool) (now : ℤ)
      → cmd ≢ cmd_heart
      → f cmd payload s ≡ some (s', content)
      → handle_frame (not b) (some f) now (request_frame b sent request) (peer, s)
        ≡ some ((peer, s'), answer reply)
  unfolding request reply new_request handle_frame handle_request
  answers true now h e =
      let other : (cmd == cmd_heart) ≡ false = ground arith in rw (other, e, handle_request) refl
  answers false now h e =
      let other : (cmd == cmd_heart) ≡ false = ground arith in rw (other, e, handle_request) refl

  acknowledged :
      (b : Bool) (now : ℤ) (x : Link)
      → handle_frame b notify now (answer_frame (not b) replied reply) (x, u)
        ≡ handle_ack (answer_frame (not b) replied reply) (x, u)
  unfolding handle_frame
  acknowledged true now x = refl
  acknowledged false now x = refl

  -- The asker's end once the request is with the writer, and once it has its answer.
  waiting : Link
  waiting = (send_request server sent request (new_request cmd payload link).0).0

  delivers :
      load_request request.order link.ret_queue ≡ none
      → handle_ack (answer_frame (not server) replied reply) (waiting, u)
        ≡ some ((record link { order = request.order }, u), deliver request content)
  unfolding request reply new_request waiting send_request
  delivers e =
      handle_ack_waiting (answer_frame (not server) replied reply) waiting u
        (load_stored request link.ret_queue e)
      ∙ ap
          (λ q. some (
            (record { order = request.order; ret_queue = q; heart_beat = link.heart_beat }, u),
            deliver request content,
          ))
          (delete_stored request link.ret_queue e)

  request-Fits :
      IsInt64 sent → length payload < 2 ^ 16 - 1 → Fits (request_frame server sent request)
  unfolding request new_request
  request-Fits h size = record { time = h; order = omega arith; size = size }

  reply-Fits :
      IsInt64 replied → length content < 2 ^ 16 - 1 → Fits (answer_frame (not server) replied reply)
  unfolding request reply new_request
  reply-Fits h size = record { time = h; order = omega arith; size = size }

-- What an end of a connection does with what its reader met: it handles a frame.
unfoldable pub take_in :
    {S : Type 0}
    → Bool
    → Option (SocketOutput S)
    → ℤ
    → Received
    → Link × S
    → Option ((Link × S) × Reaction)
take_in server notify now (received frame rest) state = handle_frame server notify now frame state
take_in server notify now closed state = none
take_in server notify now crash state = none

-- Either end of a connection asks the other: with a command that is no heart beat, a payload and an
-- answer of less than 65535 bytes, clocks in range, and an order under which nothing waits. Then the
-- other end reads the packet of the request and hands its callback that command and payload, and its
-- packet of the callback's answer, read at the end that asked, delivers that answer to this request;
-- the queue is then what it was before.
pub call_delivers :
    {S U : Type 0} (server : Bool) (f : SocketOutput S) (notify : Option (SocketOutput U)) (cmd : ℕ)
    (payload content rest rest' : Bytes) (link peer : Link) (s s' : S) (u : U)
    (sent replied now now' : ℤ)
    → cmd ≢ cmd_heart
    → f cmd payload s ≡ some (s', content)
    → load_request (new_request cmd payload link).1.order link.ret_queue ≡ none
    → IsInt64 sent
    → IsInt64 replied
    → length payload < 2 ^ 16 - 1
    → length content < 2 ^ 16 - 1
    → let (asked, r) = new_request cmd payload link in
      let (waits, packet) = send_request server sent r asked in
      let a : Answer = record { content = content; cmd = cmd; order = r.order } in
      (take_in (not server) (some f) now (read_frame (packet ++ rest)) (peer, s)
        ≡ some ((peer, s'), answer a))
      × (take_in server notify now'
            (read_frame (send_answer (not server) replied a ++ rest'))
            (waits, u)
          ≡ some ((asked, u), deliver r content))
unfolding send_request send_answer take_in request reply new_request waiting
call_delivers {S} {U} server f notify cmd payload content rest rest' link peer s s' u sent replied
      now now' h e absent hs hr size size' =
    (
      ap (λ x. take_in (not server) (some f) now x (peer, s))
            (read_frame-encode _ rest (
              request-Fits server f notify cmd payload content link peer s s' u sent replied hs
                size))
          ∙ answers server f notify cmd payload content link peer s s' u sent replied server now h
              e,
      ap
            (λ x.
              take_in server notify now' x
                (waiting server f notify cmd payload content link peer s s' u sent replied, u))
            (read_frame-encode _ rest' (
              reply-Fits server f notify cmd payload content link peer s s' u sent replied hr
                size'))
          ∙ acknowledged server f notify cmd payload content link peer s s' u sent replied server
              now' _
          ∙ delivers server f notify cmd payload content link peer s s' u sent replied absent,
    )
