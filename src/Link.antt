-- ===== src/Link.antt =====
-- socketApi/socket.go: what the two goroutines of a connection keep and do: the numbering of requests,
-- the queue of those that wait for an answer, the handling of a frame by the reader, and the packets of
-- the writer. The upper layer's state is `S`; its callback may end the program.
pub mod Matching
pub mod Session
pub mod Call
pub mod Duplex
use realtime_data_center.Base.{
  ℕ, zero, suc, ◌+◌, ◌%◌, ◌^◌, ◌≡◌, refl, Bool, true, false, ◌&&◌, ◌||◌, List, [], ◌∷◌, ◌++◌,
  Option, none, some, arith, leb, ltb, ◌==◌, if◌then◌else◌, Bytes, utf8, decimal,
}
use realtime_data_center.Base.Int.{ℤ, pos, ltb_ℤ, sub64}
use realtime_data_center.Socket.{
  Frame, encode, server_request, server_ack, client_request, client_ack, cmd_heart,
}

-- `requestFromSocket`; the channel for the answer is named by the order.
pub record Request : Type 0 where
  pub order : ℕ
  pub cmd : ℕ
  pub payload : Bytes

-- `ret2Socket`
pub record Answer : Type 0 where
  pub content : Bytes
  pub cmd : ℕ
  pub order : ℕ

-- The queue is a sync.Map from orders to requests; each request stands under its own order.
pub record Link : Type 0 where
  pub order : ℕ
  pub ret_queue : List Request
  pub heart_beat : ℤ

abbrev pub new_link : ℤ → Link
new_link now = record { order = 0; ret_queue = []; heart_beat = now }

unfoldable pub load_request : ℕ → List Request → Option Request
load_request order [] = none
load_request order (r ∷ queue) = if r.order == order then some r else load_request order queue

unfoldable pub delete_request : ℕ → List Request → List Request
delete_request order [] = []
delete_request order (r ∷ queue) =
    if r.order == order then delete_request order queue else r ∷ delete_request order queue

-- `LoadOrStore`: a request that is there stays.
unfoldable pub store_request : Request → List Request → List Request
unfolding load_request
store_request r queue = elim (load_request r.order queue) [ some _ ↦ queue | none ↦ r ∷ queue ]

-- The start of `Request`: the next order, a uint64, and what is sent to the writer.
unfoldable pub new_request : ℕ → Bytes → Link → Link × Request
new_request cmd payload link =
    let order = (link.order + 1) % 2 ^ 64 in
    (record link { order = order }, record { order = order; cmd = cmd; payload = payload })

-- What the reader does about a frame: it passes an answer to the writer, the payload to the request
-- that waits for it, or nothing.
pub data Reaction : Type 0 where
  answer : Answer → Reaction
  deliver : Request → Bytes → Reaction
  drop : Reaction

-- The upper layer's callback: a command and a payload, and the answer to them.
abbrev pub SocketOutput : Type 0 → Type 0
SocketOutput S = ℕ → Bytes → S → Option (S × Bytes)

abbrev pub is_request : ℕ → Bool
is_request direction = direction == server_request || direction == client_request

abbrev pub is_ack : ℕ → Bool
is_ack direction = direction == server_ack || direction == client_ack

module _ {S : Type 0} where
  -- A request of the other end.
  unfoldable pub handle_request :
      Option (SocketOutput S) → ℤ → Frame → Link × S → Option ((Link × S) × Reaction)
  handle_request notify now frame (link, s) =
      if frame.cmd == cmd_heart
      then some (
        (record link { heart_beat = now }, s),
        answer (record { content = []; cmd = frame.cmd; order = frame.order }),
      )
      else elim notify [
        | none ↦ some ((link, s), drop)
        | some f ↦ elim (f frame.cmd frame.payload s) [
          | none ↦ none
          | some (s', ret) ↦
              some (
                (link, s'),
                answer (record { content = ret; cmd = frame.cmd; order = frame.order }),
              )
        ]
      ]

  -- An answer of the other end. The request leaves the queue whether or not it still waits.
  unfoldable pub handle_ack : Frame → Link × S → Option ((Link × S) × Reaction)
  unfolding load_request delete_request
  handle_ack frame (link, s) = elim (load_request frame.order link.ret_queue) [
    | some r ↦ some (
      (record link { ret_queue = delete_request frame.order link.ret_queue }, s),
      deliver r frame.payload,
    )
    | none ↦ some ((link, s), drop)
  ]

  -- The switch on a frame's direction. Only the server looks at which end it comes from.
  unfoldable pub handle_frame :
      Bool → Option (SocketOutput S) → ℤ → Frame → Link × S → Option ((Link × S) × Reaction)
  handle_frame server notify now frame state =
      if is_request frame.direction
      then if server && frame.direction == server_request
        then some (state, drop)
        else handle_request notify now frame state
      else if is_ack frame.direction
      then if server && frame.direction == server_ack
        then some (state, drop)
        else handle_ack frame state
      else some (state, drop)

abbrev pub answer_frame : Bool → ℤ → Answer → Frame
answer_frame server time_stamp a = record {
  time_stamp = time_stamp;
  direction = if server then server_ack else client_ack;
  order = a.order;
  cmd = a.cmd;
  payload = a.content;
}

abbrev pub request_frame : Bool → ℤ → Request → Frame
request_frame server time_stamp r = record {
  time_stamp = time_stamp;
  direction = if server then server_request else client_request;
  order = r.order;
  cmd = r.cmd;
  payload = r.payload;
}

-- The packet of an answer.
unfoldable pub send_answer : Bool → ℤ → Answer → Bytes
send_answer server time_stamp a = encode (answer_frame server time_stamp a)

-- The packet of a request, which waits for its answer from then on.
unfoldable pub send_request : Bool → ℤ → Request → Link → Link × Bytes
send_request server time_stamp r link = (
  record link { ret_queue = store_request r link.ret_queue },
  encode (request_frame server time_stamp r),
)

-- Two seconds with nothing to send: whether the writer closes the connection, for want of a heart beat.
unfoldable pub heart_beat_timeout : ℤ → Link → Bool
unfolding sub64
heart_beat_timeout now link = if ltb_ℤ (sub64 now link.heart_beat) (pos 3) then false else true

-- The text of a connection, by the two addresses, and what `close_notify` is told of its end. The reason
-- is never set.
unfoldable pub socket_id : Bytes → Bytes → Bytes
socket_id local remote = utf8 "[本程序:" ++ (local ++ (utf8 "<-->访问者:" ++ (remote ++ utf8 "]")))

unfoldable pub close_text : Bytes → Bytes
close_text id = utf8 "[" ++ (id ++ utf8 "]关闭")

-- How `Request` ends: an answer comes, none comes in time, or the writer does not accept the request in
-- time.
pub data RequestEnd : Type 0 where
  answered : Bytes → RequestEnd
  unanswered not_accepted : RequestEnd

abbrev request_error : Bytes → Request → Bytes → Bytes
request_error id r what =
    utf8 "["
    ++ (id ++ (utf8 "]-[" ++ (decimal r.order ++ (utf8 "]" ++ (what ++ (utf8 "\n" ++ r.payload))))))

-- What `Request` returns: the data, and the text of the error.
unfoldable pub request_return : Bytes → Request → RequestEnd → Bytes × Option Bytes
unfolding decimal
request_return id r (answered content) = (content, none)
request_return id r unanswered = ([], some (request_error id r (utf8 "发起请求成功,等待相应时超时")))
request_return id r not_accepted = ([], some (request_error id r (utf8 "发起请求超时")))
