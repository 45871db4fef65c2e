-- ===== src/Client.antt =====
-- socketApi/clientHandle.go: the client's end of a connection. How a request fares is an argument: the
-- socket below gives the answer or the text of an error.
pub mod Calls
use realtime_data_center.Base.{
  ℕ, Bool, true, false, List, [], ◌∷◌, ◌++◌, Option, none, some, if◌then◌else◌, Bytes, utf8,
}
use realtime_data_center.Base.Int.{ℤ, pos}
use realtime_data_center.Golib.Unmarshal.{unmarshal}
use realtime_data_center.Socket.{cmd_unblock_read, cmd_write, cmd_register_notify, cmd_heart}
use realtime_data_center.Messages.{
  VisitorBase, visitor_base_string, ChangeNotify, change_notify_string, VisitorRequestNotify,
  visitor_request_notify_string, ReturnBase, return_base, set_return, set_return_base,
  ReturnWithJsonPayload, return_with_json_payload, set_return_with_json_payload,
}

-- The name that the client gives, whether it connects again after a loss, the flag that ends its
-- heart-beat goroutine, whether there is a socket, and whether it has a connection to close.
pub record ClientHandle : Type 0 where
  pub visitor_name : Bytes
  pub auto_reconnect : Bool
  pub quit : Bool
  pub connected : Bool
  pub connection : Bool

abbrev pub set_visitor : Bytes → ClientHandle → ClientHandle
set_visitor name client = record client { visitor_name = name }

abbrev pub get_visitor : ClientHandle → Bytes
get_visitor client = client.visitor_name

abbrev pub set_auto_reconnect : ClientHandle → ClientHandle
set_auto_reconnect client = record client { auto_reconnect = true }

-- The text of a client, where its socket has the text `id`.
unfoldable pub get_id : Bytes → ClientHandle → Bytes
get_id id client =
    utf8 "基类"
    ++ ((if client.connected then id else utf8 "socket未初始化")
        ++ (utf8 "+注册身份[" ++ (client.visitor_name ++ utf8 "]")))

-- `CLoseSocket`. What Close returns is only logged.
abbrev pub close_socket : ClientHandle → ClientHandle
close_socket client = record client { connection = false }

-- What comes of a request, and of a call that makes bytes or fails.
pub data Exchange : Type 0 where
  returned : Bytes → Exchange
  failed : Bytes → Exchange

abbrev pub closed_reason : Bytes
closed_reason = utf8 "连接处于关闭中"

-- With an error, `Request` returns no data.
abbrev pub exchange_reason : Bytes → Bytes
exchange_reason err = utf8 "请求通信" ++ (err ++ utf8 ":数据")

abbrev pub json_reason : Bytes → Bytes → Bytes
json_reason err ret_bytes = utf8 "json解析" ++ (err ++ (utf8 ":数据" ++ ret_bytes))

-- What the client makes of the outcome of a request: an answer without data, and one with data.
module _ (parse_float : Bytes → Option ℕ) (json_error : Bytes → Bytes) where
  unfoldable pub take_return_base : Exchange → ReturnBase
  unfolding unmarshal set_return_base set_return
  take_return_base (failed err) = set_return false (exchange_reason err) return_base
  take_return_base (returned ret_bytes) =
      let (ret, wrong) = unmarshal set_return_base ret_bytes return_base in
      if wrong then set_return false (json_reason (json_error ret_bytes) ret_bytes) ret else ret

  abbrev fail_with : Bytes → ReturnWithJsonPayload → ReturnWithJsonPayload
  fail_with reason ret = record ret { base = set_return false reason ret.base }

  unfoldable pub take_return_with_payload : Exchange → ReturnWithJsonPayload
  unfolding unmarshal set_return_with_json_payload set_return
  take_return_with_payload (failed err) = fail_with (exchange_reason err) return_with_json_payload
  take_return_with_payload (returned ret_bytes) =
      let (ret, wrong) =
        unmarshal (set_return_with_json_payload parse_float) ret_bytes return_with_json_payload in
      if wrong then fail_with (json_reason (json_error ret_bytes) ret_bytes) ret else ret

  -- The calls, with the socket as a function on a state `T`.
  module _ {T : Type 0} (request : ℕ → Bytes → T → T × Exchange) (client : ClientHandle) where
    unfoldable pub unblock_read : Bytes → T → T × ReturnWithJsonPayload
    unfolding visitor_base_string take_return_with_payload set_return
    unblock_read path t =
        let message : VisitorBase = record { path = path; visitor = get_visitor client } in
        let (t', outcome) = request cmd_unblock_read (visitor_base_string message) t in
        if client.connected
        then (t', take_return_with_payload outcome)
        else (t, fail_with closed_reason return_with_json_payload)

    -- `marshalled` is what json.Marshal makes of the data.
    unfoldable pub write_data : Bytes → Exchange → T → T × ReturnBase
    unfolding change_notify_string take_return_base set_return
    write_data path (failed err) t = (t, set_return false err return_base)
    write_data path (returned marshalled) t =
        let message : ChangeNotify = record {
          base = record { path = path; visitor = get_visitor client };
          timestamp = pos 0;
          payload = marshalled;
        } in
        let (t', outcome) = request cmd_write (change_notify_string message) t in
        if client.connected
        then (t', take_return_base outcome)
        else (t, set_return false closed_reason return_base)

    unfoldable pub register_notify : Bytes → ℤ → T → T × ReturnWithJsonPayload
    unfolding visitor_request_notify_string take_return_with_payload set_return
    register_notify path timeout t =
        let message : VisitorRequestNotify = record {
          base = record { path = path; visitor = get_visitor client };
          timeout = timeout;
        } in
        let (t', outcome) = request cmd_register_notify (visitor_request_notify_string message) t in
        if client.connected
        then (t', take_return_with_payload outcome)
        else (t, fail_with closed_reason return_with_json_payload)

-- What the caller of `Request` sees of its outcome.
abbrev pub exchange_of : Bytes × Option Bytes → Exchange
exchange_of (ret, none) = returned ret
exchange_of (ret, some err) = failed err

-- The heart-beat goroutine over some seconds, by whether the flag is set after each request; and
-- whether it has ended.
unfoldable pub heart_beats :
    {T : Type 0} → (ℕ → Bytes → T → T × Exchange) → List Bool → T → T × Bool
heart_beats request [] t = (t, false)
heart_beats request (quit ∷ seconds) t =
    let t' = (request cmd_heart [] t).0 in
    let rest = heart_beats request seconds t' in if quit then (t', true) else rest

-- An attempt to connect: the address does not resolve, nobody answers, or the socket stands.
pub data Dial : Type 0 where
  unresolved refused connected_now : Dial

-- `StartConnect`, and whether it returns nil.
unfoldable pub start_connect : Dial → Bytes → ClientHandle → ClientHandle × Bool
start_connect connected_now visitor client =
    (record (set_visitor visitor client) { connected = true; connection = true }, true)
start_connect refused visitor client =
    (record (set_visitor visitor client) { connection = false }, false)
start_connect unresolved visitor client = (set_visitor visitor client, false)

-- The goroutine that connects again, with the outcomes of its attempts, until one succeeds.
unfoldable pub reconnect : List Dial → ClientHandle → ClientHandle
unfolding start_connect
reconnect [] client = client
reconnect (dial ∷ dials) client =
    let (client', connected) = start_connect dial (get_visitor client) client in
    elim connected [ true ↦ client' | false ↦ reconnect dials client' ]

-- `CloseNotify`: the heart beat ends, the socket is gone, and a client that is set to do so connects
-- again.
unfoldable pub close_notify : List Dial → ClientHandle → ClientHandle
unfolding reconnect
close_notify dials client =
    let closed = record client { quit = false; connected = false } in
    if client.auto_reconnect then reconnect dials closed else closed
