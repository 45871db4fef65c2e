-- ===== src/Simulation.antt =====
-- clientSimulation/main.go: the program that reads all data, listens at every path and writes back what
-- each path holds, and the callback that counts the notifications.
pub mod Notices
pub mod WriteBack
pub mod Requests
pub mod Registration
pub mod Whole
use realtime_data_center.Base.{
  ℕ, ◌+◌, ◌≡◌, refl, Bool, true, false, List, [], ◌∷◌, ◌++◌, Option, none, some, if◌then◌else◌,
  ◌==◌, Bytes, utf8, Dict, lookup, insert,
}
use realtime_data_center.Base.Int.{ℤ, pos}
use realtime_data_center.Path.{input_from_string}
use realtime_data_center.Value.{Value, is_nil}
use realtime_data_center.Value.Marshal.{marshal}
use realtime_data_center.Json.{find}
use realtime_data_center.Json.Nodes.{iter_all_path}
use realtime_data_center.Golib.Unmarshal.{unmarshal}
use realtime_data_center.Socket.{cmd_notify}
use realtime_data_center.Messages.{
  ChangeNotifyJson, change_notify_json, set_change_notify_json, ReturnBase, return_base, success,
  set_return, return_base_string,
}
use realtime_data_center.Client
use realtime_data_center.Client.{ClientHandle, Exchange, returned, failed, Dial}

-- How many notifications came for each path, and in all.
pub record Counts : Type 0 where
  pub by_path : Dict ℕ
  pub total_read : ℕ

abbrev pub no_counts : Counts
no_counts = record { by_path = []; total_read = 0 }

-- A run ends by `Fatalf` with a text, or by the callback, or it is over, with what the writes were
-- answered.
pub data Run (T : Type 0) : Type 0 where
  fatal : Bytes → Run T
  ended : Run T
  finished : T → Counts → List ReturnBase → Run T

abbrev pub add_answer : {T : Type 0} → ReturnBase → Run T → Run T
add_answer ret (fatal reason) = fatal reason
add_answer ret ended = ended
add_answer ret (finished t counts answers) = finished t counts (ret ∷ answers)

-- The callback of the socket that listens. `none` ends the program: at another command, or because no
-- counter stands under the path.
unfoldable pub count_notify :
    (Bytes → Option ℕ) → (Bytes → Bytes) → ℕ → Bytes → Counts → Option (Counts × Bytes)
unfolding unmarshal set_change_notify_json set_return return_base_string
count_notify parse_float json_error cmd payload counts =
    let (request, wrong) =
      unmarshal (set_change_notify_json parse_float) payload change_notify_json in
    if cmd == cmd_notify
    then if wrong
      then some (counts, return_base_string (set_return false (json_error payload) return_base))
      else elim (lookup request.path counts.by_path) [
        | none ↦ none
        | some n ↦ some (
          record {
            by_path = insert request.path (n + 1) counts.by_path;
            total_read = counts.total_read + 1;
          },
          return_base_string (set_return true [] return_base),
        )
      ]
    else none

-- What comes to the callback: commands and payloads.
abbrev pub Notices : Type 0
Notices = List (ℕ × Bytes)

-- The callback on one after another.
unfoldable pub count_all : (Bytes → Option ℕ) → (Bytes → Bytes) → Notices → Counts → Option Counts
unfolding count_notify
count_all parse_float json_error [] counts = some counts
count_all parse_float json_error ((cmd, payload) ∷ notices) counts =
    elim (count_notify parse_float json_error cmd payload counts) [
      | none ↦ none
      | some (counts', answer) ↦ count_all parse_float json_error notices counts'
    ]

-- A client before `StartConnect`.
abbrev pub zero_client : ClientHandle
zero_client = record {
  visitor_name = [];
  auto_reconnect = false;
  quit = false;
  connected = false;
  connection = false;
}

abbrev pub missing_node : Bytes → Bytes
missing_node value = value ++ utf8 "节点不存在"

module _ (float_text : ℕ → Bytes) (parse_float : Bytes → Option ℕ) (json_error : Bytes → Bytes)
    {T : Type 0} (request : ℕ → Bytes → T → T × Exchange) where
  -- The loop that listens at every path, and then gives it a counter; `early` is what comes to the
  -- callback before the counter of a path stands.
  unfoldable pub register_all : (Bytes → Notices) → ClientHandle → List Bytes → T → Counts → Run T
  unfolding count_all
  register_all early client [] t counts = finished t counts []
  register_all early client (value ∷ paths) t counts =
      let (t', ret) =
        Client.register_notify parse_float json_error request client value (pos 10) t in
      elim (count_all parse_float json_error (early value) counts) [
        | none ↦ ended
        | some counts' ↦
            let rest =
              register_all early client paths t'
                (record counts' { by_path = insert value 0 counts'.by_path }) in
            if success ret.base
            then rest
            else fatal (utf8 "监听" ++ (value ++ (utf8 "异常" ++ ret.reason)))
      ]

  -- The loop that writes to every path what the data that were read hold there; `news` is what comes to
  -- the callback after the write to a path and before the next.
  unfoldable pub write_all :
      (Bytes → Notices) → ClientHandle → Value → List Bytes → T → Counts → Run T
  unfolding count_all
  write_all news client v [] t counts = finished t counts []
  write_all news client v (value ∷ paths) t counts =
      let find_result = find v (input_from_string value) in
      let (t', w_ret) =
        Client.write_data parse_float json_error request client value
          (returned (marshal float_text find_result)) t in
      elim (is_nil find_result) [
        | true ↦ fatal (missing_node value)
        | false ↦ elim (count_all parse_float json_error (news value) counts) [
          | none ↦ ended
          | some counts' ↦ add_answer w_ret (write_all news client v paths t' counts')
        ]
      ]

  -- The whole program, by how its two sockets come to stand, in which order the ranges over maps list the
  -- paths, and what comes to the callback.
  unfoldable pub simulate :
      (List Bytes → List Bytes) → (Bytes → Notices) → (Bytes → Notices) → Dial → Dial → T → Run T
  unfolding register_all write_all
  simulate order early news dial dial' t =
      let write_socket = (Client.start_connect dial (utf8 "socket write") zero_client).0 in
      let (t1, ret) = Client.unblock_read parse_float json_error request write_socket [] t in
      let paths = order (iter_all_path [] ret.payload) in
      let read_socket = (Client.start_connect dial' (utf8 "socket read") zero_client).0 in
      if success ret.base
      then elim (register_all early read_socket paths t1 no_counts) [
        | fatal reason ↦ fatal reason
        | ended ↦ ended
        | finished t2 counts _ ↦ write_all news write_socket ret.payload paths t2 counts
      ]
      else fatal ret.reason
