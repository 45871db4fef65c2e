-- ===== src/Examples/Sockets.antt =====
-- socketApi/socket.go: the theorems on frames and connections at concrete ones.
use realtime_data_center.Base.{
  ℕ, ◌+◌, ◌-◌, ◌%◌, ◌^◌, ◌<◌, ◌≤◌, ◌≡◌, ◌≢◌, refl, ap, true, false, [], ◌∷◌, ◌++◌, Option, none,
  some, arith, utf8, length, length-replicate, replicate, get_elem?,
}
use realtime_data_center.Base.Int.{pos}
use realtime_data_center.Base.Words.{word64, le_bytes}
use realtime_data_center.Socket.{
  Frame, header, encode, received, closed, crash, read_frame, ended, unfinished, read_loop,
  client_request, server_ack, cmd_write,
}
use realtime_data_center.Socket.Frames.{
  Fits, read_frame-encode, read_frame_crash, read_frame_oversized,
}
use realtime_data_center.Socket.Sound.{read_frame_received}
use realtime_data_center.Socket.Stream.{encode_all, read_loop_ends, read_loop-encode_all}
use realtime_data_center.Link.{
  new_link, new_request, send_request, send_answer, Answer, answer, deliver, SocketOutput,
  handle_frame, handle_ack, load_request, store_request, delete_request,
}
use realtime_data_center.Link.Matching.{count}
use realtime_data_center.Link.Session.{Session, ask, accept, arrive, run, run_delivers_once}
use realtime_data_center.Link.Call.{take_in, call_delivers}

abbrev pub small : Frame
small = record {
  time_stamp = pos 7;
  direction = client_request;
  order = 3;
  cmd = cmd_write;
  payload = utf8 "hi";
}

small-Fits : Fits small
small-Fits = record { time = omega arith; order = omega arith; size = omega arith }

read_frame-encode_test : read_frame (encode small ++ utf8 "x") ≡ received small (utf8 "x")
read_frame-encode_test = read_frame-encode small (utf8 "x") small-Fits

read_frame_received_test : (encode small ++ [] ≡ encode small ++ []) × Fits small
unfolding encode header le_bytes word64
read_frame_received_test =
    read_frame_received (encode small ++ []) [] small (omega arith)
      (read_frame-encode small [] small-Fits)

read_frame_crash_example : read_frame (header (pos 7) 0 1 2 (2 ^ 16 - 1) ++ []) ≡ crash
read_frame_crash_example = read_frame_crash (pos 7) 0 1 2 [] (omega arith) (omega arith)

-- A payload of 65537 bytes.
large : Frame
large = record small { payload = 1 ∷ 7 ∷ replicate 65535 0 }

large_size : length large.payload ≡ 65537
unfolding large
large_size = ap (λ n. 2 + n) (length-replicate {A = ℕ} 65535 0)

large_byte : get_elem? large.payload (length large.payload % 2 ^ 16) ≡ some 7
unfolding large
large_byte = ap (λ n. get_elem? large.payload (n % 2 ^ 16)) large_size

read_frame_oversized_example : read_frame (encode large ++ []) ≡ closed
unfolding large
read_frame_oversized_example =
    read_frame_oversized large [] (omega arith) (omega arith) (omega (arith, large_size)) large_byte
      (omega arith)

abbrev counting : Frame → ℕ → Option ℕ
counting f n = some (n + 1)

read_loop_ends_example : read_loop 30 counting (encode small) 0 ≢ unfinished
unfolding encode header le_bytes
read_loop_ends_example = read_loop_ends 30 counting (encode small) 0 (omega arith)

read_loop-encode_all_example : read_loop 60 counting (encode_all (small ∷ small ∷ [])) 0 ≡ ended 2
unfolding encode header le_bytes
read_loop-encode_all_example =
    read_loop-encode_all 60 counting (small ∷ small ∷ []) 0 (small-Fits, (small-Fits, tt))
      (omega arith)

abbrev reply : Frame
reply = record small { direction = server_ack; order = 1 }

abbrev after : Session ℕ
after = record {
  link = record { order = 1; ret_queue = []; heart_beat = pos 0 };
  asked = [];
  log = 1 ∷ [];
  upper = 0;
}

run_delivers_once_example : (count 1 after.log ≤ 1) × (after.link.order < 1 → count 1 after.log ≡ 0)
unfolding run handle_frame handle_ack new_request load_request store_request delete_request
run_delivers_once_example =
    run_delivers_once false none
      (ask cmd_write (utf8 "hi")
        ∷ accept 0 (pos 5)
        ∷ arrive reply (pos 6)
        ∷ arrive reply (pos 7)
        ∷ [])
      (pos 0) 0 after 1 (omega arith) refl

-- An upper layer that counts its requests and answers with their payload.
abbrev echo : SocketOutput ℕ
echo cmd payload n = some (n + 1, payload)

call_delivers_example :
    let (asked, r) = new_request cmd_write (utf8 "hi") (new_link (pos 0)) in
    let (waits, packet) = send_request false (pos 5) r asked in
    let a : Answer = record { content = utf8 "hi"; cmd = cmd_write; order = r.order } in
    (take_in {S = ℕ} true (some echo) (pos 6) (read_frame (packet ++ [])) (new_link (pos 0), 0)
      ≡ some ((new_link (pos 0), 1), answer a))
    × (take_in {S = ℕ} false none (pos 8) (read_frame (send_answer true (pos 7) a ++ [])) (waits, 0)
        ≡ some ((asked, 0), deliver r (utf8 "hi")))
unfolding load_request
call_delivers_example =
    call_delivers {S = ℕ} {U = ℕ} false echo none cmd_write (utf8 "hi") (utf8 "hi") [] []
      (new_link (pos 0)) (new_link (pos 0)) 0 1 0 (pos 5) (pos 7) (pos 6) (pos 8) (omega arith) refl
      refl (omega arith) (omega arith) (omega arith) (omega arith)
