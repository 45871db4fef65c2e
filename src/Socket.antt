-- ===== src/Socket.antt =====
-- socketApi/socket.go: the frames of the socket protocol, and the loop that reads them.
pub mod Frames
pub mod Sound
pub mod Stream
use realtime_data_center.Base.{
  ℕ, zero, suc, ◌+◌, ◌%◌, ◌^◌, ◌≡◌, refl, Bool, true, false, ◌&&◌, List, [], ◌∷◌, ◌++◌, Option,
  none, some, arith, ◌==◌, if◌then◌else◌, length, get_elem?, take, take_exact, Bytes,
}
use realtime_data_center.Base.Int.{ℤ, wrap64}
use realtime_data_center.Base.Words.{le_bytes, le_value, word64}

abbrev pub frame_start : ℕ
frame_start = 0x68

abbrev pub frame_end : ℕ
frame_end = 0x16

abbrev pub version : ℕ
version = 0x10

abbrev pub server_flag : Bool
server_flag = true

abbrev pub client_flag : Bool
client_flag = false

abbrev pub server_request : ℕ
server_request = 0x10

abbrev pub server_ack : ℕ
server_ack = 0x11

abbrev pub client_request : ℕ
client_request = 0x00

abbrev pub client_ack : ℕ
client_ack = 0x01

abbrev pub cmd_unblock_read : ℕ
cmd_unblock_read = 1

abbrev pub cmd_write : ℕ
cmd_write = 2

abbrev pub cmd_register_notify : ℕ
cmd_register_notify = 3

abbrev pub cmd_notify : ℕ
cmd_notify = 4

abbrev pub cmd_heart : ℕ
cmd_heart = 5

-- What a frame carries between its marks. The reader reads the time and makes no use of it.
pub record Frame : Type 0 where
  pub time_stamp : ℤ
  pub direction : ℕ
  pub order : ℕ
  pub cmd : ℕ
  pub payload : Bytes

-- The 22 bytes of a frame's header, with the length that it declares.
unfoldable pub header : ℤ → ℕ → ℕ → ℕ → ℕ → Bytes
header time_stamp direction order cmd len =
    frame_start
    ∷ version
    ∷ (le_bytes 8 (word64 time_stamp)
        ++ (direction ∷ (le_bytes 8 order ++ (cmd ∷ le_bytes 2 (len % 2 ^ 16)))))

-- The packet that the writer sends. `uint16(len(ret))` drops the upper bits of the length.
unfoldable pub encode : Frame → Bytes
encode f =
    header f.time_stamp f.direction f.order f.cmd (length f.payload)
    ++ (f.payload ++ frame_end ∷ [])

-- What one round of the reader meets: a frame, and what follows it on the connection; an error, after
-- which it closes the connection; or an index out of range, which ends the program.
pub data Received : Type 0 where
  received : Frame → Bytes → Received
  closed : Received
  crash : Received

-- `binary.Read` of an unsigned integer of `k` bytes.
unfoldable pub read_uint : ℕ → Bytes → Option (ℕ × Bytes)
read_uint k input = elim (take_exact k input) [
  | none ↦ none
  | some (b, rest) ↦ some (le_value b, rest)
]

-- The payload and the end of the frame. The buffer has `length + 1` bytes, counted as a uint16.
unfoldable pub read_body : ℤ → ℕ → ℕ → ℕ → ℕ → Bytes → Received
read_body time_stamp direction order cmd len input = elim (take_exact ((len + 1) % 2 ^ 16) input) [
  | none ↦ closed
  | some (real_data, rest) ↦ elim (get_elem? real_data len) [
    | none ↦ crash
    | some e ↦
        if e == frame_end
        then received
            (record {
              time_stamp = time_stamp;
              direction = direction;
              order = order;
              cmd = cmd;
              payload = take len real_data;
            })
            rest
        else closed
  ]
]

-- The fields of the header behind the two marks, one after another.
unfoldable pub read_fields : Bytes → Bytes → Received
read_fields fields input = elim (read_uint 8 fields) [
  | none ↦ closed
  | some (time_stamp, fields1) ↦ elim (read_uint 1 fields1) [
    | none ↦ closed
    | some (direction, fields2) ↦ elim (read_uint 8 fields2) [
      | none ↦ closed
      | some (order, fields3) ↦ elim (read_uint 1 fields3) [
        | none ↦ closed
        | some (cmd, fields4) ↦ elim (read_uint 2 fields4) [
          | none ↦ closed
          | some (len, fields5) ↦ read_body (wrap64 time_stamp 0) direction order cmd len input
        ]
      ]
    ]
  ]
]

unfoldable pub read_header : Bytes → Bytes → Received
read_header (start ∷ v ∷ fields) input =
    if start == frame_start
    then if v == version then read_fields fields input else closed
    else closed
read_header _ input = closed

unfoldable pub read_frame : Bytes → Received
read_frame input = elim (take_exact 22 input) [
  | none ↦ closed
  | some (head, rest) ↦ read_header head rest
]

-- How the reader ends: with what the handling of the frames left, by a crash, or, in this model only,
-- because the fuel is used up.
pub data Ended {ℓ} (S : Type ℓ) : Type ℓ where
  ended : S → Ended S
  crashed : Ended S
  unfinished : Ended S

-- The loop of the reader over all that arrives on the connection. `handle` is what it does with a
-- frame; `none` ends the program.
unfoldable pub read_loop {ℓ} : {S : Type ℓ} → ℕ → (Frame → S → Option S) → Bytes → S → Ended S
read_loop zero handle input s = unfinished
read_loop (suc fuel) handle input s = elim (read_frame input) [
  | closed ↦ ended s
  | crash ↦ crashed
  | received frame rest ↦ elim (handle frame s) [
    | none ↦ crashed
    | some s' ↦ read_loop fuel handle rest s'
  ]
]
