-- ===== src/Visitor.antt =====
-- component/visitor.go: the requests of readers and writers, the results that a reader's buffer
-- holds, and the buffer itself. A channel that only carries a reply is the caller's business and is
-- not part of a request here.
pub mod Buffer
pub mod Keys
use realtime_data_center.Base.{
  ℕ, zero, suc, ◌+◌, ◌≤◌, ◌≡◌, refl, Bool, true, false, ◌&&◌, List, [], ◌∷◌, ◌++◌, Option, none,
  some, arith, length, drop, ltb, ◌==◌, if◌then◌else◌, Bytes, utf8, bytes_eq, decimal,
}
use realtime_data_center.Base.Int.{ℤ, pos, negsuc, add64}
use realtime_data_center.Path.{NodePath, input_from_string, output2string}
use realtime_data_center.Value.{Value}

-- `NilKey` and `NilVisitor`; `Niltimestamp` is `pos 0`.
abbrev pub nil_key : Bytes
nil_key = []

abbrev pub nil_visitor : Bytes
nil_visitor = []

-- The JSON text of what was read.
abbrev pub ReadResult : Type 0
ReadResult = Bytes

abbrev pub is_nil_result : ReadResult → Bool
is_nil_result result = bytes_eq result nil_key

pub record ReadBufferResult : Type 0 where
  pub result : ReadResult
  pub w_timestamp : ℤ
  pub writer : Bytes

abbrev pub set_result : Bytes → ReadResult → ℤ → ReadBufferResult
set_result writer result timestamp = record {
  result = result;
  w_timestamp = timestamp;
  writer = writer;
}

abbrev pub default_read_buffer_result : ReadBufferResult
default_read_buffer_result = set_result nil_visitor nil_key (pos 0)

-- `Get`: writer, result, timestamp.
abbrev pub get_result : ReadBufferResult → Bytes × ReadResult × ℤ
get_result ret = (ret.writer, ret.result, ret.w_timestamp)

pub record VisitorBasicType : Type 0 where
  pub path : NodePath
  pub name : Bytes

abbrev pub set_visitor : Bytes → Bytes → VisitorBasicType
set_visitor name path = record { path = input_from_string path; name = name }

-- The text of a visitor; it is the key under which a listener is kept.
unfoldable pub visitor_string : VisitorBasicType → Bytes
visitor_string read =
    utf8 "[访问者:" ++ (read.name ++ (utf8 "+访问路径:" ++ (output2string read.path ++ utf8 "]")))

pub record VisitorW : Type 0 where
  pub basic : VisitorBasicType
  pub open basic use *
  pub payload : Value

-- A reader with a buffer of results. `buffer` is the content of the channel, the oldest first.
pub record VisitorRwaitAndBuffer : Type 0 where
  pub read_num : ℤ
  pub write_num : ℤ
  pub basic : VisitorBasicType
  pub open basic use *
  pub buffer : List ReadBufferResult

abbrev pub buffer_capacity : ℕ
buffer_capacity = 500

unfoldable pub new_visitor_rwait_and_buffer : VisitorBasicType → VisitorRwaitAndBuffer
new_visitor_rwait_and_buffer visitor = record {
  read_num = pos 0;
  write_num = pos 0;
  basic = visitor;
  buffer = [];
}

pub data InsertError : Type 0 where
  buffer_full : ℕ → InsertError
  unknown_error : InsertError

-- What happens while `insertUpdate` waits for its select: how many results the reader takes from the
-- channel meanwhile, and whether the timer of 10 ms is chosen although there is room.
pub record Race : Type 0 where
  pub taken : ℕ
  pub late : Bool

-- The select of `insertUpdate`, over the content of the channel when it ends. With no room the send
-- cannot proceed, and the timer does.
unfoldable pub offer :
    Bool → ReadBufferResult → List ReadBufferResult → List ReadBufferResult × Option InsertError
offer late a queue =
    if ltb (length queue) buffer_capacity && (if late then false else true)
    then (queue ++ a ∷ [], none)
    else if length queue == buffer_capacity
    then (queue, some (buffer_full (length queue)))
    else (queue, some unknown_error)

unfoldable pub insert_update :
    Race
    → VisitorRwaitAndBuffer
    → ReadResult
    → Bytes
    → ℤ
    → VisitorRwaitAndBuffer × Option InsertError
unfolding offer add64
insert_update race visitor result visitor_name timestamp =
    let (queue, err) =
      offer race.late (set_result visitor_name result timestamp) (drop race.taken visitor.buffer) in
    (record visitor { write_num = add64 visitor.write_num (pos 1); buffer = queue }, err)

-- The select of `readOne`, over the content of the channel when it ends: the oldest result, or the
-- default one when the time runs out, which it may do although there is a result (`expired`).
unfoldable pub take_oldest : Bool → List ReadBufferResult → ReadBufferResult × List ReadBufferResult
take_oldest true queue = (default_read_buffer_result, queue)
take_oldest false [] = (default_read_buffer_result, [])
take_oldest false (a ∷ queue) = (a, queue)

unfoldable pub read_one : Bool → VisitorRwaitAndBuffer → VisitorRwaitAndBuffer × ReadBufferResult
unfolding take_oldest add64
read_one expired visitor =
    let (a, queue) = take_oldest expired visitor.buffer in
    (record visitor { read_num = add64 visitor.read_num (pos 1); buffer = queue }, a)

abbrev pub count : VisitorRwaitAndBuffer → ℤ × ℤ
count visitor = (visitor.read_num, visitor.write_num)

-- The messages of the two errors.
unfoldable pub insert_error_text : VisitorRwaitAndBuffer → InsertError → Bytes
insert_error_text visitor (buffer_full n) =
    utf8 "读访问者" ++ visitor_string visitor.basic ++ utf8 "缓冲区满" ++ decimal n
insert_error_text visitor unknown_error =
    utf8 "读访问者" ++ visitor_string visitor.basic ++ utf8 "写入缓冲区时未知错误"
