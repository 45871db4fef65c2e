-- ===== src/Golib/Scan.antt =====
-- encoding/json: the scanner, which takes a JSON text byte by byte, and what it has read so far. The
-- open arrays and objects are a stack.
use realtime_data_center.Base.{
  ℕ, zero, suc, Bool, true, false, ◌&&◌, ◌||◌, List, [], ◌∷◌, ◌++◌, Option, none, some, ltb, leb,
  ◌==◌, if◌then◌else◌, drop, Bytes, utf8,
}
use realtime_data_center.Golib.Unquote.{unquote, is_hex}

-- A JSON text; the elements and the members stand in the order of the text, the last one outermost.
-- A number is its literal.
mutual
  pub data Syntax : Type 0 where
    null_literal : Syntax
    bool_literal : Bool → Syntax
    number_literal : Bytes → Syntax
    string_literal : Bytes → Syntax
    array_literal : Elements → Syntax
    object_literal : Members → Syntax

  pub data Elements : Type 0 where
    no_elements : Elements
    element : Elements → Syntax → Elements

  pub data Members : Type 0 where
    no_members : Members
    member : Members → Bytes → Syntax → Members

-- What is open: an array, an object before a key, and an object before the value of a key.
pub data Frame : Type 0 where
  elements_frame : Elements → Frame
  members_frame : Members → Frame
  value_frame : Members → Bytes → Frame

-- How far a number is: behind its sign, a leading zero, other digits, the point, the fraction, the e,
-- its sign, the exponent.
pub data Phase : Type 0 where
  minus lead_zero digits point fraction mark mark_sign exponent : Phase

-- What the scanner expects, with what it has of a string, a number or a word. Strings are kept as they
-- stand in the text; the flag is for a key.
pub data Mode : Type 0 where
  want_value want_first want_first_key want_key failed : Mode
  want_colon : Bytes → Mode
  in_string in_escape : Bool → Bytes → Mode
  in_unicode : Bool → ℕ → Bytes → Mode
  in_number : Phase → Bytes → Mode
  in_word : Bytes → Syntax → Mode
  after_value : Syntax → Mode

abbrev pub Scanner : Type 0
Scanner = Mode × List Frame

abbrev pub is_space : ℕ → Bool
is_space c = c == 0x20 || c == 10 || c == 13 || c == 9

abbrev pub is_digit : ℕ → Bool
is_digit c = leb b'0' c && leb c b'9'

-- A byte behind a value.
unfoldable pub end_value : Syntax → List Frame → ℕ → Scanner
end_value v [] c = (if is_space c then after_value v else failed, [])
end_value v (elements_frame xs ∷ rest) c =
    if is_space c
    then (after_value v, elements_frame xs ∷ rest)
    else if c == b','
    then (want_value, elements_frame (element xs v) ∷ rest)
    else if c == b']'
    then (after_value (array_literal (element xs v)), rest)
    else (failed, rest)
end_value v (value_frame ms key ∷ rest) c =
    if is_space c
    then (after_value v, value_frame ms key ∷ rest)
    else if c == b','
    then (want_key, members_frame (member ms key v) ∷ rest)
    else if c == b'}'
    then (after_value (object_literal (member ms key v)), rest)
    else (failed, rest)
end_value v (members_frame ms ∷ rest) c = (failed, rest)

-- A byte where a value begins.
unfoldable pub begin_value : List Frame → ℕ → Scanner
begin_value frames c =
    if is_space c
    then (want_value, frames)
    else if c == b'{'
    then (want_first_key, members_frame no_members ∷ frames)
    else if c == b'['
    then (want_first, elements_frame no_elements ∷ frames)
    else if c == b'"'
    then (in_string false [], frames)
    else if c == b'-'
    then (in_number minus (c ∷ []), frames)
    else if c == b'0'
    then (in_number lead_zero (c ∷ []), frames)
    else if is_digit c
    then (in_number digits (c ∷ []), frames)
    else if c == b't'
    then (in_word (utf8 "rue") (bool_literal true), frames)
    else if c == b'f'
    then (in_word (utf8 "alse") (bool_literal false), frames)
    else if c == b'n'
    then (in_word (utf8 "ull") null_literal, frames)
    else (failed, frames)

-- How a byte goes on with a number.
unfoldable pub next_phase : Phase → ℕ → Option Phase
next_phase minus c = if c == b'0' then some lead_zero else if is_digit c then some digits else none
next_phase lead_zero c =
    if c == b'.' then some point else if c == b'e' || c == b'E' then some mark else none
next_phase digits c =
    if is_digit c
    then some digits
    else if c == b'.'
    then some point
    else if c == b'e' || c == b'E'
    then some mark
    else none
next_phase point c = if is_digit c then some fraction else none
next_phase fraction c =
    if is_digit c then some fraction else if c == b'e' || c == b'E' then some mark else none
next_phase mark c =
    if c == b'+' || c == b'-' then some mark_sign else if is_digit c then some exponent else none
next_phase mark_sign c = if is_digit c then some exponent else none
next_phase exponent c = if is_digit c then some exponent else none

-- A number may end here.
unfoldable pub whole : Phase → Bool
whole lead_zero = true
whole digits = true
whole fraction = true
whole exponent = true
whole _ = false

-- The end of a string, which is a key or a value.
unfoldable pub end_string : Bool → Bytes → List Frame → Scanner
end_string true raw frames = (want_colon (unquote raw), frames)
end_string false raw frames = (after_value (string_literal (unquote raw)), frames)

abbrev pub is_escape : ℕ → Bool
is_escape c =
    c == b'b'
    || c == b'f'
    || c == b'n'
    || c == b'r'
    || c == b't'
    || c == b'\\'
    || c == b'/'
    || c == b'"'

begin_member : Bytes → List Frame → Scanner
begin_member key (members_frame ms ∷ rest) = (want_value, value_frame ms key ∷ rest)
begin_member key frames = (failed, frames)

unfoldable pub feed : Scanner → ℕ → Scanner
unfolding end_value begin_value next_phase whole end_string begin_member
feed (want_value, frames) c = begin_value frames c
feed (want_first, frames) c =
    if is_space c
    then (want_first, frames)
    else if c == b']'
    then (after_value (array_literal no_elements), drop 1 frames)
    else begin_value frames c
feed (want_first_key, frames) c =
    if is_space c
    then (want_first_key, frames)
    else if c == b'}'
    then (after_value (object_literal no_members), drop 1 frames)
    else if c == b'"'
    then (in_string true [], frames)
    else (failed, frames)
feed (want_key, frames) c =
    if is_space c
    then (want_key, frames)
    else if c == b'"'
    then (in_string true [], frames)
    else (failed, frames)
feed (want_colon key, frames) c =
    if is_space c
    then (want_colon key, frames)
    else if c == b':'
    then begin_member key frames
    else (failed, frames)
feed (in_string key raw, frames) c =
    if c == b'"'
    then end_string key raw frames
    else if c == b'\\'
    then (in_escape key (raw ++ c ∷ []), frames)
    else if ltb c 0x20
    then (failed, frames)
    else (in_string key (raw ++ c ∷ []), frames)
feed (in_escape key raw, frames) c =
    if is_escape c
    then (in_string key (raw ++ c ∷ []), frames)
    else if c == b'u'
    then (in_unicode key 3 (raw ++ c ∷ []), frames)
    else (failed, frames)
feed (in_unicode key zero raw, frames) c =
    if is_hex c then (in_string key (raw ++ c ∷ []), frames) else (failed, frames)
feed (in_unicode key (suc k) raw, frames) c =
    if is_hex c then (in_unicode key k (raw ++ c ∷ []), frames) else (failed, frames)
feed (in_number phase raw, frames) c = elim (next_phase phase c) [
  | some phase' ↦ (in_number phase' (raw ++ c ∷ []), frames)
  | none ↦ if whole phase then end_value (number_literal raw) frames c else (failed, frames)
]
feed (in_word [] v, frames) c = (failed, frames)
feed (in_word (x ∷ []) v, frames) c = if c == x then (after_value v, frames) else (failed, frames)
feed (in_word (x ∷ y ∷ w) v, frames) c =
    if c == x then (in_word (y ∷ w) v, frames) else (failed, frames)
feed (after_value v, frames) c = end_value v frames c
feed (failed, frames) c = (failed, frames)

unfoldable pub scan : Bytes → Scanner → Scanner
unfolding feed
scan [] s = s
scan (c ∷ input) s = scan input (feed s c)

unfoldable pub scanned : Scanner → Option Syntax
scanned (after_value v, []) = some v
scanned _ = none

-- The text of a value, with nothing but space behind it; `none` for a syntax error. The end of the text
-- is taken as a space.
unfoldable pub parse : Bytes → Option Syntax
unfolding scan scanned
parse input = scanned (scan (input ++ 0x20 ∷ []) (want_value, []))
