-- ===== src/Golib/Unquote.antt =====
-- encoding/json: what a string of a JSON text stands for. Escapes are resolved, and bytes that are no
-- UTF-8 are replaced by U+FFFD. The scanner has looked at the escapes before.
use realtime_data_center.Base.{
  ℕ, zero, suc, ◌+◌, ◌-◌, ◌*◌, Bool, true, false, ◌&&◌, ◌||◌, [], ◌∷◌, ◌++◌, Option, none, some,
  ltb, leb, ◌==◌, if◌then◌else◌, length, take, drop, Bytes, utf8_char,
}

abbrev pub replacement : Bytes
replacement = 0xef ∷ 0xbf ∷ 0xbd ∷ []

abbrev pub between : ℕ → ℕ → ℕ → Bool
between low high c = leb low c && leb c high

-- What unicode/utf8 says about the first byte of a rune: how many bytes the rune has, and the range of
-- the second one.
unfoldable pub rune_width : ℕ → ℕ
rune_width a =
    if ltb a 0xc2
    then 0
    else if ltb a 0xe0
    then 2
    else if ltb a 0xf0
    then 3
    else if ltb a 0xf5
    then 4
    else 0

unfoldable pub second_byte : ℕ → ℕ → Bool
second_byte a b =
    between (if a == 0xe0 then 0xa0 else if a == 0xf0 then 0x90 else 0x80)
      (if a == 0xed then 0x9f else if a == 0xf4 then 0x8f else 0xbf) b

unfoldable pub later_bytes : ℕ → Bytes → Bool
later_bytes zero s = true
later_bytes (suc k) [] = false
later_bytes (suc k) (b ∷ s) = between 0x80 0xbf b && later_bytes k s

-- How many bytes the rune at the start of a text has; 0 if there is none.
unfoldable pub rune_size : Bytes → ℕ
unfolding rune_width second_byte later_bytes
rune_size [] = 0
rune_size (a ∷ []) = if ltb a 0x80 then 1 else 0
rune_size (a ∷ b ∷ s) =
    if ltb a 0x80
    then 1
    else if second_byte a b && later_bytes (rune_width a - 2) s
    then rune_width a
    else 0

-- A hexadecimal digit.
abbrev pub is_hex : ℕ → Bool
is_hex c = between b'0' b'9' c || between b'a' b'f' c || between b'A' b'F' c

unfoldable pub hex_value : ℕ → ℕ
hex_value c =
    if between b'0' b'9' c
    then c - b'0'
    else if between b'a' b'f' c
    then c - b'a' + 10
    else c - b'A' + 10

-- Four hexadecimal digits, and what follows them.
unfoldable pub hex4 : Bytes → Option (ℕ × Bytes)
unfolding hex_value
hex4 (a ∷ b ∷ c ∷ d ∷ s) =
    if is_hex a && is_hex b && is_hex c && is_hex d
    then some (((hex_value a * 16 + hex_value b) * 16 + hex_value c) * 16 + hex_value d, s)
    else none
hex4 _ = none

-- The second half of a surrogate pair, if it follows.
low_surrogate : Bytes → Option (ℕ × Bytes)
unfolding hex4
low_surrogate (a ∷ b ∷ s) =
    if a == b'\\' && b == b'u'
    then elim (hex4 s) [
      | none ↦ none
      | some (n, rest) ↦ if between 0xdc00 0xdfff n then some (n, rest) else none
    ]
    else none
low_surrogate _ = none

-- The rune of an escape with the code `n`, and the rest of the text.
unfoldable pub unescape_code : ℕ → Bytes → Bytes × Bytes
unfolding low_surrogate
unescape_code n rest =
    if between 0xd800 0xdbff n
    then elim (low_surrogate rest) [
      | none ↦ (replacement, rest)
      | some (m, after) ↦ (utf8_char ((n - 0xd800) * 0x400 + (m - 0xdc00) + 0x10000), after)
    ]
    else if between 0xdc00 0xdfff n
    then (replacement, rest)
    else (utf8_char n, rest)

abbrev pub simple_escape : ℕ → ℕ
simple_escape e =
    if e == b'b'
    then 8
    else if e == b'f'
    then 12
    else if e == b'n'
    then 10
    else if e == b'r'
    then 13
    else if e == b't'
    then 9
    else e

-- What follows a backslash.
unfoldable pub unescape : Bytes → Bytes × Bytes
unfolding unescape_code hex4
unescape [] = ([], [])
unescape (e ∷ s) = elim (e == b'u') [
  | true ↦ elim (hex4 s) [ none ↦ ([], s) | some (n, rest) ↦ unescape_code n rest ]
  | false ↦ (simple_escape e ∷ [], s)
]

-- One rune or escape at a time; the length of the text is fuel enough, as each has a byte.
unfoldable pub unquote_fuel : ℕ → Bytes → Bytes
unfolding rune_size
unquote_fuel zero s = []
unquote_fuel (suc f) [] = []
unquote_fuel (suc f) (c ∷ s) = elim (c == b'\\') [
  | true ↦ let (rune, rest) = unescape s in rune ++ unquote_fuel f rest
  | false ↦ elim (rune_size (c ∷ s)) [
    | zero ↦ replacement ++ unquote_fuel f s
    | suc k ↦ c ∷ (take k s ++ unquote_fuel f (drop k s))
  ]
]

unfoldable pub unquote : Bytes → Bytes
unfolding unquote_fuel
unquote s = unquote_fuel (length s) s

-- The text is UTF-8.
unfoldable pub valid_fuel : ℕ → Bytes → Bool
unfolding rune_size
valid_fuel zero [] = true
valid_fuel zero (c ∷ s) = false
valid_fuel (suc f) [] = true
valid_fuel (suc f) (c ∷ s) = elim (rune_size (c ∷ s)) [
  | zero ↦ false
  | suc k ↦ valid_fuel f (drop k s)
]

abbrev pub valid_utf8 : Bytes → Bool
valid_utf8 s = valid_fuel (length s) s
