-- ===== src/Value/Marshal.antt =====
-- `json.Marshal` on the data of the tree: no spaces, the keys of a map in order, strings escaped so
-- that they are safe in HTML. How strconv writes a float64 is a parameter. The strings of the tree
-- are valid UTF-8, since `json.Unmarshal` made them.
pub mod Canonical
pub mod Escape
pub mod Unescape
pub mod Runes
pub mod Chunks
pub mod Scanned
pub mod RoundTrip
use realtime_data_center.Base.{
  ℕ, ◌+◌, ◌-◌, ◌/◌, ◌%◌, ◌≢◌, Bool, true, false, ◌&&◌, ◌||◌, List, [], ◌∷◌, ◌++◌, ltb, ◌==◌,
  if◌then◌else◌, Bytes, utf8,
}
use realtime_data_center.Value.{
  Value, Items, Fields, null, boolean, float, text, array, object, nil, cons, end, field,
}

unfoldable pub hex_digit : ℕ → ℕ
hex_digit n = if ltb n 10 then b'0' + n else b'a' + n - 10

unfoldable pub unicode_escape : ℕ → Bytes
unfolding hex_digit
unicode_escape c = utf8 "\\u00" ++ hex_digit (c / 16) ∷ hex_digit (c % 16) ∷ []

unfoldable pub escape_byte : ℕ → Bytes
unfolding unicode_escape
escape_byte c =
    if c == b'"' || c == b'\\'
    then b'\\' ∷ c ∷ []
    else if c == 10
    then utf8 "\\n"
    else if c == 13
    then utf8 "\\r"
    else if c == 9
    then utf8 "\\t"
    else if ltb c 0x20 || c == b'<' || c == b'>' || c == b'&'
    then unicode_escape c
    else c ∷ []

-- The separators U+2028 and U+2029 are the bytes e2 80 a8 and e2 80 a9.
unfoldable pub escape_text : Bytes → Bytes
unfolding escape_byte
escape_text [] = []
escape_text (a ∷ []) = escape_byte a
escape_text (a ∷ b ∷ []) = escape_byte a ++ escape_byte b
escape_text (a ∷ b ∷ c ∷ s) =
    let plain = escape_byte a ++ escape_text (b ∷ c ∷ s) in
    let rest = escape_text s in
    if a == 0xe2 && b == 0x80 && (c == 0xa8 || c == 0xa9)
    then utf8 "\\u202" ++ (if c == 0xa8 then b'8' else b'9') ∷ rest
    else plain

unfoldable pub quote : Bytes → Bytes
unfolding escape_text
quote s = b'"' ∷ (escape_text s ++ b'"' ∷ [])

unfoldable pub before : Bytes → Bytes → Bool
before [] ys = true
before (x ∷ xs) [] = false
before (x ∷ xs) (y ∷ ys) = ltb x y || (x == y && before xs ys)

unfoldable pub insert_entry : Bytes × Bytes → List (Bytes × Bytes) → List (Bytes × Bytes)
unfolding before
insert_entry e [] = e ∷ []
insert_entry e (d ∷ es) = if before e.0 d.0 then e ∷ d ∷ es else d ∷ insert_entry e es

unfoldable pub sort_entries : List (Bytes × Bytes) → List (Bytes × Bytes)
unfolding insert_entry
sort_entries [] = []
sort_entries (e ∷ es) = insert_entry e (sort_entries es)

unfoldable pub comma_entries : List (Bytes × Bytes) → Bytes
unfolding quote
comma_entries [] = []
comma_entries ((k, v) ∷ []) = quote k ++ b':' ∷ v
comma_entries ((k, v) ∷ e ∷ es) = quote k ++ b':' ∷ v ++ b',' ∷ comma_entries (e ∷ es)

module _ (float_text : ℕ → Bytes) where
  unfoldable mutual
    unfolding quote sort_entries comma_entries

    pub marshal : Value → Bytes
    marshal null = utf8 "null"
    marshal (boolean true) = utf8 "true"
    marshal (boolean false) = utf8 "false"
    marshal (float n) = float_text n
    marshal (text s) = quote s
    marshal (array xs) = b'[' ∷ (marshal_items xs ++ b']' ∷ [])
    marshal (object fs) = b'{' ∷ (comma_entries (sort_entries (marshal_fields fs)) ++ b'}' ∷ [])

    marshal_items : Items → Bytes
    marshal_items nil = []
    marshal_items (cons v nil) = marshal v
    marshal_items (cons v (cons w xs)) = marshal v ++ b',' ∷ marshal_items (cons w xs)

    marshal_fields : Fields → List (Bytes × Bytes)
    marshal_fields end = []
    marshal_fields (field k v fs) = (k, marshal v) ∷ marshal_fields fs

  -- The text of a value is not empty, if that of a number is not.
  pub marshal-ne-nil : ((n : ℕ) → float_text n ≢ []) → (v : Value) → marshal v ≢ []
  unfolding marshal quote
  marshal-ne-nil h null e = cc
  marshal-ne-nil h (boolean true) e = cc
  marshal-ne-nil h (boolean false) e = cc
  marshal-ne-nil h (float n) e = h n e
  marshal-ne-nil h (text s) e = cc
  marshal-ne-nil h (array xs) e = cc
  marshal-ne-nil h (object fs) e = cc
