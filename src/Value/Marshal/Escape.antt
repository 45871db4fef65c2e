-- ===== src/Value/Marshal/Escape.antt =====
-- `json.Marshal` on strings, and what the scanner makes of their escapes.
use realtime_data_center.Base.{
  ℕ, ◌/◌, ◌%◌, ◌<◌, ◌≤◌, ◌≡◌, ◌≢◌, refl, sym, ap, ◌∙◌, inl, inr, Bool, true, false, ◌||◌, ◌&&◌,
  List, [], ◌∷◌, ◌++◌, append-nil, append_assoc, Bytes, utf8, arith, ltb, ◌==◌, Bool-cases,
  if◌then◌else◌, ==_iff,
}
use realtime_data_center.Value.Marshal.{escape_text, escape_byte, unicode_escape, hex_digit}
use realtime_data_center.Golib.Unquote.{is_hex, simple_escape}
use realtime_data_center.Golib.Scan.{is_escape, Frame, in_string, scan, feed, end_string}
use realtime_data_center.Golib.Reading.{scan-append}

pub hex_digit-is_hex : (n : ℕ) → n < 16 → is_hex (hex_digit n) ≡ true
unfolding hex_digit
hex_digit-is_hex n h = ground arith

-- What `escape_byte` makes of a byte: a backslash and a letter, an escape by the code, or the byte.
pub data Escape (c : ℕ) : Type 0 where
  short :
      (x : ℕ)
      → is_escape x ≡ true
      → (x == b'u') ≡ false
      → simple_escape x ≡ c
      → escape_byte c ≡ b'\\' ∷ x ∷ []
      → Escape c
  coded : c < 64 → escape_byte c ≡ unicode_escape c → Escape c
  stays : 0x20 ≤ c → c ≢ b'"' → c ≢ b'\\' → escape_byte c ≡ c ∷ [] → Escape c

short-Escape :
    (c n x : ℕ)
    → (c == n) ≡ true
    → is_escape x ≡ true
    → (x == b'u') ≡ false
    → simple_escape x ≡ n
    → escape_byte n ≡ b'\\' ∷ x ∷ []
    → Escape c
short-Escape c n x e is u s b =
    let same : c ≡ n = (==_iff c n).0 e in short x is u (s ∙ sym same) (ap escape_byte same ∙ b)

pub Escape-cases : (c : ℕ) → Escape c
unfolding escape_byte
Escape-cases c = elim (Bool-cases (c == b'"')) [
  | inl e ↦ short-Escape c b'"' b'"' e refl refl refl refl
  | inr a ↦ elim (Bool-cases (c == b'\\')) [
    | inl e ↦ short-Escape c b'\\' b'\\' e refl refl refl refl
    | inr b ↦ elim (Bool-cases (c == 10)) [
      | inl e ↦ short-Escape c 10 b'n' e refl refl refl refl
      | inr d ↦ elim (Bool-cases (c == 13)) [
        | inl e ↦ short-Escape c 13 b'r' e refl refl refl refl
        | inr f ↦ elim (Bool-cases (c == 9)) [
          | inl e ↦ short-Escape c 9 b't' e refl refl refl refl
          | inr g ↦ elim (Bool-cases (ltb c 0x20 || c == b'<' || c == b'>' || c == b'&')) [
            | inl e ↦ coded (ground arith) (rw (a, b, d, f, g, e) refl)
            | inr e ↦
                stays (ground arith) (ground arith) (ground arith) (rw (a, b, d, f, g, e) refl)
          ]
        ]
      ]
    ]
  ]
]

scan_coded :
    (key : Bool) (raw : Bytes) (x y : ℕ) (frames : List Frame)
    → is_hex x ≡ true
    → is_hex y ≡ true
    → scan (utf8 "\\u00" ++ x ∷ y ∷ []) (in_string key raw, frames)
      ≡ (in_string key (raw ++ (utf8 "\\u00" ++ x ∷ y ∷ [])), frames)
unfolding scan feed
scan_coded key raw x y frames hx hy = rw (hx, feed, hy) (simp append_assoc)

scan-escape_byte :
    (c : ℕ) (key : Bool) (raw : Bytes) (frames : List Frame)
    → scan (escape_byte c) (in_string key raw, frames)
      ≡ (in_string key (raw ++ escape_byte c), frames)
unfolding scan feed unicode_escape
scan-escape_byte c key raw frames = elim (Escape-cases c) [
  | short x is u s b ↦ rw (b, is, feed) (simp append_assoc)
  | coded h b ↦ rw b (
      scan_coded key raw (hex_digit (c / 16)) (hex_digit (c % 16)) frames
        (hex_digit-is_hex (c / 16) (omega arith)) (hex_digit-is_hex (c % 16) (omega arith)))
  | stays l q k b ↦
      let no_end : (c == b'"') ≡ false = ground arith in
      let no_escape : (c == b'\\') ≡ false = ground arith in
      let visible : ltb c 0x20 ≡ false = ground arith in rw (b, no_end, no_escape, visible) refl
]

-- The scanner stays in the string over such a text.
abbrev pub Stays : Bytes → Type 0
Stays p =
    (key : Bool) (raw : Bytes) (frames : List Frame)
    → scan p (in_string key raw, frames) ≡ (in_string key (raw ++ p), frames)

Stays-append : (p q : Bytes) → Stays p → Stays q → Stays (p ++ q)
Stays-append p q hp hq key raw frames =
    scan-append p q (in_string key raw, frames)
    ∙ ap (scan q) (hp key raw frames)
    ∙ hq key (raw ++ p) frames
    ∙ ap (λ r. (in_string key r, frames)) (append_assoc raw p q)

-- A line separator, and anything else.
unfoldable pub separator : ℕ → Bytes
separator c = utf8 "\\u202" ++ (if c == 0xa8 then b'8' else b'9') ∷ []

separator-Stays : (c : ℕ) → Stays (separator c)
unfolding separator scan feed
separator-Stays c key raw frames = elim (Bool-cases (c == 0xa8)) [
  | inl e ↦ rw e (simp append_assoc)
  | inr e ↦ rw e (simp append_assoc)
]

pub escape_text-Stays : (s : Bytes) → Stays (escape_text s)
unfolding escape_text scan separator
escape_text-Stays [] = λ key raw frames. ap (λ r. (in_string key r, frames)) (sym (append-nil raw))
escape_text-Stays (a ∷ []) = scan-escape_byte a
escape_text-Stays (a ∷ b ∷ []) =
    Stays-append (escape_byte a) (escape_byte b) (scan-escape_byte a) (scan-escape_byte b)
escape_text-Stays (a ∷ b ∷ c ∷ s) =
    if-Stays (a == 0xe2 && b == 0x80 && (c == 0xa8 || c == 0xa9)) _ _
      (Stays-append (separator c) (escape_text s) (separator-Stays c) (escape_text-Stays s))
      (Stays-append (escape_byte a) (escape_text (b ∷ c ∷ s)) (scan-escape_byte a)
        (escape_text-Stays (b ∷ c ∷ s)))
  where
    if-Stays : (t : Bool) (p q : Bytes) → Stays p → Stays q → Stays (if t then p else q)
    if-Stays true p q hp hq = hp
    if-Stays false p q hp hq = hq

-- A string as Marshal writes it, behind its first quote.
pub scan_quoted :
    (key : Bool) (s rest : Bytes) (frames : List Frame)
    → scan (escape_text s ++ b'"' ∷ rest) (in_string key [], frames)
      ≡ scan rest (end_string key (escape_text s) frames)
unfolding scan feed
scan_quoted key s rest frames =
    scan-append (escape_text s) (b'"' ∷ rest) (in_string key [], frames)
    ∙ ap (scan (b'"' ∷ rest)) (escape_text-Stays s key [] frames)
