-- ===== src/Value/Marshal/Unescape.antt =====
-- encoding/json: how the pieces that `json.Marshal` writes for a string are read.
use realtime_data_center.Base.{
  some, ℕ, suc, ◌+◌, ◌*◌, ◌/◌, ◌%◌, ◌<◌, ◌≡◌, ◌≢◌, refl, ap, inl, inr, true, false, ◌||◌, [], ◌∷◌,
  ◌++◌, Bytes, arith, ◌==◌, Bool-cases, ==_iff, length, drop, take-append_length,
}
use realtime_data_center.Value.Marshal.{escape_byte, unicode_escape, hex_digit}
use realtime_data_center.Value.Marshal.Escape.{
  short, coded, stays, Escape-cases, hex_digit-is_hex, separator,
}
use realtime_data_center.Golib.Unquote.{
  hex_value, hex4, unescape, unescape_code, simple_escape, rune_size, unquote_fuel,
}

hex_value-hex_digit : (n : ℕ) → n < 16 → hex_value (hex_digit n) ≡ n
unfolding hex_value hex_digit
hex_value-hex_digit n h = ground arith

-- The text `p` is what `x` was written as, whatever follows.
abbrev pub Decodes : Bytes → Bytes → Type 0
Decodes p x = (f : ℕ) (t : Bytes) → unquote_fuel (suc f) (p ++ t) ≡ x ++ unquote_fuel f t

short-Decodes :
    (c x : ℕ) → (x == b'u') ≡ false → simple_escape x ≡ c → Decodes (b'\\' ∷ x ∷ []) (c ∷ [])
unfolding unquote_fuel unescape
short-Decodes c x u s f t = rw (u, unescape, s) refl

hex4-digits :
    (c : ℕ) (t : Bytes)
    → c < 64
    → hex4 (b'0' ∷ b'0' ∷ hex_digit (c / 16) ∷ hex_digit (c % 16) ∷ t) ≡ some (c, t)
unfolding hex4 hex_value
hex4-digits c t h =
    rw (hex_digit-is_hex (c / 16) (omega arith), hex_digit-is_hex (c % 16) (omega arith))
      (ap (λ (n : ℕ). some (n, t)) (digits c h))
  where
    digits :
        (c : ℕ)
        → c < 64
        → (0 + hex_value (hex_digit (c / 16))) * 16 + hex_value (hex_digit (c % 16)) ≡ c
    digits c h = omega (
      arith,
      hex_value-hex_digit (c / 16) (omega arith),
      hex_value-hex_digit (c % 16) (omega arith),
    )

unescape_code-ascii : (c : ℕ) (t : Bytes) → c < 0x80 → unescape_code c t ≡ (c ∷ [], t)
unfolding unescape_code
unescape_code-ascii c t h = ground arith

coded-Decodes : (c : ℕ) → c < 64 → Decodes (unicode_escape c) (c ∷ [])
unfolding unquote_fuel unescape unicode_escape
coded-Decodes c h f t = rw (hex4-digits c t h, unescape, unescape_code-ascii c t (omega arith)) refl

drop-append_length : (xs ys : Bytes) → drop (length xs) (xs ++ ys) ≡ ys
drop-append_length [] ys = refl
drop-append_length (x ∷ xs) ys = drop-append_length xs ys

-- A rune that is written as it is.
pub rune-Decodes :
    (c : ℕ) (p : Bytes)
    → c ≢ b'\\'
    → ((t : Bytes) → rune_size (c ∷ (p ++ t)) ≡ suc (length p))
    → Decodes (c ∷ p) (c ∷ p)
unfolding unquote_fuel
rune-Decodes c p ne size f t =
    let no_escape : (c == b'\\') ≡ false = ground arith in
    rw (no_escape, unquote_fuel, size t, take-append_length p t, drop-append_length p t) refl

pub rune_size-ascii : (c : ℕ) (t : Bytes) → c < 0x80 → rune_size (c ∷ t) ≡ 1
unfolding rune_size
rune_size-ascii c [] h = ground arith
rune_size-ascii c (d ∷ t) h = ground arith

ascii-Decodes : (c : ℕ) → c < 0x80 → c ≢ b'\\' → Decodes (c ∷ []) (c ∷ [])
ascii-Decodes c h k = rune-Decodes c [] k (λ t. rune_size-ascii c t h)

pub escape_byte-Decodes : (c : ℕ) → c < 0x80 → Decodes (escape_byte c) (c ∷ [])
escape_byte-Decodes c h f t = elim (Escape-cases c) [
  | short x is u s b ↦ rw b (short-Decodes c x u s f t)
  | coded l b ↦ rw b (coded-Decodes c l f t)
  | stays l q k b ↦ rw b (ascii-Decodes c h k f t)
]

pub separator-Decodes :
    (c : ℕ) → (c == 0xa8 || c == 0xa9) ≡ true → Decodes (separator c) (0xe2 ∷ 0x80 ∷ c ∷ [])
unfolding unquote_fuel unescape unescape_code separator hex4 hex_value
separator-Decodes c h f t = elim (Bool-cases (c == 0xa8)) [
  | inl e ↦ let same : c ≡ 0xa8 = (==_iff c 0xa8).0 e in rw same refl
  | inr e ↦ let same : c ≡ 0xa9 = ground arith in rw same refl
]
