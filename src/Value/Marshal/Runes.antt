-- ===== src/Value/Marshal/Runes.antt =====
-- encoding/json: what `json.Marshal` writes for a rune, by the number of its bytes.
use realtime_data_center.Base.{
  ℕ, ◌-◌, ◌<◌, ◌≤◌, ◌≡◌, ◌≢◌, refl, sym, ap, ◌∙◌, inl, inr, true, false, ◌||◌, ◌&&◌, [], ◌∷◌, ◌++◌,
  append-nil, Bytes, arith, ltb, ◌==◌, Bool-cases, length,
}
use realtime_data_center.Value.Marshal.{escape_text, escape_byte, unicode_escape}
use realtime_data_center.Value.Marshal.Escape.{short, coded, stays, Escape-cases, separator}
use realtime_data_center.Golib.Unquote.{
  rune_size, rune_width, between, second_byte, later_bytes, valid_fuel,
}
use realtime_data_center.Value.Marshal.Unescape.{
  Decodes, rune-Decodes, escape_byte-Decodes, separator-Decodes,
}

-- A chunk of a text: what it is written as, what it is, and the rest, which is UTF-8 too.
pub record Chunk (g : ℕ) (s : Bytes) : Type 0 where
  pub written : Bytes
  pub rune : Bytes
  pub rest : Bytes
  pub shape : escape_text s ≡ written ++ escape_text rest
  pub split : s ≡ rune ++ rest
  pub reads : Decodes written rune
  pub long : 0 < length written
  pub valid : valid_fuel g rest ≡ true

escape_text-cons :
    (a : ℕ) (s : Bytes) → a ≢ 0xe2 → escape_text (a ∷ s) ≡ escape_byte a ++ escape_text s
unfolding escape_text
escape_text-cons a [] h = sym (append-nil (escape_byte a))
escape_text-cons a (b ∷ []) h = refl
escape_text-cons a (b ∷ c ∷ s) h = let other : (a == 0xe2) ≡ false = ground arith in rw other refl

escape_byte-high : (c : ℕ) → 0x80 ≤ c → escape_byte c ≡ c ∷ []
unfolding escape_byte
escape_byte-high c h = ground arith

-- A byte inside a rune.
escape_text-later :
    (b : ℕ) (s : Bytes) → between 0x80 0xbf b ≡ true → escape_text (b ∷ s) ≡ b ∷ escape_text s
escape_text-later b s h =
    escape_text-cons b s (ground arith)
    ∙ ap (λ p. p ++ escape_text s) (escape_byte-high b (ground arith))

escape_byte_long : (c : ℕ) → 0 < length (escape_byte c)
unfolding unicode_escape
escape_byte_long c = elim (Escape-cases c) [
  | short x is u s b ↦ rw b (omega arith)
  | coded h b ↦ rw b (omega arith)
  | stays l q k b ↦ rw b (omega arith)
]

pub ascii-Chunk : (g c : ℕ) (s : Bytes) → c < 0x80 → valid_fuel g s ≡ true → Chunk g (c ∷ s)
ascii-Chunk g c s h v = record {
  written = escape_byte c;
  rune = c ∷ [];
  rest = s;
  shape = escape_text-cons c s (ground arith);
  split = refl;
  reads = escape_byte-Decodes c h;
  long = escape_byte_long c;
  valid = v;
}

second_byte-later : (a b : ℕ) → second_byte a b ≡ true → between 0x80 0xbf b ≡ true
unfolding second_byte
second_byte-later a b h = ground arith

pub rune_size-high :
    (c b : ℕ) (s : Bytes)
    → ltb c 0x80 ≡ false
    → (second_byte c b && later_bytes (rune_width c - 2) s) ≡ true
    → rune_size (c ∷ b ∷ s) ≡ rune_width c
unfolding rune_size
rune_size-high c b s h k = rw (h, k) refl

-- A first byte of several begins no separator, or it is 0xe2.
pub two-Chunk :
    (g c b : ℕ) (s : Bytes)
    → ltb c 0x80 ≡ false
    → rune_width c ≡ 2
    → second_byte c b ≡ true
    → valid_fuel g s ≡ true
    → Chunk g (c ∷ b ∷ s)
unfolding rune_width later_bytes
two-Chunk g c b s h w k v = record {
  written = c ∷ b ∷ [];
  rune = c ∷ b ∷ [];
  rest = s;
  shape =
      escape_text-cons c (b ∷ s) (ground arith)
      ∙ ap (λ p. p ++ escape_text (b ∷ s)) (escape_byte-high c (ground arith))
      ∙ ap (λ p. c ∷ p) (escape_text-later b s (second_byte-later c b k));
  split = refl;
  reads = rune-Decodes c (b ∷ []) (ground arith) (λ t. rune_size-high c b t h (rw (w, k) refl) ∙ w);
  long = omega arith;
  valid = v;
}

escape_text-rune :
    (c b d : ℕ) (s : Bytes)
    → ltb c 0x80 ≡ false
    → between 0x80 0xbf b ≡ true
    → between 0x80 0xbf d ≡ true
    → (c == 0xe2 && b == 0x80 && (d == 0xa8 || d == 0xa9)) ≡ false
    → escape_text (c ∷ b ∷ d ∷ s) ≡ c ∷ b ∷ d ∷ escape_text s
unfolding escape_text
escape_text-rune c b d s h kb kd no_separator = rw no_separator (
    ap (λ p. p ++ escape_text (b ∷ d ∷ s)) (escape_byte-high c (ground arith))
    ∙ ap (λ p. c ∷ p) (escape_text-later b (d ∷ s) kb ∙ ap (λ p. b ∷ p) (escape_text-later d s kd)))

escape_text-separator :
    (c b d : ℕ) (s : Bytes)
    → (c == 0xe2 && b == 0x80 && (d == 0xa8 || d == 0xa9)) ≡ true
    → escape_text (c ∷ b ∷ d ∷ s) ≡ separator d ++ escape_text s
unfolding escape_text separator
escape_text-separator c b d s h = rw h refl

pub three-Chunk :
    (g c b d : ℕ) (s : Bytes)
    → ltb c 0x80 ≡ false
    → rune_width c ≡ 3
    → second_byte c b ≡ true
    → between 0x80 0xbf d ≡ true
    → valid_fuel g s ≡ true
    → Chunk g (c ∷ b ∷ d ∷ s)
unfolding later_bytes separator
three-Chunk g c b d s h w k kd v =
    elim (Bool-cases (c == 0xe2 && b == 0x80 && (d == 0xa8 || d == 0xa9))) [
      | inl e ↦
          let first : c ≡ 0xe2 = ground arith in
          let second : b ≡ 0x80 = ground arith in
          record {
            written = separator d;
            rune = c ∷ b ∷ d ∷ [];
            rest = s;
            shape = escape_text-separator c b d s e;
            split = refl;
            reads = rw (first, second) (separator-Decodes d (ground arith));
            long = omega arith;
            valid = v;
          }
      | inr e ↦ record {
        written = c ∷ b ∷ d ∷ [];
        rune = c ∷ b ∷ d ∷ [];
        rest = s;
        shape = escape_text-rune c b d s h (second_byte-later c b k) kd e;
        split = refl;
        reads =
            rune-Decodes c (b ∷ d ∷ []) (ground arith)
              (λ t. rune_size-high c b (d ∷ t) h (rw (w, k, kd) refl) ∙ w);
        long = omega arith;
        valid = v;
      }
    ]

pub four-Chunk :
    (g c b d e : ℕ) (s : Bytes)
    → ltb c 0x80 ≡ false
    → rune_width c ≡ 4
    → second_byte c b ≡ true
    → between 0x80 0xbf d ≡ true
    → between 0x80 0xbf e ≡ true
    → valid_fuel g s ≡ true
    → Chunk g (c ∷ b ∷ d ∷ e ∷ s)
unfolding later_bytes rune_width
four-Chunk g c b d e s h w k kd ke v = record {
  written = c ∷ b ∷ d ∷ e ∷ [];
  rune = c ∷ b ∷ d ∷ e ∷ [];
  rest = s;
  shape =
      escape_text-rune c b d (e ∷ s) h (second_byte-later c b k) kd (ground arith)
      ∙ ap (λ p. c ∷ b ∷ d ∷ p) (escape_text-later e s ke);
  split = refl;
  reads =
      rune-Decodes c (b ∷ d ∷ e ∷ []) (ground arith)
        (λ t. rune_size-high c b (d ∷ e ∷ t) h (rw (w, k, kd, ke) refl) ∙ w);
  long = omega arith;
  valid = v;
}
