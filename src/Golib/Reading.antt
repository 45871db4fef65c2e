-- ===== src/Golib/Reading.antt =====
-- encoding/json: what the scanner makes of the pieces of which messages are put together.
use realtime_data_center.Base.{
  ◌⊎◌, ℕ, zero, suc, ◌+◌, ◌/◌, ◌%◌, ◌<◌, ◌≤◌, ◌≡◌, ◌≢◌, refl, sym, ap, ◌∙◌, Bool, true, false, inl,
  inr, List, [], ◌∷◌, ◌++◌, append-nil, append_assoc, none, some, ltb, ◌==◌, length, take, drop,
  Bytes, utf8, All, arith, decimal, decimal_fuel,
}
use realtime_data_center.Golib.Strconv.{IsDigit}
use realtime_data_center.Golib.Unquote.{rune_size, unquote_fuel, unquote, valid_fuel, valid_utf8}
use realtime_data_center.Golib.Scan.{
  null_literal, whole, next_phase, Phase, begin_value, Syntax, Frame, Scanner, string_literal,
  number_literal, want_value, in_string, in_number, lead_zero, digits, minus, after_value,
  end_value, end_string, feed, scan,
}

ℕ-cases : (n : ℕ) → (n ≡ 0) ⊎ ((k : ℕ) × (n ≡ suc k))
ℕ-cases zero = inl refl
ℕ-cases (suc k) = inr (k, refl)

pub scan-append : (xs ys : Bytes) (s : Scanner) → scan (xs ++ ys) s ≡ scan ys (scan xs s)
unfolding scan
scan-append [] ys s = refl
scan-append (c ∷ xs) ys s = scan-append xs ys (feed s c)

-- A byte that stands for itself in a string.
abbrev pub IsOrdinary : ℕ → Type 0
IsOrdinary c = (0x20 ≤ c) × (c ≢ b'"') × (c ≢ b'\\')

-- A text that needs no escape.
abbrev pub IsPlain : Bytes → Type 0
IsPlain s = All IsOrdinary s × (valid_utf8 s ≡ true)

take-drop : (k : ℕ) (s : Bytes) → take k s ++ drop k s ≡ s
take-drop zero s = refl
take-drop (suc k) [] = refl
take-drop (suc k) (c ∷ s) = ap (λ r. c ∷ r) (take-drop k s)

All-drop : (k : ℕ) (s : Bytes) → All IsOrdinary s → All IsOrdinary (drop k s)
All-drop zero s h = h
All-drop (suc k) [] h = tt
All-drop (suc k) (c ∷ s) (_, h) = All-drop k s h

unquote_fuel_plain :
    (f : ℕ) (s : Bytes) → All IsOrdinary s → valid_fuel f s ≡ true → unquote_fuel f s ≡ s
unfolding unquote_fuel valid_fuel
unquote_fuel_plain zero [] h v = refl
unquote_fuel_plain zero (c ∷ s) h v = cc
unquote_fuel_plain (suc f) [] h v = refl
unquote_fuel_plain (suc f) (c ∷ s) ((_, _, ne), h) v = elim (ℕ-cases (rune_size (c ∷ s))) [
  | inl e ↦ cc (rw (e, valid_fuel) at v)
  | inr (k, e) ↦
      let ordinary : (c == b'\\') ≡ false = ground arith in
      let rest : valid_fuel f (drop k s) ≡ true = rw (e, valid_fuel) at v in
      rw
        (
          ordinary,
          unquote_fuel,
          e,
          unquote_fuel_plain f (drop k s) (All-drop k s h) rest,
          take-drop k s,
        )
        refl
]

pub unquote_plain : (s : Bytes) → IsPlain s → unquote s ≡ s
unfolding unquote
unquote_plain s (h, v) = unquote_fuel_plain (length s) s h v

pub scan_ordinary :
    (key : Bool) (raw s : Bytes) (frames : List Frame)
    → All IsOrdinary s
    → scan s (in_string key raw, frames) ≡ (in_string key (raw ++ s), frames)
unfolding scan feed
scan_ordinary key raw [] frames h = ap (λ r. (in_string key r, frames)) (sym (append-nil raw))
scan_ordinary key raw (c ∷ s) frames ((low, end, ne), h) =
    let no_end : (c == b'"') ≡ false = ground arith in
    let no_escape : (c == b'\\') ≡ false = ground arith in
    let no_control : ltb c 0x20 ≡ false = ground arith in
    rw (no_end, no_escape, no_control)
      (scan_ordinary key (raw ++ c ∷ []) s frames h
        ∙ ap (λ r. (in_string key r, frames)) (append_assoc raw (c ∷ []) s))

-- A text in quotes, behind the first of them.
pub scan_text :
    (s rest : Bytes) (frames : List Frame)
    → IsPlain s
    → scan (s ++ b'"' ∷ rest) (in_string false [], frames)
      ≡ scan rest (after_value (string_literal s), frames)
unfolding scan feed end_string
scan_text s rest frames (h, v) =
    scan-append s (b'"' ∷ rest) (in_string false [], frames)
    ∙ ap (scan (b'"' ∷ rest)) (scan_ordinary false [] s frames h)
    ∙ ap (λ t. scan rest (after_value (string_literal t), frames)) (unquote_plain s (h, v))

-- A text that begins with a digit other than zero.
Leads : Bytes → Type 0
Leads [] = ⊥
Leads (c ∷ s) = (b'1' ≤ c) × (c ≤ b'9') × All IsDigit s

decimal_fuel-Leads :
    (f n : ℕ) (out : Bytes) → n < f → 0 < n → All IsDigit out → Leads (decimal_fuel f n out)
unfolding decimal_fuel Leads
decimal_fuel-Leads zero n out h p d = elim h [ ]
decimal_fuel-Leads (suc f) n out h p d =
    ground (arith, decimal_fuel-Leads f (n / 10) ((b'0' + n % 10) ∷ out))

-- A digit within a number.
feed_digit :
    (phase phase' : Phase) (raw : Bytes) (frames : List Frame) (c : ℕ)
    → next_phase phase c ≡ some phase'
    → feed (in_number phase raw, frames) c ≡ (in_number phase' (raw ++ c ∷ []), frames)
unfolding feed
feed_digit phase phase' raw frames c e = rw (e, feed) refl

next_phase_digits : (c : ℕ) → IsDigit c → next_phase digits c ≡ some digits
unfolding next_phase
next_phase_digits c (low, high) = ground arith

next_phase_minus : (c : ℕ) → b'1' ≤ c → c ≤ b'9' → next_phase minus c ≡ some digits
unfolding next_phase
next_phase_minus c low high = ground arith

begin_value_digit :
    (frames : List Frame) (c : ℕ)
    → b'1' ≤ c
    → c ≤ b'9'
    → begin_value frames c ≡ (in_number digits (c ∷ []), frames)
unfolding begin_value
begin_value_digit frames c low high = ground arith

scan_digits :
    (raw s : Bytes) (frames : List Frame)
    → All IsDigit s
    → scan s (in_number digits raw, frames) ≡ (in_number digits (raw ++ s), frames)
unfolding scan
scan_digits raw [] frames h = ap (λ r. (in_number digits r, frames)) (sym (append-nil raw))
scan_digits raw (c ∷ s) frames (digit, h) =
    ap (scan s) (feed_digit digits digits raw frames c (next_phase_digits c digit))
    ∙ scan_digits (raw ++ c ∷ []) s frames h
    ∙ ap (λ r. (in_number digits r, frames)) (append_assoc raw (c ∷ []) s)

scan-Leads :
    (s : Bytes) (frames : List Frame)
    → Leads s
    → (scan s (want_value, frames) ≡ (in_number digits s, frames))
      × (scan s (in_number minus (b'-' ∷ []), frames) ≡ (in_number digits (b'-' ∷ s), frames))
unfolding scan feed Leads
scan-Leads [] frames h = elim h [ ]
scan-Leads (c ∷ s) frames (low, high, h) = (
  ap (scan s) (begin_value_digit frames c low high) ∙ scan_digits (c ∷ []) s frames h,
  ap (scan s) (feed_digit minus digits (b'-' ∷ []) frames c (next_phase_minus c low high))
      ∙ scan_digits (b'-' ∷ c ∷ []) s frames h,
)

-- A byte that ends a number.
abbrev pub IsEnd : ℕ → Type 0
IsEnd c = (c ≡ b',') ⊎ (c ≡ b'}') ⊎ (c ≡ b']') ⊎ (c ≡ 0x20)

-- What a text reads as where a value begins, whatever is open and whatever follows its end.
abbrev pub Reads : Bytes → Syntax → Type 0
Reads p v =
    (c : ℕ) (rest : Bytes) (frames : List Frame)
    → IsEnd c
    → scan (p ++ c ∷ rest) (want_value, frames) ≡ scan rest (end_value v frames c)

-- How far the scanner is behind a decimal number.
decimal_phase : ℕ → Phase
decimal_phase zero = lead_zero
decimal_phase (suc n) = digits

whole_ends :
    (phase : Phase) (raw : Bytes) (frames : List Frame) (c : ℕ)
    → whole phase ≡ true
    → next_phase phase c ≡ none
    → feed (in_number phase raw, frames) c ≡ end_value (number_literal raw) frames c
unfolding feed
whole_ends phase raw frames c w e = rw (e, feed, w) refl

ends_zero : (c : ℕ) → IsEnd c → next_phase lead_zero c ≡ none
unfolding next_phase
ends_zero c h = ground arith

ends_digits : (c : ℕ) → IsEnd c → next_phase digits c ≡ none
unfolding next_phase
ends_digits c h = ground arith

number_ends :
    (n : ℕ) (raw : Bytes) (frames : List Frame) (c : ℕ)
    → IsEnd c
    → feed (in_number (decimal_phase n) raw, frames) c ≡ end_value (number_literal raw) frames c
unfolding whole decimal_phase
number_ends zero raw frames c h = whole_ends lead_zero raw frames c refl (ends_zero c h)
number_ends (suc n) raw frames c h = whole_ends digits raw frames c refl (ends_digits c h)

scan-decimal :
    (n : ℕ) (frames : List Frame)
    → (scan (decimal n) (want_value, frames) ≡ (in_number (decimal_phase n) (decimal n), frames))
      × (scan (decimal n) (in_number minus (b'-' ∷ []), frames)
          ≡ (in_number (decimal_phase n) (b'-' ∷ decimal n), frames))
unfolding decimal_phase scan feed decimal
scan-decimal zero frames = (refl, refl)
scan-decimal (suc n) frames =
    scan-Leads (decimal (suc n)) frames
      (decimal_fuel-Leads (suc (suc n)) (suc n) [] (omega arith) (omega arith) tt)

pub decimal-Reads : (n : ℕ) → Reads (decimal n) (number_literal (decimal n))
unfolding scan
decimal-Reads n c rest frames h =
    scan-append (decimal n) (c ∷ rest) (want_value, frames)
    ∙ ap (scan (c ∷ rest)) (scan-decimal n frames).0
    ∙ ap (scan rest) (number_ends n (decimal n) frames c h)

pub negative-Reads : (n : ℕ) → Reads (b'-' ∷ decimal n) (number_literal (b'-' ∷ decimal n))
unfolding scan feed
negative-Reads n c rest frames h =
    scan-append (decimal n) (c ∷ rest) (in_number minus (b'-' ∷ []), frames)
    ∙ ap (scan (c ∷ rest)) (scan-decimal n frames).1
    ∙ ap (scan rest) (number_ends n (b'-' ∷ decimal n) frames c h)

pub null-Reads : Reads (utf8 "null") null_literal
unfolding scan feed
null-Reads c rest frames h = refl
