-- ===== src/Golib/Strconv.antt =====
-- strconv.Atoi for the decimal texts of a 64-bit int: an optional sign, one or more digits. The
-- digits are read as a uint64 first, so a text can be out of range before its last byte is looked
-- at; the value then is the nearest int64, and 0 where the text is not a number.
use realtime_data_center.Base.{
  ap, ℕ, ◌+◌, ◌-◌, ◌*◌, ◌^◌, ◌≤◌, ◌<◌, min, ◌≡◌, refl, Bool, true, false, ◌||◌, [], ◌∷◌, Option,
  none, some, arith, ltb, leb, ◌==◌, if◌then◌else◌, Bytes, All,
}
use realtime_data_center.Base.Int.{ℤ, pos, negsuc}

pub data AtoiError : Type 0 where
  bad_syntax out_of_range : AtoiError

pub data Scan : Type 0 where
  number : ℕ → Scan
  failed : AtoiError → Scan

unfoldable pub scan : Bytes → ℕ → Scan
scan [] n = number n
scan (c ∷ s) n =
    let next = n * 10 + (c - b'0') in
    if ltb c b'0' || ltb b'9' c
    then failed bad_syntax
    else if leb (2 ^ 64) next
    then failed out_of_range
    else scan s next

unfoldable pub scan_all : Bytes → Scan
unfolding scan
scan_all [] = failed bad_syntax
scan_all (c ∷ s) = scan (c ∷ s) 0

abbrev pub max_int : ℕ
max_int = 2 ^ 63 - 1

unfoldable pub signed_value : Bool → Scan → ℤ × Option AtoiError
signed_value neg (failed bad_syntax) = (pos 0, some bad_syntax)
signed_value false (failed out_of_range) = (pos max_int, some out_of_range)
signed_value true (failed out_of_range) = (negsuc max_int, some out_of_range)
signed_value false (number n) =
    if ltb max_int n then (pos max_int, some out_of_range) else (pos n, none)
signed_value true (number n) =
    if ltb (2 ^ 63) n
    then (negsuc max_int, some out_of_range)
    else if n == 0
    then (pos 0, none)
    else (negsuc (n - 1), none)

unfoldable pub atoi : Bytes → ℤ × Option AtoiError
unfolding scan_all signed_value
atoi [] = (pos 0, some bad_syntax)
atoi (c ∷ s) =
    if c == b'-'
    then signed_value true (scan_all s)
    else if c == b'+'
    then signed_value false (scan_all s)
    else signed_value false (scan_all (c ∷ s))

abbrev pub IsDigit : ℕ → Type 0
IsDigit c = (b'0' ≤ c) × (c ≤ b'9')

-- The number that digits spell behind `n`, with no bound.
abbrev pub value_from : ℕ → Bytes → ℕ
value_from n [] = n
value_from n (c ∷ s) = value_from (n * 10 + (c - b'0')) s

pub le-value_from : (s : Bytes) (n : ℕ) → n ≤ value_from n s
le-value_from [] n = omega arith
le-value_from (c ∷ s) n = omega (arith, le-value_from s (n * 10 + (c - b'0')))

abbrev Scanned : ℕ → Scan → Type 0
Scanned v (number n) = (n ≡ v) × (v < 2 ^ 64)
Scanned v (failed bad_syntax) = ⊥
Scanned v (failed out_of_range) = 2 ^ 64 ≤ v

scan-Scanned :
    (s : Bytes) (n : ℕ) → n < 2 ^ 64 → All IsDigit s → Scanned (value_from n s) (scan s n)
unfolding scan
scan-Scanned [] n h _ = (refl, h)
scan-Scanned (c ∷ s) n h (hc, hs) =
    let m = n * 10 + (c - b'0') in ground (arith, scan-Scanned s m, le-value_from s m)

saturate : (v : ℕ) (r : Scan) → Scanned v r → (signed_value false r).0 ≡ pos (min v max_int)
unfolding signed_value
saturate v (number n) h = ground arith
saturate v (failed bad_syntax) h = elim h [ ]
saturate v (failed out_of_range) h = ground arith

-- A text of digits gives the number that it spells, or the largest int64 if that is smaller.
pub atoi_digits :
    (c : ℕ) (s : Bytes)
    → All IsDigit (c ∷ s)
    → (atoi (c ∷ s)).0 ≡ pos (min (value_from 0 (c ∷ s)) max_int)
unfolding atoi
atoi_digits c s h =
    ground (arith, saturate _ (scan (c ∷ s) 0) (scan-Scanned (c ∷ s) 0 (omega arith) h))

Scanned-number : (v : ℕ) (r : Scan) → Scanned v r → v < 2 ^ 64 → r ≡ number v
Scanned-number v (number n) (e, _) h = ap number e
Scanned-number v (failed bad_syntax) s h = elim s [ ]
Scanned-number v (failed out_of_range) s h = let no : ⊥ = omega (arith, s, h) in elim no [ ]

scan_lem :
    (s : Bytes) → All IsDigit s → value_from 0 s < 2 ^ 64 → scan s 0 ≡ number (value_from 0 s)
scan_lem s d h = Scanned-number (value_from 0 s) (scan s 0) (scan-Scanned s 0 (omega arith) d) h

-- Digits, with a sign or not, whose number an int64 holds.
pub atoi_natural :
    (c : ℕ) (s : Bytes)
    → All IsDigit (c ∷ s)
    → value_from 0 (c ∷ s) < 2 ^ 63
    → atoi (c ∷ s) ≡ (pos (value_from 0 (c ∷ s)), none)
unfolding atoi scan_all signed_value
atoi_natural c s (d, ds) h =
    let plus : (c == b'+') ≡ false = ground arith in
    let minus : (c == b'-') ≡ false = ground arith in
    let fits : ltb max_int (value_from 0 (c ∷ s)) ≡ false = ground arith in
    rw (plus, minus, scan_lem (c ∷ s) (d, ds) (omega (arith, h)), fits) refl

pub atoi_negative :
    (c : ℕ) (s : Bytes)
    → All IsDigit (c ∷ s)
    → 0 < value_from 0 (c ∷ s)
    → value_from 0 (c ∷ s) ≤ 2 ^ 63
    → atoi (b'-' ∷ c ∷ s) ≡ (negsuc (value_from 0 (c ∷ s) - 1), none)
unfolding atoi scan_all signed_value
atoi_negative c s d p h =
    let fits : ltb (2 ^ 63) (value_from 0 (c ∷ s)) ≡ false = ground arith in
    let nonzero : (value_from 0 (c ∷ s) == 0) ≡ false = ground arith in
    rw (scan_lem (c ∷ s) d (omega (arith, h)), fits, nonzero) refl
