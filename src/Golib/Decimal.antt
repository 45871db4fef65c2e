-- ===== src/Golib/Decimal.antt =====
-- The decimal print of a number, as `%d` and `strconv.FormatInt` write it, is read back by Atoi.
use realtime_data_center.Base.{
  ◌^◌, ℕ, zero, suc, ◌+◌, ◌-◌, ◌*◌, ◌/◌, ◌%◌, ◌<◌, ◌≡◌, ◌≢◌, ap, [], ◌∷◌, arith, Bytes, All,
  decimal, decimal_fuel, refl, ◌∙◌, none, ◌≤◌,
}
use realtime_data_center.Base.Int.{pos, negsuc}
use realtime_data_center.Golib.Strings.{Lacks}
use realtime_data_center.Golib.Strconv.{IsDigit, value_from, atoi, atoi_natural, atoi_negative}

value_from-decimal_fuel :
    (f n : ℕ) (out : Bytes) → n < f → value_from 0 (decimal_fuel f n out) ≡ value_from n out
unfolding decimal_fuel
value_from-decimal_fuel zero n out h = elim h [ ]
value_from-decimal_fuel (suc f) n out h = ground (
  arith,
  value_from-decimal_fuel f (n / 10) ((b'0' + n % 10) ∷ out),
  ap (λ (m : ℕ). value_from m out) (quotient n),
  ap (λ (m : ℕ). value_from m out) (digit n),
)
  where
    quotient : (n : ℕ) → n / 10 * 10 + (b'0' + n % 10 - b'0') ≡ n
    quotient n = omega arith

    digit : (n : ℕ) → 0 * 10 + (b'0' + n - b'0') ≡ n
    digit n = omega arith

decimal_fuel-IsDigit :
    (f n : ℕ) (out : Bytes) → All IsDigit out → All IsDigit (decimal_fuel f n out)
unfolding decimal_fuel
decimal_fuel-IsDigit zero n out h = h
decimal_fuel-IsDigit (suc f) n out h =
    ground (arith, decimal_fuel-IsDigit f (n / 10) ((b'0' + n % 10) ∷ out))

decimal_fuel-ne-nil : (f n : ℕ) (out : Bytes) → n < f → decimal_fuel f n out ≢ []
unfolding decimal_fuel
decimal_fuel-ne-nil zero n out h e = elim h [ ]
decimal_fuel-ne-nil (suc f) n out h e =
    ground (arith, decimal_fuel-ne-nil f (n / 10) ((b'0' + n % 10) ∷ out))

pub decimal-IsDigit : (n : ℕ) → All IsDigit (decimal n)
unfolding decimal
decimal-IsDigit n = decimal_fuel-IsDigit (suc n) n [] tt

pub decimal-ne-nil : (n : ℕ) → decimal n ≢ []
unfolding decimal
decimal-ne-nil n = decimal_fuel-ne-nil (suc n) n [] (omega arith)

pub value_from-decimal : (n : ℕ) → value_from 0 (decimal n) ≡ n
unfolding decimal
value_from-decimal n = value_from-decimal_fuel (suc n) n [] (omega arith)

pub IsDigit-Lacks : (s : Bytes) → All IsDigit s → Lacks b'/' s
IsDigit-Lacks [] _ = tt
IsDigit-Lacks (c ∷ s) (h, hs) = (omega arith, IsDigit-Lacks s hs)

-- A number that an int64 holds is read back from its decimal text, with a sign or not.
pub atoi-decimal : (n : ℕ) → n < 2 ^ 63 → atoi (decimal n) ≡ (pos n, none)
atoi-decimal n h = natural (decimal n) (decimal-ne-nil n) (decimal-IsDigit n) (value_from-decimal n)
  where
    natural : (s : Bytes) → s ≢ [] → All IsDigit s → value_from 0 s ≡ n → atoi s ≡ (pos n, none)
    natural [] ne d v = elim (ne refl) [ ]
    natural (c ∷ s) ne d v = atoi_natural c s d (omega (arith, v, h)) ∙ ap (λ m. (pos m, none)) v

pub atoi-negative_decimal :
    (n : ℕ) → 0 < n → n ≤ 2 ^ 63 → atoi (b'-' ∷ decimal n) ≡ (negsuc (n - 1), none)
atoi-negative_decimal n p h =
    negative (decimal n) (decimal-ne-nil n) (decimal-IsDigit n) (value_from-decimal n)
  where
    negative :
        (s : Bytes)
        → s ≢ []
        → All IsDigit s
        → value_from 0 s ≡ n
        → atoi (b'-' ∷ s) ≡ (negsuc (n - 1), none)
    negative [] ne d v = elim (ne refl) [ ]
    negative (c ∷ s) ne d v =
        atoi_negative c s d (omega (arith, v, p)) (omega (arith, v, h))
        ∙ ap (λ m. (negsuc (m - 1), none)) v
