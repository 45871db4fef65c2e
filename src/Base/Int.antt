-- ===== src/Base/Int.antt =====
-- Signed integers over the native numbers, and Go's int64: addition, multiplication and division
-- that wrap around at 64 bits.
use Prim.Native.Nat.{ℕ, suc, ◌+◌, ◌-◌, ◌*◌, ◌/◌, ◌%◌, ◌^◌, ◌≤◌, ◌<◌}
use mathlib.Core.Path.{◌≡◌}
use mathlib.Core.Bool.{Bool}
use native.Mathlib.Omega.{arith}
use realtime_data_center.Base.Tests.{ltb, leb, if◌then◌else◌}

-- `negsuc n` is -(n + 1).
pub data ℤ : Type 0 where
  pos : ℕ → ℤ
  negsuc : ℕ → ℤ

abbrev pub pos_part : ℤ → ℕ
pos_part (pos n) = n
pos_part (negsuc n) = 0

abbrev pub neg_part : ℤ → ℕ
neg_part (pos n) = 0
neg_part (negsuc n) = suc n

-- a - b, as an integer.
abbrev pub sub_ℕ : ℕ → ℕ → ℤ
sub_ℕ a b = if leb b a then pos (a - b) else negsuc (b - a - 1)

abbrev pub ltb_ℤ : ℤ → ℤ → Bool
ltb_ℤ a b = ltb (pos_part a + neg_part b) (pos_part b + neg_part a)

-- The int64 that an exact integer, given by its two parts, wraps around to.
unfoldable pub wrap64 : ℕ → ℕ → ℤ
wrap64 p n =
    let w = (p % 2 ^ 64 + 2 ^ 64 - n % 2 ^ 64) % 2 ^ 64 in
    if ltb w (2 ^ 63) then pos w else negsuc (2 ^ 64 - w - 1)

unfoldable pub add64 : ℤ → ℤ → ℤ
unfolding wrap64
add64 a b = wrap64 (pos_part a + pos_part b) (neg_part a + neg_part b)

unfoldable pub sub64 : ℤ → ℤ → ℤ
unfolding wrap64
sub64 a b = wrap64 (pos_part a + neg_part b) (neg_part a + pos_part b)

unfoldable pub mul64 : ℤ → ℤ → ℤ
unfolding wrap64
mul64 a b =
    wrap64 (pos_part a * pos_part b + neg_part a * neg_part b)
      (pos_part a * neg_part b + neg_part a * pos_part b)

-- Go's division rounds towards zero. One of the two parts is zero. The divisors here are positive.
unfoldable pub div64 : ℤ → ℤ → ℤ
unfolding wrap64
div64 a b =
    wrap64 (pos_part a / pos_part b + neg_part a / neg_part b)
      (pos_part a / neg_part b + neg_part a / pos_part b)

pub wrap64_small : (n : ℕ) → n < 2 ^ 63 → wrap64 n 0 ≡ pos n
unfolding wrap64
wrap64_small n h = ground arith

pub add64_small : (a b : ℕ) → a + b < 2 ^ 63 → add64 (pos a) (pos b) ≡ pos (a + b)
unfolding add64
add64_small a b h = ground arith

pub sub64_small : (a b : ℕ) → b ≤ a → a < 2 ^ 63 → sub64 (pos a) (pos b) ≡ pos (a - b)
unfolding sub64
sub64_small a b h k = ground arith

wrap64_eq : (p n q : ℕ) → p ≡ q → n ≡ 0 → q < 2 ^ 63 → wrap64 p n ≡ pos q
wrap64_eq p n q e z h = rw (e, z) (wrap64_small q h)

quotient_lt : (a b : ℕ) → a < 2 ^ 63 → a / b < 2 ^ 63
quotient_lt a b h = omega arith

pub mul64_small : (a b : ℕ) → a * b < 2 ^ 63 → mul64 (pos a) (pos b) ≡ pos (a * b)
unfolding mul64
mul64_small a b h = wrap64_eq (a * b + 0 * 0) (a * 0 + 0 * b) (a * b) (omega arith) (omega arith) h

pub div64_small : (a b : ℕ) → a < 2 ^ 63 → div64 (pos a) (pos b) ≡ pos (a / b)
unfolding div64
div64_small a b h =
    wrap64_eq (a / b + 0 / 0) (a / 0 + 0 / b) (a / b) (omega arith) (omega arith)
      (quotient_lt a b h)
