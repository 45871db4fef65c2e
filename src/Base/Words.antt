-- ===== src/Base/Words.antt =====
-- Unsigned words as bytes, the least significant first, as encoding/binary writes and reads them with
-- LittleEndian, and an int64 as the word that it is stored as.
use Prim.Native.Nat.{ℕ, zero, suc, ◌+◌, ◌-◌, ◌*◌, ◌/◌, ◌%◌, ◌^◌, ◌<◌}
use native.Mathlib.Nat.{pow-succ'}
use mathlib.Core.Path.{◌≡◌, refl, ap}
use mathlib.Core.List.{[], ◌∷◌}
use native.Mathlib.Omega.{arith}
use realtime_data_center.Base.Lists.{length, All}
use realtime_data_center.Base.Strings.{Bytes}
use realtime_data_center.Base.Int.{ℤ, pos, negsuc, wrap64}

abbrev pub IsByte : ℕ → Type 0
IsByte b = b < 256

unfoldable pub le_bytes : ℕ → ℕ → Bytes
le_bytes zero v = []
le_bytes (suc k) v = v % 256 ∷ le_bytes k (v / 256)

unfoldable pub le_value : Bytes → ℕ
le_value [] = 0
le_value (b ∷ bs) = b + 256 * le_value bs

pub length-le_bytes : (k v : ℕ) → length (le_bytes k v) ≡ k
unfolding le_bytes
length-le_bytes zero v = refl
length-le_bytes (suc k) v = ap suc (length-le_bytes k (v / 256))

quotient_fits : (k v : ℕ) → v < 256 ^ suc k → v / 256 < 256 ^ k
quotient_fits k v h = omega (arith, pow-succ' 256 k)

pub le_value-le_bytes : (k v : ℕ) → v < 256 ^ k → le_value (le_bytes k v) ≡ v
unfolding le_bytes le_value
le_value-le_bytes zero v h = omega arith
le_value-le_bytes (suc k) v h = omega (arith, le_value-le_bytes k (v / 256) (quotient_fits k v h))

pub le_bytes-le_value : (bs : Bytes) → All IsByte bs → le_bytes (length bs) (le_value bs) ≡ bs
unfolding le_bytes le_value
le_bytes-le_value [] h = refl
le_bytes-le_value (b ∷ bs) (h, hs) =
    let low : (b + 256 * le_value bs) % 256 ≡ b = omega arith in
    let high : (b + 256 * le_value bs) / 256 ≡ le_value bs = omega arith in
    rw (low, high) (ap (λ r. b ∷ r) (le_bytes-le_value bs hs))

pub le_value-lt : (bs : Bytes) → All IsByte bs → le_value bs < 256 ^ length bs
unfolding le_value
le_value-lt [] h = omega arith
le_value-lt (b ∷ bs) (h, hs) = omega (arith, le_value-lt bs hs, pow-succ' 256 (length bs))

-- The word of an int64.
unfoldable pub word64 : ℤ → ℕ
word64 (pos n) = n % 2 ^ 64
word64 (negsuc n) = 2 ^ 64 - 1 - n % 2 ^ 64

abbrev pub IsInt64 : ℤ → Type 0
IsInt64 (pos n) = n < 2 ^ 63
IsInt64 (negsuc n) = n < 2 ^ 63

pub word64-lt : (z : ℤ) → word64 z < 2 ^ 64
unfolding word64
word64-lt (pos n) = omega arith
word64-lt (negsuc n) = omega arith

pub wrap64-word64 : (z : ℤ) → IsInt64 z → wrap64 (word64 z) 0 ≡ z
unfolding word64 wrap64
wrap64-word64 (pos n) h = ground arith
wrap64-word64 (negsuc n) h = ground arith

pub word64-wrap64 : (w : ℕ) → w < 2 ^ 64 → word64 (wrap64 w 0) ≡ w
unfolding word64 wrap64
word64-wrap64 w h = ground arith

pub wrap64-IsInt64 : (w : ℕ) → w < 2 ^ 64 → IsInt64 (wrap64 w 0)
unfolding wrap64
wrap64-IsInt64 w h = ground arith
