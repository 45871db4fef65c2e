-- ===== src/Performance/Mean.antt =====
-- component/preformance.go: the mean and the extremes of the times of an operation.
use mathlib.Core.Path.{ap₂}
use native.Mathlib.Nat.{le-div_iff_mul-le, div-le_of_le-mul, mul-div_cancel}
use realtime_data_center.Base.{
  ℕ, zero, suc, ◌+◌, ◌-◌, ◌*◌, ◌/◌, ◌^◌, ◌≤◌, ◌<◌, ◌≡◌, ap, ◌∙◌, true, ◌||◌, arith, if◌then◌else◌,
  ltb, ◌==◌,
}
use realtime_data_center.Base.Int.{
  pos, add64, sub64, mul64, div64, ltb_ℤ, add64_small, sub64_small, mul64_small, div64_small,
}
use realtime_data_center.Performance.{SingleNodePerformance, add, is_zero}

-- Statistics of `o` operations with the mean `a` and the extremes `lo` and `hi`, none of them negative.
abbrev pub Stands : SingleNodePerformance → ℕ → ℕ → ℕ → ℕ → Type 0
Stands n o a lo hi =
    (n.operation_num ≡ pos o)
    × (n.average_opt ≡ pos a)
    × (n.min_opt ≡ pos lo)
    × (n.max_opt ≡ pos hi)

new_mean :
    (o a k c : ℕ)
    → o + suc k < 2 ^ 63
    → a * (o + k) + c < 2 ^ 63
    → div64
        (add64 (mul64 (pos a) (sub64 (add64 (pos o) (pos (suc k))) (pos 1))) (pos c))
        (add64 (pos o) (pos (suc k)))
      ≡ pos ((a * (o + k) + c) / (o + suc k))
new_mean o a k c h m =
    rw
      (
        add64_small o (suc k) h,
        sub64_small (o + suc k) 1 (omega arith) h,
        (let e : o + suc k - 1 ≡ o + k = omega arith in e),
        mul64_small a (o + k) (omega arith),
        add64_small (a * (o + k)) c m,
      )
      (div64_small (a * (o + k) + c) (o + suc k) m)

positive : (k : ℕ) → ltb_ℤ (pos 0) (pos (suc k)) ≡ true
positive k = ground arith

each_lem : (k c : ℕ) → c < 2 ^ 63 → div64 (pos c) (pos (suc k)) ≡ pos (c / suc k)
each_lem k c h = div64_small c (suc k) h

-- The four fields after `k + 1` operations more that took `c` altogether.
module _ (n : SingleNodePerformance) (k c hour : ℕ) where
  after : SingleNodePerformance
  after = add n (pos (suc k)) (pos c) hour

  after-count : after.operation_num ≡ add64 n.operation_num (pos (suc k))
  unfolding after add
  after-count = rw (positive k, add)

  after-mean :
      after.average_opt
      ≡ div64
          (add64
            (mul64 n.average_opt (sub64 (add64 n.operation_num (pos (suc k))) (pos 1)))
            (pos c))
          (add64 n.operation_num (pos (suc k)))
  unfolding after add
  after-mean = rw (positive k, add)

  after-min : after.min_opt ≡ (
      if ltb_ℤ (div64 (pos c) (pos (suc k))) n.min_opt || is_zero n.min_opt
      then div64 (pos c) (pos (suc k))
      else n.min_opt)
  unfolding after add
  after-min = rw (positive k, add)

  after-max : after.max_opt ≡ (
      if ltb_ℤ n.max_opt (div64 (pos c) (pos (suc k)))
      then div64 (pos c) (pos (suc k))
      else n.max_opt)
  unfolding after add
  after-max = rw (positive k, add)

least :
    (e lo : ℕ)
    → (if ltb_ℤ (pos e) (pos lo) || is_zero (pos lo) then pos e else pos lo)
      ≡ pos (if ltb e lo || lo == 0 then e else lo)
least e zero = ground arith
least e (suc lo) = ground arith

greatest :
    (e hi : ℕ)
    → (if ltb_ℤ (pos hi) (pos e) then pos e else pos hi) ≡ pos (if ltb hi e then e else hi)
greatest e hi = ground arith

-- `k + 1` operations that took `c` altogether, where nothing overflows: the count goes up by `k + 1`,
-- the extremes take in the mean time of one of them, a least time of 0 counting as none; and the new
-- mean weighs the old one as if there were one operation more.
pub add_lem :
    (n : SingleNodePerformance) (o a lo hi k c hour : ℕ)
    → Stands n o a lo hi
    → o + suc k < 2 ^ 63
    → a * (o + k) + c < 2 ^ 63
    → let each = c / suc k in
      Stands
        (add n (pos (suc k)) (pos c) hour)
        (o + suc k)
        ((a * (o + k) + c) / (o + suc k))
        (if ltb each lo || lo == 0 then each else lo)
        (if ltb hi each then each else hi)
unfolding after
add_lem n o a lo hi k c hour s h m =
    let each = each_lem k c (omega arith) in
    (
      after-count n k c hour ∙ ap (λ x. add64 x (pos (suc k))) s.0 ∙ add64_small o (suc k) h,
      after-mean n k c hour
          ∙ ap₂
              (λ x y.
                div64 (add64 (mul64 y (sub64 (add64 x (pos (suc k))) (pos 1))) (pos c))
                  (add64 x (pos (suc k))))
              s.0 s.1
          ∙ new_mean o a k c h m,
      after-min n k c hour
          ∙ ap₂ (λ x y. if ltb_ℤ x y || is_zero y then x else y) each s.2
          ∙ least (c / suc k) lo,
      after-max n k c hour
          ∙ ap₂ (λ x y. if ltb_ℤ y x then x else y) each s.3
          ∙ greatest (c / suc k) hi,
    )

weighted_le : (o a c m : ℕ) → a ≤ m → c ≤ m → a * (o + 0) + c ≤ (o + 1) * m
weighted_le o a c m h k = grind arith

mean_le :
    (o a c hi : ℕ) → a ≤ hi → (a * (o + 0) + c) / (o + 1) ≤ (if ltb hi (c / 1) then c / 1 else hi)
mean_le o a c hi h =
    div-le_of_le-mul (o + 1)
      (weighted_le o a c (if ltb hi (c / 1) then c / 1 else hi) (ground arith) (ground arith))

same_max : (a x : ℕ) → x ≡ a → (if ltb a x then x else a) ≡ a
same_max a x e = ground arith

-- One operation more, added to statistics with no negative time and a mean at or below the greatest time,
-- leaves the mean at or below the greatest time, where nothing overflows.
pub add_one_mean_le :
    (n : SingleNodePerformance) (o a lo hi c hour : ℕ)
    → Stands n o a lo hi
    → o + 1 < 2 ^ 63
    → a * o + c < 2 ^ 63
    → a ≤ hi
    → let n' = add n (pos 1) (pos c) hour in
      (a' : ℕ) × (hi' : ℕ) × (n'.average_opt ≡ pos a') × (n'.max_opt ≡ pos hi') × (a' ≤ hi')
add_one_mean_le n o a lo hi c hour s h m le =
    let (_, mean, _, most) = add_lem n o a lo hi 0 c hour s h (omega arith) in
    (
      (a * (o + 0) + c) / (o + 1),
      (if ltb hi (c / 1) then c / 1 else hi),
      mean,
      most,
      mean_le o a c hi le,
    )

-- Several operations at once that take as long as the ones before push the mean above that time: with
-- a mean and a greatest time of `a`, and `k + 1` operations of `a` each, the mean exceeds the greatest
-- time as soon as `a * k` reaches the number of operations.
pub add_many_mean :
    (n : SingleNodePerformance) (o a k hour : ℕ)
    → Stands n o a a a
    → o + suc k < 2 ^ 63
    → a * (o + k) + a * suc k < 2 ^ 63
    → o + suc k ≤ a * k
    → let n' = add n (pos (suc k)) (pos (a * suc k)) hour in
      (a' : ℕ) × (n'.average_opt ≡ pos a') × (n'.max_opt ≡ pos a) × (a < a')
add_many_mean n o a k hour s h m far =
    let (_, mean, _, most) = add_lem n o a a a k (a * suc k) hour s h m in
    (
      _,
      mean,
      most ∙ ap pos (same_max a (a * suc k / suc k) (mul-div_cancel a (omega arith))),
      (le-div_iff_mul-le (omega arith)).1 (omega arith),
    )
