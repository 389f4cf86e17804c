-- ===== src/Sales/Money.antt =====
-- Amounts of money: whole cents, as integers. A percentage is in hundredths of a percent and a tax
-- rate in ten-thousandths, so that a share of an amount is a number of cents over 10000.
use apiv.Prelude.{ℕ, zero, suc, ◌+◌, ◌*◌, ◌/◌, ◌≤◌, arith, if◌then◌else◌}
use apiv.Prelude.Int.{ℤ, pos, negsuc, pos_part, ltb_ℤ}
use apiv.Prelude.Sums.{IsNonneg, ◌≤ℤ◌}

abbrev pub minus : ℕ → ℤ
minus zero = pos 0
minus (suc n) = negsuc n

unfoldable pub scale : ℤ → ℕ → ℤ
scale (pos n) k = pos (n * k)
scale (negsuc n) k = minus (suc n * k)

-- `x.toFixed(2)` for x ten-thousandths of a cent: the nearest cent, a tie away from zero.
unfoldable pub to_fixed : ℤ → ℤ
to_fixed (pos n) = pos ((n + 5000) / 10000)
to_fixed (negsuc n) = minus ((suc n + 5000) / 10000)

-- `Math.min`
unfoldable pub min_ℤ : ℤ → ℤ → ℤ
min_ℤ a b = if ltb_ℤ b a then b else a

pub min_ℤ-le_left : (a b : ℤ) → min_ℤ a b ≤ℤ a
unfolding min_ℤ
min_ℤ-le_left a b = ground arith

pub min_ℤ-le_right : (a b : ℤ) → min_ℤ a b ≤ℤ b
unfolding min_ℤ
min_ℤ-le_right a b = ground arith

pub min_ℤ-IsNonneg : (a b : ℤ) → IsNonneg a → IsNonneg b → IsNonneg (min_ℤ a b)
unfolding min_ℤ
min_ℤ-IsNonneg a b ha hb = ground arith

pub scale-IsNonneg : (a : ℤ) (k : ℕ) → IsNonneg a → IsNonneg (scale a k)
unfolding scale
scale-IsNonneg (pos n) k h = omega arith
scale-IsNonneg (negsuc n) k h = absurd (omega arith)

pub to_fixed-IsNonneg : (a : ℤ) → IsNonneg a → IsNonneg (to_fixed a)
unfolding to_fixed
to_fixed-IsNonneg (pos n) h = omega arith
to_fixed-IsNonneg (negsuc n) h = absurd (omega arith)

-- A share of at most the whole is at most the amount.
pub share-le : (a : ℤ) (k : ℕ) → IsNonneg a → k ≤ 10000 → to_fixed (scale a k) ≤ℤ a
unfolding to_fixed scale
share-le (pos n) k h hk = grind arith
share-le (negsuc n) k h hk = absurd (omega arith)

-- The rounded amount is within half a cent of the exact one.
pub to_fixed_nearest :
    (n : ℕ)
    → (pos_part (to_fixed (pos n)) * 10000 ≤ n + 5000)
      × (n + 1 ≤ pos_part (to_fixed (pos n)) * 10000 + 5000)
unfolding to_fixed
to_fixed_nearest n = omega arith
