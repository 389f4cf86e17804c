-- ===== src/Prelude/Sums.antt =====
-- Laws of signed sums: each says how the two parts of an integer follow from the parts of others, so
-- that `omega` proves an equation of sums from them.
use Prim.Native.Nat.{ℕ, ◌+◌, ◌≤◌}
use mathlib.Core.Path.{◌≡◌, refl}
use mathlib.Core.Logic.{◌⊎◌, inl, inr}
use native.Mathlib.Omega.{arith}
use apiv.Prelude.Int.{ℤ, pos, negsuc, pos_part, neg_part, sub_ℕ, ◌+ℤ◌, ◌-ℤ◌}

-- Not negative.
abbrev pub IsNonneg : ℤ → Type 0
IsNonneg a = neg_part a ≤ 0

infix 50 ◌≤ℤ◌
abbrev pub ◌≤ℤ◌ : ℤ → ℤ → Type 0
a ≤ℤ b = pos_part a + neg_part b ≤ pos_part b + neg_part a

-- At most one part of an integer is not 0.
pub parts_exclusive : (a : ℤ) → (pos_part a ≡ 0) ⊎ (neg_part a ≡ 0)
parts_exclusive (pos n) = inr refl
parts_exclusive (negsuc n) = inl refl

parts-sub : (a b : ℕ) → pos_part (sub_ℕ a b) + b ≡ neg_part (sub_ℕ a b) + a
parts-sub a b = ground arith

-- An integer is fixed by the difference of its parts.
pub parts_injective : (a b : ℤ) → pos_part a + neg_part b ≡ pos_part b + neg_part a → a ≡ b
parts_injective (pos n) (pos m) h = ground arith
parts_injective (pos n) (negsuc m) h = absurd (omega arith)
parts_injective (negsuc n) (pos m) h = absurd (omega arith)
parts_injective (negsuc n) (negsuc m) h = ground arith

pub parts-add :
    (a b : ℤ)
    → pos_part (a +ℤ b) + (neg_part a + neg_part b) ≡ neg_part (a +ℤ b) + (pos_part a + pos_part b)
unfolding ◌+ℤ◌
parts-add a b = parts-sub (pos_part a + pos_part b) (neg_part a + neg_part b)

pub parts-minus :
    (a b : ℤ)
    → pos_part (a -ℤ b) + (neg_part a + pos_part b) ≡ neg_part (a -ℤ b) + (pos_part a + neg_part b)
unfolding ◌-ℤ◌
parts-minus a b = parts-sub (pos_part a + neg_part b) (neg_part a + pos_part b)
