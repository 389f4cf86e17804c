-- ===== src/Barcodes/Detection.antt =====
-- A wrong digit of a valid code is noticed by the check digit.
use apiv.Prelude.{
  ℕ, zero, suc, ◌+◌, ◌*◌, ◌%◌, ◌<◌, Bool, true, false, not, List, [], ◌∷◌, ◌≡◌, refl, ap, arith,
  All, if◌then◌else◌,
}
use apiv.Barcodes.Ean13.{weighted_sum}
use apiv.Barcodes.Checksum.{IsDigit, IsEan13}

-- The code with another digit at a place; past the end, the code itself.
abbrev pub set : List ℕ → ℕ → ℕ → List ℕ
set [] i d = []
set (x ∷ xs) zero d = d ∷ xs
set (x ∷ xs) (suc i) d = x ∷ set xs i d

same_digit :
    (even : Bool) (x d rest a : ℕ)
    → x < 10
    → d < 10
    → ((if even then x else x * 3) + rest + a) % 10 ≡ ((if even then d else d * 3) + rest + a) % 10
    → d ≡ x
same_digit true x d rest a hx hd h = omega arith
same_digit false x d rest a hx hd h = omega arith

-- `a` is the sum of what stands before.
same_sum :
    (even : Bool) (xs : List ℕ) (i d a : ℕ)
    → All IsDigit xs
    → d < 10
    → (weighted_sum even xs + a) % 10 ≡ (weighted_sum even (set xs i d) + a) % 10
    → set xs i d ≡ xs
unfolding weighted_sum
same_sum even [] i d a hs hd h = refl
same_sum even (x ∷ xs) zero d a hs hd h =
    ap (λ y. y ∷ xs) (same_digit even x d (weighted_sum (not even) xs) a hs.0 hd h)
same_sum even (x ∷ xs) (suc i) d a hs hd h =
    ap (λ ys. x ∷ ys)
      (same_sum (not even) xs i d ((if even then x else x * 3) + a) hs.1 hd (omega arith))

-- A valid code in which one digit is replaced by another digit is not valid: where it is valid, the
-- digit was not changed.
set-IsEan13 :
    (code : List ℕ) (i d : ℕ) → IsEan13 code → d < 10 → IsEan13 (set code i d) → set code i d ≡ code
set-IsEan13 code i d h hd h' = same_sum true code i d 0 h.digits hd (omega (arith, h.sum, h'.sum))
