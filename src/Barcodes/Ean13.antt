-- ===== src/Barcodes/Ean13.antt =====
-- src/modules/items/utils/ean13.util.ts. A code is the list of its digits, and a tenant's id the list
-- of its character codes.
use apiv.Prelude.{
  ℕ, zero, suc, ◌+◌, ◌-◌, ◌*◌, ◌%◌, ◌/◌, ◌^◌, Bool, true, not, ◌&&◌, Option, none, some, List, [],
  ◌∷◌, ◌++◌, length, nat_eq, ltb, if◌then◌else◌,
}

abbrev pub all_digits : List ℕ → Bool
all_digits [] = true
all_digits (d ∷ ds) = ltb d 10 && all_digits ds

-- The sum of the loop: a digit at an even place counts once, and one at an odd place three times.
unfoldable pub weighted_sum : Bool → List ℕ → ℕ
weighted_sum even [] = 0
weighted_sum even (d ∷ ds) = (if even then d else d * 3) + weighted_sum (not even) ds

abbrev pub complement : ℕ → ℕ
complement sum = (10 - sum % 10) % 10

-- `none` is the error on a payload that is not twelve digits.
unfoldable pub compute_ean13_check_digit : List ℕ → Option ℕ
unfolding weighted_sum
compute_ean13_check_digit digits =
    if nat_eq (length digits) 12 && all_digits digits
    then some (complement (weighted_sum true digits))
    else none

-- `(hash * 31 + code) >>> 0`: the low 32 bits. The product stays below 2 ^ 53, so that it is exact.
unfoldable pub hash_from : ℕ → List ℕ → ℕ
hash_from hash [] = hash
hash_from hash (c ∷ cs) = hash_from ((hash * 31 + c) % 2 ^ 32) cs

-- `String(n).padStart(w, '0')` for n below 10 ^ w: its w digits.
unfoldable pub pad_start : ℕ → ℕ → List ℕ
pad_start zero n = []
pad_start (suc w) n = pad_start w (n / 10) ++ n % 10 ∷ []

unfoldable pub payload_of : List ℕ → ℕ → List ℕ
unfolding hash_from pad_start
payload_of tenant sequence =
    pad_start 4 (hash_from 0 tenant % 10000) ++ pad_start 8 (sequence % 100000000)

abbrev pub with_check : List ℕ → Option ℕ → Option (List ℕ)
with_check payload none = none
with_check payload (some check) = some (payload ++ check ∷ [])

unfoldable pub generate_ean13_for_tenant : List ℕ → ℕ → Option (List ℕ)
unfolding payload_of compute_ean13_check_digit
generate_ean13_for_tenant tenant sequence =
    let payload = payload_of tenant sequence in
    with_check payload (compute_ean13_check_digit payload)
