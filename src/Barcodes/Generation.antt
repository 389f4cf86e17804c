-- ===== src/Barcodes/Generation.antt =====
-- The retry loop of the generation ends, within its attempts, and at once where the number is free.
use apiv.Prelude.{
  ℕ, zero, suc, ◌+◌, ◌≤◌, ◌%◌, ◌/◌, String, Bool, true, false, not, Option, some, List, [], ◌∷◌,
  ◌≡◌, ◌≢◌, refl, ap, ◌∙◌, inl, inr, arith, any, Result, ok, err, All, Bool-cases, if◌then◌else◌,
}
use apiv.Barcodes.Ean13.{generate_ean13_for_tenant}
use apiv.Barcodes.Checksum.{IsEan13, value, generate_ean13_for_tenant_lem}
use apiv.Barcodes.Service.{
  ItemBarcode, Store, equal_codes, is_barcode, create_row, new_row, next_sequence, try_generate,
  has_primary_for_item, generate_for_item,
}

-- The barcodes after a generation: one more, with a valid code that the tenant did not have, or the
-- same.
abbrev pub Added : List ℕ → List ItemBarcode → Result ItemBarcode → List ItemBarcode → Type 0
Added tenant rows (ok b) rows' =
    (rows' ≡ b ∷ rows) × (any (is_barcode tenant b.barcode) rows ≡ false) × IsEan13 b.barcode
Added tenant rows (err e) rows' = rows' ≡ rows

-- How a generation ends.
pub record Ends (attempts : ℕ) (tenant : List ℕ) (s : Store) (r : Result ItemBarcode) (s' : Store)
    : Type 0 where
  pub used_from : s.next_seq ≤ s'.next_seq
  pub used_to : s'.next_seq ≤ s.next_seq + attempts
  pub added : Added tenant s.barcodes r s'.barcodes

try_generate_step :
    (attempts : ℕ) (tenant : List ℕ) (item : String) (variant : Option String) (primary : Bool)
    (s : Store) {code : List ℕ}
    → generate_ean13_for_tenant tenant s.next_seq ≡ some code
    → try_generate (suc attempts) tenant item variant primary s ≡ (
        if any (is_barcode tenant code) s.barcodes
        then try_generate attempts tenant item variant primary (next_sequence s)
        else (
          ok (new_row tenant item variant primary code),
          record s {
            barcodes = new_row tenant item variant primary code ∷ s.barcodes;
            next_seq = s.next_seq + 1;
          },
        ))
unfolding try_generate create_row
try_generate_step attempts tenant item variant primary s {code} h =
    elim (Bool-cases (any (is_barcode tenant code) s.barcodes)) [
      | inl e ↦ rw (try_generate, h, create_row, e) refl
      | inr e ↦ rw (try_generate, h, create_row, e) refl
    ]

try_generate-Ends :
    (attempts : ℕ) (tenant : List ℕ) (item : String) (variant : Option String) (primary : Bool)
    (s : Store)
    → Ends attempts tenant s
        (try_generate attempts tenant item variant primary s).0
        (try_generate attempts tenant item variant primary s).1
unfolding try_generate
try_generate-Ends zero tenant item variant primary s = record {
  used_from = omega arith;
  used_to = omega arith;
  added = refl;
}
try_generate-Ends (suc attempts) tenant item variant primary s =
    let (code, made, facts) = generate_ean13_for_tenant_lem tenant s.next_seq in
    let rest = try_generate-Ends attempts tenant item variant primary (next_sequence s) in
    rw (try_generate_step attempts tenant item variant primary s made)
      (elim (Bool-cases (any (is_barcode tenant code) s.barcodes)) [
        | inl e ↦ rw e (record {
          used_from = omega (arith, rest.used_from);
          used_to = omega (arith, rest.used_to);
          added = rest.added;
        })
        | inr e ↦ rw e (record {
          used_from = omega arith;
          used_to = omega arith;
          added = (refl, e, facts.valid);
        })
      ])

-- For every tenant and item and whatever barcodes there are, the generation ends with a result after at
-- most five numbers of the tenant's sequence. With success there is one barcode more, a valid EAN-13
-- that no other barcode of the tenant has; with failure the barcodes are the same.
pub generate_for_item-Ends :
    (tenant : List ℕ) (item : String) (variant : Option String) (s : Store)
    → Ends 5 tenant s
        (generate_for_item tenant item variant s).0
        (generate_for_item tenant item variant s).1
unfolding generate_for_item
generate_for_item-Ends tenant item variant s =
    try_generate-Ends 5 tenant item variant (not (has_primary_for_item tenant item variant s)) s

equal_codes-eq : (xs ys : List ℕ) → equal_codes xs ys ≡ true → xs ≡ ys
equal_codes-eq [] [] h = refl
equal_codes-eq (x ∷ xs) (y ∷ ys) h = ground (arith, equal_codes-eq xs ys)
equal_codes-eq [] (y ∷ ys) h = absurd (cc)
equal_codes-eq (x ∷ xs) [] h = absurd (cc)

-- No barcode has the sequence number in its place in the code.
abbrev pub IsFree : ℕ → ItemBarcode → Type 0
IsFree n b = value b.barcode / 10 % 100000000 ≢ n % 100000000

differs :
    (tenant : List ℕ) (n : ℕ) (code : List ℕ) (b : ItemBarcode)
    → IsFree n b
    → value code / 10 % 100000000 ≡ n % 100000000
    → is_barcode tenant code b ≡ false
differs tenant n code b free reads = elim (Bool-cases (equal_codes b.barcode code)) [
  | inl e ↦
      absurd (free (ap (λ c. value c / 10 % 100000000) (equal_codes-eq b.barcode code e) ∙ reads))
  | inr e ↦ ground (arith, e)
]

none_taken :
    (tenant : List ℕ) (n : ℕ) (code : List ℕ) (rows : List ItemBarcode)
    → All (IsFree n) rows
    → value code / 10 % 100000000 ≡ n % 100000000
    → any (is_barcode tenant code) rows ≡ false
none_taken tenant n code [] free reads = refl
none_taken tenant n code (b ∷ bs) free reads =
    rw (differs tenant n code b free.0 reads) (none_taken tenant n code bs free.1 reads)

-- Where no barcode has the next number of the sequence in its place, the first attempt succeeds: there
-- is a new barcode for the item, which is its primary one exactly if it had none, and one number is
-- used up.
generate_for_item_free :
    (tenant : List ℕ) (item : String) (variant : Option String) (s : Store)
    → All (IsFree s.next_seq) s.barcodes
    → (code : List ℕ) × (generate_ean13_for_tenant tenant s.next_seq ≡ some code)
      × (generate_for_item tenant item variant s ≡ (
        ok (new_row tenant item variant (not (has_primary_for_item tenant item variant s)) code),
        record s {
          barcodes =
              new_row tenant item variant (not (has_primary_for_item tenant item variant s)) code
              ∷ s.barcodes;
          next_seq = s.next_seq + 1;
        },
      ))
unfolding generate_for_item
generate_for_item_free tenant item variant s free =
    let (code, made, facts) = generate_ean13_for_tenant_lem tenant s.next_seq in
    (
      code,
      made,
      try_generate_step 4 tenant item variant (not (has_primary_for_item tenant item variant s)) s
            made
          ∙ rw (none_taken tenant s.next_seq code s.barcodes free facts.sequence_read) refl,
    )
