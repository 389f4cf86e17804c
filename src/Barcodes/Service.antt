-- ===== src/Barcodes/Service.antt =====
-- src/modules/items/item-barcodes.service.ts and its repository: the generation of a barcode for an
-- item, with the unique index on a tenant's barcodes (src/database/migrations/098) and the sequence of
-- a tenant (101). A tenant's id is the list of its character codes; the ids of rows are left out.
use apiv.Prelude.{
  ℕ, zero, suc, ◌+◌, String, Bool, true, false, not, ◌&&◌, Option, none, some, List, [], ◌∷◌, ◌==◌,
  nat_eq, any, Result, Error, ok, err, if◌then◌else◌,
}
use apiv.Barcodes.Ean13.{generate_ean13_for_tenant}

pub record ItemBarcode : Type 0 where
  pub tenant_id : List ℕ
  pub item_id : String
  pub variant_id : Option String
  pub barcode : List ℕ
  pub is_primary : Bool
  pub is_deleted : Bool

-- The barcodes, and the next number of the tenant's sequence.
pub record Store : Type 0 where
  pub barcodes : List ItemBarcode
  pub next_seq : ℕ

abbrev pub equal_codes : List ℕ → List ℕ → Bool
equal_codes [] [] = true
equal_codes (a ∷ as') (b ∷ bs) = nat_eq a b && equal_codes as' bs
equal_codes [] (b ∷ bs) = false
equal_codes (a ∷ as') [] = false

abbrev pub same_variant : Option String → Option String → Bool
same_variant none none = true
same_variant (some a) (some b) = a == b
same_variant none (some b) = false
same_variant (some a) none = false

abbrev pub is_item : List ℕ → String → Option String → ItemBarcode → Bool
is_item tenant item variant b =
    equal_codes b.tenant_id tenant && (b.item_id == item) && same_variant b.variant_id variant

abbrev is_live_primary : List ℕ → String → Option String → ItemBarcode → Bool
is_live_primary tenant item variant b =
    is_item tenant item variant b && b.is_primary && not b.is_deleted

unfoldable pub has_primary_for_item : List ℕ → String → Option String → Store → Bool
has_primary_for_item tenant item variant s = any (is_live_primary tenant item variant) s.barcodes

abbrev pub is_barcode : List ℕ → List ℕ → ItemBarcode → Bool
is_barcode tenant barcode b = equal_codes b.tenant_id tenant && equal_codes b.barcode barcode

-- `none` is the violation of the unique index.
unfoldable pub create_row : ItemBarcode → List ItemBarcode → Option (List ItemBarcode)
create_row row rows =
    if any (is_barcode row.tenant_id row.barcode) rows then none else some (row ∷ rows)

abbrev pub max_generate_attempts : ℕ
max_generate_attempts = 5

abbrev pub new_row : List ℕ → String → Option String → Bool → List ℕ → ItemBarcode
new_row tenant item variant primary barcode = record {
  tenant_id = tenant;
  item_id = item;
  variant_id = variant;
  barcode = barcode;
  is_primary = primary;
  is_deleted = false;
}

-- `fn_next_barcode_seq`: the number is used up whatever becomes of it.
abbrev pub next_sequence : Store → Store
next_sequence s = record s { next_seq = s.next_seq + 1 }

-- The loop, with the attempts that are left.
unfoldable pub try_generate :
    ℕ → List ℕ → String → Option String → Bool → Store → Result ItemBarcode × Store
unfolding create_row
try_generate zero tenant item variant primary s =
    (err (Error.other "Failed to generate a unique barcode"), s)
try_generate (suc attempts) tenant item variant primary s =
    let s' = next_sequence s in
    let rest = try_generate attempts tenant item variant primary s' in
    elim (generate_ean13_for_tenant tenant s.next_seq) [
      | none ↦ (err (Error.other "EAN-13 payload must be exactly 12 digits"), s')
      | some code ↦ elim (create_row (new_row tenant item variant primary code) s'.barcodes) [
        | none ↦ rest
        | some rows ↦ (ok (new_row tenant item variant primary code), record s' { barcodes = rows })
      ]
    ]

unfoldable pub generate_for_item :
    List ℕ → String → Option String → Store → Result ItemBarcode × Store
unfolding try_generate has_primary_for_item
generate_for_item tenant item variant s =
    try_generate max_generate_attempts tenant item variant
      (not (has_primary_for_item tenant item variant s)) s
