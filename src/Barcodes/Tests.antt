-- ===== src/Barcodes/Tests.antt =====
-- A tenant without barcodes, and a line of a CSV file.
use apiv.Prelude.{ℕ, none, some, List, [], ◌∷◌, ◌≡◌}
use apiv.Barcodes.Ean13.{generate_ean13_for_tenant}
use apiv.Barcodes.Checksum.{Generated, generate_ean13_for_tenant_lem}
use apiv.Barcodes.Csv.{quote, comma, parse_csv_line}
use apiv.Barcodes.CsvRoundTrip.{encode, parse_csv_line-encode}
use apiv.Barcodes.Service.{Store, generate_for_item}
use apiv.Barcodes.Generation.{Ends, generate_for_item-Ends}

abbrev tenant : List ℕ
tenant = b't' ∷ b'1' ∷ []

abbrev store : Store
store = record { barcodes = []; next_seq = 7 }

generate_ean13_for_tenant_lem_example :
    (code : List ℕ) × (generate_ean13_for_tenant tenant 7 ≡ some code) × Generated tenant 7 code
generate_ean13_for_tenant_lem_example = generate_ean13_for_tenant_lem tenant 7

parse_csv_line-encode_example :
    parse_csv_line (encode (b'a' ∷ quote ∷ comma ∷ []) ([] ∷ (b'b' ∷ []) ∷ []))
    ≡ (b'a' ∷ quote ∷ comma ∷ []) ∷ [] ∷ (b'b' ∷ []) ∷ []
parse_csv_line-encode_example =
    parse_csv_line-encode (b'a' ∷ quote ∷ comma ∷ []) ([] ∷ (b'b' ∷ []) ∷ [])

generate_for_item-Ends_example :
    Ends 5 tenant store
      (generate_for_item tenant "i1" none store).0
      (generate_for_item tenant "i1" none store).1
generate_for_item-Ends_example = generate_for_item-Ends tenant "i1" none store
