-- ===== src/Barcodes/Csv.antt =====
-- `parseCsvLine` of src/modules/items/utils/csv.util.ts, over the character codes of a line.
use apiv.Prelude.{ℕ, Bool, true, false, List, [], ◌∷◌, ◌++◌, nat_eq, if◌then◌else◌}

abbrev pub Text : Type 0
Text = List ℕ

abbrev pub quote : ℕ
quote = b'"'

abbrev pub comma : ℕ
comma = b','

-- The loop: `in_quotes`, `current` and what is left of the line; the result is what is pushed from
-- there on. Two quotes inside quotes are read at once.
unfoldable pub scan : Bool → Text → Text → List Text
scan in_quotes current [] = current ∷ []
scan false current (c ∷ rest) =
    let opened = scan true current rest in
    let pushed = current ∷ scan false [] rest in
    let kept = scan false (current ++ c ∷ []) rest in
    if nat_eq c quote then opened else if nat_eq c comma then pushed else kept
scan true current (c ∷ []) =
    let closed = scan false current [] in
    let kept = scan true (current ++ c ∷ []) [] in if nat_eq c quote then closed else kept
scan true current (c ∷ d ∷ rest) =
    let escaped = scan true (current ++ quote ∷ []) rest in
    let closed = scan false current (d ∷ rest) in
    let kept = scan true (current ++ c ∷ []) (d ∷ rest) in
    if nat_eq c quote then if nat_eq d quote then escaped else closed else kept

unfoldable pub parse_csv_line : Text → List Text
unfolding scan
parse_csv_line line = scan false [] line
