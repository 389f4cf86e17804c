-- ===== src/Barcodes/CsvRoundTrip.antt =====
-- The reader of a line undoes the usual writer: every field in quotes, a quote inside doubled, commas
-- between the fields.
use apiv.Prelude.{
  ℕ, true, false, List, [], ◌∷◌, ◌++◌, ◌≡◌, refl, ap, ◌∙◌, inl, inr, arith, nat_eq, if◌then◌else◌,
  Bool-cases,
}
use mathlib.Core.List.{append_assoc, append-nil}
use apiv.Barcodes.Csv.{Text, quote, comma, scan, parse_csv_line}

-- A field with its quotes doubled.
abbrev pub doubled : Text → Text
doubled [] = []
doubled (c ∷ s) = if nat_eq c quote then quote ∷ quote ∷ doubled s else c ∷ doubled s

-- The line from inside the quotes of a field on.
abbrev pub encode_from : Text → List Text → Text
encode_from s [] = doubled s ++ quote ∷ []
encode_from s (f ∷ fs) = doubled s ++ quote ∷ comma ∷ quote ∷ encode_from f fs

-- A row has one field at least.
abbrev pub encode : Text → List Text → Text
encode f fs = quote ∷ encode_from f fs

scan_kept :
    (c : ℕ) (current rest : Text)
    → nat_eq c quote ≡ false
    → scan true current (c ∷ rest) ≡ scan true (current ++ c ∷ []) rest
unfolding scan
scan_kept c current [] h = rw h refl
scan_kept c current (d ∷ rest) h = rw h refl

scan_quotes :
    (c : ℕ) (current rest : Text)
    → nat_eq c quote ≡ true
    → scan true current (quote ∷ quote ∷ rest) ≡ scan true (current ++ c ∷ []) rest
unfolding scan
scan_quotes c current rest h = ground (arith, h)

-- Inside quotes, a doubled field is read back onto what was read before it.
scan-doubled :
    (s current rest : Text) → scan true current (doubled s ++ rest) ≡ scan true (current ++ s) rest
scan-doubled [] current rest = rw (append-nil current) refl
scan-doubled (c ∷ s) current rest =
    let onto : scan true (current ++ c ∷ []) (doubled s ++ rest)
        ≡ scan true (current ++ c ∷ s) rest =
      scan-doubled s (current ++ c ∷ []) rest
      ∙ ap (λ t. scan true t rest) (append_assoc current (c ∷ []) s) in
    elim (Bool-cases (nat_eq c quote)) [
      | inl e ↦ rw e (scan_quotes c current (doubled s ++ rest) e ∙ onto)
      | inr e ↦ rw e (scan_kept c current (doubled s ++ rest) e ∙ onto)
    ]

scan-encode_from :
    (s current : Text) (fs : List Text) → scan true current (encode_from s fs) ≡ (current ++ s) ∷ fs
unfolding scan
scan-encode_from s current [] = scan-doubled s current (quote ∷ [])
scan-encode_from s current (f ∷ fs) =
    scan-doubled s current (quote ∷ comma ∷ quote ∷ encode_from f fs)
    ∙ ap (λ fields. (current ++ s) ∷ fields) (scan-encode_from f [] fs)

-- A row of one field or more, whatever characters the fields hold, quotes and commas among them, is
-- read back from its line: every field in quotes, a quote inside doubled, commas between the fields.
pub parse_csv_line-encode : (f : Text) (fs : List Text) → parse_csv_line (encode f fs) ≡ f ∷ fs
unfolding parse_csv_line
parse_csv_line-encode f fs = scan-encode_from f [] fs
