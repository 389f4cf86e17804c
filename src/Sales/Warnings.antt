-- ===== src/Sales/Warnings.antt =====
-- The steps after a sale is stored that touch the stock and the serials: none can fail the sale, and
-- each adds its text to `stock_warning`.
use apiv.Prelude.{
  String, Option, none, some, List, [], ◌∷◌, ◌==◌, join, to_set, truthy, if◌then◌else◌,
}
use apiv.Sales.Engines.{InvoiceItem}
use apiv.Sales.Tables.{Outside}
use apiv.Sales.Pricing.{PricedLine}

-- `Array.join`
abbrev pub join_with : String → List String → String
join_with separator [] = ""
join_with separator (x ∷ []) = x
join_with separator (x ∷ y ∷ xs) = join (x ∷ separator ∷ join_with separator (y ∷ xs) ∷ [])

-- `[warning, text].filter(Boolean).join(' | ')`
abbrev pub append_warning : Option String → String → Option String
append_warning warning text = elim (truthy warning) [
  | none ↦ some text
  | some w ↦ if text == "" then some w else some (join_with " | " (w ∷ text ∷ []))
]

-- A check that failed, or found nothing, changes nothing.
abbrev pub warn_of : String → Option (List String) → Option String → Option String
warn_of text none warning = warning
warn_of text (some []) warning = warning
warn_of text (some (n ∷ ns)) warning =
    append_warning warning (join (text ∷ join_with ", " (to_set (n ∷ ns)) ∷ []))

-- The items under another's ownership; `none` where a call threw.
owned_names : Outside → List InvoiceItem → Option (List String)
owned_names w [] = some []
owned_names w (item ∷ items) = elim (w.consume_for_sale item) [
  | none ↦ none
  | some consumed ↦ elim (owned_names w items) [
    | none ↦ none
    | some names ↦ some (if consumed then item.item_name ∷ names else names)
  ]
]

warn_stock : Option String → Option String → Option String
warn_stock none warning = warning
warn_stock (some message) warning = append_warning warning message

-- The block under `if (warehouseId)`.
unfoldable pub stock_warnings : Outside → String → List InvoiceItem → Option String
unfolding owned_names warn_stock
stock_warnings w branch items = elim (truthy (w.default_warehouse branch)) [
  | none ↦ none
  | some warehouse ↦
      let held = warn_of "Sold item(s) under active quality hold: " (w.check_holds items) none in
      let expired =
        warn_of "Sold item(s) with expired batch stock: " (w.check_expired_batches items) held in
      let owned =
        warn_of "Sold item(s) held under non-company ownership: " (owned_names w items) expired in
      warn_stock (w.deduct_stock_for_sale items) owned
]

-- The lines that carry a serial.
unfoldable pub serial_warnings : Outside → List PricedLine → Option String → Option String
serial_warnings w [] warning = warning
serial_warnings w (l ∷ ls) warning = serial_warnings w ls (elim (truthy l.serial_id) [
  | none ↦ warning
  | some serial ↦ elim (w.sell_serial serial) [
    | none ↦ warning
    | some message ↦ append_warning warning (join ("Serial " ∷ serial ∷ ": " ∷ message ∷ []))
  ]
])
