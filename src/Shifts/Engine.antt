-- ===== src/Shifts/Engine.antt =====
-- src/engines/shift-engine/shift.engine.ts
use apiv.Prelude.{
  ℕ, Bool, true, false, Option, none, some, List, [], ◌∷◌, Result, ok, err, bad_request, length,
  filter, if◌then◌else◌,
}
use apiv.Prelude.Int.{ℤ, pos, ◌+ℤ◌, ◌-ℤ◌}
use apiv.Till.{PaymentMethod, Order, ExpenseStatus, Expense}

pub record ShiftSummary : Type 0 where
  pub total_invoices : ℕ
  pub total_revenue : ℤ
  pub total_cash : ℤ
  pub total_card : ℤ
  pub total_expenses : ℤ
  pub opening_cash : ℤ
  pub closing_cash : ℤ
  pub expected_cash : ℤ
  pub discrepancy : ℤ

pub record CashReconciliation : Type 0 where
  pub counted : ℤ
  pub system : ℤ
  pub discrepancy : ℤ

unfoldable pub validate_no_double_shift : Bool → Result (Unit {0})
validate_no_double_shift existing =
    if existing then err (bad_request "A shift is already open for this cashier") else ok tt

unfoldable pub calculate_expected_cash : ℤ → ℤ → ℤ → ℤ
calculate_expected_cash opening_cash total_cash total_cash_expenses =
    (opening_cash +ℤ total_cash) -ℤ total_cash_expenses

unfoldable pub reconcile_cash : ℤ → ℤ → CashReconciliation
reconcile_cash counted expected = record {
  counted = counted;
  system = expected;
  discrepancy = counted -ℤ expected;
}

-- `amount ?? 0`
abbrev pub or_zero : Option ℤ → ℤ
or_zero none = pos 0
or_zero (some a) = a

-- What an order adds to the count of cash and of cards.
unfoldable pub cash_part : Option PaymentMethod → Order → ℤ
cash_part (some PaymentMethod.cash) inv = inv.total
cash_part (some PaymentMethod.split) inv = or_zero inv.cash_amount
cash_part _ inv = pos 0

unfoldable pub card_part : Option PaymentMethod → Order → ℤ
card_part (some PaymentMethod.card) inv = inv.total
card_part (some PaymentMethod.split) inv = or_zero inv.card_amount
card_part _ inv = pos 0

-- `reduce((sum, x) => sum + f(x), 0)`
unfoldable pub sum_from : {A : Type 0} → (A → ℤ) → ℤ → List A → ℤ
sum_from f sum [] = sum
sum_from f sum (x ∷ xs) = sum_from f (sum +ℤ f x) xs

abbrev is_approved_status : ExpenseStatus → Bool
is_approved_status ExpenseStatus.approved = true
is_approved_status _ = false

abbrev pub is_approved : Expense → Bool
is_approved e = is_approved_status e.status

unfoldable pub build_shift_summary : ℤ → ℤ → List Order → List Expense → ShiftSummary
unfolding calculate_expected_cash sum_from
build_shift_summary opening_cash closing_cash invoices expenses =
    let total_cash =
      sum_from (λ (inv : Order). cash_part inv.payment_method inv) (pos 0) invoices in
    let total_card =
      sum_from (λ (inv : Order). card_part inv.payment_method inv) (pos 0) invoices in
    let total_expenses =
      sum_from (λ (e : Expense). e.amount) (pos 0) (filter is_approved expenses) in
    let expected_cash = calculate_expected_cash opening_cash total_cash total_expenses in
    record {
      total_invoices = length invoices;
      total_revenue = sum_from (λ (inv : Order). inv.total) (pos 0) invoices;
      total_cash = total_cash;
      total_card = total_card;
      total_expenses = total_expenses;
      opening_cash = opening_cash;
      closing_cash = closing_cash;
      expected_cash = expected_cash;
      discrepancy = closing_cash -ℤ expected_cash;
    }
