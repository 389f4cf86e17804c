-- ===== src/Shifts/Tests.antt =====
-- A till with one open session of `ana`, which took 20.70 in cash.
use apiv.Prelude.{true, false, none, some, List, [], ◌∷◌, ◌≡◌, refl, arith, ok}
use apiv.Prelude.Int.{pos, ◌+ℤ◌, ◌-ℤ◌}
use apiv.Till.{ShiftStatus, Shift, OrderStatus, PaymentMethod, Order, Till}
use apiv.Shifts.Engine.{
  ShiftSummary, build_shift_summary, calculate_expected_cash, sum_from, cash_part, card_part,
}
use apiv.Shifts.Repository.{find_by_id, close, closed_with, get_shift_invoices, get_shift_expenses}
use apiv.Shifts.Service.{OpenShift, close_shift, check_close, audit}
use apiv.Shifts.Sessions.{AtMostOne, Call, opening, closing, drawer, serve_all, serve_all-AtMostOne}
use apiv.Shifts.Closing.{Closes, close_shift_lem}

abbrev session : Shift
session = record {
  id = "s1";
  tenant_id = "t1";
  branch_id = "b1";
  cashier_id = "ana";
  status = ShiftStatus.open_shift;
  opening_cash = pos 10000;
  closing_cash = none;
  expected_cash = none;
  discrepancy = none;
  notes = none;
  is_deleted = false;
}

abbrev sold : Order
sold = record {
  id = "o1";
  tenant_id = "t1";
  branch_id = "b1";
  shift_id = some "s1";
  cashier_id = "ana";
  customer_id = none;
  status = OrderStatus.completed;
  subtotal = pos 1800;
  discount = pos 0;
  tax = pos 270;
  total = pos 2070;
  payment_method = some PaymentMethod.cash;
  notes = none;
  coupon_code = none;
  sale_attempt_id = "a1";
  cash_amount = none;
  card_amount = none;
  held = false;
  is_deleted = false;
}

abbrev till : Till
till = record {
  shifts = session ∷ [];
  orders = sold ∷ [];
  expenses = [];
  audit = [];
  allows_cancelled = true;
}

abbrev empty_till : Till
empty_till = record { shifts = []; orders = []; expenses = []; audit = []; allows_cancelled = true }

abbrev summary : ShiftSummary
summary = record {
  total_invoices = 1;
  total_revenue = pos 2070;
  total_cash = pos 2070;
  total_card = pos 0;
  total_expenses = pos 0;
  opening_cash = pos 10000;
  closing_cash = pos 12000;
  expected_cash = pos 12070;
  discrepancy = pos 12000 -ℤ pos 12070;
}

closes :
    (close_shift "s1" (pos 12000) "t1" "ana" till).0
    ≡ ok (closed_with (pos 12000) (pos 12070) (pos 12000 -ℤ pos 12070) session, summary)
unfolding close_shift check_close find_by_id close audit build_shift_summary sum_from cash_part
    card_part calculate_expected_cash get_shift_invoices get_shift_expenses ◌+ℤ◌ ◌-ℤ◌
closes = refl

close_shift_lem_example :
    (shift : Shift) × Closes "s1"
      (pos 12000)
      "t1"
      "ana"
      till
      shift
      (closed_with (pos 12000) (pos 12070) (pos 12000 -ℤ pos 12070) session)
      summary
      (close_shift "s1" (pos 12000) "t1" "ana" till).1
close_shift_lem_example = close_shift_lem "s1" (pos 12000) "t1" "ana" till closes

abbrev at_b1 : OpenShift
at_b1 = record { branch_id = "b1"; opening_cash = pos 10000; notes = none }

abbrev calls : List Call
calls =
    opening "s1" at_b1 "t1" "ana"
    ∷ opening "s2" at_b1 "t1" "ana"
    ∷ drawer "t1" "ana"
    ∷ closing "s1" (pos 10000) "t1" "ana"
    ∷ []

serve_all-AtMostOne_example : AtMostOne (serve_all calls empty_till)
serve_all-AtMostOne_example = serve_all-AtMostOne calls empty_till (λ cashier tenant. omega arith)
