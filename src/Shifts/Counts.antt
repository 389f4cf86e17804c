-- ===== src/Shifts/Counts.antt =====
-- The counts of a session: what it took in cash and by card, and what the drawer should hold.
use apiv.Prelude.{some, List, [], ◌∷◌, ◌≡◌, refl, ◌∙◌, arith, filter, All}
use apiv.Prelude.Int.{ℤ, pos, ◌+ℤ◌, ◌-ℤ◌}
use apiv.Prelude.Sums.{parts_injective, parts-add}
use apiv.Till.{PaymentMethod, Order, Expense}
use apiv.Shifts.Engine.{cash_part, card_part, sum_from, is_approved, build_shift_summary}

-- The plain sum of a list.
abbrev pub total_of : {A : Type 0} → (A → ℤ) → List A → ℤ
total_of f [] = pos 0
total_of f (x ∷ xs) = f x +ℤ total_of f xs

pub sum_from-total_of :
    {A : Type 0} (f : A → ℤ) (acc : ℤ) (xs : List A) → sum_from f acc xs ≡ acc +ℤ total_of f xs
unfolding sum_from
sum_from-total_of f acc [] = parts_injective _ _ (omega (arith, parts-add acc (pos 0)))
sum_from-total_of f acc (x ∷ xs) = rw (sum_from-total_of f (acc +ℤ f x) xs) (
    parts_injective _ _ (
      omega (
        arith,
        parts-add (acc +ℤ f x) (total_of f xs),
        parts-add acc (f x),
        parts-add (f x) (total_of f xs),
        parts-add acc (f x +ℤ total_of f xs),
      )))

-- An order whose whole amount is accounted for as cash or card: paid in cash or by card, or split into
-- two stored parts that add up to its total.
pub data Settled : Order → Type 0 where
  in_cash : {o : Order} → o.payment_method ≡ some PaymentMethod.cash → Settled o
  by_card : {o : Order} → o.payment_method ≡ some PaymentMethod.card → Settled o
  in_parts :
      {o : Order} (cash card : ℤ)
      → o.payment_method ≡ some PaymentMethod.split
      → o.cash_amount ≡ some cash
      → o.card_amount ≡ some card
      → cash +ℤ card ≡ o.total
      → Settled o

zero-add : (a : ℤ) → pos 0 +ℤ a ≡ a
zero-add a = parts_injective _ _ (omega (arith, parts-add (pos 0) a))

add-zero : (a : ℤ) → a +ℤ pos 0 ≡ a
add-zero a = parts_injective _ _ (omega (arith, parts-add a (pos 0)))

Settled-parts :
    (o : Order) → Settled o → cash_part o.payment_method o +ℤ card_part o.payment_method o ≡ o.total
unfolding cash_part card_part
Settled-parts o (in_cash m) = rw m (add-zero _)
Settled-parts o (by_card m) = rw m (zero-add _)
Settled-parts o (in_parts a b m ca cb e) = rw (m, ca, cb) e

interchange : (a b c x y z : ℤ) → a +ℤ b ≡ c → x +ℤ y ≡ z → (a +ℤ x) +ℤ (b +ℤ y) ≡ c +ℤ z
interchange a b c x y z e f = rw (← e) (
    rw (← f) (
      parts_injective _ _ (
        omega (
          arith,
          parts-add (a +ℤ x) (b +ℤ y),
          parts-add a x,
          parts-add b y,
          parts-add (a +ℤ b) (x +ℤ y),
          parts-add a b,
          parts-add x y,
        ))))

abbrev pub cash_of : Order → ℤ
cash_of o = cash_part o.payment_method o

abbrev pub card_of : Order → ℤ
card_of o = card_part o.payment_method o

abbrev pub revenue_of : Order → ℤ
revenue_of o = o.total

total_of-Settled :
    (orders : List Order)
    → All Settled orders
    → total_of cash_of orders +ℤ total_of card_of orders ≡ total_of revenue_of orders
total_of-Settled [] h = add-zero (pos 0)
total_of-Settled (o ∷ os) h =
    interchange (cash_of o) (card_of o) o.total (total_of cash_of os) (total_of card_of os)
      (total_of revenue_of os) (Settled-parts o h.0) (total_of-Settled os h.1)

pub sums : {A : Type 0} (f : A → ℤ) (xs : List A) → sum_from f (pos 0) xs ≡ total_of f xs
sums f xs = sum_from-total_of f (pos 0) xs ∙ zero-add (total_of f xs)

-- Where every invoice of a session is settled, the cash and the card counts of its summary add up to
-- its revenue.
pub total_cash-total_card :
    (opening closing : ℤ) (invoices : List Order) (expenses : List Expense)
    → All Settled invoices
    → let s = build_shift_summary opening closing invoices expenses in
      s.total_cash +ℤ s.total_card ≡ s.total_revenue
unfolding build_shift_summary
total_cash-total_card opening closing invoices expenses h =
    rw (sums cash_of invoices, sums card_of invoices, sums revenue_of invoices)
      (total_of-Settled invoices h)

-- The cash that the drawer should hold: what it opened with, plus what the invoices took in cash, minus
-- the approved expenses.
abbrev pub expected_of : ℤ → List Order → List Expense → ℤ
expected_of opening invoices expenses =
    (opening +ℤ total_of cash_of invoices)
    -ℤ total_of (λ (e : Expense). e.amount) (filter is_approved expenses)

pub expected_cash_lem :
    (opening closing : ℤ) (invoices : List Order) (expenses : List Expense)
    → (build_shift_summary opening closing invoices expenses).expected_cash
      ≡ expected_of opening invoices expenses
unfolding build_shift_summary
expected_cash_lem opening closing invoices expenses =
    rw (sums cash_of invoices, sums (λ (e : Expense). e.amount) (filter is_approved expenses)) refl
