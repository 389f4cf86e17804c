-- ===== src/Sales/Payments.antt =====
-- What the payment check lets through, by the method of payment.
use apiv.Prelude.{String, truthy, ℕ, zero, suc, Option, none, some, ◌≡◌, refl, arith, ok}
use apiv.Prelude.Int.{ℤ, pos, ◌+ℤ◌, ◌-ℤ◌}
use apiv.Prelude.Sums.{IsNonneg, ◌≤ℤ◌, parts_injective}
use apiv.Till.{PaymentMethod, Order}
use apiv.Sales.Engines.{process_split_payment, process_cash_payment}
use apiv.Sales.Tables.{CreateInvoiceDto}
use apiv.Sales.Loyalty.{or_default}
use apiv.Sales.Checkout.{check_cash, check_split, check_tab, check_payment}
use apiv.Sales.Create.{persisted}

-- The stored parts of a payment.
abbrev pub PartsOf : PaymentMethod → Option ℤ → Option ℤ → ℤ → Type 0
PartsOf PaymentMethod.split (some cash) (some card) total =
    IsNonneg cash × IsNonneg card × (cash +ℤ card ≡ total)
PartsOf PaymentMethod.split (some cash) none total = ⊥
PartsOf PaymentMethod.split none card total = ⊥
PartsOf _ cash card total = (cash ≡ none) × (card ≡ none)

-- What stands behind the amount, by the method: cash that covers the total, or a customer for a tab.
-- The parts of a split are `PartsOf`; the amount of any other method is not checked.
abbrev pub Backed : PaymentMethod → CreateInvoiceDto → ℤ → Type 0
Backed PaymentMethod.cash dto total = total ≤ℤ pos (or_default 0 dto.cash_tendered)
Backed PaymentMethod.tab dto total = (id : String) × (truthy dto.customer_id ≡ some id)
Backed _ dto total = Unit {0}

-- A stored sale adds up. Its discount is at most its subtotal and its total is the subtotal without
-- the discount and with the tax. A split is stored with two parts, neither negative, that are the
-- total; no other payment has parts.
pub record Reconciled (method : PaymentMethod) (o : Order) : Type 0 where
  pub discount_le : o.discount ≤ℤ o.subtotal
  pub adds_up : o.total ≡ (o.subtotal -ℤ o.discount) +ℤ o.tax
  pub paid_by : o.payment_method ≡ some method
  pub parts : PartsOf method o.cash_amount o.card_amount o.total

check_split-ok :
    (total : ℤ) (cash card : Option ℤ)
    → check_split total cash card ≡ ok tt
    → PartsOf PaymentMethod.split cash card total
unfolding check_split process_split_payment
check_split-ok total (some a) (some b) h =
    (ground arith, ground arith, parts_injective (a +ℤ b) total (ground arith))
check_split-ok total (some a) none h = cc
check_split-ok total none card h = cc

pub check_payment-ok :
    (m : PaymentMethod) (dto : CreateInvoiceDto) (total : ℤ)
    → check_payment m dto total ≡ ok tt
    → PartsOf m (persisted m dto.cash_amount) (persisted m dto.card_amount) total
unfolding check_payment
check_payment-ok PaymentMethod.split dto total h =
    check_split-ok total dto.cash_amount dto.card_amount h
check_payment-ok PaymentMethod.cash dto total h = (refl, refl)
check_payment-ok PaymentMethod.card dto total h = (refl, refl)
check_payment-ok PaymentMethod.wallet dto total h = (refl, refl)
check_payment-ok PaymentMethod.mada dto total h = (refl, refl)
check_payment-ok PaymentMethod.visa dto total h = (refl, refl)
check_payment-ok PaymentMethod.mastercard dto total h = (refl, refl)
check_payment-ok PaymentMethod.stc_pay dto total h = (refl, refl)
check_payment-ok PaymentMethod.apple_pay dto total h = (refl, refl)
check_payment-ok PaymentMethod.tab dto total h = (refl, refl)

check_cash-ok : (total : ℤ) (n : ℕ) → check_cash total n ≡ ok tt → total ≤ℤ pos n
unfolding check_cash process_cash_payment
check_cash-ok total zero h = absurd (cc)
check_cash-ok total (suc n) h = ground arith

check_tab-ok :
    (customer : Option String) → check_tab customer ≡ ok tt → (id : String) × (customer ≡ some id)
unfolding check_tab
check_tab-ok none h = absurd (cc)
check_tab-ok (some id) h = (id, refl)

pub check_payment-Backed :
    (m : PaymentMethod) (dto : CreateInvoiceDto) (total : ℤ)
    → check_payment m dto total ≡ ok tt
    → Backed m dto total
unfolding check_payment
check_payment-Backed PaymentMethod.cash dto total h =
    check_cash-ok total (or_default 0 dto.cash_tendered) h
check_payment-Backed PaymentMethod.split dto total h = tt
check_payment-Backed PaymentMethod.card dto total h = tt
check_payment-Backed PaymentMethod.wallet dto total h = tt
check_payment-Backed PaymentMethod.mada dto total h = tt
check_payment-Backed PaymentMethod.visa dto total h = tt
check_payment-Backed PaymentMethod.mastercard dto total h = tt
check_payment-Backed PaymentMethod.stc_pay dto total h = tt
check_payment-Backed PaymentMethod.apple_pay dto total h = tt
check_payment-Backed PaymentMethod.tab dto total h = check_tab-ok (truthy dto.customer_id) h
