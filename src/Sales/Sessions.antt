-- ===== src/Sales/Sessions.antt =====
-- A sale in its cash register session: what the summary of the session counts.
use apiv.Prelude.{
  Bool, true, false, Option, none, some, List, ◌∷◌, ◌≡◌, refl, sym, ap, ◌∙◌, arith, eq_refl, All,
  ok,
}
use apiv.Prelude.Int.{ℤ, ◌+ℤ◌}
use apiv.Till.{PaymentMethod, Order, Expense}
use apiv.Shifts.Engine.{build_shift_summary}
use apiv.Shifts.Repository.{is_shift_invoice, get_shift_invoices}
use apiv.Shifts.Counts.{
  Settled, in_cash, by_card, in_parts, total_of, revenue_of, sums, total_cash-total_card,
}
use apiv.Sales.Tables.{CreateInvoiceDto, Shop, Outside}
use apiv.Sales.Checkout.{Caller, Sale}
use apiv.Sales.Create.{Created, created, order_of, create}
use apiv.Sales.Payments.{PartsOf, Reconciled}
use apiv.Sales.Sold.{create_ok}

-- The payments that the summary counts as cash or card.
abbrev pub is_counted : PaymentMethod → Bool
is_counted PaymentMethod.cash = true
is_counted PaymentMethod.card = true
is_counted PaymentMethod.split = true
is_counted _ = false

parts-Settled :
    (o : Order) (cash card : Option ℤ)
    → o.payment_method ≡ some PaymentMethod.split
    → o.cash_amount ≡ cash
    → o.card_amount ≡ card
    → PartsOf PaymentMethod.split cash card o.total
    → Settled o
parts-Settled o (some a) (some b) m ea eb p = in_parts a b m ea eb p.2
parts-Settled o (some a) none m ea eb p = absurd p
parts-Settled o none card m ea eb p = absurd p

Reconciled-Settled :
    (method : PaymentMethod) (o : Order)
    → is_counted method ≡ true
    → Reconciled method o
    → Settled o
Reconciled-Settled PaymentMethod.cash o h r = in_cash r.paid_by
Reconciled-Settled PaymentMethod.card o h r = by_card r.paid_by
Reconciled-Settled PaymentMethod.split o h r =
    parts-Settled o o.cash_amount o.card_amount r.paid_by refl refl r.parts
Reconciled-Settled PaymentMethod.wallet o h r = absurd (cc)
Reconciled-Settled PaymentMethod.mada o h r = absurd (cc)
Reconciled-Settled PaymentMethod.visa o h r = absurd (cc)
Reconciled-Settled PaymentMethod.mastercard o h r = absurd (cc)
Reconciled-Settled PaymentMethod.stc_pay o h r = absurd (cc)
Reconciled-Settled PaymentMethod.apple_pay o h r = absurd (cc)
Reconciled-Settled PaymentMethod.tab o h r = absurd (cc)

-- The new order is the first of its session's invoices.
order_of-invoice :
    (w : Outside) (c : Caller) (dto : CreateInvoiceDto) (sale : Sale)
    → is_shift_invoice c.shift_id c.tenant_id (order_of w c dto sale) ≡ true
unfolding order_of
order_of-invoice w c dto sale = ground (arith, eq_refl c.shift_id, eq_refl c.tenant_id)

create_invoices :
    (w : Outside) (c : Caller) (dto : CreateInvoiceDto) (s t : Shop) (sale : Sale)
    → t.till.orders ≡ order_of w c dto sale ∷ s.till.orders
    → get_shift_invoices c.shift_id c.tenant_id t.till
      ≡ order_of w c dto sale ∷ get_shift_invoices c.shift_id c.tenant_id s.till
unfolding get_shift_invoices
create_invoices w c dto s t sale e = rw (e, order_of-invoice w c dto sale) refl

-- A sale paid in cash, by card or split between them, in a session whose invoices are all settled:
-- the summary's revenue grows by the total of the sale, and its cash and card counts still add up to
-- its revenue, whatever the amounts counted and spent.
pub create-shift_summary :
    (w : Outside) (c : Caller) (dto : CreateInvoiceDto) (s : Shop) (opening closing : ℤ)
    (expenses : List Expense) {r : Created}
    → (create w c dto s).0 ≡ ok r
    → is_counted dto.payment_method ≡ true
    → All Settled (get_shift_invoices c.shift_id c.tenant_id s.till)
    → let before = get_shift_invoices c.shift_id c.tenant_id s.till in
      let after = get_shift_invoices c.shift_id c.tenant_id (create w c dto s).1.till in
      let summary = build_shift_summary opening closing after expenses in
      (summary.total_revenue
        ≡ r.total +ℤ (build_shift_summary opening closing before expenses).total_revenue)
      × (summary.total_cash +ℤ summary.total_card ≡ summary.total_revenue)
unfolding build_shift_summary order_of created
create-shift_summary w c dto s opening closing expenses {r} h counted settled =
    let sold = create_ok w c dto s h in
    let before = get_shift_invoices c.shift_id c.tenant_id s.till in
    let o = order_of w c dto sold.sale in
    let rows = create_invoices w c dto s (create w c dto s).1 sold.sale sold.stored.orders in
    let total = ap (λ (x : Created). x.total) sold.stored.result in
    rw rows (
      sums revenue_of (o ∷ before)
          ∙ (ap (λ (t : ℤ). t +ℤ total_of revenue_of before) total
              ∙ ap (λ (t : ℤ). r.total +ℤ t) (sym (sums revenue_of before))),
      total_cash-total_card opening closing (o ∷ before) expenses
          (Reconciled-Settled dto.payment_method o counted sold.reconciled, settled),
    )
