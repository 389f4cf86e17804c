-- ===== src/Sales/Sold.antt =====
-- What `InvoicesService.create` leaves behind: when it succeeds, when it refuses, and when the request
-- is sent again.
use apiv.Prelude.{
  false, none, some, List, ◌∷◌, ◌++◌, ◌≡◌, refl, sym, ap, inl, inr, Result, Error, ok, err, any,
  Option-cases, Result-cases,
}
use mathlib.Core.Path.{subst}
use apiv.Prelude.Int.{ℤ, ◌+ℤ◌, ◌-ℤ◌}
use apiv.Prelude.Sums.{◌≤ℤ◌}
use apiv.Pricing.Types.{Tables}
use apiv.Sales.Tables.{CreateInvoiceDto, Customer, Shop, Outside}
use apiv.Sales.Pricing.{PricedLine}
use apiv.Sales.Orders.{InsertError, is_attempt, order_items_of, write_sale}
use apiv.Sales.Checkout.{Caller, Sale, prepare, seller_of, has_discount}
use apiv.Sales.Create.{
  Created, order_of, redeem_for, after_insert, created, settle, commit, finish, create,
}
use apiv.Sales.Guards.{Priced, Prepared, ok-injective, prepare-ok}
use apiv.Pricing.Reading.{SameRows-refl}
use apiv.Sales.InSession.{InSession, assert_open_session-InSession}
use apiv.Sales.Lines.{EachFits, resolve_lines-EachFits}
use apiv.Sales.Payments.{Backed, Reconciled, check_payment-ok, check_payment-Backed}
use apiv.Sales.Totals.{combine_adds_up}
use apiv.Sales.Writes.{Written, write_sale-none}

abbrev pub with_prices : Tables → Shop → Shop
with_prices prices s = record s { prices = prices }

abbrev pub with_customers : List Customer → Shop → Shop
with_customers customers s = record s { customers = customers }

pub create-finish :
    (w : Outside) (c : Caller) (dto : CreateInvoiceDto) (s : Shop)
    → create w c dto s ≡ finish w c dto (prepare w c dto s).0 (with_prices (prepare w c dto s).1 s)
unfolding create
create-finish w c dto s = refl

pub create_refused :
    (w : Outside) (c : Caller) (dto : CreateInvoiceDto) (s : Shop) (e : Error)
    → (prepare w c dto s).0 ≡ err e
    → create w c dto s ≡ (err e, with_prices (prepare w c dto s).1 s)
create_refused w c dto s e q = rw (create-finish w c dto s, q)

pub create_commits :
    (w : Outside) (c : Caller) (dto : CreateInvoiceDto) (s : Shop) (sale : Sale)
    → (prepare w c dto s).0 ≡ ok sale
    → create w c dto s ≡ commit w c dto sale (with_prices (prepare w c dto s).1 s)
create_commits w c dto s sale q = rw (create-finish w c dto s, q)

pub commit_refused :
    (w : Outside) (c : Caller) (dto : CreateInvoiceDto) (sale : Sale) (s : Shop) (e : Error)
    → redeem_for c dto s.customers ≡ err e
    → commit w c dto sale s ≡ (err e, s)
unfolding commit
commit_refused w c dto sale s e q = rw (q, commit)

pub commit-written :
    (w : Outside) (c : Caller) (dto : CreateInvoiceDto) (sale : Sale) (s : Shop)
    (customers : List Customer)
    → redeem_for c dto s.customers ≡ ok customers
    → let written = write_sale w (order_of w c dto sale) sale.lines (with_customers customers s) in
      commit w c dto sale s ≡ settle w c dto sale written.0 written.1
unfolding commit
commit-written w c dto sale s customers q = rw (q, commit) refl

-- What a commit that succeeds stores, on whatever the shop `t` holds by then.
pub record Stored (w : Outside) (c : Caller) (dto : CreateInvoiceDto) (sale : Sale) (t : Shop)
    (r : Created) (t' : Shop) : Type 0 where
  pub fresh : any (is_attempt c.tenant_id dto.sale_attempt_id) t.till.orders ≡ false
  pub orders : t'.till.orders ≡ order_of w c dto sale ∷ t.till.orders
  pub items : t'.order_items ≡ order_items_of w.order_id sale.lines ++ t.order_items
  pub result : created w c sale ≡ r

settle-none :
    (w : Outside) (c : Caller) (dto : CreateInvoiceDto) (sale : Sale) (t u : Shop) {r : Created}
    → Written w (order_of w c dto sale) sale.lines t u
    → (settle w c dto sale none u).0 ≡ ok r
    → Stored w c dto sale t r (settle w c dto sale none u).1
unfolding settle order_of after_insert
settle-none w c dto sale t u v h = record {
  fresh = v.fresh;
  orders = v.orders;
  items = v.items;
  result = ok-injective h;
}

settle_err :
    (w : Outside) (c : Caller) (dto : CreateInvoiceDto) (sale : Sale) (e : InsertError) (u : Shop)
    {r : Created}
    → (settle w c dto sale (some e) u).0 ≡ ok r
    → ⊥
unfolding settle
settle_err w c dto sale e u h = cc

written-Stored :
    (w : Outside) (c : Caller) (dto : CreateInvoiceDto) (sale : Sale) (t : Shop) {r : Created}
    → let written = write_sale w (order_of w c dto sale) sale.lines t in
      (settle w c dto sale written.0 written.1).0 ≡ ok r
      → Stored w c dto sale t r (settle w c dto sale written.0 written.1).1
written-Stored w c dto sale t {r} h =
    let written = write_sale w (order_of w c dto sale) sale.lines t in
    elim (Option-cases written.0) [
      | inl e ↦
          subst
            (λ f.
              (settle w c dto sale f written.1).0 ≡ ok r
              → Stored w c dto sale t r (settle w c dto sale f written.1).1)
            (sym e)
            (settle-none w c dto sale t written.1
              (write_sale-none w (order_of w c dto sale) sale.lines t e))
            h
      | inr (x, e) ↦ absurd (
          settle_err w c dto sale x written.1
            (subst (λ f. (settle w c dto sale f written.1).0 ≡ ok r) e h))
    ]

pub commit-Stored :
    (w : Outside) (c : Caller) (dto : CreateInvoiceDto) (sale : Sale) (t : Shop) {r : Created}
    → (commit w c dto sale t).0 ≡ ok r
    → Stored w c dto sale t r (commit w c dto sale t).1
commit-Stored w c dto sale t {r} h = elim (Result-cases (redeem_for c dto t.customers)) [
  | inl (e, q) ↦ absurd (cc (commit_refused w c dto sale t e q))
  | inr (customers, q) ↦
      let same = commit-written w c dto sale t customers q in
      let stored =
        written-Stored w c dto sale (with_customers customers t)
          (subst (λ (x : Result Created × Shop). x.0 ≡ ok r) same h) in
      subst (λ (x : Result Created × Shop). Stored w c dto sale t r x.1) (sym same)
        (record {
          fresh = stored.fresh;
          orders = stored.orders;
          items = stored.items;
          result = stored.result;
        })
]

built_adds_up :
    (w : Outside) (c : Caller) (dto : CreateInvoiceDto) (s : Shop) (loyalty : ℤ)
    (lines : List PricedLine) (sale : Sale)
    → Priced w c dto s loyalty lines sale
    → (sale.built.discount_amount ≤ℤ sale.built.subtotal)
      × (sale.built.total
          ≡ (sale.built.subtotal -ℤ sale.built.discount_amount) +ℤ sale.built.tax_amount)
built_adds_up w c dto s loyalty lines sale p = rw p.built (combine_adds_up _ _ _ _)

order_of-Reconciled :
    (w : Outside) (c : Caller) (dto : CreateInvoiceDto) (s : Shop) (sale : Sale)
    → Prepared w c dto s sale
    → Reconciled dto.payment_method (order_of w c dto sale)
unfolding order_of
order_of-Reconciled w c dto s sale p =
    let sums = built_adds_up w c dto s p.loyalty p.lines sale p.priced in
    record {
      discount_le = sums.0;
      adds_up = sums.1;
      paid_by = refl;
      parts = check_payment-ok dto.payment_method dto sale.built.total p.priced.paid;
    }

-- A sale that was made. `prepared` says how its amounts come from the request; the other fields say
-- what holds of the tables before and after.
pub record Sold (w : Outside) (c : Caller) (dto : CreateInvoiceDto) (s : Shop) (r : Created)
    (s' : Shop) : Type 0 where
  pub sale : Sale
  pub prepared : Prepared w c dto s sale
  pub session : InSession c.shift_id c.tenant_id s.till
  pub lines :
      EachFits
        (record {
          cashier_id = c.cashier_id;
          tenant_id = c.tenant_id;
          branch_id = c.branch_id;
          has_invoice_level_discount = has_discount dto.discount;
        })
        s.prices
        dto.items
        sale.lines
  pub stored : Stored w c dto sale s r s'
  pub reconciled : Reconciled dto.payment_method (order_of w c dto sale)
  pub backed : Backed dto.payment_method dto sale.built.total

-- A call of `create` that succeeds was a new attempt of the tenant, and the caller's session is a row
-- of the tenant that is open. The sale has one line for each item of the request, with the item, the
-- variant and the quantity asked for: either at the official price, which is then the requested one, or
-- at the requested price by an approval that the official price, the seller's role, the permission and
-- every condition of the effective policy stand behind, all read off the rows that the call found. It
-- stores the order and these lines, and the order adds up: its discount is at most its subtotal, and its
-- total is the subtotal without the discount and with the tax. Cash tendered covers the total, the parts
-- of a split payment are the total, and a tab names a customer.
pub create_ok :
    (w : Outside) (c : Caller) (dto : CreateInvoiceDto) (s : Shop) {r : Created}
    → (create w c dto s).0 ≡ ok r
    → Sold w c dto s r (create w c dto s).1
create_ok w c dto s {r} h = elim (Result-cases (prepare w c dto s).0) [
  | inl (e, q) ↦
      absurd (cc (ap (λ (x : Result Created × Shop). x.0) (create_refused w c dto s e q)))
  | inr (sale, q) ↦
      let t = with_prices (prepare w c dto s).1 s in
      let same = create_commits w c dto s sale q in
      let prepared = prepare-ok w c dto s q in
      let stored =
        commit-Stored w c dto sale t (subst (λ (x : Result Created × Shop). x.0 ≡ ok r) same h) in
      subst (λ (x : Result Created × Shop). Sold w c dto s r x.1) (sym same)
        (record {
          sale = sale;
          prepared = prepared;
          stored = record {
            fresh = stored.fresh;
            orders = stored.orders;
            items = stored.items;
            result = stored.result;
          };
          reconciled = order_of-Reconciled w c dto s sale prepared;
          session = assert_open_session-InSession c.tenant_id c.shift_id s.till prepared.session;
          lines =
              subst (EachFits (seller_of c dto) s.prices dto.items) (sym prepared.priced.same_lines)
                (resolve_lines-EachFits (seller_of c dto) s.prices dto.items none s.prices
                  (SameRows-refl s.prices) tt prepared.resolved);
          backed =
              check_payment-Backed dto.payment_method dto sale.built.total prepared.priced.paid;
        })
]
