-- ===== src/Sales/Cancelled.antt =====
-- What a cancellation does to the order, to a second cancellation and to the counts of a session.
use apiv.Prelude.{
  String, false, not, some, List, [], ◌∷◌, map, ◌≡◌, refl, sym, ap, ◌∙◌, inl, inr, arith, Error, ok,
  err, bad_request, database, filter, Result-cases,
}
use apiv.Prelude.Filters.{filter-update_same, filter-update_lost}
use apiv.Till.{Order}
use apiv.Shifts.Repository.{is_shift_invoice, get_shift_invoices}
use apiv.Sales.Tables.{Shop}
use apiv.Sales.Cancel.{
  Reversal, is_order, is_cancelled_status, cancelled_row, cancel_order, cancel_pooled, check_cancel,
  write_cancel, cancel, find_by_id, HoldOrder, hold_order, insert_row,
}

filter-cancelled :
    (tenant id : String) (orders : List Order)
    → filter (is_order (some tenant) id) (cancel_order (some tenant) id orders)
      ≡ map cancelled_row (filter (is_order (some tenant) id) orders)
unfolding cancel_order
filter-cancelled tenant id orders =
    filter-update_same (is_order (some tenant) id) (is_order (some tenant) id) cancelled_row
      (λ x. refl) orders

not_invoice :
    (tenant shift : String) (x : Order) → is_shift_invoice shift tenant (cancelled_row x) ≡ false
not_invoice tenant shift x = ground arith

-- A cancelled order is no invoice of any session.
invoices-cancelled :
    (tenant id shift : String) (orders : List Order)
    → filter (is_shift_invoice shift tenant) (cancel_order (some tenant) id orders)
      ≡ filter
          (λ (o : Order). not (is_order (some tenant) id o))
          (filter (is_shift_invoice shift tenant) orders)
unfolding cancel_order
invoices-cancelled tenant id shift orders =
    filter-update_lost (is_order (some tenant) id) (is_shift_invoice shift tenant) cancelled_row
      (λ x _. not_invoice tenant shift x) orders

-- What a cancellation establishes, from `s` to `s'`.
pub record Cancelled (tenant id : String) (s s' : Shop) : Type 0 where
  pub order : Order
  pub found : filter (is_order (some tenant) id) s.till.orders ≡ order ∷ []
  pub was_live : is_cancelled_status order.status ≡ false
  pub now_cancelled : filter (is_order (some tenant) id) s'.till.orders ≡ cancelled_row order ∷ []
  pub not_counted :
      (shift : String)
      → get_shift_invoices shift tenant s'.till
        ≡ filter
            (λ (o : Order). not (is_order (some tenant) id o))
            (get_shift_invoices shift tenant s.till)
  pub again :
      (w : Reversal) (actor : String)
      → cancel w tenant id actor s' ≡ (err (bad_request "Invoice already cancelled"), s')

check_cancel-ok :
    (tenant id : String) (orders : List Order) {o : Order}
    → check_cancel (some tenant) id orders ≡ ok o
    → (filter (is_order (some tenant) id) orders ≡ o ∷ []) × (is_cancelled_status o.status ≡ false)
unfolding check_cancel find_by_id
check_cancel-ok tenant id orders h = ground (arith, h)

write_cancel-ok :
    (w : Reversal) (tenant id : String) (orders : List Order) {orders' : List Order}
    → write_cancel w (some tenant) id orders ≡ ok orders'
    → cancel_order (some tenant) id orders ≡ orders'
unfolding write_cancel cancel_pooled
write_cancel-ok w tenant id orders h = ground arith

cancel_again :
    (w : Reversal) (tenant id actor : String) (s : Shop) (o : Order)
    → filter (is_order (some tenant) id) s.till.orders ≡ cancelled_row o ∷ []
    → cancel w tenant id actor s ≡ (err (bad_request "Invoice already cancelled"), s)
unfolding cancel check_cancel find_by_id
cancel_again w tenant id actor s o h = rw (cancel, check_cancel, find_by_id, h) refl

cancel_refused :
    (w : Reversal) (tenant id actor : String) (s : Shop) (e : Error)
    → check_cancel (some tenant) id s.till.orders ≡ err e
    → (cancel w tenant id actor s).0 ≡ err e
unfolding cancel
cancel_refused w tenant id actor s e q = rw (cancel, q) refl

cancel_failed :
    (w : Reversal) (tenant id actor : String) (s : Shop) (o : Order) (e : Error)
    → check_cancel (some tenant) id s.till.orders ≡ ok o
    → write_cancel w (some tenant) id s.till.orders ≡ err e
    → (cancel w tenant id actor s).0 ≡ err e
unfolding cancel
cancel_failed w tenant id actor s o e q p = rw (cancel, q, p) refl

cancel_orders :
    (w : Reversal) (tenant id actor : String) (s : Shop) (o : Order) (orders : List Order)
    → check_cancel (some tenant) id s.till.orders ≡ ok o
    → write_cancel w (some tenant) id s.till.orders ≡ ok orders
    → (cancel w tenant id actor s).1.till.orders ≡ orders
unfolding cancel
cancel_orders w tenant id actor s o orders q p = rw (cancel, q, p) refl

-- A cancellation that succeeds found one order of the tenant by the id, which was not cancelled. The
-- order is cancelled then, no session counts it among its invoices, which lose nothing else, and to
-- cancel it again, by anybody, is refused and changes nothing.
pub cancel_ok :
    (w : Reversal) (tenant id actor : String) (s : Shop) {r : String}
    → (cancel w tenant id actor s).0 ≡ ok r
    → Cancelled tenant id s (cancel w tenant id actor s).1
unfolding get_shift_invoices
cancel_ok w tenant id actor s h =
    elim (Result-cases (check_cancel (some tenant) id s.till.orders)) [
      | inl (e, q) ↦ absurd (cc (cancel_refused w tenant id actor s e q))
      | inr (o, q) ↦ elim (Result-cases (write_cancel w (some tenant) id s.till.orders)) [
        | inl (e, p) ↦ absurd (cc (cancel_failed w tenant id actor s o e q p))
        | inr (orders, p) ↦
            let s' = (cancel w tenant id actor s).1 in
            let rows =
              cancel_orders w tenant id actor s o orders q p
              ∙ sym (write_cancel-ok w tenant id s.till.orders p) in
            let before = check_cancel-ok tenant id s.till.orders q in
            let now : filter (is_order (some tenant) id) s'.till.orders ≡ cancelled_row o ∷ [] =
              ap (filter (is_order (some tenant) id)) rows
              ∙ (filter-cancelled tenant id s.till.orders ∙ ap (map cancelled_row) before.0) in
            record {
              order = o;
              found = before.0;
              was_live = before.1;
              now_cancelled = now;
              not_counted = λ shift.
                  ap (filter (is_shift_invoice shift tenant)) rows
                  ∙ invoices-cancelled tenant id shift s.till.orders;
              again = λ w' actor'. cancel_again w' tenant id actor' s' o now;
            }
      ]
    ]

-- Every order that is put on hold is refused by the database, and nothing is stored.
pub hold_order_fails :
    (id tenant actor : String) (dto : HoldOrder) (s : Shop)
    → hold_order id tenant actor dto s ≡ (err database, s)
unfolding hold_order insert_row
hold_order_fails id tenant actor dto s = refl
