-- ===== src/Sales/Writes.antt =====
-- The write of a sale: what it stores when it succeeds, what it leaves when it fails, and that no two
-- orders of a tenant are of one attempt.
use apiv.Prelude.{
  ℕ, ◌≤◌, String, Bool, true, false, none, some, List, [], ◌∷◌, ◌++◌, ◌≡◌, ◌⊎◌, refl, inl, inr,
  arith, eq_iff, any, filter, length, Bool-cases, Option-cases,
}
use apiv.Till.{Order}
use apiv.Sales.Tables.{Shop, Outside}
use apiv.Sales.Pricing.{PricedLine}
use apiv.Sales.Orders.{
  InsertError, is_attempt, insert_order, order_items_of, write_sale, create_with_items_pooled,
  create_then_items,
}

-- The number of a tenant's orders of one attempt.
abbrev pub attempt_count : String → String → List Order → ℕ
attempt_count tenant attempt orders = length (filter (is_attempt tenant attempt) orders)

-- `uq_orders_tenant_sale_attempt`
abbrev pub OneOrderEach : List Order → Type 0
OneOrderEach orders = (tenant attempt : String) → attempt_count tenant attempt orders ≤ 1

pub any-filter_nil : {A : Type 0} (p : A → Bool) (xs : List A) → any p xs ≡ false → filter p xs ≡ []
any-filter_nil p [] h = refl
any-filter_nil p (x ∷ xs) h = ground (arith, any-filter_nil p xs)

pub record Written (w : Outside) (o : Order) (lines : List PricedLine) (s s' : Shop) : Type 0 where
  pub fresh : any (is_attempt o.tenant_id o.sale_attempt_id) s.till.orders ≡ false
  pub orders : s'.till.orders ≡ o ∷ s.till.orders
  pub items : s'.order_items ≡ order_items_of o.id lines ++ s.order_items

pub write_sale-none :
    (w : Outside) (o : Order) (lines : List PricedLine) (s : Shop)
    → (write_sale w o lines s).0 ≡ none
    → Written w o lines s (write_sale w o lines s).1
unfolding write_sale create_with_items_pooled create_then_items insert_order
write_sale-none w o lines s h = ground arith

-- The other tables of the till stay as they are, and a pooled write that fails leaves every table.
pub write_sale_shifts :
    (w : Outside) (o : Order) (lines : List PricedLine) (s : Shop)
    → (write_sale w o lines s).1.till.shifts ≡ s.till.shifts
unfolding write_sale create_with_items_pooled create_then_items insert_order
write_sale_shifts w o lines s = ground arith

pub write_sale_orders :
    (w : Outside) (o : Order) (lines : List PricedLine) (s : Shop)
    → ((write_sale w o lines s).1.till.orders ≡ s.till.orders)
      ⊎ ((any (is_attempt o.tenant_id o.sale_attempt_id) s.till.orders ≡ false)
          × ((write_sale w o lines s).1.till.orders ≡ o ∷ s.till.orders))
unfolding write_sale create_with_items_pooled create_then_items insert_order
write_sale_orders w o lines s =
    elim (Bool-cases (any (is_attempt o.tenant_id o.sale_attempt_id) s.till.orders)) [
      | inl e ↦ inl (ground arith)
      | inr e ↦ elim (Bool-cases w.pooled_writes) [
        | inl p ↦ elim (Option-cases (w.insert_items (order_items_of o.id lines))) [
          | inl i ↦ elim (Option-cases (w.post_sales_order o)) [
            | inl q ↦ inr (e, ground arith)
            | inr (m, q) ↦ inl (ground arith)
          ]
          | inr (m, i) ↦ inl (ground arith)
        ]
        | inr p ↦ inr (e, ground arith)
      ]
    ]

insert-OneOrderEach :
    (o : Order) (orders : List Order)
    → any (is_attempt o.tenant_id o.sale_attempt_id) orders ≡ false
    → OneOrderEach orders
    → OneOrderEach (o ∷ orders)
insert-OneOrderEach o orders fresh h tenant attempt =
    let none_before = any-filter_nil (is_attempt o.tenant_id o.sale_attempt_id) orders fresh in
    ground (
      arith,
      h tenant attempt,
      none_before,
      eq_iff o.tenant_id tenant,
      eq_iff o.sale_attempt_id attempt,
    )

pub write_sale-OneOrderEach :
    (w : Outside) (o : Order) (lines : List PricedLine) (s : Shop)
    → OneOrderEach s.till.orders
    → OneOrderEach (write_sale w o lines s).1.till.orders
write_sale-OneOrderEach w o lines s h = elim (write_sale_orders w o lines s) [
  | inl e ↦ λ tenant attempt. rw e (h tenant attempt)
  | inr (fresh, e) ↦
      λ tenant attempt. rw e (insert-OneOrderEach o s.till.orders fresh h tenant attempt)
]

pub write_sale_refused :
    (w : Outside) (o : Order) (lines : List PricedLine) (s : Shop) {e : InsertError}
    → w.pooled_writes ≡ true
    → (write_sale w o lines s).0 ≡ some e
    → (write_sale w o lines s).1 ≡ s
unfolding write_sale create_with_items_pooled create_then_items insert_order
write_sale_refused w o lines s p h = ground arith
