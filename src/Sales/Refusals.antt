-- ===== src/Sales/Refusals.antt =====
-- Sales that are refused, and the points that a late failure costs.
use mathlib.Core.Path.{subst}
use apiv.Prelude.{
  true, Option, none, some, ◌≡◌, ◌⊎◌, refl, sym, ap, ◌∙◌, inl, inr, Result, Error, ok, err,
  Result-cases,
}
use apiv.Sales.Tables.{CreateInvoiceDto, Shop, Outside}
use apiv.Sales.Orders.{InsertError, write_sale}
use apiv.Sales.Checkout.{Caller, Sale, prepare}
use apiv.Sales.Create.{Created, order_of, redeem_for, settle, commit, create}
use apiv.Sales.Writes.{write_sale_refused}
use apiv.Sales.Sold.{
  with_prices, with_customers, create_refused, create_commits, commit_refused, commit-written,
}

-- What a refused sale may have changed, from `s` to `s'`.
pub record Untouched (c : Caller) (dto : CreateInvoiceDto) (s s' : Shop) : Type 0 where
  pub till : s'.till ≡ s.till
  pub items : s'.order_items ≡ s.order_items
  pub audits : s'.override_audits ≡ s.override_audits
  pub coupons : s'.coupons ≡ s.coupons
  pub points : (s'.customers ≡ s.customers) ⊎ (redeem_for c dto s.customers ≡ ok s'.customers)

settle_err :
    (w : Outside) (c : Caller) (dto : CreateInvoiceDto) (sale : Sale) (f : Option InsertError)
    (u : Shop) {e : Error}
    → (settle w c dto sale f u).0 ≡ err e
    → ((x : InsertError) × (f ≡ some x)) × ((settle w c dto sale f u).1 ≡ u)
unfolding settle
settle_err w c dto sale (some x) u h = ((x, refl), refl)
settle_err w c dto sale none u h = absurd (cc)

commit_refused-Untouched :
    (w : Outside) (c : Caller) (dto : CreateInvoiceDto) (sale : Sale) (s : Shop) {e : Error}
    → w.pooled_writes ≡ true
    → (commit w c dto sale s).0 ≡ err e
    → Untouched c dto s (commit w c dto sale s).1
commit_refused-Untouched w c dto sale s {e} pooled h =
    elim (Result-cases (redeem_for c dto s.customers)) [
      | inl (x, q) ↦
          subst (λ (p : Result Created × Shop). Untouched c dto s p.1)
            (sym (commit_refused w c dto sale s x q))
            (record { till = refl; items = refl; audits = refl; coupons = refl; points = inl refl })
      | inr (customers, q) ↦
          let u = with_customers customers s in
          let same = commit-written w c dto sale s customers q in
          let written = write_sale w (order_of w c dto sale) sale.lines u in
          let failed =
            settle_err w c dto sale written.0 written.1
              (subst (λ (p : Result Created × Shop). p.0 ≡ err e) same h) in
          let kept = write_sale_refused w (order_of w c dto sale) sale.lines u pooled failed.0.1 in
          subst (Untouched c dto s)
            (sym (ap (λ (p : Result Created × Shop). p.1) same ∙ (failed.1 ∙ kept)))
            (record { till = refl; items = refl; audits = refl; coupons = refl; points = inr q })
    ]

-- With pooled writes, a call of `create` that fails at any step stores no order, item, override audit,
-- audit entry or use of a coupon. The customers are as before, or as the redemption of the request's
-- points left them.
pub create_refused_lem :
    (w : Outside) (c : Caller) (dto : CreateInvoiceDto) (s : Shop) {e : Error}
    → w.pooled_writes ≡ true
    → (create w c dto s).0 ≡ err e
    → Untouched c dto s (create w c dto s).1
create_refused_lem w c dto s {e} pooled h = elim (Result-cases (prepare w c dto s).0) [
  | inl (x, q) ↦
      subst (λ (p : Result Created × Shop). Untouched c dto s p.1)
        (sym (create_refused w c dto s x q))
        (record { till = refl; items = refl; audits = refl; coupons = refl; points = inl refl })
  | inr (sale, q) ↦
      let t = with_prices (prepare w c dto s).1 s in
      let same = create_commits w c dto s sale q in
      let kept =
        commit_refused-Untouched w c dto sale t pooled
          (subst (λ (p : Result Created × Shop). p.0 ≡ err e) same h) in
      subst (λ (p : Result Created × Shop). Untouched c dto s p.1) (sym same)
        (record {
          till = kept.till;
          items = kept.items;
          audits = kept.audits;
          coupons = kept.coupons;
          points = kept.points;
        })
]
