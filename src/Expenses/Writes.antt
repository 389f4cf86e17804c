-- ===== src/Expenses/Writes.antt =====
-- What a write does to the rows of the expenses: a status stays, or moves along the diagram of an
-- expense's life.
use mathlib.Core.Path.{subst}
use apiv.Prelude.{
  ◌≤◌, String, true, ◌&&◌, Option, List, [], ◌∷◌, ◌==◌, ◌≡◌, ◌⊎◌, refl, sym, ap, ◌∙◌, inl, inr,
  arith, Run, ok, length, filter, maybe_single, ◌>>=◌, Option-cases, Bool-cases,
}
use apiv.Prelude.Filters.{filter-and, filter-length_le, filter_of_one, filter_same_row}
use apiv.Prelude.Rules.{bind_keeps, All2, All2-same, All2-update_one}
use apiv.Till.{ExpenseStatus, Expense, Till}
use apiv.Expenses.Service.{
  is_allowed, is_row, is_kept, found, find_one, write_one, expired_row, mark_expired,
}

infix 40 ◌⟶◌
pub data ◌⟶◌ : ExpenseStatus → ExpenseStatus → Type 0 where
  accept : ExpenseStatus.pending ⟶ ExpenseStatus.approved
  refuse : ExpenseStatus.pending ⟶ ExpenseStatus.rejected
  lapse : ExpenseStatus.pending ⟶ ExpenseStatus.expired
  drop : ExpenseStatus.pending ⟶ ExpenseStatus.cancelled
  reverse : ExpenseStatus.approved ⟶ ExpenseStatus.rejected

-- A row keeps all but its decision, and its status stays or follows an edge.
pub record Moves (e e' : Expense) : Type 0 where
  pub same_id : e'.id ≡ e.id
  pub same_tenant : e'.tenant_id ≡ e.tenant_id
  pub same_shift : e'.shift_id ≡ e.shift_id
  pub same_amount : e'.amount ≡ e.amount
  pub status : (e'.status ≡ e.status) ⊎ (e.status ⟶ e'.status)

-- The edge from the status that a row has.
pub from : {a b s : ExpenseStatus} → s ≡ a → a ⟶ b → s ⟶ b
from {b} h edge = subst (λ x. x ⟶ b) (sym h) edge

pub stays : (e : Expense) → Moves e e
stays e = record {
  same_id = refl;
  same_tenant = refl;
  same_shift = refl;
  same_amount = refl;
  status = inl refl;
}

abbrev pub RowsMove : Till → Till → Type 0
RowsMove t t' = All2 Moves t.expenses t'.expenses

pub rows_stay : (t : Till) → RowsMove t t
rows_stay t = All2-same Moves stays t.expenses

-- The id is a primary key.
abbrev pub Keyed : List Expense → Type 0
Keyed rows = (id : String) → length (filter (λ (e : Expense). e.id == id) rows) ≤ 1

-- The row of an id and a tenant, deleted or not.
abbrev pub Found : String → String → Expense → Till → Type 0
Found id tenant e t = filter (λ (x : Expense). is_row id tenant x && is_kept x) t.expenses ≡ e ∷ []

pub found-ok :
    (rows : List Expense) {e : Expense} → found (maybe_single rows) ≡ ok e → rows ≡ e ∷ []
found-ok [] h = absurd (cc)
found-ok (x ∷ []) h = cc
found-ok (x ∷ y ∷ rows) h = absurd (cc)

pub maybe_single-some :
    (rows : List Expense) {e : Expense} → maybe_single rows ≡ Option.some e → rows ≡ e ∷ []
maybe_single-some [] h = absurd (cc)
maybe_single-some (x ∷ []) h = cc
maybe_single-some (x ∷ y ∷ rows) h = absurd (cc)

-- The first call of each operation.
pub find_one_keeps :
    {B : Type 0} (id tenant : String) (k : Expense → Run Till B) (t : Till)
    → ((e : Expense) → Found id tenant e t → RowsMove t (k e t).1)
    → RowsMove t ((find_one id tenant >>= k) t).1
unfolding find_one
find_one_keeps id tenant k t h =
    bind_keeps (RowsMove t) (find_one id tenant) k t (λ e q. rows_stay t)
      (λ e q. h e (found-ok _ q))

pub write_one-Moves :
    (id tenant : String) (f : Expense → Expense) (e : Expense) (t : Till)
    → Found id tenant e t
    → (is_allowed t.allows_cancelled (f e).status ≡ true → Moves e (f e))
    → RowsMove t (write_one id tenant f t).1
unfolding write_one
write_one-Moves id tenant f e t live move =
    elim (Option-cases (maybe_single (filter (is_row id tenant) t.expenses))) [
      | inl q ↦ rw (write_one, q) (rows_stay t)
      | inr (x, q) ↦
          let row = maybe_single-some (filter (is_row id tenant) t.expenses) q in
          let same_x = filter_same_row (is_row id tenant) is_kept t.expenses row live in
          elim (Bool-cases (is_allowed t.allows_cancelled (f x).status)) [
            | inl a ↦
                rw (write_one, q, a)
                  (All2-update_one Moves stays (is_row id tenant) f t.expenses x row (
                    subst
                      (λ (y : Expense).
                        is_allowed t.allows_cancelled (f y).status ≡ true → Moves y (f y))
                      (sym same_x) move a))
            | inr a ↦ rw (write_one, q, a) (rows_stay t)
          ]
    ]

-- With a primary key, the row of an id that is kept is the only row of the id.
only_row :
    (id tenant : String) (e : Expense) (t : Till)
    → Keyed t.expenses
    → Found id tenant e t
    → filter (is_row id tenant) t.expenses ≡ e ∷ []
only_row id tenant e t keyed live =
    let tenant_rows =
      filter-length_le (λ (x : Expense). x.tenant_id == tenant)
        (filter (λ (x : Expense). x.id == id) t.expenses) in
    let split =
      filter-and (λ (x : Expense). x.id == id) (λ (x : Expense). x.tenant_id == tenant)
        t.expenses in
    filter_of_one is_kept (filter (is_row id tenant) t.expenses)
      (omega (arith, keyed id, tenant_rows, ap (λ (xs : List Expense). length xs) split))
      (sym (filter-and (is_row id tenant) is_kept t.expenses) ∙ live)

pub mark_expired-Moves :
    (id tenant : String) (e : Expense) (t : Till)
    → Keyed t.expenses
    → Found id tenant e t
    → e.status ≡ ExpenseStatus.pending
    → RowsMove t (mark_expired id tenant t).1
unfolding mark_expired
mark_expired-Moves id tenant e t keyed live at_pending =
    All2-update_one Moves stays (is_row id tenant) expired_row t.expenses e
      (only_row id tenant e t keyed live)
      (record {
        same_id = refl;
        same_tenant = refl;
        same_shift = refl;
        same_amount = refl;
        status = inr (from at_pending lapse);
      })

ids_as_before :
    (id : String) (xs ys : List Expense)
    → All2 Moves xs ys
    → length (filter (λ (e : Expense). e.id == id) ys)
      ≡ length (filter (λ (e : Expense). e.id == id) xs)
ids_as_before id [] [] m = refl
ids_as_before id (x ∷ xs) (y ∷ ys) m = rw (m.0.same_id) (ground (arith, ids_as_before id xs ys m.1))
ids_as_before id [] (y ∷ ys) m = absurd m
ids_as_before id (x ∷ xs) [] m = absurd m

-- The keys are as before where the rows moved.
pub RowsMove-Keyed : (xs ys : List Expense) → All2 Moves xs ys → Keyed xs → Keyed ys
RowsMove-Keyed xs ys m keyed id = omega (arith, keyed id, ids_as_before id xs ys m)
