-- ===== src/Expenses/Drawer.antt =====
-- An approved expense and the session that it belongs to: the drawer should hold that much less.
use mathlib.Core.Path.{subst}
use apiv.Prelude.{
  ℕ, String, Bool, true, false, some, List, [], ◌∷◌, ◌≡◌, refl, sym, ap, ◌∙◌, inl, inr, arith, ok,
  filter, update, Bool-cases, eq_refl,
}
use apiv.Prelude.Int.{ℤ, ◌+ℤ◌, ◌-ℤ◌}
use apiv.Prelude.Sums.{parts_injective, parts-add, parts-minus}
use apiv.Prelude.Filters.{filter-fits}
use apiv.Till.{ExpenseStatus, Expense, Till}
use apiv.Purchasing.Approval
use apiv.Purchasing.Approval.{can_approve}
use apiv.Shifts.Engine.{is_approved, build_shift_summary}
use apiv.Shifts.Repository.{is_shift_expense, get_shift_invoices, get_shift_expenses}
use apiv.Shifts.Counts.{total_of, expected_cash_lem}
use apiv.Expenses.Service.{same, is_expired, is_row, approved_row, approve}
use apiv.Expenses.Approvals.{Approved, approve-Approved}

swap : (a b c : ℤ) → a +ℤ (b +ℤ c) ≡ b +ℤ (a +ℤ c)
swap a b c =
    parts_injective _ _
      (omega (arith, parts-add a (b +ℤ c), parts-add b c, parts-add b (a +ℤ c), parts-add a c))

abbrev pub amount_of : Expense → ℤ
amount_of e = e.amount

-- The approved expenses of a session.
abbrev spent : String → String → List Expense → ℤ
spent shift tenant rows =
    total_of amount_of (filter is_approved (filter (is_shift_expense shift tenant) rows))

update_none :
    (p : Expense → Bool) (f : Expense → Expense) (rows : List Expense)
    → filter p rows ≡ []
    → update p f rows ≡ rows
update_none p f [] h = refl
update_none p f (x ∷ xs) h = elim (Bool-cases (p x)) [
  | inl e ↦ absurd (cc (rw e at h))
  | inr e ↦ rw e (ap (λ ys. x ∷ ys) (update_none p f xs (rw e at h)))
]

head_tail : {x y : Expense} {xs ys : List Expense} → x ∷ xs ≡ y ∷ ys → (x ≡ y) × (xs ≡ ys)
head_tail h = (cc, cc)

-- A row that stays.
kept :
    (shift tenant : String) (a : ℤ) (x : Expense) (xs ys : List Expense)
    → spent shift tenant ys ≡ a +ℤ spent shift tenant xs
    → spent shift tenant (x ∷ ys) ≡ a +ℤ spent shift tenant (x ∷ xs)
kept shift tenant a x xs ys h = elim (Bool-cases (is_shift_expense shift tenant x)) [
  | inl q ↦ elim (Bool-cases (is_approved x)) [
    | inl r ↦ rw (q, r) (ap (λ (b : ℤ). x.amount +ℤ b) h ∙ swap x.amount a (spent shift tenant xs))
    | inr r ↦ rw (q, r) h
  ]
  | inr q ↦ rw q h
]

module _ (shift tenant : String) (p : Expense → Bool) (f : Expense → Expense) (e : Expense)
    (in_shift : is_shift_expense shift tenant e ≡ true)
    (new_in_shift : is_shift_expense shift tenant (f e) ≡ true) (was_open : is_approved e ≡ false)
    (is_now : is_approved (f e) ≡ true) (same_amount : (f e).amount ≡ e.amount) where
  spent_here :
      (xs : List Expense)
      → filter p xs ≡ []
      → spent shift tenant (f e ∷ update p f xs) ≡ e.amount +ℤ spent shift tenant (e ∷ xs)
  spent_here xs h =
      rw (update_none p f xs h, in_shift, new_in_shift, was_open, is_now, same_amount) refl

  -- The one row that is written comes to what was spent.
  spent_more :
      (rows : List Expense)
      → filter p rows ≡ e ∷ []
      → spent shift tenant (update p f rows) ≡ e.amount +ℤ spent shift tenant rows
  spent_more [] h = absurd (cc)
  spent_more (x ∷ xs) h = elim (Bool-cases (p x)) [
    | inl q ↦
        let (first, rest) = head_tail (rw q at h) in
        rw q (
          subst
            (λ (y : Expense).
              spent shift tenant (f y ∷ update p f xs) ≡ e.amount +ℤ spent shift tenant (y ∷ xs))
            (sym first) (spent_here xs rest))
    | inr q ↦ rw q (kept shift tenant e.amount x xs (update p f xs) (spent_more xs (rw q at h)))
  ]

-- The cash that the summary of a session expects.
abbrev pub expected_cash : String → String → ℤ → ℤ → Till → ℤ
expected_cash shift tenant opening closing t =
    (build_shift_summary opening closing (get_shift_invoices shift tenant t)
      (get_shift_expenses shift tenant t)).expected_cash

less : (a b c d : ℤ) → d ≡ c +ℤ b → (a -ℤ d) +ℤ c ≡ a -ℤ b
less a b c d h = rw h (
    parts_injective _ _ (
      omega (
        arith,
        parts-add (a -ℤ (c +ℤ b)) c,
        parts-minus a (c +ℤ b),
        parts-add c b,
        parts-minus a b,
      )))

in_session :
    (shift tenant id : String) (e : Expense)
    → e.shift_id ≡ some shift
    → is_row id tenant e ≡ true
    → is_shift_expense shift tenant e ≡ true
in_session shift tenant id e h row = rw h (ground (arith, row, eq_refl shift))

not_yet : (e : Expense) → same e.status ExpenseStatus.pending ≡ true → is_approved e ≡ false
not_yet e h = ground (arith, h)

drawer_less :
    (now : ℕ) (id tenant actor shift : String) (opening closing : ℤ) (t : Till) {e e' : Expense}
    {t' : Till}
    → Approved now id tenant actor t e e' t'
    → e'.shift_id ≡ some shift
    → expected_cash shift tenant opening closing t' +ℤ e'.amount
      ≡ expected_cash shift tenant opening closing t
unfolding get_shift_invoices get_shift_expenses
drawer_less now id tenant actor shift opening closing t {e} {e'} a of_shift =
    let write = approved_row (Approval.approve now actor) in
    let e_of_shift : e.shift_id ≡ some shift =
      sym (ap (λ (x : Expense). x.shift_id) a.result) ∙ of_shift in
    let in_shift =
      in_session shift tenant id e e_of_shift (filter-fits (is_row id tenant) t.expenses a.row) in
    let more =
      spent_more shift tenant (is_row id tenant) write e in_shift in_shift (not_yet e a.at_pending)
        refl refl t.expenses a.row in
    rw (a.written, a.result, expected_cash_lem, expected_cash_lem) (less _ _ _ _ more)

-- An approval of an expense of a session that succeeds was one of a pending expense in its time, and
-- the drawer of the session is expected to hold the amount of the expense less than before.
pub approve-expected_cash :
    (now : ℕ) (id tenant actor shift : String) (opening closing : ℤ) (t : Till) {e' : Expense}
    → (approve now id tenant actor t).0 ≡ ok e'
    → e'.shift_id ≡ some shift
    → let t' = (approve now id tenant actor t).1 in
      (e : Expense) × (filter (is_row id tenant) t.expenses ≡ e ∷ [])
      × (same e.status ExpenseStatus.pending ≡ true)
      × (is_expired now e.expires_at ≡ false)
      × (expected_cash shift tenant opening closing t' +ℤ e'.amount
          ≡ expected_cash shift tenant opening closing t)
unfolding get_shift_invoices get_shift_expenses
approve-expected_cash now id tenant actor shift opening closing t {e'} h of_shift =
    let (e, a) = approve-Approved now id tenant actor t h in
    (
      e,
      a.row,
      a.at_pending,
      a.in_time,
      drawer_less now id tenant actor shift opening closing t a of_shift,
    )
