-- ===== src/Expenses/Stats.antt =====
-- `getStats` of src/modules/expenses/expenses.service.ts: the counts and the amounts by status.
use apiv.Prelude.{
  ℕ, String, Bool, true, not, ◌&&◌, Option, none, some, List, ◌==◌, length, filter, truthy,
}
use apiv.Prelude.Int.{ℤ, pos}
use apiv.Till.{ExpenseStatus, Expense, Till}
use apiv.Shifts.Engine.{sum_from}
use apiv.Expenses.Service.{same}

pub record Stats : Type 0 where
  pub total_count : ℕ
  pub total_amount : ℤ
  pub approved_count : ℕ
  pub approved_amount : ℤ
  pub pending_count : ℕ
  pub pending_amount : ℤ
  pub rejected_count : ℕ
  pub rejected_amount : ℤ

-- `if (branchId) …`
abbrev pub at_branch : Option String → Expense → Bool
at_branch branch e = elim (truthy branch) [ none ↦ true | some b ↦ e.branch_id == b ]

abbrev pub in_stats : String → Option String → Expense → Bool
in_stats tenant branch e = (e.tenant_id == tenant) && (not e.is_deleted && at_branch branch e)

abbrev pub with_status : ExpenseStatus → List Expense → List Expense
with_status status rows = filter (λ (e : Expense). same e.status status) rows

unfoldable pub sum : List Expense → ℤ
unfolding sum_from
sum rows = sum_from (λ (e : Expense). e.amount) (pos 0) rows

unfoldable pub get_stats : String → Option String → Till → Stats
unfolding sum
get_stats tenant branch t =
    let all_rows = filter (in_stats tenant branch) t.expenses in
    let approved = with_status ExpenseStatus.approved all_rows in
    let pending = with_status ExpenseStatus.pending all_rows in
    let rejected = with_status ExpenseStatus.rejected all_rows in
    record {
      total_count = length all_rows;
      total_amount = sum approved;
      approved_count = length approved;
      approved_amount = sum approved;
      pending_count = length pending;
      pending_amount = sum pending;
      rejected_count = length rejected;
      rejected_amount = sum rejected;
    }
