-- ===== src/Purchasing/Tests.antt =====
-- One draft order.
use apiv.Prelude.{false, none, List, [], ◌∷◌}
use apiv.Prelude.Rules.{All2}
use apiv.Purchasing.Approval
use apiv.Purchasing.Orders.{Status, PurchaseOrder, Store}
use apiv.Purchasing.Requests.{
  Request, submitting, approving, rejecting, cancelling, serve_all, Reaches, serve_all-Reaches,
}

abbrev order : PurchaseOrder
order = record {
  id = "p1";
  tenant_id = "t1";
  order_number = "PO-1";
  status = Status.draft;
  expected_date = none;
  notes = none;
  created_by = "ana";
  approved_by = none;
  approved_at = none;
  is_deleted = false;
}

abbrev store : Store
store = record { orders = order ∷ []; history = [] }

abbrev requests : List Request
requests =
    approving 1 "p1" "t1" "bob"
    ∷ submitting "p1" "t1"
    ∷ approving 2 "p1" "t1" "bob"
    ∷ rejecting 3 "p1" "t1" "bob" "late"
    ∷ cancelling "p1" "t1"
    ∷ []

serve_all-Reaches_example : All2 Reaches store.orders (serve_all requests store).orders
serve_all-Reaches_example = serve_all-Reaches requests store
