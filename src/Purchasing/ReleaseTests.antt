-- ===== src/Purchasing/ReleaseTests.antt =====
-- An agreement on ten pieces, and two releases of six that were both created before either was approved.
use apiv.Prelude.Strings.{trim}
use apiv.Prelude.{◌+◌, ◌≤◌, String, false, none, some, [], ◌∷◌, ◌≡◌, refl, All, filter}
use apiv.Prelude.Int.{pos}
use apiv.Purchasing.Approval
use apiv.Purchasing.Agreements.{
  AgreementStatus, block, Agreement, AgreementItem, fixed, AgreementPricing, ReleaseStatus, Release,
  ReleaseItem, Books,
}
use apiv.Purchasing.Releases.{
  CreateRelease, get_approved_released_quantity, validate_overage, price_of,
}
use apiv.Purchasing.ReleaseCreation.{
  create, create_from, create_with, find_agreement, new_release, build_snapshot_line,
  insert_release, get_latest_approved_amendment,
}
use apiv.Purchasing.ReleaseSteps.{approve, reject}
use apiv.Purchasing.ReleasedQuantities.{create_ok-Fits, is_line_of}
use apiv.Purchasing.ReleaseLedger.{approve-released, reject-released}

abbrev agreement : Agreement
agreement = record {
  id = "a1";
  tenant_id = "t1";
  currency = "SAR";
  status = AgreementStatus.approved;
  overage_policy = block;
  is_deleted = false;
}

abbrev ten_pieces : AgreementItem
ten_pieces = record {
  id = "i1";
  tenant_id = "t1";
  agreement_id = "a1";
  committed_quantity = some 10;
}

abbrev price : AgreementPricing
price = record {
  id = "p1";
  tenant_id = "t1";
  agreement_item_id = "i1";
  pricing_type = fixed;
  unit_price = some 500;
  discount_percent = none;
  tax_rate = none;
}

abbrev release : String → ReleaseStatus → Release
release id status = record {
  id = id;
  tenant_id = "t1";
  agreement_id = "a1";
  release_number = id;
  status = status;
  effective_amendment_id = none;
  notes = none;
  created_by = "ana";
  approved_by = none;
  approved_at = none;
  is_deleted = false;
}

abbrev six_pieces : String → ReleaseItem
six_pieces release = record {
  tenant_id = "t1";
  release_id = release;
  agreement_item_id = "i1";
  released_quantity = 6;
  snapshot_unit_price = 500;
  snapshot_discount_percent = 0;
  snapshot_currency = "SAR";
  snapshot_tax_rate = none;
  released_amount = pos 3000;
  source_pricing_tier_id = none;
  notes = none;
}

abbrev books : ReleaseStatus → Books
books status = record {
  agreements = agreement ∷ [];
  agreement_items = ten_pieces ∷ [];
  pricing = price ∷ [];
  tiers = [];
  amendments = [];
  releases = release "r1" status ∷ release "r2" ReleaseStatus.submitted ∷ [];
  release_items = six_pieces "r1" ∷ six_pieces "r2" ∷ [];
  history = [];
}

-- The first release is approved, and six of the ten pieces are released; the second makes twelve.
approve-released_example :
    get_approved_released_quantity "i1" "t1"
      (approve 9 "r2" "t1" "bob" (books ReleaseStatus.approved)).1
    ≡ 6 + 6
unfolding get_approved_released_quantity
approve-released_example =
    approve-released 9 "r2" "t1" "i1" "bob" (release "r2" ReleaseStatus.submitted)
      (books ReleaseStatus.approved) (refl, refl) refl

reject-released_example :
    6
      + get_approved_released_quantity "i1" "t1"
          (reject 9 "r1" "t1" "bob" "late" (books ReleaseStatus.approved)).1
    ≡ 6
unfolding get_approved_released_quantity Approval.reject trim
reject-released_example =
    reject-released 9 "r1" "t1" "i1" "bob" (release "r1" ReleaseStatus.approved)
      (books ReleaseStatus.approved) "late"
      (record {
        status = Approval.ApprovalOutcome.rejected;
        resolved_at = 9;
        resolved_by = "bob";
        reason = some "late";
      })
      (refl, refl) refl refl

abbrev order_of_six : CreateRelease
order_of_six = record {
  agreement_id = "a1";
  release_number = "R-3";
  notes = none;
  items = record { agreement_item_id = "i1"; released_quantity = 6; notes = none } ∷ [];
}

create_ok-Fits_example :
    All
      (λ line.
        line.released_quantity
          + get_approved_released_quantity ten_pieces.id "t1" (books ReleaseStatus.submitted)
        ≤ 10)
      (filter (is_line_of "i1") order_of_six.items)
unfolding find_agreement create create_from validate_overage get_approved_released_quantity
    build_snapshot_line price_of create_with insert_release get_latest_approved_amendment
create_ok-Fits_example =
    create_ok-Fits "r3" "t1" "ana" order_of_six (books ReleaseStatus.submitted)
      (create "r3" "t1" order_of_six "ana" (books ReleaseStatus.submitted)).1 agreement ten_pieces
      10 (new_release "r3" "t1" order_of_six "ana" none) refl refl refl refl refl
