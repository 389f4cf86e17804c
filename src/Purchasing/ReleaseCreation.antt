-- ===== src/Purchasing/ReleaseCreation.antt =====
-- src/modules/purchasing/releases.service.ts and its repository: how a release is created. Of the
-- guards of fn_create_agreement_release (src/database/migrations/138) those that the service has not
-- tested are here: the number of a live release is unique, and a line releases something.
use apiv.Prelude.{
  String, Bool, false, not, ◌&&◌, ◌||◌, Option, none, some, List, [], ◌∷◌, ◌++◌, ◌==◌, Run, Result,
  ok, err, bad_request, database, ◌>>=◌, any, filter, nat_eq, ltb, if◌then◌else◌,
}
use apiv.Purchasing.Agreements.{
  Agreement, AgreementPricing, ReleaseStatus, Release, ReleaseItem, Books, Amendment,
}
use apiv.Purchasing.Releases.{
  ReleaseLine, CreateRelease, is_approved_agreement, at_most_one, is_agreement, validate_overage,
  price_of, is_tier_of, snapshot,
}

abbrev pub result : {A : Type 0} → (Books → Result A) → Run Books A
result f s = (f s, s)

abbrev eligible : Result (Option Agreement) → Result Agreement
eligible (err e) = err e
eligible (ok none) = err (bad_request "Agreement not found")
eligible (ok (some a)) =
    if is_approved_agreement a.status
    then ok a
    else err (bad_request "Cannot create a release for agreement in its status")

unfoldable pub find_agreement : String → String → Books → Result Agreement
find_agreement id tenant s = eligible (at_most_one (filter (is_agreement id tenant) s.agreements))

abbrev is_pricing_of : String → String → AgreementPricing → Bool
is_pricing_of item tenant p = (p.agreement_item_id == item) && (p.tenant_id == tenant)

abbrev priced :
    ReleaseLine
    → String
    → String
    → Agreement
    → Books
    → Result (Option AgreementPricing)
    → Result ReleaseItem
priced line tenant release a s (err e) = err e
priced line tenant release a s (ok none) =
    err (bad_request "No pricing configured for agreement_item")
priced line tenant release a s (ok (some p)) =
    elim (price_of line.released_quantity p (filter (is_tier_of p.id tenant) s.tiers)) [
      | err e ↦ err e
      | ok u ↦ ok (snapshot line tenant release a.currency p u)
    ]

unfoldable pub build_snapshot_line :
    ReleaseLine → String → String → Agreement → Books → Result ReleaseItem
build_snapshot_line line tenant release a s =
    priced line tenant release a s
      (at_most_one (filter (is_pricing_of line.agreement_item_id tenant) s.pricing))

abbrev pub and_line : ReleaseItem → Result (List ReleaseItem) → Result (List ReleaseItem)
and_line i (err e) = err e
and_line i (ok is) = ok (i ∷ is)

abbrev pub line_of :
    String → String → Agreement → Books → ReleaseLine → Result (Unit {0}) → Result ReleaseItem
line_of tenant release a s line (err e) = err e
line_of tenant release a s line (ok u) = build_snapshot_line line tenant release a s

abbrev pub then_lines : Result ReleaseItem → Result (List ReleaseItem) → Result (List ReleaseItem)
then_lines (err e) rest = err e
then_lines (ok i) rest = and_line i rest

-- The loop of `create`: each line is checked against what was approved before this release.
abbrev pub lines_of :
    String → String → Agreement → Books → List ReleaseLine → Result (List ReleaseItem)
lines_of tenant release a s [] = ok []
lines_of tenant release a s (line ∷ lines) =
    let rest = lines_of tenant release a s lines in
    then_lines (line_of tenant release a s line (validate_overage line a tenant s)) rest

abbrev has_number : String → String → Release → Bool
has_number tenant number r =
    (r.tenant_id == tenant) && ((r.release_number == number) && not r.is_deleted)

abbrev is_empty : ReleaseItem → Bool
is_empty i = nat_eq i.released_quantity 0

unfoldable pub insert_release : Release → List ReleaseItem → Run Books Release
insert_release r items s =
    if any (has_number r.tenant_id r.release_number) s.releases || any is_empty items
    then (err database, s)
    else (ok r, record s { releases = r ∷ s.releases; release_items = items ++ s.release_items })

abbrev pub is_amendment_of : String → String → Amendment → Bool
is_amendment_of agreement tenant a =
    (a.agreement_id == agreement) && ((a.tenant_id == tenant) && a.is_approved)

abbrev later : Amendment → Option Amendment → Option Amendment
later a none = some a
later a (some b) = if ltb a.approved_at b.approved_at then some b else some a

-- `order('approved_at', descending)`, `limit(1)`
abbrev pub latest : (Amendment → Bool) → List Amendment → Option Amendment
latest p [] = none
latest p (a ∷ more) = let rest = latest p more in if p a then later a rest else rest

abbrev id_of : Option Amendment → Option String
id_of none = none
id_of (some a) = some a.id

unfoldable pub get_latest_approved_amendment : String → String → Books → Option String
get_latest_approved_amendment agreement tenant s =
    id_of (latest (is_amendment_of agreement tenant) s.amendments)

abbrev pub new_release : String → String → CreateRelease → String → Option String → Release
new_release id tenant dto created_by amendment = record {
  id = id;
  tenant_id = tenant;
  agreement_id = dto.agreement_id;
  release_number = dto.release_number;
  status = ReleaseStatus.draft;
  effective_amendment_id = amendment;
  notes = dto.notes;
  created_by = created_by;
  approved_by = none;
  approved_at = none;
  is_deleted = false;
}

-- The last two calls of `create`, and those from the agreement on.
unfoldable pub create_with :
    String → String → CreateRelease → String → List ReleaseItem → Run Books Release
create_with id tenant dto created_by items = do
  amendment ← result (λ s. ok (get_latest_approved_amendment dto.agreement_id tenant s))
  insert_release (new_release id tenant dto created_by amendment) items

unfoldable pub create_from :
    String → String → CreateRelease → String → Agreement → Run Books Release
create_from id tenant dto created_by a = do
  items ← result (λ s. lines_of tenant id a s dto.items)
  create_with id tenant dto created_by items

unfoldable pub create : String → String → CreateRelease → String → Run Books Release
create id tenant dto created_by = do
  a ← result (find_agreement dto.agreement_id tenant)
  create_from id tenant dto created_by a
