-- ===== src/Purchasing/ReleaseLedger.antt =====
-- How the approved quantity of an item moves: a release counts from its approval on, and no longer when
-- it is rejected.
use apiv.Prelude.{
  ℕ, ◌+◌, String, Bool, true, not, none, [], ◌∷◌, ok, ◌>>=◌, filter, update, ◌≡◌, refl, sym, ap,
  ◌∙◌, arith, throw_if, ◌>>◌,
}
use apiv.Prelude.Rules.{bind_ok}
use apiv.Purchasing.Approval
use apiv.Purchasing.Approval.{ApprovalResult, can_approve, can_reject}
use apiv.Purchasing.Agreements.{ReleaseStatus, Release, Books}
use apiv.Purchasing.Releases.{same, is_released, get_approved_released_quantity}
use apiv.Purchasing.ReleaseCounts.{
  filter_one, has_id, is_approved_id-other, is_approved_id-own, is_approved_id-one, sum_more,
  quantity_of,
}
use apiv.Purchasing.ReleaseCreation.{result}
use apiv.Purchasing.ReleaseSteps.{
  is_row, is_live, is_at, find_by_id, write_one, recorded, not_approvable, not_rejectable, approve,
  approved_row, reject, rejected_row,
}

-- The tenant's release with the id, which is not deleted; no other row has the id.
abbrev pub IsTheOne : String → String → Release → Books → Type 0
IsTheOne id tenant r s = (filter (has_id id) s.releases ≡ r ∷ []) × (is_live id tenant r ≡ true)

find_by_id-one :
    (id tenant : String) (r : Release) (s : Books)
    → IsTheOne id tenant r s
    → find_by_id id tenant s ≡ (ok r, s)
unfolding find_by_id
find_by_id-one id tenant r s (row, live) =
    rw (filter_one (has_id id) (is_live id tenant) s.releases (λ x h. ground (arith, h)) row live)
      refl

write_one-one :
    (id : String) (p : Release → Bool) (f : Release → Release) (r : Release) (s : Books)
    → ((x : Release) → p x ≡ true → has_id id x ≡ true)
    → filter (has_id id) s.releases ≡ r ∷ []
    → p r ≡ true
    → write_one p f s ≡ (ok (f r), record s { releases = update p f s.releases })
unfolding write_one
write_one-one id p f r s own row m =
    rw (filter_one (has_id id) p s.releases own row m, write_one) refl

module _ (now : ℕ) (id tenant item actor : String) (r : Release) (s : Books) where
  abbrev own_quantity : ℕ
  own_quantity = quantity_of id (is_released item tenant) s.release_items

  -- Approving the tenant's submitted release adds its lines to what is released of an item, whatever the
  -- agreement still has to give: the quantity is not checked again.
  pub approve-released :
      IsTheOne id tenant r s
      → r.status ≡ ReleaseStatus.submitted
      → get_approved_released_quantity item tenant (approve now id tenant actor s).1
        ≡ own_quantity + get_approved_released_quantity item tenant s
  unfolding approve get_approved_released_quantity can_approve recorded
  approve-released one submitted =
      let p = is_at ReleaseStatus.submitted id tenant in
      let f = approved_row (Approval.approve now actor) in
      let own : (x : Release) → p x ≡ true → has_id id x ≡ true = λ x h. ground (arith, h) in
      let m : p r ≡ true = ground (arith, one.1, submitted) in
      let rs = update p f s.releases in
      let written = write_one-one id p f r s own one.0 m in
      let next =
        λ (o : Release). recorded id tenant "approved" actor o.status ReleaseStatus.approved none in
      let e =
        bind_ok (find_by_id id tenant)
          (λ o.
            throw_if (not (can_approve same o.status ReleaseStatus.submitted)) not_approvable
            >> (write_one p f >>= next o))
          (find_by_id-one id tenant r s one)
        ∙ bind_ok
            (throw_if (not (can_approve same r.status ReleaseStatus.submitted)) not_approvable)
            (λ _. write_one p f >>= next r) (rw submitted refl)
        ∙ bind_ok (write_one p f) (next r) written in
      ap (λ x. get_approved_released_quantity item tenant x.1) e
      ∙ sum_more id (is_released item tenant) s.releases rs s.release_items
          (λ k ne. is_approved_id-other id p f own (λ _. refl) k s.releases ne)
          (is_approved_id-one id s.releases one.0 ∙ rw submitted refl)
          (is_approved_id-own id p f own (λ _. refl) s.releases one.0 m)

  -- Rejecting the tenant's approved release, with a reason, takes its lines out of what is released of an
  -- item.
  pub reject-released :
      (reason : String) (decision : ApprovalResult)
      → IsTheOne id tenant r s
      → r.status ≡ ReleaseStatus.approved
      → Approval.reject now actor reason ≡ ok decision
      → own_quantity
          + get_approved_released_quantity item tenant (reject now id tenant actor reason s).1
        ≡ get_approved_released_quantity item tenant s
  unfolding reject get_approved_released_quantity can_reject recorded
  reject-released reason decision one approved decided =
      let p = is_row id tenant in
      let f = rejected_row r decision in
      let own : (x : Release) → p x ≡ true → has_id id x ≡ true = λ x h. ground (arith, h) in
      let m : p r ≡ true = ground (arith, one.1) in
      let rs = update p f s.releases in
      let written = write_one-one id p f r s own one.0 m in
      let closed = λ (o : Release) (d : ApprovalResult).
        write_one p (rejected_row o d)
        >>= recorded id tenant "rejected" actor o.status ReleaseStatus.rejected d.reason in
      let decide = λ (o : Release). result (λ _. Approval.reject now actor reason) >>= closed o in
      let refused = λ (o : Release).
        not (can_reject same o.status ReleaseStatus.submitted ReleaseStatus.approved) in
      let e =
        bind_ok (find_by_id id tenant) (λ o. throw_if (refused o) not_rejectable >> decide o)
          (find_by_id-one id tenant r s one)
        ∙ bind_ok (throw_if (refused r) not_rejectable) (λ _. decide r) (rw approved refl)
        ∙ bind_ok (result (λ _. Approval.reject now actor reason)) (closed r)
            (ap (λ x. (x, s)) decided)
        ∙ bind_ok (write_one p f)
            (recorded id tenant "rejected" actor r.status ReleaseStatus.rejected decision.reason)
            written in
      ap (λ x. own_quantity + get_approved_released_quantity item tenant x.1) e
      ∙ sym (
          sum_more id (is_released item tenant) rs s.releases s.release_items
            (λ k ne. sym (is_approved_id-other id p f own (λ _. refl) k s.releases ne))
            (is_approved_id-own id p f own (λ _. refl) s.releases one.0 m)
            (is_approved_id-one id s.releases one.0 ∙ rw approved refl))
