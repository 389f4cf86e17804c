-- ===== src/Purchasing/ReleasedQuantities.antt =====
-- What is released of an agreement's items: at the creation of a release, and when releases are approved
-- and rejected.
use mathlib.Core.Path.{subst}
use apiv.Prelude.{
  ℕ, ◌+◌, ◌≤◌, String, Bool, some, List, [], ◌∷◌, ◌==◌, Result, ok, err, filter, All, ◌≡◌, refl, ap,
  ◌∙◌, arith, inl, inr, Bool-cases, Result-cases, eq_iff,
}
use apiv.Prelude.Rules.{bind_ok, bind_err}
use apiv.Purchasing.Agreements.{block, Agreement, AgreementItem, Release, ReleaseItem, Books}
use apiv.Purchasing.Releases.{
  ReleaseLine, CreateRelease, at_most_one, is_item, get_approved_released_quantity, check_item,
  validate_overage,
}
use apiv.Purchasing.ReleaseCreation.{
  find_agreement, lines_of, line_of, then_lines, create, create_with, create_from, result,
}

-- A line of a blocking agreement that passes the check leaves the item within its commitment.
validated :
    (line : ReleaseLine) (a : Agreement) (tenant : String) (s : Books) (i : AgreementItem) (c : ℕ)
    → a.overage_policy ≡ block
    → filter (is_item i.id tenant) s.agreement_items ≡ i ∷ []
    → i.committed_quantity ≡ some c
    → line.agreement_item_id ≡ i.id
    → validate_overage line a tenant s ≡ ok tt
    → line.released_quantity + get_approved_released_quantity i.id tenant s ≤ c
unfolding validate_overage
validated line a tenant s i c blocks row commits e h =
    let n = get_approved_released_quantity line.agreement_item_id tenant s in
    let h1 : check_item a line n (at_most_one (i ∷ [])) ≡ ok tt =
      subst (λ rows. check_item a line n (at_most_one rows) ≡ ok tt) row
        (subst
          (λ k.
            check_item a line n (at_most_one (filter (is_item k tenant) s.agreement_items)) ≡ ok tt)
          e h) in
    let fits : line.released_quantity + n ≤ c = ground (arith, h1, blocks, commits) in
    subst (λ k. line.released_quantity + get_approved_released_quantity k tenant s ≤ c) e fits

then_lines-ok :
    (x : Result ReleaseItem) (rest : Result (List ReleaseItem)) {is : List ReleaseItem}
    → then_lines x rest ≡ ok is
    → (js : List ReleaseItem) × (rest ≡ ok js)
then_lines-ok (err e) rest h = absurd (cc h)
then_lines-ok (ok i) (err e) h = absurd (cc h)
then_lines-ok (ok i) (ok js) h = (js, refl)

line_of-ok :
    (tenant release : String) (a : Agreement) (s : Books) (line : ReleaseLine)
    (u : Result (Unit {0})) (rest : Result (List ReleaseItem)) {is : List ReleaseItem}
    → then_lines (line_of tenant release a s line u) rest ≡ ok is
    → u ≡ ok tt
line_of-ok tenant release a s line (err e) rest h = absurd (cc h)
line_of-ok tenant release a s line (ok tt) rest h = refl

abbrev pub is_line_of : String → ReleaseLine → Bool
is_line_of item line = line.agreement_item_id == item

module _ (tenant release : String) (a : Agreement) (s : Books) (i : AgreementItem) (c : ℕ) where
  abbrev Fits : ReleaseLine → Type 0
  Fits line = line.released_quantity + get_approved_released_quantity i.id tenant s ≤ c

  lines-Fits :
      a.overage_policy ≡ block
      → filter (is_item i.id tenant) s.agreement_items ≡ i ∷ []
      → i.committed_quantity ≡ some c
      → (lines : List ReleaseLine) {items : List ReleaseItem}
      → lines_of tenant release a s lines ≡ ok items
      → All Fits (filter (is_line_of i.id) lines)
  lines-Fits blocks row commits [] h = tt
  lines-Fits blocks row commits (line ∷ lines) h =
      let u = validate_overage line a tenant s in
      let rest = lines_of tenant release a s lines in
      let (js, r) = then_lines-ok (line_of tenant release a s line u) rest h in
      let more = lines-Fits blocks row commits lines r in
      elim (Bool-cases (is_line_of i.id line)) [
        | inl q ↦
            let fits =
              validated line a tenant s i c blocks row commits
                ((eq_iff line.agreement_item_id i.id).0 q)
                (line_of-ok tenant release a s line u rest h) in
            rw q (fits, more)
        | inr q ↦ rw q more
      ]

-- When a release from an agreement that blocks overage is created, each of its lines on an item that
-- the agreement commits, taken alone, fits into what was not yet released by approved releases.
pub create_ok-Fits :
    (id tenant created_by : String) (dto : CreateRelease) (s t : Books) (a : Agreement)
    (i : AgreementItem) (c : ℕ) (r : Release)
    → find_agreement dto.agreement_id tenant s ≡ ok a
    → a.overage_policy ≡ block
    → filter (is_item i.id tenant) s.agreement_items ≡ i ∷ []
    → i.committed_quantity ≡ some c
    → create id tenant dto created_by s ≡ (ok r, t)
    → All
        (λ line. line.released_quantity + get_approved_released_quantity i.id tenant s ≤ c)
        (filter (is_line_of i.id) dto.items)
unfolding create create_from
create_ok-Fits id tenant created_by dto s t a i c r agreed blocks row commits h =
    elim (Result-cases (lines_of tenant id a s dto.items)) [
      | inl (e, q) ↦
          let failed : create id tenant dto created_by s ≡ (err e, s) =
            bind_ok (result (find_agreement dto.agreement_id tenant))
              (create_from id tenant dto created_by) (ap (λ x. (x, s)) agreed)
            ∙ bind_err (result (λ s. lines_of tenant id a s dto.items))
                (create_with id tenant dto created_by) (ap (λ x. (x, s)) q) in
          absurd (cc (failed, h))
      | inr (items, q) ↦ lines-Fits tenant id a s i c blocks row commits dto.items q
    ]
