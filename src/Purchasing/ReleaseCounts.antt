-- ===== src/Purchasing/ReleaseCounts.antt =====
-- Counting the lines of approved releases when the row of one release is written.
use mathlib.Core.Path.{subst}
use apiv.Prelude.{
  ℕ, ◌+◌, String, Bool, true, false, ◌&&◌, List, [], ◌∷◌, ◌==◌, filter, update, ◌≡◌, refl, sym, ap,
  ◌∙◌, arith, inl, inr, Bool-cases, eq_iff, if◌then◌else◌,
}
use apiv.Purchasing.Agreements.{ReleaseStatus, Release, ReleaseItem}
use apiv.Purchasing.Releases.{same, is_approved_id, sum_approved}

filter_none :
    {A : Type 0} (p q : A → Bool) (xs : List A)
    → ((x : A) → q x ≡ true → p x ≡ true)
    → filter p xs ≡ []
    → filter q xs ≡ []
filter_none p q [] h e = refl
filter_none p q (x ∷ xs) h e = ground (arith, h x, e, filter_none p q xs h)

-- The one row of a condition is the one row of a stronger condition that it meets.
pub filter_one :
    {A : Type 0} (p q : A → Bool) (xs : List A) {r : A}
    → ((x : A) → q x ≡ true → p x ≡ true)
    → filter p xs ≡ r ∷ []
    → q r ≡ true
    → filter q xs ≡ r ∷ []
filter_one p q [] h e m = absurd (cc e)
filter_one p q (x ∷ xs) {r} h e m = elim (Bool-cases (p x)) [
  | inl g ↦
      let e' : x ∷ filter p xs ≡ r ∷ [] = rw g at e in
      let same_row : x ≡ r = cc e' in
      let none_more : filter p xs ≡ [] = cc e' in
      let met : q x ≡ true = ap q same_row ∙ m in
      rw met (cc (same_row, filter_none p q xs h none_more))
  | inr g ↦
      let unmet : q x ≡ false = ground (arith, h x, g) in
      rw unmet (filter_one p q xs h (rw g at e) m)
]

abbrev pub has_id : String → Release → Bool
has_id id r = r.id == id

is_approved_id-none :
    (id : String) (xs : List Release) → filter (has_id id) xs ≡ [] → is_approved_id id xs ≡ false
is_approved_id-none id [] e = refl
is_approved_id-none id (x ∷ xs) e = ground (arith, e, is_approved_id-none id xs)

update_none :
    (id : String) (p : Release → Bool) (f : Release → Release) (xs : List Release)
    → ((x : Release) → p x ≡ true → has_id id x ≡ true)
    → filter (has_id id) xs ≡ []
    → update p f xs ≡ xs
update_none id p f [] h e = refl
update_none id p f (x ∷ xs) h e = ground (arith, h x, e, update_none id p f xs h)

-- A write to the one release with an id decides whether that is approved, and no other.
module _ (id : String) (p : Release → Bool) (f : Release → Release)
    (own : (x : Release) → p x ≡ true → has_id id x ≡ true)
    (keeps : (x : Release) → (f x).id ≡ x.id) where
  pub is_approved_id-other :
      (k : String) (xs : List Release)
      → (id == k) ≡ false
      → is_approved_id k (update p f xs) ≡ is_approved_id k xs
  is_approved_id-other k [] ne = refl
  is_approved_id-other k (x ∷ xs) ne = ground (
    arith,
    own x,
    keeps x,
    ne,
    is_approved_id-other k xs ne,
    eq_iff x.id id,
    eq_iff x.id k,
    eq_iff id k,
  )

  pub is_approved_id-own :
      (xs : List Release) {r : Release}
      → filter (has_id id) xs ≡ r ∷ []
      → p r ≡ true
      → is_approved_id id (update p f xs) ≡ same (f r).status ReleaseStatus.approved
  is_approved_id-own [] e m = absurd (cc e)
  is_approved_id-own (x ∷ xs) {r} e m = elim (Bool-cases (has_id id x)) [
    | inl g ↦
        let e' : x ∷ filter (has_id id) xs ≡ r ∷ [] = rw g at e in
        let same_row : x ≡ r = cc e' in
        let none_more : filter (has_id id) xs ≡ [] = cc e' in
        let met : p x ≡ true = ap p same_row ∙ m in
        let status : same (f x).status ReleaseStatus.approved
            ≡ same (f r).status ReleaseStatus.approved =
          ap (λ (y : Release). same (f y).status ReleaseStatus.approved) same_row in
        ground (
          arith,
          met,
          g,
          keeps x,
          status,
          update_none id p f xs own none_more,
          is_approved_id-none id xs none_more,
        )
    | inr g ↦ ground (arith, own x, g, is_approved_id-own xs (rw g at e) m)
  ]

pub is_approved_id-one :
    (id : String) (xs : List Release) {r : Release}
    → filter (has_id id) xs ≡ r ∷ []
    → is_approved_id id xs ≡ same r.status ReleaseStatus.approved
is_approved_id-one id [] e = absurd (cc e)
is_approved_id-one id (x ∷ xs) {r} e = elim (Bool-cases (has_id id x)) [
  | inl g ↦
      let e' : x ∷ filter (has_id id) xs ≡ r ∷ [] = rw g at e in
      let same_row : x ≡ r = cc e' in
      let none_more : filter (has_id id) xs ≡ [] = cc e' in
      let status : same x.status ReleaseStatus.approved ≡ same r.status ReleaseStatus.approved =
        ap (λ (y : Release). same y.status ReleaseStatus.approved) same_row in
      ground (arith, g, status, is_approved_id-none id xs none_more)
  | inr g ↦ ground (arith, g, is_approved_id-one id xs (rw g at e))
]

-- What the lines of one release release of an item.
abbrev pub quantity_of : String → (ReleaseItem → Bool) → List ReleaseItem → ℕ
quantity_of id p [] = 0
quantity_of id p (i ∷ is) =
    let rest = quantity_of id p is in
    if p i && (i.release_id == id) then i.released_quantity + rest else rest

-- Of two lists of releases that agree on all but one, where it is approved in the second alone.
pub sum_more :
    (id : String) (p : ReleaseItem → Bool) (rs rs' : List Release) (is : List ReleaseItem)
    → ((k : String) → (id == k) ≡ false → is_approved_id k rs' ≡ is_approved_id k rs)
    → is_approved_id id rs ≡ false
    → is_approved_id id rs' ≡ true
    → sum_approved p rs' is ≡ quantity_of id p is + sum_approved p rs is
sum_more id p rs rs' [] others before after = refl
sum_more id p rs rs' (i ∷ is) others before after =
    let rest = sum_more id p rs rs' is others before after in
    elim (Bool-cases (id == i.release_id)) [
      | inl q ↦
          let e = (eq_iff id i.release_id).0 q in
          let b : is_approved_id i.release_id rs ≡ false =
            subst (λ k. is_approved_id k rs ≡ false) e before in
          let a : is_approved_id i.release_id rs' ≡ true =
            subst (λ k. is_approved_id k rs' ≡ true) e after in
          ground (arith, rest, b, a, eq_iff i.release_id id, sym e)
      | inr q ↦
          ground
            (arith, rest, others i.release_id q, q, eq_iff i.release_id id, eq_iff id i.release_id)
    ]
