-- ===== src/Prelude/Filters.antt =====
-- Filters of lists that an update has gone over.
use Prim.Native.Nat.{◌≤◌}
use mathlib.Core.Path.{◌≡◌, refl, ap, subst, sym, ◌∙◌}
use native.Mathlib.Omega.{arith}
use mathlib.Core.Logic.{inl, inr}
use mathlib.Core.Bool.{Bool, true, false, not, ◌&&◌}
use mathlib.Core.List.{List, [], ◌∷◌, map}
use apiv.Prelude.Tests.{Bool-cases}
use apiv.Prelude.Lists.{filter, update, length}

module _ {A : Type 0} (p q : A → Bool) (f : A → A) where
  -- The updated rows are still the ones that the filter finds.
  pub filter-update_same :
      ((x : A) → p (f x) ≡ p x) → (xs : List A) → filter p (update p f xs) ≡ map f (filter p xs)
  filter-update_same h [] = refl
  filter-update_same h (x ∷ xs) = elim (Bool-cases (p x)) [
    | inl e ↦ rw (e, h x, e) (ap (λ ys. f x ∷ ys) (filter-update_same h xs))
    | inr e ↦ rw (e, e) (filter-update_same h xs)
  ]

  -- The updated rows are lost to another filter.
  pub filter-update_lost :
      ((x : A) → p x ≡ true → q (f x) ≡ false)
      → (xs : List A) → filter q (update p f xs) ≡ filter (λ x. not (p x)) (filter q xs)
  filter-update_lost h [] = refl
  filter-update_lost h (x ∷ xs) = elim (Bool-cases (p x)) [
    | inl e ↦ elim (Bool-cases (q x)) [
      | inl g ↦ rw (e, h x e, g, e) (filter-update_lost h xs)
      | inr g ↦ rw (e, h x e, g) (filter-update_lost h xs)
    ]
    | inr e ↦ elim (Bool-cases (q x)) [
      | inl g ↦ rw (e, g, e) (ap (λ ys. x ∷ ys) (filter-update_lost h xs))
      | inr g ↦ rw (e, g) (filter-update_lost h xs)
    ]
  ]

  -- The updated rows are found as before, by a filter that the update does not change.
  pub filter-update_commute :
      ((x : A) → q (f x) ≡ q x)
      → (xs : List A) → filter q (update p f xs) ≡ update p f (filter q xs)
  filter-update_commute h [] = refl
  filter-update_commute h (x ∷ xs) = elim (Bool-cases (p x)) [
    | inl e ↦ elim (Bool-cases (q x)) [
      | inl g ↦ rw (e, h x, g, e) (ap (λ ys. f x ∷ ys) (filter-update_commute h xs))
      | inr g ↦ rw (e, h x, g) (filter-update_commute h xs)
    ]
    | inr e ↦ elim (Bool-cases (q x)) [
      | inl g ↦ rw (e, g, e) (ap (λ ys. x ∷ ys) (filter-update_commute h xs))
      | inr g ↦ rw (e, g) (filter-update_commute h xs)
    ]
  ]

-- Two conditions, one after the other.
pub filter-and :
    {A : Type 0} (p q : A → Bool) (xs : List A)
    → filter (λ x. p x && q x) xs ≡ filter q (filter p xs)
filter-and p q [] = refl
filter-and p q (x ∷ xs) = elim (Bool-cases (p x)) [
  | inl e ↦ elim (Bool-cases (q x)) [
    | inl k ↦ rw (e, k) (ap (λ ys. x ∷ ys) (filter-and p q xs))
    | inr k ↦ rw (e, k) (filter-and p q xs)
  ]
  | inr e ↦ rw e (filter-and p q xs)
]

head_eq : {A : Type 0} {x y : A} {xs ys : List A} → x ∷ xs ≡ y ∷ ys → x ≡ y
head_eq h = cc

-- What a filter found fits it.
pub filter-fits :
    {A : Type 0} (p : A → Bool) (xs : List A) {y : A} {ys : List A}
    → filter p xs ≡ y ∷ ys
    → p y ≡ true
filter-fits p [] h = absurd (cc)
filter-fits p (x ∷ xs) h = elim (Bool-cases (p x)) [
  | inl e ↦ subst (λ z. p z ≡ true) (head_eq (rw e at h)) e
  | inr e ↦ filter-fits p xs (rw e at h)
]

pub filter-length_le : {A : Type 0} (p : A → Bool) (xs : List A) → length (filter p xs) ≤ length xs
filter-length_le p [] = omega arith
filter-length_le p (x ∷ xs) = ground (arith, filter-length_le p xs)

-- A filter of at most one row that finds a row finds the whole list.
pub filter_of_one :
    {A : Type 0} (p : A → Bool) (xs : List A) {o : A}
    → length xs ≤ 1
    → filter p xs ≡ o ∷ []
    → xs ≡ o ∷ []
filter_of_one p [] h q = absurd (cc)
filter_of_one p (x ∷ []) h q = elim (Bool-cases (p x)) [
  | inl e ↦ rw e at q
  | inr e ↦ absurd (cc (rw e at q))
]
filter_of_one p (x ∷ y ∷ xs) h q = absurd (omega arith)

-- The one row of a list is the one that a further condition finds.
pub filter_same_row :
    {A : Type 0} (p q : A → Bool) (xs : List A) {o o' : A}
    → filter p xs ≡ o ∷ []
    → filter (λ x. p x && q x) xs ≡ o' ∷ []
    → o ≡ o'
filter_same_row p q xs {o} h k =
    let found = sym (ap (filter q) h) ∙ (sym (filter-and p q xs) ∙ k) in
    head_eq (filter_of_one q (o ∷ []) (omega arith) found)
