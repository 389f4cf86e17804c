-- ===== src/Prelude/Rules.antt =====
-- Rules for the state that a chain of calls leaves, and a relation between the rows before and after.
use mathlib.Core.Path.{◌≡◌, refl, ap, subst, sym}
use mathlib.Core.Logic.{inl, inr}
use mathlib.Core.Bool.{Bool, true, false}
use mathlib.Core.List.{List, [], ◌∷◌}
use apiv.Prelude.Tests.{Bool-cases}
use apiv.Prelude.Lists.{filter, update}
use apiv.Prelude.Results.{Error, Result, ok, err, Result-cases, Run, ◌>>=◌, throw_if}

-- What the continuation does after each outcome of the first call.
abbrev after_result : {S A B : Type 0} → (A → Run S B) → Result A → S → S
after_result k (ok a) s = (k a s).1
after_result k (err e) s = s

bind_state :
    {S A B : Type 0} (m : Run S A) (k : A → Run S B) (s : S)
    → ((m >>= k) s).1 ≡ after_result k (m s).0 (m s).1
bind_state m k s = elim (Result-cases (m s).0) [
  | inl (e, q) ↦ rw (◌>>=◌, q) refl
  | inr (a, q) ↦ rw (◌>>=◌, q) refl
]

abbrev continue : {S A B : Type 0} → (A → Run S B) → Result A × S → Result B × S
continue k p = elim p.0 [ ok a ↦ k a p.1 | err e ↦ (err e, p.1) ]

pub bind_ok :
    {S A B : Type 0} (m : Run S A) (k : A → Run S B) {s t : S} {a : A}
    → m s ≡ (ok a, t)
    → (m >>= k) s ≡ k a t
bind_ok m k h = ap (continue k) h

pub bind_err :
    {S A B : Type 0} (m : Run S A) (k : A → Run S B) {s t : S} {e : Error}
    → m s ≡ (err e, t)
    → (m >>= k) s ≡ (err e, t)
bind_err m k h = ap (continue k) h

-- A property of the state holds after a chain if it holds where the first call throws, and after the
-- rest where it does not.
pub bind_keeps {κ} :
    {S A B : Type 0} (P : S → Type κ) (m : Run S A) (k : A → Run S B) (s : S)
    → ((e : Error) → (m s).0 ≡ err e → P (m s).1)
    → ((a : A) → (m s).0 ≡ ok a → P (k a (m s).1).1)
    → P ((m >>= k) s).1
bind_keeps P m k s failed passed = subst P (sym (bind_state m k s)) (elim (Result-cases (m s).0) [
  | inl (e, q) ↦ rw q (failed e q)
  | inr (a, q) ↦ rw q (passed a q)
])

-- A guard leaves the state alone, and what follows it may use that it did not throw.
pub guard_keeps {κ} :
    {S B : Type 0} (P : S → Type κ) (b : Bool) (e : Error) (k : Unit {0} → Run S B) (s : S)
    → P s
    → (b ≡ false → P (k tt s).1)
    → P ((throw_if b e >>= k) s).1
guard_keeps P true e k s h rest = h
guard_keeps P false e k s h rest = rest refl

head_eq : {A : Type 0} {x y : A} {xs ys : List A} → x ∷ xs ≡ y ∷ ys → x ≡ y
head_eq h = cc

tail_eq : {A : Type 0} {x y : A} {xs ys : List A} → x ∷ xs ≡ y ∷ ys → xs ≡ ys
tail_eq h = cc

-- The rows correspond, one by one.
abbrev pub All2 : {A : Type 0} → (A → A → Type 0) → List A → List A → Type 0
All2 R [] [] = Unit
All2 R (x ∷ xs) (y ∷ ys) = R x y × All2 R xs ys
All2 R [] (y ∷ ys) = ⊥
All2 R (x ∷ xs) [] = ⊥

module _ {A : Type 0} (R : A → A → Type 0) (refl_row : (x : A) → R x x) where
  pub All2-same : (xs : List A) → All2 R xs xs
  All2-same [] = tt
  All2-same (x ∷ xs) = (refl_row x, All2-same xs)

  -- Each row that the update writes is related to what it becomes.
  pub All2-update :
      (p : A → Bool) (f : A → A) (xs : List A)
      → ((x : A) → p x ≡ true → R x (f x))
      → All2 R xs (update p f xs)
  All2-update p f [] h = tt
  All2-update p f (x ∷ xs) h = elim (Bool-cases (p x)) [
    | inl e ↦ rw e (h x e, All2-update p f xs h)
    | inr e ↦ rw e (refl_row x, All2-update p f xs h)
  ]

  none_written :
      (p : A → Bool) (f : A → A) (xs : List A) → filter p xs ≡ [] → All2 R xs (update p f xs)
  none_written p f [] h = tt
  none_written p f (x ∷ xs) h = elim (Bool-cases (p x)) [
    | inl e ↦ absurd (cc (rw e at h))
    | inr e ↦ rw e (refl_row x, none_written p f xs (rw e at h))
  ]

  -- So it is enough that the one row which the update finds is.
  pub All2-update_one :
      (p : A → Bool) (f : A → A) (xs : List A) (o : A)
      → filter p xs ≡ o ∷ []
      → R o (f o)
      → All2 R xs (update p f xs)
  All2-update_one p f [] o h r = absurd (cc)
  All2-update_one p f (x ∷ xs) o h r = elim (Bool-cases (p x)) [
    | inl e ↦
        let h' = rw e at h in
        rw e (subst (λ y. R y (f y)) (sym (head_eq h')) r, none_written p f xs (tail_eq h'))
    | inr e ↦ rw e (refl_row x, All2-update_one p f xs o (rw e at h) r)
  ]

pub All2-trans :
    {A : Type 0} (R S T : A → A → Type 0)
    → ((x y z : A) → R x y → S y z → T x z)
    → (xs ys zs : List A) → All2 R xs ys
    → All2 S ys zs
    → All2 T xs zs
All2-trans R S T j [] [] [] h k = tt
All2-trans R S T j (x ∷ xs) (y ∷ ys) (z ∷ zs) h k =
    (j x y z h.0 k.0, All2-trans R S T j xs ys zs h.1 k.1)
All2-trans R S T j [] [] (z ∷ zs) h k = absurd k
All2-trans R S T j [] (y ∷ ys) zs h k = absurd h
All2-trans R S T j (x ∷ xs) [] zs h k = absurd h
All2-trans R S T j (x ∷ xs) (y ∷ ys) [] h k = absurd k
