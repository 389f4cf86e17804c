-- ===== src/Pricing/RoleOrder.antt =====
-- The effective role against the rows that it is chosen from.
use mathlib.Core.List.Permᴰ
use mathlib.Core.List.{Permᴰ}
use apiv.Prelude.{
  ℕ, Bool, some, List, [], ◌∷◌, filter, maybe_single, ◌≡◌, ◌≤◌, ◌⊎◌, inl, inr, refl, sym, ap, ◌∙◌,
  arith, All, Option-cases, Bool-cases,
}
use apiv.Pricing.EffectiveRole.{
  EffectiveRole, Held, is_eligible, max_priority, has_priority, to_effective_role, pick_candidate,
  resolve_held,
}

module _ {A : Type 0} where
  filter-Permᴰ : (p : A → Bool) {xs ys : List A} → Permᴰ xs ys → Permᴰ (filter p xs) (filter p ys)
  filter-Permᴰ p Permᴰ.nil = Permᴰ.nil
  filter-Permᴰ p (Permᴰ.cons {a} {b} {l₁} {l₂} e r) = rw (← e) (elim (Bool-cases (p a)) [
    | inl kept ↦ rw kept (Permᴰ.cons refl (filter-Permᴰ p r))
    | inr dropped ↦ rw dropped (filter-Permᴰ p r)
  ])
  filter-Permᴰ p (Permᴰ.swap {a} {b} {a'} {b'} {l} e f) =
      rw (← e, ← f)
        (elim (Bool-cases (p a)) [
          | inl kept ↦ elim (Bool-cases (p b)) [
            | inl kept' ↦ rw (kept, kept') (Permᴰ.swap refl refl)
            | inr dropped' ↦ rw (kept, dropped') (Permᴰ.refl _)
          ]
          | inr dropped ↦ elim (Bool-cases (p b)) [
            | inl kept' ↦ rw (dropped, kept') (Permᴰ.refl _)
            | inr dropped' ↦ rw (dropped, dropped') (Permᴰ.refl _)
          ]
        ])
  filter-Permᴰ p (Permᴰ.trans r s) = Permᴰ.trans (filter-Permᴰ p r) (filter-Permᴰ p s)

  nil-Permᴰ : {xs ys : List A} → Permᴰ xs ys → xs ≡ [] → ys ≡ []
  nil-Permᴰ Permᴰ.nil h = refl
  nil-Permᴰ (Permᴰ.cons e r) h = cc
  nil-Permᴰ (Permᴰ.swap e f) h = cc
  nil-Permᴰ (Permᴰ.trans r s) h = nil-Permᴰ s (nil-Permᴰ r h)

  maybe_single-Permᴰ : {xs ys : List A} → Permᴰ xs ys → maybe_single xs ≡ maybe_single ys
  maybe_single-Permᴰ Permᴰ.nil = refl
  maybe_single-Permᴰ (Permᴰ.cons {l₁ = []} {l₂ = []} e r) = ap some e
  maybe_single-Permᴰ (Permᴰ.cons {l₁ = []} {l₂ = y ∷ ys} e r) = absurd (cc (nil-Permᴰ r refl))
  maybe_single-Permᴰ (Permᴰ.cons {l₁ = x ∷ xs} {l₂ = []} e r) =
      absurd (cc (nil-Permᴰ (Permᴰ.symm r) refl))
  maybe_single-Permᴰ (Permᴰ.cons {l₁ = x ∷ xs} {l₂ = y ∷ ys} e r) = refl
  maybe_single-Permᴰ (Permᴰ.swap e f) = refl
  maybe_single-Permᴰ (Permᴰ.trans r s) = maybe_single-Permᴰ r ∙ maybe_single-Permᴰ s

max_priority-Permᴰ : {xs ys : List Held} → Permᴰ xs ys → max_priority xs ≡ max_priority ys
max_priority-Permᴰ Permᴰ.nil = refl
max_priority-Permᴰ (Permᴰ.cons e r) =
    omega (arith, ap (λ (h : Held). h.role.priority) e, max_priority-Permᴰ r)
max_priority-Permᴰ (Permᴰ.swap e f) =
    omega (arith, ap (λ (h : Held). h.role.priority) e, ap (λ (h : Held). h.role.priority) f)
max_priority-Permᴰ (Permᴰ.trans r s) = max_priority-Permᴰ r ∙ max_priority-Permᴰ s

pick_candidate-Permᴰ : {xs ys : List Held} → Permᴰ xs ys → pick_candidate xs ≡ pick_candidate ys
pick_candidate-Permᴰ {xs} {ys} r =
    ground (
      arith,
      maybe_single-Permᴰ r,
      maybe_single-Permᴰ (filter-Permᴰ (λ (h : Held). h.is_primary) r),
    )

-- In whatever order the rows come, the resolved role is the same: no tie is broken by row order.
resolve_held-perm : (xs ys : List Held) → Permᴰ xs ys → resolve_held xs ≡ resolve_held ys
unfolding resolve_held
resolve_held-perm xs ys r =
    let e = filter-Permᴰ is_eligible r in
    pick_candidate-Permᴰ (filter-Permᴰ (has_priority (max_priority (filter is_eligible xs))) e)
    ∙ ap (λ m. pick_candidate (filter (has_priority m) (filter is_eligible ys)))
        (max_priority-Permᴰ e)

-- Every row has at most the top priority.
max_priority-ge : (hs : List Held) → All (λ h. h.role.priority ≤ max_priority hs) hs
max_priority-ge hs = go hs (max_priority hs) (omega arith)
  where
    go : (l : List Held) (m : ℕ) → max_priority l ≤ m → All (λ h. h.role.priority ≤ m) l
    go [] m le = tt
    go (h ∷ l) m le = (omega arith, go l m (omega arith))

-- The rows that a role comes from.
abbrev pub IsAmong : EffectiveRole → List Held → Type 0
IsAmong r [] = ⊥
IsAmong r (h ∷ hs) = (r ≡ to_effective_role h) ⊎ IsAmong r hs

IsAmong-filter :
    (p : Held → Bool) (r : EffectiveRole) (hs : List Held) → IsAmong r (filter p hs) → IsAmong r hs
IsAmong-filter p r [] m = m
IsAmong-filter p r (h ∷ hs) m = ground (arith, IsAmong-filter p r hs)

maybe_single-IsAmong :
    (h : Held) (hs : List Held) → maybe_single hs ≡ some h → IsAmong (to_effective_role h) hs
maybe_single-IsAmong h [] e = cc
maybe_single-IsAmong h (x ∷ []) e =
    let same : x ≡ h = ground arith in inl (ap to_effective_role (sym same))
maybe_single-IsAmong h (x ∷ y ∷ hs) e = cc

pick_candidate-IsAmong :
    (r : EffectiveRole) (hs : List Held) → pick_candidate hs ≡ some r → IsAmong r hs
pick_candidate-IsAmong r hs e = elim (Option-cases (maybe_single hs)) [
  | inl none_alone ↦ elim (Option-cases (maybe_single (filter (λ (h : Held). h.is_primary) hs))) [
    | inl none_primary ↦ absurd (ground arith)
    | inr (h, one) ↦
        let same : r ≡ to_effective_role h = ground arith in
        rw same (IsAmong-filter (λ (h : Held). h.is_primary) _ hs (maybe_single-IsAmong h _ one))
  ]
  | inr (h, one) ↦
      let same : r ≡ to_effective_role h = ground arith in rw same (maybe_single-IsAmong h hs one)
]

top_among :
    (m : ℕ) (r : EffectiveRole) (hs : List Held)
    → IsAmong r (filter (has_priority m) hs)
    → r.priority ≡ m
top_among m r [] e = absurd e
top_among m r (h ∷ hs) e = ground (arith, top_among m r hs)

-- A resolved role is one of the eligible held roles, and none of those has a higher priority.
resolve_held-IsTop :
    (r : EffectiveRole) (held : List Held)
    → resolve_held held ≡ some r
    → IsAmong r (filter is_eligible held)
      × All (λ h. h.role.priority ≤ r.priority) (filter is_eligible held)
unfolding resolve_held
resolve_held-IsTop r held e =
    let eligible = filter is_eligible held in
    let m = max_priority eligible in
    let among = pick_candidate-IsAmong r (filter (has_priority m) eligible) e in
    (
      IsAmong-filter (has_priority m) r eligible among,
      rw (top_among m r eligible among) (max_priority-ge eligible),
    )
