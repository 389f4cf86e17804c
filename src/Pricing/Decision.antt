-- ===== src/Pricing/Decision.antt =====
-- What an approval, a rejection and "no override" each establish.
use apiv.Prelude.{
  ℕ, String, Bool, true, false, ◌*◌, ◌≤◌, Option, none, some, ◌==◌, if◌then◌else◌, ◌≡◌, ◌≢◌, ◌↔◌,
  inl, inr, refl, sym, ap, ◌∙◌, arith, Option-cases,
}
use apiv.Prelude.Int.{ℤ, pos, negsuc, ◌+ℤ◌, ◌-ℤ◌, ltb_ℤ, eq_ℤ, distance}
use apiv.Permissions.Cache.{State}
use apiv.Permissions.Resolve.{has_permission_for_user}
use apiv.Pricing.EffectiveRole.{EffectiveRole}
use apiv.Pricing.Types.{
  limit_exceeded, always_required, required_above_threshold, EffectivePolicy, exceeds,
  PriceResolutionInput, Direction, discount, increase, Percent, Approval, no_override, approved,
  Tables,
}
use apiv.Pricing.Resolution.{
  resolve_official_price, resolve_effective_policy, is_true, over_limit, trimmed_reason, refusal,
  decide_by_policy, role_for, resolve_override, resolve_price,
}

-- The flag and the limit that a policy has for a direction.
abbrev pub flag_of : Direction → EffectivePolicy → Option Bool
flag_of discount p = p.allow_discount
flag_of increase p = p.allow_increase

abbrev pub limit_of : Direction → EffectivePolicy → Option ℕ
limit_of discount p = p.max_discount_percent
limit_of increase p = p.max_increase_percent

-- Every condition of a policy, with no order among them.
pub record Allowed (policy : EffectivePolicy) (requested : ℤ) (direction : Direction) (p : Percent)
    (reason : String) (has_discount : Bool) : Type 0 where
  pub zero_allowed : eq_ℤ requested (pos 0) ≡ true → is_true policy.allow_zero_price ≡ true
  pub direction_allowed : is_true (flag_of direction policy) ≡ true
  pub within : over_limit p (limit_of direction policy) ≡ false
  pub explained_always : policy.reason_policy ≡ some always_required → (reason == "") ≡ false
  pub explained_zero :
      eq_ℤ requested (pos 0) ≡ true
      → policy.zero_price_requires_reason ≡ some true
      → (reason == "") ≡ false
  pub explained_above :
      (threshold : ℕ)
      → policy.reason_policy ≡ some required_above_threshold
      → policy.reason_threshold_percent ≡ some threshold
      → exceeds p threshold ≡ true
      → (reason == "") ≡ false
  pub combined : has_discount ≡ true → is_true policy.allow_combine_with_discount ≡ true

-- The chain of checks lets through only what meets every condition.
refusal-none :
    (policy : EffectivePolicy) (requested : ℤ) (direction : Direction) (p : Percent)
    (reason : String) (has_discount : Bool)
    → refusal policy requested direction p reason has_discount ≡ none
    → Allowed policy requested direction p reason has_discount
unfolding refusal
refusal-none policy requested discount p reason has_discount h = record {
  zero_allowed = λ z. ground arith;
  direction_allowed = ground arith;
  within = ground arith;
  explained_always = λ e. ground arith;
  explained_zero = λ z e. ground arith;
  explained_above = λ threshold e f g. ground arith;
  combined = λ d. ground arith;
}
refusal-none policy requested increase p reason has_discount h = record {
  zero_allowed = λ z. ground arith;
  direction_allowed = ground arith;
  within = ground arith;
  explained_always = λ e. ground arith;
  explained_zero = λ z e. ground arith;
  explained_above = λ threshold e f g. ground arith;
  combined = λ d. ground arith;
}

-- What stands behind an approval.
pub record Approves (input : PriceResolutionInput) (t : Tables) (a : Approval) : Type 0 where
  pub official :
      resolve_official_price input.item_id input.variant_id input.tenant_id t
      ≡ some a.official_unit_price
  pub price : a.approved_unit_price ≡ input.requested_unit_price
  pub amount : a.difference_amount ≡ distance a.approved_unit_price a.official_unit_price
  pub percent :
      a.difference_percent
      ≡ record { amount = a.difference_amount; official = a.official_unit_price }
  pub direction :
      a.direction
      ≡ (if ltb_ℤ a.approved_unit_price a.official_unit_price then discount else increase)
  pub overrides : eq_ℤ a.approved_unit_price a.official_unit_price ≡ false
  pub role : role_for input t ≡ some a.effective_role
  pub permitted :
      (has_permission_for_user input.user_id "invoice.price_override"
        (some input.tenant_id)
        t.permissions).0
      ≡ true
  pub policy :
      resolve_effective_policy input.tenant_id input.branch_id a.effective_role.role_id t
      ≡ some a.effective_policy_snapshot
  pub allowed :
      Allowed a.effective_policy_snapshot a.approved_unit_price a.direction a.difference_percent
        (trimmed_reason input.reason)
        input.has_invoice_level_discount

policy_of_tables :
    (tenant branch role : String) (t : Tables) (p : State)
    → resolve_effective_policy tenant branch role (record t { permissions = p })
      ≡ resolve_effective_policy tenant branch role t
unfolding resolve_effective_policy
policy_of_tables tenant branch role t p = refl

approved_injective : {a b : Approval} → approved a ≡ approved b → a ≡ b
approved_injective h = cc

-- What the policy's decision establishes, by whether it refuses.
decide_by_policy_approved :
    (input : PriceResolutionInput) (official : ℤ) (role : EffectiveRole) (policy : EffectivePolicy)
    (a : Approval)
    → decide_by_policy input official role policy ≡ approved a
    → (a.official_unit_price ≡ official)
      × (a.approved_unit_price ≡ input.requested_unit_price)
      × (a.difference_amount ≡ distance input.requested_unit_price official)
      × (a.difference_percent
          ≡ record { amount = distance input.requested_unit_price official; official = official })
      × (a.direction ≡ (if ltb_ℤ input.requested_unit_price official then discount else increase))
      × (a.effective_role ≡ role)
      × (a.effective_policy_snapshot ≡ policy)
      × (refusal policy input.requested_unit_price a.direction a.difference_percent
            (trimmed_reason input.reason)
            input.has_invoice_level_discount
          ≡ none)
unfolding decide_by_policy
decide_by_policy_approved input official role policy a h = ground arith

resolve_override_approved :
    (input : PriceResolutionInput) (official : ℤ) (t : Tables) (a : Approval)
    → (resolve_override input official t).0 ≡ approved a
    → (role : EffectiveRole) × (policy : EffectivePolicy) × (role_for input t ≡ some role)
      × ((has_permission_for_user input.user_id "invoice.price_override"
            (some input.tenant_id)
            t.permissions).0
          ≡ true)
      × (resolve_effective_policy input.tenant_id input.branch_id role.role_id t ≡ some policy)
      × (decide_by_policy input official role policy ≡ approved a)
unfolding resolve_override
resolve_override_approved input official t a h =
    let p =
      (has_permission_for_user input.user_id "invoice.price_override" (some input.tenant_id)
        t.permissions).1 in
    elim (Option-cases (role_for input t)) [
      | inl e ↦ absurd (ground arith)
      | inr (role, e) ↦
          elim (Option-cases
            (resolve_effective_policy input.tenant_id input.branch_id role.role_id t)) [
              | inl e' ↦ absurd (
                  ground (arith, policy_of_tables input.tenant_id input.branch_id role.role_id t p))
              | inr (policy, e') ↦ (
                role,
                policy,
                e,
                ground arith,
                e',
                ground (arith, policy_of_tables input.tenant_id input.branch_id role.role_id t p),
              )
            ]
    ]

-- Every approval stands on all of: the official price, which differs from the approved one; the role;
-- the permission; the effective policy; and every condition of that policy: a price of zero and the
-- direction are allowed, the difference is within the limit, a discount on the sale may be combined,
-- and there is a reason where the policy always requires one, requires one for a price of zero and the
-- price is zero, or requires one above a threshold that the difference exceeds.
pub resolve_price_approved :
    (input : PriceResolutionInput) (t : Tables) (a : Approval)
    → (resolve_price input t).0 ≡ approved a
    → Approves input t a
unfolding resolve_price
resolve_price_approved input t a h =
    elim (Option-cases (resolve_official_price input.item_id input.variant_id input.tenant_id t)) [
      | inl e ↦ absurd (ground arith)
      | inr (official, e) ↦
          let h' : (resolve_override input official t).0 ≡ approved a = ground arith in
          let differs : eq_ℤ input.requested_unit_price official ≡ false = ground arith in
          let (role, policy, er, ep, epol, ed) = resolve_override_approved input official t a h' in
          let facts = decide_by_policy_approved input official role policy a ed in
          let conditions =
            refusal-none policy input.requested_unit_price a.direction a.difference_percent
              (trimmed_reason input.reason) input.has_invoice_level_discount facts.7 in
          record {
            official = e ∙ ap some (sym facts.0);
            price = facts.1;
            amount = cc (facts.0, facts.1, facts.2);
            percent = cc (facts.0, facts.1, facts.2, facts.3);
            direction = rw (facts.0, facts.1) (facts.4);
            overrides = rw (facts.0, facts.1) differs;
            role = er ∙ ap some (sym facts.5);
            permitted = ep;
            policy = rw (facts.5, facts.6) epol;
            allowed = rw (facts.6, facts.1) conditions;
          }
    ]

-- Over a positive official price an approved difference is within the policy's limit for its
-- direction, and together with the approved price it gives the official one.
pub approved_within_limit :
    (input : PriceResolutionInput) (t : Tables) (a : Approval) (n : ℕ)
    → (resolve_price input t).0 ≡ approved a
    → a.official_unit_price ≡ pos n
    → (limit : ℕ) × (limit_of a.direction a.effective_policy_snapshot ≡ some limit)
      × (a.difference_amount * 10000 ≤ limit * n)
      × (a.official_unit_price ≡ (
          if ltb_ℤ a.approved_unit_price a.official_unit_price
          then a.approved_unit_price +ℤ pos a.difference_amount
          else a.approved_unit_price -ℤ pos a.difference_amount))
unfolding distance ◌+ℤ◌ ◌-ℤ◌
approved_within_limit input t a n h e =
    let r = resolve_price_approved input t a h in
    elim (Option-cases (limit_of a.direction a.effective_policy_snapshot)) [
      | inl none_set ↦ absurd (ground (arith, r.allowed.within, r.percent))
      | inr (limit, set) ↦
          (limit, set, ground (arith, r.allowed.within, r.percent), ground (arith, r.amount))
    ]

-- The official price p is used unchanged exactly when it is the item's official price and the
-- requested one is equal to it.
pub no_override_iff :
    (input : PriceResolutionInput) (t : Tables) (p : ℤ)
    → ((resolve_price input t).0 ≡ no_override p) ↔ (
        (resolve_official_price input.item_id input.variant_id input.tenant_id t ≡ some p)
        × (input.requested_unit_price ≡ p))
unfolding resolve_price resolve_override decide_by_policy
no_override_iff input t p = (λ h. ground arith, λ h. ground arith)

-- Over a negative official price (a variant's adjustment may exceed the item's price) a policy
-- with a limit on the increase never refuses an increase by that limit: the difference in percent
-- is negative.
negative_official_unlimited :
    (policy : EffectivePolicy) (requested : ℤ) (p : Percent) (reason : String) (has_discount : Bool)
    (n limit : ℕ)
    → p.official ≡ negsuc n
    → policy.max_increase_percent ≡ some limit
    → refusal policy requested increase p reason has_discount ≢ some limit_exceeded
unfolding refusal
negative_official_unlimited policy requested p reason has_discount n limit e set = ground arith
