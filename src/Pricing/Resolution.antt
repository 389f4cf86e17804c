-- ===== src/Pricing/Resolution.antt =====
-- `resolvePrice`, with its two queries.
use apiv.Prelude.{
  ℕ, String, Bool, true, false, not, ◌&&◌, ◌||◌, Option, none, some, List, ◌==◌, filter, find,
  maybe_single, or_else, truthy, trim, if◌then◌else◌,
}
use apiv.Prelude.Int.{ℤ, pos, ◌+ℤ◌, ltb_ℤ, eq_ℤ, distance}
use apiv.Permissions.Queries.{rows}
use apiv.Permissions.Resolve.{has_permission_for_user}
use apiv.Pricing.EffectiveRole.{EffectiveRole, resolve_effective_role}
use apiv.Pricing.Types.{
  RejectionReasonCode, item_or_variant_not_found, official_price_zero_increase_not_supported,
  no_effective_role, no_effective_policy, permission_denied, discount_not_allowed,
  increase_not_allowed, limit_exceeded, reason_required, zero_price_not_allowed,
  combine_with_discount_not_allowed, ReasonPolicy, always_required, required_above_threshold,
  EffectivePolicy, PolicyRow, Item, Variant, PriceResolutionInput, Direction, discount, increase,
  Percent, exceeds, PriceResolutionResult, no_override, approved, rejected, Tables,
}

-- `none` is NOT_FOUND.
unfoldable pub resolve_official_price : String → Option String → String → Tables → Option ℤ
resolve_official_price item_id variant_id tenant_id t =
    elim (maybe_single
      (filter (λ (i : Item). (i.id == item_id) && (i.tenant_id == tenant_id)) (rows t.items))) [
        | none ↦ none
        | some item ↦
            if item.is_deleted || not item.is_active then none else elim (truthy variant_id) [
              | none ↦ some item.price
              | some variant ↦
                  elim (maybe_single (
                    filter (λ (v : Variant). (v.id == variant) && (v.tenant_id == tenant_id))
                      (rows t.item_variants))) [
                        | none ↦ none
                        | some v ↦
                            if v.is_active && (v.item_id == item_id)
                            then some (item.price +ℤ v.price_adjustment)
                            else none
                      ]
            ]
      ]

-- `column === value`, where null is no value.
abbrev pub is_text : String → Option String → Bool
is_text a none = false
is_text a (some b) = b == a

abbrev pub is_null : Option String → Bool
is_null none = true
is_null (some _) = false

abbrev pub tenant_row : List PolicyRow → Option PolicyRow
tenant_row rs = find (λ (r : PolicyRow). is_null r.branch_id && is_null r.role_id) rs

abbrev pub branch_row : String → List PolicyRow → Option PolicyRow
branch_row branch rs = find (λ (r : PolicyRow). is_text branch r.branch_id && is_null r.role_id) rs

abbrev pub role_row : String → String → List PolicyRow → Option PolicyRow
role_row branch role rs =
    find (λ (r : PolicyRow). is_text branch r.branch_id && is_text role r.role_id) rs

-- `row?.[key]`
abbrev pub field : {A : Type 0} → (EffectivePolicy → Option A) → Option PolicyRow → Option A
field f none = none
field f (some r) = f r.policy

abbrev pub pick :
    {A : Type 0}
    → (EffectivePolicy → Option A)
    → Option PolicyRow
    → Option PolicyRow
    → PolicyRow
    → Option A
pick f role branch tenant = or_else (field f role) (or_else (field f branch) (f tenant.policy))

unfoldable pub resolve_effective_policy : String → String → String → Tables → Option EffectivePolicy
resolve_effective_policy tenant_id branch_id role_id t =
    let rs =
      filter (λ (r : PolicyRow). r.tenant_id == tenant_id) (rows t.price_override_policies) in
    elim (tenant_row rs) [
      | none ↦ none
      | some tenant ↦
          let branch = branch_row branch_id rs in
          let role = role_row branch_id role_id rs in
          some (record {
            allow_discount = pick (λ p. p.allow_discount) role branch tenant;
            allow_increase = pick (λ p. p.allow_increase) role branch tenant;
            allow_combine_with_discount =
                pick (λ p. p.allow_combine_with_discount) role branch tenant;
            max_discount_percent = pick (λ p. p.max_discount_percent) role branch tenant;
            max_increase_percent = pick (λ p. p.max_increase_percent) role branch tenant;
            reason_policy = pick (λ p. p.reason_policy) role branch tenant;
            reason_threshold_percent = pick (λ p. p.reason_threshold_percent) role branch tenant;
            allow_zero_price = pick (λ p. p.allow_zero_price) role branch tenant;
            zero_price_requires_permission =
                pick (λ p. p.zero_price_requires_permission) role branch tenant;
            zero_price_requires_reason =
                pick (λ p. p.zero_price_requires_reason) role branch tenant;
          })
    ]

-- `flag === true`
abbrev pub is_true : Option Bool → Bool
is_true none = false
is_true (some b) = b

-- `limit === null || differencePercent > limit`
abbrev pub over_limit : Percent → Option ℕ → Bool
over_limit p none = true
over_limit p (some limit) = exceeds p limit

-- `threshold !== null && differencePercent > threshold`
abbrev pub over_threshold : Percent → Option ℕ → Bool
over_threshold p none = false
over_threshold p (some threshold) = exceeds p threshold

abbrev is_always : Option ReasonPolicy → Bool
is_always (some always_required) = true
is_always _ = false

abbrev is_above_threshold : Option ReasonPolicy → Bool
is_above_threshold (some required_above_threshold) = true
is_above_threshold _ = false

abbrev pub is_reason_required : EffectivePolicy → Bool → Percent → Bool
is_reason_required policy is_zero_price p =
    is_always policy.reason_policy
    || ((is_zero_price && is_true policy.zero_price_requires_reason)
        || (is_above_threshold policy.reason_policy
            && over_threshold p policy.reason_threshold_percent))

abbrev pub trimmed_reason : Option String → String
trimmed_reason none = ""
trimmed_reason (some r) = trim r

-- The checks of the policy, in the code's order: the first that fails.
unfoldable pub refusal :
    EffectivePolicy → ℤ → Direction → Percent → String → Bool → Option RejectionReasonCode
refusal policy requested direction p reason has_discount =
    let is_zero_price = eq_ℤ requested (pos 0) in
    if is_zero_price && not (is_true policy.allow_zero_price)
    then some zero_price_not_allowed
    else let by_direction : Option RejectionReasonCode = elim direction [
      | discount ↦
          if not (is_true policy.allow_discount)
          then some discount_not_allowed
          else if over_limit p policy.max_discount_percent
          then some limit_exceeded
          else none
      | increase ↦
          if not (is_true policy.allow_increase)
          then some increase_not_allowed
          else if over_limit p policy.max_increase_percent
          then some limit_exceeded
          else none
    ] in
      elim by_direction [
        | some code ↦ some code
        | none ↦
            if is_reason_required policy is_zero_price p && (reason == "")
            then some reason_required
            else if has_discount && not (is_true policy.allow_combine_with_discount)
            then some combine_with_discount_not_allowed
            else none
      ]

-- After the role and the permission: the policy's decision.
unfoldable pub decide_by_policy :
    PriceResolutionInput → ℤ → EffectiveRole → EffectivePolicy → PriceResolutionResult
decide_by_policy input official role policy =
    let requested = input.requested_unit_price in
    let direction = if ltb_ℤ requested official then discount else increase in
    let amount = distance requested official in
    let percent : Percent = record { amount = amount; official = official } in
    let reason = trimmed_reason input.reason in
    elim (refusal policy requested direction percent reason input.has_invoice_level_discount) [
      | some code ↦ rejected official requested code (some (some role))
      | none ↦ approved (record {
        official_unit_price = official;
        approved_unit_price = requested;
        difference_amount = amount;
        difference_percent = percent;
        direction = direction;
        reason = if reason == "" then none else some reason;
        effective_role = role;
        effective_policy_snapshot = policy;
      })
    ]

abbrev pub role_for : PriceResolutionInput → Tables → Option EffectiveRole
role_for input t = elim input.effective_role [
  | some given ↦ given
  | none ↦ resolve_effective_role input.user_id t.permissions.db
]

-- The part of `resolvePrice` for a price that differs from the official one.
unfoldable pub resolve_override : PriceResolutionInput → ℤ → Tables → PriceResolutionResult × Tables
resolve_override input official t =
    let requested = input.requested_unit_price in
    elim (role_for input t) [
      | none ↦ (rejected official requested no_effective_role (some none), t)
      | some role ↦
          let (granted, p) =
            has_permission_for_user input.user_id "invoice.price_override" (some input.tenant_id)
              t.permissions in
          let t' = record t { permissions = p } in
          if not granted
          then (rejected official requested permission_denied (some (some role)), t')
          else (
            elim (resolve_effective_policy input.tenant_id input.branch_id role.role_id t') [
              | none ↦ rejected official requested no_effective_policy (some (some role))
              | some policy ↦ decide_by_policy input official role policy
            ],
            t',
          )
    ]

unfoldable pub resolve_price : PriceResolutionInput → Tables → PriceResolutionResult × Tables
resolve_price input t =
    let requested = input.requested_unit_price in
    elim (resolve_official_price input.item_id input.variant_id input.tenant_id t) [
      | none ↦ (rejected (pos 0) requested item_or_variant_not_found none, t)
      | some official ↦
          if eq_ℤ official (pos 0) && ltb_ℤ (pos 0) requested
          then (rejected (pos 0) requested official_price_zero_increase_not_supported none, t)
          else if eq_ℤ requested official
          then (no_override official, t)
          else resolve_override input official t
    ]
