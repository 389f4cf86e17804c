-- ===== src/Pricing/Reading.antt =====
-- `resolvePrice` writes no table: what it changes are the caches of the permissions.
use apiv.Prelude.{String, ◌&&◌, Option, some, ◌≡◌, refl, ◌∙◌, Option-cases, Bool-cases, inl, inr}
use apiv.Prelude.Int.{ℤ, pos, ltb_ℤ, eq_ℤ}
use apiv.Permissions.Resolve.{has_permission_for_user}
use apiv.Permissions.Reading.{has_permission_for_user-db}
use apiv.Pricing.Types.{PriceResolutionInput, Tables}
use apiv.Pricing.Resolution.{resolve_official_price, role_for, resolve_override, resolve_price}

-- Two states of the service that differ in its caches only.
pub record SameRows (s t : Tables) : Type 0 where
  pub database : t.permissions.db ≡ s.permissions.db
  pub items : t.items ≡ s.items
  pub variants : t.item_variants ≡ s.item_variants
  pub policies : t.price_override_policies ≡ s.price_override_policies

pub SameRows-refl : (s : Tables) → SameRows s s
SameRows-refl s = record { database = refl; items = refl; variants = refl; policies = refl }

pub SameRows-trans : {s t u : Tables} → SameRows s t → SameRows t u → SameRows s u
SameRows-trans h k = record {
  database = k.database ∙ h.database;
  items = k.items ∙ h.items;
  variants = k.variants ∙ h.variants;
  policies = k.policies ∙ h.policies;
}

-- What is read off the rows is the same in both.
pub resolve_official_price-SameRows :
    (item tenant : String) (variant : Option String) {s t : Tables}
    → SameRows s t
    → resolve_official_price item variant tenant t ≡ resolve_official_price item variant tenant s
unfolding resolve_official_price
resolve_official_price-SameRows item tenant variant h = rw (h.items, h.variants) refl

resolve_override-SameRows :
    (input : PriceResolutionInput) (official : ℤ) (t : Tables)
    → SameRows t (resolve_override input official t).1
unfolding resolve_override
resolve_override-SameRows input official t =
    let kept =
      has_permission_for_user-db input.user_id "invoice.price_override" (some input.tenant_id)
        t.permissions in
    elim (Option-cases (role_for input t)) [
      | inl e ↦ rw (e, resolve_override) (SameRows-refl t)
      | inr (role, e) ↦
          elim (Bool-cases
            (has_permission_for_user input.user_id "invoice.price_override" (some input.tenant_id)
              t.permissions).0) [
                | inl granted ↦
                    rw (e, resolve_override, granted)
                      (record { database = kept; items = refl; variants = refl; policies = refl })
                | inr denied ↦
                    rw (e, resolve_override, denied)
                      (record { database = kept; items = refl; variants = refl; policies = refl })
              ]
    ]

pub resolve_price-SameRows :
    (input : PriceResolutionInput) (t : Tables) → SameRows t (resolve_price input t).1
unfolding resolve_price
resolve_price-SameRows input t =
    let requested = input.requested_unit_price in
    elim (Option-cases (resolve_official_price input.item_id input.variant_id input.tenant_id t)) [
      | inl e ↦ rw (e, resolve_price) (SameRows-refl t)
      | inr (official, e) ↦ elim (Bool-cases (eq_ℤ official (pos 0) && ltb_ℤ (pos 0) requested)) [
        | inl free ↦ rw (e, resolve_price, free) (SameRows-refl t)
        | inr charged ↦ elim (Bool-cases (eq_ℤ requested official)) [
          | inl same ↦ rw (e, resolve_price, charged, same) (SameRows-refl t)
          | inr other ↦
              rw (e, resolve_price, charged, other) (resolve_override-SameRows input official t)
        ]
      ]
    ]
