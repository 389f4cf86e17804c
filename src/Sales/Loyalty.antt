-- ===== src/Sales/Loyalty.antt =====
-- src/core/loyalty/loyalty.service.ts. The pooled methods run the same queries in a transaction, and
-- differ in nothing else; they are the same functions here. Customers have ids of their own.
use apiv.Prelude.{
  ℕ, zero, suc, ◌+◌, ◌-◌, ◌*◌, ◌/◌, String, Bool, true, not, ◌&&◌, Option, none, some, List, [],
  ◌∷◌, ◌==◌, Result, ok, err, bad_request, ltb, leb, filter, update, maybe_single, any,
  if◌then◌else◌,
}
use apiv.Prelude.Int.{ℤ, pos, negsuc}
use apiv.Sales.Money.{to_fixed}
use apiv.Sales.Tables.{Customer, Tier, Tenant}

pub record LoyaltySettings : Type 0 where
  pub points_per_currency : ℕ
  pub redemption_value : ℕ
  pub enabled : Bool

abbrev pub or_default : {A : Type 0} → A → Option A → A
or_default d none = d
or_default d (some a) = a

abbrev pub find_tenant : String → List Tenant → Option Tenant
find_tenant id tenants = maybe_single (filter (λ (t : Tenant). t.id == id) tenants)

unfoldable pub get_settings : String → List Tenant → LoyaltySettings
get_settings tenant tenants = elim (find_tenant tenant tenants) [
  | none ↦ record { points_per_currency = 100; redemption_value = 10000; enabled = true }
  | some t ↦ record {
    points_per_currency = or_default 100 t.loyalty_points_per_currency;
    redemption_value = or_default 10000 t.loyalty_redemption_value;
    enabled = or_default true t.loyalty_enabled;
  }
]

-- The floor of -n / 10000.
abbrev pub floor_negative : ℕ → ℤ
floor_negative zero = pos 0
floor_negative (suc k) = negsuc (k / 10000)

-- `Math.floor(amountSpent * points_per_currency)`: cents times hundredths, down to whole points.
unfoldable pub calculate_points_earned : ℤ → LoyaltySettings → ℤ
calculate_points_earned (pos n) s = pos (n * s.points_per_currency / 10000)
calculate_points_earned (negsuc n) s = floor_negative (suc n * s.points_per_currency)

unfoldable pub calculate_redemption_value : ℕ → LoyaltySettings → ℤ
calculate_redemption_value points s = to_fixed (pos (points * s.redemption_value))

abbrev pub is_customer : String → String → Customer → Bool
is_customer id tenant c = (c.id == id) && (c.tenant_id == tenant)

unfoldable pub get_balance : String → String → List Customer → ℕ
get_balance tenant id customers = elim (maybe_single (filter (is_customer id tenant) customers)) [
  | none ↦ 0
  | some c ↦ c.loyalty_points
]

unfoldable pub assert_customer_in_tenant : String → String → List Customer → Result (Unit {0})
assert_customer_in_tenant tenant id customers =
    elim (maybe_single (filter (is_customer id tenant) customers)) [
      | none ↦ err (bad_request "Customer not found")
      | some c ↦ ok tt
    ]

-- `fn_adjust_loyalty_points` with a negative change: the customer by id alone, with enough points.
abbrev pub can_spend : String → ℕ → Customer → Bool
can_spend id points c = (c.id == id) && leb points c.loyalty_points

abbrev pub spend : ℕ → Customer → Customer
spend points c = record c { loyalty_points = c.loyalty_points - points }

-- The balances after the call, or why it throws; then nothing was written.
unfoldable pub redeem_points : String → String → ℕ → List Customer → Result (List Customer)
unfolding assert_customer_in_tenant
redeem_points tenant id zero customers = ok customers
redeem_points tenant id (suc p) customers = elim (assert_customer_in_tenant tenant id customers) [
  | err e ↦ err e
  | ok _ ↦
      if any (can_spend id (suc p)) customers
      then ok (update (can_spend id (suc p)) (spend (suc p)) customers)
      else err (bad_request "Insufficient loyalty points balance")
]

abbrev pub earn : ℕ → Customer → Customer
earn points c = record c {
  loyalty_points = c.loyalty_points + points;
  lifetime_points_earned = c.lifetime_points_earned + points;
}

-- `awardPoints` with its failure swallowed, as its caller does.
unfoldable pub award_points : String → String → ℤ → List Customer → List Customer
unfolding assert_customer_in_tenant
award_points tenant id (negsuc n) customers = customers
award_points tenant id (pos zero) customers = customers
award_points tenant id (pos (suc p)) customers =
    elim (assert_customer_in_tenant tenant id customers) [
      | err e ↦ customers
      | ok _ ↦ update (λ (c : Customer). c.id == id) (earn (suc p)) customers
    ]

-- The best of the tiers that a lifetime total qualifies for.
abbrev pub best : List Tier → Option Tier
best [] = none
best (t ∷ ts) = elim (best ts) [
  | none ↦ some t
  | some u ↦ if ltb t.min_lifetime_points u.min_lifetime_points then some u else some t
]

unfoldable pub find_matching_tier : String → ℕ → List Tier → Option Tier
find_matching_tier tenant points tiers = best (
    filter
      (λ (t : Tier).
        (t.tenant_id == tenant) && not t.is_deleted && leb t.min_lifetime_points points)
      tiers)

-- In hundredths; 100 where there is no customer or no tier.
unfoldable pub get_tier_multiplier : String → String → List Customer → List Tier → ℕ
unfolding find_matching_tier
get_tier_multiplier tenant id customers tiers =
    elim (maybe_single (filter (is_customer id tenant) customers)) [
      | none ↦ 100
      | some c ↦ elim (find_matching_tier tenant c.lifetime_points_earned tiers) [
        | none ↦ 100
        | some t ↦ t.points_multiplier
      ]
    ]
