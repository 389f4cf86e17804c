-- ===== src/Purchasing/Agreements.antt =====
-- The tables of purchase agreements and of the releases from them (src/database/migrations/128, 130,
-- 132). Quantities are whole and prices whole cents; the rows of tiers stand in their order.
use apiv.Prelude.{ℕ, String, Bool, Option, List}
use apiv.Prelude.Int.{ℤ}
use apiv.Purchasing.Approval.{HistoryEntry}

pub data AgreementStatus : Type 0 where
  draft submitted approved rejected closed cancelled : AgreementStatus

pub data OveragePolicy : Type 0 where
  block warn require_approval allow : OveragePolicy

pub record Agreement : Type 0 where
  pub id : String
  pub tenant_id : String
  pub currency : String
  pub status : AgreementStatus
  pub overage_policy : OveragePolicy
  pub is_deleted : Bool

pub record AgreementItem : Type 0 where
  pub id : String
  pub tenant_id : String
  pub agreement_id : String
  pub committed_quantity : Option ℕ

pub data PricingType : Type 0 where
  fixed discount_percent tiered rule_based : PricingType

-- Percentages are hundredths of a percent.
pub record AgreementPricing : Type 0 where
  pub id : String
  pub tenant_id : String
  pub agreement_item_id : String
  pub pricing_type : PricingType
  pub unit_price : Option ℕ
  pub discount_percent : Option ℕ
  pub tax_rate : Option ℕ

pub record PricingTier : Type 0 where
  pub id : String
  pub tenant_id : String
  pub agreement_pricing_id : String
  pub min_quantity : ℕ
  pub max_quantity : Option ℕ
  pub unit_price : ℕ
  pub discount_percent : Option ℕ

pub data ReleaseStatus : Type 0 where
  draft submitted approved rejected cancelled : ReleaseStatus

pub record Release : Type 0 where
  pub id : String
  pub tenant_id : String
  pub agreement_id : String
  pub release_number : String
  pub status : ReleaseStatus
  pub effective_amendment_id : Option String
  pub notes : Option String
  pub created_by : String
  pub approved_by : Option String
  pub approved_at : Option ℕ
  pub is_deleted : Bool

pub record ReleaseItem : Type 0 where
  pub tenant_id : String
  pub release_id : String
  pub agreement_item_id : String
  pub released_quantity : ℕ
  pub snapshot_unit_price : ℕ
  pub snapshot_discount_percent : ℕ
  pub snapshot_currency : String
  pub snapshot_tax_rate : Option ℕ
  pub released_amount : ℤ
  pub source_pricing_tier_id : Option String
  pub notes : Option String

-- agreement_amendments
pub record Amendment : Type 0 where
  pub id : String
  pub tenant_id : String
  pub agreement_id : String
  pub is_approved : Bool
  pub approved_at : ℕ

pub record Books : Type 0 where
  pub agreements : List Agreement
  pub agreement_items : List AgreementItem
  pub pricing : List AgreementPricing
  pub tiers : List PricingTier
  pub amendments : List Amendment
  pub releases : List Release
  pub release_items : List ReleaseItem
  pub history : List (HistoryEntry ReleaseStatus)
