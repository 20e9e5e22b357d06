-- ===== src/Billing/Attempt.antt =====
-- The accounting of one HTTP attempt to a provider, and the costs that are resolved for it.
use agent_kuibysheff.Common.{ℕ, Bool, Option, none, some, List, Text}
use agent_kuibysheff.Limits.{TokenUsage}
use agent_kuibysheff.Billing.Money.{BillingError, Money}
use agent_kuibysheff.Billing.Metric.{BillableMetric}

pub record ReportedCost (Decimal : Type 0) : Type 0 where
  pub amount : Decimal
  pub unit : Option Text
  pub source : Text
  -- a `BTreeMap`: its entries in the order of their keys
  pub details : List (Text × Decimal)

pub record ProviderAttemptAccounting (Decimal : Type 0) : Type 0 where
  pub attempt : ℕ  -- u32
  pub provider_id : Text
  pub requested_model : Text
  pub resolved_model : Option Text
  pub service_tier : Option Text
  pub request_id : Option Text
  pub http_status : Option ℕ  -- u16
  pub occurred_at_ms : ℕ  -- u128
  pub usage_reported : Bool
  pub usage : TokenUsage
  pub billable_metrics : List (BillableMetric × ℕ)
  pub reported_cost : Option (ReportedCost Decimal)
  pub error : Option Text

abbrev pub model_for_pricing : {Decimal : Type 0} → ProviderAttemptAccounting Decimal → Text
model_for_pricing a = elim a.resolved_model [ some m ↦ m | none ↦ a.requested_model ]

pub data CostPrecision : Type 0 where
  actual calculated estimated : CostPrecision

pub record CostLineItem (Decimal : Type 0) : Type 0 where
  pub metric : BillableMetric
  pub quantity : ℕ  -- u64
  pub amount : Decimal

-- Why an attempt has no price: one constructor for each message.
mutual
  pub data Reason : Type 0 where
    not_reported : Reason
    no_unit : Reason
    -- reported unit, target currency
    unit_mismatch : Text → Text → Reason
    billing_error : BillingError → Reason
    -- provider, model, tier
    no_effective_rule : Text → Text → Option Text → Reason
    ambiguous_rules : Text → Text → Reason
    -- rule's currency, target currency
    rule_currency : Text → Text → Reason
    usage_missing : Reason
    no_sources : Reason
    mismatch_or_overflow : Reason
    -- what a source outside this file says
    said : Text → Reason
    -- the reasons of the sources, each behind the source's name
    joined : Reasons → Reason

  pub data Reasons : Type 0 where
    nil : Reasons
    cons : Text → Reason → Reasons → Reasons

pub data CostResolution (Decimal : Type 0) : Type 0 where
  -- money, source, precision, pricing version, line items
  priced :
      Money Decimal
      → Text
      → CostPrecision
      → Option Text
      → List (CostLineItem Decimal)
      → CostResolution Decimal
  unpriced : Reason → CostResolution Decimal

pub record RequestCost (Decimal : Type 0) : Type 0 where
  pub iteration : ℕ  -- u32
  pub attempt : ℕ  -- u32
  pub provider_id : Text
  pub request_id : Option Text
  pub model : Text
  pub service_tier : Option Text
  pub http_status : Option ℕ
  pub usage_reported : Bool
  pub usage : TokenUsage
  pub billable_metrics : List (BillableMetric × ℕ)
  pub amount : Option (Money Decimal)
  pub source : Option Text
  pub precision : Option CostPrecision
  pub pricing_version : Option Text
  pub line_items : List (CostLineItem Decimal)
  pub reason : Option Reason
