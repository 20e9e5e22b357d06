-- ===== src/Billing/Catalog.antt =====
-- The pricing catalog: its rules and their validation. Loading the file is I/O and not modelled.
pub mod Validation
use Prim.Native.Nat.{◌^◌}
use agent_kuibysheff.Common.{
  ℕ, zero, suc, ◌-◌, Bool, true, false, not, ◌&&◌, ◌||◌, Option, none, some, List, [], ◌∷◌, ◌++◌,
  ltb, leb, ◌==◌, Eq, nat_eq, list_eq, option_eq, if◌then◌else◌, is_empty, any, all, contains,
  filter, Text, text, trim, Result, ok, err, ◌>>=◌, ◌>>◌, ensure,
}
use agent_kuibysheff.Billing.Money
use agent_kuibysheff.Billing.Money.{Decimals, Money, BillingError, validate_currency}
use agent_kuibysheff.Billing.Metric.{BillableMetric, metric_eq}
use agent_kuibysheff.Billing.Attempt.{
  ProviderAttemptAccounting, model_for_pricing, CostPrecision, CostLineItem, Reason, CostResolution,
  priced, unpriced,
}

abbrev pub u128_max : ℕ
u128_max = 2 ^ 128 - 1

pub record MeterRate (Decimal : Type 0) : Type 0 where
  pub amount : Decimal
  pub per : ℕ  -- u64

pub record PricingRule (Decimal : Type 0) : Type 0 where
  pub provider_id : Text
  pub model : Text
  pub service_tier : Option Text
  pub effective_from_ms : ℕ  -- u128
  pub effective_until_ms : Option ℕ  -- u128
  pub currency : Text
  pub fixed_cost : Option Decimal
  -- a `BTreeMap`: its entries in the order of their keys
  pub rates : List (BillableMetric × MeterRate Decimal)

pub record PricingCatalog (Decimal : Type 0) : Type 0 where
  pub version : Text
  pub source : Text
  pub rules : List (PricingRule Decimal)

-- `until.unwrap_or(u128::MAX)`
abbrev pub until_or_max : Option ℕ → ℕ
until_or_max none = u128_max
until_or_max (some until) = until

abbrev pub is_none : {A : Type 0} → Option A → Bool
is_none none = true
is_none (some _) = false

-- `until <= from` for a window that has an end.
abbrev pub ends_early : Option ℕ → ℕ → Bool
ends_early none from = false
ends_early (some until) from = leb until from

-- The key of `exact_windows`.
pub record WindowKey : Type 0 where
  pub provider_id : Text
  pub model : Text
  pub service_tier : Option Text
  pub effective_from_ms : ℕ
  pub effective_until_ms : Option ℕ

abbrev same_key : WindowKey → WindowKey → Bool
same_key a b =
    a.provider_id == b.provider_id
    && (a.model == b.model
        && (a.service_tier == b.service_tier
            && (a.effective_from_ms == b.effective_from_ms
                && a.effective_until_ms == b.effective_until_ms)))

unfoldable pub seen_before : List WindowKey → WindowKey → Bool
seen_before [] k = false
seen_before (x ∷ xs) k = same_key x k || seen_before xs k

module _ {Decimal : Type 0} where
  abbrev pub window_key : PricingRule Decimal → WindowKey
  window_key r = record {
    provider_id = r.provider_id;
    model = r.model;
    service_tier = r.service_tier;
    effective_from_ms = r.effective_from_ms;
    effective_until_ms = r.effective_until_ms;
  }

  abbrev pub same_selector : PricingRule Decimal → PricingRule Decimal → Bool
  same_selector r o =
      r.provider_id == o.provider_id && (r.model == o.model && r.service_tier == o.service_tier)

  abbrev pub overlaps : PricingRule Decimal → PricingRule Decimal → Bool
  overlaps r o =
      ltb r.effective_from_ms (until_or_max o.effective_until_ms)
      && ltb o.effective_from_ms (until_or_max r.effective_until_ms)

  -- The loop over the rules behind this one.
  unfoldable pub clashes : PricingRule Decimal → List (PricingRule Decimal) → Bool
  clashes r [] = false
  clashes r (o ∷ os) = same_selector r o && overlaps r o || clashes r os

  unfoldable pub zero_unit : List (BillableMetric × MeterRate Decimal) → Bool
  zero_unit [] = false
  zero_unit ((metric, rate) ∷ rs) = rate.per == 0 || zero_unit rs

  -- One round of the loop of `validate`: the rule, the keys inserted so far and the later rules.
  unfoldable pub validate_rule :
      List WindowKey
      → PricingRule Decimal
      → List (PricingRule Decimal)
      → Result (Unit {0}) BillingError
  unfolding clashes seen_before zero_unit
  validate_rule seen r later = do
    ensure (not (is_empty (trim r.provider_id) || is_empty (trim r.model)))
        BillingError.empty_provider_or_model
    validate_currency r.currency
    ensure (not (ends_early r.effective_until_ms r.effective_from_ms))
        (BillingError.invalid_window r.provider_id r.model)
    ensure (not (is_none r.fixed_cost && is_empty r.rates))
        (BillingError.no_cost r.provider_id r.model)
    ensure (not (seen_before seen (window_key r)))
        (BillingError.duplicate_window r.provider_id r.model)
    ensure (not (clashes r later))
        (BillingError.overlapping_windows r.provider_id r.model r.service_tier)
    ensure (not (zero_unit r.rates)) BillingError.zero_rate_unit

  unfoldable pub validate_rules :
      List WindowKey → List (PricingRule Decimal) → Result (Unit {0}) BillingError
  unfolding validate_rule
  validate_rules seen [] = ok tt
  validate_rules seen (r ∷ rs) = do validate_rule seen r rs; validate_rules (window_key r ∷ seen) rs

  -- `PricingCatalog::validate`
  unfoldable pub validate : PricingCatalog Decimal → Result (Unit {0}) BillingError
  unfolding validate_rules
  validate c = do
    ensure (not (is_empty (trim c.version) || is_empty (trim c.source)))
        BillingError.empty_version_or_source
    validate_rules [] c.rules
