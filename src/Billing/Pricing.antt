-- ===== src/Billing/Pricing.antt =====
-- `CatalogCostResolver`: the one rule that is in force for an attempt, and its price.
pub mod Selection
pub mod Total
use agent_kuibysheff.Common.{
  ℕ, zero, suc, ◌-◌, Bool, true, false, not, ◌&&◌, ◌||◌, Option, none, some, List, [], ◌∷◌, ◌++◌,
  ltb, leb, ◌==◌, Eq, nat_eq, list_eq, option_eq, if◌then◌else◌, is_empty, any, all, contains,
  filter, Text, text, trim, Result, ok, err, ◌>>=◌, ◌>>◌, ensure,
}
use agent_kuibysheff.Billing.Money
use agent_kuibysheff.Billing.Money.{Decimals, Money, BillingError, validate_currency}
use agent_kuibysheff.Billing.Metric.{BillableMetric, metric_eq}
use agent_kuibysheff.Billing.Attempt.{
  ProviderAttemptAccounting, model_for_pricing, CostPrecision, CostLineItem, Reason, CostResolution,
  priced, unpriced,
}
use agent_kuibysheff.Billing.Catalog.{MeterRate, PricingRule, PricingCatalog, validate}

pub record CatalogCostResolver (Decimal : Type 0) : Type 0 where
  pub catalog : PricingCatalog Decimal
  pub target_currency : Text

-- `BTreeMap::get(..).copied().unwrap_or_default()`
unfoldable pub quantity_of : BillableMetric → List (BillableMetric × ℕ) → ℕ
quantity_of metric [] = 0
quantity_of metric ((m, n) ∷ ms) = if m == metric then n else quantity_of metric ms

-- `attempt.occurred_at_ms < until` where the window has an end.
abbrev pub before_end : Option ℕ → ℕ → Bool
before_end none t = true
before_end (some until) t = ltb t until

module _ {Decimal : Type 0} where
  -- `CatalogCostResolver::new`
  unfoldable pub new :
      PricingCatalog Decimal → Text → Result (CatalogCostResolver Decimal) BillingError
  unfolding validate
  new catalog target_currency = do
    validate catalog
    validate_currency target_currency
    ok (record { catalog = catalog; target_currency = target_currency })

  -- The filter of `matching_rule`.
  unfoldable pub matches : ProviderAttemptAccounting Decimal → PricingRule Decimal → Bool
  matches a r =
      r.provider_id == a.provider_id
      && (r.model == model_for_pricing a
          && (r.service_tier == a.service_tier
              && (leb r.effective_from_ms a.occurred_at_ms
                  && before_end r.effective_until_ms a.occurred_at_ms)))

  abbrev pub select :
      ProviderAttemptAccounting Decimal
      → List (PricingRule Decimal)
      → Result (PricingRule Decimal) Reason
  select a [] = err (Reason.no_effective_rule a.provider_id (model_for_pricing a) a.service_tier)
  select a (r ∷ []) = ok r
  select a (r ∷ o ∷ rs) = err (Reason.ambiguous_rules a.provider_id (model_for_pricing a))

  unfoldable pub matching_rule :
      CatalogCostResolver Decimal
      → ProviderAttemptAccounting Decimal
      → Result (PricingRule Decimal) Reason
  unfolding matches
  matching_rule c a = select a (filter (matches a) c.catalog.rules)

  abbrev pub request_item : Decimal → CostLineItem Decimal
  request_item fixed = record {
    metric = BillableMetric.other (text "request");
    quantity = 1;
    amount = fixed;
  }

module _ {Decimal : Type 0} ⦃d : Decimals Decimal⦄ where
  -- The price of one meter.
  unfoldable pub meter_amount : MeterRate Decimal → ℕ → Option Decimal
  meter_amount rate quantity = elim (d.checked_mul rate.amount (d.from_u64 quantity)) [
    | none ↦ none
    | some value ↦ d.checked_div value (d.from_u64 rate.per)
  ]

  -- The loop over the rates, with the total and the line items so far; `none` is an overflow.
  unfoldable pub price_rates :
      ProviderAttemptAccounting Decimal
      → Decimal
      → List (CostLineItem Decimal)
      → List (BillableMetric × MeterRate Decimal)
      → Option (Decimal × List (CostLineItem Decimal))
  unfolding meter_amount quantity_of
  price_rates a total items [] = some (total, items)
  price_rates a total items ((metric, rate) ∷ rs) =
      let quantity = quantity_of metric a.billable_metrics in
      elim (meter_amount rate quantity) [
        | none ↦ none
        | some amount ↦ elim (d.checked_add total amount) [
          | none ↦ none
          | some total' ↦
              price_rates a total'
                (items ++ record { metric = metric; quantity = quantity; amount = amount } ∷ []) rs
        ]
      ]

  -- The total and the items that the loop starts from.
  abbrev pub start_total : Option Decimal → Decimal
  start_total none = d.zero
  start_total (some fixed) = fixed

  abbrev pub start_items : Option Decimal → List (CostLineItem Decimal)
  start_items none = []
  start_items (some fixed) = request_item fixed ∷ []

  unfoldable pub price_rule :
      CatalogCostResolver Decimal
      → ProviderAttemptAccounting Decimal
      → PricingRule Decimal
      → CostResolution Decimal
  unfolding price_rates
  price_rule c a rule =
      if not (rule.currency == c.target_currency)
      then unpriced (Reason.rule_currency rule.currency c.target_currency)
      else if not a.usage_reported && not (is_empty rule.rates)
      then unpriced Reason.usage_missing
      else elim (price_rates a (start_total rule.fixed_cost) (start_items rule.fixed_cost)
          rule.rates) [
            | none ↦ unpriced (Reason.billing_error BillingError.arithmetic_overflow)
            | some (total, items) ↦ elim (Money.new total rule.currency) [
              | ok money ↦
                  priced money (text "catalog:" ++ c.catalog.source) CostPrecision.calculated
                    (some c.catalog.version) items
              | err e ↦ unpriced (Reason.billing_error e)
            ]
          ]

  -- `CatalogCostResolver::resolve`
  unfoldable pub resolve :
      CatalogCostResolver Decimal → ProviderAttemptAccounting Decimal → CostResolution Decimal
  unfolding matching_rule price_rule
  resolve c a = elim (matching_rule c a) [
    | err reason ↦ unpriced reason
    | ok rule ↦ price_rule c a rule
  ]
