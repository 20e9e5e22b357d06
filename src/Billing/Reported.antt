-- ===== src/Billing/Reported.antt =====
-- `ProviderReportedCostResolver`: the cost that the provider put into its response.
use agent_kuibysheff.Common.{
  not, Option, none, some, map, ◌==◌, nat_eq, list_eq, if◌then◌else◌, Text, Result, ok, err, ◌>>◌,
}
use agent_kuibysheff.Billing.Money
use agent_kuibysheff.Billing.Money.{Money, BillingError, validate_currency}
use agent_kuibysheff.Billing.Metric
use agent_kuibysheff.Billing.Metric.{BillableMetric}
use agent_kuibysheff.Billing.Attempt.{
  ReportedCost, ProviderAttemptAccounting, CostPrecision, CostLineItem, Reason, CostResolution,
  priced, unpriced,
}

pub record ProviderReportedCostResolver : Type 0 where
  pub target_currency : Text
  pub default_unit : Option Text

unfoldable pub validate_unit : Option Text → Result (Unit {0}) BillingError
validate_unit none = ok tt
validate_unit (some unit) = validate_currency unit

-- `ProviderReportedCostResolver::new`
unfoldable pub new : Text → Option Text → Result ProviderReportedCostResolver BillingError
unfolding validate_unit
new target_currency default_unit = do
  validate_currency target_currency
  validate_unit default_unit
  ok (record { target_currency = target_currency; default_unit = default_unit })

-- `Option::or`
abbrev or_else : Option Text → Option Text → Option Text
or_else (some a) b = some a
or_else none b = b

module _ {Decimal : Type 0} where
  -- The metric of a reported detail: a name that does not parse is kept as it is.
  unfoldable pub detail_item : Text × Decimal → CostLineItem Decimal
  detail_item (metric, amount) = record {
    metric = elim (Metric.from_str metric) [ ok m ↦ m | err _ ↦ BillableMetric.other metric ];
    quantity = 0;
    amount = amount;
  }

  unfoldable pub resolve_unit :
      ProviderReportedCostResolver → ReportedCost Decimal → Text → CostResolution Decimal
  unfolding detail_item
  resolve_unit r reported unit =
      if not (unit == r.target_currency)
      then unpriced (Reason.unit_mismatch unit r.target_currency)
      else elim (Money.new reported.amount unit) [
        | ok money ↦
            priced money reported.source CostPrecision.actual none
              (map detail_item reported.details)
        | err e ↦ unpriced (Reason.billing_error e)
      ]

  unfoldable pub resolve_reported :
      ProviderReportedCostResolver → ReportedCost Decimal → CostResolution Decimal
  unfolding resolve_unit
  resolve_reported r reported = elim (or_else reported.unit r.default_unit) [
    | none ↦ unpriced Reason.no_unit
    | some unit ↦ resolve_unit r reported unit
  ]

  -- `ProviderReportedCostResolver::resolve`
  unfoldable pub resolve :
      ProviderReportedCostResolver → ProviderAttemptAccounting Decimal → CostResolution Decimal
  unfolding resolve_reported
  resolve r attempt = elim attempt.reported_cost [
    | none ↦ unpriced Reason.not_reported
    | some reported ↦ resolve_reported r reported
  ]
