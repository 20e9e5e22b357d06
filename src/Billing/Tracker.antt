-- ===== src/Billing/Tracker.antt =====
-- `RunCostTracker`: the run's cost ledger, the cost limit and the run-level report.
pub mod Ledger
pub mod Report
use agent_kuibysheff.Common.{
  ℕ, suc, Bool, true, false, not, ◌&&◌, ◌||◌, Option, none, some, List, [], ◌∷◌, ◌++◌, ltb, ◌==◌,
  nat_eq, list_eq, is_empty, length, drop, if◌then◌else◌, u32_max, saturating_add, Text, Result, ok,
  err, ◌>>=◌, ◌>>◌,
}
use agent_kuibysheff.Billing.Money.{
  Decimals, Money, BillingError, max_cost_currency, validate_currency, from_validated,
}
use agent_kuibysheff.Billing.Attempt.{
  ProviderAttemptAccounting, model_for_pricing, CostPrecision, CostLineItem, Reason, CostResolution,
  priced, unpriced, RequestCost,
}

pub data CostReportStatus : Type 0 where
  complete partial unavailable : CostReportStatus

pub data BudgetStatus : Type 0 where
  not_configured degraded limit_reached enforced : BudgetStatus

pub record RunCostReport (Decimal : Type 0) : Type 0 where
  pub status : CostReportStatus
  pub known_total : Option (Money Decimal)
  pub priced_requests : ℕ  -- u32
  pub unpriced_requests : ℕ  -- u32
  pub budget_status : BudgetStatus
  pub requests : List (RequestCost Decimal)

-- `RunCostReport::default`
abbrev pub empty_report : {Decimal : Type 0} → RunCostReport Decimal
empty_report = record {
  status = unavailable;
  known_total = none;
  priced_requests = 0;
  unpriced_requests = 0;
  budget_status = not_configured;
  requests = [];
}

pub record RunCostTracker (Decimal : Type 0) : Type 0 where
  pub target_currency : Text
  pub known_total : Decimal
  pub priced_requests : ℕ  -- u32
  pub unpriced_requests : ℕ  -- u32
  pub requests : List (RequestCost Decimal)
  pub max_cost : Option (Money Decimal)

module _ {Decimal : Type 0} where
  -- The row of an attempt with a price.
  abbrev pub priced_row :
      ℕ
      → ProviderAttemptAccounting Decimal
      → Money Decimal
      → Text
      → CostPrecision
      → Option Text
      → List (CostLineItem Decimal)
      → RequestCost Decimal
  priced_row iteration a money source precision version items = record {
    iteration = iteration;
    attempt = a.attempt;
    provider_id = a.provider_id;
    request_id = a.request_id;
    model = model_for_pricing a;
    service_tier = a.service_tier;
    http_status = a.http_status;
    usage_reported = a.usage_reported;
    usage = a.usage;
    billable_metrics = a.billable_metrics;
    amount = some money;
    source = some source;
    precision = some precision;
    pricing_version = version;
    line_items = items;
    reason = none;
  }

  -- The row of an attempt without one.
  abbrev pub unpriced_row : ℕ → ProviderAttemptAccounting Decimal → Reason → RequestCost Decimal
  unpriced_row iteration a reason = record {
    iteration = iteration;
    attempt = a.attempt;
    provider_id = a.provider_id;
    request_id = a.request_id;
    model = model_for_pricing a;
    service_tier = a.service_tier;
    http_status = a.http_status;
    usage_reported = a.usage_reported;
    usage = a.usage;
    billable_metrics = a.billable_metrics;
    amount = none;
    source = none;
    precision = none;
    pricing_version = none;
    line_items = [];
    reason = some reason;
  }

  unfoldable pub record_unpriced :
      RunCostTracker Decimal
      → ℕ
      → ProviderAttemptAccounting Decimal
      → Reason
      → RunCostTracker Decimal
  record_unpriced t iteration a reason = record t {
    unpriced_requests = saturating_add u32_max t.unpriced_requests 1;
    requests = t.requests ++ unpriced_row iteration a reason ∷ [];
  }

  -- `requests_since`: nothing where the start is behind the end.
  abbrev pub requests_since : RunCostTracker Decimal → ℕ → List (RequestCost Decimal)
  requests_since t start = drop start t.requests

  abbrev max_cost_matches : Option (Money Decimal) → Text → Result (Unit {0}) BillingError
  max_cost_matches none target = ok tt
  max_cost_matches (some limit) target =
      if not (limit.currency == target)
      then err (max_cost_currency limit.currency target)
      else ok tt

module _ {Decimal : Type 0} ⦃d : Decimals Decimal⦄ where
  -- `RunCostTracker::new`
  unfoldable pub new : Text → Option (Money Decimal) → Result (RunCostTracker Decimal) BillingError
  unfolding validate_currency
  new target max_cost = do
    validate_currency target
    max_cost_matches max_cost target
    ok (record {
      target_currency = target;
      known_total = d.zero;
      priced_requests = 0;
      unpriced_requests = 0;
      requests = [];
      max_cost = max_cost;
    })

  -- `record`, which is a reserved word here.
  unfoldable pub record_cost :
      RunCostTracker Decimal
      → ℕ
      → ProviderAttemptAccounting Decimal
      → CostResolution Decimal
      → RunCostTracker Decimal
  unfolding record_unpriced
  record_cost t iteration a (unpriced reason) = record_unpriced t iteration a reason
  record_cost t iteration a (priced money source precision version items) =
      let mismatch = record_unpriced t iteration a Reason.mismatch_or_overflow in
      if money.currency == t.target_currency
      then elim (d.checked_add t.known_total money.amount) [
        | none ↦ mismatch
        | some total ↦ record t {
          known_total = total;
          priced_requests = saturating_add u32_max t.priced_requests 1;
          requests = t.requests ++ priced_row iteration a money source precision version items ∷ [];
        }
      ]
      else mismatch

  -- Whether a total reaches a limit that is configured.
  abbrev pub reaches : Option (Money Decimal) → Decimal → Bool
  reaches none total = false
  reaches (some limit) total = d.ge total limit.amount

  unfoldable pub limit_hit : RunCostTracker Decimal → Bool
  limit_hit t = reaches t.max_cost t.known_total

  abbrev status_of : List (RequestCost Decimal) → ℕ → ℕ → CostReportStatus
  status_of requests n_priced n_unpriced =
      if is_empty requests || n_priced == 0
      then unavailable
      else if n_unpriced == 0
      then complete
      else partial

  abbrev budget_of : Option (Money Decimal) → ℕ → Decimal → BudgetStatus
  budget_of none n_unpriced total = not_configured
  budget_of (some limit) n_unpriced total =
      if ltb 0 n_unpriced
      then degraded
      else if d.ge total limit.amount
      then limit_reached
      else enforced

  -- `report`, `into_report` and `build_run_cost_report`
  unfoldable pub report : RunCostTracker Decimal → RunCostReport Decimal
  report t = record {
    status = status_of t.requests t.priced_requests t.unpriced_requests;
    known_total =
        if ltb 0 t.priced_requests
        then some (from_validated t.known_total t.target_currency)
        else none;
    priced_requests = t.priced_requests;
    unpriced_requests = t.unpriced_requests;
    budget_status = budget_of t.max_cost t.unpriced_requests t.known_total;
    requests = t.requests;
  }
