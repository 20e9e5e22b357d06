-- ===== src/Billing/Tracker/Report.antt =====
-- What the run-level report says of the ledger.
use agent_kuibysheff.Common.{◌<◌, ◌≡◌, ◌≢◌, ◌↔◌, true, none, arith, length}
use agent_kuibysheff.Billing.Money.{Decimals}
use agent_kuibysheff.Billing.Tracker.{
  RunCostTracker, complete, unavailable, degraded, limit_reached, limit_hit, report,
}
use agent_kuibysheff.Billing.Tracker.Ledger.{IsLedger, count_priced, count_unpriced, count_rows}

module _ {Decimal : Type 0} ⦃d : Decimals Decimal⦄ (t : RunCostTracker Decimal) where
  -- The report of a right ledger is complete exactly when there are rows and all have a price, and
  -- unavailable exactly when no row has one.
  pub report_status :
      IsLedger t
      → ((report t).status ≡ complete
          ↔ ((0 < length t.requests) × (count_priced t.requests ≡ length t.requests)))
        × ((report t).status ≡ unavailable ↔ (count_priced t.requests ≡ 0))
  unfolding report
  report_status w = ground (arith, count_rows t.requests)

  -- The budget is reported as reached exactly when the limit stops the run and every row has a
  -- price; with a row that has none, a configured budget is reported as degraded.
  pub report_budget :
      IsLedger t
      → ((report t).budget_status ≡ limit_reached
          ↔ ((limit_hit t ≡ true) × (count_unpriced t.requests ≡ 0)))
        × ((report t).budget_status ≡ degraded
            ↔ ((t.max_cost ≢ none) × (0 < count_unpriced t.requests)))
  unfolding report limit_hit
  report_budget w = ground arith
