-- ===== src/Tests/Prices.antt =====
-- Prices and the cost ledger on concrete inputs.
use agent_kuibysheff.Common.{
  ℕ, ◌≡◌, ◌≢◌, ◌<◌, ◌↔◌, refl, true, none, some, List, [], ◌∷◌, text, ok, bytes, trim, list_beq,
  option_beq, length, arith,
}
use mathlib.Core.List.{Memᴰ}
use agent_kuibysheff.Billing.Money
use agent_kuibysheff.Billing.Money.{Money, validate_currency}
use agent_kuibysheff.Billing.Attempt.{
  CostLineItem, calculated, Reason, not_reported, joined, Reasons, priced, unpriced,
}
use agent_kuibysheff.Billing.Chain
use agent_kuibysheff.Billing.Chain.{
  CostResolver, AllUnpriced, FirstPriced, join, resolve-FirstPriced, resolve-AllUnpriced,
}
use agent_kuibysheff.Billing.Catalog.{PricingRule, validate}
use agent_kuibysheff.Billing.Pricing
use agent_kuibysheff.Billing.Pricing.{
  CatalogCostResolver, matches, matching_rule, price_rule, request_item,
}
use agent_kuibysheff.Billing.Pricing.Selection.{matching_rule_complete}
use agent_kuibysheff.Billing.Pricing.Total.{Priced, resolve_total}
use agent_kuibysheff.Billing.Tracker
use agent_kuibysheff.Billing.Tracker.{
  RunCostTracker, complete, unavailable, limit_reached, degraded, record_cost, report, limit_hit,
}
use agent_kuibysheff.Billing.Tracker.Ledger.{
  IsLedger, new-IsLedger, record_cost-IsLedger, record_all, count_priced, count_unpriced,
  IsLedger-of_run,
}
use agent_kuibysheff.Billing.Tracker.Report.{report_status, report_budget}
use agent_kuibysheff.Tests.Fixtures.{cents, attempt, tracker}

abbrev rule : PricingRule ℕ
rule = record {
  provider_id = text "p";
  model = text "m";
  service_tier = none;
  effective_from_ms = 100;
  effective_until_ms = none;
  currency = text "USD";
  fixed_cost = some 3;
  rates = [];
}

abbrev old_rule : PricingRule ℕ
old_rule = record rule { effective_from_ms = 10; effective_until_ms = some 100 }

abbrev resolver : CatalogCostResolver ℕ
resolver = record {
  catalog = record { version = text "v1"; source = text "s"; rules = old_rule ∷ rule ∷ [] };
  target_currency = text "USD";
}

catalog_valid : validate resolver.catalog ≡ ok tt
unfolding validate trim validate_currency bytes list_beq option_beq
catalog_valid = refl

rule-matches : matches attempt rule ≡ true
unfolding matches list_beq option_beq
rule-matches = refl

matching_rule_complete_example : matching_rule resolver attempt ≡ ok rule
matching_rule_complete_example =
    matching_rule_complete attempt (omega arith) resolver rule catalog_valid
      (Memᴰ.tail (Memᴰ.head refl)) rule-matches

rule_selected : matching_rule resolver attempt ≡ ok rule
unfolding matching_rule list_beq option_beq
rule_selected = refl

abbrev three : Money ℕ
three = record { amount = 3; currency = text "USD" }

abbrev three_items : List (CostLineItem ℕ)
three_items = request_item 3 ∷ []

attempt_priced :
    Pricing.resolve resolver attempt
    ≡ priced three (text "catalog:s") calculated (some (text "v1")) three_items
unfolding Pricing.resolve list_beq option_beq Money.new bytes
attempt_priced = refl

resolve_total_example :
    (r : PricingRule ℕ) × (matching_rule resolver attempt ≡ ok r)
    × Priced resolver attempt r three three_items
resolve_total_example =
    resolve_total resolver attempt three (text "catalog:s") calculated (some (text "v1"))
      three_items attempt_priced

abbrev silent : CostResolver ℕ
silent = record { name = text "silent"; resolve = λ a. unpriced not_reported }

abbrev by_catalog : CostResolver ℕ
by_catalog = record { name = text "pricing_catalog"; resolve = Pricing.resolve resolver }

abbrev both : List (CostResolver ℕ)
both = silent ∷ by_catalog ∷ []

chain_priced :
    Chain.resolve attempt both
    ≡ priced three (text "catalog:s") calculated (some (text "v1")) three_items
unfolding Chain.resolve Pricing.resolve list_beq option_beq Money.new bytes
chain_priced = refl

resolve-FirstPriced_example :
    FirstPriced attempt both
      (priced three (text "catalog:s") calculated (some (text "v1")) three_items)
resolve-FirstPriced_example =
    resolve-FirstPriced attempt both three (text "catalog:s") calculated (some (text "v1"))
      three_items chain_priced

abbrev only_silent : Reason
only_silent = joined (Reasons.cons (text "silent") not_reported Reasons.nil)

chain_silent : Chain.resolve attempt (silent ∷ []) ≡ unpriced only_silent
unfolding Chain.resolve
chain_silent = refl

resolve-AllUnpriced_example :
    (reasons : Reasons) × AllUnpriced attempt (silent ∷ []) reasons × (only_silent ≡ join reasons)
resolve-AllUnpriced_example = resolve-AllUnpriced attempt (silent ∷ []) only_silent chain_silent

fresh : Tracker.new (text "USD") none ≡ ok tracker
unfolding Tracker.new bytes
fresh = refl

abbrev recorded : RunCostTracker ℕ
recorded = record_all tracker (
    (1, attempt, priced three (text "catalog:s") calculated none [])
    ∷ (2, attempt, unpriced not_reported)
    ∷ [])

IsLedger-of_run_example : IsLedger recorded
IsLedger-of_run_example =
    IsLedger-of_run (text "USD") none tracker
      ((1, attempt, priced three (text "catalog:s") calculated none [])
        ∷ (2, attempt, unpriced not_reported)
        ∷ [])
      fresh

tracker-IsLedger : IsLedger tracker
tracker-IsLedger = new-IsLedger (text "USD") none tracker fresh

recorded-IsLedger : IsLedger recorded
recorded-IsLedger = record_cost-IsLedger _ 2 attempt (unpriced not_reported) (
    record_cost-IsLedger tracker 1 attempt (priced three (text "catalog:s") calculated none [])
      tracker-IsLedger)

report_status_example :
    ((report recorded).status ≡ complete ↔ (
      (0 < length recorded.requests) × (count_priced recorded.requests ≡ length recorded.requests)))
    × ((report recorded).status ≡ unavailable ↔ (count_priced recorded.requests ≡ 0))
report_status_example = report_status recorded recorded-IsLedger

report_budget_example :
    ((report recorded).budget_status ≡ limit_reached
      ↔ ((limit_hit recorded ≡ true) × (count_unpriced recorded.requests ≡ 0)))
    × ((report recorded).budget_status ≡ degraded
        ↔ ((recorded.max_cost ≢ none) × (0 < count_unpriced recorded.requests)))
report_budget_example = report_budget recorded recorded-IsLedger
