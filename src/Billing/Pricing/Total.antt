-- ===== src/Billing/Pricing/Total.antt =====
-- The price of an attempt is the checked sum of its line items, in the target currency.
use agent_kuibysheff.Common.{
  ◌≡◌, refl, ◌∙◌, ap, inl, inr, true, Option, none, some, List, [], ◌∷◌, ◌++◌, append-nil,
  append_assoc, arith, Option-cases, ◌==◌, ==_sound, nat_eq, list_eq, Text, ok, Result-cases,
}
use agent_kuibysheff.Billing.Money
use agent_kuibysheff.Billing.Money.{Decimals, Money, BillingError, validate_currency}
use agent_kuibysheff.Billing.Metric.{BillableMetric}
use agent_kuibysheff.Billing.Attempt.{
  ProviderAttemptAccounting, CostPrecision, CostLineItem, priced,
}
use agent_kuibysheff.Billing.Catalog.{MeterRate, PricingRule}
use agent_kuibysheff.Billing.Pricing.{
  CatalogCostResolver, quantity_of, meter_amount, price_rates, start_total, start_items, price_rule,
  matching_rule, resolve,
}

module _ {Decimal : Type 0} ⦃d : Decimals Decimal⦄ where
  -- Amounts added one by one to a total.
  abbrev pub checked_sum : Decimal → List (CostLineItem Decimal) → Option Decimal
  checked_sum total [] = some total
  checked_sum total (i ∷ is) = elim (d.checked_add total i.amount) [
    | none ↦ none
    | some total' ↦ checked_sum total' is
  ]

  -- The items of the rates: each meter in order, with the attempt's quantity and its price.
  abbrev pub ItemsOf :
      ProviderAttemptAccounting Decimal
      → List (BillableMetric × MeterRate Decimal)
      → List (CostLineItem Decimal)
      → Type 0
  ItemsOf a [] [] = Unit
  ItemsOf a ((metric, rate) ∷ rs) (i ∷ is) =
      (i.metric ≡ metric)
      × (i.quantity ≡ quantity_of metric a.billable_metrics)
      × (meter_amount rate i.quantity ≡ some i.amount)
      × ItemsOf a rs is
  ItemsOf a _ _ = ⊥

  price_rates_lem :
      (a : ProviderAttemptAccounting Decimal) (total : Decimal)
      (items : List (CostLineItem Decimal)) (rs : List (BillableMetric × MeterRate Decimal))
      {t : Decimal} {is : List (CostLineItem Decimal)}
      → price_rates a total items rs ≡ some (t, is)
      → (new : List (CostLineItem Decimal)) × (is ≡ items ++ new)
        × (checked_sum total new ≡ some t)
        × ItemsOf a rs new
  unfolding price_rates
  price_rates_lem a total items [] h = ([], rw append-nil (cc), cc, tt)
  price_rates_lem a total items ((metric, rate) ∷ rs) {t} {is} h =
      elim (Option-cases (meter_amount rate (quantity_of metric a.billable_metrics))) [
        | inl e ↦ absurd (cc (rw (e, price_rates) at h))
        | inr (amount, e) ↦ elim (Option-cases (d.checked_add total amount)) [
          | inl o ↦ absurd (cc (rw (e, o, price_rates) at h))
          | inr (total', o) ↦
              let item : CostLineItem Decimal = record {
                metric = metric;
                quantity = quantity_of metric a.billable_metrics;
                amount = amount;
              } in
              let (new, splits, sums, fits) =
                price_rates_lem a total' (items ++ item ∷ []) rs {t = t} {is = is}
                  (rw (e, o, price_rates) at h) in
              (
                item ∷ new,
                splits ∙ append_assoc items (item ∷ []) new,
                rw (o, checked_sum) sums,
                (refl, refl, e, fits),
              )
        ]
      ]

  abbrev pub Priced :
      CatalogCostResolver Decimal
      → ProviderAttemptAccounting Decimal
      → PricingRule Decimal
      → Money Decimal
      → List (CostLineItem Decimal)
      → Type 0
  Priced c a rule m l =
      (m.currency ≡ c.target_currency)
      × (new : List (CostLineItem Decimal)) × (l ≡ start_items rule.fixed_cost ++ new)
      × (checked_sum (start_total rule.fixed_cost) new ≡ some m.amount)
      × ItemsOf a rule.rates new

  price_rule-Priced :
      (c : CatalogCostResolver Decimal) (a : ProviderAttemptAccounting Decimal)
      (rule : PricingRule Decimal) (m : Money Decimal) (s : Text) (p : CostPrecision)
      (v : Option Text) (l : List (CostLineItem Decimal))
      → price_rule c a rule ≡ priced m s p v l
      → Priced c a rule m l
  unfolding price_rule Money.new validate_currency
  price_rule-Priced c a rule m s p v l h =
      elim (Option-cases
        (price_rates a (start_total rule.fixed_cost) (start_items rule.fixed_cost) rule.rates)) [
          | inl none_left ↦ absurd (ground (arith, none_left))
          | inr ((total, items), e) ↦
              let (new, splits, sums, fits) =
                price_rates_lem a (start_total rule.fixed_cost) (start_items rule.fixed_cost)
                  rule.rates {t = total} {is = items} e in
              let currency : m.currency ≡ rule.currency = ground (arith, e) in
              let amount : total ≡ m.amount = ground (arith, e) in
              let whole : l ≡ items = ground (arith, e) in
              let target : (rule.currency == c.target_currency) ≡ true = ground (arith, e) in
              (
                currency ∙ ==_sound rule.currency c.target_currency target,
                new,
                whole ∙ splits,
                sums ∙ ap some amount,
                fits,
              )
        ]

  -- A price of the catalog is in the target currency. It belongs to the one rule in force: its line
  -- items are the fixed cost, if there is one, and then the rule's meters in order, each with the
  -- attempt's quantity and its price; the amount is the checked sum of the items' amounts.
  pub resolve_total :
      (c : CatalogCostResolver Decimal) (a : ProviderAttemptAccounting Decimal) (m : Money Decimal)
      (s : Text) (p : CostPrecision) (v : Option Text) (l : List (CostLineItem Decimal))
      → resolve c a ≡ priced m s p v l
      → (rule : PricingRule Decimal) × (matching_rule c a ≡ ok rule) × Priced c a rule m l
  unfolding resolve
  resolve_total c a m s p v l h = elim (Result-cases (matching_rule c a)) [
    | inl (rule, e) ↦ (rule, e, price_rule-Priced c a rule m s p v l (rw (e, resolve) at h))
    | inr (reason, e) ↦ absurd (cc (rw (e, resolve) at h))
  ]
