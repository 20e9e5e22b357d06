-- ===== src/Billing/Pricing/Selection.antt =====
-- In a validated catalog at most one rule is in force for an attempt, and that one is selected.
use mathlib.Core.List.{Memᴰ}
use agent_kuibysheff.Common.{
  ℕ, ◌<◌, ◌≡◌, refl, sym, ◌∙◌, ap, inl, inr, true, false, ◌&&◌, Option, none, some, List, [], ◌∷◌,
  arith, Bool-cases, ◌==◌, ==_sound, ==_refl, lt→ltb, nat_eq, list_eq, option_eq, Eq, filter, ok,
}
use agent_kuibysheff.Billing.Attempt.{ProviderAttemptAccounting, model_for_pricing}
use agent_kuibysheff.Billing.Catalog.{
  PricingRule, same_selector, overlaps, until_or_max, u128_max, clashes, validate,
}
use agent_kuibysheff.Billing.Catalog.Validation.{AllChecked, validate-AllChecked}
use agent_kuibysheff.Billing.Pricing.{
  CatalogCostResolver, before_end, matches, select, matching_rule,
}

same_as {ℓ} :
    {A : Type ℓ} ⦃e : Eq A⦄ (x y z : A) → (x == z) ≡ true → (y == z) ≡ true → (x == y) ≡ true
same_as x y z p q = rw (==_sound x z p, ==_sound y z q) (==_refl z)

before_end-lt : (u : Option ℕ) (t : ℕ) → t < u128_max → before_end u t ≡ true → t < until_or_max u
before_end-lt none t h b = h
before_end-lt (some u) t h b = ground arith

module _ {Decimal : Type 0} (a : ProviderAttemptAccounting Decimal)
    (now : a.occurred_at_ms < u128_max) where
  -- Two rules that are in force at one time for one selector clash.
  matches-clash :
      (r o : PricingRule Decimal)
      → matches a r ≡ true
      → matches a o ≡ true
      → (same_selector r o && overlaps r o) ≡ true
  unfolding matches
  matches-clash r o hr ho = ground (
    arith,
    hr,
    ho,
    same_as r.provider_id o.provider_id a.provider_id,
    same_as r.model o.model (model_for_pricing a),
    same_as r.service_tier o.service_tier a.service_tier,
    before_end-lt r.effective_until_ms a.occurred_at_ms now,
    before_end-lt o.effective_until_ms a.occurred_at_ms now,
    lt→ltb r.effective_from_ms (until_or_max o.effective_until_ms),
    lt→ltb o.effective_from_ms (until_or_max r.effective_until_ms),
  )

  no_second :
      (r : PricingRule Decimal) (rs : List (PricingRule Decimal))
      → clashes r rs ≡ false
      → matches a r ≡ true
      → filter (matches a) rs ≡ []
  unfolding clashes
  no_second r [] h m = refl
  no_second r (o ∷ rs) h m = ground (arith, matches-clash r o m, no_second r rs)

  none_matches :
      (r : PricingRule Decimal) (rs : List (PricingRule Decimal))
      → filter (matches a) rs ≡ []
      → Memᴰ r rs
      → matches a r ≡ false
  none_matches r [] h d = elim d [ ]
  none_matches r (o ∷ rs) h (Memᴰ.head e) = rw e (ground arith)
  none_matches r (o ∷ rs) h (Memᴰ.tail d) = none_matches r rs (ground arith) d

  filter_one :
      (r : PricingRule Decimal) (rs : List (PricingRule Decimal))
      → AllChecked rs
      → Memᴰ r rs
      → matches a r ≡ true
      → filter (matches a) rs ≡ r ∷ []
  filter_one r [] c d m = elim d [ ]
  filter_one r (o ∷ rs) c (Memᴰ.head e) m =
      let mo = ap (matches a) (sym e) ∙ m in
      rw (mo, no_second o rs (c.0).apart mo) (ap (λ t. t ∷ []) (sym e))
  filter_one r (o ∷ rs) c (Memᴰ.tail d) m = elim (Bool-cases (matches a o)) [
    | inl both ↦ absurd (cc (m, none_matches r rs (no_second o rs (c.0).apart both) d))
    | inr other ↦ rw other (filter_one r rs c.1 d m)
  ]

  -- In a validated catalog, the rule that is in force for an attempt before the largest u128 of
  -- milliseconds is the one that is selected, whatever other rules there are.
  pub matching_rule_complete :
      (c : CatalogCostResolver Decimal) (r : PricingRule Decimal)
      → validate c.catalog ≡ ok tt
      → Memᴰ r c.catalog.rules
      → matches a r ≡ true
      → matching_rule c a ≡ ok r
  unfolding matching_rule
  matching_rule_complete c r v d m =
      rw (filter_one r c.catalog.rules (validate-AllChecked c.catalog v) d m)

module _ {Decimal : Type 0} (a : ProviderAttemptAccounting Decimal) where
  mem_of_filter :
      (r : PricingRule Decimal) (rs os : List (PricingRule Decimal))
      → filter (matches a) rs ≡ r ∷ os
      → Memᴰ r rs × (matches a r ≡ true)
  mem_of_filter r [] os h = cc
  mem_of_filter r (o ∷ rs) os h = elim (Bool-cases (matches a o)) [
    | inl m ↦
        let same : o ≡ r = cc (rw m at h) in (Memᴰ.head (sym same), ap (matches a) (sym same) ∙ m)
    | inr n ↦ let (d, m) = mem_of_filter r rs os (rw n at h) in (Memᴰ.tail d, m)
  ]

  select-eq-ok :
      (rs : List (PricingRule Decimal)) (r : PricingRule Decimal) → select a rs ≡ ok r → rs ≡ r ∷ []
  select-eq-ok [] r h = cc
  select-eq-ok (o ∷ []) r h = ap (λ t. t ∷ []) (cc)
  select-eq-ok (o ∷ p ∷ rs) r h = cc

  -- A selected rule is one of the catalog's, and it is in force for the attempt.
  pub matching_rule_sound :
      (c : CatalogCostResolver Decimal) (r : PricingRule Decimal)
      → matching_rule c a ≡ ok r
      → Memᴰ r c.catalog.rules × (matches a r ≡ true)
  unfolding matching_rule
  matching_rule_sound c r h =
      mem_of_filter r c.catalog.rules [] (select-eq-ok (filter (matches a) c.catalog.rules) r h)
