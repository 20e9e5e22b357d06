-- ===== src/Billing/Catalog/Validation.antt =====
-- What a catalog that passed `validate` guarantees about its rules.
use agent_kuibysheff.Common.{
  ◌≡◌, true, false, List, [], ◌∷◌, arith, nat_eq, list_eq, option_eq, ok, >>=-eq-ok,
}
use agent_kuibysheff.Billing.Money.{validate_currency, is_currency}
use agent_kuibysheff.Billing.Catalog.{
  PricingRule, PricingCatalog, WindowKey, window_key, clashes, zero_unit, ends_early, validate_rule,
  validate_rules, validate,
}

-- What `validate` has checked of one rule against the rules behind it.
pub record Checked {Decimal : Type 0} (r : PricingRule Decimal) (later : List (PricingRule Decimal))
    : Type 0 where
  pub apart : clashes r later ≡ false
  pub window : ends_early r.effective_until_ms r.effective_from_ms ≡ false
  pub units : zero_unit r.rates ≡ false
  pub currency_ok : is_currency r.currency ≡ true

module _ {Decimal : Type 0} where
  -- Each rule is checked against all the rules behind it.
  abbrev pub AllChecked : List (PricingRule Decimal) → Type 0
  AllChecked [] = Unit
  AllChecked (r ∷ rs) = Checked r rs × AllChecked rs

  validate_rule-Checked :
      (seen : List WindowKey) (r : PricingRule Decimal) (later : List (PricingRule Decimal))
      → validate_rule seen r later ≡ ok tt
      → Checked r later
  unfolding validate_rule validate_currency
  validate_rule-Checked seen r later h = ground arith

  validate_rules-AllChecked :
      (seen : List WindowKey) (rs : List (PricingRule Decimal))
      → validate_rules seen rs ≡ ok tt
      → AllChecked rs
  unfolding validate_rules
  validate_rules-AllChecked seen [] h = tt
  validate_rules-AllChecked seen (r ∷ rs) h =
      let (u, one, rest) =
        >>=-eq-ok (validate_rule seen r rs) (λ _. validate_rules (window_key r ∷ seen) rs) h in
      (validate_rule-Checked seen r rs one, validate_rules-AllChecked (window_key r ∷ seen) rs rest)

  pub validate-AllChecked : (c : PricingCatalog Decimal) → validate c ≡ ok tt → AllChecked c.rules
  unfolding validate
  validate-AllChecked c h = validate_rules-AllChecked [] c.rules (ground arith)
