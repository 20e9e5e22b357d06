-- ===== src/Billing/Tracker/Ledger.antt =====
-- The ledger's invariant: the counters and the total are those of the rows.
use mathlib.Core.Path.{subst}
use agent_kuibysheff.Common.{
  ℕ, ◌+◌, min, ◌≡◌, refl, ◌∙◌, inl, inr, Bool, true, false, Option, none, some, List, [], ◌∷◌, ◌++◌,
  arith, Option-cases, Bool-cases, ◌==◌, ==_sound, nat_eq, list_eq, length, u32_max, saturating_add,
  Text, ok, if◌then◌else◌,
}
use agent_kuibysheff.Billing.Money.{Decimals, Money}
use agent_kuibysheff.Billing.Attempt.{
  ProviderAttemptAccounting, CostLineItem, CostPrecision, Reason, CostResolution, priced, unpriced,
  RequestCost,
}
use agent_kuibysheff.Billing.Tracker.{
  RunCostTracker, priced_row, unpriced_row, record_unpriced, record_cost, new,
}

abbrev is_some : {A : Type 0} → Option A → Bool
is_some none = false
is_some (some a) = true

module _ {Decimal : Type 0} where
  -- How many rows have a price, and how many have none.
  abbrev pub count_priced : List (RequestCost Decimal) → ℕ
  count_priced [] = 0
  count_priced (r ∷ rs) = (if is_some r.amount then 1 else 0) + count_priced rs

  abbrev pub count_unpriced : List (RequestCost Decimal) → ℕ
  count_unpriced [] = 0
  count_unpriced (r ∷ rs) = (if is_some r.amount then 0 else 1) + count_unpriced rs

  abbrev InCurrency : Text → Option (Money Decimal) → Type 0
  InCurrency target none = Unit
  InCurrency target (some m) = m.currency ≡ target

  -- Every price in the rows is in one currency.
  abbrev pub AllInCurrency : Text → List (RequestCost Decimal) → Type 0
  AllInCurrency target [] = Unit
  AllInCurrency target (r ∷ rs) = InCurrency target r.amount × AllInCurrency target rs

  count_priced-snoc :
      (rs : List (RequestCost Decimal)) (r : RequestCost Decimal)
      → count_priced (rs ++ r ∷ []) ≡ count_priced rs + (if is_some r.amount then 1 else 0)
  count_priced-snoc [] r = omega arith
  count_priced-snoc (x ∷ rs) r = omega (arith, count_priced-snoc rs r)

  count_unpriced-snoc :
      (rs : List (RequestCost Decimal)) (r : RequestCost Decimal)
      → count_unpriced (rs ++ r ∷ []) ≡ count_unpriced rs + (if is_some r.amount then 0 else 1)
  count_unpriced-snoc [] r = omega arith
  count_unpriced-snoc (x ∷ rs) r = omega (arith, count_unpriced-snoc rs r)

  AllInCurrency-snoc :
      (target : Text) (rs : List (RequestCost Decimal)) (r : RequestCost Decimal)
      → AllInCurrency target rs
      → InCurrency target r.amount
      → AllInCurrency target (rs ++ r ∷ [])
  AllInCurrency-snoc target [] r h k = (k, tt)
  AllInCurrency-snoc target (x ∷ rs) r h k = (h.0, AllInCurrency-snoc target rs r h.1 k)

  pub count_rows :
      (rs : List (RequestCost Decimal)) → count_priced rs + count_unpriced rs ≡ length rs
  count_rows [] = omega arith
  count_rows (r ∷ rs) = ground (arith, count_rows rs)

module _ {Decimal : Type 0} ⦃d : Decimals Decimal⦄ where
  -- The prices of the rows, added in order to a start.
  abbrev pub total_of : Decimal → List (RequestCost Decimal) → Option Decimal
  total_of start [] = some start
  total_of start (r ∷ rs) = elim r.amount [
    | none ↦ total_of start rs
    | some m ↦ elim (d.checked_add start m.amount) [
      | none ↦ none
      | some start' ↦ total_of start' rs
    ]
  ]

  total_of-snoc :
      (start : Decimal) (rs : List (RequestCost Decimal)) (r : RequestCost Decimal) {t : Decimal}
      → total_of start rs ≡ some t
      → total_of start (rs ++ r ∷ []) ≡ total_of t (r ∷ [])
  total_of-snoc start [] r h = ground arith
  total_of-snoc start (x ∷ rs) r {t} h = elim (Option-cases x.amount) [
    | inl e ↦ rw (e, total_of) (total_of-snoc start rs r {t = t} (rw (e, total_of) at h))
    | inr (m, e) ↦ elim (Option-cases (d.checked_add start m.amount)) [
      | inl o ↦ absurd (cc (rw (e, o, total_of) at h))
      | inr (s', o) ↦ rw (e, o, total_of) (total_of-snoc s' rs r {t = t} (rw (e, o, total_of) at h))
    ]
  ]

  -- What the tracker's fields say of its rows.
  pub record IsLedger (t : RunCostTracker Decimal) : Type 0 where
    pub total : total_of d.zero t.requests ≡ some t.known_total
    pub priced_count : t.priced_requests ≡ min u32_max (count_priced t.requests)
    pub unpriced_count : t.unpriced_requests ≡ min u32_max (count_unpriced t.requests)
    pub currencies : AllInCurrency t.target_currency t.requests

  record_unpriced-IsLedger :
      (t : RunCostTracker Decimal) (iteration : ℕ) (a : ProviderAttemptAccounting Decimal)
      (reason : Reason)
      → IsLedger t
      → IsLedger (record_unpriced t iteration a reason)
  unfolding record_unpriced
  record_unpriced-IsLedger t iteration a reason w =
      let row = unpriced_row iteration a reason in
      record {
        total = total_of-snoc d.zero t.requests row w.total;
        priced_count = omega (arith, count_priced-snoc t.requests row, w.priced_count);
        unpriced_count = omega (arith, count_unpriced-snoc t.requests row, w.unpriced_count);
        currencies = AllInCurrency-snoc t.target_currency t.requests row w.currencies tt;
      }

  priced-IsLedger :
      (t : RunCostTracker Decimal) (iteration : ℕ) (a : ProviderAttemptAccounting Decimal)
      (m : Money Decimal) (s : Text) (p : CostPrecision) (v : Option Text)
      (l : List (CostLineItem Decimal)) (total : Decimal)
      → IsLedger t
      → m.currency ≡ t.target_currency
      → d.checked_add t.known_total m.amount ≡ some total
      → IsLedger (record t {
        known_total = total;
        priced_requests = saturating_add u32_max t.priced_requests 1;
        requests = t.requests ++ priced_row iteration a m s p v l ∷ [];
      })
  priced-IsLedger t iteration a m s p v l total w c o =
      let row = priced_row iteration a m s p v l in
      record {
        total = total_of-snoc d.zero t.requests row w.total ∙ rw o;
        priced_count = omega (arith, count_priced-snoc t.requests row, w.priced_count);
        unpriced_count = omega (arith, count_unpriced-snoc t.requests row, w.unpriced_count);
        currencies = AllInCurrency-snoc t.target_currency t.requests row w.currencies c;
      }

  -- Recording an attempt, with a price or without one, keeps the ledger right: the total is the
  -- checked sum of the rows' prices, the two counters count the rows with and without a price (up to
  -- the largest u32), and every price is in the target currency.
  pub record_cost-IsLedger :
      (t : RunCostTracker Decimal) (iteration : ℕ) (a : ProviderAttemptAccounting Decimal)
      (c : CostResolution Decimal)
      → IsLedger t
      → IsLedger (record_cost t iteration a c)
  unfolding record_cost
  record_cost-IsLedger t iteration a (unpriced reason) w =
      record_unpriced-IsLedger t iteration a reason w
  record_cost-IsLedger t iteration a (priced m s p v l) w =
      let refused = record_unpriced-IsLedger t iteration a Reason.mismatch_or_overflow w in
      elim (Bool-cases (m.currency == t.target_currency)) [
        | inr other ↦ rw other refused
        | inl same ↦ elim (Option-cases (d.checked_add t.known_total m.amount)) [
          | inl overflow ↦ rw (same, overflow) refused
          | inr (total, o) ↦
              rw (same, o)
                (priced-IsLedger t iteration a m s p v l total w
                  (==_sound m.currency t.target_currency same) o)
        ]
      ]

  abbrev empty_tracker : Text → Option (Money Decimal) → RunCostTracker Decimal
  empty_tracker target limit = record {
    target_currency = target;
    known_total = d.zero;
    priced_requests = 0;
    unpriced_requests = 0;
    requests = [];
    max_cost = limit;
  }

  pub new-IsLedger :
      (target : Text) (limit : Option (Money Decimal)) (t : RunCostTracker Decimal)
      → new target limit ≡ ok t
      → IsLedger t
  unfolding new
  new-IsLedger target limit t h =
      let start : empty_tracker target limit ≡ t = ground arith in
      subst IsLedger start
        (record { total = refl; priced_count = refl; unpriced_count = refl; currencies = tt })

  -- The attempts of a run, recorded one by one.
  abbrev pub record_all :
      RunCostTracker Decimal
      → List (ℕ × ProviderAttemptAccounting Decimal × CostResolution Decimal)
      → RunCostTracker Decimal
  record_all t [] = t
  record_all t ((iteration, a, c) ∷ rest) = record_all (record_cost t iteration a c) rest

  record_all-IsLedger :
      (t : RunCostTracker Decimal)
      (attempts : List (ℕ × ProviderAttemptAccounting Decimal × CostResolution Decimal))
      → IsLedger t
      → IsLedger (record_all t attempts)
  record_all-IsLedger t [] w = w
  record_all-IsLedger t ((iteration, a, c) ∷ rest) w =
      record_all-IsLedger (record_cost t iteration a c) rest
        (record_cost-IsLedger t iteration a c w)

  -- From a new tracker, whatever attempts are recorded, the ledger is right: the total is the
  -- checked sum of the rows' prices, the counters count the rows with and without a price (up to
  -- the largest u32), and every price is in the target currency.
  pub IsLedger-of_run :
      (target : Text) (limit : Option (Money Decimal)) (t : RunCostTracker Decimal)
      (attempts : List (ℕ × ProviderAttemptAccounting Decimal × CostResolution Decimal))
      → new target limit ≡ ok t
      → IsLedger (record_all t attempts)
  IsLedger-of_run target limit t attempts h =
      record_all-IsLedger t attempts (new-IsLedger target limit t h)
