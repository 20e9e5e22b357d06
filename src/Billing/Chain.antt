-- ===== src/Billing/Chain.antt =====
-- `CostResolverChain`: the first source that has a price wins.
use agent_kuibysheff.Common.{◌≡◌, refl, ap, ◌∙◌, Option, ◌⊎◌, inl, inr, List, [], ◌∷◌, ◌++◌, Text}
use agent_kuibysheff.Billing.Money.{Money}
use agent_kuibysheff.Billing.Attempt.{
  ProviderAttemptAccounting, CostLineItem, CostPrecision, Reason, joined, no_sources, Reasons,
  CostResolution, priced, unpriced,
}

-- `dyn CostResolver`: a name, and what it answers for an attempt.
pub record CostResolver (Decimal : Type 0) : Type 0 where
  pub name : Text
  pub resolve : ProviderAttemptAccounting Decimal → CostResolution Decimal

abbrev snoc : Reasons → Text → Reason → Reasons
snoc Reasons.nil n r = Reasons.cons n r Reasons.nil
snoc (Reasons.cons m s rs) n r = Reasons.cons m s (snoc rs n r)

-- The `Unpriced` that the loop ends in.
abbrev pub join : Reasons → Reason
join Reasons.nil = no_sources
join (Reasons.cons n r rs) = joined (Reasons.cons n r rs)

module _ {Decimal : Type 0} (attempt : ProviderAttemptAccounting Decimal) where
  -- The loop, with the reasons so far.
  unfoldable pub resolve_from : Reasons → List (CostResolver Decimal) → CostResolution Decimal
  resolve_from reasons [] = unpriced (join reasons)
  resolve_from reasons (r ∷ rs) = elim (r.resolve attempt) [
    | priced m s p v l ↦ priced m s p v l
    | unpriced reason ↦ resolve_from (snoc reasons r.name reason) rs
  ]

  unfoldable pub resolve : List (CostResolver Decimal) → CostResolution Decimal
  unfolding resolve_from
  resolve = resolve_from Reasons.nil

  -- All of `rs` answer without a price, with these reasons.
  pub data AllUnpriced : List (CostResolver Decimal) → Reasons → Type 0 where
    nil : AllUnpriced [] Reasons.nil
    cons :
        {r : CostResolver Decimal} {rs : List (CostResolver Decimal)} {reason : Reason}
        {reasons : Reasons}
        → r.resolve attempt ≡ unpriced reason
        → AllUnpriced rs reasons
        → AllUnpriced (r ∷ rs) (Reasons.cons r.name reason reasons)

  -- The sources before the one that answered have no price.
  pub record FirstPriced (rs : List (CostResolver Decimal)) (c : CostResolution Decimal)
      : Type 0 where
    pub before : List (CostResolver Decimal)
    pub chosen : CostResolver Decimal
    pub after : List (CostResolver Decimal)
    pub reasons : Reasons
    pub splits : rs ≡ before ++ chosen ∷ after
    pub unpriced_before : AllUnpriced before reasons
    pub answers : chosen.resolve attempt ≡ c

CostResolution-cases :
    {Decimal : Type 0} (c : CostResolution Decimal)
    → ((m : Money Decimal) × (s : Text) × (p : CostPrecision) × (v : Option Text) × (l : List
          (CostLineItem Decimal))
        × (c ≡ priced m s p v l))
      ⊎ ((r : Reason) × (c ≡ unpriced r))
CostResolution-cases (priced m s p v l) = inl (m, s, p, v, l, refl)
CostResolution-cases (unpriced r) = inr (r, refl)

append : Reasons → Reasons → Reasons
append Reasons.nil rs = rs
append (Reasons.cons n r qs) rs = Reasons.cons n r (append qs rs)

append-snoc :
    (qs : Reasons) (n : Text) (r : Reason) (rs : Reasons)
    → append (snoc qs n r) rs ≡ append qs (Reasons.cons n r rs)
unfolding append
append-snoc Reasons.nil n r rs = refl
append-snoc (Reasons.cons m s qs) n r rs = ap (Reasons.cons m s) (append-snoc qs n r rs)

append-nil : (qs : Reasons) → append qs Reasons.nil ≡ qs
unfolding append
append-nil Reasons.nil = refl
append-nil (Reasons.cons m s qs) = ap (Reasons.cons m s) (append-nil qs)

module _ {Decimal : Type 0} (attempt : ProviderAttemptAccounting Decimal) where
  resolve_from-unpriced :
      (acc : Reasons) (rs : List (CostResolver Decimal)) {reason : Reason}
      → resolve_from attempt acc rs ≡ unpriced reason
      → (reasons : Reasons) × AllUnpriced attempt rs reasons × (reason ≡ join (append acc reasons))
  unfolding resolve_from
  resolve_from-unpriced acc [] h = (Reasons.nil, nil, rw append-nil (cc))
  resolve_from-unpriced acc (r ∷ rs) {reason} h = elim (CostResolution-cases (r.resolve attempt)) [
    | inl (m, s, p, v, l, e) ↦ absurd (cc (rw (e, resolve_from) at h))
    | inr (q, e) ↦
        let (reasons, quiet, is_reason) =
          resolve_from-unpriced (snoc acc r.name q) rs {reason = reason}
            (rw (e, resolve_from) at h) in
        (
          Reasons.cons r.name q reasons,
          cons e quiet,
          is_reason ∙ ap join (append-snoc acc r.name q reasons),
        )
  ]

  resolve_from-priced :
      (acc : Reasons) (rs : List (CostResolver Decimal)) (m : Money Decimal) (s : Text)
      (p : CostPrecision) (v : Option Text) (l : List (CostLineItem Decimal))
      → resolve_from attempt acc rs ≡ priced m s p v l
      → FirstPriced attempt rs (priced m s p v l)
  unfolding resolve_from
  resolve_from-priced acc [] m s p v l h = cc
  resolve_from-priced acc (r ∷ rs) m s p v l h = elim (CostResolution-cases (r.resolve attempt)) [
    | inl (m', s', p', v', l', e) ↦ record {
      before = [];
      chosen = r;
      after = rs;
      reasons = Reasons.nil;
      splits = refl;
      unpriced_before = nil;
      answers = e ∙ (rw (e, resolve_from) at h);
    }
    | inr (q, e) ↦
        let f = resolve_from-priced (snoc acc r.name q) rs m s p v l (rw (e, resolve_from) at h) in
        record {
          before = r ∷ f.before;
          chosen = f.chosen;
          after = f.after;
          reasons = Reasons.cons r.name q f.reasons;
          splits = ap (◌∷◌ r) f.splits;
          unpriced_before = cons e f.unpriced_before;
          answers = f.answers;
        }
  ]

  -- A price of the chain is the answer of a source before which no source had a price.
  pub resolve-FirstPriced :
      (rs : List (CostResolver Decimal)) (m : Money Decimal) (s : Text) (p : CostPrecision)
      (v : Option Text) (l : List (CostLineItem Decimal))
      → resolve attempt rs ≡ priced m s p v l
      → FirstPriced attempt rs (priced m s p v l)
  unfolding resolve
  resolve-FirstPriced = resolve_from-priced Reasons.nil

  -- Where the chain has no price, no source has one, and every reason is kept, in order.
  pub resolve-AllUnpriced :
      (rs : List (CostResolver Decimal)) (reason : Reason)
      → resolve attempt rs ≡ unpriced reason
      → (reasons : Reasons) × AllUnpriced attempt rs reasons × (reason ≡ join reasons)
  unfolding resolve append
  resolve-AllUnpriced rs reason h = resolve_from-unpriced Reasons.nil rs {reason = reason} h
