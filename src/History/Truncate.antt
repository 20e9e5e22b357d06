-- ===== src/History/Truncate.antt =====
-- `truncate_for_budget`: never longer than the budget, and untouched where it fits.
use agent_kuibysheff.Common.{
  ℕ, ◌-◌, ◌≤◌, ◌<◌, ◌≡◌, arith, length, take, length-append, length-take, Text,
}
use agent_kuibysheff.History.{truncate_for_budget, history_marker}

pub truncate-le : (c : Text) (n : ℕ) → length (truncate_for_budget c n) ≤ n
unfolding truncate_for_budget
truncate-le c n = ground (
  arith,
  length-take n c,
  length-take (n - length history_marker) c,
  length-append (take (n - length history_marker) c) history_marker,
)

pub truncate_fits : (c : Text) (n : ℕ) → length c ≤ n → truncate_for_budget c n ≡ c
unfolding truncate_for_budget
truncate_fits c n h = ground arith

-- A text over the budget is made strictly shorter, so the loop's test on the lengths passes.
pub truncate-lt : (c : Text) (n : ℕ) → n < length c → length (truncate_for_budget c n) < length c
truncate-lt c n h = omega (arith, truncate-le c n)
