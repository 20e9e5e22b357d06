-- ===== src/Limits/Check.antt =====
-- When `pre_step_check` lets a step begin, and how the counters bound a run.
use agent_kuibysheff.Common.{
  ℕ, ◌+◌, ◌≤◌, ◌<◌, ◌≡◌, ◌⊎◌, List, [], ◌∷◌, arith, ok, err, u32_max, u64_max, saturating_add,
}
use agent_kuibysheff.Limits.{
  LimitsConfig, TokenUsage, RunMetrics, LimitExceeded, iterations, tokens, duration, elapsed,
  from_secs, pre_step_check, begin_iteration, add_tokens,
}

-- The three bounds that a new step needs.
pub record HasRoom {Money : Type 0} (m : RunMetrics) (l : LimitsConfig Money) (now : ℕ)
    : Type 0 where
  pub iterations_left : m.iterations < l.max_iterations
  pub tokens_left : m.token_usage.total_tokens < l.max_tokens
  pub time_left : elapsed m now < from_secs l.max_duration_sec

module _ {Money : Type 0} (m : RunMetrics) (l : LimitsConfig Money) (now : ℕ) where
  pub pre_step_check_ok : pre_step_check m l now ≡ ok tt → HasRoom m l now
  unfolding pre_step_check
  pre_step_check_ok h = ground arith

  pub pre_step_check_room : HasRoom m l now → pre_step_check m l now ≡ ok tt
  unfolding pre_step_check
  pre_step_check_room h = ground arith

  pub pre_step_check_err :
      {e : LimitExceeded}
      → pre_step_check m l now ≡ err e
      → ((e ≡ iterations) × (l.max_iterations ≤ m.iterations))
        ⊎ ((e ≡ tokens)
            × (m.iterations < l.max_iterations)
            × (l.max_tokens ≤ m.token_usage.total_tokens))
        ⊎ ((e ≡ duration)
            × (m.iterations < l.max_iterations)
            × (m.token_usage.total_tokens < l.max_tokens)
            × (from_secs l.max_duration_sec ≤ elapsed m now))
  unfolding pre_step_check
  pre_step_check_err h = ground arith

-- With a limit that is a u32, a step that was let through counts one iteration, and the count stays
-- within the limit.
pub begin_iteration-le :
    {Money : Type 0} (m : RunMetrics) (l : LimitsConfig Money) (now : ℕ)
    → l.max_iterations ≤ u32_max
    → pre_step_check m l now ≡ ok tt
    → ((begin_iteration m).iterations ≡ m.iterations + 1)
      × ((begin_iteration m).iterations ≤ l.max_iterations)
unfolding begin_iteration
begin_iteration-le m l now w h = omega (arith, pre_step_check_ok m l now h)

-- The exact sums of a list of reports.
abbrev pub sum_total : List TokenUsage → ℕ
sum_total [] = 0
sum_total (u ∷ us) = u.total_tokens + sum_total us

abbrev pub add_all : RunMetrics → List TokenUsage → RunMetrics
add_all m [] = m
add_all m (u ∷ us) = add_all (add_tokens m u) us

-- Reports added one by one to a u64 total give their exact sum, cut off at the largest u64.
pub add_all-sum :
    (m : RunMetrics) (us : List TokenUsage)
    → m.token_usage.total_tokens ≤ u64_max
    → (add_all m us).token_usage.total_tokens
      ≡ saturating_add u64_max m.token_usage.total_tokens (sum_total us)
unfolding add_tokens
add_all-sum m [] h = omega arith
add_all-sum m (u ∷ us) h = omega (arith, add_all-sum (add_tokens m u) us (omega arith))
