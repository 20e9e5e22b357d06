-- ===== src/Limits.antt =====
-- src/limits.rs: the hard stop limits of a run and the counters that they are checked against.
-- Time is the reading of the monotonic clock, in nanoseconds, and comes in as an argument `now`.
pub mod Check
use agent_kuibysheff.Common.{
  ℕ, ◌-◌, ◌*◌, ◌/◌, ◌^◌, Bool, Option, leb, if◌then◌else◌, Result, ok, err, u32_max, u64_max,
  saturating_add,
}

-- `Money` belongs to the billing module, so the limits are generic in it.
pub record LimitsConfig (Money : Type 0) : Type 0 where
  pub max_iterations : ℕ  -- u32
  pub max_tokens : ℕ  -- u64
  pub max_duration_sec : ℕ  -- u64
  pub max_cost : Option Money

pub record TokenUsage : Type 0 where
  pub prompt_tokens : ℕ  -- u64
  pub completion_tokens : ℕ  -- u64
  pub total_tokens : ℕ  -- u64

pub record RunMetrics : Type 0 where
  pub started_at : ℕ
  pub iterations : ℕ  -- u32
  pub token_usage : TokenUsage

pub data LimitExceeded : Type 0 where
  iterations tokens duration : LimitExceeded

abbrev pub no_tokens : TokenUsage
no_tokens = record { prompt_tokens = 0; completion_tokens = 0; total_tokens = 0 }

unfoldable pub new : ℕ → RunMetrics
new now = record { started_at = now; iterations = 0; token_usage = no_tokens }

-- `started_at.elapsed()`; an instant before the start counts as no time.
abbrev pub elapsed : RunMetrics → ℕ → ℕ
elapsed m now = now - m.started_at

-- `elapsed_ms`
unfoldable pub elapsed_ms : RunMetrics → ℕ → ℕ
elapsed_ms m now = elapsed m now / 10 ^ 6

abbrev pub from_secs : ℕ → ℕ
from_secs s = s * 10 ^ 9

module _ {Money : Type 0} where
  unfoldable pub tokens_limit_hit : RunMetrics → LimitsConfig Money → Bool
  tokens_limit_hit m limits = leb limits.max_tokens m.token_usage.total_tokens

  unfoldable pub duration_limit_hit : RunMetrics → LimitsConfig Money → ℕ → Bool
  duration_limit_hit m limits now = leb (from_secs limits.max_duration_sec) (elapsed m now)

  unfoldable pub pre_step_check :
      RunMetrics → LimitsConfig Money → ℕ → Result (Unit {0}) LimitExceeded
  unfolding tokens_limit_hit duration_limit_hit
  pre_step_check m limits now =
      if leb limits.max_iterations m.iterations
      then err iterations
      else if tokens_limit_hit m limits
      then err tokens
      else if duration_limit_hit m limits now
      then err duration
      else ok tt

unfoldable pub begin_iteration : RunMetrics → RunMetrics
begin_iteration m = record m { iterations = saturating_add u32_max m.iterations 1 }

unfoldable pub add_usage : TokenUsage → TokenUsage → TokenUsage
add_usage t u = record {
  prompt_tokens = saturating_add u64_max t.prompt_tokens u.prompt_tokens;
  completion_tokens = saturating_add u64_max t.completion_tokens u.completion_tokens;
  total_tokens = saturating_add u64_max t.total_tokens u.total_tokens;
}

unfoldable pub add_tokens : RunMetrics → TokenUsage → RunMetrics
unfolding add_usage
add_tokens m usage = record m { token_usage = add_usage m.token_usage usage }
