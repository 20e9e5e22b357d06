-- ===== src/Billing/Metric.antt =====
-- `BillableMetric`: the meters of a price catalog and their names.
use agent_kuibysheff.Common.{
  ℕ, Bool, ◌||◌, ◌==◌, nat_eq, list_eq, if◌then◌else◌, is_empty, all, not, Text, text, Eq,
  eq_of_discrete, Result, ok, err, bytes, trim, is_ascii_lowercase, is_ascii_digit,
}
use native.Mathlib.Decide.{ℕ_discrete}
use agent_kuibysheff.Billing.Money.{BillingError, invalid_metric}

pub data BillableMetric : Type 0 where
  input_tokens cached_input_tokens cache_write_input_tokens output_tokens : BillableMetric
  reasoning_tokens audio_input_tokens audio_output_tokens image_input_tokens : BillableMetric
  image_output_tokens web_search_requests : BillableMetric
  other : Text → BillableMetric

unfoldable pub BillableMetric-discrete : Discrete BillableMetric
unfolding ℕ_discrete
BillableMetric-discrete = hlevel ℕ_discrete

instance abbrev pub metric_eq : Eq BillableMetric
metric_eq = eq_of_discrete BillableMetric-discrete

unfoldable pub as_str : BillableMetric → Text
as_str input_tokens = text "input_tokens"
as_str cached_input_tokens = text "cached_input_tokens"
as_str cache_write_input_tokens = text "cache_write_input_tokens"
as_str output_tokens = text "output_tokens"
as_str reasoning_tokens = text "reasoning_tokens"
as_str audio_input_tokens = text "audio_input_tokens"
as_str audio_output_tokens = text "audio_output_tokens"
as_str image_input_tokens = text "image_input_tokens"
as_str image_output_tokens = text "image_output_tokens"
as_str web_search_requests = text "web_search_requests"
as_str (other value) = value

abbrev is_metric_byte : ℕ → Bool
is_metric_byte b = is_ascii_lowercase b || is_ascii_digit b || b == b'_'

-- The names that the `match` of `from_str` knows.
unfoldable pub of_name : Text → BillableMetric
of_name t =
    if t == text "input_tokens"
    then input_tokens
    else if t == text "cached_input_tokens"
    then cached_input_tokens
    else if t == text "cache_write_input_tokens"
    then cache_write_input_tokens
    else if t == text "output_tokens"
    then output_tokens
    else if t == text "reasoning_tokens"
    then reasoning_tokens
    else if t == text "audio_input_tokens"
    then audio_input_tokens
    else if t == text "audio_output_tokens"
    then audio_output_tokens
    else if t == text "image_input_tokens"
    then image_input_tokens
    else if t == text "image_output_tokens"
    then image_output_tokens
    else if t == text "web_search_requests"
    then web_search_requests
    else other t

unfoldable pub from_str : Text → Result BillableMetric BillingError
unfolding of_name
from_str value =
    let trimmed = trim value in
    if is_empty trimmed || not (all is_metric_byte (bytes trimmed))
    then err (invalid_metric value)
    else ok (of_name trimmed)
