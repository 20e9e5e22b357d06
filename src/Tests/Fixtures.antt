-- ===== src/Tests/Fixtures.antt =====
-- A small host for the loop of src/agent/loop/engine.rs: the world is a clock, a JSON value is a
-- text, and the model asks for one file and then is done.
use agent_kuibysheff.Common.{
  ℕ, ◌+◌, true, false, none, some, [], ◌∷◌, ltb, leb, ◌==◌, list_eq, nat_eq, Text, text, Result, ok,
  err, if◌then◌else◌,
}
use agent_kuibysheff.Limits.{LimitsConfig, TokenUsage}
use agent_kuibysheff.History.{ProviderHistoryConfig}
use agent_kuibysheff.Billing.Money.{Decimals, Money}
use agent_kuibysheff.Billing.Attempt.{ProviderAttemptAccounting, ReportedCost}
use agent_kuibysheff.Billing.Chain.{CostResolver}
use agent_kuibysheff.Billing.Tracker.{RunCostTracker}
use agent_kuibysheff.Access.Gate.{ToolExecutor}
use agent_kuibysheff.Engine.Host.{
  Host, AgentRunRequest, AccountedModelResponse, ParsedDirective, DirectiveParseError,
}
use agent_kuibysheff.Engine.State.{RunState}
use agent_kuibysheff.Engine.Run.{initial_state}

-- Whole cents, without overflow.
instance abbrev pub cents : Decimals ℕ
cents = record {
  zero = 0;
  checked_add = λ a b. some (a + b);
  checked_mul = λ a b. none;
  checked_div = λ a b. none;
  from_u64 = λ n. n;
  ge = λ a b. leb b a;
  from_str_exact = λ t. none;
  from_scientific = λ t. none;
}

abbrev pub usage : TokenUsage
usage = record { prompt_tokens = 7; completion_tokens = 5; total_tokens = 12 }

abbrev pub attempt : ProviderAttemptAccounting ℕ
attempt = record {
  attempt = 1;
  provider_id = text "p";
  requested_model = text "m";
  resolved_model = none;
  service_tier = none;
  request_id = none;
  http_status = some 200;
  occurred_at_ms = 150;
  usage_reported = true;
  usage = usage;
  billable_metrics = [];
  reported_cost = none;
  error = none;
}

-- A call while the clock is below ten asks for a file; later the run is done.
abbrev answer : ℕ → AccountedModelResponse ℕ
answer w = record {
  content = if ltb w 10 then text "read" else text "done";
  usage = usage;
  attempts = attempt ∷ [];
}

abbrev parse_directive : Text → Result (ParsedDirective Text) DirectiveParseError
parse_directive t =
    if t == text "read"
    then ok (record {
      directive = record {
        done = false;
        thought = some (text "look");
        tool_calls =
            record { server = text "home"; tool = text "read"; arguments = text "notes.md" } ∷ [];
        result = none;
      };
      json_text = text "{read}";
    })
    else if t == text "done"
    then ok (record {
      directive = record {
        done = true;
        thought = none;
        tool_calls = [];
        result = some (text "fin");
      };
      json_text = text "{done}";
    })
    else err (record { message = text "?"; hint = text "!" })

abbrev pub read_file : ToolExecutor ℕ Text Text
read_file = record {
  call_tool = λ server tool arguments w. (ok (text "bytes"), w + 5);
  available_tools = text "home.read" ∷ [];
}

abbrev free : CostResolver ℕ
free = record {
  name = text "none";
  resolve = λ a.
      agent_kuibysheff.Billing.Attempt.unpriced
        agent_kuibysheff.Billing.Attempt.Reason.not_reported;
}

abbrev pub host : Host ℕ Text ℕ Text
host = record {
  tick = λ w. w + 1;
  now = λ w. w;
  is_cancelled = λ w. false;
  arm_deadline = λ d w. w;
  complete_accounted = λ ms w. (some (ok (answer w)), w + 1);
  tools = read_file;
  select_call = λ call w. let (result, w') = call w in (some result, w');
  has_handlers = λ stage. false;
  dispatch = λ stage payload iteration w. (ok payload, w);
  encode_messages = λ ms. [];
  decode_messages = λ v. ok [];
  encode_content = λ t. t;
  decode_content = λ v. ok v;
  encode_result = λ t. t;
  decode_result = λ v. ok v;
  read_to_string = λ w path. none;
  resolvers = free ∷ [];
  billing_currency = text "USD";
  run_id = text "run";
  parse_directive = parse_directive;
  show_error = λ e. text "error";
  show_tool_error = λ e. text "tool error";
  show_name_error = λ e. text "name error";
  print = λ v. v;
  path_argument = λ v. some v;
  error_output = λ t. t;
  tool_result = λ server tool v. v;
  tool_failure = λ server tool t. t;
  parse_failure = λ e hint. e;
}

abbrev pub limits : LimitsConfig (Money ℕ)
limits = record { max_iterations = 4; max_tokens = 1000; max_duration_sec = 60; max_cost = none }

abbrev pub history : ProviderHistoryConfig
history = record { max_tail_messages = 3; max_chars = 5000 }

abbrev pub request : AgentRunRequest ℕ
request = record {
  prompt = text "do it";
  system_prompt = text "be good";
  input_files_context = [];
  limits = limits;
  history = history;
  pinned_files = [];
  resume_messages = none;
}

abbrev pub tracker : RunCostTracker ℕ
tracker = record {
  target_currency = text "USD";
  known_total = 0;
  priced_requests = 0;
  unpriced_requests = 0;
  requests = [];
  max_cost = none;
}

abbrev pub start : RunState ℕ Text ℕ
start = initial_state host request tracker 0
