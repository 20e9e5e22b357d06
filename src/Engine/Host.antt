-- ===== src/Engine/Host.antt =====
-- What the loop of src/agent/loop/engine.rs works with: directives, events, its errors and its
-- result, and the services that it calls, as an interface. `W` is the state of the world outside
-- the run, `V` the JSON values, `D` the decimals and `E` the errors of the tool handlers.
use agent_kuibysheff.Common.{ℕ, Bool, Option, List, Text, Result}
use agent_kuibysheff.Limits.{LimitsConfig, TokenUsage}
use agent_kuibysheff.History.{ChatMessage, ProviderHistoryConfig}
use agent_kuibysheff.Billing.Money.{BillingError, Money}
use agent_kuibysheff.Billing.Attempt.{ProviderAttemptAccounting}
use agent_kuibysheff.Billing.Chain.{CostResolver}
use agent_kuibysheff.Billing.Tracker.{RunCostReport}
use agent_kuibysheff.Access.ToolName.{ToolNameError}
use agent_kuibysheff.Access.Gate.{ToolError, ToolExecutor}

pub record ToolCallDirective (V : Type 0) : Type 0 where
  pub server : Text
  pub tool : Text
  pub arguments : V

pub record ModelDirective (V : Type 0) : Type 0 where
  pub done : Bool
  pub thought : Option Text
  pub tool_calls : List (ToolCallDirective V)
  pub result : Option Text

pub record ParsedDirective (V : Type 0) : Type 0 where
  pub directive : ModelDirective V
  pub json_text : Text

pub record DirectiveParseError : Type 0 where
  pub message : Text
  pub hint : Text

pub record AccountedModelResponse (D : Type 0) : Type 0 where
  pub content : Text
  pub usage : TokenUsage
  pub attempts : List (ProviderAttemptAccounting D)

-- An error of the provider is its message.
pub record AccountedProviderError (D : Type 0) : Type 0 where
  pub error : Text
  pub attempts : List (ProviderAttemptAccounting D)

pub data EventStage : Type 0 where
  context_before_model model_after_response run_before_output : EventStage

pub data EventMcpError : Type 0 where
  invalid_payload : EventStage → Text → EventMcpError
  -- any other failure of a handler, by its message
  dispatch_failed : Text → EventMcpError

pub data AgentError : Type 0 where
  provider : Text → AgentError
  event_mcp : EventMcpError → AgentError
  billing : BillingError → AgentError
  -- `Vec::insert` behind the end of the list, which is a panic in the program
  panicked : AgentError

pub data StopReason : Type 0 where
  goal_reached limit_reached error : StopReason

pub record UsageReport (D : Type 0) : Type 0 where
  pub iterations : ℕ  -- u32
  pub prompt_tokens : ℕ  -- u64
  pub completion_tokens : ℕ  -- u64
  pub total_tokens : ℕ  -- u64
  pub elapsed_ms : ℕ  -- u128
  pub cost : RunCostReport D

pub record RunOutput (D : Type 0) : Type 0 where
  pub run_id : Text
  pub result : Text
  pub usage : UsageReport D
  pub stop_reason : StopReason

-- The identifier `tc-{iteration}-{tool_index}`, as its two numbers.
abbrev pub ToolCallId : Type 0
ToolCallId = ℕ × ℕ

pub data AgentEvent (V D : Type 0) : Type 0 where
  thought : Text → AgentEvent V D
  message : Text → AgentEvent V D
  usage_summary : UsageReport D → AgentEvent V D
  -- id, server, tool, arguments
  tool_start : ToolCallId → Text → Text → V → AgentEvent V D
  -- id, whether the call succeeded, output
  tool_finish : ToolCallId → Bool → V → AgentEvent V D

-- `AgentRunRequest`; the cancel handle, the sink of events and the home directory are the host's.
pub record AgentRunRequest (D : Type 0) : Type 0 where
  pub prompt : Text
  pub system_prompt : Text
  pub input_files_context : Text
  pub limits : LimitsConfig (Money D)
  pub history : ProviderHistoryConfig
  pub pinned_files : List Text
  pub resume_messages : Option (List ChatMessage)

pub record Host (W V D E : Type 0) : Type 0 where
  -- the world moves on between two steps of the loop
  pub tick : W → W
  pub now : W → ℕ
  pub is_cancelled : W → Bool
  pub arm_deadline : ℕ → W → W
  -- the model's answer, or `none` where the run is cancelled before it
  pub complete_accounted :
      List ChatMessage
      → W
      → Option (Result (AccountedModelResponse D) (AccountedProviderError D)) × W
  pub tools : ToolExecutor W V E
  -- `select!` of the cancellation and a call: `none` where the run is cancelled before it ends
  pub select_call : (W → Result V (ToolError E) × W) → W → Option (Result V (ToolError E)) × W
  pub has_handlers : EventStage → Bool
  pub dispatch : EventStage → V → Option ℕ → W → Result V Text × W
  pub encode_messages : List ChatMessage → V
  pub decode_messages : V → Result (List ChatMessage) Text
  pub encode_content : Text → V
  pub decode_content : V → Result Text Text
  pub encode_result : Text → V
  pub decode_result : V → Result Text Text
  -- a file below the home directory
  pub read_to_string : W → Text → Option Text
  pub resolvers : List (CostResolver D)
  pub billing_currency : Text
  pub run_id : Text
  pub parse_directive : Text → Result (ParsedDirective V) DirectiveParseError
  pub show_error : AgentError → Text
  pub show_tool_error : ToolError E → Text
  pub show_name_error : ToolNameError → Text
  pub print : V → Text
  -- the argument `path`, where it is a string
  pub path_argument : V → Option Text
  pub error_output : Text → V
  -- `{"tool_result": {"server", "tool", "result" or "error"}}`
  pub tool_result : Text → Text → V → V
  pub tool_failure : Text → Text → Text → V
  -- `{"parse_error", "hint"}`
  pub parse_failure : Text → Text → V
