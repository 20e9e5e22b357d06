-- ===== src/Dispatch/Config.antt =====
-- The configuration of the event handlers (src/event_mcp/config.rs, src/event_mcp/types.rs).
use agent_kuibysheff.Common.{
  ℕ, not, ◌++◌, List, [], ◌∷◌, ◌==◌, nat_eq, list_eq, is_empty, contains, Text, text, trim, Result,
  ok, ensure, ◌>>◌,
}
use agent_kuibysheff.Engine.Host.{
  EventStage, context_before_model, model_after_response, run_before_output,
}

-- `EventStage::as_str`
abbrev pub as_str : EventStage → Text
as_str context_before_model = text "context.before_model"
as_str model_after_response = text "model.after_response"
as_str run_before_output = text "run.before_output"

pub data EventFailurePolicy : Type 0 where
  abort continue : EventFailurePolicy

pub record EventHandlerConfig : Type 0 where
  pub id : Text
  pub target : Text
  pub timeout_ms : ℕ  -- u64
  pub on_error : EventFailurePolicy

pub record EventPipelineConfig : Type 0 where
  pub handlers : List EventHandlerConfig

pub record EventMcpConfig : Type 0 where
  pub events : List (EventStage × EventPipelineConfig)
  pub max_payload_bytes : ℕ  -- usize
  pub max_outcome_bytes : ℕ  -- usize

-- The checks of one handler; `ids` are those of the handlers before it.
abbrev check_handler : EventStage → List Text → EventHandlerConfig → Result (Unit {0}) Text
check_handler event ids handler = do
  let id = trim handler.id
  ensure (not (is_empty id))
      (text "event_mcp event `" ++ as_str event ++ text "` has an empty handler id")
  ensure (not (contains ids id)) (
      text "event_mcp event `"
      ++ as_str event
      ++ text "` has duplicate handler id `"
      ++ id
      ++ text "`")
  ensure (not (is_empty (trim handler.target))) (
      text "event_mcp handler `"
      ++ id
      ++ text "` for event `"
      ++ as_str event
      ++ text "` has an empty target")
  ensure (not (handler.timeout_ms == 0)) (
      text "event_mcp handler `"
      ++ id
      ++ text "` for event `"
      ++ as_str event
      ++ text "` must have timeout_ms greater than zero")

unfoldable pub check_handlers :
    EventStage → List Text → List EventHandlerConfig → Result (Unit {0}) Text
unfolding trim contains
check_handlers event ids [] = ok tt
check_handlers event ids (handler ∷ handlers) = do
  check_handler event ids handler
  check_handlers event (trim handler.id ∷ ids) handlers

unfoldable pub check_pipelines : List (EventStage × EventPipelineConfig) → Result (Unit {0}) Text
unfolding check_handlers
check_pipelines [] = ok tt
check_pipelines ((event, pipeline) ∷ more) = do
  check_handlers event [] pipeline.handlers
  check_pipelines more

unfoldable pub validate_shape : EventMcpConfig → Result (Unit {0}) Text
unfolding check_pipelines
validate_shape config = do
  ensure (not (config.max_payload_bytes == 0))
      (text "event_mcp.max_payload_bytes must be greater than zero")
  ensure (not (config.max_outcome_bytes == 0))
      (text "event_mcp.max_outcome_bytes must be greater than zero")
  check_pipelines config.events
