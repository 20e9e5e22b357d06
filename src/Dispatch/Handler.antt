-- ===== src/Dispatch/Handler.antt =====
-- One event handler: how it is compiled, and how its answer is read and validated
-- (src/event_mcp/dispatcher.rs, src/event_mcp/types.rs).
use agent_kuibysheff.Common.{
  ℕ, Bool, false, not, ◌==◌, nat_eq, list_eq, Option, none, some, List, [], ◌∷◌, ◌++◌,
  if◌then◌else◌, is_empty, contains, Text, text, trim, Result, ok, err, ensure, map_err, ok_or,
  ◌>>=◌, ◌>>◌,
}
use agent_kuibysheff.Common.Json.{Value, string, Items, nil, cons, get, as_bool, as_array}
use agent_kuibysheff.Engine.Host.{EventStage}
use agent_kuibysheff.Access.ToolName
use agent_kuibysheff.Access.ToolName.{QualifiedTool, ToolNameError}
use agent_kuibysheff.Dispatch.Config.{EventFailurePolicy, EventHandlerConfig}

pub data EventMcpError : Type 0 where
  configuration : Text → EventMcpError
  -- also `Configuration`: the event, the handler, the target and the reason that its message shows
  invalid_target : EventStage → Text → Text → ToolNameError → EventMcpError
  -- handler, target
  unknown_target : Text → Text → EventMcpError
  -- handler, actual, limit
  payload_too_large outcome_too_large : Text → ℕ → ℕ → EventMcpError
  -- handler, timeout_ms
  timeout : Text → ℕ → EventMcpError
  cancelled : EventStage → EventMcpError
  -- handler, the message of the source
  mcp : Text → Text → EventMcpError
  -- handler, reason
  invalid_outcome : Text → Text → EventMcpError
  -- event, reason
  invalid_payload : EventStage → Text → EventMcpError
  -- event, handler, reason
  rejected : EventStage → Text → Text → EventMcpError

pub data EventAction : Type 0 where
  pass replace reject : EventAction

pub record EventOutcome : Type 0 where
  pub action : EventAction
  pub payload : Option Value
  pub reason : Option Text

pub record EventEnvelope : Type 0 where
  pub spec_version : Text
  pub event_id : Text
  pub event : EventStage
  pub iteration : Option ℕ  -- u32
  pub payload : Value

-- `EventEnvelope::new`
abbrev pub envelope : Text → EventStage → Option ℕ → Value → EventEnvelope
envelope event_id event iteration payload = record {
  spec_version = text "1";
  event_id = event_id;
  event = event;
  iteration = iteration;
  payload = payload;
}

pub record CompiledHandler : Type 0 where
  pub id : Text
  pub server : Text
  pub tool : Text
  pub target : Text
  pub timeout_ms : ℕ
  pub on_error : EventFailurePolicy

unfoldable pub compile_handler :
    EventStage → EventHandlerConfig → List Text → Result CompiledHandler EventMcpError
unfolding trim contains ToolName.parse
compile_handler event handler available = do
  let target = trim handler.target
  qualified ← map_err (invalid_target event handler.id target) (ToolName.parse target)
  ensure (contains available target) (unknown_target handler.id target)
  ok (record {
    id = trim handler.id;
    server = qualified.server;
    tool = qualified.tool;
    target = target;
    timeout_ms = handler.timeout_ms;
    on_error = handler.on_error;
  })

abbrev text_of : Value → List Text → List Text
text_of item rest = elim (get item (text "type")) [
  | some (string kind) ↦
      if kind == text "text"
      then elim (get item (text "text")) [ some (string t) ↦ t ∷ rest | _ ↦ rest ]
      else rest
  | _ ↦ rest
]

-- The texts of the content items whose type is "text".
unfoldable pub texts : Items → List Text
unfolding get
texts nil = []
texts (cons item items) = text_of item (texts items)

abbrev pub is_error : Value → Bool
is_error response = elim (get response (text "isError")) [
  | some v ↦ flag (as_bool v)
  | none ↦ false
]
  where
    flag : Option Bool → Bool
    flag none = false
    flag (some b) = b

abbrev one_text : Text → List Text → Result Text EventMcpError
one_text handler [] =
    err (invalid_outcome handler (text "compatibility result has no text content"))
one_text handler (t ∷ []) = ok t
one_text handler (t ∷ u ∷ more) =
    err (invalid_outcome handler (text "compatibility result must contain exactly one text item"))

abbrev content_items : Value → Option Items
content_items response = elim (get response (text "content")) [ some v ↦ as_array v | none ↦ none ]

module _ (from_str : Text → Result Value Text) (from_value : Value → Result EventOutcome Text) where
  abbrev outcome_value : Text → Value → Result Value EventMcpError
  outcome_value handler response = elim (get response (text "structuredContent")) [
    | some structured ↦ ok structured
    | none ↦ do
      content ←
          ok_or
            (invalid_outcome handler
              (text "expected structuredContent or one JSON text content item"))
            (content_items response)
      t ← one_text handler (texts content)
      map_err
          (λ error. invalid_outcome handler (text "text content is not one JSON object: " ++ error))
          (from_str t)
  ]

  unfoldable pub parse_outcome : Text → Value → Result EventOutcome EventMcpError
  unfolding get texts
  parse_outcome handler response = do
    ensure (not (is_error response))
        (invalid_outcome handler (text "MCP CallToolResult set isError=true"))
    value ← outcome_value handler response
    map_err (invalid_outcome handler) (from_value value)

abbrev pub rejection : Option Text → Text
rejection none = text "handler rejected the event"
rejection (some reason) =
    if is_empty (trim reason) then text "handler rejected the event" else reason

abbrev pub validate :
    EventStage
    → Text
    → EventAction
    → Option Value
    → Option Text
    → Result (Option Value) EventMcpError
validate event id EventAction.pass none none = ok none
validate event id replace (some payload) none = ok (some payload)
validate event id replace none none = err (invalid_outcome id (text "replace requires payload"))
validate event id reject none reason = err (rejected event id (rejection reason))
validate event id EventAction.pass payload reason =
    err (invalid_outcome id (text "pass must not include payload or reason"))
validate event id replace payload reason =
    err (invalid_outcome id (text "replace must include payload and must not include reason"))
validate event id reject payload reason =
    err (invalid_outcome id (text "reject must not include payload"))

unfoldable pub validate_outcome :
    EventStage → CompiledHandler → EventOutcome → Result (Option Value) EventMcpError
unfolding trim
validate_outcome event handler outcome =
    validate event handler.id outcome.action outcome.payload outcome.reason
