-- ===== src/Dispatch/Chain.antt =====
-- The dispatcher of the event handlers (src/event_mcp/dispatcher.rs): the chains that it compiles,
-- the call of one handler, and the loop over a chain.
pub mod Failure
pub mod Payload
use agent_kuibysheff.Common.{
  ℕ, ◌+◌, ◌%◌, ◌^◌, Bool, true, false, not, ◌&&◌, ◌||◌, ◌++◌, Option, none, some, List, [], ◌∷◌,
  ltb, length, if◌then◌else◌, is_empty, Text, text, Result, ok, err, map_err, ensure, ◌>>=◌, ◌>>◌,
}
use agent_kuibysheff.Common.Json.{Value}
use agent_kuibysheff.Engine.Host.{
  EventStage, context_before_model, model_after_response, run_before_output,
}
use agent_kuibysheff.Dispatch.Config.{
  as_str, EventHandlerConfig, EventPipelineConfig, EventFailurePolicy, abort, continue,
  EventMcpConfig, validate_shape,
}
use agent_kuibysheff.Dispatch.Handler.{
  EventMcpError, configuration, payload_too_large, outcome_too_large, timeout, cancelled, mcp,
  invalid_payload, rejected, EventAction, EventOutcome, EventEnvelope, envelope, CompiledHandler,
  compile_handler, parse_outcome, validate_outcome,
}

-- How the wait for a call ends: `tokio::select!` of the cancellation and the timed call.
pub data Awaited : Type 0 where
  interrupted elapsed : Awaited
  done : Result Value Text → Awaited

pub record InvocationAudit : Type 0 where
  pub ok_ : Bool
  pub action : Option EventAction
  pub input_bytes : Option ℕ
  pub output_bytes : Option ℕ
  pub error : Option EventMcpError

-- The services behind the dispatcher. `W` is the state of the world.
pub record EventHost (W : Type 0) : Type 0 where
  pub available_tools : List Text
  -- `serde_json::to_vec` of an envelope, and `from_slice`
  pub encode : EventEnvelope → Result (List ℕ) Text
  pub decode : List ℕ → Result Value Text
  -- the number of bytes that `to_vec` of a value has
  pub measure : Value → Result ℕ Text
  -- `serde_json::from_str` and `from_value`
  pub from_str : Text → Result Value Text
  pub from_value : Value → Result EventOutcome Text
  -- the call of a tool, by server and tool, within a number of milliseconds, unless the run is
  -- cancelled first
  pub call : ℕ → Text → Text → Value → W → Awaited × W
  -- `log_invocation`: nothing without a logger; an error of the sink is not passed on
  pub log_invocation : EventStage → CompiledHandler → InvocationAudit → W → W
  -- the decimal digits of a sequence number
  pub to_string : ℕ → Text

pub record EventMcpDispatcher : Type 0 where
  pub chains : List (EventStage × List CompiledHandler)
  pub max_payload_bytes : ℕ
  pub max_outcome_bytes : ℕ

-- What the dispatcher changes: the world and the atomic counter.
pub record Dispatching (W : Type 0) : Type 0 where
  pub world : W
  pub next_event_id : ℕ  -- u64

abbrev same_stage : EventStage → EventStage → Bool
same_stage context_before_model context_before_model = true
same_stage model_after_response model_after_response = true
same_stage run_before_output run_before_output = true
same_stage _ _ = false

-- `BTreeMap::get` of the chains.
unfoldable pub chain_of :
    List (EventStage × List CompiledHandler) → EventStage → Option (List CompiledHandler)
chain_of [] event = none
chain_of ((stage, chain) ∷ more) event =
    if same_stage stage event then some chain else chain_of more event

-- `has_handlers`
unfoldable pub has_handlers : EventMcpDispatcher → EventStage → Bool
unfolding chain_of
has_handlers d event = elim (chain_of d.chains event) [
  | none ↦ false
  | some handlers ↦ not (is_empty handlers)
]

unfoldable pub compile_chain :
    EventStage → List EventHandlerConfig → List Text → Result (List CompiledHandler) EventMcpError
unfolding compile_handler
compile_chain event [] available = ok []
compile_chain event (handler ∷ handlers) available = do
  compiled ← compile_handler event handler available
  chain ← compile_chain event handlers available
  ok (compiled ∷ chain)

unfoldable pub compile_chains :
    List (EventStage × EventPipelineConfig)
    → List Text
    → Result (List (EventStage × List CompiledHandler)) EventMcpError
unfolding compile_chain
compile_chains [] available = ok []
compile_chains ((event, pipeline) ∷ more) available = do
  chain ← compile_chain event pipeline.handlers available
  chains ← compile_chains more available
  ok ((event, chain) ∷ chains)

-- `new_with_invoker`; the counter starts at 1.
unfoldable pub new_with_invoker :
    EventMcpConfig → List Text → Result EventMcpDispatcher EventMcpError
unfolding validate_shape compile_chains
new_with_invoker config available = do
  map_err configuration (validate_shape config)
  chains ← compile_chains config.events available
  ok (record {
    chains = chains;
    max_payload_bytes = config.max_payload_bytes;
    max_outcome_bytes = config.max_outcome_bytes;
  })

abbrev pub is_rejected : EventMcpError → Bool
is_rejected (rejected e id reason) = true
is_rejected _ = false

abbrev pub is_cancelled : EventMcpError → Bool
is_cancelled (cancelled e) = true
is_cancelled _ = false

abbrev pub aborts : CompiledHandler → Bool
aborts handler = elim handler.on_error [ abort ↦ true | continue ↦ false ]

-- What one handler makes of the payload: the next payload, or the error that ends the chain.
abbrev pub Round : Type 0 → Type 0
Round W = Result Value EventMcpError × Dispatching W

module _ {W : Type 0} (h : EventHost W) (d : EventMcpDispatcher) (event : EventStage)
    (iteration : Option ℕ) where
  -- What `invoke_handler` does with the answer of the call.
  unfoldable pub read_answer :
      CompiledHandler → ℕ → Awaited → Result (EventOutcome × ℕ × ℕ) EventMcpError
  read_answer handler input_bytes interrupted = err (cancelled event)
  read_answer handler input_bytes elapsed = err (timeout handler.id handler.timeout_ms)
  read_answer handler input_bytes (done result) = do
    response ← map_err (mcp handler.id) result
    outcome_bytes ←
        map_err (λ error. invalid_payload event (text "failed to measure MCP result: " ++ error))
          (h.measure response)
    ensure (not (ltb d.max_outcome_bytes outcome_bytes))
        (outcome_too_large handler.id outcome_bytes d.max_outcome_bytes)
    outcome ← parse_outcome h.from_str h.from_value handler.id response
    ok (outcome, input_bytes, outcome_bytes)

  -- What is checked before the call: the arguments and the length of their encoding.
  unfoldable pub prepare : CompiledHandler → Value → ℕ → Result (Value × ℕ) EventMcpError
  prepare handler payload sequence = do
    let event_id = as_str event ++ b':' ∷ h.to_string sequence
    encoded ←
        map_err (λ error. invalid_payload event (text "failed to encode event envelope: " ++ error))
          (h.encode (envelope event_id event iteration payload))
    ensure (not (ltb d.max_payload_bytes (length encoded)))
        (payload_too_large handler.id (length encoded) d.max_payload_bytes)
    arguments ←
        map_err
          (λ error. invalid_payload event (text "failed to rehydrate event envelope: " ++ error))
          (h.decode encoded)
    ok (arguments, length encoded)

  -- `fetch_add` wraps around.
  abbrev count_event : Dispatching W → Dispatching W
  count_event s = record s { next_event_id = (s.next_event_id + 1) % 2 ^ 64 }

  call_prepared :
      CompiledHandler
      → Result (Value × ℕ) EventMcpError
      → Dispatching W
      → Result (EventOutcome × ℕ × ℕ) EventMcpError × Dispatching W
  unfolding read_answer
  call_prepared handler (err e) s = (err e, s)
  call_prepared handler (ok (arguments, input_bytes)) s =
      let (answer, w) = h.call handler.timeout_ms handler.server handler.tool arguments s.world in
      (read_answer handler input_bytes answer, record s { world = w })

  unfoldable pub invoke_handler :
      CompiledHandler
      → Value
      → Dispatching W
      → Result (EventOutcome × ℕ × ℕ) EventMcpError × Dispatching W
  unfolding prepare call_prepared
  invoke_handler handler payload s =
      call_prepared handler (prepare handler payload s.next_event_id) (count_event s)

  abbrev audit : CompiledHandler → InvocationAudit → Dispatching W → Dispatching W
  audit handler a s = record s { world = h.log_invocation event handler a s.world }

  pub after_outcome :
      CompiledHandler
      → Value
      → EventAction × ℕ × ℕ
      → Result (Option Value) EventMcpError
      → Dispatching W
      → Round W
  after_outcome handler current (action, input, output) (ok replacement) s = (
    ok (elim replacement [ some v ↦ v | none ↦ current ]),
    audit handler
        (record {
          ok_ = true;
          action = some action;
          input_bytes = some input;
          output_bytes = some output;
          error = none;
        })
        s,
  )
  after_outcome handler current (action, input, output) (err error) s = (
    if is_rejected error || aborts handler then err error else ok current,
    audit handler
        (record {
          ok_ = false;
          action = some action;
          input_bytes = some input;
          output_bytes = some output;
          error = some error;
        })
        s,
  )

  pub after_invocation :
      CompiledHandler
      → Value
      → Result (EventOutcome × ℕ × ℕ) EventMcpError
      → Dispatching W
      → Round W
  unfolding after_outcome
  after_invocation handler current (ok (outcome, input, output)) s =
      after_outcome handler current (outcome.action, input, output)
        (validate_outcome event handler outcome) s
  after_invocation handler current (err error) s = (
    if is_cancelled error || aborts handler then err error else ok current,
    audit handler
        (record {
          ok_ = false;
          action = none;
          input_bytes = none;
          output_bytes = none;
          error = some error;
        })
        s,
  )

  -- One round of the loop in `dispatch`.
  unfoldable pub run_handler : CompiledHandler → Value → Dispatching W → Round W
  unfolding invoke_handler after_invocation
  run_handler handler current s =
      let (result, s') = invoke_handler handler current s in
      after_invocation handler current result s'

  unfoldable pub run_chain : List CompiledHandler → Value → Dispatching W → Round W
  unfolding run_handler
  run_chain [] current s = (ok current, s)
  run_chain (handler ∷ chain) current s =
      let (outcome, s') = run_handler handler current s in
      elim outcome [ err error ↦ (err error, s') | ok current' ↦ run_chain chain current' s' ]

  unfoldable pub dispatch : Value → Dispatching W → Round W
  unfolding run_chain chain_of
  dispatch payload s = elim (chain_of d.chains event) [
    | none ↦ (ok payload, s)
    | some chain ↦ run_chain chain payload s
  ]
