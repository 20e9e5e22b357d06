-- ===== src/Engine/Pipeline.antt =====
-- The event handlers that may change what a run works with: their dispatch and the decoding of
-- what they return (`decode_…` of src/agent/loop/engine.rs).
pub mod Snapshot
use agent_kuibysheff.Common.{
  ℕ, not, ◌||◌, Option, List, [], ◌∷◌, ◌==◌, list_eq, nat_eq, Text, text, if◌then◌else◌, Result, ok,
  err, map_err,
}
use agent_kuibysheff.History.{ChatMessage}
use agent_kuibysheff.Engine.Message.{is_system}
use agent_kuibysheff.Engine.Step.{Step, Flow, go, fail}
use agent_kuibysheff.Engine.Host.{
  Host, AgentRunRequest, AgentError, event_mcp, EventMcpError, invalid_payload, dispatch_failed,
  EventStage, context_before_model, model_after_response, run_before_output,
}
use agent_kuibysheff.Engine.State.{RunState, with_world}

-- What `decode_context_before_model` refuses, behind the decoding of the payload.
unfoldable pub check_snapshot :
    List ChatMessage → List ChatMessage → Result (List ChatMessage) EventMcpError
check_snapshot [] snapshot =
    err (invalid_payload context_before_model (text "canonical message list is empty"))
check_snapshot (original ∷ ms) [] =
    err (invalid_payload context_before_model (text "messages must not be empty"))
check_snapshot (original ∷ ms) (transformed ∷ ts) =
    if not (is_system original)
      || (not (is_system transformed) || not (transformed.content == original.content))
    then err (
        invalid_payload context_before_model
          (text "the original system message must remain the first message unchanged"))
    else ok (transformed ∷ ts)

module _ {W V D E : Type 0} (h : Host W V D E) where
  unfoldable pub decode_context_before_model :
      List ChatMessage → V → Result (List ChatMessage) EventMcpError
  unfolding check_snapshot
  decode_context_before_model canonical payload =
      elim (map_err (invalid_payload context_before_model) (h.decode_messages payload)) [
        | err e ↦ err e
        | ok ms ↦ check_snapshot canonical ms
      ]

  abbrev pub decode_model_after_response : V → Result Text EventMcpError
  decode_model_after_response payload =
      map_err (invalid_payload model_after_response) (h.decode_content payload)

  abbrev pub decode_run_before_output : V → Result Text EventMcpError
  decode_run_before_output payload =
      map_err (invalid_payload run_before_output) (h.decode_result payload)

module _ {W V D E : Type 0} (h : Host W V D E) (r : AgentRunRequest D) where
  abbrev decoded : {A : Type 0} → (V → Result A EventMcpError) → Result V Text → Result A AgentError
  decoded decode (ok payload) = map_err event_mcp (decode payload)
  decoded decode (err e) = err (event_mcp (dispatch_failed e))

  abbrev pub or_fail :
      {A : Type 0} → Result A AgentError → RunState W V D → Flow (RunState W V D) AgentError A
  or_fail (ok a) s = go a s
  or_fail (err e) s = fail e s

  -- The dispatch of a payload to the handlers of a stage.
  unfoldable pub transform :
      {A : Type 0}
      → EventStage
      → V
      → Option ℕ
      → (V → Result A EventMcpError)
      → Step (RunState W V D) AgentError A
  transform stage payload iteration decode s =
      let answer = h.dispatch stage payload iteration s.world in
      or_fail (decoded decode answer.0) (with_world h r answer.1 s)
