-- ===== src/Engine/Round.antt =====
-- One round of the loop of `run_inner` (src/agent/loop/engine.rs).
pub mod Calls
use agent_kuibysheff.Common.{
  ℕ, suc, Bool, true, false, not, ◌&&◌, ◌||◌, Option, none, some, List, [], ◌∷◌, ◌++◌, ◌==◌,
  list_eq, nat_eq, is_empty, trim, Text, text, u32_max, saturating_add, if◌then◌else◌, Result, ok,
  err,
}
use agent_kuibysheff.Limits.{add_tokens, tokens_limit_hit}
use agent_kuibysheff.History.{ChatMessage, assistant, user}
use agent_kuibysheff.Billing.Money.{Decimals}
use agent_kuibysheff.Engine.Message.{message, is_system, upsert_pinned_message, load_pinned_message}
use agent_kuibysheff.Engine.Step.{Step, Flow, go, halt, fail, ◌>>=◌, ◌>>◌, give, modify, throw}
use agent_kuibysheff.Engine.Host.{
  Host, AgentRunRequest, AgentEvent, thought, AgentError, provider, event_mcp, panicked,
  EventMcpError, invalid_payload, dispatch_failed, EventStage, context_before_model,
  model_after_response, StopReason, goal_reached, limit_reached, AccountedModelResponse,
  AccountedProviderError, DirectiveParseError, ModelDirective, ParsedDirective,
}
use agent_kuibysheff.Engine.State.{
  RunState, later, with_world, emit, stopped, limit_text, push, prune, set_cancel_or_duration_stop,
  should_stop_for_duration, should_stop_for_cancel, should_stop_for_cost, guard, record_attempts,
  admit,
}
use agent_kuibysheff.Engine.Pipeline.{
  transform, decode_context_before_model, decode_model_after_response,
}
use agent_kuibysheff.Engine.Round.Calls.{run_calls}

abbrev pub rejected_assistant : Text
rejected_assistant =
    text
      "{\"done\":false,\"thought\":\"previous reply was not executed\",\"tool_calls\":[],\"result\":null}"

module _ {W V D E : Type 0} ⦃decimals : Decimals D⦄ (h : Host W V D E) (r : AgentRunRequest D) where
  abbrev S : Type 0
  S = RunState W V D

  abbrev Do : Type 0 → Type 0
  Do = Step S AgentError

  abbrev pinned : S → Option (List ChatMessage) → Flow S AgentError (Unit {0})
  pinned s none = fail panicked s
  pinned s (some ms) = go tt (record (later h r s) { messages = ms })

  unfoldable pub refresh_pinned : Do (Unit {0})
  refresh_pinned s =
      if is_empty r.pinned_files
      then go tt s
      else pinned s (
          upsert_pinned_message s.messages
            (load_pinned_message (h.read_to_string s.world) r.pinned_files))

  -- The messages that the model gets.
  unfoldable pub before_model : Do (List ChatMessage)
  unfolding transform
  before_model s =
      if not (h.has_handlers context_before_model)
      then go s.messages s
      else transform h r context_before_model (h.encode_messages s.messages)
          (some s.metrics.iterations) (decode_context_before_model h s.messages) s

  abbrev pub completed :
      S
      → Option (Result (AccountedModelResponse D) (AccountedProviderError D)) × W
      → Flow S AgentError (AccountedModelResponse D)
  completed s (none, w) = halt (set_cancel_or_duration_stop h r (with_world h r w s))
  completed s (some (err failure), w) =
      fail (provider failure.error) (record_attempts h r failure.attempts (with_world h r w s))
  completed s (some (ok answer), w) =
      go answer (record_attempts h r answer.attempts (with_world h r w s))

  -- The call of the model, with the accounting of every attempt.
  unfoldable pub complete : List ChatMessage → Do (AccountedModelResponse D)
  complete ms s = completed s (h.complete_accounted ms s.world)

  abbrev pub count_tokens : AccountedModelResponse D → S → S
  count_tokens answer s = record s { metrics = add_tokens s.metrics answer.usage }

  -- The text of the answer.
  unfoldable pub after_response : Text → Do Text
  unfolding transform
  after_response content s =
      if not (h.has_handlers model_after_response)
      then go content s
      else transform h r model_after_response (h.encode_content content) (some s.metrics.iterations)
          (decode_model_after_response h) s

  unfoldable pub should_stop_for_tokens : S → Bool × S
  should_stop_for_tokens s =
      if tokens_limit_hit s.metrics r.limits
      then (true, stopped h r (limit_text (text "max_tokens")) s)
      else (false, s)

  -- A directive that cannot be read: nothing of it is run, and the model is told.
  unfoldable pub reject : Text → Text → S → S
  unfolding push prune
  reject e hint s =
      let counted = record s {
        diag = record s.diag { parse_failures = saturating_add u32_max s.diag.parse_failures 1 };
      } in
      prune h r (
        push h r (message user (h.print (h.parse_failure e hint)))
          (push h r (message assistant rejected_assistant) counted))

  abbrev pub emit_thought : Option Text → S → S
  emit_thought none s = s
  emit_thought (some t) s = if is_empty (trim t) then s else emit h r (thought t) s

  -- Whether a tool call ended the run.
  abbrev pub ended_in_calls : S → Bool
  ended_in_calls s = elim s.stop_reason [
    | limit_reached ↦ not (is_empty s.final_result)
    | goal_reached ↦ false
    | StopReason.error ↦ false
  ]

  abbrev pub goal_text : Option Text → Text
  goal_text none = text "Agent marked done without explicit result"
  goal_text (some t) = t

  -- The end of a round: the goal, or the next round.
  unfoldable pub conclude : ModelDirective V → Do (Unit {0})
  unfolding prune
  conclude directive s =
      if ended_in_calls s
      then halt s
      else if directive.done
      then halt (record s { final_result = goal_text directive.result; stop_reason = goal_reached })
      else go tt (prune h r s)

  unfoldable pub accept : ParsedDirective V → Do (Unit {0})
  unfolding conclude
  accept parsed = do
    modify (push h r (message assistant parsed.json_text))
    modify (emit_thought parsed.directive.thought)
    modify (λ s. run_calls h r s.metrics.iterations 0 parsed.directive.tool_calls s)
    conclude parsed.directive

  abbrev pub handled : Result (ParsedDirective V) DirectiveParseError → Do (Unit {0})
  handled (err e) = modify (reject e.message e.hint)
  handled (ok parsed) = accept parsed

  unfoldable pub handle : Text → Do (Unit {0})
  unfolding reject accept
  handle content = handled (h.parse_directive content)

  unfoldable pub checks : Do (Unit {0})
  unfolding refresh_pinned
  checks = do
    refresh_pinned
    guard h r (should_stop_for_duration h r)
    guard h r (should_stop_for_cancel h r)
    guard h r (should_stop_for_cost h r)

  -- The round up to the begin of its iteration.
  unfoldable pub opening : Do (Unit {0})
  unfolding checks
  opening = do checks; admit h r

  -- What follows the model's answer.
  unfoldable pub digest : AccountedModelResponse D → Do (Unit {0})
  unfolding after_response handle
  digest answer = do
    modify (count_tokens answer)
    content ← after_response answer.content
    guard h r should_stop_for_tokens
    guard h r (should_stop_for_cost h r)
    guard h r (should_stop_for_duration h r)
    guard h r (should_stop_for_cancel h r)
    handle content

  unfoldable pub turn : Do (Unit {0})
  unfolding before_model complete digest
  turn = do ms ← before_model; answer ← complete ms; digest answer

  unfoldable pub round : Do (Unit {0})
  unfolding opening turn
  round = do opening; turn
