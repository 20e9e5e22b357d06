-- ===== src/Tests/Runs.antt =====
-- The run of the small host.
use agent_kuibysheff.Common.{
  list_beq, while, contains_char, contains, trim, starts_with, bytes, ℕ, ◌≤◌, ◌≡◌, refl, true, some,
  none, Option, List, [], ◌∷◌, length, Text, text, ok, arith,
}
use agent_kuibysheff.Engine.Host.{Host, goal_reached, limit_reached, RunOutput, AgentError}
use agent_kuibysheff.Limits
use agent_kuibysheff.Limits.{
  duration_limit_hit, pre_step_check, add_tokens, begin_iteration, tokens_limit_hit,
}
use agent_kuibysheff.Billing.Tracker
use agent_kuibysheff.Billing.Tracker.Ledger.{IsLedger}
use agent_kuibysheff.History.{
  ChatMessage, user, system, history_char_len, over_budget, prune_by_char_budget,
  prune_by_message_count, prune_message_history,
}
use agent_kuibysheff.Billing.Chain.{resolve}
use agent_kuibysheff.Billing.Tracker.{limit_hit, record_cost}
use agent_kuibysheff.Access.ToolName
use agent_kuibysheff.Engine.Message.{
  load_pinned_message, pinned_max_chars, home_read_path, truncate_chars, message, pinned_header,
  upsert_pinned_message, build_user_message, initial_messages,
}
use agent_kuibysheff.Engine.Message.Pinned.{upsert_pinned_message_again, load_pinned_message-le}
use agent_kuibysheff.Engine.Pipeline.{decode_context_before_model}
use agent_kuibysheff.Engine.Pipeline.Snapshot.{SameSystem, decode_context-SameSystem}
use agent_kuibysheff.Engine.Step.{◌>>=◌, Flow, go}
use agent_kuibysheff.Engine.State.{
  RunState, should_stop_for_duration, should_stop_for_cancel, should_stop_for_cost, admit,
  record_attempts, push, prune,
}
use agent_kuibysheff.Engine.Round.Calls.{run_calls}
use agent_kuibysheff.Engine.Round.{round, should_stop_for_tokens, conclude}
use agent_kuibysheff.Engine.Run.{run, run_from, run_loop, output_of, initial_state}
use agent_kuibysheff.Engine.Termination.{run_terminates, run_from_iterations}
use agent_kuibysheff.Engine.Events.{Paired, run_from-Paired}
use agent_kuibysheff.Engine.Accounting.{run_from-IsLedger}
use agent_kuibysheff.Engine.Goal.{Reached, run_loop-Reached}
use agent_kuibysheff.Engine.Front.{BeginsWith, run_from-BeginsWith}
use agent_kuibysheff.Tests.Fixtures.{cents, host, request, start, tracker}

abbrev ended_with : Option (RunOutput ℕ × RunState ℕ Text ℕ) → RunOutput ℕ × RunState ℕ Text ℕ
ended_with none = (output_of host request start, start)
ended_with (some result) = result

abbrev ended : RunOutput ℕ × RunState ℕ Text ℕ
ended = ended_with (run_from host request start)

ran : run_from host request start ≡ some ended
unfolding run_from initial_state round ◌>>=◌ should_stop_for_duration duration_limit_hit Limits.new
    should_stop_for_cancel should_stop_for_cost limit_hit admit pre_step_check
    should_stop_for_tokens tokens_limit_hit add_tokens record_attempts begin_iteration record_cost
    resolve list_beq run_calls push prune prune_message_history prune_by_message_count
    prune_by_char_budget while over_budget history_char_len ToolName.new contains_char
    home_read_path contains trim truncate_chars conclude
ran = refl

-- The run takes two rounds, and ends with the model's result.
run_reaches_goal :
    (ended.0.stop_reason ≡ goal_reached)
    × (ended.0.result ≡ text "fin")
    × (ended.0.usage.iterations ≡ 2)
unfolding run_from initial_state round ◌>>=◌ should_stop_for_duration duration_limit_hit Limits.new
    should_stop_for_cancel should_stop_for_cost limit_hit admit pre_step_check
    should_stop_for_tokens tokens_limit_hit add_tokens record_attempts begin_iteration record_cost
    resolve list_beq run_calls push prune prune_message_history prune_by_message_count
    prune_by_char_budget while over_budget history_char_len ToolName.new contains_char
    home_read_path contains trim truncate_chars conclude
run_reaches_goal = (refl, refl, refl)

-- A thought, a call, the result and the summary.
run_emits_five : length ended.1.emitted ≡ 5
unfolding run_from initial_state round ◌>>=◌ should_stop_for_duration duration_limit_hit Limits.new
    should_stop_for_cancel should_stop_for_cost limit_hit admit pre_step_check
    should_stop_for_tokens tokens_limit_hit add_tokens record_attempts begin_iteration record_cost
    resolve list_beq run_calls push prune prune_message_history prune_by_message_count
    prune_by_char_budget while over_budget history_char_len ToolName.new contains_char
    home_read_path contains trim truncate_chars conclude
run_emits_five = refl

abbrev left_in : Option (Flow (RunState ℕ Text ℕ) AgentError (Unit {0})) → RunState ℕ Text ℕ
left_in (some (go u s)) = s
left_in _ = start

abbrev left : RunState ℕ Text ℕ
left = left_in (run_loop host request 5 start)

looped : run_loop host request 5 start ≡ some (go tt left)
unfolding run_loop initial_state round ◌>>=◌ should_stop_for_duration duration_limit_hit Limits.new
    should_stop_for_cancel should_stop_for_cost limit_hit admit pre_step_check
    should_stop_for_tokens tokens_limit_hit add_tokens record_attempts begin_iteration record_cost
    resolve list_beq run_calls push prune prune_message_history prune_by_message_count
    prune_by_char_budget while over_budget history_char_len ToolName.new contains_char
    home_read_path contains trim truncate_chars conclude
looped = refl

left_at_goal : left.stop_reason ≡ goal_reached
unfolding run_loop initial_state round ◌>>=◌ should_stop_for_duration duration_limit_hit Limits.new
    should_stop_for_cancel should_stop_for_cost limit_hit admit pre_step_check
    should_stop_for_tokens tokens_limit_hit add_tokens record_attempts begin_iteration record_cost
    resolve list_beq run_calls push prune prune_message_history prune_by_message_count
    prune_by_char_budget while over_budget history_char_len ToolName.new contains_char
    home_read_path contains trim truncate_chars conclude
left_at_goal = refl

start_limit_reached : start.stop_reason ≡ limit_reached
unfolding initial_state
start_limit_reached = refl

start_iterations : start.metrics.iterations ≤ 4
unfolding initial_state Limits.new
start_iterations = omega arith

abbrev goal_message : ChatMessage
goal_message = message user (build_user_message (text "do it") [] (text "home.read" ∷ []))

start_BeginsWith : BeginsWith (message system (text "be good")) goal_message start.messages
unfolding initial_state initial_messages
start_BeginsWith = ([], refl)

fresh_tracker : Tracker.new (text "USD") none ≡ ok tracker
unfolding Tracker.new bytes
fresh_tracker = refl

run_terminates_example :
    (result : RunOutput ℕ × Option (RunState ℕ Text ℕ)) × (run host request 0 ≡ some result)
run_terminates_example = run_terminates host request (omega arith) 0

run_from_iterations_example : ended.0.usage.iterations ≤ 4
run_from_iterations_example =
    run_from_iterations host request (omega arith) start ended.0 ended.1 start_iterations ran

run_from-Paired_example : Paired ended.1.emitted
run_from-Paired_example = run_from-Paired host request tracker 0 ended.0 ended.1 ran

run_from-IsLedger_example : IsLedger ended.1.cost_tracker
run_from-IsLedger_example =
    run_from-IsLedger host request tracker 0 ended.0 ended.1 fresh_tracker ran

run_loop-Reached_example : Reached host request left
run_loop-Reached_example =
    run_loop-Reached host request 5 start left start_limit_reached looped left_at_goal

run_from-BeginsWith_example :
    BeginsWith (message system (text "be good")) goal_message ended.1.messages
run_from-BeginsWith_example =
    run_from-BeginsWith host request (message system (text "be good")) goal_message start ended.0
      ended.1 start_BeginsWith ran

header_starts : starts_with pinned_header pinned_header ≡ true
unfolding starts_with
header_starts = refl

upsert_pinned_message_again_example :
    (after : List ChatMessage) × (upsert_pinned_message
        (message system [] ∷ message user [] ∷ [])
        pinned_header
      ≡ some (message system [] ∷ message user [] ∷ message user pinned_header ∷ after))
    × (upsert_pinned_message
          (message system [] ∷ message user [] ∷ message user pinned_header ∷ after)
          (text "x")
        ≡ some (message system [] ∷ message user [] ∷ message user (text "x") ∷ after))
upsert_pinned_message_again_example =
    upsert_pinned_message_again (message system []) (message user []) [] pinned_header (text "x")
      header_starts

-- A transcript of one system message, resumed without a new goal, has no slot for pinned files: the
-- program panics there.
resumed_alone_panics :
    upsert_pinned_message
      (initial_messages [] (text "s") [] (some (message system (text "old") ∷ [])))
      (text "x")
    ≡ none
unfolding initial_messages upsert_pinned_message trim
resumed_alone_panics = refl

abbrev own : List ChatMessage
own = message system (text "s") ∷ message user (text "goal") ∷ []

abbrev seen : List ChatMessage
seen = message system (text "s") ∷ message user (text "hidden") ∷ []

-- A host whose payloads decode to two messages.
abbrev handled_host : Host ℕ Text ℕ Text
handled_host = record host { decode_messages = λ v. ok seen }

seen_taken : decode_context_before_model handled_host own [] ≡ ok seen
unfolding decode_context_before_model list_beq
seen_taken = refl

decode_context-SameSystem_example : SameSystem own seen
decode_context-SameSystem_example = decode_context-SameSystem handled_host own [] seen seen_taken

load_pinned_message-le_example :
    length (load_pinned_message (λ path. some (text "body")) (text "a.md" ∷ [])) ≤ pinned_max_chars
load_pinned_message-le_example =
    load_pinned_message-le (λ path. some (text "body")) (text "a.md" ∷ [])
