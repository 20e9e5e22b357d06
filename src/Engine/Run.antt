-- ===== src/Engine/Run.antt =====
-- The loop of `run_inner` and what `run` returns (src/agent/loop/engine.rs).
use agent_kuibysheff.Common.{
  ℕ, zero, suc, not, ◌&&◌, Option, none, some, [], is_empty, Text, if◌then◌else◌, Result, ok, err,
}
use agent_kuibysheff.Limits
use agent_kuibysheff.Limits.{RunMetrics, elapsed_ms}
use agent_kuibysheff.Billing.Money.{Decimals, BillingError}
use agent_kuibysheff.Billing.Tracker
use agent_kuibysheff.Billing.Tracker.{RunCostTracker, RunCostReport, empty_report, report}
use agent_kuibysheff.Engine.Message.{initial_messages, build_user_message}
use agent_kuibysheff.Engine.Step.{Step, Flow, go, halt, fail, ◌>>=◌}
use agent_kuibysheff.Engine.Host.{
  Host, AgentRunRequest, message, usage_summary, AgentError, billing, run_before_output, StopReason,
  limit_reached, UsageReport, RunOutput,
}
use agent_kuibysheff.Engine.State.{RunState, no_diagnostics, emit}
use agent_kuibysheff.Engine.Pipeline.{transform, decode_run_before_output}
use agent_kuibysheff.Engine.Round.{round}

unfoldable pub build_usage_report : {D : Type 0} → RunMetrics → ℕ → RunCostReport D → UsageReport D
build_usage_report m now cost = record {
  iterations = m.iterations;
  prompt_tokens = m.token_usage.prompt_tokens;
  completion_tokens = m.token_usage.completion_tokens;
  total_tokens = m.token_usage.total_tokens;
  elapsed_ms = elapsed_ms m now;
  cost = cost;
}

module _ {W V D E : Type 0} ⦃decimals : Decimals D⦄ (h : Host W V D E) (r : AgentRunRequest D) where
  abbrev S : Type 0
  S = RunState W V D

  -- Behind a round: the next one, or the end.
  abbrev pub next :
      (S → Option (Flow S AgentError (Unit {0})))
      → Flow S AgentError (Unit {0})
      → Option (Flow S AgentError (Unit {0}))
  next loop (go u s) = loop s
  next loop (halt s) = some (go tt s)
  next loop (fail e s) = some (fail e s)

  -- The loop: the state in which it was left, or the error with which the run returned. `none` is
  -- the fuel used up.
  unfoldable pub run_loop : ℕ → S → Option (Flow S AgentError (Unit {0}))
  run_loop zero s = none
  run_loop (suc fuel) s = next (run_loop fuel) (round h r s)

  abbrev pub set_result : Text → Step S AgentError (Unit {0})
  set_result t s = go tt (record s { final_result = t })

  unfoldable pub before_output : Step S AgentError (Unit {0})
  unfolding transform
  before_output s =
      if not (is_empty s.final_result)
        && (not (h.is_cancelled s.world) && h.has_handlers run_before_output)
      then (transform h r run_before_output (h.encode_result s.final_result) none
              (decode_run_before_output h)
            >>= set_result)
          s
      else go tt s

  abbrev pub usage_of : S → UsageReport D
  usage_of s = build_usage_report s.metrics (h.now s.world) (report s.cost_tracker)

  unfoldable pub output_of : S → RunOutput D
  unfolding build_usage_report
  output_of s = record {
    run_id = h.run_id;
    result = s.final_result;
    usage = usage_of s;
    stop_reason = s.stop_reason;
  }

  -- The events behind the last round.
  unfoldable pub announce : S → S
  unfolding output_of
  announce s =
      let told = (if is_empty s.final_result then s else emit h r (message s.final_result) s) in
      emit h r (usage_summary (usage_of s)) told

  -- `AgentEngine::run` on an error of `run_inner`
  unfoldable pub failed : AgentError → UsageReport D → RunOutput D
  failed e usage = record {
    run_id = h.run_id;
    result = h.show_error e;
    usage = usage;
    stop_reason = StopReason.error;
  }

  -- The output of the run, and the state at its end.
  abbrev pub outcome : Flow S AgentError (Unit {0}) → RunOutput D × S
  outcome (go u s) = (output_of s, announce s)
  outcome (halt s) = (output_of s, announce s)
  outcome (fail e s) = (failed e (usage_of s), s)

  unfoldable pub initial_state : RunCostTracker D → W → S
  initial_state tracker w =
      let ms =
        initial_messages r.prompt r.system_prompt
          (build_user_message r.prompt r.input_files_context h.tools.available_tools)
          r.resume_messages in
      record {
        world = h.arm_deadline r.limits.max_duration_sec w;
        messages = ms;
        full_history = ms;
        metrics = Limits.new (h.now w);
        cost_tracker = tracker;
        final_result = [];
        stop_reason = limit_reached;
        diag = no_diagnostics;
        absent_paths = [];
        emitted = [];
      }

  -- Each round begins an iteration, so one more than the limit is enough.
  abbrev pub enough_fuel : ℕ
  enough_fuel = suc r.limits.max_iterations

  abbrev pub finish_run : Flow S AgentError (Unit {0}) → Flow S AgentError (Unit {0})
  finish_run (go u s) = before_output s
  finish_run (halt s) = before_output s
  finish_run (fail e s) = fail e s

  abbrev pub finished : Option (Flow S AgentError (Unit {0})) → Option (RunOutput D × S)
  finished none = none
  finished (some flow) = some (outcome (finish_run flow))

  -- The loop and what follows it.
  unfoldable pub run_from : S → Option (RunOutput D × S)
  unfolding run_loop before_output announce failed output_of
  run_from s = finished (run_loop enough_fuel s)

  abbrev pub with_state : Option (RunOutput D × S) → Option (RunOutput D × Option S)
  with_state none = none
  with_state (some (output, s)) = some (output, some s)

  abbrev pub started : W → Result (RunCostTracker D) BillingError → Option (RunOutput D × Option S)
  started w (err e) =
      some (
        failed (billing e) (build_usage_report (Limits.new (h.now w)) (h.now w) empty_report),
        none,
      )
  started w (ok tracker) = with_state (run_from (initial_state tracker w))

  -- `AgentEngine::run`. An error of the tracker's creation ends the run before its first round.
  unfoldable pub run : W → Option (RunOutput D × Option S)
  unfolding run_from initial_state
  run w = started w (Tracker.new h.billing_currency r.limits.max_cost)
