-- ===== src/Engine/State.antt =====
-- The local variables of `run_inner` (src/agent/loop/engine.rs), and the small updates that its
-- body is made of.
use agent_kuibysheff.Common.{
  ℕ, suc, Bool, true, false, List, [], ◌∷◌, ◌++◌, text_ord, list_eq, nat_eq, Text, text,
  if◌then◌else◌, ok, err,
}
use agent_kuibysheff.Limits.{
  RunMetrics, LimitExceeded, iterations, tokens, duration, duration_limit_hit, pre_step_check,
  begin_iteration,
}
use agent_kuibysheff.History.{ChatMessage, prune_message_history, push_message, history_prefix_len}
use agent_kuibysheff.Billing.Attempt.{ProviderAttemptAccounting}
use agent_kuibysheff.Billing.Chain.{resolve}
use agent_kuibysheff.Billing.Money.{Decimals}
use agent_kuibysheff.Billing.Tracker.{RunCostTracker, record_cost, limit_hit}
use agent_kuibysheff.Engine.Step.{Step, go, halt}
use agent_kuibysheff.Engine.Host.{
  Host, AgentRunRequest, AgentEvent, AgentError, StopReason, limit_reached,
}

pub record RunDiagnostics : Type 0 where
  pub parse_failures : ℕ  -- u32
  pub tools_executed : ℕ  -- u32
  pub home_write_ok : Bool
  pub home_run_ok : Bool

abbrev pub no_diagnostics : RunDiagnostics
no_diagnostics = record {
  parse_failures = 0;
  tools_executed = 0;
  home_write_ok = false;
  home_run_ok = false;
}

pub record RunState (W V D : Type 0) : Type 0 where
  pub world : W
  pub messages : List ChatMessage
  pub full_history : List ChatMessage
  pub metrics : RunMetrics
  pub cost_tracker : RunCostTracker D
  pub final_result : Text
  pub stop_reason : StopReason
  pub diag : RunDiagnostics
  pub absent_paths : List Text
  -- what was emitted so far, in order
  pub emitted : List (AgentEvent V D)

abbrev pub limit_text : Text → Text
limit_text name = text "Execution stopped due to limit: " ++ name

abbrev pub limit_name : LimitExceeded → Text
limit_name iterations = text "max_iterations"
limit_name tokens = text "max_tokens"
limit_name duration = text "max_duration_sec"

-- The slots that pruning keeps: system and goal, and the pinned files where there are any.
abbrev pub prefix_of : List Text → ℕ
prefix_of [] = history_prefix_len
prefix_of (f ∷ fs) = suc history_prefix_len

module _ {W V D E : Type 0} (h : Host W V D E) (r : AgentRunRequest D) where
  abbrev pub model_prefix : ℕ
  model_prefix = prefix_of r.pinned_files

  abbrev pub later : RunState W V D → RunState W V D
  later s = record s { world = h.tick s.world }

  abbrev pub with_world : W → RunState W V D → RunState W V D
  with_world w s = record s { world = w }

  abbrev pub emit : AgentEvent V D → RunState W V D → RunState W V D
  emit e s = record s { emitted = s.emitted ++ e ∷ [] }

  abbrev pub stopped : Text → RunState W V D → RunState W V D
  stopped t s = record s { final_result = t; stop_reason = limit_reached }

  unfoldable pub push : ChatMessage → RunState W V D → RunState W V D
  unfolding push_message
  push m s =
      let pushed = push_message s.messages s.full_history m r.history in
      record s { messages = pushed.0; full_history = pushed.1 }

  unfoldable pub prune : RunState W V D → RunState W V D
  prune s = record s { messages = prune_message_history s.messages r.history model_prefix }

  unfoldable pub out_of_time : RunState W V D → Bool
  out_of_time s = duration_limit_hit s.metrics r.limits (h.now s.world)

  unfoldable pub set_cancel_or_duration_stop : RunState W V D → RunState W V D
  unfolding out_of_time
  set_cancel_or_duration_stop s =
      if out_of_time s
      then stopped (limit_text (text "max_duration_sec")) (later s)
      else stopped (text "Execution cancelled by user") (later s)

  -- A check that may stop the run: whether it does, and the state then.
  abbrev pub Check : Type 0
  Check = RunState W V D → Bool × RunState W V D

  unfoldable pub should_stop_for_duration : Check
  unfolding out_of_time
  should_stop_for_duration s =
      if out_of_time s
      then (true, stopped (limit_text (text "max_duration_sec")) (later s))
      else (false, later s)

  unfoldable pub should_stop_for_cancel : Check
  unfolding set_cancel_or_duration_stop
  should_stop_for_cancel s =
      if h.is_cancelled s.world
      then (true, set_cancel_or_duration_stop (later s))
      else (false, later s)

  -- `if check { break; }`
  abbrev pub guard : Check → Step (RunState W V D) AgentError (Unit {0})
  guard check s = if (check s).0 then halt (check s).1 else go tt (check s).1

module _ {W V D E : Type 0} ⦃decimals : Decimals D⦄ (h : Host W V D E) (r : AgentRunRequest D) where
  unfoldable pub should_stop_for_cost : RunState W V D → Bool × RunState W V D
  should_stop_for_cost s =
      if limit_hit s.cost_tracker
      then (true, stopped h r (limit_text (text "max_cost")) s)
      else (false, s)

  -- The loop over the attempts of an answer or of a failure.
  unfoldable pub record_attempts :
      List (ProviderAttemptAccounting D) → RunState W V D → RunState W V D
  record_attempts [] s = s
  record_attempts (a ∷ attempts) s = record_attempts attempts (record s {
    cost_tracker = record_cost s.cost_tracker s.metrics.iterations a (resolve a h.resolvers);
  })

  -- The check of the limits, and the begin of an iteration.
  unfoldable pub admit : Step (RunState W V D) AgentError (Unit {0})
  admit s = elim (pre_step_check s.metrics r.limits (h.now s.world)) [
    | err limit ↦ halt (stopped h r (limit_text (limit_name limit)) (later h r s))
    | ok u ↦ go tt (record (later h r s) { metrics = begin_iteration s.metrics })
  ]
