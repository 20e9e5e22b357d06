-- ===== src/Engine/Invariant/Walk.antt =====
-- A predicate that every update keeps holds at the end of each tool call, each round and each run.
use agent_kuibysheff.Common.{
  ℕ, suc, inl, inr, Option, none, some, List, [], ◌∷◌, Text, ok, err, Result, Result-cases,
  Option-cases, Bool-cases, contains_text, text, is_empty,
}
use agent_kuibysheff.History.{ChatMessage}
use agent_kuibysheff.Limits.{pre_step_check, tokens_limit_hit}
use agent_kuibysheff.Billing.Money.{Decimals}
use agent_kuibysheff.Billing.Tracker.{limit_hit}
use agent_kuibysheff.Billing.Attempt.{ProviderAttemptAccounting}
use agent_kuibysheff.Access.ToolName.{QualifiedTool, ToolNameError, new}
use agent_kuibysheff.Access.Gate.{ToolError}
use agent_kuibysheff.Engine.Message.{home_read_path, upsert_pinned_message, load_pinned_message}
use agent_kuibysheff.Engine.Step.{After, Keeps}
use agent_kuibysheff.Engine.Host.{
  Host, AgentRunRequest, AgentError, EventMcpError, EventStage, context_before_model,
  model_after_response, ToolCallId, ToolCallDirective, AccountedModelResponse,
  AccountedProviderError,
}
use agent_kuibysheff.Engine.State.{
  RunState, out_of_time, Check, set_cancel_or_duration_stop, should_stop_for_duration,
  should_stop_for_cancel, should_stop_for_cost, guard, record_attempts, admit,
}
use agent_kuibysheff.Engine.Pipeline.{transform, or_fail}
use agent_kuibysheff.Engine.Invariant.{IsClosed}
use agent_kuibysheff.Engine.Round.Calls.{
  reply, refuse, after_success, note_absent, is_absent, executed, execute, named, run_call,
  run_calls,
}
use agent_kuibysheff.Engine.Round.{
  refresh_pinned, before_model, completed, complete, after_response, should_stop_for_tokens, reject,
}

module _ {W V D E : Type 0} ⦃decimals : Decimals D⦄ (h : Host W V D E) (r : AgentRunRequest D)
    (P : RunState W V D → Type 0) (Open : ToolCallId → RunState W V D → Type 0)
    (c : IsClosed h r P Open) where
  abbrev S : Type 0
  S = RunState W V D

  set_stop-closed : (s : S) → P s → P (set_cancel_or_duration_stop h r s)
  unfolding set_cancel_or_duration_stop
  set_stop-closed s p = elim (Bool-cases (out_of_time h r s)) [
    | inl b ↦ rw b (c.on_stopped _ _ (c.on_world _ s p))
    | inr b ↦ rw b (c.on_stopped _ _ (c.on_world _ s p))
  ]

  pub duration-closed : (s : S) → P s → P (should_stop_for_duration h r s).1
  unfolding should_stop_for_duration
  duration-closed s p = elim (Bool-cases (out_of_time h r s)) [
    | inl b ↦ rw b (c.on_stopped _ _ (c.on_world _ s p))
    | inr b ↦ rw b (c.on_world _ s p)
  ]

  pub cancel-closed : (s : S) → P s → P (should_stop_for_cancel h r s).1
  unfolding should_stop_for_cancel
  cancel-closed s p = elim (Bool-cases (h.is_cancelled s.world)) [
    | inl b ↦ rw b (set_stop-closed _ (c.on_world _ s p))
    | inr b ↦ rw b (c.on_world _ s p)
  ]

  pub cost-closed : (s : S) → P s → P (should_stop_for_cost h r s).1
  unfolding should_stop_for_cost
  cost-closed s p = elim (Bool-cases (limit_hit s.cost_tracker)) [
    | inl b ↦ rw b (c.on_stopped _ s p)
    | inr b ↦ rw b (p)
  ]

  pub tokens-closed : (s : S) → P s → P (should_stop_for_tokens h r s).1
  unfolding should_stop_for_tokens
  tokens-closed s p = elim (Bool-cases (tokens_limit_hit s.metrics r.limits)) [
    | inl b ↦ rw b (c.on_stopped _ s p)
    | inr b ↦ rw b (p)
  ]

  pub guard-Keeps :
      (check : Check h r) → ((s : S) → P s → P (check s).1) → Keeps P (guard h r check)
  guard-Keeps check k s p = elim (Bool-cases ((check s).0)) [
    | inl b ↦ rw b (k s p)
    | inr b ↦ rw b (k s p)
  ]

  attempts-closed :
      (attempts : List (ProviderAttemptAccounting D)) (s : S)
      → P s
      → P (record_attempts h r attempts s)
  unfolding record_attempts
  attempts-closed [] s p = p
  attempts-closed (a ∷ more) s p = attempts-closed more _ (c.on_attempt a s p)

  pub admit-Keeps : Keeps P (admit h r)
  unfolding admit
  admit-Keeps s p = elim (Result-cases (pre_step_check s.metrics r.limits (h.now s.world))) [
    | inl (u, e) ↦ rw (e, admit) (c.on_world _ _ (c.on_admit _ s e p))
    | inr (limit, e) ↦ rw (e, admit) (c.on_stopped _ _ (c.on_world _ s p))
  ]

  or_fail-After : {A : Type 0} (x : Result A AgentError) (s : S) → P s → After P (or_fail h r x s)
  or_fail-After (ok a) s p = p
  or_fail-After (err e) s p = p

  pub transform-Keeps :
      {A : Type 0} (stage : EventStage) (payload : V) (iteration : Option ℕ)
      (decode : V → Result A EventMcpError)
      → Keeps P (transform h r stage payload iteration decode)
  unfolding transform
  transform-Keeps stage payload iteration decode s p = or_fail-After _ _ (c.on_world _ s p)

  pub refresh_pinned-Keeps : Keeps P (refresh_pinned h r)
  unfolding refresh_pinned
  refresh_pinned-Keeps s p = elim (Bool-cases (is_empty r.pinned_files)) [
    | inl b ↦ rw b p
    | inr b ↦
        elim (Option-cases (
          upsert_pinned_message s.messages
            (load_pinned_message (h.read_to_string s.world) r.pinned_files))) [
              | inl e ↦ rw (b, e) p
              | inr (ms, e) ↦ rw (b, e) (c.on_world _ _ (c.on_pinned _ ms s e p))
            ]
  ]

  pub before_model-Keeps : Keeps P (before_model h r)
  unfolding before_model
  before_model-Keeps s p = elim (Bool-cases (h.has_handlers context_before_model)) [
    | inl b ↦ rw b (transform-Keeps _ _ _ _ s p)
    | inr b ↦ rw b (p)
  ]

  pub after_response-Keeps : (t : Text) → Keeps P (after_response h r t)
  unfolding after_response
  after_response-Keeps t s p = elim (Bool-cases (h.has_handlers model_after_response)) [
    | inl b ↦ rw b (transform-Keeps _ _ _ _ s p)
    | inr b ↦ rw b (p)
  ]

  pub complete-Keeps : (ms : List ChatMessage) → Keeps P (complete h r ms)
  unfolding complete
  complete-Keeps ms s p = go_on (h.complete_accounted ms s.world)
    where
      go_on :
          (x : Option (Result (AccountedModelResponse D) (AccountedProviderError D)) × W)
          → After P (completed h r s x)
      go_on (none, w) = set_stop-closed _ (c.on_world w s p)
      go_on (some (err e), w) = attempts-closed _ _ (c.on_world w s p)
      go_on (some (ok a), w) = attempts-closed _ _ (c.on_world w s p)

  pub reject-closed : (e hint : Text) (s : S) → P s → P (reject h r e hint s)
  unfolding reject
  reject-closed e hint s p = c.on_prune _ (c.on_push _ _ (c.on_push _ _ (c.on_diag _ s p)))

  reply-closed : (t : Text) (s : S) → P s → P (reply h r t s)
  reply-closed t s p = c.on_prune _ (c.on_push _ s p)

  refuse-closed :
      (id : ToolCallId) (d : ToolCallDirective V) (e answer : Text) (s : S)
      → P s
      → P (refuse h r id d e answer s).1
  refuse-closed id d e answer s p =
      reply-closed _ _ (c.on_finish id _ _ _ (c.on_start id _ _ _ s p))

  success-closed : (d : ToolCallDirective V) (v : V) (s : S) → P s → P (after_success h r d v s).1
  success-closed d v s p =
      let timed = duration-closed s p in
      let cancelled = cancel-closed _ timed in
      elim (Bool-cases (should_stop_for_duration h r s).0) [
        | inl b ↦ rw b timed
        | inr b ↦
            elim (Bool-cases (should_stop_for_cancel h r (should_stop_for_duration h r s).1).0) [
              | inl b' ↦ rw (b, b') cancelled
              | inr b' ↦ rw (b, b') (reply-closed _ _ cancelled)
            ]
      ]

  note_absent-open :
      (e : Text) (tracked : Option Text) (id : ToolCallId) (s : S)
      → Open id s
      → Open id (note_absent h r e tracked s)
  note_absent-open e none id s o = o
  note_absent-open e (some path) id s o = elim (Bool-cases (contains_text (text "os error 2") e)) [
    | inl b ↦ rw b (c.open_absent id _ s o)
    | inr b ↦ rw b (o)
  ]

  executed-closed :
      (id : ToolCallId) (d : ToolCallDirective V) (tracked : Option Text) (s : S)
      (x : Option (Result V (ToolError E)) × W)
      → Open id s
      → P (executed h r id d tracked s x).1
  executed-closed id d tracked s (none, w) o =
      set_stop-closed _ (c.on_finish id _ _ _ (c.open_world id w s o))
  executed-closed id d tracked s (some (err e), w) o =
      reply-closed _ _
        (c.on_finish id _ _ _ (note_absent-open _ tracked id _ (c.open_world id w s o)))
  executed-closed id d tracked s (some (ok v), w) o =
      success-closed d v _ (c.on_finish id _ _ _ (c.open_diag id _ _ (c.open_world id w s o)))

  named-closed :
      (id : ToolCallId) (d : ToolCallDirective V) (s : S) (x : Result QualifiedTool ToolNameError)
      → P s
      → P (named h r id d s x).1
  unfolding execute
  named-closed id d s (err e) p = refuse-closed id d _ _ s p
  named-closed id d s (ok q) p =
      elim (Bool-cases
        (is_absent h r (home_read_path d.server d.tool (h.path_argument d.arguments)) s)) [
          | inl b ↦ rw b (refuse-closed id d _ _ s p)
          | inr b ↦ rw b (executed-closed id d _ _ _ (c.on_start id _ _ _ s p))
        ]

  pub calls-closed :
      (iteration index : ℕ) (cs : List (ToolCallDirective V)) (s : S)
      → P s
      → P (run_calls h r iteration index cs s)
  unfolding run_calls run_call
  calls-closed iteration index [] s p = p
  calls-closed iteration index (d ∷ cs) s p =
      let called = named-closed (iteration, index) d s (new d.server d.tool) p in
      elim (Bool-cases ((run_call h r (iteration, index) d s).0)) [
        | inl b ↦ rw b (called)
        | inr b ↦ rw b (calls-closed iteration (suc index) cs _ called)
      ]
