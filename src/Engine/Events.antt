-- ===== src/Engine/Events.antt =====
-- The events that a run of src/agent/loop/engine.rs emits.
use agent_kuibysheff.Common.{
  ◌≡◌, inl, inr, Bool, some, List, [], ◌∷◌, ◌++◌, Text, Bool-cases, is_empty,
}
use agent_kuibysheff.Billing.Money.{Decimals}
use agent_kuibysheff.Billing.Tracker.{RunCostTracker}
use agent_kuibysheff.Engine.Host.{
  Host, AgentRunRequest, AgentEvent, thought, message, usage_summary, tool_start, tool_finish,
  ToolCallId, UsageReport, RunOutput,
}
use agent_kuibysheff.Engine.State.{RunState, push, prune}
use agent_kuibysheff.Engine.Invariant.{IsClosed}
use agent_kuibysheff.Engine.Invariant.Output.{run_from-Reports}
use agent_kuibysheff.Engine.Run.{announce, run_from, initial_state}

-- Every `ToolStart` is followed at once by the `ToolFinish` of the same call, and no `ToolFinish`
-- stands elsewhere.
pub data Paired {V D : Type 0} : List (AgentEvent V D) → Type 0 where
  quiet : Paired []
  thinks : {es : List (AgentEvent V D)} (t : Text) → Paired es → Paired (es ++ thought t ∷ [])
  says : {es : List (AgentEvent V D)} (t : Text) → Paired es → Paired (es ++ message t ∷ [])
  sums_up :
      {es : List (AgentEvent V D)} (u : UsageReport D)
      → Paired es
      → Paired (es ++ usage_summary u ∷ [])
  calls :
      {es : List (AgentEvent V D)} (id : ToolCallId) (server tool : Text) (arguments : V)
      (success : Bool) (output : V)
      → Paired es
      → Paired
          ((es ++ tool_start id server tool arguments ∷ []) ++ tool_finish id success output ∷ [])

-- The events up to the start of a call.
data Started {V D : Type 0} (id : ToolCallId) : List (AgentEvent V D) → Type 0 where
  starts :
      {es : List (AgentEvent V D)} (server tool : Text) (arguments : V)
      → Paired es
      → Started id (es ++ tool_start id server tool arguments ∷ [])

finishes :
    {V D : Type 0} (id : ToolCallId) (success : Bool) (output : V) (es : List (AgentEvent V D))
    → Started id es
    → Paired (es ++ tool_finish id success output ∷ [])
finishes id success output _ (starts server tool arguments p) =
    calls id server tool arguments success output p

module _ {W V D E : Type 0} ⦃decimals : Decimals D⦄ (h : Host W V D E) (r : AgentRunRequest D) where
  abbrev S : Type 0
  S = RunState W V D

  abbrev Calm : S → Type 0
  Calm s = Paired s.emitted

  Calm-IsClosed : IsClosed h r Calm (λ id s. Started id s.emitted)
  unfolding push prune
  Calm-IsClosed = record {
    on_world = λ w s p. p;
    on_pinned = λ t ms s e p. p;
    on_push = λ m s p. p;
    on_prune = λ s p. p;
    on_stopped = λ t s p. p;
    on_goal = λ content parsed s e d p. p;
    on_attempt = λ a s p. p;
    on_admit = λ now s e p. p;
    on_tokens = λ u s p. p;
    on_diag = λ d s p. p;
    on_thought = λ t s p. thinks t p;
    on_start = λ id server tool v s p. starts server tool v p;
    open_world = λ id w s p. p;
    open_absent = λ id ps s p. p;
    open_diag = λ id d s p. p;
    on_finish = λ id success v s p. finishes id success v s.emitted p;
  }

  announce-Calm : (s : S) → Calm s → Calm (announce h r s)
  unfolding announce
  announce-Calm s p = elim (Bool-cases (is_empty s.final_result)) [
    | inl b ↦ rw b (sums_up _ p)
    | inr b ↦ rw b (sums_up _ (says _ p))
  ]

  -- In the events of a run that ends, with a result or with an error, every start of a tool call
  -- is followed at once by its finish, whether the call was refused, failed, was cancelled or
  -- succeeded, and no finish stands without its start.
  pub run_from-Paired :
      (tracker : RunCostTracker D) (w : W) (output : RunOutput D) (last : S)
      → run_from h r (initial_state h r tracker w) ≡ some (output, last)
      → Paired last.emitted
  unfolding initial_state
  run_from-Paired tracker w output last e =
      (run_from-Reports h r Calm-IsClosed (λ t s p. p) announce-Calm (initial_state h r tracker w)
        (output, last) quiet e).0
