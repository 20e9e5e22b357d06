-- ===== src/Engine/Invariant.antt =====
-- The updates of the state that a run of src/agent/loop/engine.rs is made of, as an interface: a
-- predicate that every one of them keeps holds throughout the run. Between the two events of a
-- tool call, another predicate stands in its place.
pub mod Walk
pub mod Rounds
pub mod Output
use agent_kuibysheff.Common.{ℕ, ◌≡◌, Bool, true, some, List, Text, ok, Result}
use agent_kuibysheff.Limits.{TokenUsage, add_tokens, begin_iteration, pre_step_check}
use agent_kuibysheff.History.{ChatMessage}
use agent_kuibysheff.Billing.Money.{Decimals}
use agent_kuibysheff.Billing.Attempt.{ProviderAttemptAccounting}
use agent_kuibysheff.Billing.Chain.{resolve}
use agent_kuibysheff.Billing.Tracker.{record_cost}
use agent_kuibysheff.Engine.Message.{upsert_pinned_message}
use agent_kuibysheff.Engine.Host.{
  Host, AgentRunRequest, thought, tool_start, tool_finish, ToolCallId, ParsedDirective,
  goal_reached,
}
use agent_kuibysheff.Engine.State.{RunState, RunDiagnostics, with_world, emit, stopped, push, prune}
use agent_kuibysheff.Engine.Round.{goal_text}

module _ {W V D E : Type 0} ⦃decimals : Decimals D⦄ (h : Host W V D E) (r : AgentRunRequest D) where
  abbrev S : Type 0
  S = RunState W V D

  pub record IsClosed (P : S → Type 0) (Open : ToolCallId → S → Type 0) : Type 0 where
    pub on_world : (w : W) (s : S) → P s → P (with_world h r w s)
    pub on_pinned :
        (t : Text) (ms : List ChatMessage) (s : S)
        → upsert_pinned_message s.messages t ≡ some ms
        → P s
        → P (record s { messages = ms })
    pub on_push : (m : ChatMessage) (s : S) → P s → P (push h r m s)
    pub on_prune : (s : S) → P s → P (prune h r s)
    pub on_stopped : (t : Text) (s : S) → P s → P (stopped h r t s)
    pub on_goal :
        (content : Text) (parsed : ParsedDirective V) (s : S)
        → h.parse_directive content ≡ ok parsed
        → parsed.directive.done ≡ true
        → P s
        → P (record s {
          final_result = goal_text h r parsed.directive.result;
          stop_reason = goal_reached;
        })
    pub on_attempt :
        (a : ProviderAttemptAccounting D) (s : S)
        → P s
        → P (record s {
          cost_tracker = record_cost s.cost_tracker s.metrics.iterations a (resolve a h.resolvers);
        })
    pub on_admit :
        (now : ℕ) (s : S)
        → pre_step_check s.metrics r.limits now ≡ ok tt
        → P s
        → P (record s { metrics = begin_iteration s.metrics })
    pub on_tokens :
        (u : TokenUsage) (s : S) → P s → P (record s { metrics = add_tokens s.metrics u })
    pub on_diag : (d : RunDiagnostics) (s : S) → P s → P (record s { diag = d })
    pub on_thought : (t : Text) (s : S) → P s → P (emit h r (thought t) s)
    pub on_start :
        (id : ToolCallId) (server tool : Text) (v : V) (s : S)
        → P s
        → Open id (emit h r (tool_start id server tool v) s)
    pub open_world : (id : ToolCallId) (w : W) (s : S) → Open id s → Open id (with_world h r w s)
    pub open_absent :
        (id : ToolCallId) (ps : List Text) (s : S)
        → Open id s
        → Open id (record s { absent_paths = ps })
    pub open_diag :
        (id : ToolCallId) (d : RunDiagnostics) (s : S) → Open id s → Open id (record s { diag = d })
    pub on_finish :
        (id : ToolCallId) (success : Bool) (v : V) (s : S)
        → Open id s
        → P (emit h r (tool_finish id success v) s)
