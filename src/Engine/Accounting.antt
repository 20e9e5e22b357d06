-- ===== src/Engine/Accounting.antt =====
-- The cost ledger of a whole run of src/agent/loop/engine.rs.
use agent_kuibysheff.Common.{◌≡◌, inl, inr, some, ok, Bool-cases, is_empty}
use agent_kuibysheff.Billing.Chain.{resolve}
use agent_kuibysheff.Billing.Money.{Decimals}
use agent_kuibysheff.Billing.Tracker
use agent_kuibysheff.Billing.Tracker.{RunCostTracker}
use agent_kuibysheff.Billing.Tracker.Ledger.{IsLedger, record_cost-IsLedger, new-IsLedger}
use agent_kuibysheff.Engine.Host.{Host, AgentRunRequest, RunOutput}
use agent_kuibysheff.Engine.State.{RunState, push, prune}
use agent_kuibysheff.Engine.Invariant.{IsClosed}
use agent_kuibysheff.Engine.Invariant.Output.{run_from-Reports}
use agent_kuibysheff.Engine.Run.{announce, run_from, initial_state}

module _ {W V D E : Type 0} ⦃decimals : Decimals D⦄ (h : Host W V D E) (r : AgentRunRequest D) where
  abbrev S : Type 0
  S = RunState W V D

  abbrev Accounted : S → Type 0
  Accounted s = IsLedger s.cost_tracker

  Accounted-IsClosed : IsClosed h r Accounted (λ id. Accounted)
  unfolding push prune
  Accounted-IsClosed = record {
    on_world = λ w s p. p;
    on_pinned = λ t ms s e p. p;
    on_push = λ m s p. p;
    on_prune = λ s p. p;
    on_stopped = λ t s p. p;
    on_goal = λ content parsed s e d p. p;
    on_attempt = λ a s p.
        record_cost-IsLedger s.cost_tracker s.metrics.iterations a (resolve a h.resolvers) p;
    on_admit = λ now s e p. p;
    on_tokens = λ u s p. p;
    on_diag = λ d s p. p;
    on_thought = λ t s p. p;
    on_start = λ id server tool v s p. p;
    open_world = λ id w s p. p;
    open_absent = λ id ps s p. p;
    open_diag = λ id d s p. p;
    on_finish = λ id success v s p. p;
  }

  announce-Accounted : (s : S) → Accounted s → Accounted (announce h r s)
  unfolding announce
  announce-Accounted s p = elim (Bool-cases (is_empty s.final_result)) [
    | inl b ↦ rw b p
    | inr b ↦ rw b p
  ]

  -- A run that ends, with a result or with an error, leaves a ledger whose total is the checked sum
  -- of the rows' prices, whose counters count the rows with and without a price (up to the largest
  -- u32), and whose prices are all in the tracker's currency.
  pub run_from-IsLedger :
      (tracker : RunCostTracker D) (w : W) (output : RunOutput D) (last : S)
      → Tracker.new h.billing_currency r.limits.max_cost ≡ ok tracker
      → run_from h r (initial_state h r tracker w) ≡ some (output, last)
      → IsLedger last.cost_tracker
  unfolding initial_state
  run_from-IsLedger tracker w output last fresh e =
      (run_from-Reports h r Accounted-IsClosed (λ t s p. p) announce-Accounted
        (initial_state h r tracker w) (output, last)
        (new-IsLedger h.billing_currency r.limits.max_cost tracker fresh) e).0
