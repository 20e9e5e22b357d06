-- ===== src/Engine/Goal.antt =====
-- What it takes for the loop of src/agent/loop/engine.rs to report that the goal is reached.
use agent_kuibysheff.Common.{ℕ, ◌≡◌, refl, ◌⊎◌, inl, inr, true, some, Text, ok}
use agent_kuibysheff.Billing.Money.{Decimals}
use agent_kuibysheff.Engine.Step.{go}
use agent_kuibysheff.Engine.Host.{
  Host, AgentRunRequest, ParsedDirective, goal_reached, limit_reached,
}
use agent_kuibysheff.Engine.State.{RunState, push, prune}
use agent_kuibysheff.Engine.Invariant.{IsClosed}
use agent_kuibysheff.Engine.Invariant.Rounds.{run_loop-After}
use agent_kuibysheff.Engine.Round.{goal_text}
use agent_kuibysheff.Engine.Run.{run_loop}

module _ {W V D E : Type 0} ⦃decimals : Decimals D⦄ (h : Host W V D E) (r : AgentRunRequest D) where
  abbrev S : Type 0
  S = RunState W V D

  -- A text of the model was read as a directive that says `done`, and its result is the run's.
  pub record Reached (s : S) : Type 0 where
    pub content : Text
    pub parsed : ParsedDirective V
    pub reads : h.parse_directive content ≡ ok parsed
    pub says_done : parsed.directive.done ≡ true
    pub result_kept : s.final_result ≡ goal_text h r parsed.directive.result

  abbrev Justified : S → Type 0
  Justified s = (s.stop_reason ≡ limit_reached) ⊎ Reached s

  -- Only the fields `final_result` and `stop_reason` matter.
  same_end :
      (s s' : S)
      → s.final_result ≡ s'.final_result
      → s.stop_reason ≡ s'.stop_reason
      → Justified s
      → Justified s'
  same_end s s' e f (inl l) = inl (cc)
  same_end s s' e f (inr x) = inr (record {
    content = x.content;
    parsed = x.parsed;
    reads = x.reads;
    says_done = x.says_done;
    result_kept = cc (x.result_kept);
  })

  Justified-IsClosed : IsClosed h r Justified (λ id. Justified)
  unfolding push prune
  Justified-IsClosed = record {
    on_world = λ w s. same_end s _ refl refl;
    on_pinned = λ t ms s e. same_end s _ refl refl;
    on_push = λ m s. same_end s _ refl refl;
    on_prune = λ s. same_end s _ refl refl;
    on_stopped = λ t s p. inl refl;
    on_goal = λ content parsed s e d p. inr (record {
      content = content;
      parsed = parsed;
      reads = e;
      says_done = d;
      result_kept = refl;
    });
    on_attempt = λ a s. same_end s _ refl refl;
    on_admit = λ now s e. same_end s _ refl refl;
    on_tokens = λ u s. same_end s _ refl refl;
    on_diag = λ d s. same_end s _ refl refl;
    on_thought = λ t s. same_end s _ refl refl;
    on_start = λ id server tool v s. same_end s _ refl refl;
    open_world = λ id w s. same_end s _ refl refl;
    open_absent = λ id ps s. same_end s _ refl refl;
    open_diag = λ id d s. same_end s _ refl refl;
    on_finish = λ id success v s. same_end s _ refl refl;
  }

  -- Where the loop, begun without a goal, is left with the goal reached, some text was read as a
  -- directive that says `done`, and the result is that directive's (or the fixed text for none).
  pub run_loop-Reached :
      (fuel : ℕ) (s last : S)
      → s.stop_reason ≡ limit_reached
      → run_loop h r fuel s ≡ some (go tt last)
      → last.stop_reason ≡ goal_reached
      → Reached last
  run_loop-Reached fuel s last start e goal =
      elim (run_loop-After h r Justified-IsClosed fuel s (go tt last) (inl start) e) [
        | inl l ↦ absurd (cc)
        | inr x ↦ x
      ]
