-- ===== src/Engine/Invariant/Output.antt =====
-- What the loop keeps also holds of the run's output and of the state at its end.
use mathlib.Core.Path.{subst}
use agent_kuibysheff.Common.{
  ◌≡◌, refl, inl, inr, not, ◌&&◌, none, some, Text, Bool-cases, Option-cases, is_empty,
}
use agent_kuibysheff.Billing.Money.{Decimals}
use agent_kuibysheff.Engine.Step.{Flow, go, halt, fail, After, >>=-Preserves}
use agent_kuibysheff.Engine.Host.{
  Host, AgentRunRequest, AgentError, ToolCallId, run_before_output, RunOutput,
}
use agent_kuibysheff.Engine.State.{RunState}
use agent_kuibysheff.Engine.Pipeline.{decode_run_before_output}
use agent_kuibysheff.Engine.Invariant.{IsClosed}
use agent_kuibysheff.Engine.Invariant.Walk.{transform-Keeps}
use agent_kuibysheff.Engine.Invariant.Rounds.{some_inj, run_loop-After}
use agent_kuibysheff.Engine.Run.{
  run_loop, before_output, set_result, usage_of, output_of, announce, failed, outcome, finish_run,
  finished, enough_fuel, run_from,
}

module _ {W V D E : Type 0} ⦃decimals : Decimals D⦄ (h : Host W V D E) (r : AgentRunRequest D)
    {P : RunState W V D → Type 0} {Open : ToolCallId → RunState W V D → Type 0}
    (c : IsClosed h r P Open)
    (on_result : (t : Text) (s : RunState W V D) → P s → P (record s { final_result = t }))
    (on_announce : (s : RunState W V D) → P s → P (announce h r s)) where
  abbrev S : Type 0
  S = RunState W V D

  before_output-After : (s : S) → P s → After P (before_output h r s)
  unfolding before_output
  before_output-After s p =
      elim (Bool-cases (
        not (is_empty s.final_result)
        && (not (h.is_cancelled s.world) && h.has_handlers run_before_output))) [
          | inl b ↦ rw b (
              (>>=-Preserves {f = set_result h r}
                  (record {
                    at =
                        transform-Keeps h r P Open c run_before_output
                          (h.encode_result s.final_result) none (decode_run_before_output h);
                  })
                  (λ t. record { at = on_result t })).at
                s p)
          | inr b ↦ rw b p
        ]

  finish_run-After :
      (flow : Flow S AgentError (Unit {0})) → After P flow → After P (finish_run h r flow)
  finish_run-After (go u s) p = before_output-After s p
  finish_run-After (halt s) p = before_output-After s p
  finish_run-After (fail e s) p = p

  -- The output reports on a state of which the predicate holds, and so does the final state.
  abbrev pub Reports : RunOutput D × S → Type 0
  Reports (output, last) = P last × (s : S) × P s × (output.usage ≡ usage_of h r s)

  outcome-Reports :
      (flow : Flow S AgentError (Unit {0})) → After P flow → Reports (outcome h r flow)
  unfolding output_of failed
  outcome-Reports (go u s) p = (on_announce s p, s, p, refl)
  outcome-Reports (halt s) p = (on_announce s p, s, p, refl)
  outcome-Reports (fail e s) p = (p, s, p, refl)

  pub run_from-Reports :
      (s : S) (result : RunOutput D × S) → P s → run_from h r s ≡ some result → Reports result
  unfolding run_from
  run_from-Reports s result p e = elim (Option-cases (run_loop h r (enough_fuel h r) s)) [
    | inl f ↦ absurd (cc (rw (f, finished) at e))
    | inr (flow, f) ↦ subst Reports (some_inj (rw (f, finished) at e)) (
        outcome-Reports (finish_run h r flow)
          (finish_run-After flow (run_loop-After h r c (enough_fuel h r) s flow p f)))
  ]
