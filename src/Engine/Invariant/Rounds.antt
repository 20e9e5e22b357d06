-- ===== src/Engine/Invariant/Rounds.antt =====
-- A predicate that every update keeps holds at the end of every round and of the loop.
use mathlib.Core.Path.{subst}
use agent_kuibysheff.Common.{
  ℕ, zero, suc, ◌≡◌, inl, inr, Option, none, some, Text, ok, Result-cases, Bool-cases, is_empty,
  trim,
}
use agent_kuibysheff.Billing.Money.{Decimals}
use agent_kuibysheff.Engine.Step.{Flow, go, halt, fail, After, Keeps, Preserves, >>=-Preserves}
use agent_kuibysheff.Engine.Host.{
  Host, AgentRunRequest, AgentError, ToolCallId, ParsedDirective, AccountedModelResponse,
}
use agent_kuibysheff.Engine.State.{
  RunState, should_stop_for_duration, should_stop_for_cancel, should_stop_for_cost, guard,
}
use agent_kuibysheff.Engine.Invariant.{IsClosed}
use agent_kuibysheff.Engine.Invariant.Walk.{
  duration-closed, cancel-closed, cost-closed, tokens-closed, guard-Keeps, admit-Keeps,
  refresh_pinned-Keeps, before_model-Keeps, after_response-Keeps, complete-Keeps, reject-closed,
  calls-closed,
}
use agent_kuibysheff.Engine.Round.{
  emit_thought, ended_in_calls, should_stop_for_tokens, conclude, accept, handle, checks, opening,
  digest, turn, round,
}
use agent_kuibysheff.Engine.Run.{next, run_loop}

pub some_inj : {A : Type 0} {x y : A} → some x ≡ some y → x ≡ y
some_inj e = cc

module _ {W V D E : Type 0} ⦃decimals : Decimals D⦄ (h : Host W V D E) (r : AgentRunRequest D)
    {P : RunState W V D → Type 0} {Open : ToolCallId → RunState W V D → Type 0}
    (c : IsClosed h r P Open) where
  abbrev S : Type 0
  S = RunState W V D

  thought-closed : (t : Option Text) (s : S) → P s → P (emit_thought h r t s)
  thought-closed none s p = p
  thought-closed (some t) s p = elim (Bool-cases (is_empty (trim t))) [
    | inl b ↦ rw b p
    | inr b ↦ rw b (c.on_thought t s p)
  ]

  conclude-Keeps :
      (content : Text) (parsed : ParsedDirective V)
      → h.parse_directive content ≡ ok parsed
      → Keeps P (conclude h r parsed.directive)
  unfolding conclude
  conclude-Keeps content parsed e s p = elim (Bool-cases (ended_in_calls h r s)) [
    | inl b ↦ rw b p
    | inr b ↦ elim (Bool-cases parsed.directive.done) [
      | inl done ↦ rw (b, done) (c.on_goal content parsed s e done p)
      | inr more ↦ rw (b, more) (c.on_prune s p)
    ]
  ]

  accept-Preserves :
      (content : Text) (parsed : ParsedDirective V)
      → h.parse_directive content ≡ ok parsed
      → Preserves P (accept h r parsed)
  unfolding accept
  accept-Preserves content parsed e =
      >>=-Preserves (record { at = λ s p. c.on_push _ s p })
        (λ _.
          >>=-Preserves (record { at = thought-closed parsed.directive.thought })
            (λ _.
              >>=-Preserves
                (record {
                  at = λ s p. calls-closed h r P Open c _ 0 parsed.directive.tool_calls s p;
                })
                (λ _. record { at = conclude-Keeps content parsed e })))

  handle-Keeps : (content : Text) → Keeps P (handle h r content)
  unfolding handle
  handle-Keeps content s p = elim (Result-cases (h.parse_directive content)) [
    | inl (parsed, e) ↦ rw e ((accept-Preserves content parsed e).at s p)
    | inr (error, e) ↦ rw e (reject-closed h r P Open c _ _ s p)
  ]

  duration-Preserves : Preserves P (guard h r (should_stop_for_duration h r))
  duration-Preserves = record {
    at = guard-Keeps h r P Open c (should_stop_for_duration h r) (duration-closed h r P Open c);
  }

  cancel-Preserves : Preserves P (guard h r (should_stop_for_cancel h r))
  cancel-Preserves = record {
    at = guard-Keeps h r P Open c (should_stop_for_cancel h r) (cancel-closed h r P Open c);
  }

  cost-Preserves : Preserves P (guard h r (should_stop_for_cost h r))
  cost-Preserves = record {
    at = guard-Keeps h r P Open c (should_stop_for_cost h r) (cost-closed h r P Open c);
  }

  tokens-Preserves : Preserves P (guard h r (should_stop_for_tokens h r))
  tokens-Preserves = record {
    at = guard-Keeps h r P Open c (should_stop_for_tokens h r) (tokens-closed h r P Open c);
  }

  pub checks-Preserves : Preserves P (checks h r)
  unfolding checks
  checks-Preserves =
      >>=-Preserves (record { at = refresh_pinned-Keeps h r P Open c })
        (λ _.
          >>=-Preserves duration-Preserves
            (λ _. >>=-Preserves cancel-Preserves (λ _. cost-Preserves)))

  pub opening-Preserves : Preserves P (opening h r)
  unfolding opening
  opening-Preserves = >>=-Preserves checks-Preserves (λ _. record { at = admit-Keeps h r P Open c })

  digest-Preserves : (answer : AccountedModelResponse D) → Preserves P (digest h r answer)
  unfolding digest
  digest-Preserves answer =
      >>=-Preserves (record { at = λ s p. c.on_tokens answer.usage s p })
        (λ _.
          >>=-Preserves (record { at = after_response-Keeps h r P Open c answer.content })
            (λ content. >>=-Preserves tokens-Preserves (λ _. >>=-Preserves cost-Preserves (λ _.
              >>=-Preserves duration-Preserves (λ _.
                >>=-Preserves cancel-Preserves (λ _. record { at = handle-Keeps content }))))))

  pub turn-Preserves : Preserves P (turn h r)
  unfolding turn
  turn-Preserves =
      >>=-Preserves (record { at = before_model-Keeps h r P Open c })
        (λ ms. >>=-Preserves (record { at = complete-Keeps h r P Open c ms }) digest-Preserves)

  pub round-Preserves : Preserves P (round h r)
  unfolding round
  round-Preserves = >>=-Preserves opening-Preserves (λ _. turn-Preserves)

  next-After :
      (loop : S → Option (Flow S AgentError (Unit {0})))
      → ((s : S) (flow : Flow S AgentError (Unit {0})) → P s → loop s ≡ some flow → After P flow)
      → (x flow : Flow S AgentError (Unit {0})) → After P x
      → next h r loop x ≡ some flow
      → After P flow
  next-After loop k (go u s) flow p e = k s flow p e
  next-After loop k (halt s) flow p e = subst (After P) (some_inj e) p
  next-After loop k (fail x s) flow p e = subst (After P) (some_inj e) p

  -- What the rounds keep holds in the state that the loop is left in.
  pub run_loop-After :
      (fuel : ℕ) (s : S) (flow : Flow S AgentError (Unit {0}))
      → P s
      → run_loop h r fuel s ≡ some flow
      → After P flow
  unfolding run_loop
  run_loop-After zero s flow p e = cc
  run_loop-After (suc fuel) s flow p e =
      next-After (run_loop h r fuel) (λ s flow. run_loop-After fuel s flow) (round h r s) flow
        (round-Preserves.at s p) e
