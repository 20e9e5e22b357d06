-- ===== src/Engine/Termination.antt =====
-- The loop of src/agent/loop/engine.rs ends: every round that goes on has begun an iteration, and
-- `pre_step_check` lets no more begin than the limit has.
use agent_kuibysheff.Common.{
  ℕ, zero, suc, ◌+◌, ◌≤◌, ◌<◌, ◌≡◌, refl, inl, inr, Option, some, ap, is_empty, Bool-cases, Result,
  ok, err, Result-cases, u32_max, arith,
}
use agent_kuibysheff.Limits.{RunMetrics, pre_step_check, begin_iteration, add_tokens}
use agent_kuibysheff.Limits.Check.{begin_iteration-le}
use agent_kuibysheff.Billing.Money.{Decimals, BillingError}
use agent_kuibysheff.Billing.Tracker
use agent_kuibysheff.Billing.Tracker.{RunCostTracker}
use agent_kuibysheff.Limits
use agent_kuibysheff.Engine.Step.{Flow, go, halt, fail, Going, >>=-Going, Going->>=}
use agent_kuibysheff.Engine.Host.{Host, AgentRunRequest, AgentError, RunOutput}
use agent_kuibysheff.Engine.State.{RunState, push, prune, admit}
use agent_kuibysheff.Engine.Invariant.{IsClosed}
use agent_kuibysheff.Engine.Invariant.Rounds.{checks-Preserves, turn-Preserves}
use agent_kuibysheff.Engine.Round.{checks, opening, turn, round}
use agent_kuibysheff.Engine.Invariant.Output.{run_from-Reports}
use agent_kuibysheff.Engine.Run.{
  next, run_loop, build_usage_report, announce, enough_fuel, outcome, finish_run, finished,
  run_from, initial_state, with_state, started, run,
}

module _ {W V D E : Type 0} ⦃decimals : Decimals D⦄ (h : Host W V D E) (r : AgentRunRequest D)
    (word : r.limits.max_iterations ≤ u32_max) where
  abbrev S : Type 0
  S = RunState W V D

  -- At least `n` iterations, and no more than the limit.
  abbrev pub Within : ℕ → S → Type 0
  Within n s = (n ≤ s.metrics.iterations) × (s.metrics.iterations ≤ r.limits.max_iterations)

  begun :
      (n : ℕ) (now : ℕ) (s : S)
      → pre_step_check s.metrics r.limits now ≡ ok tt
      → Within n s
      → Within (suc n) (record s { metrics = begin_iteration s.metrics })
  begun n now s e (lo, hi) = omega (arith, begin_iteration-le s.metrics r.limits now word e)

  pub Within-IsClosed : (n : ℕ) → IsClosed h r (Within n) (λ id. Within n)
  unfolding push prune add_tokens
  Within-IsClosed n = record {
    on_world = λ w s p. p;
    on_pinned = λ t ms s e p. p;
    on_push = λ m s p. p;
    on_prune = λ s p. p;
    on_stopped = λ t s p. p;
    on_goal = λ content parsed s e d p. p;
    on_attempt = λ a s p. p;
    on_admit = λ now s e p. let (lo, hi) = begun n now s e p in (omega arith, hi);
    on_tokens = λ u s p. p;
    on_diag = λ d s p. p;
    on_thought = λ t s p. p;
    on_start = λ id server tool v s p. p;
    open_world = λ id w s p. p;
    open_absent = λ id ps s p. p;
    open_diag = λ id d s p. p;
    on_finish = λ id success v s p. p;
  }

  admit-Going : (n : ℕ) (s : S) → Within n s → Going (Within (suc n)) (admit h r s)
  unfolding admit
  admit-Going n s p = elim (Result-cases (pre_step_check s.metrics r.limits (h.now s.world))) [
    | inl (u, e) ↦ rw (e, admit) (begun n (h.now s.world) s e p)
    | inr (limit, e) ↦ rw (e, admit) tt
  ]

  round-Going : (n : ℕ) (s : S) → Within n s → Going (Within (suc n)) (round h r s)
  unfolding round opening
  round-Going n s p =
      Going->>= (Within (suc n)) (opening h r) (λ _. turn h r) s
        (>>=-Going (Within n) (Within (suc n)) (checks h r) (λ _. admit h r)
          (checks-Preserves h r (Within-IsClosed n)) (λ _. admit-Going n) s p)
        (λ _. turn-Preserves h r (Within-IsClosed (suc n)))

  next-some :
      (n : ℕ) (loop : S → Option (Flow S AgentError (Unit {0})))
      → ((s : S) → Within (suc n) s → (flow : Flow S AgentError (Unit {0})) × (loop s ≡ some flow))
      → (x : Flow S AgentError (Unit {0})) → Going (Within (suc n)) x
      → (flow : Flow S AgentError (Unit {0})) × (next h r loop x ≡ some flow)
  next-some n loop k (go u s) p = k s p
  next-some n loop k (halt s) p = (go tt s, refl)
  next-some n loop k (fail e s) p = (fail e s, refl)

  -- More fuel than the iterations that are left is enough.
  pub run_loop-some :
      (fuel n : ℕ) (s : S)
      → r.limits.max_iterations < fuel + n
      → Within n s
      → (flow : Flow S AgentError (Unit {0})) × (run_loop h r fuel s ≡ some flow)
  unfolding run_loop
  run_loop-some zero n s f p = absurd (omega arith)
  run_loop-some (suc fuel) n s f p =
      next-some n (run_loop h r fuel) (λ s q. run_loop-some fuel (suc n) s (omega arith) q)
        (round h r s) (round-Going n s p)

  -- A run from a state within the limit ends.
  pub run_from-some :
      (s : S) → Within 0 s → (result : RunOutput D × S) × (run_from h r s ≡ some result)
  unfolding run_from
  run_from-some s p =
      let (flow, e) = run_loop-some (enough_fuel h r) 0 s (omega arith) p in
      (outcome h r (finish_run h r flow), ap (finished h r) e)

  started-some :
      (w : W) (tracker : Result (RunCostTracker D) BillingError)
      → (result : RunOutput D × Option S) × (started h r w tracker ≡ some result)
  unfolding initial_state Limits.new
  started-some w (err e) = (_, refl)
  started-some w (ok tracker) =
      let ((output, s), e) = run_from-some (initial_state h r tracker w) (omega arith) in
      ((output, some s), ap (with_state h r) e)

  pub run_terminates : (w : W) → (result : RunOutput D × Option S) × (run h r w ≡ some result)
  unfolding run
  run_terminates w = started-some w (Tracker.new h.billing_currency r.limits.max_cost)

  announce-Within : (n : ℕ) (s : S) → Within n s → Within n (announce h r s)
  unfolding announce
  announce-Within n s p = elim (Bool-cases (is_empty s.final_result)) [
    | inl b ↦ rw b p
    | inr b ↦ rw b p
  ]

  -- From a state within a `max_iterations` that is a u32, the output of a run, on success and on
  -- error, counts at most `max_iterations` iterations.
  pub run_from_iterations :
      (s : S) (output : RunOutput D) (last : S)
      → s.metrics.iterations ≤ r.limits.max_iterations
      → run_from h r s ≡ some (output, last)
      → output.usage.iterations ≤ r.limits.max_iterations
  unfolding build_usage_report
  run_from_iterations s output last p e =
      let (p', s', (lo, hi), u) =
        run_from-Reports h r (Within-IsClosed 0) (λ t s p. p) (announce-Within 0) s (output, last)
          (omega arith) e in
      rw u hi
