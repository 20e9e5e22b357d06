-- ===== src/Dispatch/Chain/Failure.antt =====
-- Which errors end a chain of event handlers, and how many handlers are called
-- (src/event_mcp/dispatcher.rs).
use agent_kuibysheff.Common.{
  ℕ, suc, ◌+◌, ◌%◌, ◌^◌, ◌<◌, Bool, true, false, ◌||◌, Option, some, List, [], ◌∷◌, Result, ok, err,
  ◌≡◌, refl, ◌∙◌, ap, ◌⊎◌, inl, inr, arith, length, get_elem?, Result-cases, if◌then◌else◌,
}
use agent_kuibysheff.Common.Json.{Value}
use agent_kuibysheff.Engine.Host.{EventStage}
use agent_kuibysheff.Dispatch.Config.{EventFailurePolicy, abort, continue}
use agent_kuibysheff.Dispatch.Handler.{
  EventMcpError, EventOutcome, CompiledHandler, EventAction, validate_outcome,
}
use agent_kuibysheff.Dispatch.Chain.{
  EventHost, EventMcpDispatcher, Dispatching, Round, is_rejected, is_cancelled, aborts,
  after_outcome, after_invocation, prepare, call_prepared, invoke_handler, run_handler, run_chain,
  chain_of, dispatch,
}

-- An error that ends the chain: a rejection, a cancellation, or one of a handler with `abort`.
abbrev pub Ends : CompiledHandler → EventMcpError → Type 0
Ends handler e = (is_rejected e ≡ true) ⊎ (is_cancelled e ≡ true) ⊎ (handler.on_error ≡ abort)

aborts_lem : (handler : CompiledHandler) → aborts handler ≡ true → handler.on_error ≡ abort
aborts_lem handler h = policy handler.on_error h
  where
    policy :
        (p : EventFailurePolicy) → elim p [ abort ↦ true | continue ↦ false ] ≡ true → p ≡ abort
    policy abort h = refl
    policy continue h = cc

stop_cases :
    (test policy : Bool) (error : EventMcpError) (current : Value) {e : EventMcpError}
    → ◌≡◌ {A = Result Value EventMcpError}
        (if test || policy then err error else ok current)
        (err e)
    → (error ≡ e) × ((test ≡ true) ⊎ (policy ≡ true))
stop_cases true policy error current p = (cc p, inl refl)
stop_cases false true error current p = (cc p, inr refl)
stop_cases false false error current p = cc

module _ {W : Type 0} (h : EventHost W) (d : EventMcpDispatcher) (event : EventStage)
    (iteration : Option ℕ) where
  after_outcome-Ends :
      (handler : CompiledHandler) (current : Value) (a : EventAction × ℕ × ℕ)
      (r : Result (Option Value) EventMcpError) (s : Dispatching W) (e : EventMcpError)
      → (after_outcome h d event iteration handler current a r s).0 ≡ err e
      → Ends handler e
  unfolding after_outcome
  after_outcome-Ends handler current a (ok v) s e p = cc
  after_outcome-Ends handler current a (err error) s e p =
      let (same, why) = stop_cases (is_rejected error) (aborts handler) error current p in
      elim why [
        | inl test ↦ inl (rw (← same) test)
        | inr policy ↦ inr (inr (aborts_lem handler policy))
      ]

  after_invocation-Ends :
      (handler : CompiledHandler) (current : Value)
      (r : Result (EventOutcome × ℕ × ℕ) EventMcpError) (s : Dispatching W) (e : EventMcpError)
      → (after_invocation h d event iteration handler current r s).0 ≡ err e
      → Ends handler e
  unfolding after_invocation
  after_invocation-Ends handler current (ok (outcome, input, output)) s e p =
      after_outcome-Ends handler current (outcome.action, input, output)
        (validate_outcome event handler outcome) s e p
  after_invocation-Ends handler current (err error) s e p =
      let (same, why) = stop_cases (is_cancelled error) (aborts handler) error current p in
      elim why [
        | inl test ↦ inr (inl (rw (← same) test))
        | inr policy ↦ inr (inr (aborts_lem handler policy))
      ]

  -- Every handler that is called uses up one event id.
  abbrev pub counted : ℕ → ℕ → ℕ
  counted start n = (start + n) % 2 ^ 64

  after_invocation-next_event_id :
      (handler : CompiledHandler) (current : Value)
      (r : Result (EventOutcome × ℕ × ℕ) EventMcpError) (s : Dispatching W)
      → (after_invocation h d event iteration handler current r s).1.next_event_id ≡ s.next_event_id
  unfolding after_invocation
  after_invocation-next_event_id handler current (err e) s = refl
  after_invocation-next_event_id handler current (ok (outcome, input, output)) s =
      outcome_id (validate_outcome event handler outcome)
    where
      outcome_id :
          (r : Result (Option Value) EventMcpError)
          → (after_outcome h d event iteration handler current
              (outcome.action, input, output)
              r
              s).1.next_event_id
            ≡ s.next_event_id
      outcome_id (ok v) = refl
      outcome_id (err e) = refl

  run_handler-next_event_id :
      (handler : CompiledHandler) (current : Value) (s : Dispatching W)
      → (run_handler h d event iteration handler current s).1.next_event_id
        ≡ counted s.next_event_id 1
  unfolding run_handler invoke_handler call_prepared
  run_handler-next_event_id handler current s =
      let r = prepare h d event iteration handler current s.next_event_id in
      let s' : Dispatching W = record s { next_event_id = counted s.next_event_id 1 } in
      let called = call_prepared h d event iteration handler r s' in
      after_invocation-next_event_id handler current called.0 called.1 ∙ call_id r s'
    where
      call_id :
          (r : Result (Value × ℕ) EventMcpError) (s : Dispatching W)
          → (call_prepared h d event iteration handler r s).1.next_event_id ≡ s.next_event_id
      call_id (err e) s = refl
      call_id (ok (arguments, n)) s = refl

  run_handler-Ends :
      (handler : CompiledHandler) (current : Value) (s : Dispatching W) (e : EventMcpError)
      → (run_handler h d event iteration handler current s).0 ≡ err e
      → Ends handler e
  unfolding run_handler
  run_handler-Ends handler current s e p =
      let called = invoke_handler h d event iteration handler current s in
      after_invocation-Ends handler current called.0 called.1 e p

  -- A chain runs to its end, and every handler is called; or the handler at one position ends it with
  -- an error for which a chain ends, and the handlers up to that one are called.
  abbrev pub Dispatched : List CompiledHandler → ℕ → Round W → Type 0
  Dispatched chain start r =
      ((v : Value) × (r.0 ≡ ok v) × (r.1.next_event_id ≡ counted start (length chain)))
      ⊎ ((e : EventMcpError) × (handler : CompiledHandler) × (n : ℕ) × (r.0 ≡ err e)
          × (get_elem? chain n ≡ some handler)
          × Ends handler e
          × (r.1.next_event_id ≡ counted start (suc n)))

  counted-counted : (start n : ℕ) → counted (counted start 1) n ≡ counted start (suc n)
  counted-counted start n = omega arith

  pub run_chain_err :
      (handler : CompiledHandler) (chain : List CompiledHandler) (current : Value)
      (s : Dispatching W) (e : EventMcpError)
      → (run_handler h d event iteration handler current s).0 ≡ err e
      → run_chain h d event iteration (handler ∷ chain) current s
        ≡ (err e, (run_handler h d event iteration handler current s).1)
  unfolding run_chain
  run_chain_err handler chain current s e p = rw (run_chain, p)

  pub run_chain_ok :
      (handler : CompiledHandler) (chain : List CompiledHandler) (current : Value)
      (s : Dispatching W) (v : Value)
      → (run_handler h d event iteration handler current s).0 ≡ ok v
      → run_chain h d event iteration (handler ∷ chain) current s
        ≡ run_chain h d event iteration chain v
            (run_handler h d event iteration handler current s).1
  unfolding run_chain
  run_chain_ok handler chain current s v p = rw (run_chain, p)

  run_chain-Dispatched :
      (chain : List CompiledHandler) (current : Value) (s : Dispatching W)
      → s.next_event_id < 2 ^ 64
      → Dispatched chain s.next_event_id (run_chain h d event iteration chain current s)
  unfolding run_chain
  run_chain-Dispatched [] current s small = inl (current, refl, omega arith)
  run_chain-Dispatched (handler ∷ chain) current s small =
      let r = run_handler h d event iteration handler current s in
      let id = run_handler-next_event_id handler current s in
      elim (Result-cases r.0) [
        | inr (e, p) ↦
            rw (run_chain_err handler chain current s e p)
              (inr (e, handler, 0, refl, refl, run_handler-Ends handler current s e p, id))
        | inl (v, p) ↦
            let later = run_chain-Dispatched chain v r.1 (omega arith) in
            rw (run_chain_ok handler chain current s v p) (longer v r.1 id later)
      ]
    where
      longer :
          (v : Value) (s' : Dispatching W)
          → s'.next_event_id ≡ counted s.next_event_id 1
          → Dispatched chain s'.next_event_id (run_chain h d event iteration chain v s')
          → Dispatched (handler ∷ chain) s.next_event_id (run_chain h d event iteration chain v s')
      longer v s' id (inl (v', p, q)) = inl (
        v',
        p,
        q ∙ ap (λ n. counted n (length chain)) id ∙ counted-counted s.next_event_id (length chain),
      )
      longer v s' id (inr (e, last, n, p, at, ends, q)) = inr (
        e,
        last,
        suc n,
        p,
        at,
        ends,
        q ∙ ap (λ m. counted m (suc n)) id ∙ counted-counted s.next_event_id (suc n),
      )

  pub dispatch-Dispatched :
      (chain : List CompiledHandler) (payload : Value) (s : Dispatching W)
      → chain_of d.chains event ≡ some chain
      → s.next_event_id < 2 ^ 64
      → Dispatched chain s.next_event_id (dispatch h d event iteration payload s)
  unfolding dispatch
  dispatch-Dispatched chain payload s found small =
      rw (dispatch, found) (run_chain-Dispatched chain payload s small)
