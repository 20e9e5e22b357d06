-- ===== src/Dispatch/Chain/Payload.antt =====
-- Where the payload that a chain of event handlers hands on comes from
-- (src/event_mcp/dispatcher.rs).
use agent_kuibysheff.Common.{
  ℕ, ◌≤◌, Bool, true, false, not, ◌||◌, Option, none, some, List, [], ◌∷◌, Result, ok, err, ◌≡◌,
  refl, ◌∙◌, ap, ◌⊎◌, inl, inr, arith, Result-cases, if◌then◌else◌, Text,
}
use mathlib.Core.List.{Memᴰ}
use agent_kuibysheff.Common.Json.{Value}
use agent_kuibysheff.Engine.Host.{EventStage}
use agent_kuibysheff.Dispatch.Handler.{
  EventMcpError, EventOutcome, CompiledHandler, EventAction, replace, reject, validate,
  validate_outcome,
}
use agent_kuibysheff.Dispatch.Chain.{
  EventHost, EventMcpDispatcher, Dispatching, is_rejected, is_cancelled, aborts, after_outcome,
  after_invocation, Awaited, done, interrupted, elapsed, read_answer, prepare, call_prepared,
  invoke_handler, run_handler, run_chain, chain_of, dispatch,
}
use agent_kuibysheff.Dispatch.Chain.Failure.{run_chain_err, run_chain_ok}

within_limit : (b : Bool) → not b ≡ true → b ≡ false
within_limit true h = cc
within_limit false h = refl

-- A failure that does not end the chain leaves the payload as it is.
kept :
    (b : Bool) (e : EventMcpError) (current v : Value)
    → ◌≡◌ {A = Result Value EventMcpError} (if b then err e else ok current) (ok v)
    → current ≡ v
kept true e current v p = cc
kept false e current v p = cc p

validate_replacement :
    (event : EventStage) (id : Text) (action : EventAction) (payload : Option Value)
    (reason : Option Text) (v : Value)
    → ◌≡◌ {A = Result (Option Value) EventMcpError}
        (validate event id action payload reason)
        (ok (some v))
    → (action ≡ replace) × (payload ≡ some v) × (reason ≡ none)
validate_replacement event id replace (some w) none v p = (refl, cc p, refl)
validate_replacement event id replace (some w) (some r) v p = cc
validate_replacement event id replace none none v p = cc
validate_replacement event id replace none (some r) v p = cc
validate_replacement event id EventAction.pass none none v p = cc
validate_replacement event id EventAction.pass none (some r) v p = cc
validate_replacement event id EventAction.pass (some w) reason v p = cc
validate_replacement event id reject none reason v p = cc
validate_replacement event id reject (some w) reason v p = cc

module _ {W : Type 0} (h : EventHost W) (d : EventMcpDispatcher) (event : EventStage)
    (iteration : Option ℕ) where
  prepare-le :
      (handler : CompiledHandler) (payload : Value) (sequence : ℕ) (arguments : Value) (n : ℕ)
      → ◌≡◌ {A = Result (Value × ℕ) EventMcpError}
          (prepare h d event iteration handler payload sequence)
          (ok (arguments, n))
      → n ≤ d.max_payload_bytes
  unfolding prepare
  prepare-le handler payload sequence arguments n p = ground arith

  read_answer-le :
      (handler : CompiledHandler) (input : ℕ) (a : Awaited) (outcome : EventOutcome) (n m : ℕ)
      → ◌≡◌ {A = Result (EventOutcome × ℕ × ℕ) EventMcpError}
          (read_answer h d event iteration handler input a)
          (ok (outcome, n, m))
      → (input ≡ n) × (m ≤ d.max_outcome_bytes)
  unfolding read_answer
  read_answer-le handler input interrupted outcome n m p = cc
  read_answer-le handler input elapsed outcome n m p = cc
  read_answer-le handler input (done result) outcome n m p = ground arith

  invoke_handler-le :
      (handler : CompiledHandler) (payload : Value) (s : Dispatching W) (outcome : EventOutcome)
      (n m : ℕ)
      → (invoke_handler h d event iteration handler payload s).0 ≡ ok (outcome, n, m)
      → (n ≤ d.max_payload_bytes) × (m ≤ d.max_outcome_bytes)
  unfolding invoke_handler
  invoke_handler-le handler payload s outcome n m p =
      elim (Result-cases (prepare h d event iteration handler payload s.next_event_id)) [
        | inr (e, q) ↦ absurd (cc (rw (invoke_handler, q) at p))
        | inl (prepared, q) ↦
            let w = (h.call handler.timeout_ms handler.server handler.tool prepared.0 s.world).0 in
            let (same, out) =
              read_answer-le handler prepared.1 w outcome n m
                (rw (invoke_handler, q, call_prepared) at p) in
            let fits = prepare-le handler payload s.next_event_id prepared.0 prepared.1 q in
            (rw (← same) fits, out)
      ]

  -- The payload is that of an outcome which the handler answered with: a replacement without a
  -- reason, in a call whose envelope and whose answer are within the limits of the dispatcher.
  abbrev pub Replaces : CompiledHandler → Value → Type 0
  Replaces handler v =
      (current : Value) × (s : Dispatching W) × (outcome : EventOutcome) × (n : ℕ) × (m : ℕ)
      × ((invoke_handler h d event iteration handler current s).0 ≡ ok (outcome, n, m))
      × (outcome.action ≡ replace)
      × (outcome.payload ≡ some v)
      × (outcome.reason ≡ none)
      × (n ≤ d.max_payload_bytes)
      × (m ≤ d.max_outcome_bytes)

  -- The payload did not change, or a handler of the chain replaced it.
  abbrev pub Provided : List CompiledHandler → Value → Value → Type 0
  Provided chain payload v =
      (payload ≡ v) ⊎ ((handler : CompiledHandler) × Memᴰ handler chain × Replaces handler v)

  after_outcome-ok :
      (handler : CompiledHandler) (current : Value) (a : EventAction × ℕ × ℕ)
      (r : Result (Option Value) EventMcpError) (s : Dispatching W) (v : Value)
      → (after_outcome h d event iteration handler current a r s).0 ≡ ok v
      → (current ≡ v) ⊎ (r ≡ ok (some v))
  unfolding after_outcome
  after_outcome-ok handler current a (ok none) s v p = inl (cc p)
  after_outcome-ok handler current a (ok (some w)) s v p =
      let same : w ≡ v = cc p in inr (ap (λ x. ok (some x)) same)
  after_outcome-ok handler current a (err e) s v p =
      inl (kept (is_rejected e || aborts handler) e current v p)

  after_invocation-ok :
      (handler : CompiledHandler) (current : Value)
      (r : Result (EventOutcome × ℕ × ℕ) EventMcpError) (s : Dispatching W) (v : Value)
      → (after_invocation h d event iteration handler current r s).0 ≡ ok v
      → (current ≡ v)
        ⊎ ((outcome : EventOutcome) × (n : ℕ) × (m : ℕ) × (r ≡ ok (outcome, n, m))
            × (outcome.action ≡ replace)
            × (outcome.payload ≡ some v)
            × (outcome.reason ≡ none))
  unfolding after_invocation validate_outcome
  after_invocation-ok handler current (ok (outcome, n, m)) s v p =
      elim (after_outcome-ok handler current (outcome.action, n, m)
        (validate_outcome event handler outcome) s v p) [
          | inl same ↦ inl same
          | inr q ↦
              let (a, b, c) =
                validate_replacement event handler.id outcome.action outcome.payload outcome.reason
                  v q in
              inr (outcome, n, m, refl, a, b, c)
        ]
  after_invocation-ok handler current (err e) s v p =
      inl (kept (is_cancelled e || aborts handler) e current v p)

  run_handler-Provided :
      (handler : CompiledHandler) (current : Value) (s : Dispatching W) (v : Value)
      → (run_handler h d event iteration handler current s).0 ≡ ok v
      → (current ≡ v) ⊎ Replaces handler v
  unfolding run_handler
  run_handler-Provided handler current s v p =
      let r = invoke_handler h d event iteration handler current s in
      elim (after_invocation-ok handler current r.0 r.1 v p) [
        | inl same ↦ inl same
        | inr (outcome, n, m, q, a, b, c) ↦
            let (small, small') = invoke_handler-le handler current s outcome n m q in
            inr (current, s, outcome, n, m, q, a, b, c, small, small')
      ]

  run_chain-Provided :
      (chain : List CompiledHandler) (current : Value) (s : Dispatching W) (v : Value)
      → (run_chain h d event iteration chain current s).0 ≡ ok v
      → Provided chain current v
  unfolding run_chain
  run_chain-Provided [] current s v p = inl (cc p)
  run_chain-Provided (handler ∷ chain) current s v p =
      let r = run_handler h d event iteration handler current s in
      elim (Result-cases r.0) [
        | inr (e, q) ↦
            absurd (cc (rw (run_chain_err h d event iteration handler chain current s e q) at p))
        | inl (next, q) ↦
            let p' = rw (run_chain_ok h d event iteration handler chain current s next q) at p in
            added next (run_handler-Provided handler current s next q)
              (run_chain-Provided chain next r.1 v p')
      ]
    where
      added :
          (next : Value)
          → (current ≡ next) ⊎ Replaces handler next
          → Provided chain next v
          → Provided (handler ∷ chain) current v
      added next (inl same) (inl last) = inl (same ∙ last)
      added next (inr own) (inl last) = inr (handler, Memᴰ.head refl, rw (← last) own)
      added next first (inr (later, member, own)) = inr (later, Memᴰ.tail member, own)

  -- The payload that a stage hands on is the one that it was given, or comes from an outcome of a
  -- handler of its chain: a replacement without a reason, in a call whose envelope and whose answer
  -- are within the limits of the dispatcher.
  pub dispatch-Provided :
      (chain : List CompiledHandler) (payload : Value) (s : Dispatching W) (v : Value)
      → chain_of d.chains event ≡ some chain
      → (dispatch h d event iteration payload s).0 ≡ ok v
      → Provided chain payload v
  unfolding dispatch
  dispatch-Provided chain payload s v found p =
      run_chain-Provided chain payload s v (rw (dispatch, found) at p)
