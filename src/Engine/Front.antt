-- ===== src/Engine/Front.antt =====
-- The first two messages of a run of src/agent/loop/engine.rs: the system prompt and the goal.
use agent_kuibysheff.Common.{
  ℕ, ◌≤◌, ◌<◌, ◌≡◌, ap, ◌⊎◌, inl, inr, some, List, [], ◌∷◌, ◌++◌, length, take, Text, while_done,
  Bool-cases, is_empty, usize_max, arith,
}
use agent_kuibysheff.Billing.Money.{Decimals}
use agent_kuibysheff.History.{
  ChatMessage, ProviderHistoryConfig, prune_by_message_count, over_budget, prune_step,
  prune_by_char_budget, prune_message_history,
}
use agent_kuibysheff.History.Window.{take-prune_message_history}
use agent_kuibysheff.Engine.Message.{upsert_pinned_message}
use agent_kuibysheff.Engine.Message.Pinned.{upsert_pinned_message_front}
use agent_kuibysheff.Engine.Host.{Host, AgentRunRequest, RunOutput}
use agent_kuibysheff.Engine.State.{RunState, push, prune, prefix_of}
use agent_kuibysheff.Engine.Invariant.{IsClosed}
use agent_kuibysheff.Engine.Invariant.Output.{run_from-Reports}
use agent_kuibysheff.Engine.Run.{announce, run_from}

-- `ms` begins with `a` and `b`.
abbrev pub BeginsWith : ChatMessage → ChatMessage → List ChatMessage → Type 0
BeginsWith a b ms = (rest : List ChatMessage) × (ms ≡ a ∷ b ∷ rest)

-- A history that is no longer than the protected prefix is not pruned.
prune_short :
    (ms : List ChatMessage) (history : ProviderHistoryConfig) (p : ℕ)
    → p < usize_max
    → length ms ≤ p
    → prune_message_history ms history p ≡ ms
unfolding prune_message_history prune_by_char_budget prune_by_message_count over_budget
prune_short ms history p w short =
    let counted : prune_by_message_count ms history p ≡ ms = ground arith in
    rw counted (while_done (over_budget history p) (prune_step history p) _ ms (ground arith))

take-BeginsWith :
    (files : List Text) (a b : ChatMessage) (rest ms : List ChatMessage)
    → take (prefix_of files) ms ≡ take (prefix_of files) (a ∷ b ∷ rest)
    → BeginsWith a b ms
take-BeginsWith [] a b rest [] e = absurd (cc)
take-BeginsWith [] a b rest (x ∷ []) e = absurd (cc)
take-BeginsWith [] a b rest (x ∷ y ∷ ms) e = (ms, cc)
take-BeginsWith (f ∷ fs) a b rest [] e = absurd (cc)
take-BeginsWith (f ∷ fs) a b rest (x ∷ []) e = absurd (cc)
take-BeginsWith (f ∷ fs) a b rest (x ∷ y ∷ ms) e = (ms, cc)

prefix_small : (files : List Text) → prefix_of files < usize_max
prefix_small [] = omega arith
prefix_small (f ∷ fs) = omega arith

short_or_long : (n p : ℕ) → (n ≤ p) ⊎ (p ≤ n)
short_or_long n p = omega arith

prune-BeginsWith :
    (files : List Text) (history : ProviderHistoryConfig) (a b : ChatMessage)
    (rest : List ChatMessage)
    → BeginsWith a b (prune_message_history (a ∷ b ∷ rest) history (prefix_of files))
prune-BeginsWith files history a b rest =
    let p = prefix_of files in
    elim (short_or_long (length (a ∷ b ∷ rest)) p) [
      | inl short ↦ (rest, prune_short _ history p (prefix_small files) short)
      | inr long ↦
          take-BeginsWith files a b rest _
            (take-prune_message_history history p (a ∷ b ∷ rest) long)
    ]

module _ {W V D E : Type 0} ⦃decimals : Decimals D⦄ (h : Host W V D E) (r : AgentRunRequest D)
    (a b : ChatMessage) where
  abbrev S : Type 0
  S = RunState W V D

  abbrev Kept : S → Type 0
  Kept s = BeginsWith a b s.messages

  pinned-Kept :
      (t : Text) (ms messages : List ChatMessage)
      → upsert_pinned_message messages t ≡ some ms
      → BeginsWith a b messages
      → BeginsWith a b ms
  pinned-Kept t ms messages e (rest, k) =
      let (slots, e') = upsert_pinned_message_front a b rest t in (slots, cc (e', rw k at e))

  push-Kept :
      (m : ChatMessage) (messages : List ChatMessage)
      → BeginsWith a b messages
      → BeginsWith a b (messages ++ m ∷ [])
  push-Kept m messages (rest, k) = (rest ++ m ∷ [], ap (λ t. t ++ m ∷ []) k)

  prune-Kept :
      (messages : List ChatMessage)
      → BeginsWith a b messages
      → BeginsWith a b (prune_message_history messages r.history (prefix_of r.pinned_files))
  prune-Kept messages (rest, k) = rw k (prune-BeginsWith r.pinned_files r.history a b rest)

  Kept-IsClosed : IsClosed h r Kept (λ id. Kept)
  unfolding push prune
  Kept-IsClosed = record {
    on_world = λ w s p. p;
    on_pinned = λ t ms s e p. pinned-Kept t ms s.messages e p;
    on_push = λ m s p. push-Kept m s.messages p;
    on_prune = λ s p. prune-Kept s.messages p;
    on_stopped = λ t s p. p;
    on_goal = λ content parsed s e d p. p;
    on_attempt = λ a s p. p;
    on_admit = λ now s e p. p;
    on_tokens = λ u s p. p;
    on_diag = λ d s p. p;
    on_thought = λ t s p. p;
    on_start = λ id server tool v s p. p;
    open_world = λ id w s p. p;
    open_absent = λ id ps s p. p;
    open_diag = λ id d s p. p;
    on_finish = λ id success v s p. p;
  }

  announce-Kept : (s : S) → Kept s → Kept (announce h r s)
  unfolding announce
  announce-Kept s p = elim (Bool-cases (is_empty s.final_result)) [
    | inl e ↦ rw e p
    | inr e ↦ rw e p
  ]

  -- Whatever a run does, pins and prunes, the messages that it works with begin with the two
  -- messages that they began with.
  pub run_from-BeginsWith :
      (s : S) (output : RunOutput D) (last : S)
      → BeginsWith a b s.messages
      → run_from h r s ≡ some (output, last)
      → BeginsWith a b last.messages
  run_from-BeginsWith s output last p e =
      (run_from-Reports h r Kept-IsClosed (λ t s p. p) announce-Kept s (output, last) p e).0
