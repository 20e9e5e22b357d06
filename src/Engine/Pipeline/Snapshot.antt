-- ===== src/Engine/Pipeline/Snapshot.antt =====
-- What a handler of the context may change (src/agent/loop/engine.rs).
use agent_kuibysheff.Common.{
  ◌≡◌, refl, inl, inr, true, List, [], ◌∷◌, ==_sound, nat_eq, list_eq, Result-cases, ok, arith,
}
use agent_kuibysheff.History.{ChatMessage}
use agent_kuibysheff.Engine.Message.{is_system}
use agent_kuibysheff.Engine.Host.{Host}
use agent_kuibysheff.Engine.Pipeline.{check_snapshot, decode_context_before_model}

-- Both lists begin with a system message, of one content.
pub record SameSystem (canonical snapshot : List ChatMessage) : Type 0 where
  pub first : ChatMessage
  pub others : List ChatMessage
  pub sent : ChatMessage
  pub rest : List ChatMessage
  pub canonical_begins : canonical ≡ first ∷ others
  pub snapshot_begins : snapshot ≡ sent ∷ rest
  pub first_is_system : is_system first ≡ true
  pub sent_is_system : is_system sent ≡ true
  pub same_content : sent.content ≡ first.content

check_snapshot-SameSystem :
    (canonical decoded snapshot : List ChatMessage)
    → check_snapshot canonical decoded ≡ ok snapshot
    → SameSystem canonical snapshot
unfolding check_snapshot
check_snapshot-SameSystem [] decoded snapshot h = absurd (cc)
check_snapshot-SameSystem (first ∷ others) [] snapshot h = absurd (cc)
check_snapshot-SameSystem (first ∷ others) (sent ∷ rest) snapshot h = record {
  first = first;
  others = others;
  sent = sent;
  rest = rest;
  canonical_begins = refl;
  snapshot_begins = ground arith;
  first_is_system = ground arith;
  sent_is_system = ground arith;
  same_content = ==_sound sent.content first.content (ground arith);
}

module _ {W V D E : Type 0} (h : Host W V D E) where
  -- Messages that are taken from a handler begin with a system message whose content is that of the
  -- run's own first message, which is a system message too.
  pub decode_context-SameSystem :
      (canonical : List ChatMessage) (payload : V) (snapshot : List ChatMessage)
      → decode_context_before_model h canonical payload ≡ ok snapshot
      → SameSystem canonical snapshot
  unfolding decode_context_before_model
  decode_context-SameSystem canonical payload snapshot e =
      elim (Result-cases (h.decode_messages payload)) [
        | inl (ms, d) ↦
            check_snapshot-SameSystem canonical ms snapshot
              (rw (d, decode_context_before_model) at e)
        | inr (error, d) ↦ absurd (cc (rw (d, decode_context_before_model) at e))
      ]
