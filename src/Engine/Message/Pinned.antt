-- ===== src/Engine/Message/Pinned.antt =====
-- The slot of the pinned files: it stands behind the first two messages, and there is one of it.
use agent_kuibysheff.Common.{
  ℕ, ◌++◌, Option, arith, ◌≤◌, ◌-◌, length, take, length-take, length-append, ◌≡◌, refl, inl, inr,
  true, some, List, [], ◌∷◌, Bool-cases, Text, starts_with,
}
use agent_kuibysheff.History.{ChatMessage, user}
use agent_kuibysheff.Engine.Message.{
  message, truncation_marker, truncate_chars, pinned_max_chars, pin_files, load_pinned_message,
  pinned_header, upsert_pinned_message,
}

truncate_chars-le :
    (t : Text) (n : ℕ) → length truncation_marker ≤ n → length (truncate_chars t n) ≤ n
unfolding truncate_chars
truncate_chars-le t n room = ground (
  arith,
  length-take (n - length truncation_marker) t,
  length-append (take (n - length truncation_marker) t) truncation_marker,
)

-- A list of at least two messages keeps them, whatever is pinned.
pub upsert_pinned_message_front :
    (a b : ChatMessage) (rest : List ChatMessage) (t : Text)
    → (slots : List ChatMessage) × (upsert_pinned_message (a ∷ b ∷ rest) t ≡ some (a ∷ b ∷ slots))
unfolding upsert_pinned_message
upsert_pinned_message_front a b [] t = (message user t ∷ [], refl)
upsert_pinned_message_front a b (m ∷ rest) t =
    elim (Bool-cases (starts_with pinned_header m.content)) [
      | inl e ↦ (message user t ∷ rest, rw e)
      | inr e ↦ (message user t ∷ m ∷ rest, rw e)
    ]

-- On a list of at least two messages the pinned text takes the third place behind the same two
-- messages; pinning again, after it, replaces it, so the slot never grows.
pub upsert_pinned_message_again :
    (a b : ChatMessage) (rest : List ChatMessage) (t u : Text)
    → starts_with pinned_header t ≡ true
    → (after : List ChatMessage) × (upsert_pinned_message (a ∷ b ∷ rest) t
        ≡ some (a ∷ b ∷ message user t ∷ after))
      × (upsert_pinned_message (a ∷ b ∷ message user t ∷ after) u
          ≡ some (a ∷ b ∷ message user u ∷ after))
unfolding upsert_pinned_message
upsert_pinned_message_again a b [] t u h = ([], refl, rw h)
upsert_pinned_message_again a b (m ∷ rest) t u h =
    elim (Bool-cases (starts_with pinned_header m.content)) [
      | inl e ↦ (rest, rw e, rw h)
      | inr e ↦ (m ∷ rest, rw e, rw h)
    ]

-- The message of the pinned files has at most the characters that are allowed for it, whatever the
-- files are.
pub load_pinned_message-le :
    (read : Text → Option Text) (files : List Text)
    → length (load_pinned_message read files) ≤ pinned_max_chars
unfolding load_pinned_message
load_pinned_message-le read files =
    truncate_chars-le (pin_files read (pinned_header ++ b'\n' ∷ []) files) pinned_max_chars
      (omega arith)
