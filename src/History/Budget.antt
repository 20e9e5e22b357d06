-- ===== src/History/Budget.antt =====
-- Pruning ends, and what it returns is within both budgets.
use agent_kuibysheff.Common.{
  ℕ, zero, suc, ◌+◌, ◌-◌, ◌≤◌, ◌<◌, ◌≡◌, refl, ◌⊎◌, inl, inr, true, false, some, List, [], ◌∷◌,
  ◌++◌, arith, tests, ltb, nat_eq, Bool-cases, Option-cases, length, get_elem?, set, take, drop,
  length-append, length-take, length-drop, length-set, Text, while_ends,
}
use agent_kuibysheff.History.{
  ChatMessage, ProviderHistoryConfig, history_char_len, truncate_for_budget, remove,
  prune_by_message_count, over_budget, shorten_last, prune_step, prune_by_char_budget,
  prune_message_history,
}

pub chars-append :
    (xs ys : List ChatMessage)
    → history_char_len (xs ++ ys) ≡ history_char_len xs + history_char_len ys
unfolding history_char_len
chars-append [] ys = omega arith
chars-append (x ∷ xs) ys = omega (arith, chars-append xs ys)

-- The message at an index splits the characters into three parts.
pub chars-split :
    (ms : List ChatMessage) (i : ℕ) {m : ChatMessage}
    → get_elem? ms i ≡ some m
    → history_char_len ms
      ≡ history_char_len (take i ms) + length m.content + history_char_len (drop (suc i) ms)
unfolding history_char_len
chars-split [] i h = cc
chars-split (x ∷ xs) zero {m} h = ground (arith)
chars-split (x ∷ xs) (suc i) h = omega (arith, chars-split xs i h)

pub chars-set :
    (ms : List ChatMessage) (i : ℕ) (m' : ChatMessage) {m : ChatMessage}
    → get_elem? ms i ≡ some m
    → history_char_len (set ms i m') + length m.content ≡ history_char_len ms + length m'.content
unfolding history_char_len
chars-set [] i m' h = cc
chars-set (x ∷ xs) zero m' h = ground arith
chars-set (x ∷ xs) (suc i) m' h = omega (arith, chars-set xs i m' h)

pub get_elem?_lt :
    {A : Type 0} (xs : List A) (i : ℕ) → i < length xs → (x : A) × (get_elem? xs i ≡ some x)
get_elem?_lt [] i h = absurd (omega arith)
get_elem?_lt (x ∷ xs) zero h = (x, refl)
get_elem?_lt (x ∷ xs) (suc i) h = get_elem?_lt xs i (omega arith)

abbrev pub size : List ChatMessage → ℕ
size ms = length ms + history_char_len ms

length-remove :
    (ms : List ChatMessage) (i : ℕ) → i < length ms → length (remove ms i) + 1 ≡ length ms
length-remove ms i h =
    omega
      (arith, length-append (take i ms) (drop (suc i) ms), length-take i ms, length-drop (suc i) ms)

size-remove : (ms : List ChatMessage) (i : ℕ) → i < length ms → size (remove ms i) < size ms
size-remove ms i h =
    let (m, e) = get_elem?_lt ms i h in
    omega
      (arith, length-remove ms i h, chars-split ms i e, chars-append (take i ms) (drop (suc i) ms))

length-remove_le : (ms : List ChatMessage) (i : ℕ) → length (remove ms i) ≤ length ms
length-remove_le ms i =
    omega
      (arith, length-append (take i ms) (drop (suc i) ms), length-take i ms, length-drop (suc i) ms)

module _ (history : ProviderHistoryConfig) (p : ℕ) where
  size-shorten_last :
      (b : ℕ) (ms : List ChatMessage) (m : ChatMessage)
      → p < length ms
      → get_elem? ms p ≡ some m
      → size (shorten_last p b ms m) < size ms
  unfolding shorten_last
  size-shorten_last b ms m h e = elim (Bool-cases (ltb (length cut) (length m.content))) [
    | inl s ↦ rw s (omega (tests, s, length-set ms p m', chars-set ms p m' e))
    | inr l ↦ rw l (size-remove ms p h)
  ]
    where
      cut : Text
      cut = truncate_for_budget m.content b

      m' : ChatMessage
      m' = record m { content = cut }

  -- Each round of the loop makes the history smaller.
  pub size-prune_step :
      (ms : List ChatMessage) → p < length ms → size (prune_step history p ms) < size ms
  unfolding prune_step
  size-prune_step ms h =
      let (m, e) = get_elem?_lt ms p h in
      ground (
        arith,
        e,
        size-remove ms p h,
        size-shorten_last (history.max_chars - history_char_len (take p ms)) ms m h e,
      )

  length-shorten_last :
      (b : ℕ) (ms : List ChatMessage) (m : ChatMessage) → length (shorten_last p b ms m) ≤ length ms
  unfolding shorten_last
  length-shorten_last b ms m = ground (
    arith,
    length-remove_le ms p,
    length-set ms p (record m { content = truncate_for_budget m.content b }),
  )

  pub length-prune_step : (ms : List ChatMessage) → length (prune_step history p ms) ≤ length ms
  unfolding prune_step
  length-prune_step ms = elim (Option-cases (get_elem? ms p)) [
    | inl e ↦ ground (arith, e, length-remove_le ms p)
    | inr (m, e) ↦ ground (
      arith,
      e,
      length-remove_le ms p,
      length-shorten_last (history.max_chars - history_char_len (take p ms)) ms m,
    )
  ]

  -- The loop of `prune_by_char_budget` ends by its own condition.
  pub prune_by_char_budget_ends :
      (ms : List ChatMessage)
      → (length (prune_by_char_budget ms history p) ≤ length ms)
        × (over_budget history p (prune_by_char_budget ms history p) ≡ false)
  unfolding prune_by_char_budget
  prune_by_char_budget_ends ms =
      let (stops, shorter) =
        while_ends (over_budget history p) (prune_step history p) (λ s. length s ≤ length ms) size
          (λ s test h.
            (size-prune_step s (over_budget_lt s test), omega (arith, h, length-prune_step s)))
          (suc (size ms)) ms (omega arith) (omega arith) in
      (shorter, stops)
    where
      over_budget_lt : (s : List ChatMessage) → over_budget history p s ≡ true → p < length s
      over_budget_lt s h = unfold over_budget in ground arith

  length-prune_by_message_count :
      (ms : List ChatMessage)
      → length (prune_by_message_count ms history p) ≤ p + history.max_tail_messages
  unfolding prune_by_message_count
  length-prune_by_message_count ms = ground (
    arith,
    length-append (take p ms) (drop (length ms - history.max_tail_messages) ms),
    length-take p ms,
    length-drop (length ms - history.max_tail_messages) ms,
  )

  -- Pruned history holds at most `protected_prefix + max_tail_messages` messages, and it is within
  -- `max_chars` characters unless nothing but the protected prefix is left.
  pub prune_message_history_bounded :
      (ms : List ChatMessage)
      → (length (prune_message_history ms history p) ≤ p + history.max_tail_messages)
        × ((length (prune_message_history ms history p) ≤ p)
            ⊎ (history_char_len (prune_message_history ms history p) ≤ history.max_chars))
  unfolding prune_message_history over_budget
  prune_message_history_bounded ms =
      let counted = prune_by_message_count ms history p in
      let (shorter, ended) = prune_by_char_budget_ends counted in
      ground (arith, shorter, ended, length-prune_by_message_count ms)
