-- ===== src/History/Window.antt =====
-- Which part of the history survives: the protected prefix, and a window at the recent end.
use mathlib.Core.Path.{subst}
use agent_kuibysheff.Common.{
  ℕ, zero, suc, ◌+◌, ◌-◌, ◌≤◌, ◌≡◌, ◌≢◌, refl, sym, ap, ◌∙◌, inl, inr, true, some, List, [], ◌∷◌,
  ◌++◌, arith, tests, ltb, leb, nat_eq, nat_beq_iff, ◌==◌, usize_max, saturating_add, Bool-cases,
  length, get_elem?, set, take, drop, length-append, length-take, take-append-drop,
  take-append_full, drop-drop, while_closed, while_done,
}
use agent_kuibysheff.History.{
  ChatMessage, ProviderHistoryConfig, history_char_len, truncate_for_budget, remove,
  prune_by_message_count, over_budget, shorten_last, prune_step, prune_by_char_budget,
  prune_message_history,
}
use agent_kuibysheff.History.Truncate.{truncate-le}
use agent_kuibysheff.History.Budget.{chars-append, get_elem?_lt}

-- `r` is what pruning left of `ms`: the prefix, then the messages from `k` on; or the prefix, then
-- the last message alone, cut down to what the prefix leaves of the budget.
pub data KeptWindow (history : ProviderHistoryConfig) (p : ℕ) (ms r : List ChatMessage)
    : Type 0 where
  suffix : (k : ℕ) → p ≤ k → r ≡ take p ms ++ drop k ms → KeptWindow history p ms r
  shortened :
      (k : ℕ) (m : ChatMessage)
      → p ≤ k
      → drop k ms ≡ m ∷ []
      → r
        ≡ take p ms
          ++ record m {
            content =
                truncate_for_budget m.content (history.max_chars - history_char_len (take p ms));
          }
            ∷ []
      → history_char_len r ≤ history.max_chars
      → KeptWindow history p ms r

module _ {A : Type 0} where
  set-append : (xs ys : List A) (x y : A) → set (xs ++ x ∷ ys) (length xs) y ≡ xs ++ y ∷ ys
  set-append [] ys x y = refl
  set-append (z ∷ xs) ys x y = ap (◌∷◌ z) (set-append xs ys x y)

  get_elem?-append : (xs : List A) (ys : List A) → get_elem? (xs ++ ys) (length xs) ≡ get_elem? ys 0
  get_elem?-append [] ys = refl
  get_elem?-append (z ∷ xs) ys = get_elem?-append xs ys

  drop-append_past :
      (p k : ℕ) (xs ys : List A)
      → p ≤ length xs
      → p ≤ k
      → drop k (take p xs ++ ys) ≡ drop (k - p) ys
  drop-append_past zero k xs ys h l = rw (minus_zero k)
    where
      minus_zero : (n : ℕ) → n - 0 ≡ n
      minus_zero n = omega arith
  drop-append_past (suc p) k [] ys h l = absurd (omega arith)
  drop-append_past (suc p) zero (x ∷ xs) ys h l = absurd (omega arith)
  drop-append_past (suc p) (suc k) (x ∷ xs) ys h l =
      drop-append_past p k xs ys (omega arith) (omega arith) ∙ ap (λ n. drop n ys) (omega arith)

  length-take_full : (p : ℕ) (xs : List A) → p ≤ length xs → length (take p xs) ≡ p
  length-take_full p xs h = omega (arith, length-take p xs)

module _ (history : ProviderHistoryConfig) (p : ℕ) (ms : List ChatMessage)
    (full : p ≤ length ms) where
  remove_suffix : (k : ℕ) → remove (take p ms ++ drop k ms) p ≡ take p ms ++ drop (k + 1) ms
  remove_suffix k = rw (
    take-append_full p ms (drop k ms) full,
    drop-append_past p (suc p) ms (drop k ms) full (omega arith),
    one_more,
    drop-drop 1 k ms,
  )
    where
      one_more : suc p - p ≡ 1
      one_more = omega arith

  removed : (k : ℕ) → p ≤ k → KeptWindow history p ms (remove (take p ms ++ drop k ms) p)
  removed k l = suffix (k + 1) (omega arith) (remove_suffix k)

  -- Shortening the only message behind the prefix, or dropping it where that does not help.
  shorten_last-KeptWindow :
      (k b : ℕ) (ys : List ChatMessage) (m : ChatMessage)
      → p ≤ k
      → drop k ms ≡ ys
      → length (take p ms ++ ys) ≡ p + 1
      → get_elem? (take p ms ++ ys) p ≡ some m
      → b ≡ history.max_chars - history_char_len (take p ms)
      → b ≢ 0
      → KeptWindow history p ms (shorten_last p b (take p ms ++ ys) m)
  unfolding shorten_last
  shorten_last-KeptWindow k b [] m l e one at be bn =
      absurd (omega (arith, one, length-append (take p ms) [], length-take p ms))
  shorten_last-KeptWindow k b (y ∷ z ∷ ys) m l e one at be bn =
      absurd (omega (arith, one, length-append (take p ms) (y ∷ z ∷ ys), length-take p ms))
  shorten_last-KeptWindow k b (y ∷ []) m l e one at be bn =
      elim (Bool-cases (ltb (length (truncate_for_budget m.content b)) (length m.content))) [
        | inl s ↦ rw s (
            shortened k m l (e ∙ ap (λ t. t ∷ []) y_is_m)
              (put ∙ ap (λ n. take p ms ++ cut n ∷ []) be)
              (rw put (rw chars-append (omega (arith, fits)))))
        | inr t ↦
            rw t (subst (λ d. KeptWindow history p ms (remove (take p ms ++ d) p)) e (removed k l))
      ]
    where
      cut : ℕ → ChatMessage
      cut n = record m { content = truncate_for_budget m.content n }

      y_is_m : y ≡ m
      y_is_m = cc (at, rw (length-take_full p ms full) at (get_elem?-append (take p ms) (y ∷ [])))

      put : set (take p ms ++ y ∷ []) p (cut b) ≡ take p ms ++ cut b ∷ []
      put = rw (length-take_full p ms full) at (set-append (take p ms) [] y (cut b))

      fits : history_char_len (take p ms) + history_char_len (cut b ∷ []) ≤ history.max_chars
      fits = unfold history_char_len in omega (arith, be, bn, truncate-le m.content b)

  prune_step-KeptWindow :
      (s : List ChatMessage)
      → over_budget history p s ≡ true
      → KeptWindow history p ms s
      → KeptWindow history p ms (prune_step history p s)
  unfolding prune_step over_budget
  prune_step-KeptWindow s test (shortened k m l d e fits) = absurd (ground arith)
  prune_step-KeptWindow s test (suffix k l e) =
      subst (λ s. KeptWindow history p ms (prune_step history p s)) (sym e) (step (rw e at test))
    where
      s' : List ChatMessage
      s' = take p ms ++ drop k ms

      b : ℕ
      b = history.max_chars - history_char_len (take p s')

      present : length s' ≡ p + 1 → (m : ChatMessage) × (get_elem? s' p ≡ some m)
      present one = get_elem?_lt s' p (omega arith)

      step : over_budget history p s' ≡ true → KeptWindow history p ms (prune_step history p s')
      step test = elim (Bool-cases (length s' == p + 1)) [
        | inr more ↦ rw more (removed k l)
        | inl one ↦ elim (Bool-cases (b == 0)) [
          | inl none_left ↦ rw (one, none_left) (removed k l)
          | inr some_left ↦
              let len : length s' ≡ p + 1 = (nat_beq_iff _ _).0 one in
              let (m, at) = present len in
              rw (one, some_left, at)
                (shorten_last-KeptWindow k b (drop k ms) m l refl len at
                  (ap (λ t. history.max_chars - history_char_len t)
                    (take-append_full p ms (drop k ms) full))
                  (λ z. cc (some_left, (nat_beq_iff b 0).1 z)))
        ]
      ]

  KeptWindow-take : (r : List ChatMessage) → KeptWindow history p ms r → take p r ≡ take p ms
  KeptWindow-take r (suffix k l e) = rw e (take-append_full p ms (drop k ms) full)
  KeptWindow-take r (shortened k m l d e fits) = rw e (take-append_full p ms _ full)

  count-KeptWindow : KeptWindow history p ms (prune_by_message_count ms history p)
  unfolding prune_by_message_count
  count-KeptWindow =
      elim (Bool-cases (leb (length ms) (saturating_add usize_max p history.max_tail_messages))) [
        | inl fits ↦ rw fits (suffix p (omega arith) (sym (take-append-drop p ms)))
        | inr over ↦ elim (Bool-cases (leb (length ms - history.max_tail_messages) p)) [
          | inl early ↦ rw (over, early) (suffix p (omega arith) (sym (take-append-drop p ms)))
          | inr late ↦
              rw (over, late)
                (suffix (length ms - history.max_tail_messages) (omega (tests, late)) refl)
        ]
      ]

  -- Where the history begins with the protected prefix, pruning returns that prefix, followed by
  -- the most recent messages in their order; only a last message that stands alone may be cut.
  pub prune_message_history-KeptWindow :
      KeptWindow history p ms (prune_message_history ms history p)
  unfolding prune_message_history prune_by_char_budget
  prune_message_history-KeptWindow =
      while_closed (over_budget history p) (prune_step history p) (KeptWindow history p ms)
        prune_step-KeptWindow _ _ count-KeptWindow

  pub take-prune_message_history : take p (prune_message_history ms history p) ≡ take p ms
  take-prune_message_history = KeptWindow-take _ prune_message_history-KeptWindow

  -- A history within both budgets is returned as it is.
  pub prune_message_history_fits :
      length ms ≤ p + history.max_tail_messages
      → length ms ≤ usize_max
      → history_char_len ms ≤ history.max_chars
      → prune_message_history ms history p ≡ ms
  unfolding prune_message_history prune_by_char_budget prune_by_message_count over_budget
  prune_message_history_fits few word short =
      let counted : prune_by_message_count ms history p ≡ ms = ground arith in
      rw counted (while_done (over_budget history p) (prune_step history p) _ ms (ground arith))
