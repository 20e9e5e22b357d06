-- ===== src/History.antt =====
-- src/agent/loop/history.rs: the message history that is sent to the model, pruned by message
-- count and by characters. A text's length in characters is the length of its list.
pub mod Truncate
pub mod Budget
pub mod Window
use agent_kuibysheff.Common.{
  ℕ, suc, ◌+◌, ◌-◌, Bool, ◌&&◌, Option, none, some, List, [], ◌∷◌, ◌++◌, ltb, leb, ◌==◌,
  if◌then◌else◌, nat_eq, length, get_elem?, set, take, drop, Text, text, usize_max, saturating_add,
  while,
}

-- `ChatRole` and `ChatMessage` of src/provider/mod.rs
pub data ChatRole : Type 0 where
  system user assistant : ChatRole

pub record ChatMessage : Type 0 where
  pub role : ChatRole
  pub content : Text

pub record ProviderHistoryConfig : Type 0 where
  pub max_tail_messages : ℕ
  pub max_chars : ℕ

abbrev pub history_prefix_len : ℕ
history_prefix_len = 2

unfoldable pub history_char_len : List ChatMessage → ℕ
history_char_len [] = 0
history_char_len (m ∷ ms) = length m.content + history_char_len ms

abbrev pub history_marker : Text
history_marker = text "\n...[truncated for history budget]"

-- `truncate_for_budget`
unfoldable pub truncate_for_budget : Text → ℕ → Text
truncate_for_budget content max_chars =
    if leb (length content) max_chars
    then content
    else if leb max_chars (length history_marker)
    then take max_chars content
    else take (max_chars - length history_marker) content ++ history_marker

-- `Vec::remove`, `Vec::drain(from..to)`
abbrev pub remove : List ChatMessage → ℕ → List ChatMessage
remove ms i = take i ms ++ drop (suc i) ms

abbrev pub drain : List ChatMessage → ℕ → ℕ → List ChatMessage
drain ms from to = take from ms ++ drop to ms

unfoldable pub prune_by_message_count :
    List ChatMessage → ProviderHistoryConfig → ℕ → List ChatMessage
prune_by_message_count ms history protected_prefix =
    let max_tail = history.max_tail_messages in
    if leb (length ms) (saturating_add usize_max protected_prefix max_tail)
    then ms
    else (let tail_start = length ms - max_tail in
        if leb tail_start protected_prefix then ms else drain ms protected_prefix tail_start)

-- The condition of the `while` loop.
unfoldable pub over_budget : ProviderHistoryConfig → ℕ → List ChatMessage → Bool
over_budget history protected_prefix ms =
    ltb protected_prefix (length ms) && ltb history.max_chars (history_char_len ms)

-- The last message of the tail: cut down to `budget_for_tail` characters where that shortens it.
unfoldable pub shorten_last : ℕ → ℕ → List ChatMessage → ChatMessage → List ChatMessage
shorten_last protected_prefix budget_for_tail ms tail =
    let truncated_tail = truncate_for_budget tail.content budget_for_tail in
    if ltb (length truncated_tail) (length tail.content)
    then set ms protected_prefix (record tail { content = truncated_tail })
    else remove ms protected_prefix

-- The body of the loop. The index is in range whenever the condition holds.
unfoldable pub prune_step : ProviderHistoryConfig → ℕ → List ChatMessage → List ChatMessage
unfolding shorten_last
prune_step history protected_prefix ms =
    if length ms == protected_prefix + 1
    then (let budget_for_tail = history.max_chars - history_char_len (take protected_prefix ms) in
        if budget_for_tail == 0
        then remove ms protected_prefix
        else elim (get_elem? ms protected_prefix) [
          | none ↦ ms
          | some tail ↦ shorten_last protected_prefix budget_for_tail ms tail
        ])
    else remove ms protected_prefix

-- Each round drops a message or shortens one: the fuel is one more than both together.
unfoldable pub prune_by_char_budget :
    List ChatMessage → ProviderHistoryConfig → ℕ → List ChatMessage
prune_by_char_budget ms history protected_prefix =
    while (over_budget history protected_prefix) (prune_step history protected_prefix)
      (suc (length ms + history_char_len ms)) ms

unfoldable pub prune_message_history :
    List ChatMessage → ProviderHistoryConfig → ℕ → List ChatMessage
prune_message_history ms history protected_prefix =
    prune_by_char_budget (prune_by_message_count ms history protected_prefix) history
      protected_prefix

-- `push_message`: the pair is `(messages, full_history)`.
unfoldable pub push_message :
    List ChatMessage
    → List ChatMessage
    → ChatMessage
    → ProviderHistoryConfig
    → List ChatMessage × List ChatMessage
push_message messages full_history message history = (
  messages ++ message ∷ [],
  prune_message_history (full_history ++ message ∷ []) history history_prefix_len,
)
