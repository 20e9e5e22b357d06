-- ===== src/Tests/Bounds.antt =====
-- The limits, the history and the cancellation of a run on concrete inputs.
use agent_kuibysheff.Common.{
  ◌+◌, ◌≤◌, ◌<◌, ◌≡◌, ◌⊎◌, refl, List, [], ◌∷◌, length, text, err, ok, u64_max, saturating_add,
  arith, false, some,
}
use agent_kuibysheff.Limits.{
  RunMetrics, tokens, iterations, duration, pre_step_check, elapsed, from_secs,
}
use agent_kuibysheff.Limits.Check.{pre_step_check_err, add_all-sum, add_all, sum_total}
use agent_kuibysheff.History.{ChatMessage, user, system, prune_message_history, history_char_len}
use agent_kuibysheff.History.Budget.{prune_message_history_bounded}
use agent_kuibysheff.History.Window.{KeptWindow, prune_message_history-KeptWindow}
use agent_kuibysheff.Engine.Message.{message}
use agent_kuibysheff.Cancel
use agent_kuibysheff.Cancel.{
  Event, arm, pass, wake_at, cancel_call, steps, step, remaining, arm_deadline, wake, fire,
}
use agent_kuibysheff.Cancel.Deadline.{IsOver, cancelled-IsOver}
use agent_kuibysheff.Tests.Fixtures.{limits, history, usage}

abbrev spent : RunMetrics
spent = record {
  started_at = 0;
  iterations = 3;
  token_usage = record { prompt_tokens = 900; completion_tokens = 100; total_tokens = 1000 };
}

abbrev early : RunMetrics
early = record spent { token_usage = usage }

spent_refused : pre_step_check spent limits 7 ≡ err tokens
unfolding pre_step_check
spent_refused = refl

early_admitted : pre_step_check early limits 7 ≡ ok tt
unfolding pre_step_check
early_admitted = refl

pre_step_check_err_example :
    ((tokens ≡ iterations) × (4 ≤ 3))
    ⊎ ((tokens ≡ tokens) × (3 < 4) × (1000 ≤ 1000))
    ⊎ ((tokens ≡ duration) × (3 < 4) × (1000 < 1000) × (from_secs 60 ≤ elapsed spent 7))
pre_step_check_err_example = pre_step_check_err spent limits 7 spent_refused

add_all-sum_example :
    (add_all early (usage ∷ usage ∷ [])).token_usage.total_tokens
    ≡ saturating_add u64_max 12 (sum_total (usage ∷ usage ∷ []))
add_all-sum_example = add_all-sum early (usage ∷ usage ∷ []) (omega arith)

abbrev said : List ChatMessage
said =
    message system (text "s")
    ∷ message user (text "goal")
    ∷ message user (text "a")
    ∷ message user (text "b")
    ∷ message user (text "c")
    ∷ message user (text "d")
    ∷ []

prune_message_history_bounded_example :
    (length (prune_message_history said history 2) ≤ 2 + 3)
    × ((length (prune_message_history said history 2) ≤ 2)
        ⊎ (history_char_len (prune_message_history said history 2) ≤ 5000))
prune_message_history_bounded_example = prune_message_history_bounded history 2 said

prune_message_history-KeptWindow_example :
    KeptWindow history 2 said (prune_message_history said history 2)
prune_message_history-KeptWindow_example =
    prune_message_history-KeptWindow history 2 said (omega arith)

abbrev short : List ChatMessage
short = message system (text "s") ∷ message user (text "goal") ∷ []

short_chars : history_char_len short ≤ 5000
unfolding history_char_len
short_chars = omega arith

-- A deadline of 5 whose task is first polled 2 later, and the end of its sleep.
abbrev armed : List Event
armed = arm 5 2 ∷ pass 7 ∷ []

cancelled-IsOver_example : (wake_at 0 ≡ cancel_call) ⊎ IsOver (steps Cancel.new armed)
unfolding steps step arm_deadline wake fire
cancelled-IsOver_example = cancelled-IsOver armed (wake_at 0) (omega arith) refl refl

-- After a second call the first task cancels nothing, and the second deadline counts.
rearmed :
    (steps Cancel.new (arm 5 0 ∷ pass 4 ∷ arm 9 0 ∷ pass 2 ∷ wake_at 1 ∷ [])).cancelled ≡ false
unfolding steps step arm_deadline wake fire
rearmed = refl

rearmed_remaining : remaining (steps Cancel.new (arm 5 0 ∷ pass 4 ∷ arm 9 0 ∷ pass 2 ∷ [])) ≡ some 7
unfolding remaining steps step arm_deadline wake fire
rearmed_remaining = refl
