-- ===== src/Cancel.antt =====
-- The cancellation of one run (src/agent/run_cancel.rs): the handle, and the tasks that
-- `arm_deadline` spawns. A task sleeps to an instant no earlier than the deadline, since its clock
-- starts when the runtime first polls it. Times are nanoseconds without a bound, where the source
-- panics on an overflow. A call, and the check of a task with its cancellation, are one event each:
-- a task that runs in the middle of a call is not modelled. A task that the cancellation ends stays
-- listed, since it changes nothing.
pub mod Deadline
use agent_kuibysheff.Common.{
  ℕ, zero, suc, ◌+◌, ◌-◌, ◌%◌, ◌^◌, Bool, true, false, ◌||◌, Option, none, some, List, [], ◌∷◌,
  if◌then◌else◌, ◌==◌, nat_eq, ltb, leb, get_elem?,
}

-- A spawned task: the instant that ends its sleep, and the generation that it was armed with.
pub record Sleeper : Type 0 where
  pub wakes : ℕ
  pub generation : ℕ

-- The handle, with the clock and the tasks that still sleep.
pub record RunCancel : Type 0 where
  pub cancelled : Bool
  pub deadline : Option ℕ
  pub generation : ℕ
  pub now : ℕ
  pub sleepers : List Sleeper

abbrev pub new : RunCancel
new = record { cancelled = false; deadline = none; generation = 0; now = 0; sleepers = [] }

-- `AtomicU64::fetch_add(1)`, and the generation that the task compares with.
abbrev pub next_generation : ℕ → ℕ
next_generation generation = (generation + 1) % 2 ^ 64

-- The task is first polled `delay` after the call.
unfoldable pub arm_deadline : RunCancel → ℕ → ℕ → RunCancel
arm_deadline s max_duration delay =
    let generation = next_generation s.generation in
    record s {
      deadline = some (s.now + max_duration);
      generation = generation;
      sleepers =
          record { wakes = s.now + max_duration + delay; generation = generation } ∷ s.sleepers;
    }

abbrev pub cancel : RunCancel → RunCancel
cancel s = record s { cancelled = true }

abbrev pub without : ℕ → List Sleeper → List Sleeper
without i [] = []
without zero (x ∷ xs) = xs
without (suc i) (x ∷ xs) = x ∷ without i xs

-- The end of a sleep: only the task of the newest generation cancels the token.
unfoldable pub fire : RunCancel → Sleeper → RunCancel
fire s sleeper = if s.generation == sleeper.generation then record s { cancelled = true } else s

-- The task at a position is run: it ends when its sleep is over.
unfoldable pub wake : RunCancel → ℕ → Option Sleeper → RunCancel
unfolding fire
wake s i none = s
wake s i (some sleeper) =
    if leb sleeper.wakes s.now
    then fire (record s { sleepers = without i s.sleepers }) sleeper
    else s

-- `checked_duration_since`, with 1 ms for a deadline that has passed.
abbrev time_left : ℕ → ℕ → ℕ
time_left deadline now = if ltb deadline now then 1000000 else deadline - now

unfoldable pub remaining : RunCancel → Option ℕ
remaining s = elim s.deadline [ none ↦ none | some deadline ↦ some (time_left deadline s.now) ]

-- What happens to the handle.
pub data Event : Type 0 where
  arm : ℕ → ℕ → Event
  pass : ℕ → Event
  wake_at : ℕ → Event
  cancel_call : Event

unfoldable pub step : RunCancel → Event → RunCancel
unfolding arm_deadline wake
step s (arm max_duration delay) = arm_deadline s max_duration delay
step s (pass time) = record s { now = s.now + time }
step s (wake_at i) = wake s i (get_elem? s.sleepers i)
step s cancel_call = cancel s

unfoldable pub steps : RunCancel → List Event → RunCancel
unfolding step
steps s [] = s
steps s (e ∷ es) = steps (step s e) es
