-- ===== src/Cancel/Deadline.antt =====
-- The deadline of a run and its cancellation (src/agent/run_cancel.rs).
use agent_kuibysheff.Common.{
  ℕ, zero, suc, ◌+◌, ◌^◌, ◌≤◌, ◌<◌, ◌≡◌, refl, sym, ap, ◌∙◌, inl, inr, arith, true, false, Option,
  none, some, List, [], ◌∷◌, ◌==◌, nat_eq, leb, length, get_elem?, Bool-cases, Option-cases,
  ==_sound, ◌⊎◌,
}
use mathlib.Core.Path.{subst}
use agent_kuibysheff.Cancel.{
  Sleeper, RunCancel, new, next_generation, arm_deadline, without, fire, wake, Event, arm, pass,
  wake_at, cancel_call, step, steps,
}

-- No task is of a later generation, and one of the current generation sleeps past the deadline.
IsFresh : ℕ → Option ℕ → Sleeper → Type 0
IsFresh generation deadline x =
    (x.generation ≤ generation)
    × (x.generation ≡ generation → (d : ℕ) × (deadline ≡ some d) × (d ≤ x.wakes))

AllFresh : ℕ → Option ℕ → List Sleeper → Type 0
AllFresh generation deadline [] = Unit {0}
AllFresh generation deadline (x ∷ xs) =
    IsFresh generation deadline x × AllFresh generation deadline xs

-- The generation counts at most `n` calls, and the tasks are fresh.
IsArmed : ℕ → RunCancel → Type 0
IsArmed n s = (s.generation ≤ n) × AllFresh s.generation s.deadline s.sleepers

IsArmed-new : IsArmed 0 new
unfolding IsArmed AllFresh
IsArmed-new = (omega arith, tt)

AllFresh-without :
    (g : ℕ) (d : Option ℕ) (i : ℕ) (xs : List Sleeper)
    → AllFresh g d xs
    → AllFresh g d (without i xs)
unfolding AllFresh
AllFresh-without g d i [] h = h
AllFresh-without g d zero (x ∷ xs) h = h.1
AllFresh-without g d (suc i) (x ∷ xs) h = (h.0, AllFresh-without g d i xs h.1)

AllFresh-get_elem :
    (g : ℕ) (d : Option ℕ) (i : ℕ) (xs : List Sleeper) (x : Sleeper)
    → AllFresh g d xs
    → get_elem? xs i ≡ some x
    → IsFresh g d x
unfolding AllFresh
AllFresh-get_elem g d i [] x h e = cc
AllFresh-get_elem g d zero (y ∷ xs) x h e = subst (IsFresh g d) (cc e) h.0
AllFresh-get_elem g d (suc i) (y ∷ xs) x h e = AllFresh-get_elem g d i xs x h.1 e

-- The tasks of the earlier calls are of no current generation after a later one.
AllFresh-later :
    (g g' : ℕ) (d d' : Option ℕ) (xs : List Sleeper) → g < g' → AllFresh g d xs → AllFresh g' d' xs
unfolding AllFresh IsFresh
AllFresh-later g g' d d' [] later h = h
AllFresh-later g g' d d' (x ∷ xs) later h = (
  (omega (arith, later, h.0.0), λ e. absurd (omega (arith, later, h.0.0, e))),
  AllFresh-later g g' d d' xs later h.1,
)

arm_deadline-IsArmed :
    (n : ℕ) (s : RunCancel) (max_duration delay : ℕ)
    → suc n < 2 ^ 64
    → IsArmed n s
    → IsArmed (suc n) (arm_deadline s max_duration delay)
unfolding IsArmed AllFresh IsFresh arm_deadline
arm_deadline-IsArmed n s max_duration delay room h =
    let counts : next_generation s.generation ≡ suc s.generation = omega (arith, h.0, room) in
    (
      omega (arith, h.0, counts),
      (
        (omega arith, λ e. (s.now + max_duration, refl, omega arith)),
        AllFresh-later s.generation (next_generation s.generation) s.deadline _ s.sleepers
            (omega (arith, counts)) h.1,
      ),
    )

wake-IsArmed :
    (n : ℕ) (s : RunCancel) (i : ℕ) (x : Option Sleeper) → IsArmed n s → IsArmed n (wake s i x)
unfolding IsArmed wake fire
wake-IsArmed n s i none h = h
wake-IsArmed n s i (some x) h = elim (Bool-cases (leb x.wakes s.now)) [
  | inr q ↦ rw q h
  | inl q ↦
      let kept : (s.generation ≤ n) × AllFresh s.generation s.deadline (without i s.sleepers) =
        (h.0, AllFresh-without s.generation s.deadline i s.sleepers h.1) in
      elim (Bool-cases (s.generation == x.generation)) [
        | inl same ↦ rw (q, same) kept
        | inr other ↦ rw (q, other) kept
      ]
]

IsArmed-suc : (n : ℕ) (s : RunCancel) → IsArmed n s → IsArmed (suc n) s
unfolding IsArmed
IsArmed-suc n s h = (omega (arith, h.0), h.1)

step-IsArmed :
    (n : ℕ) (s : RunCancel) (e : Event) → suc n < 2 ^ 64 → IsArmed n s → IsArmed (suc n) (step s e)
unfolding step IsArmed
step-IsArmed n s (arm max_duration delay) room h =
    arm_deadline-IsArmed n s max_duration delay room h
step-IsArmed n s (pass time) room h = IsArmed-suc n s h
step-IsArmed n s (wake_at i) room h =
    IsArmed-suc n (wake s i (get_elem? s.sleepers i))
      (wake-IsArmed n s i (get_elem? s.sleepers i) h)
step-IsArmed n s cancel_call room h = IsArmed-suc n s h

steps-IsArmed :
    (n : ℕ) (s : RunCancel) (es : List Event)
    → n + length es < 2 ^ 64
    → IsArmed n s
    → IsArmed (n + length es) (steps s es)
unfolding steps
steps-IsArmed n s [] room h = subst (λ m. IsArmed m s) (omega arith) h
steps-IsArmed n s (e ∷ es) room h =
    subst (λ m. IsArmed m (steps (step s e) es)) (omega arith)
      (steps-IsArmed (suc n) (step s e) es (omega arith) (step-IsArmed n s e (omega arith) h))

-- The deadline is armed and has passed.
abbrev pub IsOver : RunCancel → Type 0
IsOver s = (d : ℕ) × (s.deadline ≡ some d) × (d ≤ s.now)

fire-IsOver :
    (s : RunCancel) (i : ℕ) (x : Sleeper)
    → IsFresh s.generation s.deadline x
    → s.cancelled ≡ false
    → (wake s i (some x)).cancelled ≡ true
    → IsOver s
unfolding wake fire IsFresh
fire-IsOver s i x fresh before after = elim (Bool-cases (leb x.wakes s.now)) [
  | inr q ↦ absurd (ground (arith, q, before, after))
  | inl q ↦ elim (Bool-cases (s.generation == x.generation)) [
    | inr other ↦ absurd (ground (arith, q, other, before, after))
    | inl same ↦
        let (d, armed, early) = fresh.1 (sym (==_sound _ _ same)) in
        (d, armed, ground (arith, q, early))
  ]
]

wake-none : (s : RunCancel) (i : ℕ) → wake s i none ≡ s
unfolding wake
wake-none s i = refl

wake-IsOver :
    (s : RunCancel) (i : ℕ) (n : ℕ)
    → IsArmed n s
    → s.cancelled ≡ false
    → (wake s i (get_elem? s.sleepers i)).cancelled ≡ true
    → IsOver s
unfolding IsArmed
wake-IsOver s i n h before after = elim (Option-cases (get_elem? s.sleepers i)) [
  | inl q ↦
      let same : s.cancelled ≡ true =
        ap (λ t. t.cancelled) (sym (wake-none s i)) ∙ (rw q at after) in
      absurd (cc (before, same))
  | inr (x, q) ↦
      fire-IsOver s i x (AllFresh-get_elem s.generation s.deadline i s.sleepers x h.1 q) before
        (rw q at after)
]

pub cancelled-IsOver :
    (es : List Event) (e : Event)
    → length es < 2 ^ 64
    → (steps new es).cancelled ≡ false
    → (step (steps new es) e).cancelled ≡ true
    → (e ≡ cancel_call) ⊎ IsOver (steps new es)
unfolding step arm_deadline
cancelled-IsOver es (arm max_duration delay) room before after = cc
cancelled-IsOver es (pass time) room before after = cc
cancelled-IsOver es (wake_at i) room before after = inr (
    wake-IsOver (steps new es) i (0 + length es) (steps-IsArmed 0 new es (omega arith) IsArmed-new)
      before after)
cancelled-IsOver es cancel_call room before after = inl refl
