-- ===== src/Common/Loop.antt =====
-- `while` loops on fuel. With a size that falls in each round, the fuel is never used up.
use Prim.Native.Nat.{ℕ, zero, suc, ◌<◌}
use mathlib.Core.Path.{◌≡◌, refl}
use mathlib.Core.Bool.{Bool, true, false}
use mathlib.Core.Logic.{inl, inr}
use native.Mathlib.Omega.{arith}
use agent_kuibysheff.Common.Test.{Bool-cases}

module _ {ℓ} {State : Type ℓ} (holds : State → Bool) (round : State → State) where
  unfoldable pub while : ℕ → State → State
  while zero start = start
  while (suc left) start = elim (holds start) [ false ↦ start | true ↦ while left (round start) ]

  -- A loop whose test fails at once changes nothing.
  pub while_done : (left : ℕ) (start : State) → holds start ≡ false → while left start ≡ start
  unfolding while
  while_done zero start stops = refl
  while_done (suc left) start stops = rw (stops, while)

  -- What each round keeps, the loop keeps.
  pub while_closed {κ} :
      (Kept : State → Type κ)
      → ((s : State) → holds s ≡ true → Kept s → Kept (round s))
      → (left : ℕ) (start : State) → Kept start
      → Kept (while left start)
  unfolding while
  while_closed Kept again zero start k = k
  while_closed Kept again (suc left) start k = elim (Bool-cases (holds start)) [
    | inr stops ↦ rw (stops, while) k
    | inl goes ↦ rw (goes, while) (while_closed Kept again left (round start) (again start goes k))
  ]

  -- With an invariant under which the size falls, the loop ends by its own test.
  pub while_ends {κ} :
      (Kept : State → Type κ) (size : State → ℕ)
      → ((s : State) → holds s ≡ true → Kept s → (size (round s) < size s) × Kept (round s))
      → (left : ℕ) (start : State) → Kept start
      → size start < left
      → (holds (while left start) ≡ false) × Kept (while left start)
  unfolding while
  while_ends Kept size falls zero start k enough = absurd (omega arith)
  while_ends Kept size falls (suc left) start k enough = elim (Bool-cases (holds start)) [
    | inr stops ↦ rw (stops, while) (stops, k)
    | inl goes ↦
        let (smaller, k') = falls start goes k in
        rw (goes, while) (while_ends Kept size falls left (round start) k' (omega arith))
  ]
