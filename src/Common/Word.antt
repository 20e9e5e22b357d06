-- ===== src/Common/Word.antt =====
-- Machine words: a value is a number, and the operations write out what happens at the bound.
use Prim.Native.Nat.{ℕ, ◌+◌, ◌-◌, ◌^◌, ◌≤◌, min}
use native.Mathlib.Omega.{arith}

abbrev pub u32_max : ℕ
u32_max = 2 ^ 32 - 1

abbrev pub u64_max : ℕ
u64_max = 2 ^ 64 - 1

-- `usize` of the 64-bit targets that the program supports.
abbrev pub usize_max : ℕ
usize_max = 2 ^ 64 - 1

-- `saturating_add` of a word whose largest value is `top`.
abbrev pub saturating_add : ℕ → ℕ → ℕ → ℕ
saturating_add top a b = min top (a + b)

pub saturating_add-le : (top a b : ℕ) → saturating_add top a b ≤ top
saturating_add-le top a b = omega arith
