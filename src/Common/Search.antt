-- ===== src/Common/Search.antt =====
-- `str::find` with a text: the position of its first occurrence, and what it keeps when the text
-- grows at its end or loses its beginning.
use Prim.Native.Nat.{ℕ, zero, suc, ◌+◌, ◌≤◌}
use mathlib.Core.Path.{◌≡◌, refl}
use mathlib.Core.Bool.{true, false}
use mathlib.Core.List.{[], ◌∷◌, ◌++◌}
use mathlib.Core.Logic.{inl, inr}
use mathlib.Core.Option
use mathlib.Core.Option.{Option, none, some}
use native.Mathlib.Omega.{arith}
use agent_kuibysheff.Common.Test.{Option-cases, Bool-cases, if◌then◌else◌}
use agent_kuibysheff.Common.Equality.{Text, ◌==◌, nat_eq}
use agent_kuibysheff.Common.Sequence.{length, drop, length-append}
use agent_kuibysheff.Common.Utf8.{strip_prefix, starts_with, strip_prefix_sound}

-- Positions count the scalar values.
unfoldable pub find : Text → Text → Option ℕ
unfolding starts_with
find p [] = if starts_with p [] then some 0 else none
find p (c ∷ cs) =
    let later = Option.map suc (find p cs) in if starts_with p (c ∷ cs) then some 0 else later

-- A text that is long enough begins with `p` or not, whatever follows it.
strip_prefix-append_long :
    (p t u : Text)
    → length p ≤ length t
    → strip_prefix p (t ++ u) ≡ Option.map (λ (s : Text). s ++ u) (strip_prefix p t)
unfolding strip_prefix
strip_prefix-append_long [] t u h = refl
strip_prefix-append_long (x ∷ p) [] u h = absurd (omega arith)
strip_prefix-append_long (x ∷ p) (c ∷ t) u h = elim (Bool-cases (x == c)) [
  | inl same ↦ rw (same) (strip_prefix-append_long p t u (omega arith))
  | inr other ↦ rw (other)
]

pub starts_with-append_long :
    (p t u : Text) → length p ≤ length t → starts_with p (t ++ u) ≡ starts_with p t
unfolding starts_with
starts_with-append_long p t u h = elim (Option-cases (strip_prefix p t)) [
  | inl e ↦ rw (starts_with, strip_prefix-append_long p t u h, e)
  | inr (s, e) ↦ rw (starts_with, strip_prefix-append_long p t u h, e)
]

starts_with-le : (p t : Text) → starts_with p t ≡ true → length p ≤ length t
unfolding starts_with
starts_with-le p t h = elim (Option-cases (strip_prefix p t)) [
  | inl e ↦ absurd (cc (rw (starts_with, e) at h))
  | inr (s, e) ↦ rw (strip_prefix_sound p t s e) (omega (arith, length-append p s))
]

starts_with_nil : (t : Text) → starts_with [] t ≡ true
unfolding starts_with strip_prefix
starts_with_nil t = refl

-- What is found stands inside the text.
pub find-le : (p t : Text) (i : ℕ) → find p t ≡ some i → i + length p ≤ length t
unfolding find
find-le p [] i h = ground (arith, starts_with-le p [])
find-le p (c ∷ cs) i h = elim (Option-cases (find p cs)) [
  | inl e ↦ ground (arith, starts_with-le p (c ∷ cs))
  | inr (j, e) ↦ ground (arith, starts_with-le p (c ∷ cs), find-le p cs j e)
]

-- What is found in a text is found at the same place when the text goes on.
pub find-append : (p t u : Text) (i : ℕ) → find p t ≡ some i → find p (t ++ u) ≡ some i
unfolding find
find-append [] [] [] i h = h
find-append [] [] (x ∷ u) i h = ground (arith, starts_with_nil (x ∷ u))
find-append (x ∷ p) [] u i h = ground (arith)
find-append p (c ∷ cs) u i h = elim (Option-cases (find p cs)) [
  | inl e ↦ ground (arith, starts_with-le p (c ∷ cs), starts_with-append_long p (c ∷ cs) u)
  | inr (j, e) ↦
      ground (arith, find-le p cs j e, find-append p cs u j e, starts_with-append_long p (c ∷ cs) u)
]

pub find-append_none : (p t u : Text) → find p (t ++ u) ≡ none → find p t ≡ none
find-append_none p t u h = elim (Option-cases (find p t)) [
  | inl e ↦ e
  | inr (i, e) ↦ cc (find-append p t u i e)
]

pub find-drop-none : (p t : Text) (n : ℕ) → find p t ≡ none → find p (drop n t) ≡ none
unfolding find
find-drop-none p t zero h = h
find-drop-none p [] (suc n) h = h
find-drop-none p (c ∷ cs) (suc n) h = elim (Option-cases (find p cs)) [
  | inl e ↦ find-drop-none p cs n e
  | inr (j, e) ↦ ground arith
]

-- At the position that is found the text goes on with `p`.
pub find-starts_with : (p t : Text) (i : ℕ) → find p t ≡ some i → starts_with p (drop i t) ≡ true
unfolding find
find-starts_with p [] i h = ground arith
find-starts_with p (c ∷ cs) i h = elim (Option-cases (find p cs)) [
  | inl e ↦ ground arith
  | inr (j, e) ↦ ground (arith, find-starts_with p cs j e)
]

-- Where `p` is not found, no later part begins with it.
pub starts_with-drop-none :
    (p t : Text) (n : ℕ) → find p t ≡ none → starts_with p (drop n t) ≡ false
unfolding find
starts_with-drop-none p [] zero h = ground arith
starts_with-drop-none p [] (suc n) h = ground arith
starts_with-drop-none p (c ∷ cs) zero h = ground arith
starts_with-drop-none p (c ∷ cs) (suc n) h = elim (Option-cases (find p cs)) [
  | inl e ↦ starts_with-drop-none p cs n e
  | inr (j, e) ↦ ground arith
]
