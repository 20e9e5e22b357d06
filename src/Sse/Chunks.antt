-- ===== src/Sse/Chunks.antt =====
-- The events of `push` do not depend on how the network cuts the stream (src/mcp/sse.rs).
use agent_kuibysheff.Common.{
  ℕ, zero, suc, ◌+◌, ◌≤◌, ◌<◌, Option, none, some, List, [], ◌++◌, ◌≡◌, refl, sym, ◌∙◌, ap, ◌⊎◌,
  inl, inr, arith, length, take, drop, Text, find, starts_with, find-le, find-append,
  find-append_none, find-drop-none, find-starts_with, starts_with-drop-none, take-append-le,
  drop-append-le, length-drop, length-append, Option-cases, if◌then◌else◌,
}
use mathlib.Core.Path.{subst}
use agent_kuibysheff.Sse.{
  SseEvent, crlf_crlf, lf_lf, find_event_boundary, next_block, take_events, push_event,
  parse_event_block,
}

-- The stream does not mix the two kinds of blank line: one of them occurs nowhere in it.
abbrev pub OneSeparator : Text → Type 0
OneSeparator t = (find crlf_crlf t ≡ none) ⊎ (find lf_lf t ≡ none)

abbrev pub skip_at : ℕ → Text → ℕ
skip_at idx buf = if starts_with crlf_crlf (drop idx buf) then 4 else 2

-- The next boundary of a text is the next boundary of every text that goes on from it.
abbrev Kept : Text → Text → ℕ → Type 0
Kept t u i =
    (find_event_boundary (t ++ u) ≡ some i)
    × (skip_at i (t ++ u) ≡ skip_at i t)
    × (i + skip_at i t ≤ length t)

Kept-lf : (t u : Text) (i : ℕ) → find crlf_crlf (t ++ u) ≡ none → find lf_lf t ≡ some i → Kept t u i
unfolding find_event_boundary
Kept-lf t u i never here =
    let never_t = find-append_none crlf_crlf t u never in
    let a = starts_with-drop-none crlf_crlf (t ++ u) i never in
    let b = starts_with-drop-none crlf_crlf t i never_t in
    (
      rw (find_event_boundary, never) (find-append lf_lf t u i here),
      rw (a, b),
      rw (b) (find-le lf_lf t i here),
    )

Kept-crlf : (t u : Text) (i : ℕ) → find crlf_crlf t ≡ some i → Kept t u i
unfolding find_event_boundary
Kept-crlf t u i here =
    let there = find-append crlf_crlf t u i here in
    let a = find-starts_with crlf_crlf (t ++ u) i there in
    let b = find-starts_with crlf_crlf t i here in
    (rw (find_event_boundary, there), rw (a, b), rw (b) (find-le crlf_crlf t i here))

kept : (t u : Text) (i : ℕ) → OneSeparator (t ++ u) → find_event_boundary t ≡ some i → Kept t u i
unfolding find_event_boundary
kept t u i (inl never) h =
    let never_t = find-append_none crlf_crlf t u never in
    Kept-lf t u i never (rw (find_event_boundary, never_t) at h)
kept t u i (inr never) h = elim (Option-cases (find crlf_crlf t)) [
  | inl e ↦
      let h' = rw (find_event_boundary, e) at h in let g = find-append_none lf_lf t u never in cc
  | inr (j, e) ↦ Kept-crlf t u i (e ∙ rw (find_event_boundary, e) at h)
]

one_drop : (t : Text) (n : ℕ) → OneSeparator t → OneSeparator (drop n t)
one_drop t n (inl never) = inl (find-drop-none crlf_crlf t n never)
one_drop t n (inr never) = inr (find-drop-none lf_lf t n never)

-- A block that is complete stays as it is when the text goes on, and the buffer gets shorter.
abbrev Goes : Text → Text → Text → Text → Type 0
Goes t u raw left =
    (next_block (t ++ u) ≡ some (raw, left ++ u))
    × OneSeparator (left ++ u)
    × (length left < length t)

next_block_some :
    (t u raw left : Text) (i : ℕ)
    → OneSeparator (t ++ u)
    → find_event_boundary t ≡ some i
    → ◌≡◌ {A = Option (Text × Text)} (some (take i t, drop (i + skip_at i t) t)) (some (raw, left))
    → Goes t u raw left
unfolding next_block
next_block_some t u raw left i o e h =
    let (there, same, inside) = kept t u i o e in
    let n = i + skip_at i t in
    let a : take i t ≡ raw = cc h in
    let b : drop (i + skip_at i t) t ≡ left = cc h in
    let c : drop (i + skip_at i t) (t ++ u) ≡ left ++ u =
      drop-append-le n t u inside ∙ ap (λ (x : Text). x ++ u) b in
    let d : take i (t ++ u) ≡ raw = take-append-le i t u (omega arith) ∙ a in
    (
      rw (next_block, there, same, c, d),
      subst OneSeparator c (one_drop (t ++ u) n o),
      rw (← b) (ground (arith, length-drop n t)),
    )

next_block-append :
    (t u raw left : Text)
    → OneSeparator (t ++ u)
    → next_block t ≡ some (raw, left)
    → Goes t u raw left
unfolding next_block
next_block-append t u raw left o h = elim (Option-cases (find_event_boundary t)) [
  | inl e ↦ absurd (cc (rw (next_block, e) at h))
  | inr (i, e) ↦ next_block_some t u raw left i o e (rw (next_block, e) at h)
]

boundary-le : (t : Text) (i : ℕ) → find_event_boundary t ≡ some i → i + 2 ≤ length t
unfolding find_event_boundary
boundary-le t i h = elim (Option-cases (find crlf_crlf t)) [
  | inl e ↦ find-le lf_lf t i (rw (find_event_boundary, e) at h)
  | inr (j, e) ↦ ground (arith, find-le crlf_crlf t j e, e)
]

pub next_block_shorter :
    (t raw left : Text) → next_block t ≡ some (raw, left) → length left < length t
unfolding next_block
next_block_shorter t raw left h = elim (Option-cases (find_event_boundary t)) [
  | inl e ↦ absurd (cc (rw (next_block, e) at h))
  | inr (i, e) ↦
      let h' = rw (next_block, e) at h in
      let b : drop (i + skip_at i t) t ≡ left = cc h' in
      rw (← b) (ground (arith, length-drop (i + skip_at i t) t, boundary-le t i e))
]

pub next_cases :
    (t : Text)
    → (next_block t ≡ none) ⊎ ((raw : Text) × (left : Text) × (next_block t ≡ some (raw, left)))
next_cases t = elim (Option-cases (next_block t)) [ inl e ↦ inl e | inr (p, e) ↦ inr (p.0, p.1, e) ]

pub take_events-none : (n : ℕ) (t : Text) → next_block t ≡ none → take_events n t ≡ ([], t)
unfolding take_events
take_events-none zero t e = refl
take_events-none (suc n) t e = rw (take_events, e)

-- The events of a block put before what follows.
abbrev pub before : Text → List SseEvent × Text → List SseEvent × Text
before raw (events, buf) = (push_event (parse_event_block raw) events, buf)

pub take_events-some :
    (n : ℕ) (t raw left : Text)
    → next_block t ≡ some (raw, left)
    → take_events (suc n) t ≡ before raw (take_events n left)
unfolding take_events
take_events-some n t raw left e = rw (take_events, e)

-- As much fuel as the buffer is long is enough, and more changes nothing.
pub take_events_enough :
    (n m : ℕ) (t : Text) → length t ≤ n → length t ≤ m → take_events n t ≡ take_events m t
take_events_enough zero m t hn hm = elim (next_cases t) [
  | inl e ↦ take_events-none zero t e ∙ sym (take_events-none m t e)
  | inr (raw, left, e) ↦ absurd (omega (arith, next_block_shorter t raw left e))
]
take_events_enough (suc n) zero t hn hm = elim (next_cases t) [
  | inl e ↦ take_events-none (suc n) t e ∙ sym (take_events-none zero t e)
  | inr (raw, left, e) ↦ absurd (omega (arith, next_block_shorter t raw left e))
]
take_events_enough (suc n) (suc m) t hn hm = elim (next_cases t) [
  | inl e ↦ take_events-none (suc n) t e ∙ sym (take_events-none (suc m) t e)
  | inr (raw, left, e) ↦
      let s = next_block_shorter t raw left e in
      let same = take_events_enough n m left (omega arith) (omega arith) in
      take_events-some n t raw left e ∙ ap (before raw) same ∙ sym (take_events-some m t raw left e)
]

-- Taking the events of a text, and then those of what is left with another text behind it.
abbrev pub then_take : List SseEvent × Text → Text → List SseEvent × Text
then_take (first, left) u =
    let (second, buf) = take_events (length (left ++ u)) (left ++ u) in (first ++ second, buf)

before-then_take :
    (raw u : Text) (r : List SseEvent × Text)
    → before raw (then_take r u) ≡ then_take (before raw r) u
before-then_take raw u (first, left) =
    ap (λ (es : List SseEvent). (es, (take_events (length (left ++ u)) (left ++ u)).1))
      (push_event-append (parse_event_block raw) first _)
  where
    push_event-append :
        (e : Option SseEvent) (es fs : List SseEvent)
        → push_event e (es ++ fs) ≡ push_event e es ++ fs
    push_event-append none es fs = refl
    push_event-append (some e) es fs = refl

pub take_events-append :
    (n : ℕ) (t u : Text)
    → OneSeparator (t ++ u)
    → length t ≤ n
    → take_events (length (t ++ u)) (t ++ u) ≡ then_take (take_events n t) u
take_events-append zero t u o h = elim (next_cases t) [
  | inl e ↦ ap (λ r. then_take r u) (sym (take_events-none zero t e))
  | inr (raw, left, e) ↦ absurd (omega (arith, next_block_shorter t raw left e))
]
take_events-append (suc n) t u o h = elim (next_cases t) [
  | inl e ↦ ap (λ r. then_take r u) (sym (take_events-none (suc n) t e))
  | inr (raw, left, e) ↦
      let (there, o', s) = next_block-append t u raw left o e in
      let all = length (t ++ u) in
      let fits : length (left ++ u) ≤ length (t ++ u) =
        omega (arith, length-append t u, length-append left u) in
      take_events_enough all (suc all) (t ++ u) (omega arith) (omega arith)
      ∙ take_events-some all (t ++ u) raw (left ++ u) there
      ∙ ap (before raw) (take_events_enough all (length (left ++ u)) (left ++ u) fits (omega arith))
      ∙ ap (before raw) (take_events-append n left u o' (omega arith))
      ∙ before-then_take raw u (take_events n left)
      ∙ ap (λ r. then_take r u) (sym (take_events-some n t raw left e))
]
