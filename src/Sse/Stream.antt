-- ===== src/Sse/Stream.antt =====
-- What `SseParser::push` promises (src/mcp/sse.rs): the bound of its buffer, and the same events
-- however the stream is cut.
use agent_kuibysheff.Common.{
  ℕ, zero, suc, ◌+◌, ◌≤◌, ◌<◌, none, some, List, [], ◌∷◌, ◌++◌, ◌≡◌, refl, sym, ◌⊎◌, inl, inr,
  arith, length, drop, Result, ok, err, ◌>>=◌, Text, bytes, encode_utf8, length-append,
  append_assoc, Option-cases, Bool-cases, usize_max, ltb, ltb→le,
}
use agent_kuibysheff.Sse.{SseEvent, SseParser, find_event_boundary, next_block, take_events, push}
use agent_kuibysheff.Sse.Chunks.{
  OneSeparator, take_events-append, next_cases, take_events-none, take_events-some,
  next_block_shorter, skip_at,
}

length-bytes-append : (t u : Text) → length (bytes (t ++ u)) ≡ length (bytes t) + length (bytes u)
unfolding bytes
length-bytes-append [] u = omega arith
length-bytes-append (c ∷ t) u = omega (
  arith,
  length-bytes-append t u,
  length-append (encode_utf8 c) (bytes (t ++ u)),
  length-append (encode_utf8 c) (bytes t),
)

length-bytes-drop : (n : ℕ) (t : Text) → length (bytes (drop n t)) ≤ length (bytes t)
unfolding bytes
length-bytes-drop zero t = omega arith
length-bytes-drop (suc n) [] = omega arith
length-bytes-drop (suc n) (c ∷ t) =
    omega (arith, length-bytes-drop n t, length-append (encode_utf8 c) (bytes t))

next_block-bytes :
    (t raw left : Text) → next_block t ≡ some (raw, left) → length (bytes left) ≤ length (bytes t)
unfolding next_block
next_block-bytes t raw left h = elim (Option-cases (find_event_boundary t)) [
  | inl e ↦ absurd (cc (rw (next_block, e) at h))
  | inr (i, e) ↦
      let h' = rw (next_block, e) at h in
      let b : drop (i + skip_at i t) t ≡ left = cc h' in
      rw (← b) (length-bytes-drop (i + skip_at i t) t)
]

-- With enough fuel no boundary is left, and what is left is not longer than the text.
Drained : Text → List SseEvent × Text → Type 0
Drained t r = (next_block r.1 ≡ none) × (length (bytes r.1) ≤ length (bytes t))

take_events-Drained : (n : ℕ) (t : Text) → length t ≤ n → Drained t (take_events n t)
unfolding Drained
take_events-Drained zero t h = elim (next_cases t) [
  | inl e ↦ rw (take_events-none zero t e) (e, omega arith)
  | inr (raw, left, e) ↦ absurd (omega (arith, next_block_shorter t raw left e))
]
take_events-Drained (suc n) t h = elim (next_cases t) [
  | inl e ↦ rw (take_events-none (suc n) t e) (e, omega arith)
  | inr (raw, left, e) ↦
      let (done, fits) =
        take_events-Drained n left (omega (arith, next_block_shorter t raw left e)) in
      rw (take_events-some n t raw left e) (done, omega (arith, next_block-bytes t raw left e))
]

boundary_none : (t : Text) → next_block t ≡ none → find_event_boundary t ≡ none
unfolding next_block
boundary_none t h = elim (Option-cases (find_event_boundary t)) [
  | inl e ↦ e
  | inr (i, e) ↦ absurd (cc (rw (next_block, e) at h))
]

push_within :
    (chunk : Text) (p : SseParser)
    → length (bytes p.buffer) + length (bytes chunk) ≤ p.max_buffer_bytes
    → push chunk p
      ≡ ok (
        (take_events (length (p.buffer ++ chunk)) (p.buffer ++ chunk)).0,
        record p { buffer = (take_events (length (p.buffer ++ chunk)) (p.buffer ++ chunk)).1 },
      )
unfolding push
push_within chunk p h = ground arith

-- A parser whose buffer is within a limit below the largest word answers a chunk in one of two
-- ways. If the buffer and the chunk together are within the limit, it succeeds, the limit stays,
-- the new buffer is within it, and no event boundary is left in the new buffer. If they are not,
-- the answer is the error with that limit.
pub push_bounds :
    (chunk : Text) (p : SseParser)
    → p.max_buffer_bytes < usize_max
    → ((length (bytes p.buffer) + length (bytes chunk) ≤ p.max_buffer_bytes)
        × ((events : List SseEvent) × (p' : SseParser) × (push chunk p ≡ ok (events, p'))
            × (p'.max_buffer_bytes ≡ p.max_buffer_bytes)
            × (length (bytes p'.buffer) ≤ p'.max_buffer_bytes)
            × (find_event_boundary p'.buffer ≡ none)))
      ⊎ ((p.max_buffer_bytes < length (bytes p.buffer) + length (bytes chunk))
          × (push chunk p ≡ err p.max_buffer_bytes))
unfolding push Drained
push_bounds chunk p small =
    elim (Bool-cases (ltb p.max_buffer_bytes (length (bytes p.buffer) + length (bytes chunk)))) [
      | inl over ↦ inr (ground arith, ground arith)
      | inr fits ↦
          let whole = p.buffer ++ chunk in
          let le : length (bytes p.buffer) + length (bytes chunk) ≤ p.max_buffer_bytes =
            ltb→le _ _ fits in
          let (done, short) = take_events-Drained (length whole) whole (omega arith) in
          inl (
            le,
            (
              (take_events (length whole) whole).0,
              record p { buffer = (take_events (length whole) whole).1 },
              push_within chunk p le,
              refl,
              omega (arith, length-bytes-append p.buffer chunk),
              boundary_none (take_events (length whole) whole).1 done,
            ),
          )
    ]

-- Two calls of `push`, the events of the first before those of the second.
abbrev pub push_both : Text → Text → SseParser → Result (List SseEvent × SseParser) ℕ
push_both a b p = do (first, p1) ← push a p; (second, p2) ← push b p1; ok (first ++ second, p2)

-- Where the buffer and both chunks are within the limit of the parser, and the stream does not hold
-- both a CRLF blank line and an LF blank line, two chunks pushed one after the other give the same
-- events and leave the same parser as one push of the two together.
pub push-append :
    (a b : Text) (p : SseParser)
    → length (bytes p.buffer) + length (bytes a) + length (bytes b) ≤ p.max_buffer_bytes
    → OneSeparator ((p.buffer ++ a) ++ b)
    → push_both a b p ≡ push (a ++ b) p
unfolding Drained
push-append a b p fits o =
    let whole = p.buffer ++ a in
    let r = take_events (length whole) whole in
    let (done, short) = take_events-Drained (length whole) whole (omega arith) in
    let p1 : SseParser = record p { buffer = r.1 } in
    let one = push_within a p (omega arith) in
    let two = push_within b p1 (omega (arith, length-bytes-append p.buffer a)) in
    let both = push_within (a ++ b) p (omega (arith, length-bytes-append a b)) in
    let joined = take_events-append (length whole) whole b o (omega arith) in
    let regroup : p.buffer ++ (a ++ b) ≡ whole ++ b = sym (append_assoc p.buffer a b) in
    rw (one) (rw (two) (rw (both, regroup, joined)))
