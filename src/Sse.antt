-- ===== src/Sse.antt =====
-- The parser of server-sent events that reads the answers of MCP servers (src/mcp/sse.rs).
pub mod Chunks
pub mod Stream
use agent_kuibysheff.Common.{
  ℕ, zero, suc, ◌+◌, ◌*◌, ◌-◌, Bool, true, false, not, ◌&&◌, Option, none, some, List, [], ◌∷◌,
  ◌++◌, ◌==◌, nat_eq, list_eq, if◌then◌else◌, is_empty, ltb, leb, length, take, drop, max, Result,
  ok, err, Text, text, trim, bytes, find, starts_with, strip_prefix, strip_suffix, split_once,
  contains_char, saturating_add, usize_max, u64_max, is_ascii_digit,
}

pub record SseEvent : Type 0 where
  pub event : Option Text
  pub id : Option Text
  pub retry_ms : Option ℕ
  pub event_data : Text

pub record SseParser : Type 0 where
  pub buffer : Text
  pub max_buffer_bytes : ℕ

abbrev pub default_max_buffer_bytes : ℕ
default_max_buffer_bytes = 1024 * 1024

unfoldable pub with_max_buffer : ℕ → SseParser
with_max_buffer bound = record { buffer = []; max_buffer_bytes = max bound 1 }

-- `SseParser::new`
unfoldable pub new : SseParser
unfolding with_max_buffer
new = with_max_buffer default_max_buffer_bytes

abbrev pub crlf_crlf : Text
crlf_crlf = 13 ∷ 10 ∷ 13 ∷ 10 ∷ []

abbrev pub lf_lf : Text
lf_lf = 10 ∷ 10 ∷ []

unfoldable pub find_event_boundary : Text → Option ℕ
unfolding find
find_event_boundary buf = elim (find crlf_crlf buf) [ some i ↦ some i | none ↦ find lf_lf buf ]

-- `str::split` at a character: the pieces between its occurrences, one at least.
unfoldable pub split_at_char : ℕ → Text → List Text
split_at_char sep [] = [] ∷ []
split_at_char sep (c ∷ cs) =
    let rest = split_at_char sep cs in if c == sep then [] ∷ rest else grow c rest
  where
    grow : ℕ → List Text → List Text
    grow c [] = (c ∷ []) ∷ []
    grow c (piece ∷ pieces) = (c ∷ piece) ∷ pieces

-- `str::parse::<u64>`: an optional `+` and decimal digits, at least one, without overflow.
digits_from : ℕ → Text → Option ℕ
digits_from acc [] = some acc
digits_from acc (c ∷ cs) =
    let rest = digits_from (acc * 10 + (c - b'0')) cs in
    if is_ascii_digit c && leb (acc * 10 + (c - b'0')) u64_max then rest else none

unfoldable pub parse_u64 : Text → Option ℕ
unfolding digits_from
parse_u64 t = parse_digits (if_plus t)
  where
    if_plus : Text → Text
    if_plus [] = []
    if_plus (c ∷ cs) = if c == b'+' then cs else c ∷ cs

    parse_digits : Text → Option ℕ
    parse_digits [] = none
    parse_digits (c ∷ cs) = digits_from 0 (c ∷ cs)

-- `[String]::join("\n")`
unfoldable pub join_lines : List Text → Text
join_lines [] = []
join_lines (t ∷ []) = t
join_lines (t ∷ u ∷ ts) = t ++ b'\n' ∷ join_lines (u ∷ ts)

-- What the loop over the lines of a block carries.
pub record Fields : Type 0 where
  pub event : SseEvent
  pub data_lines : List Text
  pub saw_field : Bool

abbrev strip_cr : Text → Text
strip_cr line = elim (strip_suffix (13 ∷ []) line) [ some t ↦ t | none ↦ line ]

abbrev strip_space : Text → Text
strip_space rest = elim (strip_prefix (b' ' ∷ []) rest) [ some t ↦ t | none ↦ rest ]

abbrev split_field : Text → Text × Text
split_field line = elim (split_once b':' line) [
  | some (field, rest) ↦ (field, strip_space rest)
  | none ↦ (line, [])
]

abbrev set_retry : Fields → Option ℕ → Fields
set_retry f none = f
set_retry f (some ms) = record f { event = record f.event { retry_ms = some ms } }

abbrev set_field : Fields → Text → Text → Fields
set_field f field value =
    if field == text "event"
    then record f { event = record f.event { event = some value } }
    else if field == text "id"
    then if contains_char 0 value
      then f
      else record f { event = record f.event { id = some value } }
    else if field == text "retry"
    then set_retry f (parse_u64 value)
    else if field == text "data"
    then record f { data_lines = f.data_lines ++ value ∷ [] }
    else f

-- One round of the loop in `parse_event_block`.
unfoldable pub read_line : Fields → Text → Fields
unfolding parse_u64 strip_suffix strip_prefix split_once starts_with contains_char
read_line f raw =
    let line = strip_cr raw in
    if is_empty line
    then f
    else if starts_with (b':' ∷ []) line
    then f
    else let (field, value) = split_field line in
      set_field (record f { saw_field = true }) field value

unfoldable pub read_lines : Fields → List Text → Fields
unfolding read_line
read_lines f [] = f
read_lines f (line ∷ lines) = read_lines (read_line f line) lines

abbrev no_event : SseEvent
no_event = record { event = none; id = none; retry_ms = none; event_data = [] }

unfoldable pub parse_event_block : Text → Option SseEvent
unfolding read_lines split_at_char join_lines
parse_event_block block =
    let f =
      read_lines (record { event = no_event; data_lines = []; saw_field = false })
        (split_at_char b'\n' block) in
    if not f.saw_field && is_empty f.data_lines
    then none
    else some (record f.event { event_data = join_lines f.data_lines })

-- The length of the boundary that stands at a position.
abbrev skip_len : ℕ → Text → ℕ
skip_len idx buf = if starts_with crlf_crlf (drop idx buf) then 4 else 2

-- One round of the loop in `push`: the block before the first boundary and the text behind it.
unfoldable pub next_block : Text → Option (Text × Text)
unfolding find_event_boundary starts_with
next_block buf = elim (find_event_boundary buf) [
  | none ↦ none
  | some idx ↦ some (take idx buf, drop (idx + skip_len idx buf) buf)
]

abbrev pub push_event : Option SseEvent → List SseEvent → List SseEvent
push_event none events = events
push_event (some e) events = e ∷ events

-- The loop of `push`, on fuel: each round shortens the buffer.
unfoldable pub take_events : ℕ → Text → List SseEvent × Text
unfolding next_block parse_event_block
take_events zero buf = ([], buf)
take_events (suc fuel) buf = elim (next_block buf) [
  | none ↦ ([], buf)
  | some (raw, left) ↦
      let (events, buf') = take_events fuel left in
      (push_event (parse_event_block raw) events, buf')
]

-- The error carries the limit that its message shows.
unfoldable pub push : Text → SseParser → Result (List SseEvent × SseParser) ℕ
unfolding take_events bytes
push chunk p =
    if ltb p.max_buffer_bytes
      (saturating_add usize_max (length (bytes p.buffer)) (length (bytes chunk)))
    then err p.max_buffer_bytes
    else let (events, buffer) = take_events (length (p.buffer ++ chunk)) (p.buffer ++ chunk) in
      ok (events, record p { buffer = buffer })

unfoldable pub finish : SseParser → Option SseEvent × SseParser
unfolding parse_event_block trim
finish p =
    if is_empty (trim p.buffer)
    then (none, record p { buffer = [] })
    else (parse_event_block p.buffer, record p { buffer = [] })

-- `parse_json_data`; `from_str` is `serde_json::from_str`.
unfoldable pub parse_json_data {ℓ} : {Value : Type ℓ} → (Text → Option Value) → Text → Option Value
unfolding trim
parse_json_data from_str event_data =
    let trimmed = trim event_data in if is_empty trimmed then none else from_str trimmed
