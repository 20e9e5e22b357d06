-- ===== src/Tests/Parsing.antt =====
-- Server-sent events and model directives on concrete inputs.
use agent_kuibysheff.Common.{
  ◌+◌, ◌≤◌, ◌<◌, ◌≡◌, ◌↔◌, ◌⊎◌, inl, refl, arith, false, none, some, List, [], ◌∷◌, ◌++◌, Text,
  text, ok, err, Result, length, bytes, find, list_beq, option_beq,
}
use agent_kuibysheff.Common.Json.{Value, string, object, Fields, end, field}
use agent_kuibysheff.Engine.Host.{ParsedDirective, DirectiveParseError}
use agent_kuibysheff.Sse.{SseEvent, SseParser, push, find_event_boundary}
use agent_kuibysheff.Sse.Stream.{push-append, push_both, push_bounds}
use agent_kuibysheff.Directive.{
  Call, Directive, set_content, parse_directive, approx_json_object_count, content_preview,
  raw_indexes,
}
use agent_kuibysheff.Directive.Marker.{take_until_end_marker}
use agent_kuibysheff.Directive.Grammar.{Chars, Inside}
use agent_kuibysheff.Directive.Grammar.Split.{IsObject, Splits, split_json-IsObject_iff}
use agent_kuibysheff.Directive.Lines.{first_marker, content_of, take_until_end_marker-eq}
use agent_kuibysheff.Directive.Body.{raw_block}
use agent_kuibysheff.Directive.Reply.{parse_directive-raw_block}

abbrev small_parser : SseParser
small_parser = record { buffer = []; max_buffer_bytes = 64 }

-- The end of the first event and the beginning of the second.
abbrev first_chunk : Text
first_chunk = text "data: x" ++ 10 ∷ 10 ∷ text "da"

abbrev second_chunk : Text
second_chunk = text "ta: y" ++ 10 ∷ 10 ∷ []

abbrev data_event : Text → SseEvent
data_event t = record { event = none; id = none; retry_ms = none; event_data = t }

two_chunks :
    push (first_chunk ++ second_chunk) small_parser
    ≡ ok (data_event (text "x") ∷ data_event (text "y") ∷ [], small_parser)
unfolding push list_beq
two_chunks = refl

-- An event that ends with LF LF is joined with the next one that ends with CRLF CRLF, if both are in
-- the buffer at once.
mixed_separators :
    push (text "data: a" ++ 10 ∷ 10 ∷ text "data: b" ++ 13 ∷ 10 ∷ 13 ∷ 10 ∷ []) small_parser
    ≡ ok (data_event (text "a" ++ 10 ∷ text "b") ∷ [], small_parser)
unfolding push list_beq
mixed_separators = refl

push-append_example :
    push_both first_chunk second_chunk small_parser
    ≡ push (first_chunk ++ second_chunk) small_parser
unfolding bytes find
push-append_example = push-append first_chunk second_chunk small_parser (omega arith) (inl refl)

push_bounds_example :
    ((length (bytes small_parser.buffer) + length (bytes first_chunk)
        ≤ small_parser.max_buffer_bytes)
      × ((events : List SseEvent) × (p' : SseParser) × (push first_chunk small_parser
            ≡ ok (events, p'))
          × (p'.max_buffer_bytes ≡ small_parser.max_buffer_bytes)
          × (length (bytes p'.buffer) ≤ p'.max_buffer_bytes)
          × (find_event_boundary p'.buffer ≡ none)))
    ⊎ ((small_parser.max_buffer_bytes
          < length (bytes small_parser.buffer) + length (bytes first_chunk))
        × (push first_chunk small_parser ≡ err small_parser.max_buffer_bytes))
push_bounds_example = push_bounds first_chunk small_parser (omega arith)

-- `{"k":"}"}`, with a closing brace inside a string literal.
abbrev small_object : Text
small_object = b'{' ∷ 34 ∷ b'k' ∷ 34 ∷ b':' ∷ 34 ∷ b'}' ∷ 34 ∷ b'}' ∷ []

small_object-IsObject : IsObject small_object
small_object-IsObject = (
  34 ∷ b'k' ∷ 34 ∷ b':' ∷ 34 ∷ b'}' ∷ 34 ∷ b'}' ∷ [],
  refl,
  Inside.quoted {s = b'k' ∷ 34 ∷ []} (Chars.other b'k' refl refl Chars.closed) (
      Inside.other b':' refl refl refl (
        Inside.quoted {s = b'}' ∷ 34 ∷ []} (Chars.other b'}' refl refl Chars.closed)
          Inside.closed)),
)

abbrev object_tail : Text
object_tail = 34 ∷ b'k' ∷ 34 ∷ b':' ∷ 34 ∷ b'}' ∷ 34 ∷ b'}' ∷ 10 ∷ b'x' ∷ []

split_json-IsObject_iff_example :
    Splits (b'{' ∷ object_tail) (small_object, 10 ∷ b'x' ∷ [])
    ↔ ((b'{' ∷ object_tail ≡ small_object ++ 10 ∷ b'x' ∷ []) × IsObject small_object)
split_json-IsObject_iff_example =
    split_json-IsObject_iff object_tail small_object (10 ∷ b'x' ∷ []) (omega arith)

-- Two lines, the second of which only begins like a marker.
abbrev raw_body : Text
raw_body = text "one" ++ 10 ∷ text "FILE>>>x"

take_until_end_marker-eq_example :
    take_until_end_marker (raw_body ++ 10 ∷ text "FILE>>>")
    ≡ content_of (raw_body ++ 10 ∷ text "FILE>>>")
take_until_end_marker-eq_example = take_until_end_marker-eq (raw_body ++ 10 ∷ text "FILE>>>")

body_found : take_until_end_marker (raw_body ++ 10 ∷ text "FILE>>>") ≡ some raw_body
unfolding take_until_end_marker option_beq
body_found = refl

abbrev write_map : Fields
write_map = field (text "path") (string (text "a")) (field (text "body") (string (text "raw")) end)

abbrev write_call : Call
write_call = record { server = text "home"; tool = text "write"; arguments = object write_map }

abbrev write_directive : Directive
write_directive = record {
  done = false;
  thought = none;
  tool_calls = write_call ∷ [];
  result = none;
}

abbrev reads_write : Text → Result Directive Text
reads_write t = ok write_directive

parse_directive-raw_block_example :
    ◌≡◌ {A = Result (ParsedDirective Value) DirectiveParseError}
      (parse_directive reads_write (small_object ++ raw_block raw_body []))
      (ok (record {
        directive = record write_directive {
          tool_calls =
              record write_call { arguments = object (set_content write_map raw_body) } ∷ [];
        };
        json_text = small_object;
      }))
unfolding raw_indexes first_marker list_beq option_beq
parse_directive-raw_block_example =
    parse_directive-raw_block reads_write small_object raw_body write_directive 0 write_call
      write_map small_object-IsObject (omega arith) refl refl refl refl refl refl

two_objects : approx_json_object_count (small_object ++ 10 ∷ small_object) ≡ 2
unfolding approx_json_object_count
two_objects = refl

preview : content_preview (text "  abcdef ") 3 ≡ text "abc" ++ 0x2026 ∷ []
unfolding content_preview
preview = refl
