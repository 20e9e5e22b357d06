-- ===== src/Directive.antt =====
-- The directive that a model replies with (src/agent/loop/directive.rs): one JSON object, and
-- behind it the raw body of a file that is to be written.
pub mod Scan
pub mod Grammar
pub mod Marker
pub mod Lines
pub mod Body
pub mod Reply
use agent_kuibysheff.Common.{
  ℕ, zero, suc, ◌+◌, Bool, true, false, not, ◌&&◌, ◌||◌, Option, none, some, List, [], ◌∷◌, ◌++◌,
  ◌==◌, nat_eq, list_eq, if◌then◌else◌, is_empty, ltb, length, take, set, get_elem?, Result, ok,
  err, ok_or, map_err, ensure, ◌>>=◌, ◌>>◌, Text, text, trim, trim_start_matches, strip_prefix,
  starts_with, saturating_add, usize_max,
}
use agent_kuibysheff.Common.Json.{
  Value, null, string, object, Fields, get, remove_field, insert_field,
}
use agent_kuibysheff.Engine.Host.{
  ToolCallDirective, ModelDirective, ParsedDirective, DirectiveParseError,
}
use agent_kuibysheff.Directive.Scan.{split_json_object, general_hint, refused}
use agent_kuibysheff.Directive.Marker.{extract_raw_body, strip_closing_fence}

-- `content.matches("\n{").count()`
unfoldable count_newline_brace : Text → ℕ
count_newline_brace [] = 0
count_newline_brace (c ∷ []) = 0
count_newline_brace (c ∷ d ∷ cs) =
    let rest = count_newline_brace (d ∷ cs) in if c == 10 && d == b'{' then suc rest else rest

unfoldable pub approx_json_object_count : Text → ℕ
unfolding trim starts_with count_newline_brace
approx_json_object_count content =
    let trimmed = trim content in
    if is_empty trimmed
    then 0
    else saturating_add usize_max (if starts_with (b'{' ∷ []) trimmed then 1 else 0)
        (count_newline_brace trimmed)

unfoldable pub content_preview : Text → ℕ → Text
unfolding trim
content_preview content max_chars =
    let trimmed = trim content in
    if ltb max_chars (length trimmed)
    then take max_chars trimmed ++ 0x2026 ∷ []
    else take max_chars trimmed

abbrev is_line_break : ℕ → Bool
is_line_break c = c == 13 || c == 10

unfoldable pub strip_opening_fence : Text → Text
unfolding strip_prefix trim_start_matches
strip_opening_fence trimmed =
    trim_start_matches is_line_break
      (without (strip_prefix (text "```json") trimmed) (strip_prefix (text "```") trimmed))
  where
    without : Option Text → Option Text → Text
    without (some t) other = t
    without none (some t) = t
    without none none = trimmed

abbrev pub Call : Type 0
Call = ToolCallDirective Value

abbrev pub Directive : Type 0
Directive = ModelDirective Value

abbrev pub is_home_write : Call → Bool
is_home_write call = call.server == text "home" && call.tool == text "write"

abbrev pub has_content : Value → Bool
has_content arguments = elim (get arguments (text "content")) [
  | none ↦ false
  | some null ↦ false
  | some _ ↦ true
]

-- What the field `body` of a call asks for: a raw body or not.
unfoldable pub wants_raw : Option Value → Value → Result Bool DirectiveParseError
unfolding get
wants_raw none arguments = ok false
wants_raw (some null) arguments = ok false
wants_raw (some (string value)) arguments =
    if value == text "raw"
    then if has_content arguments
      then err (refused (text "home.write cannot set both content and body \"raw\"") general_hint)
      else ok true
    else err (refused (text "home.write body must be \"raw\" when present") general_hint)
wants_raw (some _) arguments =
    err (refused (text "home.write body must be \"raw\" when present") general_hint)

unfoldable pub is_raw : Call → Result Bool DirectiveParseError
unfolding wants_raw
is_raw call =
    if is_home_write call
    then wants_raw (get call.arguments (text "body")) call.arguments
    else ok false

-- The loop over the calls, which collects the indexes of those with a raw body.
unfoldable pub raw_indexes : ℕ → List Call → Result (List ℕ) DirectiveParseError
unfolding is_raw
raw_indexes index [] = ok []
raw_indexes index (call ∷ calls) = do
  raw ← is_raw call
  later ← raw_indexes (suc index) calls
  ok (if raw then index ∷ later else later)

abbrev pub set_content : Fields → Text → Fields
set_content map body = insert_field (remove_field map (text "body")) (text "content") (string body)

abbrev put_object : Directive → ℕ → Call → Text → Value → Result Directive DirectiveParseError
put_object d index call body (object map) =
    let call' = record call { arguments = object (set_content map body) } in
    ok (record d { tool_calls = set d.tool_calls index call' })
put_object d index call body _ =
    err (refused (text "home.write arguments must be an object") general_hint)

-- The indexing of `tool_calls` does not fail: the index comes from the loop over them.
unfoldable pub put_body : Directive → ℕ → Text → Result Directive DirectiveParseError
unfolding get remove_field insert_field
put_body d index body = elim (get_elem? d.tool_calls index) [
  | some call ↦ put_object d index call body call.arguments
  | none ↦ ok d
]

abbrev attach_at : Directive → Text → List ℕ → Result Directive DirectiveParseError
attach_at d rest [] = do
  ensure (is_empty (strip_closing_fence rest))
      (refused (text "unexpected text after the JSON object") general_hint)
  ok d
attach_at d rest (index ∷ []) = do body ← extract_raw_body rest; put_body d index body
attach_at d rest (index ∷ more ∷ others) =
    err (refused (text "only one raw home.write body is allowed per turn") general_hint)

unfoldable pub attach_raw_body : Directive → Text → Result Directive DirectiveParseError
attach_raw_body d rest = do indexes ← raw_indexes 0 d.tool_calls; attach_at d rest indexes

-- `from_str` is `serde_json::from_str`, with its error as the message that it shows.
unfoldable pub parse_directive :
    (Text → Result Directive Text) → Text → Result (ParsedDirective Value) DirectiveParseError
parse_directive from_str raw = do
  let prepared = strip_opening_fence (trim raw)
  ensure (starts_with (b'{' ∷ []) prepared) (refused (text "expected a JSON object") general_hint)
  (json_text, rest) ← split_json_object prepared
  directive ← map_err (λ message. refused message general_hint) (from_str json_text)
  attached ← attach_raw_body directive rest
  ok (record { directive = attached; json_text = json_text })
