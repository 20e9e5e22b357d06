-- ===== src/Directive/Marker.antt =====
-- The raw body of a file between its markers (src/agent/loop/directive.rs).
use agent_kuibysheff.Common.{
  ℕ, zero, suc, ◌+◌, ◌-◌, Bool, false, not, ◌&&◌, ◌||◌, Option, none, some, [], ◌∷◌, ◌==◌, nat_eq,
  option_eq, if◌then◌else◌, is_empty, ltb, length, take, drop, get_elem?, Result, ok_or, ◌>>=◌,
  Text, text, trim, trim_start, strip_prefix, strip_suffix, starts_with, find,
}
use agent_kuibysheff.Engine.Host.{DirectiveParseError}
use agent_kuibysheff.Directive.Scan.{refused, truncated_hint}

abbrev pub file_begin : Text
file_begin = text "<<<FILE"

abbrev pub file_end : Text
file_end = text "FILE>>>"

abbrev pub ends_line : Text → Bool
ends_line rest = is_empty rest || starts_with (10 ∷ []) rest || starts_with (13 ∷ 10 ∷ []) rest

unfoldable pub marker_line : Text → Bool
unfolding strip_prefix starts_with
marker_line t = elim (strip_prefix file_end t) [ none ↦ false | some rest ↦ ends_line rest ]

abbrev pub at_line_start : Text → ℕ → Bool
at_line_start body pos = pos == 0 || get_elem? body (pos - 1) == some 10

-- Where the content ends that stands before a marker line.
abbrev pub content_end : Text → ℕ → ℕ
content_end body pos =
    let end = pos - 1 in if ltb 0 end && get_elem? body (end - 1) == some 13 then end - 1 else end

-- The loop over the occurrences of `FILE>>>`, on fuel.
unfoldable pub search_end : ℕ → Text → ℕ → Option Text
unfolding find marker_line
search_end zero body from = none
search_end (suc fuel) body from = elim (find file_end (drop from body)) [
  | none ↦ none
  | some rel ↦
      let pos = from + rel in
      let next = search_end fuel body (pos + length file_end) in
      if at_line_start body pos
      then if not (marker_line (drop pos body))
        then next
        else if pos == 0
        then some []
        else some (take (content_end body pos) body)
      else next
]

unfoldable pub take_until_end_marker : Text → Option Text
unfolding search_end
take_until_end_marker body =
    if marker_line body then some [] else search_end (suc (length body)) body 0

-- `strip_closing_fence`
unfoldable pub strip_closing_fence : Text → Text
unfolding trim strip_suffix
strip_closing_fence rest = elim (strip_suffix (text "```") (trim rest)) [
  | some t ↦ trim t
  | none ↦ trim (trim rest)
]

unfoldable pub strip_closing_fence_prefix : Text → Text
unfolding strip_prefix trim_start
strip_closing_fence_prefix tail = elim (strip_prefix (text "```") tail) [
  | none ↦ tail
  | some rest ↦ trim_start rest
]

abbrev pub strip_newline : Text → Option Text
strip_newline t = elim (strip_prefix (13 ∷ 10 ∷ []) t) [
  | some rest ↦ some rest
  | none ↦ strip_prefix (10 ∷ []) t
]

unfoldable pub extract_raw_body : Text → Result Text DirectiveParseError
unfolding strip_closing_fence_prefix strip_prefix trim_start take_until_end_marker
extract_raw_body rest = do
  let tail = strip_closing_fence_prefix (trim_start rest)
  after_marker ←
      ok_or (refused (text "raw home.write is missing the <<<FILE body") truncated_hint)
        (strip_prefix file_begin tail)
  after_newline ←
      ok_or (refused (text "<<<FILE must be followed by a newline") truncated_hint)
        (strip_newline after_marker)
  ok_or (refused (text "raw file body is missing FILE>>>") truncated_hint)
      (take_until_end_marker after_newline)
