-- ===== src/Directive/Scan.antt =====
-- The scanner that finds where the first JSON object of a reply ends (src/agent/loop/directive.rs).
use agent_kuibysheff.Common.{
  ℕ, suc, ◌-◌, Bool, true, false, Option, none, some, [], ◌∷◌, ◌==◌, nat_eq, if◌then◌else◌, take,
  drop, saturating_add, usize_max, Result, ok, err, Text, text,
}
use mathlib.Core.Option
use agent_kuibysheff.Engine.Host.{DirectiveParseError}

abbrev pub general_hint : Text
general_hint =
    text
      "Respond with exactly one JSON object. Previous turn was not executed. Do not repeat the rejected body. Small files use arguments.content. For BSL, XML, or any text with quotes or longer than a few hundred characters, omit content and set arguments.body to \"raw\". After the JSON object write a newline, <<<FILE, a newline, the file bytes, a newline, and FILE>>>. If that body was cut off, resend only the remaining text with mode \"append\" and a complete <<<FILE ... FILE>>> block."

abbrev pub truncated_hint : Text
truncated_hint =
    text
      "Previous turn was not executed because the raw file body was cut off (missing FILE>>>). Do not repeat the partial body. Resend the remaining text with home.write arguments {\"body\":\"raw\",\"mode\":\"append\"} and a complete <<<FILE newline file-bytes newline FILE>>> block."

-- `DirectiveParseError::new`
abbrev pub refused : Text → Text → DirectiveParseError
refused message hint = record { message = message; hint = hint }

-- What the loop of `split_json_object` carries from one character to the next.
pub record Scan : Type 0 where
  pub depth : ℕ
  pub in_string : Bool
  pub escape : Bool

abbrev pub inside_string : Scan → ℕ → Scan
inside_string s ch =
    if s.escape
    then record s { escape = false }
    else if ch == 92
    then record s { escape = true }
    else if ch == 34
    then record s { in_string = false }
    else s

-- The scan behind one character, and whether that character closes the object.
unfoldable pub scan : Scan → ℕ → Scan × Bool
scan s ch =
    if s.in_string
    then (inside_string s ch, false)
    else if ch == 34
    then (record s { in_string = true }, false)
    else if ch == b'{'
    then (record s { depth = saturating_add usize_max s.depth 1 }, false)
    else if ch == b'}'
    then (record s { depth = s.depth - 1 }, s.depth - 1 == 0)
    else (s, false)

-- How many characters are read until the object is closed.
unfoldable pub object_end : Scan → Text → Option ℕ
unfolding scan
object_end s [] = none
object_end s (ch ∷ rest) =
    let later = Option.map suc (object_end (scan s ch).0 rest) in
    if (scan s ch).1 then some 1 else later

abbrev pub outside : ℕ → Scan
outside depth = record { depth = depth; in_string = false; escape = false }

unfoldable pub split_json_object : Text → Result (Text × Text) DirectiveParseError
unfolding object_end
split_json_object input = elim (object_end (outside 0) input) [
  | none ↦ err (refused (text "unterminated JSON object") general_hint)
  | some end ↦ ok (take end input, drop end input)
]
