-- ===== src/Directive/Reply.antt =====
-- A whole reply with a raw body, through `parse_directive` (src/agent/loop/directive.rs).
use agent_kuibysheff.Common.{
  ℕ, suc, ◌≤◌, true, false, none, some, [], ◌∷◌, ◌++◌, ◌≡◌, refl, sym, ap, ◌∙◌, length, get_elem?,
  set, Text, text, trim, trim_start, trim_end, starts_with, Result, ok, append_assoc, usize_max,
}
use mathlib.Core.List.{reverse, reverse-append, reverse-reverse}
use agent_kuibysheff.Common.Json.{Value, object, Fields}
use agent_kuibysheff.Engine.Host.{ParsedDirective, DirectiveParseError}
use agent_kuibysheff.Directive.{
  Call, Directive, raw_indexes, set_content, put_body, attach_raw_body, parse_directive,
  strip_opening_fence,
}
use agent_kuibysheff.Directive.Marker.{file_begin, file_end, extract_raw_body}
use agent_kuibysheff.Directive.Lines.{first_marker}
use agent_kuibysheff.Directive.Body.{ends_with_cr, raw_block, extract_raw_body-raw_block}
use agent_kuibysheff.Directive.Grammar.Split.{IsObject, Splits, split_json-IsObject_iff}

-- The text ends with `>`.
abbrev Closed : Text → Type 0
Closed t = (y : Text) × (t ≡ y ++ b'>' ∷ [])

Closed-append : (s t : Text) → Closed t → Closed (s ++ t)
Closed-append s t (y, e) =
    (s ++ y, ap (λ (x : Text). s ++ x) e ∙ sym (append_assoc s y (b'>' ∷ [])))

raw_block-Closed : (content : Text) → Closed (raw_block content [])
raw_block-Closed content =
    Closed-append (10 ∷ file_begin) (10 ∷ content ++ (10 ∷ file_end ++ []))
      (Closed-append (10 ∷ content) (10 ∷ file_end ++ []) (10 ∷ text "FILE>>", refl))

trim_end_closed : (t y : Text) → t ≡ y ++ b'>' ∷ [] → trim_end t ≡ t
unfolding trim_end
trim_end_closed t y e =
    let back : reverse t ≡ b'>' ∷ reverse y = ap reverse e ∙ reverse-append y (b'>' ∷ []) in
    let kept : trim_start (reverse t) ≡ reverse t = rw back refl in
    ap reverse kept ∙ reverse-reverse t

trim-Closed : (x : Text) → Closed (b'{' ∷ x) → trim (b'{' ∷ x) ≡ b'{' ∷ x
unfolding trim
trim-Closed x (y, e) = trim_end_closed (b'{' ∷ x) y e

strip_opening_fence_brace : (x : Text) → strip_opening_fence (b'{' ∷ x) ≡ b'{' ∷ x
unfolding strip_opening_fence
strip_opening_fence_brace x = refl

put_body_object :
    (d : Directive) (index : ℕ) (call : Call) (map : Fields) (body : Text)
    → get_elem? d.tool_calls index ≡ some call
    → call.arguments ≡ object map
    → ◌≡◌ {A = Result Directive DirectiveParseError} (put_body d index body) (
        ok (record d {
          tool_calls =
              set d.tool_calls index (record call { arguments = object (set_content map body) });
        }))
unfolding put_body
put_body_object d index call map body here is_object = rw (put_body, here, is_object)

-- The directive with the content of a file put into the arguments of one of its calls.
abbrev with_content : Directive → ℕ → Call → Fields → Text → Directive
with_content d index call map content = record d {
  tool_calls =
      set d.tool_calls index (record call { arguments = object (set_content map content) });
}

abbrev Parses : (Text → Result Directive Text) → Text → ParsedDirective Value → Type 0
Parses from_str t p =
    ◌≡◌ {A = Result (ParsedDirective Value) DirectiveParseError} (parse_directive from_str t) (ok p)

attach_raw_body_lem :
    (d : Directive) (index : ℕ) (body rest : Text) (d' : Directive)
    → raw_indexes 0 d.tool_calls ≡ ok (index ∷ [])
    → ◌≡◌ {A = Result Text DirectiveParseError} (extract_raw_body rest) (ok body)
    → ◌≡◌ {A = Result Directive DirectiveParseError} (put_body d index body) (ok d')
    → ◌≡◌ {A = Result Directive DirectiveParseError} (attach_raw_body d rest) (ok d')
unfolding attach_raw_body
attach_raw_body_lem d index body rest d' raw block put = rw (attach_raw_body, raw, block, put)

-- The steps of `parse_directive`, each with its result.
parse_directive_lem :
    (from_str : Text → Result Directive Text) (t x o rest : Text) (d d' : Directive)
    → strip_opening_fence (trim t) ≡ b'{' ∷ x
    → Splits (b'{' ∷ x) (o, rest)
    → from_str o ≡ ok d
    → ◌≡◌ {A = Result Directive DirectiveParseError} (attach_raw_body d rest) (ok d')
    → Parses from_str t (record { directive = d'; json_text = o })
unfolding parse_directive starts_with
parse_directive_lem from_str t x o rest d d' prepared split reads attached =
    rw (parse_directive, prepared, split, reads, attached)

-- A reply of one JSON object and a block with a raw body behind it, whose length a `usize` holds. If
-- the JSON parser reads the object as a directive, just one call of it asks for a raw body, that call's
-- arguments are an object, no line of the body is a marker line, and the body does not end with a
-- carriage return, then the reply parses to that directive with exactly the body as the content of
-- that call, and the object alone as its text.
pub parse_directive-raw_block :
    (from_str : Text → Result Directive Text) (o content : Text) (d : Directive) (index : ℕ)
    (call : Call) (map : Fields)
    → IsObject o
    → length (o ++ raw_block content []) ≤ usize_max
    → from_str o ≡ ok d
    → raw_indexes 0 d.tool_calls ≡ ok (index ∷ [])
    → get_elem? d.tool_calls index ≡ some call
    → call.arguments ≡ object map
    → first_marker true (content ++ 10 ∷ []) ≡ none
    → ends_with_cr content ≡ false
    → Parses from_str
        (o ++ raw_block content [])
        (record { directive = with_content d index call map content; json_text = o })
parse_directive-raw_block from_str o content d index call map (i, shape, inside) small reads raw
      here is_object lines cr =
    let rest = raw_block content [] in
    let whole : o ++ rest ≡ b'{' ∷ i ++ rest = ap (λ (x : Text). x ++ rest) shape in
    let closed : Closed (b'{' ∷ i ++ rest) =
      Closed-append (b'{' ∷ i) rest (raw_block-Closed content) in
    let small' : suc (length (i ++ rest)) ≤ usize_max = rw whole at small in
    let split =
      (split_json-IsObject_iff (i ++ rest) o rest small').1 (sym whole, (i, shape, inside)) in
    let body = extract_raw_body-raw_block content [] lines cr refl in
    let put = put_body_object d index call map content here is_object in
    let attached =
      attach_raw_body_lem d index content rest (with_content d index call map content) raw body
        put in
    let prepared =
      ap strip_opening_fence (trim-Closed (i ++ rest) closed)
      ∙ strip_opening_fence_brace (i ++ rest) in
    parse_directive_lem from_str (o ++ rest) (i ++ rest) o rest d _
      (ap (λ x. strip_opening_fence (trim x)) whole ∙ prepared) split reads attached
