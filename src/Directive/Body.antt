-- ===== src/Directive/Body.antt =====
-- A raw body survives the way through a reply (src/agent/loop/directive.rs).
use agent_kuibysheff.Common.{
  ℕ, suc, ◌+◌, ◌-◌, ◌<◌, Bool, true, false, ◌&&◌, Option, none, some, [], ◌∷◌, ◌++◌, ◌==◌, nat_eq,
  option_eq, ◌≡◌, refl, ap, ◌∙◌, inl, inr, arith, length, get_elem?, get_elem?-append, Text,
  strip_prefix, Bool-cases, Option-cases, take-length-append, Result, ok, contains_char,
  starts_with, ltb,
}
use mathlib.Core.Option
use agent_kuibysheff.Engine.Host.{DirectiveParseError}
use agent_kuibysheff.Directive.Marker.{
  file_begin, file_end, ends_line, marker_line, content_end, extract_raw_body,
}
use agent_kuibysheff.Directive.Lines.{
  first_marker, content_of, suc-further, take_until_end_marker-eq,
}

-- A prefix without a line break is decided before the first line break.
strip_prefix_line :
    (p s v : Text)
    → contains_char 10 p ≡ false
    → strip_prefix p (s ++ 10 ∷ v) ≡ Option.map (λ (r : Text). r ++ 10 ∷ v) (strip_prefix p s)
unfolding strip_prefix contains_char
strip_prefix_line [] s v h = refl
strip_prefix_line (c ∷ p) [] v h = ground arith
strip_prefix_line (c ∷ p) (d ∷ s) v h = elim (Bool-cases (c == d)) [
  | inl same ↦ rw same (strip_prefix_line p s v (ground arith))
  | inr other ↦ rw other
]

-- A line that is closed is a marker or not, whatever follows it.
ends_line_line : (s v : Text) → ends_line (s ++ 10 ∷ v) ≡ ends_line (s ++ 10 ∷ [])
unfolding starts_with
ends_line_line [] v = refl
ends_line_line (c ∷ []) v = ground arith
ends_line_line (c ∷ d ∷ s) v = ground arith

marker_line_line : (s v : Text) → marker_line (s ++ 10 ∷ v) ≡ marker_line (s ++ 10 ∷ [])
unfolding marker_line contains_char
marker_line_line s v = elim (Option-cases (strip_prefix file_end s)) [
  | inl e ↦
      rw (marker_line, strip_prefix_line file_end s v refl, strip_prefix_line file_end s [] refl, e)
  | inr (r, e) ↦
      rw (marker_line, strip_prefix_line file_end s v refl, strip_prefix_line file_end s [] refl, e)
        (ends_line_line r v)
]

one_further : (o : Option ℕ) → Option.map suc o ≡ Option.map (λ n. 1 + n) o
one_further none = refl
one_further (some m) = ap some (omega arith)

none_below : (o : Option ℕ) → Option.map suc o ≡ none → o ≡ none
none_below none h = refl
none_below (some m) h = cc

-- Behind lines that are no markers the search starts anew.
first_marker-append :
    (start : Bool) (s v : Text)
    → first_marker start (s ++ 10 ∷ []) ≡ none
    → first_marker start (s ++ 10 ∷ v) ≡ Option.map (λ n. suc (length s) + n) (first_marker true v)
unfolding first_marker
first_marker-append false [] v h = one_further (first_marker true v)
first_marker-append true [] v h = one_further (first_marker true v)
first_marker-append start (c ∷ s) v h =
    let same : (start && marker_line (c ∷ s ++ 10 ∷ v))
        ≡ (start && marker_line (c ∷ s ++ 10 ∷ [])) =
      ap (λ b. start && b) (marker_line_line (c ∷ s) v) in
    elim (Bool-cases (start && marker_line (c ∷ s ++ 10 ∷ []))) [
      | inl marker ↦ absurd (cc (rw (first_marker, marker) at h))
      | inr plain ↦
          let tail : first_marker (c == 10) (s ++ 10 ∷ []) ≡ none =
            none_below (first_marker (c == 10) (s ++ 10 ∷ [])) (rw (first_marker, plain) at h) in
          rw (first_marker, same, plain)
            (ap (Option.map suc) (first_marker-append (c == 10) s v tail)
              ∙ suc-further (suc (length s)) (first_marker true v))
    ]

-- Whether the last character is a carriage return.
abbrev pub ends_with_cr : Text → Bool
ends_with_cr t = ltb 0 (length t) && get_elem? t (length t - 1) == some 13

content_end-append :
    (content v : Text)
    → ends_with_cr content ≡ false
    → content_end (content ++ v) (suc (length content)) ≡ length content
content_end-append content v h =
    let back : suc (length content) - 1 ≡ length content = omega arith in
    elim (Bool-cases (ltb 0 (length content))) [
      | inr empty ↦ rw (back, empty)
      | inl some_char ↦
          let inside : length content - 1 < length content = ground arith in
          let same = get_elem?-append content v (length content - 1) inside in
          let plain : (get_elem? content (length content - 1) == some 13) ≡ false =
            rw some_char at h in
          rw (back, some_char, same, plain)
    ]

first_marker_end :
    (ending : Text) → ends_line ending ≡ true → first_marker true (file_end ++ ending) ≡ some 0
unfolding first_marker marker_line
first_marker_end ending h = rw h

content_of-append :
    (content ending : Text)
    → first_marker true (content ++ 10 ∷ []) ≡ none
    → ends_with_cr content ≡ false
    → ends_line ending ≡ true
    → content_of (content ++ (10 ∷ file_end ++ ending)) ≡ some content
content_of-append content ending lines cr closed =
    let v = 10 ∷ file_end ++ ending in
    let n = length content in
    let far : (suc n == 0) ≡ false = ground arith in
    let sum : suc n + 0 ≡ suc n = omega arith in
    let here =
      first_marker-append true content (file_end ++ ending) lines
      ∙ ap (Option.map (λ m. suc n + m)) (first_marker_end ending closed) in
    rw here
      (rw (sum, far, content_end-append content v cr) (ap some (take-length-append content v)))

-- The block in which a reply carries a raw body, behind a line break.
abbrev pub raw_block : Text → Text → Text
raw_block content ending = 10 ∷ file_begin ++ (10 ∷ content ++ (10 ∷ file_end ++ ending))

-- A raw body between its two markers, each on a line of its own, comes back as it is, if none of its
-- lines is a marker line, it does not end with a carriage return, and the closing marker is at the
-- end of its line.
pub extract_raw_body-raw_block :
    (content ending : Text)
    → first_marker true (content ++ 10 ∷ []) ≡ none
    → ends_with_cr content ≡ false
    → ends_line ending ≡ true
    → ◌≡◌ {A = Result Text DirectiveParseError}
        (extract_raw_body (raw_block content ending))
        (ok content)
unfolding extract_raw_body
extract_raw_body-raw_block content ending lines cr closed = rw (
  extract_raw_body,
  take_until_end_marker-eq (content ++ (10 ∷ file_end ++ ending)),
  content_of-append content ending lines cr closed,
)
