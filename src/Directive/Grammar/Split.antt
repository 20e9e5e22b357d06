-- ===== src/Directive/Grammar/Split.antt =====
-- `split_json_object` and the grammar agree (src/agent/loop/directive.rs).
use agent_kuibysheff.Common.{
  ℕ, suc, ◌+◌, ◌≤◌, none, some, ◌∷◌, ◌++◌, ◌≡◌, refl, sym, ap, ◌∙◌, inl, inr, arith, length, Text,
  usize_max, Option-cases, take, drop, Result, ok, ◌↔◌, take-length-append, drop-length-append,
  length-append,
}
use agent_kuibysheff.Engine.Host.{DirectiveParseError}
use agent_kuibysheff.Directive.Scan.{object_end, outside, split_json_object}
use agent_kuibysheff.Directive.Grammar.{Inside, object_end-Inside}
use agent_kuibysheff.Directive.Grammar.Sound.{object_end-InsideSplit}

-- A text is one object of the grammar.
abbrev pub IsObject : Text → Type 0
IsObject o = (i : Text) × (o ≡ b'{' ∷ i) × Inside i

abbrev pub Splits : Text → Text × Text → Type 0
Splits t p = ◌≡◌ {A = Result (Text × Text) DirectiveParseError} (split_json_object t) (ok p)

split_at_end :
    (t : Text) (n : ℕ)
    → object_end (outside 1) t ≡ some n
    → Splits (b'{' ∷ t) (b'{' ∷ take n t, drop n t)
unfolding split_json_object object_end
split_at_end t n e = rw (split_json_object, e)

split_at_none :
    (t o rest : Text) → object_end (outside 1) t ≡ none → Splits (b'{' ∷ t) (o, rest) → ⊥
unfolding split_json_object object_end
split_at_none t o rest e h = cc (rw (split_json_object, e) at h)

split_json_object_found :
    (t i rest : Text)
    → suc (length t) ≤ usize_max
    → t ≡ i ++ rest
    → Inside i
    → Splits (b'{' ∷ t) (b'{' ∷ i, rest)
split_json_object_found t i rest small split inside =
    let fits : 1 + length i ≤ usize_max =
      omega (arith, small, ap length split, length-append i rest) in
    let same : length i + 0 ≡ length i = omega arith in
    let e : object_end (outside 1) (i ++ rest) ≡ some (length i) =
      object_end-Inside 0 rest inside fits ∙ ap some same in
    rw split (
      split_at_end (i ++ rest) (length i) e
      ∙ rw (take-length-append i rest, drop-length-append i rest))

split_json-IsObject_sound :
    (t o rest : Text)
    → suc (length t) ≤ usize_max
    → Splits (b'{' ∷ t) (o, rest)
    → (b'{' ∷ t ≡ o ++ rest) × IsObject o
split_json-IsObject_sound t o rest small h = elim (Option-cases (object_end (outside 1) t)) [
  | inl e ↦ absurd (split_at_none t o rest e h)
  | inr (n, e) ↦
      let small' : 1 + length t ≤ usize_max = omega arith in
      let (i, left, m, split, inside, over, sum) =
        object_end-InsideSplit (length t) 0 t n (omega arith) small' e in
      let found = split_json_object_found t i left small split inside in
      let both : ok (o, rest) ≡ ok (b'{' ∷ i, left) = sym h ∙ found in
      let first : o ≡ b'{' ∷ i = cc both in
      let second : rest ≡ left = cc both in
      rw (first, second) (ap (◌∷◌ b'{') split, (i, refl, inside))
]

-- For a text that begins with `{` and whose length a `usize` holds, `split_json_object` succeeds with
-- an object and a remainder exactly if the two make up the text and the first is one object of the
-- grammar: balanced braces, outside of string literals in which a backslash escapes a character.
pub split_json-IsObject_iff :
    (t o rest : Text)
    → suc (length t) ≤ usize_max
    → Splits (b'{' ∷ t) (o, rest) ↔ ((b'{' ∷ t ≡ o ++ rest) × IsObject o)
split_json-IsObject_iff t o rest small = (split_json-IsObject_sound t o rest small, back)
  where
    back : ((b'{' ∷ t ≡ o ++ rest) × IsObject o) → Splits (b'{' ∷ t) (o, rest)
    back (whole, (i, shape, inside)) =
        let tail : t ≡ i ++ rest = cc (rw shape at whole) in
        rw shape (split_json_object_found t i rest small tail inside)
