-- ===== src/Directive/Lines.antt =====
-- The end of a raw body, line by line: a reference for `take_until_end_marker`
-- (src/agent/loop/directive.rs), and the loop of that function measured against it.
use agent_kuibysheff.Common.{
  ℕ, zero, suc, ◌+◌, ◌-◌, ◌<◌, Bool, true, false, ◌&&◌, Option, none, some, [], ◌∷◌, ◌++◌, ◌==◌,
  nat_eq, option_eq, option_beq, if◌then◌else◌, ◌≡◌, refl, sym, ap, ◌∙◌, inl, inr, arith, length,
  take, drop, get_elem?, Text, starts_with, strip_prefix, strip_prefix_sound, find, find-le,
  find-starts_with, Option-cases, Bool-cases, length-append, append_assoc, drop-length-append,
  take-append-drop, length-take,
}
use mathlib.Core.Option
use agent_kuibysheff.Directive.Marker.{
  file_end, marker_line, at_line_start, content_end, search_end, take_until_end_marker,
}

-- The position of the first marker line; the flag tells whether the text begins a line.
unfoldable pub first_marker : Bool → Text → Option ℕ
unfolding marker_line
first_marker start [] = none
first_marker start (c ∷ cs) =
    let later = Option.map suc (first_marker (c == 10) cs) in
    if start && marker_line (c ∷ cs) then some 0 else later

-- The text before a marker line, less the line break that ends it.
abbrev pub content_before : Text → ℕ → Text
content_before body pos = if pos == 0 then [] else take (content_end body pos) body

-- The content that stands before the first marker line.
abbrev pub content_of : Text → Option Text
content_of body = Option.map (content_before body) (first_marker true body)

-- Whether the next character begins a line, behind a text.
unfoldable after : Bool → Text → Bool
after start [] = start
after start (c ∷ cs) = after (c == 10) cs

after-append : (start : Bool) (t u : Text) → after start (t ++ u) ≡ after (after start t) u
unfolding after
after-append start [] u = refl
after-append start (c ∷ t) u = after-append (c == 10) t u

last_char :
    (c : ℕ) (u v : Text) → (get_elem? (c ∷ u ++ v) (length u) == some 10) ≡ after (c == 10) u
unfolding after option_beq
last_char c [] v = refl
last_char c (d ∷ u) v = last_char d u v

at_line_start-after : (u v : Text) → at_line_start (u ++ v) (length u) ≡ after true u
unfolding after
at_line_start-after [] v = refl
at_line_start-after (c ∷ u) v =
    let far : (suc (length u) == 0) ≡ false = ground arith in
    let back : suc (length u) - 1 ≡ length u = omega arith in rw (far, back) (last_char c u v)

abbrev pub further : ℕ → Option ℕ → Option ℕ
further n o = Option.map (λ m. n + m) o

pub suc-further : (n : ℕ) (o : Option ℕ) → Option.map suc (further n o) ≡ further (suc n) o
suc-further n none = refl
suc-further n (some m) = ap some (omega arith)

further_zero : (o : Option ℕ) → further 0 o ≡ o
further_zero none = refl
further_zero (some m) = ap some (omega arith)

further-further : (n m : ℕ) (o : Option ℕ) → further n (further m o) ≡ further (n + m) o
further-further n m none = refl
further-further n m (some k) = ap some (omega arith)

not_marker : (t : Text) → starts_with file_end t ≡ false → marker_line t ≡ false
unfolding starts_with marker_line
not_marker t h = elim (Option-cases (strip_prefix file_end t)) [
  | inl e ↦ rw (marker_line, e)
  | inr (s, e) ↦ absurd (cc (rw (starts_with, e) at h))
]

&&_false : (a b : Bool) → b ≡ false → (a && b) ≡ false
&&_false a b h = ground arith

-- No marker line stands before the first occurrence of the marker.
first_marker-find :
    (start : Bool) (t : Text) (i : ℕ)
    → find file_end t ≡ some i
    → first_marker start t ≡ further i (first_marker (after start (take i t)) (drop i t))
unfolding find first_marker after
first_marker-find start [] i h = cc
first_marker-find start (c ∷ cs) i h = elim (Bool-cases (starts_with file_end (c ∷ cs))) [
  | inl here ↦
      let first : 0 ≡ i = cc (rw (find, here) at h) in
      rw (← first) (sym (further_zero (first_marker start (c ∷ cs))))
  | inr there ↦ elim (Option-cases (find file_end cs)) [
    | inl e ↦ absurd (cc (rw (find, there, e) at h))
    | inr (j, e) ↦
        let next : suc j ≡ i = cc (rw (find, there, e) at h) in
        let skip = &&_false start (marker_line (c ∷ cs)) (not_marker (c ∷ cs) there) in
        rw (← next) (
          rw (first_marker, skip)
            (ap (Option.map suc) (first_marker-find (c == 10) cs j e)
              ∙ suc-further j (first_marker (after (c == 10) (take j cs)) (drop j cs))))
  ]
]

first_marker-none : (start : Bool) (t : Text) → find file_end t ≡ none → first_marker start t ≡ none
unfolding find first_marker
first_marker-none start [] h = refl
first_marker-none start (c ∷ cs) h = elim (Bool-cases (starts_with file_end (c ∷ cs))) [
  | inl here ↦ absurd (cc (rw (find, here) at h))
  | inr there ↦ elim (Option-cases (find file_end cs)) [
    | inl e ↦
        let skip = &&_false start (marker_line (c ∷ cs)) (not_marker (c ∷ cs) there) in
        rw (first_marker, skip) (ap (Option.map suc) (first_marker-none (c == 10) cs e))
    | inr (j, e) ↦ absurd (cc (rw (find, there, e) at h))
  ]
]

seven_more :
    (o : Option ℕ) → (let up = Option.map suc in up (up (up (up (up (up (up o))))))) ≡ further 7 o
seven_more none = refl
seven_more (some m) = ap some (omega arith)

-- An occurrence that is no marker line is passed over as a whole.
first_marker_skip :
    (start : Bool) (w : Text)
    → (start && marker_line (file_end ++ w)) ≡ false
    → first_marker start (file_end ++ w) ≡ further (length file_end) (first_marker false w)
unfolding first_marker
first_marker_skip start w h = rw (first_marker, h) (seven_more (first_marker false w))

-- What the loop answers at a position up to which it has searched.
abbrev from_here : Text → ℕ → Option ℕ → Option Text
from_here body n o = Option.map (content_before body) (further n o)

found_text : (t : Text) (i : ℕ) → find file_end t ≡ some i → (w : Text) × (drop i t ≡ file_end ++ w)
unfolding starts_with
found_text t i h = elim (Option-cases (strip_prefix file_end (drop i t))) [
  | inl e ↦ let here = find-starts_with file_end t i h in absurd (cc (rw (starts_with, e) at here))
  | inr (w, e) ↦ (w, strip_prefix_sound file_end (drop i t) w e)
]

search_end_next :
    (fuel : ℕ) (body q : Text) (from i pos : ℕ) (start : Bool)
    → find file_end (drop from body) ≡ some i
    → from + i ≡ pos
    → at_line_start body pos ≡ start
    → drop pos body ≡ q
    → (start && marker_line q) ≡ false
    → search_end (suc fuel) body from ≡ search_end fuel body (pos + length file_end)
unfolding search_end
search_end_next fuel body q from i pos false e sum line rest h = rw (search_end, e, sum, line)
search_end_next fuel body q from i pos true e sum line rest h =
    rw (search_end, e, sum, line, rest, h)

search_end_stop :
    (fuel : ℕ) (body q : Text) (from i pos : ℕ) (start : Bool)
    → find file_end (drop from body) ≡ some i
    → from + i ≡ pos
    → at_line_start body pos ≡ start
    → drop pos body ≡ q
    → (start && marker_line q) ≡ true
    → search_end (suc fuel) body from ≡ some (content_before body pos)
unfolding search_end
search_end_stop fuel body q from i pos false e sum line rest h = cc
search_end_stop fuel body q from i pos true e sum line rest h = elim (Bool-cases (pos == 0)) [
  | inl zeroth ↦ rw (search_end, e, sum, line, rest, h, zeroth)
  | inr later ↦ rw (search_end, e, sum, line, rest, h, later)
]

first_marker_here :
    (start : Bool) (w : Text)
    → (start && marker_line (file_end ++ w)) ≡ true
    → first_marker start (file_end ++ w) ≡ some 0
unfolding first_marker
first_marker_here start w h = rw (first_marker, h)

Searched : ℕ → Text → Text → Text → Type 0
Searched fuel body u t =
    search_end fuel body (length u) ≡ from_here body (length u) (first_marker (after true u) t)

-- One round of the loop at an occurrence, which stands between `p` and `w`.
search_end_round :
    (fuel : ℕ) (body u p w : Text)
    → body ≡ (u ++ p) ++ (file_end ++ w)
    → find file_end (drop (length u) body) ≡ some (length p)
    → Searched fuel body ((u ++ p) ++ file_end) w
    → search_end (suc fuel) body (length u)
      ≡ from_here body
          (length u)
          (further (length p) (first_marker (after true (u ++ p)) (file_end ++ w)))
unfolding Searched after
search_end_round fuel body u p w whole e ih =
    let v = u ++ p in
    let q = file_end ++ w in
    let sum : length u + length p ≡ length v = omega (arith, length-append u p) in
    let line : at_line_start body (length v) ≡ after true v = rw whole (at_line_start-after v q) in
    let rest : drop (length v) body ≡ q = rw whole (drop-length-append v q) in
    elim (Bool-cases (after true v && marker_line q)) [
      | inl stop ↦
          let at : length u + (length p + 0) ≡ length v = omega arith in
          search_end_stop fuel body q (length u) (length p) (length v) _ e sum line rest stop
          ∙ rw (first_marker_here (after true v) w stop, at)
      | inr go ↦
          let far : length (v ++ file_end) ≡ length v + length file_end =
            length-append v file_end in
          let fresh : after true (v ++ file_end) ≡ false = after-append true v file_end in
          let ih' = rw (far, fresh) at ih in
          search_end_next fuel body q (length u) (length p) (length v) _ e sum line rest go
          ∙ ih'
          ∙ sym (
              ap (from_here body (length u)) (
                ap (further (length p)) (first_marker_skip (after true v) w go)
                ∙ further-further (length p) (length file_end) (first_marker false w))
              ∙ ap (Option.map (content_before body)) (
                  further-further (length u) (length p + length file_end) (first_marker false w)
                  ∙ ap (λ n. further n (first_marker false w)) (omega arith)))
    ]

search_end-Searched :
    (fuel : ℕ) (body u t : Text) → body ≡ u ++ t → length t < fuel → Searched fuel body u t
unfolding search_end Searched
search_end-Searched zero body u t whole enough = absurd (omega arith)
search_end-Searched (suc fuel) body u t whole enough =
    let tail : drop (length u) body ≡ t = rw whole (drop-length-append u t) in
    elim (Option-cases (find file_end t)) [
      | inl e ↦ rw (search_end, tail, e, first_marker-none (after true u) t e)
      | inr (i, e) ↦
          let (w, q) = found_text t i e in
          let p = take i t in
          let size : length p ≡ i = omega (arith, length-take i t, find-le file_end t i e) in
          let parts : t ≡ p ++ (file_end ++ w) =
            sym (take-append-drop i t) ∙ ap (λ (x : Text). p ++ x) q in
          let whole' : body ≡ (u ++ p) ++ (file_end ++ w) =
            whole ∙ ap (λ (x : Text). u ++ x) parts ∙ sym (append_assoc u p (file_end ++ w)) in
          let whole'' : body ≡ ((u ++ p) ++ file_end) ++ w =
            whole' ∙ sym (append_assoc (u ++ p) file_end w) in
          let shorter : length w < fuel =
            omega
              (arith, ap length parts, length-append p (file_end ++ w), length-append file_end w) in
          let ih = search_end-Searched fuel body ((u ++ p) ++ file_end) w whole'' shorter in
          let here : find file_end (drop (length u) body) ≡ some (length p) = rw (tail, size) e in
          search_end_round fuel body u p w whole' here ih
          ∙ ap (from_here body (length u)) (
              ap (further (length p)) (
                ap (λ b. first_marker b (file_end ++ w)) (after-append true u p)
                ∙ ap (first_marker (after (after true u) p)) (sym q))
              ∙ rw size (sym (first_marker-find (after true u) t i e)))
    ]

-- The end of a raw body is where its first marker line begins: `take_until_end_marker` gives the
-- text before that line, less the line break before it, and nothing if there is no such line. A
-- marker line is `FILE>>>` at the beginning of a line, with the end of the text or a line break
-- behind it.
pub take_until_end_marker-eq : (body : Text) → take_until_end_marker body ≡ content_of body
unfolding take_until_end_marker Searched after first_marker
take_until_end_marker-eq body = elim (Bool-cases (marker_line body)) [
  | inl m ↦ at_once body m
  | inr no_marker ↦
      let all = search_end-Searched (suc (length body)) body [] body refl (omega arith) in
      rw (take_until_end_marker, no_marker)
        (all ∙ ap (Option.map (content_before body)) (further_zero (first_marker true body)))
]
  where
    at_once : (body : Text) → marker_line body ≡ true → take_until_end_marker body ≡ content_of body
    at_once [] m = cc
    at_once (c ∷ cs) m = rw (take_until_end_marker, first_marker, m)
