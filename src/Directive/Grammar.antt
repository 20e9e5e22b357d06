-- ===== src/Directive/Grammar.antt =====
-- The JSON object at the beginning of a reply, by a grammar in place of a scanner: what
-- `split_json_object` of src/agent/loop/directive.rs is to find.
pub mod Sound
pub mod Split
use agent_kuibysheff.Common.{
  ℕ, zero, suc, ◌+◌, ◌-◌, ◌≤◌, Bool, true, false, Option, none, some, [], ◌∷◌, ◌++◌, ◌==◌, nat_eq,
  ◌≡◌, ◌≢◌, refl, sym, ap, ◌∙◌, arith, tests, length, Text, append_assoc, usize_max, length-append,
  if◌then◌else◌, min, nat_beq,
}
use mathlib.Core.Option
use agent_kuibysheff.Directive.Scan.{Scan, scan, object_end, outside}

-- The rest of a string literal behind its opening quote, up to the closing one.
pub data Chars : Text → Type 0 where
  closed : Chars (34 ∷ [])
  escaped : (c : ℕ) {t : Text} → Chars t → Chars (92 ∷ c ∷ t)
  other : (c : ℕ) {t : Text} → (c == 92) ≡ false → (c == 34) ≡ false → Chars t → Chars (c ∷ t)

-- The rest of an object behind its opening brace, up to the closing one.
pub data Inside : Text → Type 0 where
  closed : Inside (b'}' ∷ [])
  quoted : {s t : Text} → Chars s → Inside t → Inside (34 ∷ s ++ t)
  nested : {o t : Text} → Inside o → Inside t → Inside (b'{' ∷ o ++ t)
  other :
      (c : ℕ) {t : Text}
      → (c == 34) ≡ false
      → (c == b'{') ≡ false
      → (c == b'}') ≡ false
      → Inside t
      → Inside (c ∷ t)

abbrev pub quoted_at : ℕ → Scan
quoted_at depth = record { depth = depth; in_string = true; escape = false }

abbrev pub further : ℕ → Option ℕ → Option ℕ
further n o = Option.map (λ m. n + m) o

further-suc : (n : ℕ) (o : Option ℕ) → Option.map suc (further n o) ≡ further (suc n) o
further-suc n none = refl
further-suc n (some m) = ap some (omega arith)

further-further : (n m : ℕ) (o : Option ℕ) → further n (further m o) ≡ further (n + m) o
further-further n m none = refl
further-further n m (some k) = ap some (omega arith)

map-suc : (o : Option ℕ) → Option.map suc o ≡ further 1 o
map-suc none = refl
map-suc (some m) = ap some (omega arith)

-- A string literal is passed over, whatever it holds.
pub object_end-Chars :
    (d : ℕ) {s : Text} (rest : Text)
    → Chars s
    → object_end (quoted_at d) (s ++ rest) ≡ further (length s) (object_end (outside d) rest)
unfolding object_end
object_end-Chars d rest Chars.closed = map-suc (object_end (outside d) rest)
object_end-Chars d rest (escaped c {t} r) =
    ap (Option.map suc) (ap (Option.map suc) (object_end-Chars d rest r))
    ∙ ap (Option.map suc) (further-suc (length t) (object_end (outside d) rest))
    ∙ further-suc (suc (length t)) (object_end (outside d) rest)
object_end-Chars d rest (Chars.other c {t} a b r) =
    rw (a, b)
      (ap (Option.map suc) (object_end-Chars d rest r)
        ∙ further-suc (length t) (object_end (outside d) rest))

two_parts :
    (s t : Text) (o : Option ℕ)
    → Option.map suc (further (length s) (further (length t) o)) ≡ further (suc (length (s ++ t))) o
two_parts s t none = refl
two_parts s t (some m) = ap some (omega (arith, length-append s t))

-- What follows the end of an object at a depth: at depth 0 the scan is over.
abbrev pub closed_at : ℕ → Text → Option ℕ
closed_at zero rest = some 0
closed_at (suc d) rest = object_end (outside (suc d)) rest

pub object_end-Inside :
    (d : ℕ) {o : Text} (rest : Text)
    → Inside o
    → suc d + length o ≤ usize_max
    → object_end (outside (suc d)) (o ++ rest) ≡ further (length o) (closed_at d rest)
unfolding object_end
object_end-Inside zero rest Inside.closed h = refl
object_end-Inside (suc d) rest Inside.closed h =
    let back : suc (suc d) - 1 ≡ suc d = omega arith in
    let far : nat_beq (suc d) 0 ≡ false = ground arith in
    rw (back, far) (map-suc (object_end (outside (suc d)) rest))
object_end-Inside d rest (quoted {s} {t} q r) h =
    let fits : suc d + length t ≤ usize_max = omega (arith, length-append s t) in
    let tail = object_end-Inside d rest r fits in
    ap (λ x. Option.map suc (object_end (quoted_at (suc d)) x)) (append_assoc s t rest)
    ∙ ap (Option.map suc) (object_end-Chars (suc d) (t ++ rest) q ∙ ap (further (length s)) tail)
    ∙ two_parts s t (closed_at d rest)
object_end-Inside d rest (nested {o} {t} q r) h =
    let fits : suc d + length t ≤ usize_max = omega (arith, length-append o t) in
    let fits' : suc (suc d) + length o ≤ usize_max = omega (arith, length-append o t) in
    let deeper : min usize_max (suc d + 1) ≡ suc (suc d) = omega (arith, fits') in
    let tail = object_end-Inside d rest r fits in
    ap (λ x. Option.map suc (object_end (outside x) ((o ++ t) ++ rest))) deeper
    ∙ ap (λ x. Option.map suc (object_end (outside (suc (suc d))) x)) (append_assoc o t rest)
    ∙ ap (Option.map suc)
        (object_end-Inside (suc d) (t ++ rest) q fits' ∙ ap (further (length o)) tail)
    ∙ two_parts o t (closed_at d rest)
object_end-Inside d rest (Inside.other c {t} a b e r) h =
    rw (a, b, e)
      (ap (Option.map suc) (object_end-Inside d rest r (omega arith))
        ∙ further-suc (length t) (closed_at d rest))
