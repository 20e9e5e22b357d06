-- ===== src/Directive/Grammar/Sound.antt =====
-- What the scanner splits off is an object of the grammar (src/agent/loop/directive.rs).
use agent_kuibysheff.Common.{
  ℕ, zero, suc, ◌+◌, ◌-◌, ◌≤◌, true, false, Option, none, some, [], ◌∷◌, ◌++◌, ◌==◌, nat_eq, ◌≡◌,
  refl, sym, ap, ◌∙◌, inl, inr, arith, length, Text, append_assoc, usize_max, length-append, min,
  nat_beq, Bool-cases, ==_sound,
}
use mathlib.Core.Option
use agent_kuibysheff.Directive.Scan.{Scan, object_end, outside}
use agent_kuibysheff.Directive.Grammar.{Chars, Inside, quoted_at, closed_at}

-- A step of the scan that closes nothing.
later_some :
    (o : Option ℕ) (n : ℕ) → Option.map suc o ≡ some n → (m : ℕ) × (o ≡ some m) × (n ≡ suc m)
later_some none n h = cc
later_some (some m) n h = (m, refl, cc h)

-- A text splits into a literal and what the scan goes on with.
CharsSplit : ℕ → Text → ℕ → Type 0
CharsSplit d t n =
    (s : Text) × (rest : Text) × (m : ℕ) × (t ≡ s ++ rest)
    × Chars s
    × (object_end (outside d) rest ≡ some m)
    × (n ≡ length s + m)

escaped_at : ℕ → Scan
escaped_at d = record { depth = d; in_string = true; escape = true }

after_slash :
    (d : ℕ) (t : Text) (n : ℕ)
    → object_end (escaped_at d) t ≡ some n
    → (c : ℕ) × (t' : Text) × (m : ℕ) × (t ≡ c ∷ t')
      × (object_end (quoted_at d) t' ≡ some m)
      × (n ≡ suc m)
unfolding object_end escaped_at
after_slash d [] n h = cc
after_slash d (c ∷ t) n h =
    let (m, e, l) = later_some (object_end (quoted_at d) t) n h in (c, t, m, refl, e, l)

-- By induction on a bound of the length.
object_end-quoted_split :
    (b d : ℕ) (t : Text) (n : ℕ)
    → length t ≤ b
    → object_end (quoted_at d) t ≡ some n
    → CharsSplit d t n
unfolding object_end CharsSplit escaped_at
object_end-quoted_split b d [] n fits h = cc
object_end-quoted_split zero d (c ∷ t) n fits h = absurd (omega arith)
object_end-quoted_split (suc b) d (c ∷ t) n fits h = elim (Bool-cases (c == 34)) [
  | inl quote ↦
      let p = ==_sound c 34 quote in
      let (m, e, l) = later_some (object_end (outside d) t) n (rw p at h) in
      rw p (34 ∷ [], t, m, refl, Chars.closed, e, omega arith)
  | inr plain ↦ elim (Bool-cases (c == 92)) [
    | inl slash ↦
        let p = ==_sound c 92 slash in
        let (m, e, l) = later_some (object_end (escaped_at d) t) n (rw p at h) in
        let (x, t', m', shape, e', l') = after_slash d t m e in
        let short : length t' ≤ b = omega (arith, ap length shape) in
        let (s, rest, k, split, chars, goes, sum) = object_end-quoted_split b d t' m' short e' in
        rw (p, shape)
          (
            92 ∷ x ∷ s,
            rest,
            k,
            ap (λ (u : Text). 92 ∷ x ∷ u) split,
            Chars.escaped x chars,
            goes,
            omega arith,
          )
    | inr char ↦
        let (m, e, l) =
          later_some (object_end (quoted_at d) t) n (rw (object_end, char, plain) at h) in
        let (s, rest, k, split, chars, goes, sum) =
          object_end-quoted_split b d t m (omega arith) e in
        (c ∷ s, rest, k, ap (◌∷◌ c) split, Chars.other c char plain chars, goes, omega arith)
  ]
]

-- A text splits into the inside of an object and what the scan goes on with.
abbrev pub InsideSplit : ℕ → Text → ℕ → Type 0
InsideSplit d t n =
    (o : Text) × (rest : Text) × (m : ℕ) × (t ≡ o ++ rest)
    × Inside o
    × (closed_at d rest ≡ some m)
    × (n ≡ length o + m)

glue :
    (c : ℕ) {t u : Text} (s o rest : Text)
    → t ≡ s ++ u
    → u ≡ o ++ rest
    → c ∷ t ≡ (c ∷ s ++ o) ++ rest
glue c s o rest p q = ap (◌∷◌ c) (p ∙ ap (λ (x : Text). s ++ x) q ∙ sym (append_assoc s o rest))

close_split :
    (d : ℕ) (t : Text) (n : ℕ)
    → object_end (outside (suc d)) (b'}' ∷ t) ≡ some n
    → InsideSplit d (b'}' ∷ t) n
unfolding object_end
close_split zero t n h = (b'}' ∷ [], t, 0, refl, Inside.closed, refl, cc h)
close_split (suc d) t n h =
    let far : nat_beq (suc d) 0 ≡ false = ground arith in
    let back : suc (suc d) - 1 ≡ suc d = omega arith in
    let (m, e, l) = later_some (object_end (outside (suc d)) t) n (rw (back, far) at h) in
    (b'}' ∷ [], t, m, refl, Inside.closed, e, omega arith)

pub object_end-InsideSplit :
    (b d : ℕ) (t : Text) (n : ℕ)
    → length t ≤ b
    → suc d + length t ≤ usize_max
    → object_end (outside (suc d)) t ≡ some n
    → InsideSplit d t n
unfolding object_end CharsSplit
object_end-InsideSplit b d [] n fits small h = cc
object_end-InsideSplit zero d (c ∷ t) n fits small h = absurd (omega arith)
object_end-InsideSplit (suc b) d (c ∷ t) n fits small h = elim (Bool-cases (c == 34)) [
  | inl quote ↦
      let p = ==_sound c 34 quote in
      let (m, e, l) = later_some (object_end (quoted_at (suc d)) t) n (rw p at h) in
      let (s, u, k, split, chars, goes, sum) =
        object_end-quoted_split b (suc d) t m (omega arith) e in
      let size = length-append s u in
      let short : length u ≤ b = omega (arith, ap length split) in
      let (o, rest, j, split', inside, goes', sum') =
        object_end-InsideSplit b d u k short (omega (arith, ap length split)) goes in
      rw p (
        34 ∷ s ++ o,
        rest,
        j,
        glue 34 s o rest split split',
        Inside.quoted chars inside,
        goes',
        omega (arith, length-append s o),
      )
  | inr not_quote ↦ elim (Bool-cases (c == b'{')) [
    | inl brace ↦
        let p = ==_sound c b'{' brace in
        let deeper : min usize_max (suc d + 1) ≡ suc (suc d) = omega (arith, small) in
        let (m, e, l) = later_some (object_end (outside (suc (suc d))) t) n (rw (p, deeper) at h) in
        let (s, u, k, split, first, goes, sum) =
          object_end-InsideSplit b (suc d) t m (omega arith) (omega arith) e in
        let size = length-append s u in
        let short : length u ≤ b = omega (arith, ap length split) in
        let (o, rest, j, split', inside, goes', sum') =
          object_end-InsideSplit b d u k short (omega (arith, ap length split)) goes in
        rw p (
          b'{' ∷ s ++ o,
          rest,
          j,
          glue b'{' s o rest split split',
          Inside.nested first inside,
          goes',
          omega (arith, length-append s o),
        )
    | inr not_brace ↦ elim (Bool-cases (c == b'}')) [
      | inl close ↦ let p = ==_sound c b'}' close in rw p (close_split d t n (rw p at h))
      | inr plain ↦
          let (m, e, l) =
            later_some (object_end (outside (suc d)) t) n
              (rw (object_end, not_quote, not_brace, plain) at h) in
          let (o, rest, j, split, inside, goes, sum) =
            object_end-InsideSplit b d t m (omega arith) (omega arith) e in
          (
            c ∷ o,
            rest,
            j,
            ap (◌∷◌ c) split,
            Inside.other c not_quote not_brace plain inside,
            goes,
            omega arith,
          )
    ]
  ]
]
