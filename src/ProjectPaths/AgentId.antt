-- ===== src/ProjectPaths/AgentId.antt =====
-- A valid agent id is one plain segment of a path (src/project_paths.rs).
use agent_kuibysheff.Common.{
  ℕ, Bool, true, false, [], ◌∷◌, ◌==◌, nat_eq, list_eq, inl, inr, ◌≡◌, refl, arith, ok, Text, text,
  contains_char, list_beq, Bool-cases,
}
use agent_kuibysheff.Access.Paths.{normal, slash, segments, components}
use agent_kuibysheff.ProjectPaths.{validate_agent_id}

segments_plain : (t : Text) → contains_char slash t ≡ false → segments t ≡ t ∷ []
unfolding segments contains_char
segments_plain [] h = refl
segments_plain (c ∷ t) h = elim (Bool-cases (c == slash)) [
  | inl split ↦ absurd (cc (rw split at h))
  | inr plain ↦
      let rest : contains_char slash t ≡ false = rw plain at h in rw (plain, segments_plain t rest)
]

-- A text that is neither empty, nor `.`, nor `..`, and holds no slash.
components_plain :
    (c : ℕ) (t : Text)
    → contains_char slash (c ∷ t) ≡ false
    → (c ∷ t == text ".") ≡ false
    → (c ∷ t == text "..") ≡ false
    → components (c ∷ t) ≡ normal (c ∷ t) ∷ []
unfolding components contains_char
components_plain c t plain one two = elim (Bool-cases (c == slash)) [
  | inl split ↦ absurd (cc (rw split at plain))
  | inr other ↦
      let rest : contains_char slash t ≡ false = rw other at plain in
      rw (other, segments_plain t rest, one, two)
]

-- If `.` is no alphanumeric character, a valid agent id is, as a path, one plain segment: joined to a
-- directory it names an entry of that directory, and neither the directory itself nor one above it.
pub validate_agent_id-components :
    (is_alphanumeric is_control : ℕ → Bool) (agent_id : Text)
    → is_alphanumeric b'.' ≡ false
    → validate_agent_id is_alphanumeric is_control agent_id ≡ ok tt
    → components agent_id ≡ normal agent_id ∷ []
unfolding validate_agent_id list_beq
validate_agent_id-components is_alphanumeric is_control [] dot h = cc
validate_agent_id-components is_alphanumeric is_control (c ∷ t) dot h =
    let first : is_alphanumeric c ≡ true = ground arith in
    let plain : contains_char slash (c ∷ t) ≡ false = ground arith in
    let not_dot : (c == b'.') ≡ false = ground (arith) in
    components_plain c t plain (rw not_dot) (rw not_dot)
