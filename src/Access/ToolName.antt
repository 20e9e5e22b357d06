-- ===== src/Access/ToolName.antt =====
-- `QualifiedTool` of src/access/mod.rs: the identity `server.tool`.
use agent_kuibysheff.Common.{
  ℕ, ◌≡◌, ◌≢◌, ◌↔◌, inl, inr, Bool, true, false, ◌&&◌, ◌||◌, none, some, [], ◌∷◌, ◌++◌, arith, ◌==◌,
  ==_refl, ==_sound, nat_eq, list_eq, Eq, Ord, text_less, &&-eq-true, Option-cases, if◌then◌else◌,
  is_empty, Text, Result, ok, err, map_err, trim, split_once, contains_char,
}
use mathlib.Core.Path.{subst}

pub record QualifiedTool : Type 0 where
  pub server : Text
  pub tool : Text

pub data ToolNameError : Type 0 where
  empty_segment dotted_segment : ToolNameError
  -- the trimmed name has no `.`
  bare_name : Text → ToolNameError
  -- the trimmed name, and what is wrong with its segments
  invalid : Text → ToolNameError → ToolNameError

abbrev pub dot : ℕ
dot = b'.'

-- `QualifiedTool::new`
unfoldable pub new : Text → Text → Result QualifiedTool ToolNameError
new server tool =
    if is_empty server || is_empty tool
    then err empty_segment
    else if contains_char dot server || contains_char dot tool
    then err dotted_segment
    else ok (record { server = server; tool = tool })

unfoldable pub parse : Text → Result QualifiedTool ToolNameError
unfolding new
parse raw =
    let trimmed = trim raw in
    elim (split_once dot trimmed) [
      | none ↦ err (bare_name trimmed)
      | some (server, tool) ↦ map_err (invalid trimmed) (new server tool)
    ]

abbrev pub qualified : QualifiedTool → Text
qualified q = q.server ++ dot ∷ q.tool

abbrev same_tool : QualifiedTool → QualifiedTool → Bool
same_tool a b = a.server == b.server && a.tool == b.tool

pub same_tool_iff : (a b : QualifiedTool) → (same_tool a b ≡ true) ↔ (a ≡ b)
same_tool_iff a b = (
  λ h.
      let (s, t) = &&-eq-true (a.server == b.server) (a.tool == b.tool) h in
      λ i. record { server = ==_sound a.server b.server s i; tool = ==_sound a.tool b.tool t i },
  λ p. subst (λ x. same_tool a x ≡ true) p (rw (==_refl a.server, ==_refl a.tool)),
)

instance abbrev pub tool_eq : Eq QualifiedTool
tool_eq = record { equal = same_tool; equal_iff = same_tool_iff }

-- The derived order: by server, then by tool.
instance abbrev pub tool_ord : Ord QualifiedTool
tool_ord = record {
  less = λ a b. text_less a.server b.server || a.server == b.server && text_less a.tool b.tool;
}

split_once_sound :
    (sep : ℕ) (t a b : Text)
    → split_once sep t ≡ some (a, b)
    → (t ≡ a ++ sep ∷ b) × (contains_char sep a ≡ false)
unfolding split_once contains_char
split_once_sound sep [] a b h = cc
split_once_sound sep (c ∷ cs) a b h = elim (Option-cases (split_once sep cs)) [
  | inl e ↦ ground (arith, e)
  | inr ((x, y), e) ↦ ground (arith, e, split_once_sound sep cs x y e)
]

split_once-append :
    (sep : ℕ) (a b : Text)
    → contains_char sep a ≡ false
    → split_once sep (a ++ sep ∷ b) ≡ some (a, b)
unfolding split_once contains_char
split_once-append sep [] b h = rw (==_refl sep)
split_once-append sep (c ∷ cs) b h = ground (arith, split_once-append sep cs b)

-- Names that `new` accepts: two segments, neither empty nor dotted.
pub record IsQualified (q : QualifiedTool) : Type 0 where
  pub server_ne_nil : q.server ≢ []
  pub tool_ne_nil : q.tool ≢ []
  pub server_plain : contains_char dot q.server ≡ false
  pub tool_plain : contains_char dot q.tool ≡ false

pub new-IsQualified :
    (server tool : Text) (q : QualifiedTool)
    → new server tool ≡ ok q
    → (q.server ≡ server) × (q.tool ≡ tool) × IsQualified q
unfolding new
new-IsQualified server tool q h = ground arith

-- A parsed name prints as the trimmed input, and its segments are neither empty nor dotted.
pub qualified-parse :
    (raw : Text) (q : QualifiedTool) → parse raw ≡ ok q → (qualified q ≡ trim raw) × IsQualified q
unfolding parse
qualified-parse raw q h = elim (Option-cases (split_once dot (trim raw))) [
  | inl e ↦ absurd (ground (arith, e))
  | inr ((server, tool), e) ↦
      let (splits, plain) = split_once_sound dot (trim raw) server tool e in
      ground (arith, e, splits, plain)
]

-- A name without white space at its ends is read back from what it prints as.
pub parse-qualified :
    (q : QualifiedTool)
    → IsQualified q
    → trim (qualified q) ≡ qualified q
    → parse (qualified q) ≡ ok q
unfolding parse
parse-qualified q w t = ground (arith, t, split_once-append dot q.server q.tool w.server_plain)
