-- ===== src/Access/Policy/Members.antt =====
-- Which tools a compiled policy allows.
use agent_kuibysheff.Common.{
  ◌≡◌, refl, ◌∙◌, ap, String, Bool, true, false, ◌&&◌, ◌||◌, List, [], ◌∷◌, arith, ◌==◌, nat_eq,
  list_eq, contains, insert, contains-insert, text, trim, split_once, contains_char,
}
use agent_kuibysheff.Access.ToolName
use agent_kuibysheff.Access.ToolName.{QualifiedTool, tool_eq, tool_ord, qualified, new-IsQualified}
use agent_kuibysheff.Access.Policy.{
  EffectiveToolPolicy, known, add_builtins, add_mcp, compile, grant_profile_skills, allows,
}

contains-add_builtins :
    (access skills tools ts : List QualifiedTool) (q : QualifiedTool)
    → contains (add_builtins access skills tools ts) q
      ≡ (contains ts q && (contains access q && contains skills q) || contains tools q)
unfolding add_builtins contains
contains-add_builtins access skills tools [] q = refl
contains-add_builtins access skills tools (t ∷ ts) q = ground (
  arith,
  contains-add_builtins access skills tools ts q,
  contains-add_builtins access skills (insert t tools) ts q,
  contains-insert t q tools,
  tool_eq.equal_iff t q,
)

contains-add_mcp :
    (skills tools ts : List QualifiedTool) (q : QualifiedTool)
    → contains (add_mcp skills tools ts) q
      ≡ (contains ts q && contains skills q || contains tools q)
unfolding add_mcp contains
contains-add_mcp skills tools [] q = refl
contains-add_mcp skills tools (t ∷ ts) q = ground (
  arith,
  contains-add_mcp skills tools ts q,
  contains-add_mcp skills (insert t tools) ts q,
  contains-insert t q tools,
  tool_eq.equal_iff t q,
)

-- A compiled policy allows exactly the known built-ins that both the access policy and the skills
-- name, and the discovered MCP tools that the skills name.
pub allows-compile :
    (access skills mcp : List QualifiedTool) (q : QualifiedTool)
    → allows (compile access skills mcp) q ≡ (
        contains mcp q && contains skills q
        || contains known q && (contains access q && contains skills q))
unfolding allows compile contains
allows-compile access skills mcp q =
    contains-add_mcp skills (add_builtins access skills [] known) mcp q
    ∙ ap (λ b. contains mcp q && contains skills q || b)
        (contains-add_builtins access skills [] known q ∙ or_false _)
  where
    or_false : (b : Bool) → (b || false) ≡ b
    or_false true = refl
    or_false false = refl

abbrev pub profile_tool : String → QualifiedTool
profile_tool tool = record { server = text "profile"; tool = text tool }

-- Granting the skill tools adds those two and nothing else.
pub allows-grant_profile_skills :
    (p : EffectiveToolPolicy) (q : QualifiedTool)
    → allows (grant_profile_skills p) q
      ≡ (profile_tool "read_skill" == q || (profile_tool "list_skill" == q || allows p q))
unfolding allows grant_profile_skills ToolName.parse trim split_once contains_char
allows-grant_profile_skills p q =
    contains-insert (profile_tool "read_skill") q (insert (profile_tool "list_skill") p.tools)
    ∙ ap (λ b. profile_tool "read_skill" == q || b)
        (contains-insert (profile_tool "list_skill") q p.tools)
