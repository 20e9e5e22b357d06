-- ===== src/Access/Policy.antt =====
-- `EffectiveToolPolicy` of src/access/mod.rs: the tools of one run.
pub mod Members
use agent_kuibysheff.Common.{
  ◌≡◌, refl, Bool, true, false, ◌&&◌, ◌||◌, List, [], ◌∷◌, map, arith, ◌==◌, nat_eq, list_eq,
  contains, insert, contains-insert, Eq, Text, text, Result, ok, err, if◌then◌else◌,
}
use agent_kuibysheff.Access.ToolName
use agent_kuibysheff.Access.ToolName.{QualifiedTool, tool_eq, tool_ord, qualified}
use agent_kuibysheff.Access.Registry.{known_builtin_names, legacy_builtin_names}

-- `parse_known_builtins`: a name that does not parse would be unreachable code.
unfoldable pub parse_known_builtins : List Text → List QualifiedTool
parse_known_builtins [] = []
parse_known_builtins (name ∷ names) = elim (ToolName.parse name) [
  | ok q ↦ insert q (parse_known_builtins names)
  | err _ ↦ parse_known_builtins names
]

unfoldable pub known : List QualifiedTool
unfolding parse_known_builtins
known = parse_known_builtins known_builtin_names

pub record EffectiveToolPolicy : Type 0 where
  pub tools : List QualifiedTool

-- The loop over the known built-ins.
unfoldable pub add_builtins :
    List QualifiedTool
    → List QualifiedTool
    → List QualifiedTool
    → List QualifiedTool
    → List QualifiedTool
add_builtins access skills tools [] = tools
add_builtins access skills tools (t ∷ ts) =
    add_builtins access skills
      (if contains access t && contains skills t then insert t tools else tools) ts

-- The loop over the discovered MCP tools.
unfoldable pub add_mcp :
    List QualifiedTool → List QualifiedTool → List QualifiedTool → List QualifiedTool
add_mcp skills tools [] = tools
add_mcp skills tools (t ∷ ts) =
    add_mcp skills (if contains skills t then insert t tools else tools) ts

-- `EffectiveToolPolicy::compile`; `access` is the policy's `allowed_builtins`.
unfoldable pub compile :
    List QualifiedTool → List QualifiedTool → List QualifiedTool → EffectiveToolPolicy
unfolding add_builtins add_mcp
compile access skills mcp_tools = record {
  tools = add_mcp skills (add_builtins access skills [] known) mcp_tools;
}

abbrev insert_named : Text → List QualifiedTool → List QualifiedTool
insert_named name tools = elim (ToolName.parse name) [ ok q ↦ insert q tools | err _ ↦ tools ]

unfoldable pub grant_profile_skills : EffectiveToolPolicy → EffectiveToolPolicy
grant_profile_skills p = record p {
  tools =
      insert_named (text "profile.read_skill") (insert_named (text "profile.list_skill") p.tools);
}

unfoldable pub allows : EffectiveToolPolicy → QualifiedTool → Bool
allows p q = contains p.tools q

unfoldable pub allows_server_tool : EffectiveToolPolicy → Text → Text → Bool
allows_server_tool p server tool = elim (ToolName.new server tool) [
  | ok q ↦ contains p.tools q
  | err _ ↦ false
]

-- Sorted qualified names.
unfoldable pub advertised : EffectiveToolPolicy → List Text
advertised p = map qualified p.tools
